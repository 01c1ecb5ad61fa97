-- ===== src/Capture/Fold/Assembled.antt =====
-- The loop of `run_once` over the records keeps its outcomes in one row from the acknowledged
-- position on.
use mathlib.Core.Path.{subst₂}
use memoriesql.Prelude.{
  ℕ, ◌+◌, ◌≤◌, ◌≡◌, refl, sym, ap, subst, ◌∙◌, ◌⊎◌, inl, inr, Bool, true, false, String, Option,
  none, some, List, [], ◌∷◌, ◌++◌, length, ltb, eqb, ok, arith, tests, >>=-eq-ok as and_then-eq-ok,
}
use memoriesql.Contracts.Runtime.{Runtime}
use memoriesql.Contracts.Exec.{Exec, raise, >>=-eq-ok, lift->>=-eq-ok, pure-eq-ok, if-cases}
use memoriesql.Capture.Host.{Datetime, FileIdentity}
use memoriesql.Capture.Fold.Frame.{FramedSourceRecord}
use memoriesql.Capture.Fold.Source.{DurableTranscriptReadRequest, DurableTranscriptRead}
use memoriesql.Capture.Fold.Exact.{FoldSource}
use memoriesql.Capture.Fold.Outcome.{
  Envelopes, policy_outcome, TranscriptFoldOutcomeKind, policy_disposition_kind,
  ScopeExclusionReason, TranscriptFoldOutcome, validate_outcome,
}
use memoriesql.Capture.Fold.Command.{fold_max_outcomes}
use memoriesql.Capture.Fold.Cursor.{max_state_bytes}
use memoriesql.Capture.Fold.Sound.{Folds, validate_outcome-Covers}
use memoriesql.Capture.Fold.Adapter.{
  Advance, stepped, unparsed, failed, QualifiedTranscriptFoldAdapter,
}
use memoriesql.Capture.Fold.Records.{
  Fallback, Assembly, fall_back, reach_limit, consume, finish_turn, exact_outcome, assembly_span,
  exceeded, turn_outcome, finalize_turn, finalized_step, take_step, within_limits, visit_record,
  go_on, assemble_records,
}

-- The byte after the last of the records, or the given one.
unfoldable pub end_of : ℕ → List FramedSourceRecord → ℕ
end_of byte [] = byte
end_of byte (r ∷ records) = end_of r.end_offset records

-- Outcomes and one more that starts where they end.
pub Folds-snoc :
    (byte index last_byte last_index : ℕ) (outcomes : List TranscriptFoldOutcome)
    (o : TranscriptFoldOutcome)
    → Folds byte index last_byte last_index outcomes
    → Folds last_byte last_index o.byte_end_exclusive o.end_record_index (o ∷ [])
    → Folds byte index o.byte_end_exclusive o.end_record_index (outcomes ++ (o ∷ []))
Folds-snoc byte index last_byte last_index [] o (at_byte, at_index) (b, i, n, m, c, more) =
    (b ∙ sym at_byte, i ∙ sym at_index, n, m, c, more)
Folds-snoc byte index last_byte last_index (p ∷ outcomes) o (b, i, n, m, c, more) last = (
  b,
  i,
  n,
  m,
  c,
  Folds-snoc p.byte_end_exclusive p.end_record_index last_byte last_index outcomes o more last,
)

-- The outcomes so far run from the position `byte`, `index` to the start of the next.
abbrev pub InRow : ℕ → ℕ → Assembly → Type 0
InRow byte index a = Folds byte index a.outcome_start_offset a.outcome_start_record a.outcomes

-- The loop goes on before the record at `index`, whose predecessor ended at `last`.
pub record Going (byte record_index index last : ℕ) (a : Assembly) : Type 0 where
  pub row : InRow byte record_index a
  pub unbroken : a.fallback ≡ none
  pub open_end : a.outcome_limit_reached ≡ false
  pub consumed : a.consumed_record_count ≡ index
  pub behind : a.pending_records_start ≤ index
  pub caught_up : a.pending_records_start ≡ index → a.outcome_start_offset ≡ last

-- The loop was left: records are left to a fallback, or the outcomes are as many as there may be.
abbrev pub Stopped : ℕ → ℕ → Assembly → Type 0
Stopped byte record_index a =
    InRow byte record_index a
    × (((fallback : Fallback) × (a.fallback ≡ some fallback) × (a.outcome_limit_reached ≡ false))
        ⊎ ((a.fallback ≡ none)
            × (a.outcome_limit_reached ≡ true)
            × (length a.outcomes ≡ fold_max_outcomes)))

abbrev Visited : ℕ → ℕ → ℕ → ℕ → Bool × Assembly → Type 0
Visited byte record_index index last (true, a) = Going byte record_index index last a
Visited byte record_index index last (false, a) = Stopped byte record_index a

abbrev pub Assembled : ℕ → ℕ → ℕ → ℕ → Assembly → Type 0
Assembled byte record_index count last a =
    Going byte record_index count last a ⊎ Stopped byte record_index a

-- What an outcome of the records up to `r` takes.
abbrev pub Takes : Assembly → FramedSourceRecord → TranscriptFoldOutcome → Type 0
Takes a r o =
    (o.byte_start ≡ a.outcome_start_offset)
    × (o.start_record_index ≡ a.outcome_start_record)
    × (o.byte_end_exclusive ≡ r.end_offset)
    × (o.end_record_index ≡ r.record_index + 1)

pub Takes-Folds :
    {E : Type 0} (envelopes : Envelopes E) (byte record_index : ℕ) (a : Assembly)
    (r : FramedSourceRecord) (o : TranscriptFoldOutcome)
    → InRow byte record_index a
    → Takes a r o
    → validate_outcome envelopes o ≡ ok tt
    → Folds byte record_index r.end_offset (r.record_index + 1) (a.outcomes ++ (o ∷ []))
Takes-Folds envelopes byte record_index a r o row (start, first, stop, final) valid =
    let (forward, records, covers) = validate_outcome-Covers envelopes o valid in
    subst₂ (λ b i. Folds byte record_index b i (a.outcomes ++ (o ∷ []))) stop final
      (Folds-snoc byte record_index a.outcome_start_offset a.outcome_start_record a.outcomes o row
        (start, first, forward, records, covers, (refl, refl)))

finish_turn-Going :
    {E : Type 0} (envelopes : Envelopes E) (byte record_index : ℕ) (a : Assembly) (index last : ℕ)
    (r : FramedSourceRecord) (o : TranscriptFoldOutcome)
    → Going byte record_index (index + 1) last a
    → Takes a r o
    → validate_outcome envelopes o ≡ ok tt
    → Going byte record_index (index + 1) r.end_offset (finish_turn a index r o)
unfolding finish_turn
finish_turn-Going envelopes byte record_index a index last r o going takes valid = record {
  row = Takes-Folds envelopes byte record_index a r o going.row takes valid;
  unbroken = going.unbroken;
  open_end = going.open_end;
  consumed = going.consumed;
  behind = omega arith;
  caught_up = λ _. refl;
}

consume-Going :
    (byte record_index : ℕ) (a : Assembly) (index last : ℕ) (state : List ℕ)
    → Going byte record_index index last a
    → Going byte record_index (index + 1) last (consume a index state)
unfolding consume
consume-Going byte record_index a index last state going = record {
  row = going.row;
  unbroken = going.unbroken;
  open_end = going.open_end;
  consumed = refl;
  behind = omega (arith, going.behind);
  caught_up = λ e. absurd (omega (arith, e, going.behind));
}

fall_back-Stopped :
    (byte record_index : ℕ) (a : Assembly) (index last : ℕ) (code : String)
    (kind : TranscriptFoldOutcomeKind)
    → Going byte record_index index last a
    → Stopped byte record_index (fall_back a index code kind)
unfolding fall_back
fall_back-Stopped byte record_index a index last code kind going =
    (going.row, inl (record { code = code; kind = kind }, refl, going.open_end))

go_on-Assembled :
    {W : Type 0} (byte record_index index last : ℕ) (p : Bool × Assembly) (rest : Exec W Assembly)
    {count stop : ℕ} {a' : Assembly} {w w' : W}
    → Visited byte record_index index last p
    → (Going byte record_index index last p.1
        → rest w ≡ (ok a', w')
        → Assembled byte record_index count stop a')
    → go_on p rest w ≡ (ok a', w')
    → Assembled byte record_index count stop a'
unfolding go_on
go_on-Assembled byte record_index index last (true, a) rest going next h = next going h
go_on-Assembled byte record_index index last (false, a) rest stopped next h =
    inr (subst (Stopped byte record_index) (pure-eq-ok _ h).0 stopped)

module _ (py : Runtime) {T E : Type 0} (envelopes : Envelopes E)
    (adapter : QualifiedTranscriptFoldAdapter T E) {W : Type 0}
    (port_read : DurableTranscriptReadRequest → Exec W DurableTranscriptRead) (self : FoldSource)
    (file : FileIdentity) (recorded_at : Datetime) (byte record_index : ℕ) where
  -- An outcome of a turn takes the bytes and the records from the start on to the end of `r`.
  turn_outcome-bounds :
      (a : Assembly) (r : FramedSourceRecord) (read : DurableTranscriptRead) (finalized : T)
      (reason : Option ScopeExclusionReason) (o : TranscriptFoldOutcome)
      → turn_outcome py envelopes adapter port_read self file recorded_at a r read finalized reason
        ≡ ok o
      → Takes a r o
  unfolding turn_outcome policy_outcome exact_outcome
  turn_outcome-bounds a r read finalized (some reason) o h = (cc h, cc h, cc h, cc h)
  turn_outcome-bounds a r read finalized none o h =
      let (envelope, _, made) =
        and_then-eq-ok (adapter.build_exact_envelope finalized (assembly_span a r file read) _) _
          h in
      (cc made, cc made, cc made, cc made)

  finalize_turn-Going :
      (a a' : Assembly) (index last : ℕ) (r : FramedSourceRecord) (finalized : T) (w w' : W)
      → Going byte record_index (index + 1) last a
      → finalize_turn py envelopes adapter port_read self file recorded_at a index r finalized w
        ≡ (ok a', w')
      → Going byte record_index (index + 1) r.end_offset a'
  unfolding finalize_turn
  finalize_turn-Going a a' index last r finalized w w' going h =
      let (read, w1, _, h1) = >>=-eq-ok _ _ h in
      let (_, _, h2) = lift->>=-eq-ok _ _ h1 in
      let (o, made, h3) = lift->>=-eq-ok _ _ h2 in
      let (_, valid, h4) = lift->>=-eq-ok _ _ h3 in
      let (same, _) = pure-eq-ok _ h4 in
      subst (Going byte record_index (index + 1) r.end_offset) same (
        finish_turn-Going envelopes byte record_index a index last r o going
          (turn_outcome-bounds a r read finalized _ o made) valid)

  finalized_step-Visited :
      (a : Assembly) (index last : ℕ) (r : FramedSourceRecord) (finalized : Option T)
      (p : Bool × Assembly) (w w' : W)
      → Going byte record_index (index + 1) last a
      → (a.pending_records_start ≤ index)
      → finalized_step py envelopes adapter port_read self file recorded_at a index r finalized w
        ≡ (ok p, w')
      → Visited byte record_index (index + 1) r.end_offset p
  unfolding finalized_step
  finalized_step-Visited a index last r none p w w' going behind h =
      subst (Visited byte record_index (index + 1) r.end_offset) (pure-eq-ok _ h).0 (record {
        row = going.row;
        unbroken = going.unbroken;
        open_end = going.open_end;
        consumed = going.consumed;
        behind = going.behind;
        caught_up = λ e. absurd (omega (arith, e, behind));
      })
  finalized_step-Visited a index last r (some finalized) p w w' going behind h =
      let (a', w1, ran, h1) = >>=-eq-ok _ _ h in
      subst (Visited byte record_index (index + 1) r.end_offset) (pure-eq-ok _ h1).0
        (finalize_turn-Going a a' index last r finalized w w1 going ran)

  take_step-Visited :
      (a : Assembly) (index last : ℕ) (r : FramedSourceRecord) (step : Advance T)
      (p : Bool × Assembly) (w w' : W)
      → Going byte record_index index last a
      → take_step py envelopes adapter port_read self file recorded_at a index r step w ≡ (ok p, w')
      → Visited byte record_index (index + 1) r.end_offset p
  unfolding take_step raise
  take_step-Visited a index last r (failed e) p w w' going h = absurd (cc (ap (λ x. x.0) h))
  take_step-Visited a index last r (unparsed code) p w w' going h =
      subst (Visited byte record_index (index + 1) r.end_offset) (pure-eq-ok _ h).0
        (fall_back-Stopped byte record_index a index last _ _ going)
  take_step-Visited a index last r (stepped state finalized) p w w' going h =
      elim (if-cases (ltb max_state_bytes (length state)) _ _ h) [
        | inl (_, left) ↦
            subst (Visited byte record_index (index + 1) r.end_offset) (pure-eq-ok _ left).0
              (fall_back-Stopped byte record_index a index last _ _ going)
        | inr (_, on) ↦
            finalized_step-Visited _ index last r finalized p w w'
              (consume-Going byte record_index a index last state going)
              (unfold consume in going.behind) on
      ]

  visit_record-Visited :
      (a : Assembly) (index last : ℕ) (r : FramedSourceRecord) (p : Bool × Assembly) (w w' : W)
      → Going byte record_index index last a
      → visit_record py envelopes adapter port_read self file recorded_at a index r w ≡ (ok p, w')
      → Visited byte record_index (index + 1) r.end_offset p
  unfolding visit_record reach_limit within_limits
  visit_record-Visited a index last r p w w' going h =
      elim (if-cases (eqb (length a.outcomes) fold_max_outcomes) _ _ h) [
        | inl (full, left) ↦
            subst (Visited byte record_index (index + 1) r.end_offset) (pure-eq-ok _ left).0
              (going.row, inr (going.unbroken, refl, omega (tests, full)))
        | inr (_, on) ↦ within (exceeded adapter a r) on
      ]
    where
      within :
          (code : Option String)
          → within_limits py envelopes adapter port_read self file recorded_at a index r code w
            ≡ (ok p, w')
          → Visited byte record_index (index + 1) r.end_offset p
      within (some code) k =
          subst (Visited byte record_index (index + 1) r.end_offset) (pure-eq-ok _ k).0
            (fall_back-Stopped byte record_index a index last code policy_disposition_kind going)
      within none k =
          take_step-Visited a index last r (adapter.advance r a.assembly_state) p w w' going k

  -- The loop over the records keeps the outcomes in a row from the given position. If it was not
  -- left, it took every record, and the outcomes reach the last one's end when none is pending.
  pub assemble_records-Assembled :
      (a : Assembly) (index last : ℕ) (records : List FramedSourceRecord) (a' : Assembly) (w w' : W)
      → Going byte record_index index last a
      → assemble_records py envelopes adapter port_read self file recorded_at a index records w
        ≡ (ok a', w')
      → Assembled byte record_index (index + length records) (end_of last records) a'
  unfolding assemble_records end_of
  assemble_records-Assembled a index last [] a' w w' going h = inl (
      subst (Going byte record_index (index + 0) last) (pure-eq-ok _ h).0
        (subst (λ i. Going byte record_index i last a) (omega arith) going))
  assemble_records-Assembled a index last (r ∷ records) a' w w' going h =
      let (p, w1, ran, h1) = >>=-eq-ok _ _ h in
      go_on-Assembled byte record_index (index + 1) r.end_offset p _
        (visit_record-Visited a index last r p w w1 going ran)
        (λ going' k.
          subst (λ i. Assembled byte record_index i (end_of r.end_offset records) a') (omega arith)
            (assemble_records-Assembled p.1 (index + 1) r.end_offset records a' w1 w' going' k))
        h1
