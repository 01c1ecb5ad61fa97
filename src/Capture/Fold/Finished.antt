-- ===== src/Capture/Fold/Finished.antt =====
-- What follows the loop over the records in `run_once` ends in one of two ways: a command was
-- acknowledged, or the cursor waits.
use memoriesql.Prelude.{
  ℕ, ◌+◌, ◌<◌, ◌≡◌, refl, sym, ap, subst, ◌∙◌, ◌⊎◌, inl, inr, Bool, true, false, Option, none, some,
  List, [], ◌∷◌, length, is_empty, is_some, ok, check-ok, arith,
}
use memoriesql.Contracts.Runtime.{Runtime}
use memoriesql.Contracts.Exec.{>>=-eq-ok, lift->>=-eq-ok, pure-eq-ok}
use memoriesql.Capture.Fold.Outcome.{Envelopes, TranscriptFoldOutcome}
use memoriesql.Capture.Fold.Command.{fold_max_outcomes, CommitTranscriptFoldCommand}
use memoriesql.Capture.Fold.Commit.{Dumps}
use memoriesql.Capture.Fold.Sound.{BindsFold, Folds, build_transcript_fold_command-BindsFold}
use memoriesql.Capture.Fold.Cursor.{CommitTranscriptFoldReceipt, TranscriptFoldCursorState}
use memoriesql.Capture.Fold.State.{updated_state, receipt_binds}
use memoriesql.Capture.Fold.Sealed.{TranscriptFoldHealth, FoldLoop, FoldPorts, acknowledged_state}
use memoriesql.Capture.Fold.SealedOnce.{receipt_binds-ends}
use memoriesql.Capture.Fold.Reads.{
  Reads, Reads-trans, OnlyReads, OnlyReads-ok, read_exact-Reads, OnlyReads-pure, OnlyReads-lift,
  OnlyReads->>=, read_exact-OnlyReads,
}
use memoriesql.Capture.Fold.Records.{Assembly, Fallback}
use memoriesql.Capture.Fold.Settle.{
  Framed, records_of, last_in, seal_boundary, tail_of, final_state,
}
use memoriesql.Capture.Fold.Resolve.{
  fold_arguments, submit_outcomes, resolve, settle_outcomes, settle_run,
}
use memoriesql.Capture.Fold.Assembled.{InRow, Assembled}
use memoriesql.Capture.Fold.Resolved.{
  Resolved, filled, taken, whole, seal_boundary-Assembled, resolve-Resolved, full-nonempty,
  pending_ranges-filled,
}
use memoriesql.Capture.Fold.Committed.{
  Folds-ends, Folds-le, StandsAt, FoldedOnce, Finished, finish-committed, final_state-StandsAt,
  waited,
}

Resolved-InRow :
    (byte record_index : ℕ) (f : Framed) (a : Assembly)
    → Resolved byte record_index f a
    → InRow byte record_index a
Resolved-InRow byte record_index f a (filled row _ _) = row
Resolved-InRow byte record_index f a (taken row _ _ _ _) = row
Resolved-InRow byte record_index f a (whole _ going) = going.row

-- The limit was not reached, or the outcomes are as many as there may be.
Resolved-limit :
    (byte record_index : ℕ) (f : Framed) (a : Assembly)
    → Resolved byte record_index f a
    → (a.outcome_limit_reached ≡ false)
      ⊎ ((a.outcome_limit_reached ≡ true) × (length a.outcomes ≡ fold_max_outcomes))
Resolved-limit byte record_index f a (filled _ limited many) = inr (limited, many)
Resolved-limit byte record_index f a (taken _ open_end _ _ _) = inl open_end
Resolved-limit byte record_index f a (whole _ going) = inl going.open_end

Resolved-open :
    (byte record_index : ℕ) (f : Framed) (a : Assembly)
    → Resolved byte record_index f a
    → a.outcomes ≡ []
    → a.outcome_limit_reached ≡ false
Resolved-open byte record_index f a (filled _ _ many) none' =
    absurd (cc (full-nonempty a.outcomes many, ap is_empty none'))
Resolved-open byte record_index f a (taken _ open_end _ _ _) none' = open_end
Resolved-open byte record_index f a (whole _ going) none' = going.open_end

tail_of-closed :
    (f : Framed) (a : Assembly) → a.outcome_limit_reached ≡ true → length (tail_of f a) ≡ 0
tail_of-closed f a limited = rw limited refl

pub Folds-forward :
    (byte index last stop : ℕ) (o : TranscriptFoldOutcome) (outcomes : List TranscriptFoldOutcome)
    → Folds byte index last stop (o ∷ outcomes)
    → byte < last
Folds-forward byte index last stop o outcomes (b, i, forward, _, _, more) =
    let further = Folds-le o.byte_end_exclusive o.end_record_index last stop outcomes more in
    omega (arith, b, forward, further)

seal_boundary-known :
    (f : Framed) (sealed_read : Bool) (a : Assembly)
    → (is_some f.adapter_profile_version ≡ true) ⊎ (is_some a.fallback ≡ true)
    → (is_some f.adapter_profile_version ≡ true)
      ⊎ (is_some (seal_boundary f sealed_read a).fallback ≡ true)
unfolding seal_boundary
seal_boundary-known f sealed_read a (inl adapted) = inl adapted
seal_boundary-known f sealed_read a (inr known) = inr (ground (arith, known))

module _ (py : Runtime) (dumps : Dumps) {E : Type 0} (envelopes : Envelopes E) {W : Type 0}
    (ports : FoldPorts W) (self : FoldLoop) (f : Framed) (s : TranscriptFoldCursorState) where
  record Submitted (outcomes : List TranscriptFoldOutcome) (receipt : CommitTranscriptFoldReceipt)
      (w w' : W) : Type 0 where
    command : CommitTranscriptFoldCommand
    before_submit : W
    only_read : Reads ports.read w before_submit
    binds : BindsFold py dumps envelopes command
    holds : command.outcomes ≡ outcomes
    expected : command.checkpoint.expected_sequence ≡ s.checkpoint_sequence
    submitted : ports.submit command f.recorded_at before_submit ≡ (ok receipt, w')
    bound : receipt_binds receipt command ≡ true

  submit_outcomes-Submitted :
      (o : TranscriptFoldOutcome) (outcomes : List TranscriptFoldOutcome)
      (receipt : CommitTranscriptFoldReceipt) (w w' : W)
      → submit_outcomes py dumps envelopes ports self f s o outcomes w ≡ (ok receipt, w')
      → Submitted (o ∷ outcomes) receipt w w'
  unfolding submit_outcomes fold_arguments
  submit_outcomes-Submitted o outcomes receipt w w' ran =
      let (read, w1, was_read, h1) = >>=-eq-ok _ _ ran in
      let (command, built, h2) = lift->>=-eq-ok _ _ h1 in
      let (r, w2, submitted, h3) = >>=-eq-ok _ _ h2 in
      let (_, bound, h4) = lift->>=-eq-ok _ _ h3 in
      let (same, same') = pure-eq-ok _ h4 in
      let (holds, _, _, expected, binds) =
        build_transcript_fold_command-BindsFold py dumps envelopes _ _ _ none command built in
      record {
        command = command;
        before_submit = w1;
        only_read = read_exact-Reads ports.read py _ _ _ none was_read;
        binds = binds;
        holds = holds;
        expected = expected;
        submitted = submitted ∙ ap (λ x. (ok x, w2)) same ∙ ap (λ x. (ok receipt, x)) same';
        bound = ap (λ x. receipt_binds x command) (sym same) ∙ (check-ok _ bound).0;
      }

  -- The position that a command over the outcomes starts and ends at.
  Submitted-position :
      (a : Assembly) (o : TranscriptFoldOutcome) (outcomes : List TranscriptFoldOutcome)
      (receipt : CommitTranscriptFoldReceipt) (w w' : W)
      (sent : Submitted (o ∷ outcomes) receipt w w')
      → Folds s.acknowledged_offset s.acknowledged_record_index a.outcome_start_offset
          a.outcome_start_record
          (o ∷ outcomes)
      → (sent.command.byte_start ≡ s.acknowledged_offset)
        × (sent.command.start_record_index ≡ s.acknowledged_record_index)
        × (sent.command.byte_end_exclusive ≡ a.outcome_start_offset)
  Submitted-position a o outcomes receipt w w' sent row =
      let c = sent.command in
      let (b, i, n, m, covers, more) =
        subst
          (λ os. Folds c.byte_start c.start_record_index c.byte_end_exclusive c.end_record_index os)
          sent.holds sent.binds.outcomes in
      let (b', i', _, _, _, more') = row in
      (
        sym b ∙ b',
        sym i ∙ i',
        (Folds-ends o.byte_end_exclusive o.end_record_index _ _ _ _ outcomes more more').0,
      )

  -- How far the committed cursor has read.
  position-StandsAt :
      (a : Assembly) (next : TranscriptFoldCursorState) (outcomes : List TranscriptFoldOutcome)
      → a.outcomes ≡ outcomes
      → Resolved s.acknowledged_offset s.acknowledged_record_index f a
      → next.acknowledged_offset ≡ a.outcome_start_offset
      → StandsAt ((last_in f).end_offset + length f.partial_tail) (final_state py f a s next true)
        ⊎ ((length outcomes ≡ fold_max_outcomes)
            × ((final_state py f a s next true).pending_ranges ≡ [])
            × ((final_state py f a s next true).pending_tail_byte_count ≡ 0))
  unfolding final_state updated_state
  position-StandsAt a next outcomes same resolved at_start =
      elim (Resolved-limit s.acknowledged_offset s.acknowledged_record_index f a resolved) [
        | inl open_end ↦ inl (
            final_state-StandsAt py dumps envelopes ports self f s a next true open_end resolved
              at_start)
        | inr (limited, many) ↦ inr (
          sym (ap length same) ∙ many,
          pending_ranges-filled py s.acknowledged_offset s.acknowledged_record_index f s a limited
              many,
          tail_of-closed f a limited,
        )
      ]

  folded :
      (a : Assembly) (o : TranscriptFoldOutcome) (outcomes : List TranscriptFoldOutcome)
      (h : TranscriptFoldHealth) (v w w' : W)
      → Reads ports.read v w
      → a.outcomes ≡ o ∷ outcomes
      → Resolved s.acknowledged_offset s.acknowledged_record_index f a
      → settle_outcomes py dumps envelopes ports self f a s (o ∷ outcomes) w ≡ (ok h, w')
      → FoldedOnce py dumps envelopes ports s f.recorded_at
          ((last_in f).end_offset + length f.partial_tail)
          h
          v
          w'
  unfolding settle_outcomes final_state updated_state acknowledged_state
  folded a o outcomes h v w w' before some' resolved ran =
      let (receipt, w1, ran1, h1) = >>=-eq-ok _ _ ran in
      let (_, _, h2) = lift->>=-eq-ok _ _ h1 in
      let sent = submit_outcomes-Submitted o outcomes receipt w w1 ran1 in
      let next = acknowledged_state py s f.file f.durable_end_offset receipt in
      let (valid, committed, reported) =
        finish-committed py dumps envelopes ports self f s a next (some receipt) h w1 w' h2 in
      let (at_end, at_index, at_sequence) = receipt_binds-ends receipt sent.command sent.bound in
      let row =
        subst
          (λ os.
            Folds s.acknowledged_offset s.acknowledged_record_index a.outcome_start_offset
              a.outcome_start_record os)
          some' (Resolved-InRow s.acknowledged_offset s.acknowledged_record_index f a resolved) in
      let (starts, starts_record, ends) = Submitted-position a o outcomes receipt w w1 sent row in
      let forward = Folds-forward _ _ _ _ o outcomes row in
      record {
        command = sent.command;
        receipt = receipt;
        updated = final_state py f a s next true;
        before_submit = sent.before_submit;
        only_read = Reads-trans ports.read before sent.only_read;
        after_submit = w1;
        binds = sent.binds;
        starts = starts;
        starts_record = starts_record;
        submitted = sent.submitted;
        bound = sent.bound;
        valid = valid;
        committed = committed;
        offset = at_end;
        index = at_index;
        forward = omega (arith, forward, ends, at_end);
        sequence = omega (arith, at_sequence, sent.binds.once, sent.expected);
        revision = refl;
        reported = reported;
        stands =
            position-StandsAt a next sent.command.outcomes (some' ∙ sym sent.holds) resolved
              (at_end ∙ ends);
      }

  settle_outcomes-Finished :
      (a : Assembly) (outcomes : List TranscriptFoldOutcome) (h : TranscriptFoldHealth) (v w w' : W)
      → Reads ports.read v w
      → a.outcomes ≡ outcomes
      → Resolved s.acknowledged_offset s.acknowledged_record_index f a
      → settle_outcomes py dumps envelopes ports self f a s outcomes w ≡ (ok h, w')
      → Finished py dumps envelopes ports s f.recorded_at
          ((last_in f).end_offset + length f.partial_tail)
          h
          v
          w'
  settle_outcomes-Finished a [] h v w w' before none' resolved ran =
      let row =
        subst
          (λ os.
            Folds s.acknowledged_offset s.acknowledged_record_index a.outcome_start_offset
              a.outcome_start_record os)
          none' (Resolved-InRow s.acknowledged_offset s.acknowledged_record_index f a resolved) in
      inr (
        waited py dumps envelopes ports self f s a h v w w' before resolved
          (Resolved-open s.acknowledged_offset s.acknowledged_record_index f a resolved none') row.0
          (unfold settle_outcomes in ran))
  settle_outcomes-Finished a (o ∷ outcomes) h v w w' before some' resolved ran =
      inl (folded a o outcomes h v w w' before some' resolved ran)

  resolve-OnlyReads :
      (a : Assembly) (fallback : Option Fallback)
      → OnlyReads ports.read (resolve py dumps envelopes ports self f a fallback)
  unfolding resolve
  resolve-OnlyReads a none = OnlyReads-pure ports.read a
  resolve-OnlyReads a (some fallback) =
      OnlyReads->>= ports.read _ _ (read_exact-OnlyReads ports.read py _ _ _ none) (λ _.
        OnlyReads->>= ports.read _ _ (OnlyReads-lift ports.read _)
          (λ _. OnlyReads-pure ports.read _))

  -- What follows the loop ends with a cursor that stands after all that was framed.
  pub settle_run-Finished :
      (sealed_read : Bool) (a : Assembly) (h : TranscriptFoldHealth) (v w w' : W)
      → Reads ports.read v w
      → Assembled s.acknowledged_offset s.acknowledged_record_index
          (length (records_of f))
          (last_in f).end_offset
          a
      → (is_some f.adapter_profile_version ≡ true) ⊎ (is_some a.fallback ≡ true)
      → settle_run py dumps envelopes ports self f sealed_read s a w ≡ (ok h, w')
      → Finished py dumps envelopes ports s f.recorded_at
          ((last_in f).end_offset + length f.partial_tail)
          h
          v
          w'
  unfolding settle_run
  settle_run-Finished sealed_read a h v w w' before assembled known ran =
      let (resolved, w1, ran1, h1) = >>=-eq-ok _ _ ran in
      settle_outcomes-Finished resolved resolved.outcomes h v w1 w'
        (Reads-trans ports.read before (
          OnlyReads-ok ports.read
            (resolve py dumps envelopes ports self f (seal_boundary f sealed_read a)
              (seal_boundary f sealed_read a).fallback)
            (resolve-OnlyReads (seal_boundary f sealed_read a) _) ran1))
        refl
        (resolve-Resolved envelopes s.acknowledged_offset s.acknowledged_record_index f py dumps
          ports self (seal_boundary f sealed_read a) resolved _ w w1 refl
          (seal_boundary-Assembled _ _ _ _ f sealed_read a assembled)
          (seal_boundary-known f sealed_read a known) ran1)
        h1
