-- ===== src/Capture/Fold/Resolved.antt =====
-- What the outcomes and the pending ranges of `run_once` cover once a fallback has taken its records.
use memoriesql.Prelude.{
  ℕ, zero, suc, ◌≤◌, ◌≡◌, refl, sym, ap, subst, ◌∙◌, ◌⊎◌, inl, inr, Bool, true, false, not, ◌&&◌,
  String, Option, none, some, List, [], ◌∷◌, ◌++◌, length, drop, is_empty, is_none, is_some, ltb,
  ok, arith, eq→eqb, if◌then◌else◌,
}
use memoriesql.Contracts.Runtime.{Runtime}
use memoriesql.Contracts.Exec.{>>=-eq-ok, lift->>=-eq-ok, pure-eq-ok}
use memoriesql.Capture.Fold.Frame.{FramedSourceRecord}
use memoriesql.Capture.Fold.Source.{DurableTranscriptRead}
use memoriesql.Capture.Fold.Outcome.{
  Envelopes, TranscriptFoldOutcomeKind, transcript_span_kind, policy_disposition_kind,
  exact_turn_kind, TranscriptFoldOutcome, span_outcome, policy_outcome, validate_outcome,
}
use memoriesql.Capture.Fold.Command.{fold_max_outcomes}
use memoriesql.Capture.Fold.Commit.{Dumps}
use memoriesql.Capture.Fold.Cursor.{TranscriptFoldPendingRange, TranscriptFoldCursorState, end_from}
use memoriesql.Capture.Fold.Sealed.{FoldLoop, FoldPorts}
use memoriesql.Capture.Fold.Records.{Fallback, Assembly}
use memoriesql.Capture.Fold.Settle.{
  Framed, records_of, last_record, last_in, seal_boundary, fallback_outcome, take_rest, remaining,
  pending_range, pending_of, pending_ranges,
}
use memoriesql.Capture.Fold.Resolve.{resolve}
use memoriesql.Capture.Fold.Assembled.{Takes, Takes-Folds, InRow, Going, Assembled, end_of}

-- Every outcome there may be: nothing is pending.
-- Or a fallback took the records that were left; or an adapter took every record.
pub data Resolved (byte record_index : ℕ) (f : Framed) (a : Assembly) : Type 0 where
  filled :
      InRow byte record_index a
      → a.outcome_limit_reached ≡ true
      → length a.outcomes ≡ fold_max_outcomes
      → Resolved byte record_index f a
  taken :
      InRow byte record_index a
      → a.outcome_limit_reached ≡ false
      → a.outcome_start_offset ≡ (last_in f).end_offset
      → a.pending_records_start ≡ length (records_of f)
      → is_empty a.outcomes ≡ false
      → Resolved byte record_index f a
  whole :
      is_some f.adapter_profile_version ≡ true
      → Going byte record_index (length (records_of f)) (last_in f).end_offset a
      → Resolved byte record_index f a

-- At a sealed end the records left are left to a fallback.
pub seal_boundary-Assembled :
    (byte record_index count last : ℕ) (f : Framed) (sealed_read : Bool) (a : Assembly)
    → Assembled byte record_index count last a
    → Assembled byte record_index count last (seal_boundary f sealed_read a)
unfolding seal_boundary
seal_boundary-Assembled byte record_index count last f sealed_read a h = go _ refl
  where
    row : InRow byte record_index a
    row = elim h [ inl going ↦ going.row | inr stopped ↦ stopped.0 ]

    go :
        (c : Bool)
        → (is_some f.adapter_profile_version
            && (is_none a.fallback
                && (not a.outcome_limit_reached
                    && (ltb a.outcome_start_offset (last_in f).end_offset && sealed_read))))
          ≡ c
        → Assembled byte record_index count last (
            if c
            then record a {
              fallback =
                  some (record {
                    code = "fold.sealed-evidence-boundary";
                    kind = transcript_span_kind;
                  });
            }
            else a)
    go false e = h
    go true e = inr (row, inl (_, refl, ground (arith, e)))

pub full-nonempty :
    (outcomes : List TranscriptFoldOutcome)
    → length outcomes ≡ fold_max_outcomes
    → is_empty outcomes ≡ false
full-nonempty [] h = absurd (omega (arith, h))
full-nonempty (o ∷ outcomes) h = refl

append-nonempty : {A : Type 0} (xs : List A) (x : A) → is_empty (xs ++ (x ∷ [])) ≡ false
append-nonempty [] x = refl
append-nonempty (y ∷ xs) x = refl

fallback_outcome-Takes :
    (self : FoldLoop) (f : Framed) (a : Assembly) (read : DurableTranscriptRead) (code : String)
    (kind : TranscriptFoldOutcomeKind)
    → Takes a (last_in f) (fallback_outcome self f a read code kind)
unfolding fallback_outcome span_outcome policy_outcome
fallback_outcome-Takes self f a read code transcript_span_kind = (refl, refl, refl, refl)
fallback_outcome-Takes self f a read code policy_disposition_kind = (refl, refl, refl, refl)
fallback_outcome-Takes self f a read code exact_turn_kind = (refl, refl, refl, refl)

module _ {E : Type 0} (envelopes : Envelopes E) (byte record_index : ℕ) (f : Framed) where
  take_rest-Resolved :
      (a : Assembly) (o : TranscriptFoldOutcome)
      → InRow byte record_index a
      → a.outcome_limit_reached ≡ false
      → Takes a (last_in f) o
      → validate_outcome envelopes o ≡ ok tt
      → Resolved byte record_index f (take_rest f a o)
  unfolding take_rest
  take_rest-Resolved a o row open_end takes valid =
      taken (Takes-Folds envelopes byte record_index a (last_in f) o row takes valid) open_end refl
        refl (append-nonempty a.outcomes o)

  module _ (py : Runtime) (dumps : Dumps) {W : Type 0} (ports : FoldPorts W) (self : FoldLoop) where
    -- The fallback takes what is left.
    pub resolve-Resolved :
        (a a' : Assembly) (fallback : Option Fallback) (w w' : W)
        → a.fallback ≡ fallback
        → Assembled byte record_index (length (records_of f)) (last_in f).end_offset a
        → (is_some f.adapter_profile_version ≡ true) ⊎ (is_some fallback ≡ true)
        → resolve py dumps envelopes ports self f a fallback w ≡ (ok a', w')
        → Resolved byte record_index f a'
    unfolding resolve
    resolve-Resolved a a' none w w' e (inl going) (inl adapted) h =
        subst (Resolved byte record_index f) (pure-eq-ok _ h).0 (whole adapted going)
    resolve-Resolved a a' none w w' e assembled (inr absent) h = absurd (cc absent)
    resolve-Resolved a a' none w w' e (inr (row, inl (_, k, _))) (inl adapted) h =
        absurd (cc (e, k))
    resolve-Resolved a a' none w w' e (inr (row, inr (_, full, many))) (inl adapted) h =
        subst (Resolved byte record_index f) (pure-eq-ok _ h).0 (filled row full many)
    resolve-Resolved a a' (some fallback) w w' e assembled known h =
        let (read, w1, _, h1) = >>=-eq-ok _ _ h in
        let (_, valid, h2) = lift->>=-eq-ok _ _ h1 in
        let (row, open_end) = left assembled in
        subst (Resolved byte record_index f) (pure-eq-ok _ h2).0 (
          take_rest-Resolved a _ row open_end
            (fallback_outcome-Takes self f a read fallback.code fallback.kind) valid)
      where
        left :
            Assembled byte record_index (length (records_of f)) (last_in f).end_offset a
            → InRow byte record_index a × (a.outcome_limit_reached ≡ false)
        left (inl going) = (going.row, going.open_end)
        left (inr (row, inl (_, _, open_end))) = (row, open_end)
        left (inr (row, inr (k, _, _))) = absurd (cc (e, k))

pub last_record-end :
    (byte : ℕ) (r : FramedSourceRecord) (records : List FramedSourceRecord)
    → (last_record r records).end_offset ≡ end_of byte (r ∷ records)
unfolding last_record end_of
last_record-end byte r [] = refl
last_record-end byte r (next ∷ records) = last_record-end r.end_offset next records

-- What is left of records ends where they end.
drop-end :
    (k byte start : ℕ) (records : List FramedSourceRecord) (r : FramedSourceRecord)
    (rest : List FramedSourceRecord)
    → drop k records ≡ r ∷ rest
    → end_of byte (r ∷ rest) ≡ end_of start records
unfolding end_of
drop-end zero byte start [] r rest h = absurd (cc h)
drop-end zero byte start (q ∷ records) r rest h = sym (ap (end_of byte) h)
drop-end (suc k) byte start [] r rest h = absurd (cc h)
drop-end (suc k) byte start (q ∷ records) r rest h = drop-end k byte q.end_offset records r rest h

drop-length : {A : Type 0} (xs : List A) → drop (length xs) xs ≡ []
drop-length [] = refl
drop-length (x ∷ xs) = drop-length xs

drop-empty : {A : Type 0} (k : ℕ) (xs : List A) → drop k xs ≡ [] → length xs ≤ k
drop-empty zero [] h = omega arith
drop-empty zero (x ∷ xs) h = absurd (cc h)
drop-empty (suc k) [] h = omega arith
drop-empty (suc k) (x ∷ xs) h = omega (arith, drop-empty k xs h)

end_from-snoc :
    (byte : ℕ) (ranges : List TranscriptFoldPendingRange) (p : TranscriptFoldPendingRange)
    → end_from byte (ranges ++ (p ∷ [])) ≡ p.byte_end_exclusive
unfolding end_from
end_from-snoc byte [] p = refl
end_from-snoc byte (q ∷ ranges) p = end_from-snoc q.byte_end_exclusive ranges p

module _ (py : Runtime) (byte record_index : ℕ) (f : Framed) (s : TranscriptFoldCursorState) where
  -- With outcomes, the pending ranges reach from their end to the end of the records.
  pending_of-end :
      (a : Assembly) (outcomes : List TranscriptFoldOutcome) (left : List FramedSourceRecord)
      → is_empty outcomes ≡ false
      → drop a.pending_records_start (records_of f) ≡ left
      → (left ≡ [] → a.outcome_start_offset ≡ (last_in f).end_offset)
      → end_from a.outcome_start_offset (pending_of py left outcomes s) ≡ (last_in f).end_offset
  unfolding pending_of pending_range end_from
  pending_of-end a [] left filled' dropped reached = absurd (cc filled')
  pending_of-end a (o ∷ outcomes) [] filled' dropped reached = reached refl
  pending_of-end a (o ∷ outcomes) (r ∷ rest) filled' dropped reached =
      last_record-end 0 r rest
      ∙ drop-end a.pending_records_start 0 0 (records_of f) r rest dropped
      ∙ sym (last_record-end 0 f.first f.rest)

  pending_of-remaining :
      (a : Assembly)
      → a.outcome_limit_reached ≡ false
      → is_empty a.outcomes ≡ false
      → (drop a.pending_records_start (records_of f) ≡ []
          → a.outcome_start_offset ≡ (last_in f).end_offset)
      → end_from a.outcome_start_offset (pending_ranges py f a s) ≡ (last_in f).end_offset
  unfolding pending_ranges remaining
  pending_of-remaining a open_end nonempty reached =
      rw (nonempty, open_end) (pending_of-end a a.outcomes _ nonempty refl reached)

  -- Without outcomes, an adapter that took every record leaves them all pending.
  pending_whole-end :
      (a : Assembly)
      → is_some f.adapter_profile_version ≡ true
      → a.consumed_record_count ≡ length (records_of f)
      → a.outcomes ≡ []
      → end_from a.outcome_start_offset (pending_ranges py f a s) ≡ (last_in f).end_offset
  unfolding pending_ranges pending_range
  pending_whole-end a adapted consumed none' =
      rw (none', adapted, eq→eqb a.consumed_record_count (length (records_of f)) consumed)
        (end_from-snoc a.outcome_start_offset s.pending_ranges _)

  -- Where the pending ranges end.
  pub pending_ranges-end :
      (a : Assembly)
      → Resolved byte record_index f a
      → a.outcome_limit_reached ≡ false
      → end_from a.outcome_start_offset (pending_ranges py f a s) ≡ (last_in f).end_offset
  pending_ranges-end a (filled row limited many) open_end = absurd (cc (limited, open_end))
  pending_ranges-end a (taken row limited start all nonempty) open_end =
      pending_of-remaining a open_end nonempty (λ _. start)
  pending_ranges-end a (whole adapted going) open_end = by_outcomes a.outcomes refl
    where
      by_outcomes :
          (outcomes : List TranscriptFoldOutcome)
          → a.outcomes ≡ outcomes
          → end_from a.outcome_start_offset (pending_ranges py f a s) ≡ (last_in f).end_offset
      by_outcomes [] none' = pending_whole-end a adapted going.consumed none'
      by_outcomes (o ∷ outcomes) some' =
          pending_of-remaining a open_end (ap is_empty some') (λ dropped. going.caught_up (
            omega (arith, going.behind, drop-empty a.pending_records_start (records_of f) dropped)))

  pending_of-nothing :
      (outcomes : List TranscriptFoldOutcome)
      → is_empty outcomes ≡ false
      → pending_of py [] outcomes s ≡ []
  unfolding pending_of
  pending_of-nothing [] h = absurd (cc h)
  pending_of-nothing (o ∷ outcomes) h = refl

  -- With every outcome there may be, nothing is pending.
  pub pending_ranges-filled :
      (a : Assembly)
      → a.outcome_limit_reached ≡ true
      → length a.outcomes ≡ fold_max_outcomes
      → pending_ranges py f a s ≡ []
  unfolding pending_ranges remaining
  pending_ranges-filled a limited many =
      let nonempty = full-nonempty a.outcomes many in
      rw (nonempty, limited) (pending_of-nothing a.outcomes nonempty)
