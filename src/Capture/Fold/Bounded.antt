-- ===== src/Capture/Fold/Bounded.antt =====
-- A fold cursor holds at most 128 pending ranges, and `run_once` of transcript_fold.py adds one in
-- every run that ends no turn.
use memoriesql.Prelude.{
  ◌+◌, ◌≤◌, ◌≡◌, refl, ◌≢◌, sym, subst, true, false, none, some, [], length, length-append, is_some,
  Error, Result, ok, err, check-ok, >>-eq-ok, eq→eqb, arith, tests, Bool, if◌then◌else◌,
}
use memoriesql.Contracts.Runtime.{Runtime}
use memoriesql.Contracts.Exec.{Exec, pure, lift, ◌>>=◌}
use memoriesql.Capture.Range.Command.{check_each}
use memoriesql.Capture.Fold.Outcome.{transcript_span_kind, Envelopes, present}
use memoriesql.Capture.Fold.Commit.{Dumps}
use memoriesql.Capture.Fold.Cursor.{
  max_pending_ranges, validate_fold_acknowledgement, validate_pending, TranscriptFoldCursorState,
  cursor_fields,
}
use memoriesql.Capture.Fold.State.{validate_fold_cursor, updated_state}
use memoriesql.Capture.Fold.Sealed.{TranscriptFoldHealth, FoldLoop, FoldPorts}
use memoriesql.Capture.Fold.Records.{Assembly}
use memoriesql.Capture.Fold.Settle.{Framed, records_of, seal_boundary, pending_ranges, final_state}
use memoriesql.Capture.Fold.Resolve.{resolve, finish, settle_outcomes, settle_run}

module _ (py : Runtime) where
  validate_fold_cursor-few :
      (s : TranscriptFoldCursorState)
      → validate_fold_cursor py s ≡ ok tt
      → length s.pending_ranges ≤ max_pending_ranges
  unfolding validate_fold_cursor cursor_fields
  validate_fold_cursor-few s h =
      let (_, h1) = >>-eq-ok (check_each validate_pending s.pending_ranges) _ h in
      let (_, h2) = >>-eq-ok (present validate_fold_acknowledgement s.last_acknowledgement) _ h1 in
      let (fields, _) = >>-eq-ok (cursor_fields s) _ h2 in
      let (_, (_, (few, _))) = check-ok _ fields in omega (tests, few)

  pending_ranges-longer :
      (f : Framed) (a : Assembly) (s : TranscriptFoldCursorState)
      → is_some f.adapter_profile_version ≡ true
      → a.consumed_record_count ≡ length (records_of f)
      → a.outcomes ≡ []
      → length (pending_ranges py f a s) ≡ length s.pending_ranges + 1
  unfolding pending_ranges
  pending_ranges-longer f a s adapted consumed none' =
      rw (none', adapted, eq→eqb a.consumed_record_count (length (records_of f)) consumed)
        (length-append s.pending_ranges _)

refused-lift :
    {W A : Type 0} (r : Result (Unit {0})) (f : Unit {0} → Exec W A) (w : W)
    → (r ≢ ok tt)
    → (e : Error) × ((lift r >>= f) w ≡ (err e, w))
unfolding ◌>>=◌ lift
refused-lift (ok tt) f w h = absurd (h refl)
refused-lift (err e) f w h = (e, refl)

unsealed : (f : Framed) (a : Assembly) → seal_boundary f false a ≡ a
unfolding seal_boundary
unsealed f a = go _ (ground arith)
  where
    go :
        (c : Bool)
        → c ≡ false
        → (if c
            then record a {
              fallback =
                  some (record {
                    code = "fold.sealed-evidence-boundary";
                    kind = transcript_span_kind;
                  });
            }
            else a)
          ≡ a
    go true h = absurd (cc h)
    go false h = refl

module _ (py : Runtime) (dumps : Dumps) {E : Type 0} (envelopes : Envelopes E) {W : Type 0}
    (ports : FoldPorts W) (self : FoldLoop) where
  abbrev Refused : Exec W TranscriptFoldHealth → W → Type 0
  Refused action w = (e : Error) × (action w ≡ (err e, w))

  finish-Refused :
      (f : Framed) (s : TranscriptFoldCursorState) (a : Assembly) (w : W)
      → max_pending_ranges ≤ length s.pending_ranges
      → is_some f.adapter_profile_version ≡ true
      → a.consumed_record_count ≡ length (records_of f)
      → a.outcomes ≡ []
      → Refused (finish py dumps envelopes ports self f a s s none) w
  unfolding finish final_state updated_state
  finish-Refused f s a w many adapted consumed none' =
      let longer = pending_ranges-longer py f a s adapted consumed none' in
      refused-lift _ _ w (λ valid.
        let few = validate_fold_cursor-few py (final_state py f a s s false) valid in
        omega (arith, many, longer, few))

  -- With 128 ranges pending, what follows the loop raises an error and leaves the world alone, where
  -- an adapter took every record and ended no turn, before the sealed end.
  pub settle_run-Refused :
      (f : Framed) (s : TranscriptFoldCursorState) (a : Assembly) (w : W)
      → max_pending_ranges ≤ length s.pending_ranges
      → is_some f.adapter_profile_version ≡ true
      → a.consumed_record_count ≡ length (records_of f)
      → a.outcomes ≡ []
      → a.fallback ≡ none
      → (e : Error) × (settle_run py dumps envelopes ports self f false s a w ≡ (err e, w))
  unfolding settle_run settle_outcomes resolve pure ◌>>=◌
  settle_run-Refused f s a w many adapted consumed none' unbroken =
      subst
        (λ b.
          Refused
            (resolve py dumps envelopes ports self f b b.fallback >>= λ r.
              settle_outcomes py dumps envelopes ports self f r s r.outcomes)
            w)
        (sym (unsealed f a))
        (subst
          (λ x.
            Refused
              (resolve py dumps envelopes ports self f a x >>= λ r.
                settle_outcomes py dumps envelopes ports self f r s r.outcomes)
              w)
          (sym unbroken)
          (subst (λ os. Refused (settle_outcomes py dumps envelopes ports self f a s os) w)
            (sym none') (finish-Refused f s a w many adapted consumed none')))
