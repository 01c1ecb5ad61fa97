-- ===== src/Capture/Fold/Sound.antt =====
-- What a fold command that was built says of its outcomes.
use mathlib.Core.Path.{subst₂}
use memoriesql.Prelude.{
  ℕ, ◌+◌, ◌≤◌, ◌<◌, ◌≡◌, refl, ap, subst, ◌∙◌, Option, List, [], ◌∷◌, length, ok, check, check-ok,
  >>-eq-ok, >>=-eq-ok, tests, arith, string_eq, String, beq→eq,
}
use memoriesql.Contracts.Runtime.{Runtime}
use memoriesql.Capture.Range.Command.{check_each}
use memoriesql.Capture.Fold.Source.{TranscriptFoldSourceRange, validate_slice, follow_ranges}
use memoriesql.Capture.Fold.Outcome.{
  Envelopes, TranscriptFoldOutcome, validate_outcome, outcome_shape, outcome_cover, present,
  validate_exact_turn, validate_span, validate_disposition,
}
use memoriesql.Capture.Fold.Command.{
  LegacyAdapterCursorBinding, validate_legacy_cursor, validate_fold_checkpoint,
  CommitTranscriptFoldCommand, follow_outcomes, fold_fields, fold_bounds,
}
use memoriesql.Capture.Fold.Commit.{
  FoldArguments, Dumps, fold_command, fold_draft, fold_cover, fold_checkpoint_sha256, outcomes_hash,
  validate_fold, build_transcript_fold_command,
}

-- Slices that follow one another from one offset to another, each inside its retained receipt.
abbrev pub Covers : ℕ → ℕ → List TranscriptFoldSourceRange → Type 0
Covers from to [] = from ≡ to
Covers from to (s ∷ slices) =
    (s.byte_start ≡ from)
    × (s.byte_start < s.byte_end_exclusive)
    × (s.receipt_byte_start ≤ s.byte_start)
    × (s.byte_end_exclusive ≤ s.receipt_byte_end_exclusive)
    × Covers s.byte_end_exclusive to slices

-- Outcomes that follow one another in bytes and in records, each covered by its own lineage.
abbrev pub Folds : ℕ → ℕ → ℕ → ℕ → List TranscriptFoldOutcome → Type 0
Folds byte index last_byte last_index [] = (byte ≡ last_byte) × (index ≡ last_index)
Folds byte index last_byte last_index (o ∷ outcomes) =
    (o.byte_start ≡ byte)
    × (o.start_record_index ≡ index)
    × (o.byte_start < o.byte_end_exclusive)
    × (o.start_record_index ≤ o.end_record_index)
    × Covers o.byte_start o.byte_end_exclusive o.lineage
    × Folds o.byte_end_exclusive o.end_record_index last_byte last_index outcomes

follow_ranges-cons :
    (gap : String) (from to : ℕ) (s : TranscriptFoldSourceRange)
    (slices : List TranscriptFoldSourceRange)
    → follow_ranges gap from (s ∷ slices) ≡ ok to
    → (s.byte_start ≡ from) × (follow_ranges gap s.byte_end_exclusive slices ≡ ok to)
unfolding follow_ranges
follow_ranges-cons gap from to s slices h = ground (arith, h)

follow_outcomes-cons :
    (byte index : ℕ) (o : TranscriptFoldOutcome) (outcomes : List TranscriptFoldOutcome)
    (last : ℕ × ℕ)
    → follow_outcomes byte index (o ∷ outcomes) ≡ ok last
    → (o.byte_start ≡ byte)
      × (o.start_record_index ≡ index)
      × (follow_outcomes o.byte_end_exclusive o.end_record_index outcomes ≡ ok last)
unfolding follow_outcomes
follow_outcomes-cons byte index o outcomes last h = ground (arith, h)

pub follow_ranges-Covers :
    (gap : String) (from to : ℕ) (slices : List TranscriptFoldSourceRange)
    → check_each validate_slice slices ≡ ok tt
    → follow_ranges gap from slices ≡ ok to
    → Covers from to slices
unfolding follow_ranges check_each validate_slice
follow_ranges-Covers gap from to [] valid h = ground (arith, h)
follow_ranges-Covers gap from to (s ∷ slices) valid h =
    let (first, rest) = >>-eq-ok (validate_slice s) _ valid in
    let (_, (_, (_, (_, (_, (inside, _)))))) = check-ok _ first in
    let (start, further) = follow_ranges-cons gap from to s slices h in
    (
      start,
      ground (arith, inside),
      ground (arith, inside),
      ground (arith, inside),
      follow_ranges-Covers gap s.byte_end_exclusive to slices rest further,
    )

module _ {E : Type 0} (envelopes : Envelopes E) where
  pub validate_outcome-Covers :
      (o : TranscriptFoldOutcome)
      → validate_outcome envelopes o ≡ ok tt
      → (o.byte_start < o.byte_end_exclusive)
        × (o.start_record_index ≤ o.end_record_index)
        × Covers o.byte_start o.byte_end_exclusive o.lineage
  unfolding validate_outcome outcome_shape outcome_cover
  validate_outcome-Covers o h =
      let (slices, h1) = >>-eq-ok (check_each validate_slice o.lineage) _ h in
      let (_, h2) = >>-eq-ok (present (validate_exact_turn envelopes) o.exact_turn) _ h1 in
      let (_, h3) = >>-eq-ok (present validate_span o.transcript_span) _ h2 in
      let (_, h4) = >>-eq-ok (present validate_disposition o.policy_disposition) _ h3 in
      let (shape, h5) = >>-eq-ok (outcome_shape o) _ h4 in
      let (last, follow, h6) =
        >>=-eq-ok (follow_ranges _ o.byte_start o.lineage) (outcome_cover o) h5 in
      let (_, (_, (_, (forward, (records, _))))) = check-ok _ shape in
      let (stop, _) = check-ok _ h6 in
      (
        omega (tests, forward),
        omega (tests, records),
        follow_ranges-Covers _ _ _ o.lineage slices (follow ∙ ap ok (omega (tests, stop))),
      )

  follow_outcomes-Folds :
      (byte index : ℕ) (outcomes : List TranscriptFoldOutcome) (last : ℕ × ℕ)
      → check_each (validate_outcome envelopes) outcomes ≡ ok tt
      → follow_outcomes byte index outcomes ≡ ok last
      → Folds byte index last.0 last.1 outcomes
  unfolding follow_outcomes check_each
  follow_outcomes-Folds byte index [] last valid h = (cc (h), cc h)
  follow_outcomes-Folds byte index (o ∷ outcomes) last valid h =
      let (first, rest) = >>-eq-ok (validate_outcome envelopes o) _ valid in
      let (forward, records, covers) = validate_outcome-Covers o first in
      let (start, numbered, further) = follow_outcomes-cons byte index o outcomes last h in
      (
        start,
        numbered,
        forward,
        records,
        covers,
        follow_outcomes-Folds o.byte_end_exclusive o.end_record_index outcomes last rest further,
      )

module _ (py : Runtime) (dumps : Dumps) {E : Type 0} (envelopes : Envelopes E) where
  -- What a command binds: its outcomes fill its bytes and its complete records, its hashes are
  -- those of its outcomes and of its own fields, and its checkpoint advances once.
  pub record BindsFold (c : CommitTranscriptFoldCommand) : Type 0 where
    pub outcomes :
        Folds c.byte_start c.start_record_index c.byte_end_exclusive c.end_record_index c.outcomes
    pub counted : c.start_record_index + c.complete_record_count ≡ c.end_record_index
    pub outcomes_bound : outcomes_hash py dumps c.outcomes ≡ c.outcomes_sha256
    pub once : c.checkpoint.next_sequence ≡ c.checkpoint.expected_sequence + 1
    pub checkpoint_bound : c.checkpoint.checkpoint_hash ≡ fold_checkpoint_sha256 py dumps c

  pub validate_fold-BindsFold :
      (c : CommitTranscriptFoldCommand) → validate_fold py dumps envelopes c ≡ ok tt → BindsFold c
  unfolding validate_fold validate_fold_checkpoint fold_bounds fold_cover
  validate_fold-BindsFold c h =
      let (each, h1) = >>-eq-ok (check_each (validate_outcome envelopes) c.outcomes) _ h in
      let (point, h2) = >>-eq-ok (validate_fold_checkpoint c.checkpoint) _ h1 in
      let (_, h3) = >>-eq-ok (present validate_legacy_cursor c.legacy_cursor) _ h2 in
      let (_, h4) = >>-eq-ok (fold_fields c) _ h3 in
      let (bounds, h5) = >>-eq-ok (fold_bounds c) _ h4 in
      let (last, follow, h6) =
        >>=-eq-ok (follow_outcomes c.byte_start c.start_record_index c.outcomes) _ h5 in
      let (cover, _) = >>-eq-ok (fold_cover py dumps c last) _ h6 in
      let (_, (_, (records, (count, _)))) = check-ok _ bounds in
      let (_, (_, (_, (once, _)))) = check-ok _ point in
      let (bytes, (all, (_, (hashed, (bound, _))))) = check-ok _ cover in
      record {
        outcomes =
            subst₂ (λ b i. Folds c.byte_start c.start_record_index b i c.outcomes)
              (omega (tests, bytes)) (omega (tests, all))
              (follow_outcomes-Folds envelopes c.byte_start c.start_record_index c.outcomes last
                each follow);
        counted = omega (tests, records, count);
        outcomes_bound = beq→eq {A = String} _ _ hashed;
        once = omega (tests, once);
        checkpoint_bound = beq→eq {A = String} _ _ bound;
      }

  -- A command that was built holds the outcomes that it was built from, has as many bytes as it was
  -- given and their hash, and binds its outcomes.
  pub build_transcript_fold_command-BindsFold :
      (a : FoldArguments) (outcomes : List TranscriptFoldOutcome) (source_bytes : List ℕ)
      (legacy : Option LegacyAdapterCursorBinding) (c : CommitTranscriptFoldCommand)
      → build_transcript_fold_command py dumps envelopes a outcomes source_bytes legacy ≡ ok c
      → (c.outcomes ≡ outcomes)
        × (c.byte_start + length source_bytes ≡ c.byte_end_exclusive)
        × (c.source_bytes_sha256 ≡ py.sha256 source_bytes)
        × (c.checkpoint.expected_sequence ≡ a.expected_checkpoint_sequence)
        × BindsFold c
  unfolding build_transcript_fold_command fold_command fold_draft
  build_transcript_fold_command-BindsFold a [] source_bytes legacy c h = cc
  build_transcript_fold_command-BindsFold a (first ∷ outcomes) source_bytes legacy c h =
      let (sized, h1) = >>-eq-ok (check _) _ h in
      let (_, h2) = >>-eq-ok (validate_fold_checkpoint _) _ h1 in
      let (_, h3) = >>-eq-ok (check _) _ h2 in
      let (valid, h4) = >>-eq-ok (validate_fold py dumps envelopes _) _ h3 in
      let (measured, _) = check-ok _ sized in
      subst
        (λ d.
          (d.outcomes ≡ first ∷ outcomes)
          × (d.byte_start + length source_bytes ≡ d.byte_end_exclusive)
          × (d.source_bytes_sha256 ≡ py.sha256 source_bytes)
          × (d.checkpoint.expected_sequence ≡ a.expected_checkpoint_sequence)
          × BindsFold d)
        (cc h4) (refl, ground (arith, measured), refl, refl, validate_fold-BindsFold _ valid)
