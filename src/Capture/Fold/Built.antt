-- ===== src/Capture/Fold/Built.antt =====
-- `build_transcript_fold_command` does not refuse outcomes that follow one another.
use memoriesql.Prelude.{
  ℕ, ◌+◌, ◌-◌, ◌≤◌, ◌<◌, ◌≡◌, refl, ◌∙◌, true, not, ◌&&◌, ◌||◌, none, List, [], ◌∷◌, length,
  is_some, leb, ok, Holds-ok, ok->>, ◌&◌, arith, string_eq, string_refl, eq→eqb, lt→ltb, le→leb,
  nat_eq, ◌↔◌, >>-eq-ok, >>=-eq-ok, check-ok, check, tests,
}
use memoriesql.Contracts.Text.{has_length, has_length-prefixed, is_key, optional}
use memoriesql.Contracts.Runtime.{Runtime, canonical_sha256-form}
use memoriesql.Capture.Host.{is_file_identity, stable_key}
use memoriesql.Capture.Range.Command.{check_each}
use memoriesql.Capture.Fold.Outcome.{Envelopes, TranscriptFoldOutcome, validate_outcome, present}
use memoriesql.Capture.Fold.Command.{
  validate_fold_checkpoint, follow_outcomes, fold_fields, fold_bounds, any_exact, fold_max_outcomes,
  fold_command_max_bytes, legacy_binding, validate_legacy_cursor, CommitTranscriptFoldCommand,
}
use memoriesql.Capture.Fold.Commit.{
  FoldArguments, Dumps, last_of, fold_command, fold_draft, fold_cover, fold_checkpoint_sha256,
  outcomes_hash, fold_canonical_bytes, validate_fold, build_transcript_fold_command,
}
use memoriesql.Capture.Fold.Sound.{Folds}

-- The constraints on what the builder is given beside the outcomes.
pub record IsValidFold (a : FoldArguments) : Type 0 where
  pub schema_version : leb 1 a.binding.expected_source_object_schema_version ≡ true
  pub capability_key : is_key a.capability_id ≡ true
  pub connector_key : is_key a.connector_id ≡ true
  pub profile_version : optional (has_length 1 128) a.adapter_profile_version ≡ true
  pub format_version : optional (has_length 1 128) a.observed_source_format_version ≡ true
  pub revision_key : has_length 1 512 a.source_revision_key ≡ true
  pub file : is_file_identity a.file_identity ≡ true
  pub file_key : has_length 1 256 (stable_key a.file_identity) ≡ true
  pub checkpoint_key : is_key a.checkpoint_key ≡ true

-- Outcomes that follow one another pass the loop.
Folds-follow_outcomes :
    (byte index last_byte last_index : ℕ) (outcomes : List TranscriptFoldOutcome)
    → Folds byte index last_byte last_index outcomes
    → follow_outcomes byte index outcomes ≡ ok (last_byte, last_index)
unfolding follow_outcomes
Folds-follow_outcomes byte index last_byte last_index [] (b, i) = cc (b, i)
Folds-follow_outcomes byte index last_byte last_index (o ∷ outcomes) (b, i, _, _, _, rest) =
    rw (eq→eqb _ _ b) (
      rw (eq→eqb _ _ i) (
        Folds-follow_outcomes o.byte_end_exclusive o.end_record_index last_byte last_index outcomes
          rest))

-- Bytes and records go forward.
Folds-forward :
    (byte index last_byte last_index : ℕ) (outcomes : List TranscriptFoldOutcome)
    → Folds byte index last_byte last_index outcomes
    → (byte ≤ last_byte) × (index ≤ last_index)
Folds-forward byte index last_byte last_index [] (b, i) = (omega (arith, b), omega (arith, i))
Folds-forward byte index last_byte last_index (o ∷ outcomes) (b, i, forward, records, _, rest) =
    let (more, later) =
      Folds-forward o.byte_end_exclusive o.end_record_index last_byte last_index outcomes rest in
    (omega (arith, b, forward, more), omega (arith, i, records, later))

module _ (py : Runtime) (dumps : Dumps) {E : Type 0} (envelopes : Envelopes E) (a : FoldArguments)
    (first : TranscriptFoldOutcome) (outcomes : List TranscriptFoldOutcome) (source_bytes : List ℕ)
    (args : IsValidFold a)
    (valid : check_each (validate_outcome envelopes) (first ∷ outcomes) ≡ ok tt)
    (follows : Folds first.byte_start first.start_record_index
      (last_of first outcomes).byte_end_exclusive
      (last_of first outcomes).end_record_index
      (first ∷ outcomes))
    (few : length (first ∷ outcomes) ≤ fold_max_outcomes)
    (counted : (last_of first outcomes).end_record_index - first.start_record_index ≤ 1000000)
    (sized : first.byte_start + length source_bytes ≡ (last_of first outcomes).byte_end_exclusive)
    (qualified : not (any_exact (first ∷ outcomes))
        || (is_some a.adapter_profile_version && is_some a.observed_source_format_version)
      ≡ true) where
  forward : first.byte_start < (last_of first outcomes).byte_end_exclusive
  forward =
      let (_, _, step, _, _, rest) = follows in
      omega (arith, step, (Folds-forward _ _ _ _ outcomes rest).0)

  records : first.start_record_index ≤ (last_of first outcomes).end_record_index
  records = (Folds-forward _ _ _ _ (first ∷ outcomes) follows).1

  checkpoint-IsValid :
      validate_fold_checkpoint (fold_command py dumps a first outcomes source_bytes none).checkpoint
      ≡ ok tt
  unfolding validate_fold_checkpoint fold_command fold_draft fold_checkpoint_sha256
  checkpoint-IsValid =
      Holds-ok _ (args.checkpoint_key & (ground arith) & (py.sha256_form _) & (ground arith) & tt)

  fields-IsValid : fold_fields (fold_command py dumps a first outcomes source_bytes none) ≡ ok tt
  unfolding fold_fields fold_command fold_draft outcomes_hash
  fields-IsValid = Holds-ok _ (
      (has_length-prefixed _ _ (omega arith) (canonical_sha256-form py _))
      & args.schema_version
      & args.capability_key
      & args.connector_key
      & args.profile_version
      & args.format_version
      & args.revision_key
      & args.file
      & args.file_key
      & (ground (arith, forward))
      & (le→leb _ _ counted)
      & (py.sha256_form source_bytes)
      & (canonical_sha256-form py _)
      & (ground (arith, few))
      & tt)

  bounds-IsValid : fold_bounds (fold_command py dumps a first outcomes source_bytes none) ≡ ok tt
  unfolding fold_bounds fold_command fold_draft
  bounds-IsValid =
      Holds-ok _
        ((string_refl _) & (lt→ltb _ _ forward) & (le→leb _ _ records) & (eq→eqb _ _ refl) & tt)

  cover-IsValid :
      fold_cover py dumps
        (fold_command py dumps a first outcomes source_bytes none)
        ((last_of first outcomes).byte_end_exclusive, (last_of first outcomes).end_record_index)
      ≡ ok tt
  unfolding fold_cover fold_command fold_draft fold_checkpoint_sha256
  cover-IsValid =
      Holds-ok _
        ((eq→eqb _ _ refl) & (eq→eqb _ _ refl) & qualified & (string_refl _) & (string_refl _) & tt)

  validate_fold-IsValid :
      length
          (fold_canonical_bytes py dumps (fold_command py dumps a first outcomes source_bytes none))
        ≤ fold_command_max_bytes
      → validate_fold py dumps envelopes (fold_command py dumps a first outcomes source_bytes none)
        ≡ ok tt
  unfolding validate_fold fold_command fold_draft legacy_binding
  validate_fold-IsValid small =
      ok->> _ _ valid
      ∙ (ok->> _ _ checkpoint-IsValid
          ∙ (ok->> _ _ fields-IsValid
              ∙ (ok->> _ _ bounds-IsValid
                  ∙ rw (Folds-follow_outcomes _ _ _ _ (first ∷ outcomes) follows)
                      (ok->> _ _ cover-IsValid ∙ Holds-ok _ (le→leb _ _ small & tt)))))

  -- The last check of the validator is on the canonical bytes.
  validate_fold-small :
      (c : CommitTranscriptFoldCommand)
      → validate_fold py dumps envelopes c ≡ ok tt
      → length (fold_canonical_bytes py dumps c) ≤ fold_command_max_bytes
  unfolding validate_fold
  validate_fold-small c h =
      let (_, h1) = >>-eq-ok (check_each (validate_outcome envelopes) c.outcomes) _ h in
      let (_, h2) = >>-eq-ok (validate_fold_checkpoint c.checkpoint) _ h1 in
      let (_, h3) = >>-eq-ok (present validate_legacy_cursor c.legacy_cursor) _ h2 in
      let (_, h4) = >>-eq-ok (fold_fields c) _ h3 in
      let (_, h5) = >>-eq-ok (fold_bounds c) _ h4 in
      let (expected, _, h6) =
        >>=-eq-ok (follow_outcomes c.byte_start c.start_record_index c.outcomes) _ h5 in
      let (_, h7) = >>-eq-ok (fold_cover py dumps c expected) _ h6 in
      let (_, h8) = >>-eq-ok (legacy_binding c c.legacy_cursor) _ h7 in
      let (small, _) = check-ok _ h8 in omega (tests, small)

  built-small :
      build_transcript_fold_command py dumps envelopes a (first ∷ outcomes) source_bytes none
        ≡ ok (fold_command py dumps a first outcomes source_bytes none)
      → length
          (fold_canonical_bytes py dumps (fold_command py dumps a first outcomes source_bytes none))
        ≤ fold_command_max_bytes
  unfolding build_transcript_fold_command
  built-small h =
      let (_, h1) = >>-eq-ok (check _) _ h in
      let (_, h2) = >>-eq-ok (validate_fold_checkpoint _) _ h1 in
      let (_, h3) = >>-eq-ok (check _) _ h2 in
      let command = fold_command py dumps a first outcomes source_bytes none in
      let (passed, _) = >>-eq-ok (validate_fold py dumps envelopes command) _ h3 in
      validate_fold-small command passed

  fold_command-built :
      length
          (fold_canonical_bytes py dumps (fold_command py dumps a first outcomes source_bytes none))
        ≤ fold_command_max_bytes
      → build_transcript_fold_command py dumps envelopes a (first ∷ outcomes) source_bytes none
        ≡ ok (fold_command py dumps a first outcomes source_bytes none)
  unfolding build_transcript_fold_command
  fold_command-built small =
      ok->> _ _ (Holds-ok _ ((ground (arith, forward, sized)) & tt))
      ∙ (ok->> _ _ checkpoint-IsValid
          ∙ (ok->> _ _ (Holds-ok _ ((le→leb _ _ records) & tt))
              ∙ ok->> _ _ (validate_fold-IsValid small)))

  -- Where the arguments meet the constraints on their fields and there is no legacy cursor, where
  -- the outcomes are valid and follow one another in bytes and in records, are at most 256 and of
  -- 1,000,000 records at most, come with an adapter profile if one is an exact turn, and the bytes
  -- are as many as theirs, the builder returns the command exactly if the canonical bytes of the
  -- command are within their bound: no other check refuses it.
  pub build_transcript_fold_command-total :
      (build_transcript_fold_command py dumps envelopes a (first ∷ outcomes) source_bytes none
        ≡ ok (fold_command py dumps a first outcomes source_bytes none))
      ↔ (length (
            fold_canonical_bytes py dumps
              (fold_command py dumps a first outcomes source_bytes none))
          ≤ fold_command_max_bytes)
  build_transcript_fold_command-total = (built-small, fold_command-built)
