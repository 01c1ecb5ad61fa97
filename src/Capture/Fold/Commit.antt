-- ===== src/Capture/Fold/Commit.antt =====
-- `CommitTranscriptFoldCommand.validate_fold` and `build_transcript_fold_command` of
-- transcript_fold.py.
use Prim.Native.String.{◌++◌}
use memoriesql.Prelude.{
  ℕ, ◌+◌, ◌-◌, String, not, ◌&&◌, ◌||◌, Option, none, some, List, [], ◌∷◌, length, is_some, leb,
  nat_eq, string_eq, ◌==◌, value_error, Result, ok, err, check, require, field, ◌>>=◌, ◌>>◌,
}
use memoriesql.Contracts.Text.{colons, decimal}
use memoriesql.Contracts.Runtime.{
  Runtime, Json, Items, nil, cons, null, number, text, array, object, end, entry, canonical_sha256,
}
use memoriesql.Capture.Host.{FileIdentity, stable_key}
use memoriesql.Capture.Range.Command.{check_each, KernelCaptureBinding}
use memoriesql.Capture.Fold.Outcome.{Envelopes, TranscriptFoldOutcome, validate_outcome, present}
use memoriesql.Capture.Fold.Command.{
  LegacyAdapterCursorBinding, validate_legacy_cursor, validate_fold_checkpoint,
  CommitTranscriptFoldCommand, follow_outcomes, any_exact, fold_fields, fold_bounds, legacy_binding,
  fold_command_max_bytes,
}

-- The keyword arguments of the builder beside the outcomes, the bytes and the legacy cursor.
pub record FoldArguments : Type 0 where
  pub binding : KernelCaptureBinding
  pub capability_id : String
  pub connector_id : String
  pub adapter_profile_version : Option String
  pub observed_source_format_version : Option String
  pub source_revision_key : String
  pub file_identity : FileIdentity
  pub checkpoint_key : String
  pub expected_checkpoint_sequence : ℕ

abbrev pub last_of : TranscriptFoldOutcome → List TranscriptFoldOutcome → TranscriptFoldOutcome
last_of o [] = o
last_of o (next ∷ outcomes) = last_of next outcomes

legacy_sha256 : Option LegacyAdapterCursorBinding → Json
legacy_sha256 none = null
legacy_sha256 (some cursor) = text cursor.cursor_sha256

-- `model_dump(mode="json")` of outcomes and of commands, which the contract framework derives from
-- the fields.
pub record Dumps : Type 0 where
  pub outcome : TranscriptFoldOutcome → Json
  pub command : CommitTranscriptFoldCommand → Json

module _ (py : Runtime) (dumps : Dumps) where
  open py use {sha256, encode, canonical_json_bytes}

  rendered : List TranscriptFoldOutcome → Items
  rendered [] = nil
  rendered (o ∷ outcomes) = cons (dumps.outcome o) (rendered outcomes)

  -- canonical_sha256(rendered_outcomes)
  unfoldable pub outcomes_hash : List TranscriptFoldOutcome → String
  unfolding rendered
  outcomes_hash outcomes = canonical_sha256 py (array (rendered outcomes))

  -- `_fold_checkpoint_sha256`, of a command's own fields.
  unfoldable pub fold_checkpoint_sha256 : CommitTranscriptFoldCommand → String
  fold_checkpoint_sha256 c = sha256 (
      encode (
        colons (
          c.checkpoint.checkpoint_key
          ∷ decimal c.checkpoint.expected_sequence
          ∷ decimal c.checkpoint.next_sequence
          ∷ py.uuid_text c.binding.source_object_id
          ∷ c.source_revision_key
          ∷ c.file_identity_key
          ∷ decimal c.byte_start
          ∷ decimal c.byte_end_exclusive
          ∷ decimal c.start_record_index
          ∷ decimal c.end_record_index
          ∷ c.source_bytes_sha256
          ∷ c.outcomes_sha256
          ∷ [])))

  unfoldable pub fold_canonical_bytes : CommitTranscriptFoldCommand → List ℕ
  fold_canonical_bytes c = canonical_json_bytes (dumps.command c)

  -- The checks after the loop, which ends at `expected`, and before the legacy cursor's.
  unfoldable pub fold_cover : CommitTranscriptFoldCommand → ℕ × ℕ → Result (Unit {0})
  unfolding outcomes_hash fold_checkpoint_sha256
  fold_cover c expected = check (
      require (expected.0 == c.byte_end_exclusive)
        "transcript fold outcomes must cover its exact bytes"
      ∷ require (expected.1 == c.end_record_index)
          "transcript fold outcomes must cover every complete record"
      ∷ require
          (not (any_exact c.outcomes)
            || (is_some c.adapter_profile_version && is_some c.observed_source_format_version))
          "exact transcript folds require a qualified adapter profile"
      ∷ require (outcomes_hash c.outcomes == c.outcomes_sha256)
          "transcript fold outcome hash must bind every outcome"
      ∷ require (c.checkpoint.checkpoint_hash == fold_checkpoint_sha256 c)
          "transcript fold checkpoint must bind its exact result"
      ∷ [])

  module _ {E : Type 0} (envelopes : Envelopes E) where
    unfoldable pub validate_fold : CommitTranscriptFoldCommand → Result (Unit {0})
    unfolding fold_cover fold_canonical_bytes validate_legacy_cursor
    validate_fold c = do
      check_each (validate_outcome envelopes) c.outcomes
      validate_fold_checkpoint c.checkpoint
      present validate_legacy_cursor c.legacy_cursor
      fold_fields c
      fold_bounds c
      expected ← follow_outcomes c.byte_start c.start_record_index c.outcomes
      fold_cover c expected
      legacy_binding c c.legacy_cursor
      check (
          require (leb (length (fold_canonical_bytes c)) fold_command_max_bytes)
            "transcript fold command exceeds its canonical bound"
          ∷ [])

  fold_operation_sha256 :
      FoldArguments → ℕ → ℕ → String → String → Option LegacyAdapterCursorBinding → String
  unfolding legacy_sha256
  fold_operation_sha256 a byte_start byte_end source_hash hash legacy = canonical_sha256 py (
      object (
        entry "source_object_id" (text (py.uuid_text a.binding.source_object_id)) (
          entry "source_revision_key" (text a.source_revision_key) (
            entry "file_identity_key" (text (stable_key a.file_identity)) (
              entry "byte_start" (number byte_start) (
                entry "byte_end_exclusive" (number byte_end) (
                  entry "source_bytes_sha256" (text source_hash) (
                    entry "outcomes_sha256" (text hash)
                      (entry "legacy_cursor_sha256" (legacy_sha256 legacy) end)))))))))

  -- The command with a given checkpoint hash: the hash is of the other fields.
  unfoldable pub fold_draft :
      FoldArguments
      → TranscriptFoldOutcome
      → List TranscriptFoldOutcome
      → List ℕ
      → Option LegacyAdapterCursorBinding
      → String
      → CommitTranscriptFoldCommand
  unfolding fold_operation_sha256
  fold_draft a first outcomes source_bytes legacy checkpoint_hash =
      let final = last_of first outcomes in
      let source_hash = sha256 source_bytes in
      let hash = outcomes_hash (first ∷ outcomes) in
      record {
        idempotency_key =
            "transcript-fold:"
            ++ fold_operation_sha256 a first.byte_start final.byte_end_exclusive source_hash hash
                legacy;
        binding = a.binding;
        capability_id = a.capability_id;
        connector_id = a.connector_id;
        adapter_profile_version = a.adapter_profile_version;
        observed_source_format_version = a.observed_source_format_version;
        source_revision_key = a.source_revision_key;
        file_identity = a.file_identity;
        file_identity_key = stable_key a.file_identity;
        byte_start = first.byte_start;
        byte_end_exclusive = final.byte_end_exclusive;
        start_record_index = first.start_record_index;
        end_record_index = final.end_record_index;
        complete_record_count = final.end_record_index - first.start_record_index;
        source_bytes_sha256 = source_hash;
        outcomes_sha256 = hash;
        outcomes = first ∷ outcomes;
        checkpoint = record {
          checkpoint_key = a.checkpoint_key;
          expected_sequence = a.expected_checkpoint_sequence;
          next_sequence = a.expected_checkpoint_sequence + 1;
          checkpoint_hash = checkpoint_hash;
        };
        legacy_cursor = legacy;
      }

  -- The command as it is handed to its validator.
  unfoldable pub fold_command :
      FoldArguments
      → TranscriptFoldOutcome
      → List TranscriptFoldOutcome
      → List ℕ
      → Option LegacyAdapterCursorBinding
      → CommitTranscriptFoldCommand
  unfolding fold_draft
  fold_command a first outcomes source_bytes legacy =
      fold_draft a first outcomes source_bytes legacy
        (fold_checkpoint_sha256 (fold_draft a first outcomes source_bytes legacy ""))

  module _ {E : Type 0} (envelopes : Envelopes E) where
    -- A negative number of bytes is no payload's length, and one of records is no count.
    unfoldable pub build_transcript_fold_command :
        FoldArguments
        → List TranscriptFoldOutcome
        → List ℕ
        → Option LegacyAdapterCursorBinding
        → Result CommitTranscriptFoldCommand
    unfolding fold_command validate_fold
    build_transcript_fold_command a [] source_bytes legacy =
        err (value_error "transcript fold command requires outcomes")
    build_transcript_fold_command a (first ∷ outcomes) source_bytes legacy = do
      let final = last_of first outcomes
      let command = fold_command a first outcomes source_bytes legacy
      check (
          require
            (leb first.byte_start final.byte_end_exclusive
              && length source_bytes == final.byte_end_exclusive - first.byte_start)
            "transcript fold command bytes must match its outcomes"
          ∷ [])
      validate_fold_checkpoint command.checkpoint
      check
          (field (leb first.start_record_index final.end_record_index) "complete_record_count" ∷ [])
      validate_fold envelopes command
      ok command
