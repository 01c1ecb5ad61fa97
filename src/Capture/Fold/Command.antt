-- ===== src/Capture/Fold/Command.antt =====
-- The checkpoint and the command of a fold in transcript_fold.py, and the command's builder.
use memoriesql.Prelude.{
  ℕ, ◌+◌, ◌-◌, String, Bool, false, not, ◌&&◌, ◌||◌, Option, none, some, List, [], ◌∷◌, length, leb,
  ltb, nat_eq, string_eq, ◌==◌, value_error, Result, ok, err, check, require, field, if◌then◌else◌,
}
use memoriesql.Contracts.Text.{has_length, is_sha256, is_key, optional}
use memoriesql.Capture.Host.{Uuid, FileIdentity, is_file_identity, stable_key}
use memoriesql.Capture.Range.Command.{KernelCaptureBinding}
use memoriesql.Capture.Fold.Outcome.{TranscriptFoldOutcome, is_policy, is_exact}

abbrev pub fold_max_outcomes : ℕ
fold_max_outcomes = 256

abbrev pub fold_command_max_bytes : ℕ
fold_command_max_bytes = 16777216

pub record LegacyAdapterCursorBinding : Type 0 where
  pub cursor_version : ℕ
  pub cursor_sha256 : String
  pub acknowledged_byte_offset : ℕ
  pub acknowledged_record_index : ℕ
  pub checkpoint_sequence : ℕ
  pub last_receipt_event_id : Option Uuid

unfoldable pub validate_legacy_cursor : LegacyAdapterCursorBinding → Result (Unit {0})
validate_legacy_cursor c = check (
    field (c.cursor_version == 1 || c.cursor_version == 2) "cursor_version"
    ∷ field (is_sha256 c.cursor_sha256) "cursor_sha256"
    ∷ field (leb 1 c.acknowledged_byte_offset) "acknowledged_byte_offset"
    ∷ [])

pub record TranscriptFoldCheckpoint : Type 0 where
  pub checkpoint_key : String
  pub expected_sequence : ℕ
  pub next_sequence : ℕ
  pub checkpoint_hash : String

unfoldable pub validate_fold_checkpoint : TranscriptFoldCheckpoint → Result (Unit {0})
validate_fold_checkpoint c = check (
    field (is_key c.checkpoint_key) "checkpoint_key"
    ∷ field (leb 1 c.next_sequence) "next_sequence"
    ∷ field (is_sha256 c.checkpoint_hash) "checkpoint_hash"
    ∷ require (c.next_sequence == c.expected_sequence + 1)
        "transcript fold checkpoint must advance exactly once"
    ∷ [])

pub record CommitTranscriptFoldCommand : Type 0 where
  pub idempotency_key : String
  pub binding : KernelCaptureBinding
  pub capability_id : String
  pub connector_id : String
  pub adapter_profile_version : Option String
  pub observed_source_format_version : Option String
  pub source_revision_key : String
  pub file_identity : FileIdentity
  pub file_identity_key : String
  pub byte_start : ℕ
  pub byte_end_exclusive : ℕ
  pub start_record_index : ℕ
  pub end_record_index : ℕ
  pub complete_record_count : ℕ
  pub source_bytes_sha256 : String
  pub outcomes_sha256 : String
  pub outcomes : List TranscriptFoldOutcome
  pub checkpoint : TranscriptFoldCheckpoint
  pub legacy_cursor : Option LegacyAdapterCursorBinding

-- The loop of `validate_fold`: the byte and the record after the last outcome.
unfoldable pub follow_outcomes : ℕ → ℕ → List TranscriptFoldOutcome → Result (ℕ × ℕ)
follow_outcomes expected_byte expected_record [] = ok (expected_byte, expected_record)
follow_outcomes expected_byte expected_record (outcome ∷ outcomes) =
    let rest = follow_outcomes outcome.byte_end_exclusive outcome.end_record_index outcomes in
    if not (outcome.byte_start == expected_byte)
    then err (value_error "transcript fold outcomes must be byte contiguous")
    else if not (outcome.start_record_index == expected_record)
    then err (value_error "transcript fold outcomes must be record contiguous")
    else rest

-- any(outcome.outcome_kind == EXACT_TURN for outcome in outcomes)
unfoldable pub any_exact : List TranscriptFoldOutcome → Bool
any_exact [] = false
any_exact (outcome ∷ outcomes) = is_exact outcome.outcome_kind || any_exact outcomes

-- The one outcome of a migration is a policy disposition.
abbrev pub one_policy : List TranscriptFoldOutcome → Bool
one_policy (outcome ∷ []) = is_policy outcome.outcome_kind
one_policy _ = false

unfoldable pub fold_fields : CommitTranscriptFoldCommand → Result (Unit {0})
fold_fields c = check (
    field (has_length 1 512 c.idempotency_key) "idempotency_key"
    ∷ field (leb 1 c.binding.expected_source_object_schema_version)
        "expected_source_object_schema_version"
    ∷ field (is_key c.capability_id) "capability_id"
    ∷ field (is_key c.connector_id) "connector_id"
    ∷ field (optional (has_length 1 128) c.adapter_profile_version) "adapter_profile_version"
    ∷ field (optional (has_length 1 128) c.observed_source_format_version)
        "observed_source_format_version"
    ∷ field (has_length 1 512 c.source_revision_key) "source_revision_key"
    ∷ field (is_file_identity c.file_identity) "file_identity"
    ∷ field (has_length 1 256 c.file_identity_key) "file_identity_key"
    ∷ field (leb 1 c.byte_end_exclusive) "byte_end_exclusive"
    ∷ field (leb c.complete_record_count 1000000) "complete_record_count"
    ∷ field (is_sha256 c.source_bytes_sha256) "source_bytes_sha256"
    ∷ field (is_sha256 c.outcomes_sha256) "outcomes_sha256"
    ∷ field (leb 1 (length c.outcomes) && leb (length c.outcomes) fold_max_outcomes) "outcomes"
    ∷ [])

-- The checks of `validate_fold` before its loop.
unfoldable pub fold_bounds : CommitTranscriptFoldCommand → Result (Unit {0})
fold_bounds c = check (
    require (c.file_identity_key == stable_key c.file_identity)
      "transcript fold file identity key must be mechanical"
    ∷ require (ltb c.byte_start c.byte_end_exclusive) "transcript fold bytes must be non-empty"
    ∷ require (leb c.start_record_index c.end_record_index)
        "transcript fold record range is invalid"
    ∷ require (c.complete_record_count == c.end_record_index - c.start_record_index)
        "transcript fold record count must match its range"
    ∷ [])

-- The checks on the legacy cursor that a migration replaces.
unfoldable pub legacy_binding :
    CommitTranscriptFoldCommand → Option LegacyAdapterCursorBinding → Result (Unit {0})
legacy_binding c none = ok tt
legacy_binding c (some legacy) = check (
    require (c.byte_start == 0) "legacy cursor migration must begin at byte zero"
    ∷ require
        (leb c.byte_end_exclusive legacy.acknowledged_byte_offset
          && (leb c.end_record_index legacy.acknowledged_record_index
              && legacy.checkpoint_sequence == c.checkpoint.expected_sequence))
        "legacy cursor migration must bind prior progress"
    ∷ require (one_policy c.outcomes) "legacy cursor migration requires one disposition"
    ∷ [])
