-- ===== src/Capture/Fold/Cursor.antt =====
-- The receipt, the pending ranges and the cursor of transcript_fold.py, with their validators, and
-- the updates of the cursor that the fold loop makes.
use memoriesql.Prelude.{
  ℕ, ◌+◌, ◌-◌, String, Bool, true, not, ◌&&◌, Option, none, some, List, [], ◌∷◌, length, leb, ltb,
  nat_eq, string_eq, ◌==◌, value_error, Result, ok, err, check, require, field, if◌then◌else◌,
}
use memoriesql.Contracts.Text.{has_length, is_sha256, is_key, optional}
use memoriesql.Capture.Host.{Uuid, Datetime, FileIdentity, file_eq, is_file_identity}

-- HOST_CAPTURE_MAX_PENDING_RANGES, HOST_CAPTURE_MAX_STREAMING_ASSEMBLY_RECORDS and
-- HOST_CAPTURE_MAX_CONTINUATION_STATE_BYTES of source_adapter.py
abbrev pub max_pending_ranges : ℕ
max_pending_ranges = 128

abbrev pub max_assembly_records : ℕ
max_assembly_records = 4096

abbrev pub max_state_bytes : ℕ
max_state_bytes = 65536

pub data HostCaptureState : Type 0 where
  healthy waiting_for_complete_record degraded quarantined permission_revoked identity_changed :
      HostCaptureState

pub record CommitTranscriptFoldReceipt : Type 0 where
  pub transcript_fold_receipt_id : Uuid
  pub idempotency_receipt_id : Uuid
  pub source_object_id : Uuid
  pub source_revision_key : String
  pub file_identity_key : String
  pub byte_start : ℕ
  pub byte_end_exclusive : ℕ
  pub start_record_index : ℕ
  pub end_record_index : ℕ
  pub complete_record_count : ℕ
  pub source_bytes_sha256 : String
  pub outcomes_sha256 : String
  pub exact_turn_count : ℕ
  pub transcript_span_count : ℕ
  pub policy_disposition_count : ℕ
  pub checkpoint_key : String
  pub checkpoint_sequence : ℕ
  pub authority_principal_id : Uuid
  pub folded_at : Datetime
  pub replayed : Bool
  pub durable : Bool

-- A negative number of records is no record count.
unfoldable pub validate_fold_receipt : CommitTranscriptFoldReceipt → Result (Unit {0})
validate_fold_receipt r = check (
    field (has_length 1 512 r.source_revision_key) "source_revision_key"
    ∷ field (has_length 1 256 r.file_identity_key) "file_identity_key"
    ∷ field (leb 1 r.byte_end_exclusive) "byte_end_exclusive"
    ∷ field (is_sha256 r.source_bytes_sha256) "source_bytes_sha256"
    ∷ field (is_sha256 r.outcomes_sha256) "outcomes_sha256"
    ∷ field (is_key r.checkpoint_key) "checkpoint_key"
    ∷ field (leb 1 r.checkpoint_sequence) "checkpoint_sequence"
    ∷ field r.durable "durable"
    ∷ require (ltb r.byte_start r.byte_end_exclusive)
        "transcript fold receipt bytes must be non-empty"
    ∷ require
        (leb r.start_record_index r.end_record_index
          && r.end_record_index - r.start_record_index == r.complete_record_count)
        "transcript fold receipt must bind its record count"
    ∷ require r.folded_at.has_tzinfo "transcript fold receipt time must be timezone-aware"
    ∷ require (leb 1 (r.exact_turn_count + r.transcript_span_count + r.policy_disposition_count))
        "transcript fold receipt requires an outcome"
    ∷ [])

pub record DurableTranscriptFoldAcknowledgement : Type 0 where
  pub transcript_fold_receipt_id : Uuid
  pub idempotency_receipt_id : Uuid
  pub byte_start : ℕ
  pub byte_end_exclusive : ℕ
  pub start_record_index : ℕ
  pub end_record_index : ℕ
  pub source_bytes_sha256 : String
  pub outcomes_sha256 : String
  pub checkpoint_sequence : ℕ
  pub authority_principal_id : Uuid
  pub replayed : Bool

unfoldable pub validate_fold_acknowledgement :
    DurableTranscriptFoldAcknowledgement → Result (Unit {0})
validate_fold_acknowledgement a = check (
    field (leb 1 a.byte_end_exclusive) "byte_end_exclusive"
    ∷ field (is_sha256 a.source_bytes_sha256) "source_bytes_sha256"
    ∷ field (is_sha256 a.outcomes_sha256) "outcomes_sha256"
    ∷ field (leb 1 a.checkpoint_sequence) "checkpoint_sequence"
    ∷ [])

-- `_acknowledgement`
unfoldable pub fold_acknowledgement :
    CommitTranscriptFoldReceipt → DurableTranscriptFoldAcknowledgement
fold_acknowledgement r = record {
  transcript_fold_receipt_id = r.transcript_fold_receipt_id;
  idempotency_receipt_id = r.idempotency_receipt_id;
  byte_start = r.byte_start;
  byte_end_exclusive = r.byte_end_exclusive;
  start_record_index = r.start_record_index;
  end_record_index = r.end_record_index;
  source_bytes_sha256 = r.source_bytes_sha256;
  outcomes_sha256 = r.outcomes_sha256;
  checkpoint_sequence = r.checkpoint_sequence;
  authority_principal_id = r.authority_principal_id;
  replayed = r.replayed;
}

pub record TranscriptFoldPendingRange : Type 0 where
  pub byte_start : ℕ
  pub byte_end_exclusive : ℕ
  pub start_record_index : ℕ
  pub end_record_index : ℕ
  pub source_bytes_sha256 : String

unfoldable pub validate_pending : TranscriptFoldPendingRange → Result (Unit {0})
validate_pending p = check (
    field (leb 1 p.byte_end_exclusive) "byte_end_exclusive"
    ∷ field (leb 1 p.end_record_index) "end_record_index"
    ∷ field (is_sha256 p.source_bytes_sha256) "source_bytes_sha256"
    ∷ require (ltb p.byte_start p.byte_end_exclusive) "pending fold bytes must be non-empty"
    ∷ require (ltb p.start_record_index p.end_record_index) "pending fold records must be non-empty"
    ∷ [])

pub record TranscriptFoldCursorState : Type 0 where
  pub capability_id : String
  pub revision : ℕ
  pub file_identity : Option FileIdentity
  pub acknowledged_offset : ℕ
  pub acknowledged_record_index : ℕ
  pub checkpoint_sequence : ℕ
  pub pending_ranges : List TranscriptFoldPendingRange
  pub extractor_state_base64 : String
  pub extractor_state_sha256 : String
  pub pending_tail_byte_count : ℕ
  pub pending_tail_sha256 : String
  pub source_state : HostCaptureState
  pub durable_end_offset : ℕ
  pub diagnostic_code : Option String
  pub last_acknowledgement : Option DurableTranscriptFoldAcknowledgement

-- The loop of `validate_cursor`: the byte and the record after the last pending range.
unfoldable pub follow_pending : ℕ → ℕ → List TranscriptFoldPendingRange → Result (ℕ × ℕ)
follow_pending expected_byte expected_record [] = ok (expected_byte, expected_record)
follow_pending expected_byte expected_record (pending ∷ ranges) =
    let rest = follow_pending pending.byte_end_exclusive pending.end_record_index ranges in
    if not (pending.byte_start == expected_byte)
    then err (value_error "pending fold ranges must be byte contiguous")
    else if not (pending.start_record_index == expected_record)
    then err (value_error "pending fold ranges must be record contiguous")
    else rest

-- `pending_ranges[-1]`'s end, or the acknowledged one
unfoldable pub end_from : ℕ → List TranscriptFoldPendingRange → ℕ
end_from acknowledged [] = acknowledged
end_from acknowledged (pending ∷ ranges) = end_from pending.byte_end_exclusive ranges

unfoldable pub record_end_from : ℕ → List TranscriptFoldPendingRange → ℕ
record_end_from acknowledged [] = acknowledged
record_end_from acknowledged (pending ∷ ranges) = record_end_from pending.end_record_index ranges

unfoldable pub pending_end_offset : TranscriptFoldCursorState → ℕ
unfolding end_from
pending_end_offset s = end_from s.acknowledged_offset s.pending_ranges

unfoldable pub pending_end_record_index : TranscriptFoldCursorState → ℕ
unfolding record_end_from
pending_end_record_index s = record_end_from s.acknowledged_record_index s.pending_ranges

abbrev pub acknowledges :
    TranscriptFoldCursorState → Option DurableTranscriptFoldAcknowledgement → Bool
acknowledges s none = true
acknowledges s (some a) =
    a.byte_end_exclusive == s.acknowledged_offset
    && (a.end_record_index == s.acknowledged_record_index
        && a.checkpoint_sequence == s.checkpoint_sequence)

unfoldable pub cursor_fields : TranscriptFoldCursorState → Result (Unit {0})
cursor_fields s = check (
    field (is_key s.capability_id) "capability_id"
    ∷ field (optional is_file_identity s.file_identity) "file_identity"
    ∷ field (leb (length s.pending_ranges) max_pending_ranges) "pending_ranges"
    ∷ field (has_length 0 87384 s.extractor_state_base64) "extractor_state_base64"
    ∷ field (is_sha256 s.extractor_state_sha256) "extractor_state_sha256"
    ∷ field (is_sha256 s.pending_tail_sha256) "pending_tail_sha256"
    ∷ field (optional is_key s.diagnostic_code) "diagnostic_code"
    ∷ [])
