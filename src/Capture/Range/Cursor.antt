-- ===== src/Capture/Range/Cursor.antt =====
-- The receipt, the cursor and the result of source_range.py, with their validators.
use memoriesql.Prelude.{
  ℕ, ◌-◌, String, Bool, true, false, not, ◌&&◌, ◌||◌, Option, none, some, [], ◌∷◌, leb, nat_eq,
  string_eq, ◌==◌, is_some, is_none, Result, check, require, field, ◌>>◌,
}
use memoriesql.Contracts.Text.{has_length, is_sha256, is_key, optional}
use memoriesql.Capture.Host.{Uuid, Datetime, FileIdentity, is_file_identity, stable_key}
use memoriesql.Capture.Range.Command.{transaction_max_bytes, transaction_max_chunks}

pub data RawSourceCaptureStatus : Type 0 where
  captured end_of_file paused permission_revoked source_unavailable identity_changed :
      RawSourceCaptureStatus

pub record CaptureSourceRangeReceipt : Type 0 where
  pub source_range_receipt_id : Uuid
  pub idempotency_receipt_id : Uuid
  pub source_object_id : Uuid
  pub source_revision_key : String
  pub file_identity_key : String
  pub byte_start : ℕ
  pub byte_end_exclusive : ℕ
  pub payload_byte_count : ℕ
  pub payload_sha256 : String
  pub chunk_count : ℕ
  pub checkpoint_key : String
  pub checkpoint_sequence : ℕ
  pub authority_principal_id : Uuid
  pub captured_at : Datetime
  pub already_exists : Bool
  pub replayed : Bool
  pub durable : Bool

-- In the integers the range also has to be non-empty, as a byte count of at least 1 does here.
unfoldable pub validate_receipt : CaptureSourceRangeReceipt → Result (Unit {0})
validate_receipt r = check (
    field (has_length 1 512 r.source_revision_key) "source_revision_key"
    ∷ field (has_length 1 256 r.file_identity_key) "file_identity_key"
    ∷ field (leb 1 r.byte_end_exclusive) "byte_end_exclusive"
    ∷ field (leb 1 r.payload_byte_count && leb r.payload_byte_count transaction_max_bytes)
        "payload_byte_count"
    ∷ field (is_sha256 r.payload_sha256) "payload_sha256"
    ∷ field (leb 1 r.chunk_count && leb r.chunk_count transaction_max_chunks) "chunk_count"
    ∷ field (is_key r.checkpoint_key) "checkpoint_key"
    ∷ field (leb 1 r.checkpoint_sequence) "checkpoint_sequence"
    ∷ field r.durable "durable"
    ∷ require (r.byte_end_exclusive - r.byte_start == r.payload_byte_count)
        "source-range receipt byte count must match its range"
    ∷ require r.captured_at.has_tzinfo "source-range receipt capture time must be timezone-aware"
    ∷ [])

pub record DurableSourceRangeAcknowledgement : Type 0 where
  pub source_range_receipt_id : Uuid
  pub idempotency_receipt_id : Uuid
  pub source_object_id : Uuid
  pub source_revision_key : String
  pub file_identity_key : String
  pub payload_sha256 : String
  pub byte_start : ℕ
  pub byte_end_exclusive : ℕ
  pub checkpoint_key : String
  pub checkpoint_sequence : ℕ
  pub authority_principal_id : Uuid
  pub already_exists : Bool
  pub replayed : Bool

unfoldable pub validate_acknowledgement : DurableSourceRangeAcknowledgement → Result (Unit {0})
validate_acknowledgement a = check (
    field (has_length 1 512 a.source_revision_key) "source_revision_key"
    ∷ field (has_length 1 256 a.file_identity_key) "file_identity_key"
    ∷ field (is_sha256 a.payload_sha256) "payload_sha256"
    ∷ field (leb 1 a.byte_end_exclusive) "byte_end_exclusive"
    ∷ field (is_key a.checkpoint_key) "checkpoint_key"
    ∷ field (leb 1 a.checkpoint_sequence) "checkpoint_sequence"
    ∷ [])

pub record RawSourceCursorState : Type 0 where
  pub capability_id : String
  pub revision : ℕ
  pub file_identity : Option FileIdentity
  pub acknowledged_byte_offset : ℕ
  pub checkpoint_sequence : ℕ
  pub last_acknowledgement : Option DurableSourceRangeAcknowledgement

abbrev pub has_key : Option FileIdentity → String → Bool
has_key none key = false
has_key (some f) key = key == stable_key f

-- The checks on a cursor's last acknowledgement.
acknowledged : RawSourceCursorState → Option DurableSourceRangeAcknowledgement → Result (Unit {0})
unfolding validate_acknowledgement
acknowledged s none = check []
acknowledged s (some a) = do
  validate_acknowledgement a
  check (
      require (a.byte_end_exclusive == s.acknowledged_byte_offset)
        "raw-source cursor must bind its last durable receipt"
      ∷ require (a.checkpoint_sequence == s.checkpoint_sequence)
          "raw-source cursor checkpoint must bind its receipt"
      ∷ require (has_key s.file_identity a.file_identity_key)
          "raw-source cursor file identity must bind its receipt"
      ∷ [])

unfoldable pub validate_cursor : RawSourceCursorState → Result (Unit {0})
unfolding acknowledged
validate_cursor s = do
  check (
      field (is_key s.capability_id) "capability_id"
      ∷ field (optional is_file_identity s.file_identity) "file_identity"
      ∷ require
          (is_some s.file_identity
            || (s.checkpoint_sequence == 0 && is_none s.last_acknowledgement))
          "raw-source cursor progress requires file identity"
      ∷ [])
  acknowledged s s.last_acknowledgement

-- RawSourceCursorState.initial
unfoldable pub initial : String → ℕ → RawSourceCursorState
initial capability_id byte_offset = record {
  capability_id = capability_id;
  revision = 0;
  file_identity = none;
  acknowledged_byte_offset = byte_offset;
  checkpoint_sequence = 0;
  last_acknowledgement = none;
}

pub record RawSourceCaptureResult : Type 0 where
  pub status : RawSourceCaptureStatus
  pub acknowledged_byte_offset : ℕ
  pub checkpoint_sequence : ℕ
  pub observed_size : ℕ
  pub diagnostic_code : Option String
  pub receipt : Option CaptureSourceRangeReceipt

abbrev pub is_captured : RawSourceCaptureStatus → Bool
is_captured captured = true
is_captured _ = false

-- The checks on a result's receipt.
result_receipt : RawSourceCaptureResult → Option CaptureSourceRangeReceipt → Result (Unit {0})
unfolding validate_receipt
result_receipt r none =
    check
      (require (not (is_captured r.status)) "captured raw-source result requires its receipt" ∷ [])
result_receipt r (some receipt) = do
  validate_receipt receipt
  check (
      require
        (not (is_captured r.status)
          || (receipt.byte_end_exclusive == r.acknowledged_byte_offset
              && receipt.checkpoint_sequence == r.checkpoint_sequence))
        "captured raw-source result must bind its receipt"
      ∷ require (is_captured r.status) "non-captured raw-source result cannot claim a receipt"
      ∷ [])

unfoldable pub validate_result : RawSourceCaptureResult → Result (Unit {0})
unfolding result_receipt
validate_result r = do
  check (field (optional is_key r.diagnostic_code) "diagnostic_code" ∷ [])
  result_receipt r r.receipt
