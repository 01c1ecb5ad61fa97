-- ===== src/Capture/Fold/Source.antt =====
-- Reads of retained bytes, as transcript_fold.py takes them: the lineage of a read, its validators,
-- and the cut of a read to an exact range.
use memoriesql.Prelude.{
  ℕ, ◌-◌, String, Bool, true, false, not, ◌&&◌, Option, none, some, List, [], ◌∷◌, length, is_empty,
  is_some, leb, ltb, nat_eq, string_eq, ◌==◌, value_error, Result, ok, err, check, require, field,
  ◌>>=◌, ◌>>◌, if◌then◌else◌,
}
use memoriesql.Contracts.Text.{has_length, is_sha256, is_key, optional}
use memoriesql.Contracts.Hex.{from_hex, is_hex_text}
use memoriesql.Contracts.Runtime.{Runtime}
use memoriesql.Capture.Host.{Uuid, Datetime, FileIdentity, is_file_identity}
use memoriesql.Capture.Range.Command.{check_each}

abbrev pub fold_max_migration_bytes : ℕ
fold_max_migration_bytes = 67108864

abbrev pub fold_max_lineage_ranges : ℕ
fold_max_lineage_ranges = 1024

pub data DurableTranscriptReadStatus : Type 0 where
  data_status end_of_durable_ranges : DurableTranscriptReadStatus

abbrev pub is_data_status : DurableTranscriptReadStatus → Bool
is_data_status data_status = true
is_data_status end_of_durable_ranges = false

pub record TranscriptFoldSourceRange : Type 0 where
  pub source_range_receipt_id : Uuid
  pub receipt_byte_start : ℕ
  pub receipt_byte_end_exclusive : ℕ
  pub receipt_payload_sha256 : String
  pub byte_start : ℕ
  pub byte_end_exclusive : ℕ
  pub source_bytes_sha256 : String

unfoldable pub validate_slice : TranscriptFoldSourceRange → Result (Unit {0})
validate_slice r = check (
    field (leb 1 r.receipt_byte_end_exclusive) "receipt_byte_end_exclusive"
    ∷ field (is_sha256 r.receipt_payload_sha256) "receipt_payload_sha256"
    ∷ field (leb 1 r.byte_end_exclusive) "byte_end_exclusive"
    ∷ field (is_sha256 r.source_bytes_sha256) "source_bytes_sha256"
    ∷ require (ltb r.receipt_byte_start r.receipt_byte_end_exclusive)
        "source-range receipt bounds must be non-empty"
    ∷ require
        (leb r.receipt_byte_start r.byte_start
          && (ltb r.byte_start r.byte_end_exclusive
              && leb r.byte_end_exclusive r.receipt_byte_end_exclusive))
        "fold lineage must remain inside its retained receipt"
    ∷ [])

-- The loop over a lineage: the offset that it ends at, or the error of a range that does not start
-- where the one before it ended.
unfoldable pub follow_ranges : String → ℕ → List TranscriptFoldSourceRange → Result ℕ
follow_ranges gap expected_offset [] = ok expected_offset
follow_ranges gap expected_offset (source_range ∷ ranges) =
    let rest = follow_ranges gap source_range.byte_end_exclusive ranges in
    if source_range.byte_start == expected_offset then rest else err (value_error gap)

pub record DurableTranscriptReadRequest : Type 0 where
  pub source_object_id : Uuid
  pub source_revision_key : String
  pub file_identity_key : String
  pub byte_start : ℕ
  pub max_bytes : ℕ

unfoldable pub validate_read_request : DurableTranscriptReadRequest → Result (Unit {0})
validate_read_request r = check (
    field (has_length 1 512 r.source_revision_key) "source_revision_key"
    ∷ field (has_length 1 256 r.file_identity_key) "file_identity_key"
    ∷ field (leb 1 r.max_bytes && leb r.max_bytes fold_max_migration_bytes) "max_bytes"
    ∷ [])

pub record DurableTranscriptRead : Type 0 where
  pub status : DurableTranscriptReadStatus
  pub source_object_id : Uuid
  pub source_revision_key : String
  pub file_identity : Option FileIdentity
  pub file_identity_key : String
  pub connector_id : Option String
  pub observed_connector_version : Option String
  pub observed_source_format_version : Option String
  pub byte_start : ℕ
  pub byte_end_exclusive : ℕ
  pub durable_end_offset : ℕ
  pub payload_hex : List ℕ
  pub payload_sha256 : String
  pub ranges : List TranscriptFoldSourceRange
  pub first_captured_at : Option Datetime

-- DurableTranscriptRead.payload
unfoldable pub read_payload : DurableTranscriptRead → List ℕ
read_payload read = from_hex read.payload_hex

abbrev pub is_aware : Option Datetime → Bool
is_aware none = false
is_aware (some t) = t.has_tzinfo

unfoldable pub read_fields : DurableTranscriptRead → Result (Unit {0})
read_fields r = check (
    field (has_length 1 512 r.source_revision_key) "source_revision_key"
    ∷ field (optional is_file_identity r.file_identity) "file_identity"
    ∷ field (has_length 1 256 r.file_identity_key) "file_identity_key"
    ∷ field (optional is_key r.connector_id) "connector_id"
    ∷ field (optional (has_length 1 128) r.observed_connector_version) "observed_connector_version"
    ∷ field (optional (has_length 1 128) r.observed_source_format_version)
        "observed_source_format_version"
    ∷ field (is_hex_text r.payload_hex) "payload_hex"
    ∷ field (is_sha256 r.payload_sha256) "payload_sha256"
    ∷ field (leb (length r.ranges) fold_max_lineage_ranges) "ranges"
    ∷ [])

-- The checks on a read with data.
unfoldable pub data_read_checks : DurableTranscriptRead → Result (Unit {0})
unfolding read_payload follow_ranges
data_read_checks r = do
  check (
      require
        (not (is_empty (read_payload r)) && (is_some r.file_identity && not (is_empty r.ranges)))
        "durable fold data requires bytes and lineage"
      ∷ require (is_aware r.first_captured_at)
          "durable fold data requires a timezone-aware receipt time"
      ∷ [])
  expected_offset ←
      follow_ranges "durable fold lineage must be byte contiguous" r.byte_start r.ranges
  check (
      require (expected_offset == r.byte_end_exclusive)
        "durable fold lineage must cover all returned bytes"
      ∷ [])

unfoldable pub end_read_checks : DurableTranscriptRead → Result (Unit {0})
unfolding read_payload
end_read_checks r = check (
    require
      (is_empty (read_payload r) && (is_empty r.ranges && r.byte_end_exclusive == r.byte_start))
      "end-of-range reads cannot claim source bytes"
    ∷ [])

abbrev pub status_checks : DurableTranscriptReadStatus → DurableTranscriptRead → Result (Unit {0})
status_checks data_status r = data_read_checks r
status_checks end_of_durable_ranges r = end_read_checks r

module _ (py : Runtime) where
  open py use {sha256}

  unfoldable pub read_bounds : DurableTranscriptRead → Result (Unit {0})
  unfolding read_payload
  read_bounds r = check (
      require (leb r.byte_start r.byte_end_exclusive) "durable fold read byte range is invalid"
      ∷ require (leb r.byte_end_exclusive r.durable_end_offset)
          "durable fold read cannot exceed retained bytes"
      ∷ require (length (read_payload r) == r.byte_end_exclusive - r.byte_start)
          "durable fold read bytes must match its range"
      ∷ require (sha256 (read_payload r) == r.payload_sha256)
          "durable fold read hash must bind its exact bytes"
      ∷ [])

  -- DurableTranscriptRead.validate_read, after its fields and the ranges it holds.
  unfoldable pub validate_durable_read : DurableTranscriptRead → Result (Unit {0})
  unfolding read_fields validate_slice read_bounds data_read_checks end_read_checks
  validate_durable_read r = do
    check_each validate_slice r.ranges
    read_fields r
    read_bounds r
    status_checks r.status r
