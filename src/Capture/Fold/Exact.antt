-- ===== src/Capture/Fold/Exact.antt =====
-- `_slice_lineage` and `_read_exact` of transcript_fold.py: a read is cut to the asked range.
use memoriesql.Prelude.{
  ℕ, zero, suc, ◌-◌, min, max, String, not, ◌&&◌, Option, none, some, List, [], ◌∷◌, ◌++◌, take,
  drop, leb, ltb, nat_eq, string_eq, ◌==◌, Result, ok, check, checked, require, if◌then◌else◌,
}
use memoriesql.Contracts.Hex.{hex}
use memoriesql.Contracts.Runtime.{Runtime}
use memoriesql.Contracts.Exec.{Exec, lift, ◌>>=◌, ◌>>◌}
use memoriesql.Capture.Host.{Uuid}
use memoriesql.Capture.Fold.Source.{
  data_status, is_data_status, TranscriptFoldSourceRange, DurableTranscriptReadRequest,
  validate_read_request, DurableTranscriptRead, read_payload, validate_durable_read,
}

-- What the fold loop is bound to: `_binding.source_object_id`, `_source_revision_key` and
-- `_file_identity_key`.
pub record FoldSource : Type 0 where
  pub source_object_id : Uuid
  pub source_revision_key : String
  pub file_identity_key : String

-- `max_bytes or length`
unfoldable pub or_length : Option ℕ → ℕ → ℕ
or_length none length' = length'
or_length (some zero) length' = length'
or_length (some (suc n)) length' = suc n

unfoldable pub read_request_of : FoldSource → ℕ → ℕ → Option ℕ → DurableTranscriptReadRequest
unfolding or_length
read_request_of self byte_start byte_end max_bytes = record {
  source_object_id = self.source_object_id;
  source_revision_key = self.source_revision_key;
  file_identity_key = self.file_identity_key;
  byte_start = byte_start;
  max_bytes = or_length max_bytes (byte_end - byte_start);
}

module _ (py : Runtime) where
  open py use {sha256}

  -- The part of a range between two offsets. Its bytes are found in the payload from
  -- `payload_byte_start`, where the ranges of a read start, so that the difference is not negative.
  unfoldable pub cut_range :
      List ℕ → ℕ → TranscriptFoldSourceRange → ℕ → ℕ → TranscriptFoldSourceRange
  cut_range payload payload_byte_start source_range start stop = record {
    source_range_receipt_id = source_range.source_range_receipt_id;
    receipt_byte_start = source_range.receipt_byte_start;
    receipt_byte_end_exclusive = source_range.receipt_byte_end_exclusive;
    receipt_payload_sha256 = source_range.receipt_payload_sha256;
    byte_start = start;
    byte_end_exclusive = stop;
    source_bytes_sha256 = sha256 (
        take ((stop - payload_byte_start) - (start - payload_byte_start))
          (drop (start - payload_byte_start) payload));
  }

  -- One round of the loop, with `start` and `end` computed: no range, the range, or its part.
  unfoldable pub kept_range :
      List ℕ → ℕ → TranscriptFoldSourceRange → ℕ → ℕ → List TranscriptFoldSourceRange
  unfolding cut_range
  kept_range payload payload_byte_start source_range start stop =
      if leb stop start
      then []
      else if start == source_range.byte_start && stop == source_range.byte_end_exclusive
      then source_range ∷ []
      else cut_range payload payload_byte_start source_range start stop ∷ []

  unfoldable pub slice_lineage :
      List TranscriptFoldSourceRange → List ℕ → ℕ → ℕ → ℕ → List TranscriptFoldSourceRange
  unfolding kept_range
  slice_lineage [] payload payload_byte_start byte_start byte_end = []
  slice_lineage (source_range ∷ ranges) payload payload_byte_start byte_start byte_end =
      kept_range payload payload_byte_start source_range (max byte_start source_range.byte_start)
        (min byte_end source_range.byte_end_exclusive)
      ++ slice_lineage ranges payload payload_byte_start byte_start byte_end

  -- The read of exactly the asked bytes, as it is handed to its validator.
  unfoldable pub trimmed : DurableTranscriptRead → ℕ → ℕ → DurableTranscriptRead
  unfolding slice_lineage read_payload
  trimmed read byte_start byte_end =
      let payload = take (byte_end - byte_start) (read_payload read) in
      record {
        status = data_status;
        source_object_id = read.source_object_id;
        source_revision_key = read.source_revision_key;
        file_identity = read.file_identity;
        file_identity_key = read.file_identity_key;
        connector_id = read.connector_id;
        observed_connector_version = read.observed_connector_version;
        observed_source_format_version = read.observed_source_format_version;
        byte_start = byte_start;
        byte_end_exclusive = byte_end;
        durable_end_offset = read.durable_end_offset;
        payload_hex = hex payload;
        payload_sha256 = sha256 payload;
        ranges = slice_lineage read.ranges (read_payload read) read.byte_start byte_start byte_end;
        first_captured_at = read.first_captured_at;
      }

  -- A read that reaches further than asked is cut.
  unfoldable pub exactly : DurableTranscriptRead → ℕ → ℕ → Result DurableTranscriptRead
  unfolding trimmed
  exactly read byte_start byte_end =
      let cut =
        checked (validate_durable_read py (trimmed read byte_start byte_end))
          (trimmed read byte_start byte_end) in
      if not (read.byte_end_exclusive == byte_end) then cut else ok read

  -- `self._source.read` is a parameter.
  module _ {W : Type 0}
      (port_read : DurableTranscriptReadRequest → Exec W DurableTranscriptRead) where
    unfoldable pub read_exact : FoldSource → ℕ → ℕ → Option ℕ → Exec W DurableTranscriptRead
    unfolding read_request_of exactly
    read_exact self byte_start byte_end max_bytes = do
      lift (
          check
            (require (ltb byte_start byte_end) "exact durable fold read must be non-empty" ∷ []))
      let request = read_request_of self byte_start byte_end max_bytes
      lift (validate_read_request request)
      read ← port_read request
      lift (
          check (
            require
              (is_data_status read.status
                && (read.byte_start == byte_start && leb byte_end read.byte_end_exclusive))
              "durable source ranges do not cover the fold result"
            ∷ []))
      lift (exactly read byte_start byte_end)
