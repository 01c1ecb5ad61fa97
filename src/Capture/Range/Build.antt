-- ===== src/Capture/Range/Build.antt =====
-- `build_capture_source_range_command` of source_range.py: one read cut into chunks.
use Prim.Native.String.{◌++◌}
use memoriesql.Prelude.{
  ℕ, zero, suc, ◌+◌, String, ◌&&◌, Option, List, [], ◌∷◌, length, take, drop, is_empty, leb, Result,
  ok, check, require, ◌>>◌, if◌then◌else◌,
}
use memoriesql.Contracts.Hex.{hex}
use memoriesql.Contracts.Runtime.{Runtime, Json, number, text, object, end, entry, canonical_sha256}
use memoriesql.Capture.Host.{FileIdentity, stable_key}
use memoriesql.Capture.Range.Command.{
  CaptureSurface, KernelCaptureBinding, SourceRangePolicyReferences, CapturedSourceRangeChunk,
  SourceByteCheckpoint, CaptureSourceRangeCommand, transaction_max_bytes, chunk_max_bytes,
  check_each, checkpoint_sha256, validate_chunk, validate_checkpoint, validate_command,
}

-- The keyword arguments beside the payload and the chunk size.
pub record RangeArguments : Type 0 where
  pub binding : KernelCaptureBinding
  pub capability_id : String
  pub connector_id : String
  pub observed_connector_version : Option String
  pub capture_surface : CaptureSurface
  pub source_revision_key : String
  pub file_identity : FileIdentity
  pub observed_source_format_version : Option String
  pub byte_start : ℕ
  pub checkpoint_key : String
  pub expected_checkpoint_sequence : ℕ
  pub policies : SourceRangePolicyReferences

module _ (py : Runtime) where
  open py use {sha256}

  -- The chunk that holds `chunk`, the bytes at `start`.
  unfoldable pub chunk_of : ℕ → ℕ → List ℕ → CapturedSourceRangeChunk
  chunk_of ordinal start chunk = record {
    chunk_ordinal = ordinal;
    byte_start = start;
    byte_end_exclusive = start + length chunk;
    payload_byte_count = length chunk;
    payload_sha256 = sha256 chunk;
    payload_hex = hex chunk;
  }

  -- The comprehension over `enumerate(range(0, len(payload), chunk_size))`: the rest of the payload
  -- starts at `start`. A payload of n bytes has at most n chunks, so n rounds are enough.
  unfoldable pub split_chunks : ℕ → ℕ → ℕ → ℕ → List ℕ → List CapturedSourceRangeChunk
  unfolding chunk_of
  split_chunks zero chunk_size ordinal start payload = []
  split_chunks (suc rounds) chunk_size ordinal start payload =
      let chunk = take chunk_size payload in
      let rest =
        chunk_of ordinal start chunk
        ∷ split_chunks rounds chunk_size (ordinal + 1) (start + chunk_size)
            (drop chunk_size payload) in
      if is_empty payload then [] else rest

  operation_sha256 : RangeArguments → List ℕ → String
  operation_sha256 a payload = canonical_sha256 py (
      object (
        entry "source_object_id" (text (py.uuid_text a.binding.source_object_id)) (
          entry "source_revision_key" (text a.source_revision_key) (
            entry "file_identity_key" (text (stable_key a.file_identity)) (
              entry "byte_start" (number a.byte_start) (
                entry "byte_end_exclusive" (number (a.byte_start + length payload))
                  (entry "payload_sha256" (text (sha256 payload)) end)))))))

  unfoldable pub checkpoint_of : RangeArguments → List ℕ → SourceByteCheckpoint
  checkpoint_of a payload =
      let next_sequence = a.expected_checkpoint_sequence + 1 in
      let byte_end = a.byte_start + length payload in
      record {
        checkpoint_key = a.checkpoint_key;
        expected_sequence = a.expected_checkpoint_sequence;
        next_sequence = next_sequence;
        expected_byte_offset = a.byte_start;
        next_byte_offset = byte_end;
        file_identity_key = stable_key a.file_identity;
        checkpoint_hash =
            checkpoint_sha256 py a.checkpoint_key a.expected_checkpoint_sequence next_sequence
              a.byte_start byte_end (stable_key a.file_identity) (sha256 payload);
      }

  -- The command as it is handed to its validator.
  unfoldable pub assemble : RangeArguments → ℕ → List ℕ → CaptureSourceRangeCommand
  unfolding split_chunks checkpoint_of operation_sha256
  assemble a chunk_size payload = record {
    idempotency_key = "source-range:" ++ operation_sha256 a payload;
    binding = a.binding;
    capability_id = a.capability_id;
    connector_id = a.connector_id;
    observed_connector_version = a.observed_connector_version;
    capture_surface = a.capture_surface;
    source_revision_key = a.source_revision_key;
    file_identity = a.file_identity;
    file_identity_key = stable_key a.file_identity;
    observed_source_format_version = a.observed_source_format_version;
    byte_start = a.byte_start;
    byte_end_exclusive = a.byte_start + length payload;
    payload_byte_count = length payload;
    payload_sha256 = sha256 payload;
    chunks = split_chunks (length payload) chunk_size 0 a.byte_start payload;
    policies = a.policies;
    checkpoint = checkpoint_of a payload;
  }

  module _ (model_dump : CaptureSourceRangeCommand → Json) where
    unfoldable pub build_capture_source_range_command :
        RangeArguments → ℕ → List ℕ → Result CaptureSourceRangeCommand
    unfolding assemble
    build_capture_source_range_command a chunk_size payload = do
      check (
          require (leb 1 (length payload) && leb (length payload) transaction_max_bytes)
            "source-range payload exceeds its transaction bound"
          ∷ require (leb 1 chunk_size && leb chunk_size chunk_max_bytes)
              "source-range chunk size exceeds its configured bound"
          ∷ [])
      check_each (validate_chunk py)
          (split_chunks (length payload) chunk_size 0 a.byte_start payload)
      validate_checkpoint (checkpoint_of a payload)
      validate_command py model_dump (assemble a chunk_size payload)
      ok (assemble a chunk_size payload)
