-- ===== src/Capture/Range/Command.antt =====
-- The chunks, the checkpoint and the command of source_range.py, with their validators. A field
-- `payload_hex` is the list of the character codes of the text.
use memoriesql.Prelude.{
  ℕ, ◌+◌, ◌-◌, ◌*◌, String, not, ◌&&◌, Option, List, [], ◌∷◌, ◌++◌, length, leb, ltb, nat_eq,
  string_eq, ◌==◌, value_error, Result, ok, err, check, require, field, ◌>>=◌, ◌>>◌, if◌then◌else◌,
}
use memoriesql.Contracts.Text.{has_length, is_sha256, is_key, optional, colons, decimal}
use memoriesql.Contracts.Hex.{from_hex, is_hex_text}
use memoriesql.Contracts.Runtime.{Runtime, Json}
use memoriesql.Capture.Host.{
  Uuid, FileIdentity, is_file_identity, stable_key, host_helper_max_read_bytes,
}

abbrev pub chunk_max_bytes : ℕ
chunk_max_bytes = 65536

abbrev pub transaction_max_bytes : ℕ
transaction_max_bytes = host_helper_max_read_bytes

abbrev pub transaction_max_chunks : ℕ
transaction_max_chunks = 256

abbrev pub command_max_bytes : ℕ
command_max_bytes = 786432

-- CaptureSurface and KernelCaptureBinding of contracts.py
pub data CaptureSurface : Type 0 where
  artifact live_hook harness browser import explicit_checkpoint synthetic : CaptureSurface

pub record KernelCaptureBinding : Type 0 where
  pub tenant_id : Uuid
  pub workspace_id : Uuid
  pub access_scope_id : Uuid
  pub source_object_id : Uuid
  pub expected_source_object_schema_version : ℕ

pub record SourceRangePolicyReferences : Type 0 where
  pub capture_policy_id : String
  pub retention_policy_ref : String

pub record CapturedSourceRangeChunk : Type 0 where
  pub chunk_ordinal : ℕ
  pub byte_start : ℕ
  pub byte_end_exclusive : ℕ
  pub payload_byte_count : ℕ
  pub payload_sha256 : String
  pub payload_hex : List ℕ

unfoldable pub payload : CapturedSourceRangeChunk → List ℕ
payload c = from_hex c.payload_hex

pub record SourceByteCheckpoint : Type 0 where
  pub checkpoint_key : String
  pub expected_sequence : ℕ
  pub next_sequence : ℕ
  pub expected_byte_offset : ℕ
  pub next_byte_offset : ℕ
  pub file_identity_key : String
  pub checkpoint_hash : String

pub record CaptureSourceRangeCommand : Type 0 where
  pub idempotency_key : String
  pub binding : KernelCaptureBinding
  pub capability_id : String
  pub connector_id : String
  pub observed_connector_version : Option String
  pub capture_surface : CaptureSurface
  pub source_revision_key : String
  pub file_identity : FileIdentity
  pub file_identity_key : String
  pub observed_source_format_version : Option String
  pub byte_start : ℕ
  pub byte_end_exclusive : ℕ
  pub payload_byte_count : ℕ
  pub payload_sha256 : String
  pub chunks : List CapturedSourceRangeChunk
  pub policies : SourceRangePolicyReferences
  pub checkpoint : SourceByteCheckpoint

-- Every element passes, in order.
unfoldable pub check_each {ℓ} : {A : Type ℓ} → (A → Result (Unit {0})) → List A → Result (Unit {0})
check_each f [] = ok tt
check_each f (x ∷ xs) = let rest = check_each f xs in f x >> rest

unfoldable pub byte_sum : List CapturedSourceRangeChunk → ℕ
byte_sum [] = 0
byte_sum (c ∷ chunks) = c.payload_byte_count + byte_sum chunks

unfoldable pub payloads : List CapturedSourceRangeChunk → List ℕ
payloads [] = []
payloads (c ∷ chunks) = payload c ++ payloads chunks

unfoldable pub validate_checkpoint : SourceByteCheckpoint → Result (Unit {0})
validate_checkpoint c = check (
    field (is_key c.checkpoint_key) "checkpoint_key"
    ∷ field (leb 1 c.next_sequence) "next_sequence"
    ∷ field (leb 1 c.next_byte_offset) "next_byte_offset"
    ∷ field (has_length 1 256 c.file_identity_key) "file_identity_key"
    ∷ field (is_sha256 c.checkpoint_hash) "checkpoint_hash"
    ∷ require (c.next_sequence == c.expected_sequence + 1)
        "source-byte checkpoint must advance exactly once"
    ∷ require (ltb c.expected_byte_offset c.next_byte_offset)
        "source-byte checkpoint must advance bytes"
    ∷ [])

-- The loop of `validate_range` over the chunks: `expected_start` after the last of them.
unfoldable pub follow_chunks : ℕ → ℕ → List CapturedSourceRangeChunk → Result ℕ
follow_chunks expected_ordinal expected_start [] = ok expected_start
follow_chunks expected_ordinal expected_start (chunk ∷ chunks) =
    let rest = follow_chunks (expected_ordinal + 1) chunk.byte_end_exclusive chunks in
    if not (chunk.chunk_ordinal == expected_ordinal)
    then err (value_error "source-range chunks must use contiguous ordinals")
    else if not (chunk.byte_start == expected_start)
    then err (value_error "source-range chunks must be byte contiguous")
    else rest

-- The text under `checkpoint_hash`.
abbrev pub checkpoint_text : String → ℕ → ℕ → ℕ → ℕ → String → String → String
checkpoint_text key expected next start end_exclusive file_key payload_hash = colons (
    key
    ∷ decimal expected
    ∷ decimal next
    ∷ decimal start
    ∷ decimal end_exclusive
    ∷ file_key
    ∷ payload_hash
    ∷ [])

module _ (py : Runtime) where
  open py use {sha256, encode, canonical_json_bytes}

  unfoldable pub validate_chunk : CapturedSourceRangeChunk → Result (Unit {0})
  validate_chunk c = check (
      field (leb c.chunk_ordinal (transaction_max_chunks - 1)) "chunk_ordinal"
      ∷ field (leb 1 c.byte_end_exclusive) "byte_end_exclusive"
      ∷ field (leb 1 c.payload_byte_count && leb c.payload_byte_count chunk_max_bytes)
          "payload_byte_count"
      ∷ field (is_sha256 c.payload_sha256) "payload_sha256"
      ∷ field (leb 2 (length c.payload_hex) && leb (length c.payload_hex) (chunk_max_bytes * 2))
          "payload_hex"
      ∷ field (is_hex_text c.payload_hex) "payload_hex"
      ∷ require (ltb c.byte_start c.byte_end_exclusive)
          "source-range chunk must have a non-empty byte range"
      ∷ require (c.byte_end_exclusive - c.byte_start == c.payload_byte_count)
          "source-range chunk byte count must match its range"
      ∷ require (length (payload c) == c.payload_byte_count)
          "source-range chunk byte count must match its payload"
      ∷ require (sha256 (payload c) == c.payload_sha256)
          "source-range chunk hash must match its exact payload"
      ∷ [])

  unfoldable pub checkpoint_sha256 : String → ℕ → ℕ → ℕ → ℕ → String → String → String
  checkpoint_sha256 key expected next start end_exclusive file_key payload_hash =
      sha256 (encode (checkpoint_text key expected next start end_exclusive file_key payload_hash))

  unfoldable pub command_fields : CaptureSourceRangeCommand → Result (Unit {0})
  command_fields c = check (
      field (has_length 1 512 c.idempotency_key) "idempotency_key"
      ∷ field (leb 1 c.binding.expected_source_object_schema_version)
          "expected_source_object_schema_version"
      ∷ field (is_key c.capability_id) "capability_id"
      ∷ field (is_key c.connector_id) "connector_id"
      ∷ field (optional (has_length 1 128) c.observed_connector_version)
          "observed_connector_version"
      ∷ field (has_length 1 512 c.source_revision_key) "source_revision_key"
      ∷ field (is_file_identity c.file_identity) "file_identity"
      ∷ field (has_length 1 256 c.file_identity_key) "file_identity_key"
      ∷ field (optional (has_length 1 128) c.observed_source_format_version)
          "observed_source_format_version"
      ∷ field (leb 1 c.byte_end_exclusive) "byte_end_exclusive"
      ∷ field (leb 1 c.payload_byte_count && leb c.payload_byte_count transaction_max_bytes)
          "payload_byte_count"
      ∷ field (is_sha256 c.payload_sha256) "payload_sha256"
      ∷ field (leb 1 (length c.chunks) && leb (length c.chunks) transaction_max_chunks) "chunks"
      ∷ field (is_key c.policies.capture_policy_id) "capture_policy_id"
      ∷ field (has_length 1 256 c.policies.retention_policy_ref) "retention_policy_ref"
      ∷ [])

  -- The checks of `validate_range` before its loop.
  unfoldable pub range_bounds : CaptureSourceRangeCommand → Result (Unit {0})
  unfolding checkpoint_sha256
  range_bounds c = check (
      require (c.file_identity_key == stable_key c.file_identity)
        "source-range file identity key must be mechanical"
      ∷ require (ltb c.byte_start c.byte_end_exclusive) "source range must be non-empty"
      ∷ require (c.byte_end_exclusive - c.byte_start == c.payload_byte_count)
          "source-range byte count must match its range"
      ∷ require (c.checkpoint.expected_byte_offset == c.byte_start)
          "source-range checkpoint must begin at the range start"
      ∷ require (c.checkpoint.next_byte_offset == c.byte_end_exclusive)
          "source-range checkpoint must end at the range end"
      ∷ require (c.checkpoint.file_identity_key == c.file_identity_key)
          "source-range checkpoint must bind file identity"
      ∷ require
          (c.checkpoint.checkpoint_hash
            == checkpoint_sha256 c.checkpoint.checkpoint_key c.checkpoint.expected_sequence
                c.checkpoint.next_sequence c.byte_start c.byte_end_exclusive c.file_identity_key
                c.payload_sha256)
          "source-range checkpoint hash must bind its range"
      ∷ [])

  -- `model_dump(mode="json")`, which the contract framework derives from the fields.
  module _ (model_dump : CaptureSourceRangeCommand → Json) where
    unfoldable pub canonical_bytes : CaptureSourceRangeCommand → List ℕ
    canonical_bytes c = canonical_json_bytes (model_dump c)

    -- The checks after the loop, which ends at `expected_start`.
    unfoldable pub range_cover : CaptureSourceRangeCommand → ℕ → Result (Unit {0})
    unfolding canonical_bytes
    range_cover c expected_start = check (
        require (expected_start == c.byte_end_exclusive)
          "source-range chunks must cover the declared range"
        ∷ require (byte_sum c.chunks == c.payload_byte_count)
            "source-range chunks must cover the declared byte count"
        ∷ require (sha256 (payloads c.chunks) == c.payload_sha256)
            "source-range hash must match its exact chunk payloads"
        ∷ require (leb (length (canonical_bytes c)) command_max_bytes)
            "source-range command exceeds its canonical byte bound"
        ∷ [])

    -- Nested models are validated again with the model that holds them.
    unfoldable pub validate_command : CaptureSourceRangeCommand → Result (Unit {0})
    unfolding command_fields range_bounds range_cover
    validate_command c = do
      check_each validate_chunk c.chunks
      validate_checkpoint c.checkpoint
      command_fields c
      range_bounds c
      expected_start ← follow_chunks 0 c.byte_start c.chunks
      range_cover c expected_start
