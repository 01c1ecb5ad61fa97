-- ===== src/Capture/Fold/Adapter.antt =====
-- The qualified adapter of transcript_fold.py and what the loop asks of it. An adapter's callables
-- are functions of their arguments: `T` is what its assembler finalizes, `E` an envelope.
use memoriesql.Prelude.{
  ℕ, ◌-◌, String, Bool, true, false, ◌&&◌, Option, none, some, List, [], ◌∷◌, leb, ltb, nat_eq,
  string_eq, option_eq, ◌==◌, Error, Result, check, require, field,
}
use memoriesql.Contracts.Text.{has_length, is_sha256}
use memoriesql.Capture.Host.{Datetime, FileIdentity, is_file_identity}
use memoriesql.Capture.Fold.Frame.{FramedSourceRecord}
use memoriesql.Capture.Fold.Source.{DurableTranscriptRead}
use memoriesql.Capture.Fold.Outcome.{ScopeExclusionReason}
use memoriesql.Capture.Fold.Cursor.{max_pending_ranges, max_assembly_records}

abbrev pub fold_max_read_bytes : ℕ
fold_max_read_bytes = 8388608

-- HOST_CAPTURE_MAX_STREAMING_ASSEMBLY_BYTES of source_adapter.py
abbrev pub max_assembly_bytes : ℕ
max_assembly_bytes = 8388608

-- VerifiedAssemblySpan of source_adapter.py
pub record VerifiedAssemblySpan : Type 0 where
  pub file_identity : FileIdentity
  pub start_offset : ℕ
  pub end_offset : ℕ
  pub start_record_index : ℕ
  pub end_record_index : ℕ
  pub byte_count : ℕ
  pub record_count : ℕ
  pub range_count : ℕ
  pub source_bytes_sha256 : String

unfoldable pub validate_assembly_span : VerifiedAssemblySpan → Result (Unit {0})
validate_assembly_span s = check (
    field (is_file_identity s.file_identity) "file_identity"
    ∷ field (leb 1 s.end_offset) "end_offset"
    ∷ field (leb 1 s.end_record_index) "end_record_index"
    ∷ field (leb 1 s.byte_count && leb s.byte_count max_assembly_bytes) "byte_count"
    ∷ field (leb 1 s.record_count && leb s.record_count max_assembly_records) "record_count"
    ∷ field (leb 1 s.range_count && leb s.range_count max_pending_ranges) "range_count"
    ∷ field (is_sha256 s.source_bytes_sha256) "source_bytes_sha256"
    ∷ require (ltb s.start_offset s.end_offset) "verified assembly span bytes must be non-empty"
    ∷ require (ltb s.start_record_index s.end_record_index)
        "verified assembly span records must be non-empty"
    ∷ require (s.byte_count == s.end_offset - s.start_offset)
        "verified assembly byte count must match its span"
    ∷ require (s.record_count == s.end_record_index - s.start_record_index)
        "verified assembly record count must match its span"
    ∷ [])

-- SourceAssemblyStep of source_adapter.py, or what `advance` raises: a SourceRecordParseError by its
-- diagnostic code, or another error.
pub data Advance (T : Type 0) : Type 0 where
  stepped : List ℕ → Option T → Advance T
  unparsed : String → Advance T
  failed : Error → Advance T

pub record QualifiedTranscriptFoldAdapter (T E : Type 0) : Type 0 where
  pub profile_version : String
  pub connector_id : String
  pub source_format_version : String
  -- assembler.advance(record, state=state)
  pub advance : FramedSourceRecord → List ℕ → Advance T
  -- `_build_exact_envelope(envelope_builder, finalized, source_span=…, recorded_at=…)`
  pub build_exact_envelope : T → VerifiedAssemblySpan → Datetime → Result E
  pub max_record_bytes : ℕ
  pub max_span_bytes : ℕ
  pub max_turn_records : ℕ
  -- code in topology_fallback_codes
  pub is_topology_fallback : String → Bool
  -- `finalized_scope_exclusion(finalized)`, or None where the adapter has no such callable
  pub scope_exclusion : T → Option ScopeExclusionReason

module _ {T E : Type 0} where
  -- `__post_init__`
  unfoldable pub validate_adapter : QualifiedTranscriptFoldAdapter T E → Result (Unit {0})
  validate_adapter a = check (
      require (has_length 1 128 a.profile_version) "fold adapter profile version is invalid"
      ∷ require (leb 1 a.max_record_bytes && leb a.max_record_bytes 262144)
          "fold adapter record bound is invalid"
      ∷ require (leb 1 a.max_span_bytes && leb a.max_span_bytes fold_max_read_bytes)
          "fold adapter span bound is invalid"
      ∷ require (leb 1 a.max_turn_records && leb a.max_turn_records max_assembly_records)
          "fold adapter record-count bound is invalid"
      ∷ [])

  -- The adapter is for the read's connector and format, and the format is the loop's.
  unfoldable pub qualifies :
      Option String → DurableTranscriptRead → QualifiedTranscriptFoldAdapter T E → Bool
  qualifies observed_source_format_version read a =
      read.connector_id == some a.connector_id
      && (read.observed_source_format_version == some a.source_format_version
          && observed_source_format_version == some a.source_format_version)

  abbrev pub kept_if :
      Bool → QualifiedTranscriptFoldAdapter T E → Option (QualifiedTranscriptFoldAdapter T E)
  kept_if true a = some a
  kept_if false a = none

  -- `_qualified_adapter`
  unfoldable pub qualified_adapter :
      Option (QualifiedTranscriptFoldAdapter T E)
      → Option String
      → DurableTranscriptRead
      → Option (QualifiedTranscriptFoldAdapter T E)
  unfolding qualifies
  qualified_adapter none observed_source_format_version read = none
  qualified_adapter (some a) observed_source_format_version read =
      kept_if (qualifies observed_source_format_version read a) a
