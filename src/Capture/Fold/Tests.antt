-- ===== src/Capture/Fold/Tests.antt =====
-- A fold of two retained lines, and the theorems at it.
use memoriesql.Prelude.{
  ◌↔◌, ℕ, ◌+◌, ◌≤◌, ◌≡◌, refl, true, none, some, List, [], ◌∷◌, length, ok, arith, check, String,
}
use memoriesql.Contracts.Exec.{Exec}
use memoriesql.Contracts.Text.{is_key, has_length, is_sha256, decimal, colons}
use memoriesql.Contracts.Hex.{hex, from_hex, is_hex_text}
use memoriesql.Contracts.Runtime.{null, canonical_sha256}
use memoriesql.Contracts.Samples.{sample_runtime}
use memoriesql.Capture.Host.{FileIdentity, is_file_identity, stable_key}
use memoriesql.Capture.Range.Command.{KernelCaptureBinding, check_each}
use memoriesql.Capture.Fold.Frame.{frame_complete_records}
use memoriesql.Capture.Fold.Framed.{Framing, frame_complete_records-Framing}
use memoriesql.Capture.Fold.Source.{
  TranscriptFoldSourceRange, DurableTranscriptRead, DurableTranscriptReadRequest, data_status,
  validate_durable_read, validate_read_request, read_payload, follow_ranges, validate_slice,
}
use memoriesql.Capture.Fold.Exact.{FoldSource, read_exact, read_request_of}
use memoriesql.Capture.Fold.ExactRead.{Exactly, read_exact-Exactly}
use memoriesql.Capture.Fold.Outcome.{
  Envelopes, TranscriptFoldOutcome, validate_outcome, span_outcome,
}
use memoriesql.Capture.Fold.Command.{
  CommitTranscriptFoldCommand, validate_fold_checkpoint, fold_fields, fold_bounds, follow_outcomes,
  any_exact, legacy_binding, fold_command_max_bytes,
}
use memoriesql.Capture.Fold.Commit.{
  FoldArguments, Dumps, fold_command, build_transcript_fold_command, fold_canonical_bytes,
}
use memoriesql.Capture.Fold.Built.{IsValidFold, build_transcript_fold_command-total}
use memoriesql.Capture.Fold.Sound.{BindsFold, build_transcript_fold_command-BindsFold}
use memoriesql.Capture.Fold.Span.{span_outcome-IsValid}
use memoriesql.Capture.Fold.Cursor.{
  TranscriptFoldPendingRange, TranscriptFoldCursorState, HostCaptureState, pending_end_offset,
  pending_end_record_index,
}
use memoriesql.Capture.Fold.State.{validate_fold_cursor, Pending, validate_fold_cursor-Pending}

-- "a\r\nbc\nd"
abbrev lines : List ℕ
lines = 97 ∷ 13 ∷ 10 ∷ 98 ∷ 99 ∷ 10 ∷ 100 ∷ []

frame_complete_records-Framing_example :
    Framing 4 100 7
      (frame_complete_records lines 100 7 4).0
      (frame_complete_records lines 100 7 4).1
      lines
frame_complete_records-Framing_example = frame_complete_records-Framing lines 100 7 4

abbrev even_hash : String
even_hash = "0000000000000000000000000000000000000000000000000000000000000000"

abbrev odd_hash : String
odd_hash = "ffffffffffffffffffffffffffffffffffffffffffffffffffffffffffffffff"

-- The first range holds three bytes, the second four.
abbrev pub first_range : TranscriptFoldSourceRange
first_range = record {
  source_range_receipt_id = 1;
  receipt_byte_start = 98;
  receipt_byte_end_exclusive = 103;
  receipt_payload_sha256 = odd_hash;
  byte_start = 100;
  byte_end_exclusive = 103;
  source_bytes_sha256 = odd_hash;
}

abbrev second_range : TranscriptFoldSourceRange
second_range = record {
  source_range_receipt_id = 2;
  receipt_byte_start = 103;
  receipt_byte_end_exclusive = 107;
  receipt_payload_sha256 = even_hash;
  byte_start = 103;
  byte_end_exclusive = 107;
  source_bytes_sha256 = even_hash;
}

abbrev pub file : FileIdentity
file = record { platform = "linux"; device = 1; inode = 2; birth_time_ns = none }

-- Seven bytes of which six are asked for.
abbrev pub retained : DurableTranscriptRead
retained = record {
  status = data_status;
  source_object_id = 4;
  source_revision_key = "revision";
  file_identity = some file;
  file_identity_key = "linux:1:2:unknown";
  connector_id = none;
  observed_connector_version = none;
  observed_source_format_version = none;
  byte_start = 100;
  byte_end_exclusive = 107;
  durable_end_offset = 110;
  payload_hex = hex lines;
  payload_sha256 = odd_hash;
  ranges = first_range ∷ second_range ∷ [];
  first_captured_at = some (record { instant = 5; has_tzinfo = true });
}

abbrev source : FoldSource
source = record {
  source_object_id = 4;
  source_revision_key = "revision";
  file_identity_key = "linux:1:2:unknown";
}

-- A store that counts its reads.
abbrev pub counting_read : DurableTranscriptReadRequest → Exec ℕ DurableTranscriptRead
counting_read request n = (ok retained, n + 1)

read_exact-Exactly_example :
    (r : DurableTranscriptRead) × (read_exact sample_runtime counting_read source 100 106 none 0
      ≡ (ok r, 1))
    × Exactly sample_runtime retained 100 106 r
unfolding validate_read_request read_request_of has_length validate_durable_read read_payload
    from_hex hex is_sha256 is_hex_text is_key is_file_identity sample_runtime check check_each
read_exact-Exactly_example =
    read_exact-Exactly sample_runtime counting_read source 100 106 none 0 1 retained (omega arith)
      refl refl refl refl refl (omega arith)

abbrev pub binding : KernelCaptureBinding
binding = record {
  tenant_id = 1;
  workspace_id = 2;
  access_scope_id = 3;
  source_object_id = 4;
  expected_source_object_schema_version = 1;
}

-- Envelopes that are never parsed.
abbrev pub no_envelopes : Envelopes ℕ
no_envelopes = record { parse = λ s. ok 0; canonical_text = λ e. ""; canonical_hash = λ e. "" }

abbrev pub dumps : Dumps
dumps = record { outcome = λ o. null; command = λ c. null }

span_outcome-IsValid_example :
    validate_outcome no_envelopes
      (span_outcome binding "revision" "linux:1:2:unknown" 100 107 7 10 retained)
    ≡ ok tt
unfolding has_length validate_durable_read from_hex hex is_sha256 is_hex_text is_key
    is_file_identity sample_runtime check check_each
span_outcome-IsValid_example =
    span_outcome-IsValid sample_runtime no_envelopes retained 100 107 7 10 refl refl refl refl
      (omega arith) binding "revision" "linux:1:2:unknown" refl refl (omega arith)

abbrev arguments : FoldArguments
arguments = record {
  binding = binding;
  capability_id = "capability";
  connector_id = "connector";
  adapter_profile_version = none;
  observed_source_format_version = none;
  source_revision_key = "revision";
  file_identity = file;
  checkpoint_key = "checkpoint";
  expected_checkpoint_sequence = 3;
}

-- The command for the one span.
abbrev outcomes : List TranscriptFoldOutcome
outcomes = span_outcome binding "revision" "linux:1:2:unknown" 100 107 7 10 retained ∷ []

abbrev made : CommitTranscriptFoldCommand
made =
    fold_command sample_runtime dumps arguments
      (span_outcome binding "revision" "linux:1:2:unknown" 100 107 7 10 retained) [] lines none

build_transcript_fold_command-BindsFold_example :
    (made.outcomes ≡ outcomes)
    × (made.byte_start + length lines ≡ made.byte_end_exclusive)
    × (made.source_bytes_sha256 ≡ sample_runtime.sha256 lines)
    × (made.checkpoint.expected_sequence ≡ 3)
    × BindsFold sample_runtime dumps no_envelopes made
unfolding build_transcript_fold_command span_outcome has_length validate_outcome is_sha256 is_key
    is_file_identity sample_runtime check check_each decimal colons stable_key canonical_sha256
    validate_fold_checkpoint validate_slice follow_ranges fold_fields fold_bounds follow_outcomes
    any_exact legacy_binding
build_transcript_fold_command-BindsFold_example =
    build_transcript_fold_command-BindsFold sample_runtime dumps no_envelopes arguments outcomes
      lines none made refl

valid_arguments : IsValidFold arguments
unfolding is_key has_length is_file_identity stable_key decimal colons
valid_arguments = record {
  schema_version = refl;
  capability_key = refl;
  connector_key = refl;
  profile_version = refl;
  format_version = refl;
  revision_key = refl;
  file = refl;
  file_key = refl;
  checkpoint_key = refl;
}

build_transcript_fold_command-total_example :
    (build_transcript_fold_command sample_runtime dumps no_envelopes arguments outcomes lines none
      ≡ ok (
          fold_command sample_runtime dumps arguments
            (span_outcome binding "revision" "linux:1:2:unknown" 100 107 7 10 retained)
            []
            lines
            none))
    ↔ (length (
          fold_canonical_bytes sample_runtime dumps (
            fold_command sample_runtime dumps arguments
              (span_outcome binding "revision" "linux:1:2:unknown" 100 107 7 10 retained)
              []
              lines
              none))
        ≤ fold_command_max_bytes)
unfolding span_outcome has_length validate_outcome is_sha256 is_key is_file_identity sample_runtime
    check check_each validate_slice follow_ranges any_exact fold_canonical_bytes
build_transcript_fold_command-total_example =
    build_transcript_fold_command-total sample_runtime dumps no_envelopes arguments
      (span_outcome binding "revision" "linux:1:2:unknown" 100 107 7 10 retained) [] lines
      valid_arguments refl
      (
        refl,
        refl,
        omega arith,
        omega arith,
        (
          refl,
          omega arith,
          omega arith,
          omega arith,
          (refl, omega arith, omega arith, omega arith, refl),
        ),
        (refl, refl),
      )
      (omega arith) (omega arith) (omega arith) refl

abbrev pub pending : ℕ → ℕ → ℕ → ℕ → TranscriptFoldPendingRange
pending from to first last = record {
  byte_start = from;
  byte_end_exclusive = to;
  start_record_index = first;
  end_record_index = last;
  source_bytes_sha256 = even_hash;
}

abbrev pub cursor : TranscriptFoldCursorState
cursor = record {
  capability_id = "capability";
  revision = 2;
  file_identity = some file;
  acknowledged_offset = 100;
  acknowledged_record_index = 7;
  checkpoint_sequence = 3;
  pending_ranges = pending 100 103 7 8 ∷ pending 103 106 8 9 ∷ [];
  extractor_state_base64 = "";
  extractor_state_sha256 = even_hash;
  pending_tail_byte_count = 1;
  pending_tail_sha256 = odd_hash;
  source_state = HostCaptureState.waiting_for_complete_record;
  durable_end_offset = 107;
  diagnostic_code = none;
  last_acknowledgement = none;
}

validate_fold_cursor-Pending_example :
    Pending 100 7
      (pending_end_offset cursor)
      (pending_end_record_index cursor)
      cursor.pending_ranges
    × (pending_end_record_index cursor ≤ 7 + 4096)
    × (100 ≤ 107)
unfolding validate_fold_cursor has_length is_sha256 is_key is_file_identity sample_runtime check
    check_each
validate_fold_cursor-Pending_example = validate_fold_cursor-Pending sample_runtime cursor refl
