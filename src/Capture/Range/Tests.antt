-- ===== src/Capture/Range/Tests.antt =====
-- A run of the raw capture loop over a file of five bytes, and the theorems at it.
use memoriesql.Prelude.{
  ℕ, ◌+◌, ◌≤◌, ◌≡◌, refl, true, false, Option, none, some, List, [], ◌∷◌, length, take, map, drop,
  is_empty, eqb, if◌then◌else◌, ◌↔◌, Result, ok, err, arith, check,
}
use memoriesql.Contracts.Exec.{◌>>=◌}
use memoriesql.Contracts.Text.{is_key, has_length, is_sha256, decimal, colons}
use memoriesql.Contracts.Hex.{hex, from_hex, is_hex_text}
use memoriesql.Contracts.Runtime.{Json, null, canonical_sha256}
use memoriesql.Contracts.Samples.{sample_runtime}
use memoriesql.Capture.Host.{
  Datetime, FileIdentity, HostReadStatus, HostReadRequest, HostReadResponse, stable_key,
  is_file_identity, validate_request, response_data,
}
use memoriesql.Capture.Range.Command.{
  CaptureSurface, CaptureSourceRangeCommand, check_each, canonical_bytes, validate_command,
  validate_checkpoint, validate_chunk, follow_chunks, byte_sum, payload, payloads,
  command_max_bytes,
}
use memoriesql.Capture.Range.Build.{RangeArguments, assemble, build_capture_source_range_command}
use memoriesql.Capture.Range.Built.{IsValidArguments, build_capture_source_range_command-total}
use memoriesql.Capture.Range.Sound.{Binds, validate_command-Binds}
use memoriesql.Capture.Range.Cursor.{
  RawSourceCaptureStatus, CaptureSourceRangeReceipt, RawSourceCursorState, RawSourceCaptureResult,
  initial, validate_cursor, validate_result, validate_acknowledgement,
}
use memoriesql.Capture.Range.Loop.{Ports, RawSourceCaptureLoop, run_once, run_until_pause}
use memoriesql.Capture.Range.Once.{Ran, run_once-Ran}
use memoriesql.Capture.Range.Runs.{EndsOnce, run_until_pause-EndsOnce}
use memoriesql.Capture.Range.Tiling.{
  KeepsCursor, Tiles, offset_of, sequence_of, run_until_pause-Tiles,
}

-- A host with one file, a kernel that accepts every command, and a store of one cursor.
record World : Type 0 where
  source : List ℕ
  cursor : Option RawSourceCursorState
  accepted : ℕ

abbrev file : FileIdentity
file = record { platform = "linux"; device = 1; inode = 2; birth_time_ns = none }

abbrev now : Datetime
now = record { instant = 7; has_tzinfo = true }

answer : HostReadRequest → List ℕ → List ℕ → HostReadResponse
answer request source bytes = record {
  request_id = request.request_id;
  status = if is_empty bytes then HostReadStatus.end_of_file else HostReadStatus.data_read;
  file_identity = some file;
  start_offset = request.byte_offset;
  end_offset = request.byte_offset + length bytes;
  observed_size = length source;
  data_base64 = sample_runtime.b64encode bytes;
  data_sha256 = sample_runtime.sha256 bytes;
  end_of_file = eqb (request.byte_offset + length bytes) (length source);
  diagnostic_code = none;
}

receipt_of : CaptureSourceRangeCommand → Datetime → ℕ → CaptureSourceRangeReceipt
receipt_of command t id = record {
  source_range_receipt_id = id;
  idempotency_receipt_id = id;
  source_object_id = command.binding.source_object_id;
  source_revision_key = command.source_revision_key;
  file_identity_key = command.file_identity_key;
  byte_start = command.byte_start;
  byte_end_exclusive = command.byte_end_exclusive;
  payload_byte_count = command.payload_byte_count;
  payload_sha256 = command.payload_sha256;
  chunk_count = length command.chunks;
  checkpoint_key = command.checkpoint.checkpoint_key;
  checkpoint_sequence = command.checkpoint.next_sequence;
  authority_principal_id = 9;
  captured_at = t;
  already_exists = false;
  replayed = false;
  durable = true;
}

ports : Ports World
unfolding answer receipt_of
ports = record {
  uuid4 = λ w. (ok 5, w);
  read = λ request w. (
    ok (answer request w.source (take request.max_bytes (drop request.byte_offset w.source))),
    w,
  );
  capture =
      λ command t w. (ok (receipt_of command t w.accepted), record w { accepted = w.accepted + 1 });
  load = λ id w. (ok w.cursor, w);
  commit = λ revision state w. (ok tt, record w { cursor = some state });
}

ports-KeepsCursor : KeepsCursor ports
unfolding ports
ports-KeepsCursor = record {
  view = λ w. w.cursor;
  load_view = λ id w loaded w' h. ground arith;
  uuid4_view = λ w u w' h. ground arith;
  read_view = λ request w response w' h. ground arith;
  capture_view = λ command t w receipt w' h. ground arith;
  commit_view = λ revision state w w' h. ground arith;
}

abbrev loop : RawSourceCaptureLoop
loop = record {
  binding = record {
    tenant_id = 1;
    workspace_id = 2;
    access_scope_id = 3;
    source_object_id = 4;
    expected_source_object_schema_version = 1;
  };
  capability_id = "capture.local";
  capability_credential = "0123456789abcdef0123456789abcdef";
  checkpoint_key = "source-bytes";
  connector_id = "transcript.files";
  observed_connector_version = none;
  capture_surface = CaptureSurface.artifact;
  source_revision_key = "r1";
  observed_source_format_version = none;
  policies = record { capture_policy_id = "policy.local"; retention_policy_ref = "keep" };
  initial_byte_offset = 0;
  read_size = 2;
}

abbrev start : World
start = record { source = 10 ∷ 20 ∷ 30 ∷ 40 ∷ 255 ∷ []; cursor = none; accepted = 0 }

abbrev dump : CaptureSourceRangeCommand → Json
dump _ = null

program : Unit {0}
unfolding run_until_pause initial build_capture_source_range_command ports sample_runtime check
    validate_command validate_cursor validate_result validate_request check_each validate_chunk
    validate_checkpoint follow_chunks byte_sum payload payloads stable_key is_file_identity is_key
    has_length is_sha256 hex from_hex is_hex_text decimal colons canonical_sha256 response_data
    ◌>>=◌ validate_acknowledgement
program = tt

ran : Result (List RawSourceCaptureResult) × World
ran = run_until_pause sample_runtime dump ports loop now 9 start

results_of : Result (List RawSourceCaptureResult) → List RawSourceCaptureResult
results_of (ok results) = results
results_of (err e) = []

results : List RawSourceCaptureResult
unfolding ran results_of
results = results_of ran.0

final : World
unfolding ran
final = ran.1

ran_well : run_until_pause sample_runtime dump ports loop now 9 start ≡ (ok results, final)
unfolding program results final
ran_well = refl

three_ranges_and_the_end :
    map (λ (r : RawSourceCaptureResult). r.acknowledged_byte_offset) results ≡ 2 ∷ 4 ∷ 5 ∷ 5 ∷ []
unfolding program results
three_ranges_and_the_end = refl

run_until_pause-EndsOnce_example : EndsOnce results × (length results ≤ 10)
run_until_pause-EndsOnce_example =
    run_until_pause-EndsOnce sample_runtime dump ports loop now 9 results start final ran_well

run_until_pause-Tiles_example :
    Tiles results 0 0 (offset_of loop final.cursor) (sequence_of loop final.cursor)
unfolding ports-KeepsCursor initial
run_until_pause-Tiles_example =
    run_until_pause-Tiles sample_runtime dump ports ports-KeepsCursor loop now 9 results start final
      ran_well

first : Result RawSourceCaptureResult × World
first = run_once sample_runtime dump ports loop now start

first_result : Result RawSourceCaptureResult → RawSourceCaptureResult
first_result (ok r) = r
first_result (err e) = record {
  status = RawSourceCaptureStatus.source_unavailable;
  acknowledged_byte_offset = 0;
  checkpoint_sequence = 0;
  observed_size = 0;
  diagnostic_code = none;
  receipt = none;
}

run_once-Ran_example : Ran sample_runtime dump ports loop now (first_result first.0) start first.1
unfolding program first first_result
run_once-Ran_example = run_once-Ran sample_runtime dump ports loop now start first.1 refl

abbrev arguments : RangeArguments
arguments = record {
  binding = loop.binding;
  capability_id = loop.capability_id;
  connector_id = loop.connector_id;
  observed_connector_version = none;
  capture_surface = loop.capture_surface;
  source_revision_key = loop.source_revision_key;
  file_identity = file;
  observed_source_format_version = none;
  byte_start = 100;
  checkpoint_key = loop.checkpoint_key;
  expected_checkpoint_sequence = 6;
  policies = loop.policies;
}

abbrev bytes : List ℕ
bytes = 1 ∷ 2 ∷ 3 ∷ 255 ∷ 0 ∷ []

valid_arguments : IsValidArguments arguments
unfolding is_key has_length is_file_identity stable_key decimal colons
valid_arguments = record {
  schema_version = refl;
  capability_key = refl;
  connector_key = refl;
  connector_version = refl;
  revision_key = refl;
  file = refl;
  file_key = refl;
  format_version = refl;
  checkpoint_key = refl;
  policy_key = refl;
  retention = refl;
}

build_capture_source_range_command-total_example :
    (build_capture_source_range_command sample_runtime dump arguments 2 bytes
      ≡ ok (assemble sample_runtime arguments 2 bytes))
    ↔ (length (canonical_bytes sample_runtime dump (assemble sample_runtime arguments 2 bytes))
        ≤ command_max_bytes)
build_capture_source_range_command-total_example =
    build_capture_source_range_command-total sample_runtime dump arguments 2 bytes valid_arguments
      (omega arith) (omega arith) (omega arith) (omega arith) (omega arith) (omega arith)

validate_command-Binds_example : Binds sample_runtime (assemble sample_runtime arguments 2 bytes)
unfolding program
validate_command-Binds_example =
    validate_command-Binds sample_runtime dump (assemble sample_runtime arguments 2 bytes) refl
