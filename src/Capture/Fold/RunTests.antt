-- ===== src/Capture/Fold/RunTests.antt =====
-- A run over two retained lines, of which an adapter makes one turn out of scope.
use memoriesql.Prelude.{
  ℕ, ◌+◌, refl, true, false, none, some, [], Result, ok, check, eqb, if◌then◌else◌,
}
use memoriesql.Contracts.Exec.{◌>>=◌}
use memoriesql.Contracts.Text.{is_key, has_length, is_sha256, decimal, colons}
use memoriesql.Contracts.Hex.{hex, from_hex, is_hex_text}
use memoriesql.Contracts.Runtime.{canonical_sha256}
use memoriesql.Contracts.Samples.{sample_runtime}
use memoriesql.Capture.Host.{is_file_identity, stable_key}
use memoriesql.Capture.Range.Command.{check_each}
use memoriesql.Capture.Fold.Frame.{frame_complete_records}
use memoriesql.Capture.Fold.Source.{
  DurableTranscriptRead, validate_durable_read, validate_read_request, read_payload, follow_ranges,
  validate_slice,
}
use memoriesql.Capture.Fold.Exact.{read_exact}
use memoriesql.Capture.Fold.Outcome.{ScopeExclusionReason, validate_outcome, span_outcome}
use memoriesql.Capture.Fold.Command.{
  validate_fold_checkpoint, fold_fields, fold_bounds, follow_outcomes, any_exact, legacy_binding,
}
use memoriesql.Capture.Fold.Commit.{build_transcript_fold_command}
use memoriesql.Capture.Fold.Sealed.{FoldPorts, TranscriptFoldHealth, validate_health}
use memoriesql.Capture.Fold.Cursor.{TranscriptFoldCursorState}
use memoriesql.Capture.Fold.State.{validate_fold_cursor, validate_read}
use memoriesql.Capture.Fold.Adapter.{
  stepped, QualifiedTranscriptFoldAdapter, validate_assembly_span, qualified_adapter,
}
use memoriesql.Capture.Fold.Run.{DurableTranscriptFoldLoop, fold_cursor, run_once}
use memoriesql.Capture.Fold.RunOnce.{RanOnce, run_once-RanOnce}
use memoriesql.Capture.Fold.Tests.{dumps, no_envelopes, cursor, retained}
use memoriesql.Capture.Fold.SealedTests.{receipt_of, ports, loop, report}

-- The turn ends with the record at index 8.
abbrev pub adapter : QualifiedTranscriptFoldAdapter ℕ ℕ
adapter = record {
  profile_version = "1.0";
  connector_id = "connector";
  source_format_version = "f1";
  advance = λ r state. stepped [] (if eqb r.record_index 8 then some 0 else none);
  build_exact_envelope = λ finalized span t. ok 0;
  max_record_bytes = 100;
  max_span_bytes = 1000;
  max_turn_records = 10;
  is_topology_fallback = λ code. false;
  scope_exclusion = λ finalized. some ScopeExclusionReason.off_date;
}

abbrev pub fold_loop : DurableTranscriptFoldLoop ℕ ℕ
fold_loop = record {
  base = loop;
  observed_source_format_version = some "f1";
  adapter = some adapter;
  source_format_disposition_code = none;
  sealed_byte_end_exclusive = none;
  read_size = 1000;
}

abbrev start : TranscriptFoldCursorState
start = record cursor { pending_ranges = []; durable_end_offset = 110 }

abbrev pub described : DurableTranscriptRead
described = record retained {
  connector_id = some "connector";
  observed_source_format_version = some "f1";
}

abbrev run_ports : FoldPorts ℕ
run_ports = record {
  read = λ request n. (ok described, n + 1);
  submit = ports.submit;
  commit = ports.commit;
}

abbrev ran : Result TranscriptFoldHealth × ℕ
ran =
    run_once sample_runtime dumps no_envelopes run_ports fold_loop
      (record { instant = 8; has_tzinfo = true }) (λ capability n. (ok (fold_cursor start), n + 1))
      0

run_once-RanOnce_example :
    RanOnce sample_runtime dumps no_envelopes run_ports fold_loop
      (record { instant = 8; has_tzinfo = true })
      (λ capability n. (ok (fold_cursor start), n + 1))
      (report ran.0)
      0
      6
unfolding run_once frame_complete_records qualified_adapter validate_assembly_span validate_read
    read_exact span_outcome has_length validate_outcome is_sha256 is_key is_file_identity
    sample_runtime check check_each decimal colons stable_key canonical_sha256
    validate_fold_checkpoint validate_slice follow_ranges fold_fields fold_bounds follow_outcomes
    any_exact legacy_binding validate_durable_read read_payload from_hex hex is_hex_text receipt_of
    validate_fold_cursor build_transcript_fold_command ◌>>=◌ validate_read_request validate_health
run_once-RanOnce_example =
    run_once-RanOnce sample_runtime dumps no_envelopes run_ports fold_loop
      (record { instant = 8; has_tzinfo = true }) (λ capability n. (ok (fold_cursor start), n + 1))
      (report ran.0) 0 6 refl
