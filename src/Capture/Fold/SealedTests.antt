-- ===== src/Capture/Fold/SealedTests.antt =====
-- The commit of a sealed span over two pending lines, and the theorem at it.
use memoriesql.Prelude.{ℕ, ◌+◌, refl, true, false, none, some, [], ◌∷◌, Result, ok, err, check}
use memoriesql.Contracts.Exec.{◌>>=◌}
use memoriesql.Contracts.Text.{is_key, has_length, is_sha256, decimal, colons}
use memoriesql.Contracts.Hex.{hex, from_hex, is_hex_text}
use memoriesql.Contracts.Runtime.{canonical_sha256}
use memoriesql.Contracts.Samples.{sample_runtime}
use memoriesql.Capture.Host.{Datetime, is_file_identity, stable_key}
use memoriesql.Capture.Range.Command.{check_each}
use memoriesql.Capture.Fold.Source.{
  validate_durable_read, validate_read_request, read_payload, follow_ranges, validate_slice,
}
use memoriesql.Capture.Fold.Exact.{read_exact}
use memoriesql.Capture.Fold.Outcome.{validate_outcome, span_outcome}
use memoriesql.Capture.Fold.Command.{
  CommitTranscriptFoldCommand, validate_fold_checkpoint, fold_fields, fold_bounds, follow_outcomes,
  any_exact, legacy_binding,
}
use memoriesql.Capture.Fold.Commit.{build_transcript_fold_command}
use memoriesql.Capture.Fold.Sealed.{
  TranscriptFoldRunStatus, TranscriptFoldHealth, FoldLoop, FoldPorts, SealedSpan, validate_health,
  commit_sealed_pending_span,
}
use memoriesql.Capture.Fold.SealedOnce.{Sealed, commit_sealed_pending_span-Sealed}
use memoriesql.Capture.Fold.Cursor.{CommitTranscriptFoldReceipt}
use memoriesql.Capture.Fold.State.{validate_fold_cursor}
use memoriesql.Capture.Fold.Tests.{binding, dumps, no_envelopes, cursor, file, counting_read}

unfoldable pub receipt_of : CommitTranscriptFoldCommand → Datetime → CommitTranscriptFoldReceipt
receipt_of c t = record {
  transcript_fold_receipt_id = 11;
  idempotency_receipt_id = 12;
  source_object_id = c.binding.source_object_id;
  source_revision_key = c.source_revision_key;
  file_identity_key = c.file_identity_key;
  byte_start = c.byte_start;
  byte_end_exclusive = c.byte_end_exclusive;
  start_record_index = c.start_record_index;
  end_record_index = c.end_record_index;
  complete_record_count = c.complete_record_count;
  source_bytes_sha256 = c.source_bytes_sha256;
  outcomes_sha256 = c.outcomes_sha256;
  exact_turn_count = 0;
  transcript_span_count = 1;
  policy_disposition_count = 0;
  checkpoint_key = c.checkpoint.checkpoint_key;
  checkpoint_sequence = c.checkpoint.next_sequence;
  authority_principal_id = 9;
  folded_at = t;
  replayed = false;
  durable = true;
}

-- Ports that count their calls.
abbrev pub ports : FoldPorts ℕ
unfolding receipt_of
ports = record {
  read = counting_read;
  submit = λ c t n. (ok (receipt_of c t), n + 1);
  commit = λ revision s n. (ok tt, n + 1);
}

abbrev pub loop : FoldLoop
loop = record {
  binding = binding;
  capability_id = "capability";
  checkpoint_key = "checkpoint";
  connector_id = "connector";
  source_revision_key = "revision";
  file_identity_key = "linux:1:2:unknown";
}

abbrev call : SealedSpan
call = record {
  pending_tail = 100 ∷ [];
  durable_end_offset = 107;
  observed_source_format_version = none;
  adapter_profile_version = none;
  recorded_at = record { instant = 8; has_tzinfo = true };
}

abbrev nothing : TranscriptFoldHealth
nothing = record {
  capability_id = "";
  status = TranscriptFoldRunStatus.degraded;
  acknowledged_offset = 0;
  acknowledged_record_index = 0;
  checkpoint_sequence = 0;
  durable_end_offset = 0;
  pending_complete_record_count = 0;
  pending_tail_byte_count = 0;
  exact_turn_count = 0;
  transcript_span_count = 0;
  policy_disposition_count = 0;
  diagnostic_code = none;
  receipt = none;
}

abbrev pub report : Result TranscriptFoldHealth → TranscriptFoldHealth
report (ok h) = h
report (err e) = nothing

abbrev sealed : Result TranscriptFoldHealth × ℕ
sealed =
    commit_sealed_pending_span sample_runtime dumps no_envelopes ports loop cursor (some file) call
      0

commit_sealed_pending_span-Sealed_example :
    Sealed sample_runtime dumps no_envelopes ports loop cursor call (report sealed.0) 0 3
unfolding commit_sealed_pending_span read_exact span_outcome has_length validate_outcome is_sha256
    is_key is_file_identity sample_runtime check check_each decimal colons stable_key
    canonical_sha256 validate_fold_checkpoint validate_slice follow_ranges fold_fields fold_bounds
    follow_outcomes any_exact legacy_binding validate_durable_read read_payload from_hex hex
    is_hex_text receipt_of validate_fold_cursor build_transcript_fold_command ◌>>=◌
    validate_read_request validate_health
commit_sealed_pending_span-Sealed_example =
    commit_sealed_pending_span-Sealed sample_runtime dumps no_envelopes ports loop cursor
      (some file) call (report sealed.0) 0 3 refl
