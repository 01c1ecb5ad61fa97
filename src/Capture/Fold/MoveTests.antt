-- ===== src/Capture/Fold/MoveTests.antt =====
-- The migration of a legacy cursor over two retained lines.
use memoriesql.Prelude.{
  ℕ, ◌+◌, ◌≡◌, refl, true, false, none, some, List, [], ◌∷◌, Result, ok, err, check, arith,
}
use memoriesql.Contracts.Exec.{◌>>=◌}
use memoriesql.Contracts.Text.{is_key, has_length, is_sha256, decimal, colons}
use memoriesql.Contracts.Hex.{hex, from_hex, is_hex_text}
use memoriesql.Contracts.Runtime.{null, canonical_sha256}
use memoriesql.Contracts.Samples.{sample_runtime}
use memoriesql.Capture.Host.{is_file_identity, stable_key}
use memoriesql.Capture.Range.Command.{check_each}
use memoriesql.Capture.Fold.Source.{
  DurableTranscriptRead, TranscriptFoldSourceRange, validate_durable_read, validate_read_request,
  read_payload, follow_ranges, validate_slice,
}
use memoriesql.Capture.Fold.Exact.{read_exact}
use memoriesql.Capture.Fold.Outcome.{validate_outcome}
use memoriesql.Capture.Fold.Command.{
  validate_fold_checkpoint, fold_fields, fold_bounds, follow_outcomes, any_exact, legacy_binding,
  validate_legacy_cursor,
}
use memoriesql.Capture.Fold.Commit.{build_transcript_fold_command}
use memoriesql.Capture.Fold.Sealed.{FoldPorts}
use memoriesql.Capture.Fold.Cursor.{TranscriptFoldCursorState}
use memoriesql.Capture.Fold.State.{validate_fold_cursor}
use memoriesql.Capture.Fold.Migrate.{
  HostCaptureCursorState, migrate_acknowledged, migrate_legacy_cursor,
}
use memoriesql.Capture.Fold.Moved.{
  MovedTo, migrate_legacy_cursor-MovedTo, migrate_acknowledged-enough,
}
use memoriesql.Capture.Fold.Tests.{dumps, no_envelopes, cursor, retained, file, first_range}
use memoriesql.Capture.Fold.SealedTests.{receipt_of, ports, loop}

-- "a\nb\n"
abbrev lines : List ℕ
lines = 97 ∷ 10 ∷ 98 ∷ 10 ∷ []

abbrev whole_range : TranscriptFoldSourceRange
whole_range = record first_range {
  receipt_byte_start = 0;
  receipt_byte_end_exclusive = 4;
  byte_start = 0;
  byte_end_exclusive = 4;
}

abbrev from_start : DurableTranscriptRead
from_start = record retained {
  byte_start = 0;
  byte_end_exclusive = 4;
  durable_end_offset = 4;
  payload_hex = hex lines;
  ranges = whole_range ∷ [];
}

abbrev move_ports : FoldPorts ℕ
move_ports = record {
  read = λ request n. (ok from_start, n + 1);
  submit = ports.submit;
  commit = ports.commit;
}

abbrev legacy : HostCaptureCursorState
legacy = record {
  cursor_version = 2;
  capability_id = "capability";
  revision = 5;
  file_identity = some file;
  acknowledged_offset = 4;
  acknowledged_record_index = 2;
  checkpoint_sequence = 1;
  has_pending = false;
  extractor_state_base64 = "";
  extractor_state_sha256 = sample_runtime.sha256 [];
  last_receipt_event_id = none;
  dumped = null;
}

abbrev moved : Result TranscriptFoldCursorState × ℕ
moved =
    migrate_legacy_cursor sample_runtime dumps no_envelopes move_ports loop none
      (record { instant = 8; has_tzinfo = true }) legacy 0

abbrev cursor_in : Result TranscriptFoldCursorState → TranscriptFoldCursorState
cursor_in (ok s) = s
cursor_in (err e) = cursor

migrate_legacy_cursor-MovedTo_example :
    MovedTo sample_runtime dumps no_envelopes move_ports loop none
      (record { instant = 8; has_tzinfo = true })
      legacy
      (cursor_in moved.0)
      3
unfolding migrate_legacy_cursor validate_legacy_cursor read_exact has_length validate_outcome
    is_sha256 is_key is_file_identity sample_runtime check check_each decimal colons stable_key
    canonical_sha256 validate_fold_checkpoint validate_slice follow_ranges fold_fields fold_bounds
    follow_outcomes any_exact legacy_binding validate_durable_read read_payload from_hex hex
    is_hex_text receipt_of validate_fold_cursor build_transcript_fold_command ◌>>=◌
    validate_read_request
migrate_legacy_cursor-MovedTo_example =
    migrate_legacy_cursor-MovedTo sample_runtime dumps no_envelopes move_ports loop none
      (record { instant = 8; has_tzinfo = true }) legacy (cursor_in moved.0) 0 3 refl

migrate_acknowledged-enough_example :
    migrate_acknowledged sample_runtime dumps no_envelopes move_ports loop none
      (record { instant = 8; has_tzinfo = true })
      9
      legacy
      0
    ≡ migrate_acknowledged sample_runtime dumps no_envelopes move_ports loop none
        (record { instant = 8; has_tzinfo = true })
        4
        legacy
        0
migrate_acknowledged-enough_example =
    migrate_acknowledged-enough sample_runtime dumps no_envelopes move_ports loop none
      (record { instant = 8; has_tzinfo = true }) legacy 9 0 (omega arith)
