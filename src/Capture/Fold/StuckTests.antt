-- ===== src/Capture/Fold/StuckTests.antt =====
-- A run that brings two lines to a cursor with 128 pending ranges.
use memoriesql.Prelude.{
  ℕ, zero, suc, ◌+◌, ◌≡◌, refl, true, some, List, [], ◌∷◌, Error, ok, err, check, arith,
}
use memoriesql.Contracts.Text.{is_key, has_length, is_sha256, decimal, colons}
use memoriesql.Contracts.Hex.{hex, from_hex, is_hex_text}
use memoriesql.Contracts.Samples.{sample_runtime}
use memoriesql.Capture.Host.{Datetime, is_file_identity, stable_key}
use memoriesql.Capture.Fold.Frame.{record_of, frame_complete_records}
use memoriesql.Capture.Fold.Source.{DurableTranscriptRead, read_payload, validate_read_request}
use memoriesql.Capture.Fold.Cursor.{
  TranscriptFoldPendingRange, TranscriptFoldCursorState, pending_end_record_index,
}
use memoriesql.Capture.Fold.State.{validate_read, extractor_state}
use memoriesql.Capture.Fold.Sealed.{FoldPorts, source_of}
use memoriesql.Capture.Fold.Adapter.{QualifiedTranscriptFoldAdapter, qualified_adapter}
use memoriesql.Capture.Fold.Records.{exceeded, consume}
use memoriesql.Capture.Fold.Run.{
  DurableTranscriptFoldLoop, fold_cursor, is_sealed_read, run_once, unassembled,
}
use memoriesql.Capture.Fold.Stuck.{GoesOn, run_once-Refused}
use memoriesql.Capture.Fold.Tests.{dumps, no_envelopes, cursor, pending, file}
use memoriesql.Capture.Fold.SealedTests.{ports}
use memoriesql.Capture.Fold.RunTests.{adapter, fold_loop, described}

-- Ranges of one byte and one record each.
abbrev ranges : ℕ → ℕ → List TranscriptFoldPendingRange
ranges zero start = []
ranges (suc n) start = pending start (start + 1) start (start + 1) ∷ ranges n (start + 1)

abbrev many : TranscriptFoldCursorState
many = record cursor {
  acknowledged_record_index = 100;
  pending_ranges = ranges 128 100;
  pending_tail_byte_count = 0;
}

-- It ends a turn with the record at index 8, which is not read here.
abbrev wide : QualifiedTranscriptFoldAdapter ℕ ℕ
wide = record adapter { max_turn_records = 1000 }

abbrev wide_loop : DurableTranscriptFoldLoop ℕ ℕ
wide_loop = record fold_loop { adapter = some wide }

abbrev two_lines : DurableTranscriptRead
two_lines = record described {
  byte_start = 228;
  byte_end_exclusive = 235;
  durable_end_offset = 240;
}

abbrev stuck_ports : FoldPorts ℕ
stuck_ports = record {
  read = λ request n. (ok two_lines, n + 1);
  submit = ports.submit;
  commit = ports.commit;
}

abbrev at_noon : Datetime
at_noon = record { instant = 8; has_tzinfo = true }

two_lines-GoesOn : GoesOn sample_runtime dumps no_envelopes stuck_ports wide_loop at_noon many 1 2
unfolding validate_read_request validate_read is_sealed_read qualified_adapter
    frame_complete_records pending_end_record_index read_payload extractor_state exceeded
    sample_runtime hex from_hex is_hex_text check is_key has_length is_sha256 stable_key
    is_file_identity decimal colons source_of unassembled consume
two_lines-GoesOn = record {
  read = two_lines;
  file = file;
  adapter = wide;
  first = record_of 100 228 228 (97 ∷ 13 ∷ 10 ∷ []);
  rest = record_of 100 231 229 (98 ∷ 99 ∷ 10 ∷ []) ∷ [];
  tail = 100 ∷ [];
  state = [];
  requested = refl;
  was_read = refl;
  matched = refl;
  with_data = refl;
  known = refl;
  unsealed = refl;
  adapted = refl;
  framed = refl;
  decoded = refl;
  takes = (refl, ([], refl, refl, (refl, ([], refl, refl, tt))));
}

run_once-Refused_example :
    (e : Error) × (run_once sample_runtime dumps no_envelopes stuck_ports wide_loop at_noon
        (λ capability n. (ok (fold_cursor many), n + 1))
        0
      ≡ (err e, 2))
run_once-Refused_example =
    run_once-Refused sample_runtime dumps no_envelopes stuck_ports wide_loop at_noon
      (λ capability n. (ok (fold_cursor many), n + 1)) many 0 1 2 refl refl (omega arith)
      two_lines-GoesOn
