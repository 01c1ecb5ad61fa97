-- ===== src/Capture/Fold/Run.antt =====
-- `DurableTranscriptFoldLoop` of transcript_fold.py: its constructor and `run_once`.
use memoriesql.Prelude.{
  ℕ, String, Bool, true, false, not, ◌&&◌, Option, none, some, List, [], ◌∷◌, is_none, is_empty,
  leb, nat_eq, string_eq, ◌==◌, assertion_error, Result, check, checked, require, if◌then◌else◌,
}
use memoriesql.Contracts.Text.{is_key, optional}
use memoriesql.Contracts.Runtime.{Runtime}
use memoriesql.Contracts.Exec.{Exec, pure, raise, lift, ◌>>=◌, ◌>>◌}
use memoriesql.Capture.Host.{Datetime, FileIdentity}
use memoriesql.Capture.Fold.Frame.{FramedSourceRecord, frame_complete_records}
use memoriesql.Capture.Fold.Source.{
  DurableTranscriptReadStatus, data_status, end_of_durable_ranges, DurableTranscriptReadRequest,
  validate_read_request, DurableTranscriptRead, read_payload,
}
use memoriesql.Capture.Fold.Outcome.{Envelopes, transcript_span_kind, policy_disposition_kind}
use memoriesql.Capture.Fold.Commit.{Dumps}
use memoriesql.Capture.Fold.Cursor.{
  HostCaptureState, TranscriptFoldCursorState, pending_end_offset, pending_end_record_index,
}
use memoriesql.Capture.Fold.State.{
  extractor_state, validate_fold_cursor, updated_state, validate_read,
}
use memoriesql.Capture.Fold.Sealed.{
  TranscriptFoldRunStatus, TranscriptFoldHealth, FoldLoop, FoldPorts, source_of, health_of,
  validate_health, commit_sealed_pending_span,
}
use memoriesql.Capture.Fold.Adapter.{
  fold_max_read_bytes, QualifiedTranscriptFoldAdapter, qualified_adapter,
}
use memoriesql.Capture.Fold.Records.{Fallback, Assembly, assemble_records}
use memoriesql.Capture.Fold.Settle.{Framed}
use memoriesql.Capture.Fold.Resolve.{settle_run}
use memoriesql.Capture.Fold.Migrate.{HostCaptureCursorState, migrate_legacy_cursor}

-- The fields of the loop beside those in `FoldLoop`.
pub record DurableTranscriptFoldLoop (T E : Type 0) : Type 0 where
  pub base : FoldLoop
  pub observed_source_format_version : Option String
  pub adapter : Option (QualifiedTranscriptFoldAdapter T E)
  pub source_format_disposition_code : Option String
  pub sealed_byte_end_exclusive : Option ℕ
  pub read_size : ℕ

-- What the cursor store holds for a capability.
pub data StoredCursor : Type 0 where
  absent : StoredCursor
  legacy_cursor : HostCaptureCursorState → StoredCursor
  fold_cursor : TranscriptFoldCursorState → StoredCursor

abbrev pub reaches : Option ℕ → DurableTranscriptRead → Bool
reaches none read = false
reaches (some sealed_end) read =
    read.durable_end_offset == sealed_end && read.byte_end_exclusive == sealed_end

-- The fallback of a source format that has no adapter.
abbrev pub format_fallback : Option String → Fallback
format_fallback none = record {
  code = "fold.unqualified-source-format";
  kind = transcript_span_kind;
}
format_fallback (some code) =
    if code == ""
    then record { code = "fold.unqualified-source-format"; kind = policy_disposition_kind }
    else record { code = code; kind = policy_disposition_kind }

-- The local variables before the loop over the records.
unfoldable pub unassembled : TranscriptFoldCursorState → List ℕ → Assembly
unassembled s state = record {
  outcomes = [];
  assembly_state = state;
  outcome_start_offset = s.acknowledged_offset;
  outcome_start_record = s.acknowledged_record_index;
  pending_records_start = 0;
  consumed_record_count = 0;
  fallback = none;
  outcome_limit_reached = false;
}

module _ {T E : Type 0} where
  abbrev pub binds_connector : String → Option (QualifiedTranscriptFoldAdapter T E) → Bool
  binds_connector connector_id none = true
  binds_connector connector_id (some a) = a.connector_id == connector_id

  abbrev pub disposition_fits : Option (QualifiedTranscriptFoldAdapter T E) → Option String → Bool
  disposition_fits adapter none = true
  disposition_fits adapter (some code) = is_none adapter && is_key code

  -- `__init__`
  unfoldable pub validate_loop : DurableTranscriptFoldLoop T E → Result (Unit {0})
  validate_loop self = check (
      require (leb 1 self.read_size && leb self.read_size fold_max_read_bytes)
        "transcript fold read size is invalid"
      ∷ require (binds_connector self.base.connector_id self.adapter)
          "transcript fold adapter must bind the connector"
      ∷ require (disposition_fits self.adapter self.source_format_disposition_code)
          "source-format disposition configuration is invalid"
      ∷ require (optional (λ stop. leb 1 stop) self.sealed_byte_end_exclusive)
          "sealed transcript fold byte end must be positive"
      ∷ [])

  -- `_is_sealed_read`
  unfoldable pub is_sealed_read : DurableTranscriptFoldLoop T E → DurableTranscriptRead → Bool
  is_sealed_read self read = reaches self.sealed_byte_end_exclusive read

  abbrev pub record_limit : Option (QualifiedTranscriptFoldAdapter T E) → ℕ
  record_limit none = 262144
  record_limit (some a) = a.max_record_bytes

  abbrev pub profile_of : Option (QualifiedTranscriptFoldAdapter T E) → Option String
  profile_of none = none
  profile_of (some a) = some a.profile_version

  unfoldable pub framed_read :
      FileIdentity
      → Option (QualifiedTranscriptFoldAdapter T E)
      → DurableTranscriptRead
      → Datetime
      → FramedSourceRecord
      → List FramedSourceRecord
      → List ℕ
      → Framed
  framed_read file adapter read recorded_at first rest partial_tail = record {
    file = file;
    first = first;
    rest = rest;
    partial_tail = partial_tail;
    durable_end_offset = read.durable_end_offset;
    observed_source_format_version = read.observed_source_format_version;
    adapter_profile_version = profile_of adapter;
    recorded_at = recorded_at;
  }

unfoldable pub fresh_cursor : Runtime → String → TranscriptFoldCursorState
fresh_cursor py capability_id = record {
  capability_id = capability_id;
  revision = 0;
  file_identity = none;
  acknowledged_offset = 0;
  acknowledged_record_index = 0;
  checkpoint_sequence = 0;
  pending_ranges = [];
  extractor_state_base64 = "";
  extractor_state_sha256 = py.sha256 [];
  pending_tail_byte_count = 0;
  pending_tail_sha256 = py.sha256 [];
  source_state = HostCaptureState.healthy;
  durable_end_offset = 0;
  diagnostic_code = none;
  last_acknowledgement = none;
}

-- The status of a run that found no more durable bytes.
unfoldable pub end_status : TranscriptFoldCursorState → TranscriptFoldRunStatus
end_status s =
    if not (is_empty s.pending_ranges)
    then TranscriptFoldRunStatus.waiting_for_exact_turn
    else if not (s.pending_tail_byte_count == 0)
    then TranscriptFoldRunStatus.waiting_for_complete_record
    else TranscriptFoldRunStatus.end_of_durable_ranges

abbrev pub run_request : FoldLoop → ℕ → TranscriptFoldCursorState → DurableTranscriptReadRequest
unfolding pending_end_offset
run_request self read_size s = record {
  source_object_id = self.binding.source_object_id;
  source_revision_key = self.source_revision_key;
  file_identity_key = self.file_identity_key;
  byte_start = pending_end_offset s;
  max_bytes = read_size;
}

module _ (py : Runtime) (dumps : Dumps) {T E : Type 0} (envelopes : Envelopes E) {W : Type 0}
    (ports : FoldPorts W) (self : DurableTranscriptFoldLoop T E) (recorded_at : Datetime) where
  -- A report on a cursor that stays.
  unfoldable pub report_state :
      TranscriptFoldCursorState → TranscriptFoldRunStatus → Exec W TranscriptFoldHealth
  unfolding health_of
  report_state s status =
      lift (checked (validate_health (health_of s status none)) (health_of s status none))

  -- The read found no more durable bytes.
  unfoldable pub run_at_end :
      TranscriptFoldCursorState → DurableTranscriptRead → Exec W TranscriptFoldHealth
  unfolding report_state end_status is_sealed_read
  run_at_end s read =
      if not (is_empty s.pending_ranges) && is_sealed_read self read
      then commit_sealed_pending_span py dumps envelopes ports self.base s s.file_identity (record {
        pending_tail = [];
        durable_end_offset = read.durable_end_offset;
        observed_source_format_version = self.observed_source_format_version;
        adapter_profile_version = none;
        recorded_at = recorded_at;
      })
      else report_state s (end_status s)

  -- The cursor that waits for the end of a line.
  unfoldable pub wait_for_line :
      TranscriptFoldCursorState
      → FileIdentity
      → DurableTranscriptRead
      → List ℕ
      → Exec W TranscriptFoldHealth
  unfolding extractor_state updated_state report_state
  wait_for_line s file read partial_tail = do
    state ← lift (extractor_state py (py.b64decode s.extractor_state_base64))
    let updated =
        updated_state py s file s.pending_ranges state partial_tail
          HostCaptureState.waiting_for_complete_record read.durable_end_offset none true
    lift (validate_fold_cursor py updated)
    ports.commit s.revision updated
    report_state updated TranscriptFoldRunStatus.waiting_for_complete_record

  -- The read holds no complete line.
  unfoldable pub run_without_records :
      TranscriptFoldCursorState
      → FileIdentity
      → Option (QualifiedTranscriptFoldAdapter T E)
      → DurableTranscriptRead
      → List ℕ
      → Exec W TranscriptFoldHealth
  unfolding wait_for_line is_sealed_read
  run_without_records s file adapter read partial_tail =
      if not (is_empty s.pending_ranges) && is_sealed_read self read
      then commit_sealed_pending_span py dumps envelopes ports self.base s (some file) (record {
        pending_tail = partial_tail;
        durable_end_offset = read.durable_end_offset;
        observed_source_format_version = read.observed_source_format_version;
        adapter_profile_version = profile_of adapter;
        recorded_at = recorded_at;
      })
      else wait_for_line s file read partial_tail

  -- The loop over the records, or the fallback of a source format without an adapter.
  unfoldable pub assemble_turns :
      Option (QualifiedTranscriptFoldAdapter T E)
      → FileIdentity
      → Assembly
      → List FramedSourceRecord
      → Exec W Assembly
  unfolding assemble_records source_of
  assemble_turns none file a records =
      pure (record a { fallback = some (format_fallback self.source_format_disposition_code) })
  assemble_turns (some adapter) file a records =
      assemble_records py envelopes adapter ports.read (source_of self.base) file recorded_at a 0
        records

  unfoldable pub run_on_records :
      TranscriptFoldCursorState
      → FileIdentity
      → Option (QualifiedTranscriptFoldAdapter T E)
      → DurableTranscriptRead
      → List FramedSourceRecord × List ℕ
      → Exec W TranscriptFoldHealth
  unfolding run_without_records extractor_state unassembled assemble_turns framed_read settle_run
      is_sealed_read
  run_on_records s file adapter read ([], partial_tail) =
      run_without_records s file adapter read partial_tail
  run_on_records s file adapter read (first ∷ rest, partial_tail) = do
    state ← lift (extractor_state py (py.b64decode s.extractor_state_base64))
    a ← assemble_turns adapter file (unassembled s state) (first ∷ rest)
    settle_run py dumps envelopes ports self.base
        (framed_read file adapter read recorded_at first rest partial_tail)
        (is_sealed_read self read) s a

  unfoldable pub run_on_data :
      TranscriptFoldCursorState
      → DurableTranscriptRead
      → Option FileIdentity
      → Exec W TranscriptFoldHealth
  unfolding run_on_records qualified_adapter frame_complete_records pending_end_record_index
      read_payload
  run_on_data s read none = raise assertion_error
  run_on_data s read (some file) =
      let adapter = qualified_adapter self.adapter self.observed_source_format_version read in
      run_on_records s file adapter read (
        frame_complete_records (read_payload read) read.byte_start (pending_end_record_index s)
          (record_limit adapter))

  unfoldable pub run_on_read :
      DurableTranscriptReadStatus
      → TranscriptFoldCursorState
      → DurableTranscriptRead
      → Exec W TranscriptFoldHealth
  unfolding run_at_end run_on_data
  run_on_read end_of_durable_ranges s read = run_at_end s read
  run_on_read data_status s read = run_on_data s read read.file_identity

  -- `run_once` from the cursor on.
  unfoldable pub run_from : TranscriptFoldCursorState → Exec W TranscriptFoldHealth
  unfolding run_on_read source_of validate_read
  run_from s = do
    lift (validate_read_request (run_request self.base self.read_size s))
    read ← ports.read (run_request self.base self.read_size s)
    lift (validate_read (source_of self.base) read s)
    run_on_read read.status s read

  unfoldable pub cursor_of : StoredCursor → Exec W TranscriptFoldCursorState
  unfolding fresh_cursor migrate_legacy_cursor
  cursor_of absent = do
    lift (validate_fold_cursor py (fresh_cursor py self.base.capability_id))
    pure (fresh_cursor py self.base.capability_id)
  cursor_of (legacy_cursor legacy) =
      migrate_legacy_cursor py dumps envelopes ports self.base (profile_of self.adapter) recorded_at
        legacy
  cursor_of (fold_cursor s) = pure s

  module _ (load : String → Exec W StoredCursor) where
    unfoldable pub run_once : Exec W TranscriptFoldHealth
    unfolding cursor_of run_from
    run_once = do
      lift (
          check (require recorded_at.has_tzinfo "transcript fold time must be timezone-aware" ∷ []))
      loaded ← load self.base.capability_id
      s ← cursor_of loaded
      run_from s
