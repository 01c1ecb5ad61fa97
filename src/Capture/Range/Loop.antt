-- ===== src/Capture/Range/Loop.antt =====
-- `RawSourceCaptureLoop` of source_range.py. The three ports are parameters: the host reader, the
-- kernel that accepts a range, and the cursor store; `W` is what they keep.
use memoriesql.Prelude.{
  ℕ, zero, suc, ◌+◌, String, Bool, true, false, not, ◌&&◌, ◌||◌, Option, none, some, List, [], ◌∷◌,
  length, leb, nat_eq, string_eq, ◌==◌, value_error, assertion_error, Result, ok, err, check,
  checked, require, if◌then◌else◌,
}
use memoriesql.Contracts.Runtime.{Runtime, Json}
use memoriesql.Contracts.Exec.{Exec, pure, raise, lift, ◌>>=◌, ◌>>◌}
use memoriesql.Capture.Host.{
  Uuid, Datetime, FileIdentity, file_eq, stable_key, HostReadStatus, HostReadRequest,
  HostReadResponse, validate_request, response_data,
}
use memoriesql.Capture.Range.Command.{
  CaptureSurface, KernelCaptureBinding, SourceRangePolicyReferences, CaptureSourceRangeCommand,
  transaction_max_bytes, chunk_max_bytes,
}
use memoriesql.Capture.Range.Build.{RangeArguments, build_capture_source_range_command}
use memoriesql.Capture.Range.Cursor.{
  RawSourceCaptureStatus, CaptureSourceRangeReceipt, DurableSourceRangeAcknowledgement,
  RawSourceCursorState, initial, validate_cursor, RawSourceCaptureResult, validate_result,
  validate_acknowledgement, is_captured,
}

pub record Ports (W : Type 0) : Type 0 where
  pub uuid4 : Exec W Uuid
  pub read : HostReadRequest → Exec W HostReadResponse
  pub capture : CaptureSourceRangeCommand → Datetime → Exec W CaptureSourceRangeReceipt
  pub load : String → Exec W (Option RawSourceCursorState)
  pub commit : ℕ → RawSourceCursorState → Exec W (Unit {0})

pub record RawSourceCaptureLoop : Type 0 where
  pub binding : KernelCaptureBinding
  pub capability_id : String
  pub capability_credential : String
  pub checkpoint_key : String
  pub connector_id : String
  pub observed_connector_version : Option String
  pub capture_surface : CaptureSurface
  pub source_revision_key : String
  pub observed_source_format_version : Option String
  pub policies : SourceRangePolicyReferences
  pub initial_byte_offset : ℕ
  pub read_size : ℕ

-- `__init__`
unfoldable pub create : RawSourceCaptureLoop → Result RawSourceCaptureLoop
create self =
    if leb 1 self.read_size && leb self.read_size transaction_max_bytes
    then ok self
    else err (value_error "raw-source read size exceeds its transaction bound")

abbrev pub or_initial : RawSourceCaptureLoop → Option RawSourceCursorState → RawSourceCursorState
or_initial self none = initial self.capability_id self.initial_byte_offset
or_initial self (some state) = state

-- The dictionary from host statuses to capture statuses, with its default.
unfoldable pub failure_status : HostReadStatus → RawSourceCaptureStatus
failure_status HostReadStatus.permission_revoked = RawSourceCaptureStatus.permission_revoked
failure_status HostReadStatus.permission_denied = RawSourceCaptureStatus.permission_revoked
failure_status HostReadStatus.rotated_or_replaced = RawSourceCaptureStatus.identity_changed
failure_status HostReadStatus.identity_drift = RawSourceCaptureStatus.identity_changed
failure_status _ = RawSourceCaptureStatus.source_unavailable

-- A result that reports no new bytes.
unfoldable pub unchanged :
    RawSourceCursorState → RawSourceCaptureStatus → ℕ → Option String → RawSourceCaptureResult
unchanged state status observed_size diagnostic_code = record {
  status = status;
  acknowledged_byte_offset = state.acknowledged_byte_offset;
  checkpoint_sequence = state.checkpoint_sequence;
  observed_size = observed_size;
  diagnostic_code = diagnostic_code;
  receipt = none;
}

-- The receipt has to answer this command of this loop.
unfoldable pub binds :
    RawSourceCaptureLoop
    → RawSourceCursorState
    → FileIdentity
    → CaptureSourceRangeCommand
    → CaptureSourceRangeReceipt
    → Bool
binds self state file command receipt =
    receipt.source_object_id == self.binding.source_object_id
    && (receipt.source_revision_key == self.source_revision_key
        && (receipt.file_identity_key == stable_key file
            && (receipt.byte_start == command.byte_start
                && (receipt.byte_end_exclusive == command.byte_end_exclusive
                    && (receipt.payload_sha256 == command.payload_sha256
                        && ((receipt.replayed
                              || (receipt.already_exists
                                  || receipt.chunk_count == length command.chunks))
                            && (receipt.checkpoint_key == self.checkpoint_key
                                && (receipt.checkpoint_sequence == state.checkpoint_sequence + 1
                                    && receipt.durable))))))))

unfoldable pub acknowledgement_of : CaptureSourceRangeReceipt → DurableSourceRangeAcknowledgement
acknowledgement_of r = record {
  source_range_receipt_id = r.source_range_receipt_id;
  idempotency_receipt_id = r.idempotency_receipt_id;
  source_object_id = r.source_object_id;
  source_revision_key = r.source_revision_key;
  file_identity_key = r.file_identity_key;
  payload_sha256 = r.payload_sha256;
  byte_start = r.byte_start;
  byte_end_exclusive = r.byte_end_exclusive;
  checkpoint_key = r.checkpoint_key;
  checkpoint_sequence = r.checkpoint_sequence;
  authority_principal_id = r.authority_principal_id;
  already_exists = r.already_exists;
  replayed = r.replayed;
}

-- The cursor after an accepted receipt.
unfoldable pub advance :
    RawSourceCursorState → FileIdentity → CaptureSourceRangeReceipt → RawSourceCursorState
unfolding acknowledgement_of
advance state file receipt = record {
  capability_id = state.capability_id;
  revision = state.revision + 1;
  file_identity = some file;
  acknowledged_byte_offset = receipt.byte_end_exclusive;
  checkpoint_sequence = receipt.checkpoint_sequence;
  last_acknowledgement = some (acknowledgement_of receipt);
}

unfoldable pub captured_result :
    RawSourceCursorState → ℕ → CaptureSourceRangeReceipt → RawSourceCaptureResult
captured_result next_state observed_size receipt = record {
  status = RawSourceCaptureStatus.captured;
  acknowledged_byte_offset = next_state.acknowledged_byte_offset;
  checkpoint_sequence = next_state.checkpoint_sequence;
  observed_size = observed_size;
  diagnostic_code = none;
  receipt = some receipt;
}

unfoldable pub arguments :
    RawSourceCaptureLoop → RawSourceCursorState → FileIdentity → HostReadResponse → RangeArguments
arguments self state file response = record {
  binding = self.binding;
  capability_id = self.capability_id;
  connector_id = self.connector_id;
  observed_connector_version = self.observed_connector_version;
  capture_surface = self.capture_surface;
  source_revision_key = self.source_revision_key;
  file_identity = file;
  observed_source_format_version = self.observed_source_format_version;
  byte_start = response.start_offset;
  checkpoint_key = self.checkpoint_key;
  expected_checkpoint_sequence = state.checkpoint_sequence;
  policies = self.policies;
}

unfoldable pub request_of : RawSourceCaptureLoop → RawSourceCursorState → Uuid → HostReadRequest
request_of self state request_id = record {
  request_id = request_id;
  capability_id = self.capability_id;
  capability_credential = self.capability_credential;
  expected_identity = state.file_identity;
  byte_offset = state.acknowledged_byte_offset;
  max_bytes = self.read_size;
}

-- `self._cursor_store.load(…) or RawSourceCursorState.initial(…)`
unfoldable pub start_state :
    RawSourceCaptureLoop → Option RawSourceCursorState → Result RawSourceCursorState
start_state self none =
    let state = initial self.capability_id self.initial_byte_offset in
    checked (validate_cursor state) state
start_state self (some state) = ok state

abbrev pub moved : Option FileIdentity → FileIdentity → Bool
moved none file = false
moved (some known) file = not (known == file)

abbrev pub reported : RawSourceCaptureResult → Result RawSourceCaptureResult
reported r = checked (validate_result r) r

-- The result after the last transaction of the budget.
unfoldable pub paused_after : RawSourceCaptureResult → RawSourceCaptureResult
paused_after last = record {
  status = RawSourceCaptureStatus.paused;
  acknowledged_byte_offset = last.acknowledged_byte_offset;
  checkpoint_sequence = last.checkpoint_sequence;
  observed_size = last.observed_size;
  diagnostic_code = some "source-range.transaction-budget-reached";
  receipt = none;
}

module _ (py : Runtime) (model_dump : CaptureSourceRangeCommand → Json) {W : Type 0}
    (ports : Ports W) where
  open ports use {uuid4, read, capture, load, commit}

  -- Submit the command, take its receipt and move the cursor.
  unfoldable pub submit :
      RawSourceCaptureLoop
      → Datetime
      → RawSourceCursorState
      → FileIdentity
      → ℕ
      → CaptureSourceRangeCommand
      → Exec W RawSourceCaptureResult
  unfolding binds acknowledgement_of advance captured_result
  submit self recorded_at state file observed_size command = do
    receipt ← capture command recorded_at
    lift (
        check (
          require (binds self state file command receipt)
            "raw-source durable receipt does not bind its request"
          ∷ []))
    lift (validate_acknowledgement (acknowledgement_of receipt))
    let next_state = advance state file receipt
    lift (validate_cursor next_state)
    commit state.revision next_state
    lift (reported (captured_result next_state observed_size receipt))

  -- The bytes of a response from the cursor's own file become a command.
  unfoldable pub capture_bytes :
      RawSourceCaptureLoop
      → Datetime
      → RawSourceCursorState
      → HostReadResponse
      → FileIdentity
      → Exec W RawSourceCaptureResult
  unfolding arguments submit
  capture_bytes self recorded_at state response file = do
    bytes ← lift (response_data py response)
    command ← lift (
        build_capture_source_range_command py model_dump (arguments self state file response)
          chunk_max_bytes bytes)
    submit self recorded_at state file response.observed_size command

  -- A response with bytes, from a file that is known.
  unfoldable pub take_bytes :
      RawSourceCaptureLoop
      → Datetime
      → RawSourceCursorState
      → HostReadResponse
      → FileIdentity
      → Exec W RawSourceCaptureResult
  unfolding unchanged capture_bytes
  take_bytes self recorded_at state response file =
      if moved state.file_identity file
      then lift (
          reported (
            unchanged state RawSourceCaptureStatus.identity_changed response.observed_size
              (some "host.identity-changed")))
      else capture_bytes self recorded_at state response file

  unfoldable pub data_response :
      RawSourceCaptureLoop
      → Datetime
      → RawSourceCursorState
      → HostReadResponse
      → Option FileIdentity
      → Exec W RawSourceCaptureResult
  unfolding take_bytes
  data_response self recorded_at state response none = raise assertion_error
  data_response self recorded_at state response (some file) =
      take_bytes self recorded_at state response file

  unfoldable pub handle_status :
      HostReadStatus
      → RawSourceCaptureLoop
      → Datetime
      → RawSourceCursorState
      → HostReadResponse
      → Exec W RawSourceCaptureResult
  unfolding data_response failure_status unchanged
  handle_status HostReadStatus.end_of_file self recorded_at state response =
      lift
        (reported (unchanged state RawSourceCaptureStatus.end_of_file response.observed_size none))
  handle_status HostReadStatus.data_read self recorded_at state response =
      data_response self recorded_at state response response.file_identity
  handle_status status self recorded_at state response = lift (
      reported
        (unchanged state (failure_status status) response.observed_size response.diagnostic_code))

  unfoldable pub handle_response :
      RawSourceCaptureLoop
      → Datetime
      → RawSourceCursorState
      → HostReadRequest
      → HostReadResponse
      → Exec W RawSourceCaptureResult
  unfolding handle_status
  handle_response self recorded_at state request response = do
    lift (
        check (
          require (response.request_id == request.request_id)
            "raw-source host response request identity mismatch"
          ∷ require (response.start_offset == request.byte_offset)
              "raw-source host response byte offset mismatch"
          ∷ []))
    handle_status response.status self recorded_at state response

  unfoldable pub run_once : RawSourceCaptureLoop → Datetime → Exec W RawSourceCaptureResult
  unfolding start_state request_of handle_response
  run_once self recorded_at = do
    lift (
        check (require recorded_at.has_tzinfo "raw-source recorded_at must be timezone-aware" ∷ []))
    loaded ← load self.capability_id
    state ← lift (start_state self loaded)
    request_id ← uuid4
    let request = request_of self state request_id
    lift (validate_request request)
    response ← read request
    handle_response self recorded_at state request response

  -- After a result that captured a range the loop goes on; after any other it returns.
  unfoldable pub keep_going :
      Bool
      → RawSourceCaptureResult
      → Exec W (List RawSourceCaptureResult)
      → Exec W (List RawSourceCaptureResult)
  keep_going true result next = do rest ← next; pure (result ∷ rest)
  keep_going false result next = pure (result ∷ [])

  -- The `for` loop with `left` rounds to go, and what follows it; `last` is `results[-1]`.
  unfoldable pub rounds :
      RawSourceCaptureLoop
      → Datetime
      → ℕ
      → Option RawSourceCaptureResult
      → Exec W (List RawSourceCaptureResult)
  unfolding paused_after run_once keep_going
  rounds self recorded_at zero none = raise assertion_error
  rounds self recorded_at zero (some last) = do
    result ← lift (reported (paused_after last))
    pure (result ∷ [])
  rounds self recorded_at (suc left) last = do
    result ← run_once self recorded_at
    keep_going (is_captured result.status) result (rounds self recorded_at left (some result))

  unfoldable pub run_until_pause :
      RawSourceCaptureLoop → Datetime → ℕ → Exec W (List RawSourceCaptureResult)
  unfolding rounds
  run_until_pause self recorded_at max_transactions = do
    lift (
        check (
          require (leb 1 max_transactions && leb max_transactions 1024)
            "raw-source transaction budget is invalid"
          ∷ []))
    rounds self recorded_at max_transactions none
