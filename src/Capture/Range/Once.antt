-- ===== src/Capture/Range/Once.antt =====
-- One transaction of the raw capture loop: what a result of `run_once` says of the ports.
use memoriesql.Prelude.{
  ℕ, ◌+◌, ◌≡◌, refl, ◌⊎◌, inl, inr, true, false, Option, none, some, ok, check-ok, checked,
  checked-eq-ok, arith, Bool-cases, nat_eq, string_eq, tests, ap, String, List,
}
use memoriesql.Contracts.Runtime.{Runtime, Json}
use memoriesql.Contracts.Exec.{lift, raise, >>=-eq-ok, lift-eq-ok, lift->>=-eq-ok}
use memoriesql.Capture.Host.{
  Datetime, FileIdentity, HostReadStatus, HostReadRequest, HostReadResponse, response_data,
}
use memoriesql.Capture.Range.Command.{CaptureSourceRangeCommand, validate_command, chunk_max_bytes}
use memoriesql.Capture.Range.Build.{assemble, build_capture_source_range_command}
use memoriesql.Capture.Range.Sound.{build-eq-ok}
use memoriesql.Capture.Range.Cursor.{
  RawSourceCaptureStatus, CaptureSourceRangeReceipt, RawSourceCursorState, validate_cursor,
  RawSourceCaptureResult, is_captured, validate_result,
}
use memoriesql.Capture.Range.Loop.{
  Ports, RawSourceCaptureLoop, start_state, request_of, binds, advance, captured_result, unchanged,
  failure_status, arguments, moved, submit, capture_bytes, take_bytes, data_response, handle_status,
  handle_response, run_once,
}

module _ (py : Runtime) (model_dump : CaptureSourceRangeCommand → Json) {W : Type 0}
    (ports : Ports W) (self : RawSourceCaptureLoop) (recorded_at : Datetime) where
  -- From `w`, the transaction submitted a valid command, built of the bytes of the response, got a receipt that binds it, and in the
  -- world that this left it committed the cursor moved from the range's start to its end, its last
  -- call.
  pub record Advanced (state : RawSourceCursorState) (response : HostReadResponse)
      (r : RawSourceCaptureResult) (w w' : W) : Type 0 where
    pub file : FileIdentity
    pub command : CaptureSourceRangeCommand
    pub receipt : CaptureSourceRangeReceipt
    pub before_commit : W
    pub bytes : List ℕ
    pub was_read : response_data py response ≡ ok bytes
    pub built :
        build_capture_source_range_command py model_dump
          (arguments self state file response)
          chunk_max_bytes
          bytes
        ≡ ok command
    pub status : r.status ≡ RawSourceCaptureStatus.captured
    pub valid : validate_command py model_dump command ≡ ok tt
    pub start : command.byte_start ≡ state.acknowledged_byte_offset
    pub submitted : ports.capture command recorded_at w ≡ (ok receipt, before_commit)
    pub bound : binds self state file command receipt ≡ true
    pub cursor_valid : validate_cursor (advance state file receipt) ≡ ok tt
    pub committed :
        ports.commit state.revision (advance state file receipt) before_commit ≡ (ok tt, w')
    pub reported : r.receipt ≡ some receipt
    pub offset : r.acknowledged_byte_offset ≡ command.byte_end_exclusive
    pub sequence : r.checkpoint_sequence ≡ state.checkpoint_sequence + 1

  -- The transaction only read: the world is as the host reader left it.
  pub record Idle (state : RawSourceCursorState) (r : RawSourceCaptureResult) (w' : W)
      : Type 0 where
    pub not_captured : is_captured r.status ≡ false
    pub no_receipt : r.receipt ≡ none
    pub offset : r.acknowledged_byte_offset ≡ state.acknowledged_byte_offset
    pub sequence : r.checkpoint_sequence ≡ state.checkpoint_sequence

  unchanged-Idle :
      (state : RawSourceCursorState) (status : RawSourceCaptureStatus) (size : ℕ)
      (code : Option String) {r : RawSourceCaptureResult} {w w' : W}
      → is_captured status ≡ false
      → lift
          (checked
            (validate_result (unchanged state status size code))
            (unchanged state status size code))
          w
        ≡ (ok r, w')
      → Idle state r w' × (w ≡ w')
  unfolding unchanged
  unchanged-Idle state status size code {r} {w} {w'} n h =
      let (e, same) = lift-eq-ok _ h in
      let (_, is_r) = checked-eq-ok _ _ e in
      (
        record {
          not_captured = rw (← is_r) n;
          no_receipt = rw (← is_r);
          offset = rw (← is_r);
          sequence = rw (← is_r);
        },
        same,
      )

  pub binds-eqs :
      (state : RawSourceCursorState) (file : FileIdentity) (command : CaptureSourceRangeCommand)
      (receipt : CaptureSourceRangeReceipt)
      → binds self state file command receipt ≡ true
      → (receipt.byte_start ≡ command.byte_start)
        × (receipt.byte_end_exclusive ≡ command.byte_end_exclusive)
        × (receipt.checkpoint_sequence ≡ state.checkpoint_sequence + 1)
  unfolding binds
  binds-eqs state file command receipt h = ground arith

  submit-Advanced :
      (state : RawSourceCursorState) (response : HostReadResponse) (file : FileIdentity) (size : ℕ)
      (bytes : List ℕ) (command : CaptureSourceRangeCommand) {r : RawSourceCaptureResult} (w w' : W)
      → response_data py response ≡ ok bytes
      → build_capture_source_range_command py model_dump
          (arguments self state file response)
          chunk_max_bytes
          bytes
        ≡ ok command
      → validate_command py model_dump command ≡ ok tt
      → command.byte_start ≡ state.acknowledged_byte_offset
      → submit py model_dump ports self recorded_at state file size command w ≡ (ok r, w')
      → Advanced state response r w w'
  unfolding submit advance captured_result
  submit-Advanced state response file size bytes command {r} w w' was_read built valid start h =
      let (receipt, w1, captured, h1) = >>=-eq-ok _ _ h in
      let (_, bound, h2) = lift->>=-eq-ok _ _ h1 in
      let (_, _, h3) = lift->>=-eq-ok _ _ h2 in
      let (_, cursor, h4) = lift->>=-eq-ok _ _ h3 in
      let (_, w2, committed, h5) = >>=-eq-ok _ _ h4 in
      let (report, same) = lift-eq-ok _ h5 in
      let (_, is_r) = checked-eq-ok _ _ report in
      let (bound_true, _) = check-ok _ bound in
      let (_, end_eq, sequence_eq) = binds-eqs state file command receipt bound_true in
      record {
        file = file;
        command = command;
        receipt = receipt;
        before_commit = w1;
        bytes = bytes;
        was_read = was_read;
        built = built;
        status = rw (← is_r);
        valid = valid;
        start = start;
        submitted = captured;
        bound = bound_true;
        cursor_valid = cursor;
        committed = rw (← same) committed;
        reported = rw (← is_r);
        offset = rw (← is_r) end_eq;
        sequence = rw (← is_r) sequence_eq;
      }

  -- What the host read, and what came of it: `w` is the world after the read.
  abbrev pub Handled :
      RawSourceCursorState → HostReadResponse → RawSourceCaptureResult → W → W → Type 0
  Handled state response r w w' = (Idle state r w' × (w ≡ w')) ⊎ Advanced state response r w w'

  capture_bytes-Advanced :
      (state : RawSourceCursorState) (response : HostReadResponse) (file : FileIdentity)
      {r : RawSourceCaptureResult} (w w' : W)
      → response.start_offset ≡ state.acknowledged_byte_offset
      → capture_bytes py model_dump ports self recorded_at state response file w ≡ (ok r, w')
      → Advanced state response r w w'
  unfolding capture_bytes
  capture_bytes-Advanced state response file w w' start h =
      let (bytes, was_read, h1) = lift->>=-eq-ok _ _ h in
      let (command, built, h2) = lift->>=-eq-ok _ _ h1 in
      let (assembled, valid) = build-eq-ok py model_dump _ _ _ built in
      submit-Advanced state response file response.observed_size bytes command w w' was_read built
        valid (rw (← assembled) (unfold assemble arguments in start)) h2

  take_bytes-Handled :
      (state : RawSourceCursorState) (response : HostReadResponse) (file : FileIdentity)
      {r : RawSourceCaptureResult} (w w' : W)
      → response.start_offset ≡ state.acknowledged_byte_offset
      → take_bytes py model_dump ports self recorded_at state response file w ≡ (ok r, w')
      → Handled state response r w w'
  unfolding take_bytes
  take_bytes-Handled state response file w w' start h =
      elim (Bool-cases (moved state.file_identity file)) [
        | inl other ↦ inl (
            unchanged-Idle state RawSourceCaptureStatus.identity_changed response.observed_size
              (some "host.identity-changed") refl (rw other at h))
        | inr same ↦ inr (capture_bytes-Advanced state response file w w' start (rw same at h))
      ]

  data_response-Handled :
      (state : RawSourceCursorState) (response : HostReadResponse) (file : Option FileIdentity)
      {r : RawSourceCaptureResult} (w w' : W)
      → response.start_offset ≡ state.acknowledged_byte_offset
      → data_response py model_dump ports self recorded_at state response file w ≡ (ok r, w')
      → Handled state response r w w'
  unfolding data_response raise
  data_response-Handled state response none w w' start h = absurd (cc (ap (λ p. p.0) h))
  data_response-Handled state response (some file) w w' start h =
      take_bytes-Handled state response file w w' start h

  failure_status-not_captured :
      (status : HostReadStatus) → is_captured (failure_status status) ≡ false
  unfolding failure_status
  failure_status-not_captured status = ground arith

  handle_status-Handled :
      (status : HostReadStatus) (state : RawSourceCursorState) (response : HostReadResponse)
      {r : RawSourceCaptureResult} (w w' : W)
      → response.start_offset ≡ state.acknowledged_byte_offset
      → handle_status py model_dump ports status self recorded_at state response w ≡ (ok r, w')
      → Handled state response r w w'
  unfolding handle_status
  handle_status-Handled HostReadStatus.data_read state response w w' start h =
      data_response-Handled state response response.file_identity w w' start h
  handle_status-Handled HostReadStatus.end_of_file state response w w' start h =
      inl (unchanged-Idle state _ _ _ refl h)
  handle_status-Handled status state response w w' start h =
      inl (unchanged-Idle state _ _ _ (failure_status-not_captured status) h)

  handle_response-Handled :
      (state : RawSourceCursorState) (request : HostReadRequest) (response : HostReadResponse)
      {r : RawSourceCaptureResult} (w w' : W)
      → request.byte_offset ≡ state.acknowledged_byte_offset
      → handle_response py model_dump ports self recorded_at state request response w ≡ (ok r, w')
      → Handled state response r w w'
  unfolding handle_response
  handle_response-Handled state request response w w' start h =
      let (_, answers, h1) = lift->>=-eq-ok _ _ h in
      let (_, (offset, _)) = check-ok _ answers in
      handle_status-Handled response.status state response w w' (omega (tests, offset)) h1

  -- Where a transaction starts and what it does: the cursor that was loaded, or a new one, is asked
  -- for at its offset, and the answer is handled.
  pub record Ran (r : RawSourceCaptureResult) (w w' : W) : Type 0 where
    pub loaded : Option RawSourceCursorState
    pub state : RawSourceCursorState
    pub request : HostReadRequest
    pub response : HostReadResponse
    pub after_load : W
    pub before_read : W
    pub after_read : W
    pub load : ports.load self.capability_id w ≡ (ok loaded, after_load)
    pub started : start_state self loaded ≡ ok state
    pub named : (u : ℕ) × (ports.uuid4 after_load ≡ (ok u, before_read))
    pub at_cursor : request.byte_offset ≡ state.acknowledged_byte_offset
    pub read : ports.read request before_read ≡ (ok response, after_read)
    pub handled : Handled state response r after_read w'

  -- A transaction that ends with a result loaded the cursor, drew a request identity and read at the
  -- cursor, each call in the world that the one before left. In the world after the read it then
  -- either submitted a valid command, built of the bytes of the response, that starts at the cursor,
  -- got a receipt that binds it, and next committed the cursor moved to the command's end, and the
  -- world at the end is as this commit left it; or the world at the end is the one after the read,
  -- and the result reports no capture and the offset and sequence of the cursor.
  pub run_once-Ran :
      {r : RawSourceCaptureResult} (w w' : W)
      → run_once py model_dump ports self recorded_at w ≡ (ok r, w')
      → Ran r w w'
  unfolding run_once request_of
  run_once-Ran w w' h =
      let (_, _, h1) = lift->>=-eq-ok _ _ h in
      let (loaded, w1, load, h2) = >>=-eq-ok _ _ h1 in
      let (state, started, h3) = lift->>=-eq-ok _ _ h2 in
      let (u, w2, named, h4) = >>=-eq-ok _ _ h3 in
      let (_, _, h5) = lift->>=-eq-ok _ _ h4 in
      let (response, w3, read, h6) = >>=-eq-ok _ _ h5 in
      record {
        loaded = loaded;
        state = state;
        request = request_of self state u;
        response = response;
        after_load = w1;
        before_read = w2;
        after_read = w3;
        load = load;
        started = started;
        named = (u, named);
        at_cursor = refl;
        read = read;
        handled = handle_response-Handled state (request_of self state u) response w3 w' refl h6;
      }
