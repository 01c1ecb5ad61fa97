-- ===== src/Capture/Fold/Sealed.antt =====
-- `_commit_sealed_pending_span` of transcript_fold.py: at a sealed end, the pending records become
-- one transcript span. The ports are parameters; `W` is what they keep.
use memoriesql.Prelude.{
  ℕ, ◌-◌, String, Bool, true, false, not, Option, none, some, List, [], ◌∷◌, is_empty, value_error,
  Result, check, checked, require, field, ◌>>=◌ as and_then,
}
use memoriesql.Contracts.Text.{optional, is_key}
use memoriesql.Contracts.Runtime.{Runtime}
use memoriesql.Contracts.Exec.{Exec, raise, lift, ◌>>=◌, ◌>>◌}
use memoriesql.Capture.Host.{Datetime, FileIdentity}
use memoriesql.Capture.Range.Command.{KernelCaptureBinding}
use memoriesql.Capture.Fold.Source.{
  DurableTranscriptReadRequest, DurableTranscriptRead, read_payload,
}
use memoriesql.Capture.Fold.Exact.{FoldSource, read_exact}
use memoriesql.Capture.Fold.Outcome.{
  Envelopes, TranscriptFoldOutcome, span_outcome, validate_outcome, present,
}
use memoriesql.Capture.Fold.Command.{CommitTranscriptFoldCommand}
use memoriesql.Capture.Fold.Commit.{FoldArguments, Dumps, build_transcript_fold_command}
use memoriesql.Capture.Fold.Cursor.{
  HostCaptureState, CommitTranscriptFoldReceipt, validate_fold_receipt, fold_acknowledgement,
  TranscriptFoldCursorState, pending_end_offset, pending_end_record_index,
}
use memoriesql.Capture.Fold.State.{validate_fold_cursor, updated_state, receipt_binds}

pub data TranscriptFoldRunStatus : Type 0 where
  folded end_of_durable_ranges waiting_for_complete_record waiting_for_exact_turn degraded :
      TranscriptFoldRunStatus

pub record TranscriptFoldHealth : Type 0 where
  pub capability_id : String
  pub status : TranscriptFoldRunStatus
  pub acknowledged_offset : ℕ
  pub acknowledged_record_index : ℕ
  pub checkpoint_sequence : ℕ
  pub durable_end_offset : ℕ
  pub pending_complete_record_count : ℕ
  pub pending_tail_byte_count : ℕ
  pub exact_turn_count : ℕ
  pub transcript_span_count : ℕ
  pub policy_disposition_count : ℕ
  pub diagnostic_code : Option String
  pub receipt : Option CommitTranscriptFoldReceipt

-- The fields of the loop that a sealed span uses.
pub record FoldLoop : Type 0 where
  pub binding : KernelCaptureBinding
  pub capability_id : String
  pub checkpoint_key : String
  pub connector_id : String
  pub source_revision_key : String
  pub file_identity_key : String

pub record FoldPorts (W : Type 0) : Type 0 where
  pub read : DurableTranscriptReadRequest → Exec W DurableTranscriptRead
  pub submit : CommitTranscriptFoldCommand → Datetime → Exec W CommitTranscriptFoldReceipt
  pub commit : ℕ → TranscriptFoldCursorState → Exec W (Unit {0})

-- What the loop was called with beside the cursor.
pub record SealedSpan : Type 0 where
  pub pending_tail : List ℕ
  pub durable_end_offset : ℕ
  pub observed_source_format_version : Option String
  pub adapter_profile_version : Option String
  pub recorded_at : Datetime

unfoldable pub source_of : FoldLoop → FoldSource
source_of self = record {
  source_object_id = self.binding.source_object_id;
  source_revision_key = self.source_revision_key;
  file_identity_key = self.file_identity_key;
}

abbrev pub counted : (CommitTranscriptFoldReceipt → ℕ) → Option CommitTranscriptFoldReceipt → ℕ
counted f none = 0
counted f (some r) = f r

-- `_health`
unfoldable pub health_of :
    TranscriptFoldCursorState
    → TranscriptFoldRunStatus
    → Option CommitTranscriptFoldReceipt
    → TranscriptFoldHealth
unfolding pending_end_record_index
health_of s status receipt = record {
  capability_id = s.capability_id;
  status = status;
  acknowledged_offset = s.acknowledged_offset;
  acknowledged_record_index = s.acknowledged_record_index;
  checkpoint_sequence = s.checkpoint_sequence;
  durable_end_offset = s.durable_end_offset;
  pending_complete_record_count = pending_end_record_index s - s.acknowledged_record_index;
  pending_tail_byte_count = s.pending_tail_byte_count;
  exact_turn_count = counted (λ r. r.exact_turn_count) receipt;
  transcript_span_count = counted (λ r. r.transcript_span_count) receipt;
  policy_disposition_count = counted (λ r. r.policy_disposition_count) receipt;
  diagnostic_code = s.diagnostic_code;
  receipt = receipt;
}

unfoldable pub validate_health : TranscriptFoldHealth → Result (Unit {0})
unfolding validate_fold_receipt
validate_health h =
    and_then
      (check (
        field (is_key h.capability_id) "capability_id"
        ∷ field (optional is_key h.diagnostic_code) "diagnostic_code"
        ∷ []))
      (λ _. present validate_fold_receipt h.receipt)

abbrev pub tail_state : Bool → HostCaptureState
tail_state true = HostCaptureState.healthy
tail_state false = HostCaptureState.waiting_for_complete_record

module _ (py : Runtime) where
  -- The cursor at the end of the receipt, with nothing pending.
  unfoldable pub acknowledged_state :
      TranscriptFoldCursorState
      → FileIdentity
      → ℕ
      → CommitTranscriptFoldReceipt
      → TranscriptFoldCursorState
  unfolding fold_acknowledgement
  acknowledged_state s file durable_end_offset receipt = record {
    capability_id = s.capability_id;
    revision = s.revision;
    file_identity = some file;
    acknowledged_offset = receipt.byte_end_exclusive;
    acknowledged_record_index = receipt.end_record_index;
    checkpoint_sequence = receipt.checkpoint_sequence;
    pending_ranges = [];
    extractor_state_base64 = "";
    extractor_state_sha256 = py.sha256 [];
    pending_tail_byte_count = 0;
    pending_tail_sha256 = py.sha256 [];
    source_state = HostCaptureState.healthy;
    durable_end_offset = durable_end_offset;
    diagnostic_code = none;
    last_acknowledgement = some (fold_acknowledgement receipt);
  }

  unfoldable pub sealed_state :
      TranscriptFoldCursorState
      → FileIdentity
      → SealedSpan
      → CommitTranscriptFoldReceipt
      → TranscriptFoldCursorState
  unfolding updated_state acknowledged_state
  sealed_state s file call receipt =
      updated_state py (acknowledged_state s file call.durable_end_offset receipt) file [] []
        call.pending_tail (tail_state (is_empty call.pending_tail)) call.durable_end_offset
        (some "fold.sealed-evidence-boundary") true

unfoldable pub sealed_arguments :
    FoldLoop → TranscriptFoldCursorState → FileIdentity → SealedSpan → FoldArguments
sealed_arguments self s file call = record {
  binding = self.binding;
  capability_id = self.capability_id;
  connector_id = self.connector_id;
  adapter_profile_version = call.adapter_profile_version;
  observed_source_format_version = call.observed_source_format_version;
  source_revision_key = self.source_revision_key;
  file_identity = file;
  checkpoint_key = self.checkpoint_key;
  expected_checkpoint_sequence = s.checkpoint_sequence;
}

unfoldable pub pending_outcome :
    FoldLoop → TranscriptFoldCursorState → DurableTranscriptRead → TranscriptFoldOutcome
unfolding span_outcome pending_end_offset pending_end_record_index
pending_outcome self s read =
    span_outcome self.binding self.source_revision_key self.file_identity_key s.acknowledged_offset
      (pending_end_offset s) s.acknowledged_record_index (pending_end_record_index s) read

module _ (py : Runtime) (dumps : Dumps) {E : Type 0} (envelopes : Envelopes E) {W : Type 0}
    (ports : FoldPorts W) (self : FoldLoop) where
  -- Submit the command, check its receipt and commit the cursor.
  unfoldable pub submit_sealed :
      TranscriptFoldCursorState
      → FileIdentity
      → SealedSpan
      → CommitTranscriptFoldCommand
      → Exec W TranscriptFoldHealth
  unfolding receipt_binds sealed_state health_of
  submit_sealed s file call command = do
    receipt ← ports.submit command call.recorded_at
    lift (
        check (
          require (receipt_binds receipt command)
            "durable transcript fold receipt does not bind its command"
          ∷ []))
    lift (validate_fold_cursor py (acknowledged_state py s file call.durable_end_offset receipt))
    let updated = sealed_state py s file call receipt
    lift (validate_fold_cursor py updated)
    ports.commit s.revision updated
    let health = health_of updated folded (some receipt)
    lift (checked (validate_health health) health)

  unfoldable pub commit_pending :
      TranscriptFoldCursorState → FileIdentity → SealedSpan → Exec W TranscriptFoldHealth
  unfolding submit_sealed pending_outcome sealed_arguments source_of
  commit_pending s file call = do
    lift (
        check (
          require (not (is_empty s.pending_ranges))
            "sealed transcript span requires pending source evidence"
          ∷ []))
    pending_read ←
        read_exact py ports.read (source_of self) s.acknowledged_offset (pending_end_offset s) none
    lift (validate_outcome envelopes (pending_outcome self s pending_read))
    command ← lift (
        build_transcript_fold_command py dumps envelopes (sealed_arguments self s file call)
          (pending_outcome self s pending_read ∷ []) (read_payload pending_read) none)
    submit_sealed s file call command

  unfoldable pub commit_sealed_pending_span :
      TranscriptFoldCursorState → Option FileIdentity → SealedSpan → Exec W TranscriptFoldHealth
  unfolding commit_pending
  commit_sealed_pending_span s none call =
      raise (value_error "sealed transcript span requires pending source evidence")
  commit_sealed_pending_span s (some file) call = commit_pending s file call
