-- ===== src/Capture/Fold/Resolve.antt =====
-- The commit at the end of `DurableTranscriptFoldLoop.run_once` of transcript_fold.py: a fallback
-- takes the records that are left, the outcomes become one command, and the cursor follows.
use memoriesql.Prelude.{Bool, Option, none, some, List, [], ◌∷◌, is_some, check, checked, require}
use memoriesql.Contracts.Runtime.{Runtime}
use memoriesql.Contracts.Exec.{Exec, pure, lift, ◌>>=◌, ◌>>◌}
use memoriesql.Capture.Fold.Source.{read_payload}
use memoriesql.Capture.Fold.Exact.{read_exact}
use memoriesql.Capture.Fold.Outcome.{Envelopes, TranscriptFoldOutcome, validate_outcome}
use memoriesql.Capture.Fold.Commit.{FoldArguments, Dumps, last_of, build_transcript_fold_command}
use memoriesql.Capture.Fold.Cursor.{CommitTranscriptFoldReceipt, TranscriptFoldCursorState}
use memoriesql.Capture.Fold.State.{validate_fold_cursor, receipt_binds}
use memoriesql.Capture.Fold.Sealed.{
  TranscriptFoldHealth, FoldLoop, FoldPorts, source_of, health_of, validate_health,
  acknowledged_state,
}
use memoriesql.Capture.Fold.Records.{Fallback, Assembly}
use memoriesql.Capture.Fold.Settle.{
  Framed, last_in, last_record, seal_boundary, fallback_outcome, take_rest, final_state, run_status,
}

-- The arguments of `build_transcript_fold_command` beside the outcomes and their bytes.
unfoldable pub fold_arguments : FoldLoop → Framed → TranscriptFoldCursorState → FoldArguments
fold_arguments self f s = record {
  binding = self.binding;
  capability_id = self.capability_id;
  connector_id = self.connector_id;
  adapter_profile_version = f.adapter_profile_version;
  observed_source_format_version = f.observed_source_format_version;
  source_revision_key = self.source_revision_key;
  file_identity = f.file;
  checkpoint_key = self.checkpoint_key;
  expected_checkpoint_sequence = s.checkpoint_sequence;
}

module _ (py : Runtime) (dumps : Dumps) {E : Type 0} (envelopes : Envelopes E) {W : Type 0}
    (ports : FoldPorts W) (self : FoldLoop) where
  unfoldable pub resolve : Framed → Assembly → Option Fallback → Exec W Assembly
  unfolding last_record fallback_outcome take_rest source_of
  resolve f a none = pure a
  resolve f a (some fallback) = do
    fallback_read ←
        read_exact py ports.read (source_of self) a.outcome_start_offset (last_in f).end_offset none
    let outcome = fallback_outcome self f a fallback_read fallback.code fallback.kind
    lift (validate_outcome envelopes outcome)
    pure (take_rest f a outcome)

  -- One command over the outcomes, `o` the first of them, and its receipt.
  unfoldable pub submit_outcomes :
      Framed
      → TranscriptFoldCursorState
      → TranscriptFoldOutcome
      → List TranscriptFoldOutcome
      → Exec W CommitTranscriptFoldReceipt
  unfolding fold_arguments receipt_binds source_of
  submit_outcomes f s o outcomes = do
    command_read ←
        read_exact py ports.read (source_of self) o.byte_start
          (last_of o outcomes).byte_end_exclusive none
    command ← lift (
        build_transcript_fold_command py dumps envelopes (fold_arguments self f s) (o ∷ outcomes)
          (read_payload command_read) none)
    receipt ← ports.submit command f.recorded_at
    lift (
        check (
          require (receipt_binds receipt command)
            "durable transcript fold receipt does not bind its command"
          ∷ []))
    pure receipt

  -- Commit the last cursor, made of the one at the start and `next`.
  unfoldable pub finish :
      Framed
      → Assembly
      → TranscriptFoldCursorState
      → TranscriptFoldCursorState
      → Option CommitTranscriptFoldReceipt
      → Exec W TranscriptFoldHealth
  unfolding final_state run_status health_of
  finish f a s next receipt = do
    let updated = final_state py f a s next (is_some receipt)
    lift (validate_fold_cursor py updated)
    ports.commit s.revision updated
    let health = health_of updated (run_status updated receipt) receipt
    lift (checked (validate_health health) health)

  unfoldable pub settle_outcomes :
      Framed
      → Assembly
      → TranscriptFoldCursorState
      → List TranscriptFoldOutcome
      → Exec W TranscriptFoldHealth
  unfolding submit_outcomes finish acknowledged_state
  settle_outcomes f a s [] = finish f a s s none
  settle_outcomes f a s (o ∷ outcomes) = do
    receipt ← submit_outcomes f s o outcomes
    let next = acknowledged_state py s f.file f.durable_end_offset receipt
    lift (validate_fold_cursor py next)
    finish f a s next (some receipt)

  -- What follows the loop over the records.
  unfoldable pub settle_run :
      Framed → Bool → TranscriptFoldCursorState → Assembly → Exec W TranscriptFoldHealth
  unfolding seal_boundary resolve settle_outcomes
  settle_run f sealed_read s a = do
    let bounded = seal_boundary f sealed_read a
    resolved ← resolve f bounded bounded.fallback
    settle_outcomes f resolved s resolved.outcomes
