-- ===== src/Capture/Fold/Migrate.antt =====
-- `_migrate_legacy_cursor` of transcript_fold.py: the bytes that a legacy cursor acknowledged are
-- folded in chunks of complete lines, and a fold cursor takes its place.
use memoriesql.Prelude.{
  ℕ, zero, suc, ◌+◌, min, String, Bool, true, false, not, Option, none, some, List, [], ◌∷◌, eqb,
  leb, ltb, option_eq, nat_eq, string_eq, ◌==◌, value_error, assertion_error, Result, ok, err,
  check, require, if◌then◌else◌,
}
use memoriesql.Contracts.Runtime.{Json, Runtime, canonical_sha256}
use memoriesql.Contracts.Exec.{Exec, pure, raise, lift, ◌>>=◌, ◌>>◌}
use memoriesql.Capture.Host.{Uuid, Datetime, FileIdentity, file_eq}
use memoriesql.Capture.Fold.Frame.{newline, ends_with}
use memoriesql.Capture.Fold.Source.{DurableTranscriptRead, read_payload}
use memoriesql.Capture.Fold.Exact.{read_exact}
use memoriesql.Capture.Fold.Outcome.{
  Envelopes, TranscriptFoldOutcome, policy_outcome, validate_outcome,
}
use memoriesql.Capture.Fold.Command.{LegacyAdapterCursorBinding, validate_legacy_cursor}
use memoriesql.Capture.Fold.Commit.{FoldArguments, Dumps, build_transcript_fold_command}
use memoriesql.Capture.Fold.Cursor.{
  HostCaptureState, CommitTranscriptFoldReceipt, fold_acknowledgement, TranscriptFoldCursorState,
}
use memoriesql.Capture.Fold.State.{validate_fold_cursor, receipt_binds}
use memoriesql.Capture.Fold.Sealed.{FoldLoop, FoldPorts, source_of}

abbrev pub migration_chunk_bytes : ℕ
migration_chunk_bytes = 1000000

-- The fields of HostCaptureCursorState of source_adapter.py that the migration reads.
pub record HostCaptureCursorState : Type 0 where
  pub cursor_version : ℕ
  pub capability_id : String
  pub revision : ℕ
  pub file_identity : Option FileIdentity
  pub acknowledged_offset : ℕ
  pub acknowledged_record_index : ℕ
  pub checkpoint_sequence : ℕ
  -- pending_assembly_bytes or …_records or …_ranges or partial_tail
  pub has_pending : Bool
  pub extractor_state_base64 : String
  pub extractor_state_sha256 : String
  -- last_acknowledgement.receipt_event_id
  pub last_receipt_event_id : Option Uuid
  -- model_dump(mode="json")
  pub dumped : Json

-- `payload.rfind(b"\n") + 1`
unfoldable pub after_last_newline : List ℕ → ℕ
after_last_newline [] = 0
after_last_newline (b ∷ bytes) =
    let rest = after_last_newline bytes in
    if eqb rest 0 then (if eqb b newline then 1 else 0) else rest + 1

-- `payload.count(b"\n")`
unfoldable pub count_newlines : List ℕ → ℕ
count_newlines [] = 0
count_newlines (b ∷ bytes) =
    let rest = count_newlines bytes in if eqb b newline then rest + 1 else rest

-- The variables of the loop, those that are None before the first round together.
pub record Migrated : Type 0 where
  pub next_offset : ℕ
  pub next_record : ℕ
  pub expected_checkpoint_sequence : ℕ
  pub last : Option (CommitTranscriptFoldReceipt × DurableTranscriptRead)

unfoldable pub known_file : DurableTranscriptRead → Result FileIdentity
known_file read = of read.file_identity
  where
    of : Option FileIdentity → Result FileIdentity
    of none = err assertion_error
    of (some file) = ok file

unfoldable pub requested_end : HostCaptureCursorState → Migrated → ℕ
requested_end legacy m = min legacy.acknowledged_offset (m.next_offset + migration_chunk_bytes)

-- `legacy_cursor=legacy_binding if next_offset == 0 else None`
abbrev pub first_only : ℕ → LegacyAdapterCursorBinding → Option LegacyAdapterCursorBinding
first_only zero binding = some binding
first_only (suc n) binding = none

module _ (py : Runtime) where
  unfoldable pub legacy_binding_of : HostCaptureCursorState → LegacyAdapterCursorBinding
  unfolding canonical_sha256
  legacy_binding_of legacy = record {
    cursor_version = legacy.cursor_version;
    cursor_sha256 = canonical_sha256 py legacy.dumped;
    acknowledged_byte_offset = legacy.acknowledged_offset;
    acknowledged_record_index = legacy.acknowledged_record_index;
    checkpoint_sequence = legacy.checkpoint_sequence;
    last_receipt_event_id = legacy.last_receipt_event_id;
  }

  -- The cursor of a legacy cursor that acknowledged nothing.
  unfoldable pub unstarted_state : HostCaptureCursorState → TranscriptFoldCursorState
  unstarted_state legacy = record {
    capability_id = legacy.capability_id;
    revision = legacy.revision + 1;
    file_identity = legacy.file_identity;
    acknowledged_offset = 0;
    acknowledged_record_index = 0;
    checkpoint_sequence = 0;
    pending_ranges = [];
    extractor_state_base64 = "";
    extractor_state_sha256 = py.sha256 [];
    pending_tail_byte_count = 0;
    pending_tail_sha256 = py.sha256 [];
    source_state = HostCaptureState.healthy;
    durable_end_offset = legacy.acknowledged_offset;
    diagnostic_code = none;
    last_acknowledgement = none;
  }

  unfoldable pub migrated_state :
      HostCaptureCursorState
      → CommitTranscriptFoldReceipt
      → DurableTranscriptRead
      → TranscriptFoldCursorState
  unfolding fold_acknowledgement
  migrated_state legacy receipt read = record {
    capability_id = legacy.capability_id;
    revision = legacy.revision + 1;
    file_identity = read.file_identity;
    acknowledged_offset = receipt.byte_end_exclusive;
    acknowledged_record_index = receipt.end_record_index;
    checkpoint_sequence = receipt.checkpoint_sequence;
    pending_ranges = [];
    extractor_state_base64 = if not legacy.has_pending then legacy.extractor_state_base64 else "";
    extractor_state_sha256 =
        if not legacy.has_pending then legacy.extractor_state_sha256 else py.sha256 [];
    pending_tail_byte_count = 0;
    pending_tail_sha256 = py.sha256 [];
    source_state = HostCaptureState.healthy;
    durable_end_offset = read.durable_end_offset;
    diagnostic_code = none;
    last_acknowledgement = some (fold_acknowledgement receipt);
  }

unfoldable pub migration_arguments :
    FoldLoop → Option String → DurableTranscriptRead → FileIdentity → ℕ → FoldArguments
migration_arguments self adapter_profile_version read file expected_sequence = record {
  binding = self.binding;
  capability_id = self.capability_id;
  connector_id = self.connector_id;
  adapter_profile_version = adapter_profile_version;
  observed_source_format_version = read.observed_source_format_version;
  source_revision_key = self.source_revision_key;
  file_identity = file;
  checkpoint_key = self.checkpoint_key;
  expected_checkpoint_sequence = expected_sequence;
}

module _ (py : Runtime) (dumps : Dumps) {E : Type 0} (envelopes : Envelopes E) {W : Type 0}
    (ports : FoldPorts W) (self : FoldLoop) (adapter_profile_version : Option String)
    (recorded_at : Datetime) where
  -- The chunk ends after the last newline that was read.
  unfoldable pub complete_lines :
      ℕ → ℕ → DurableTranscriptRead → ℕ → Exec W (ℕ × DurableTranscriptRead)
  unfolding source_of
  complete_lines next_offset asked read zero =
      raise (value_error "legacy adapter cursor record exceeds the migration window")
  complete_lines next_offset asked read (suc n) =
      if eqb (next_offset + suc n) asked
      then pure (next_offset + suc n, read)
      else (read_exact py ports.read (source_of self) next_offset (next_offset + suc n) none
          >>= λ shorter. pure (next_offset + suc n, shorter))

  -- The end of the chunk and the read of it.
  unfoldable pub chunk_end :
      HostCaptureCursorState → Migrated → DurableTranscriptRead → Exec W (ℕ × DurableTranscriptRead)
  unfolding complete_lines requested_end after_last_newline ends_with read_payload
  chunk_end legacy m read =
      if ltb (requested_end legacy m) legacy.acknowledged_offset
      then complete_lines m.next_offset (requested_end legacy m) read
          (after_last_newline (read_payload read))
      else (lift (
            check (
              require (ends_with newline (read_payload read))
                "legacy adapter cursor does not end at a complete record"
              ∷ []))
          >> pure (requested_end legacy m, read))

  unfoldable pub migration_outcome : Migrated → ℕ → DurableTranscriptRead → TranscriptFoldOutcome
  unfolding policy_outcome count_newlines
  migration_outcome m stop read =
      policy_outcome m.next_offset stop m.next_record
        (m.next_record + count_newlines (read_payload read)) read
        "fold.legacy-cursor-receipt-migration" none

  -- One command over the chunk, and its receipt.
  unfoldable pub submit_chunk :
      LegacyAdapterCursorBinding → Migrated → ℕ → DurableTranscriptRead → Exec W Migrated
  unfolding known_file migration_outcome migration_arguments receipt_binds
  submit_chunk binding m stop read = do
    file ← lift (known_file read)
    lift (validate_outcome envelopes (migration_outcome m stop read))
    command ← lift (
        build_transcript_fold_command py dumps envelopes
          (migration_arguments self adapter_profile_version read file
            m.expected_checkpoint_sequence)
          (migration_outcome m stop read ∷ []) (read_payload read)
          (first_only m.next_offset binding))
    receipt ← ports.submit command recorded_at
    lift (
        check (
          require (receipt_binds receipt command)
            "durable transcript fold receipt does not bind its command"
          ∷ []))
    pure (record {
      next_offset = receipt.byte_end_exclusive;
      next_record = receipt.end_record_index;
      expected_checkpoint_sequence = receipt.checkpoint_sequence;
      last = some (receipt, read);
    })

  -- One round of the loop.
  unfoldable pub migrate_chunk :
      HostCaptureCursorState → LegacyAdapterCursorBinding → Migrated → Exec W Migrated
  unfolding chunk_end requested_end submit_chunk source_of known_file count_newlines
  migrate_chunk legacy binding m = do
    read ← read_exact py ports.read (source_of self) m.next_offset (requested_end legacy m) none
    file ← lift (known_file read)
    lift (
        check (
          require (legacy.file_identity == some file) "legacy adapter cursor file identity mismatch"
          ∷ []))
    chunk ← chunk_end legacy m read
    let record_count = count_newlines (read_payload chunk.1)
    lift (
        check (
          require (not (eqb record_count 0)) "legacy adapter cursor migration made no progress"
          ∷ require (leb (m.next_record + record_count) legacy.acknowledged_record_index)
              "legacy adapter cursor record count mismatch"
          ∷ []))
    submit_chunk binding m chunk.0 chunk.1

  abbrev pub while_left :
      Bool → (Migrated → Exec W Migrated) → Exec W Migrated → Migrated → Exec W Migrated
  while_left true next round m = round >>= next
  while_left false next round m = pure m

  -- At most `rounds` rounds of the loop.
  unfoldable pub migrate_chunks :
      ℕ → HostCaptureCursorState → LegacyAdapterCursorBinding → Migrated → Exec W Migrated
  unfolding migrate_chunk
  migrate_chunks zero legacy binding m = pure m
  migrate_chunks (suc rounds) legacy binding m =
      while_left (ltb m.next_offset legacy.acknowledged_offset)
        (migrate_chunks rounds legacy binding) (migrate_chunk legacy binding m) m

  -- What follows the loop.
  unfoldable pub finish_migration :
      HostCaptureCursorState
      → Migrated
      → Option (CommitTranscriptFoldReceipt × DurableTranscriptRead)
      → Exec W TranscriptFoldCursorState
  unfolding migrated_state
  finish_migration legacy m none =
      raise (value_error "legacy adapter cursor migration coverage mismatch")
  finish_migration legacy m (some (receipt, read)) = do
    lift (
        check (
          require (eqb m.next_offset legacy.acknowledged_offset)
            "legacy adapter cursor migration coverage mismatch"
          ∷ require (eqb m.next_record legacy.acknowledged_record_index)
              "legacy adapter cursor migration coverage mismatch"
          ∷ []))
    let migrated = migrated_state py legacy receipt read
    lift (validate_fold_cursor py migrated)
    ports.commit legacy.revision migrated
    pure migrated

  abbrev pub unstarted : HostCaptureCursorState → Migrated
  unstarted legacy = record {
    next_offset = 0;
    next_record = 0;
    expected_checkpoint_sequence = legacy.checkpoint_sequence;
    last = none;
  }

  unfoldable pub migrate_acknowledged :
      ℕ → HostCaptureCursorState → Exec W TranscriptFoldCursorState
  unfolding legacy_binding_of migrate_chunks finish_migration
  migrate_acknowledged rounds legacy = do
    lift (validate_legacy_cursor (legacy_binding_of py legacy))
    m ← migrate_chunks rounds legacy (legacy_binding_of py legacy) (unstarted legacy)
    finish_migration legacy m m.last

  unfoldable pub migrate_unstarted : HostCaptureCursorState → Exec W TranscriptFoldCursorState
  unfolding unstarted_state
  migrate_unstarted legacy = do
    lift (validate_fold_cursor py (unstarted_state py legacy))
    ports.commit legacy.revision (unstarted_state py legacy)
    pure (unstarted_state py legacy)

  -- Every round acknowledges at least one byte more, so as many rounds as there are acknowledged
  -- bytes are enough.
  unfoldable pub migrate_legacy_cursor : HostCaptureCursorState → Exec W TranscriptFoldCursorState
  unfolding migrate_acknowledged migrate_unstarted
  migrate_legacy_cursor legacy = do
    lift (
        check (
          require (legacy.capability_id == self.capability_id)
            "legacy adapter cursor capability mismatch"
          ∷ []))
    (if eqb legacy.acknowledged_offset 0
        then migrate_unstarted legacy
        else migrate_acknowledged legacy.acknowledged_offset legacy)
