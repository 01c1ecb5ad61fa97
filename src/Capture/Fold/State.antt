-- ===== src/Capture/Fold/State.antt =====
-- The cursor's validator, its update, and the checks of the fold loop on a read and on a receipt.
use memoriesql.Prelude.{
  ℕ, ◌+◌, ◌-◌, ◌≤◌, ◌≡◌, refl, String, Bool, true, false, not, ◌&&◌, ◌||◌, Option, none, some, List,
  [], ◌∷◌, length, is_empty, is_none, is_some, leb, nat_eq, string_eq, ◌==◌, value_error, Result,
  ok, err, check, require, ◌>>=◌, ◌>>◌, check-ok, >>-eq-ok, >>=-eq-ok, arith, tests, ◌<◌,
}
use memoriesql.Contracts.Runtime.{Runtime}
use memoriesql.Capture.Host.{FileIdentity, file_eq}
use memoriesql.Capture.Range.Command.{check_each}
use memoriesql.Capture.Fold.Source.{DurableTranscriptRead}
use memoriesql.Capture.Fold.Exact.{FoldSource}
use memoriesql.Capture.Fold.Outcome.{present}
use memoriesql.Capture.Fold.Command.{CommitTranscriptFoldCommand}
use memoriesql.Capture.Fold.Cursor.{
  HostCaptureState, CommitTranscriptFoldReceipt, validate_fold_acknowledgement,
  TranscriptFoldPendingRange, validate_pending, TranscriptFoldCursorState, follow_pending, end_from,
  record_end_from, pending_end_offset, pending_end_record_index, acknowledges, cursor_fields,
  max_assembly_records, max_state_bytes,
}

abbrev pub is_zero : ℕ → Bool
is_zero n = n == 0

module _ (py : Runtime) where
  open py use {sha256, b64encode, b64decode}

  -- The decoded state of the extractor.
  unfoldable pub extractor_state : Option (List ℕ) → Result (List ℕ)
  extractor_state none = err (value_error "fold extractor state must be canonical base64")
  extractor_state (some state) = ok state

  unfoldable pub state_checks : TranscriptFoldCursorState → List ℕ → Result (Unit {0})
  state_checks s state = check (
      require (leb (length state) max_state_bytes) "fold extractor state exceeds its bound"
      ∷ require (sha256 state == s.extractor_state_sha256)
          "fold extractor state hash must bind its bytes"
      ∷ [])

  -- The checks after the loop over the pending ranges, which ends at `expected_record`.
  unfoldable pub cursor_checks : TranscriptFoldCursorState → List ℕ → ℕ → Result (Unit {0})
  cursor_checks s state expected_record = check (
      require (leb (expected_record - s.acknowledged_record_index) max_assembly_records)
        "pending fold records exceed the adapter SDK bound"
      ∷ require (not (is_zero s.pending_tail_byte_count) || s.pending_tail_sha256 == sha256 [])
          "empty fold tail must use the empty SHA-256"
      ∷ require (leb s.acknowledged_offset s.durable_end_offset)
          "fold cursor cannot exceed retained source bytes"
      ∷ require
          (is_some s.file_identity
            || (is_zero s.acknowledged_offset
                && (is_empty s.pending_ranges
                    && (is_empty state
                        && (is_zero s.pending_tail_byte_count && is_none s.last_acknowledgement)))))
          "fold cursor progress requires file identity"
      ∷ require (acknowledges s s.last_acknowledgement)
          "fold cursor must bind its last durable receipt"
      ∷ [])

  unfoldable pub validate_fold_cursor : TranscriptFoldCursorState → Result (Unit {0})
  unfolding validate_pending validate_fold_acknowledgement cursor_fields extractor_state
      state_checks follow_pending cursor_checks
  validate_fold_cursor s = do
    check_each validate_pending s.pending_ranges
    present validate_fold_acknowledgement s.last_acknowledgement
    cursor_fields s
    state ← extractor_state (b64decode s.extractor_state_base64)
    state_checks s state
    expected ← follow_pending s.acknowledged_offset s.acknowledged_record_index s.pending_ranges
    cursor_checks s state expected.1

  -- `_updated_state`, as it is handed to its validator.
  unfoldable pub updated_state :
      TranscriptFoldCursorState
      → FileIdentity
      → List TranscriptFoldPendingRange
      → List ℕ
      → List ℕ
      → HostCaptureState
      → ℕ
      → Option String
      → Bool
      → TranscriptFoldCursorState
  updated_state s file_identity pending_ranges state pending_tail source_state durable_end_offset
        diagnostic_code keep_acknowledgement =
      record {
        capability_id = s.capability_id;
        revision = s.revision + 1;
        file_identity = some file_identity;
        acknowledged_offset = s.acknowledged_offset;
        acknowledged_record_index = s.acknowledged_record_index;
        checkpoint_sequence = s.checkpoint_sequence;
        pending_ranges = pending_ranges;
        extractor_state_base64 = b64encode state;
        extractor_state_sha256 = sha256 state;
        pending_tail_byte_count = length pending_tail;
        pending_tail_sha256 = sha256 pending_tail;
        source_state = source_state;
        durable_end_offset = durable_end_offset;
        diagnostic_code = diagnostic_code;
        last_acknowledgement = elim keep_acknowledgement [
          | true ↦ s.last_acknowledgement
          | false ↦ none
        ];
      }

abbrev pub same_file : Option FileIdentity → Option FileIdentity → Bool
same_file (some known) (some file) = file == known
same_file _ _ = true

-- `_validate_read`
unfoldable pub validate_read :
    FoldSource → DurableTranscriptRead → TranscriptFoldCursorState → Result (Unit {0})
unfolding pending_end_offset
validate_read self read s = check (
    require (read.source_object_id == self.source_object_id) "durable fold source object mismatch"
    ∷ require (read.source_revision_key == self.source_revision_key)
        "durable fold source revision mismatch"
    ∷ require (read.file_identity_key == self.file_identity_key)
        "durable fold file identity key mismatch"
    ∷ require (read.byte_start == pending_end_offset s)
        "durable fold source read is not cursor contiguous"
    ∷ require (same_file s.file_identity read.file_identity) "durable fold source identity changed"
    ∷ [])

-- `_validate_receipt`
unfoldable pub receipt_binds : CommitTranscriptFoldReceipt → CommitTranscriptFoldCommand → Bool
receipt_binds r c =
    r.source_object_id == c.binding.source_object_id
    && (r.source_revision_key == c.source_revision_key
        && (r.file_identity_key == c.file_identity_key
            && (r.byte_start == c.byte_start
                && (r.byte_end_exclusive == c.byte_end_exclusive
                    && (r.start_record_index == c.start_record_index
                        && (r.end_record_index == c.end_record_index
                            && (r.source_bytes_sha256 == c.source_bytes_sha256
                                && (r.outcomes_sha256 == c.outcomes_sha256
                                    && (r.checkpoint_key == c.checkpoint.checkpoint_key
                                        && (r.checkpoint_sequence == c.checkpoint.next_sequence
                                            && r.durable))))))))))

-- Pending ranges that follow one another in bytes and in records.
abbrev pub Pending : ℕ → ℕ → ℕ → ℕ → List TranscriptFoldPendingRange → Type 0
Pending byte index last_byte last_index [] = (byte ≡ last_byte) × (index ≡ last_index)
Pending byte index last_byte last_index (p ∷ ranges) =
    (p.byte_start ≡ byte)
    × (p.start_record_index ≡ index)
    × (p.byte_start < p.byte_end_exclusive)
    × (p.start_record_index < p.end_record_index)
    × Pending p.byte_end_exclusive p.end_record_index last_byte last_index ranges

follow_pending-cons :
    (byte index : ℕ) (p : TranscriptFoldPendingRange) (ranges : List TranscriptFoldPendingRange)
    (last : ℕ × ℕ)
    → follow_pending byte index (p ∷ ranges) ≡ ok last
    → (p.byte_start ≡ byte)
      × (p.start_record_index ≡ index)
      × (follow_pending p.byte_end_exclusive p.end_record_index ranges ≡ ok last)
unfolding follow_pending
follow_pending-cons byte index p ranges last h = ground (arith, h)

-- The loop ends where the last pending range ends.
follow_pending-Pending :
    (byte index : ℕ) (ranges : List TranscriptFoldPendingRange) (last : ℕ × ℕ)
    → check_each validate_pending ranges ≡ ok tt
    → follow_pending byte index ranges ≡ ok last
    → Pending byte index (end_from byte ranges) (record_end_from index ranges) ranges
      × (record_end_from index ranges ≡ last.1)
unfolding end_from record_end_from check_each validate_pending
follow_pending-Pending byte index [] last valid h = ((refl, refl), unfold follow_pending in cc h)
follow_pending-Pending byte index (p ∷ ranges) last valid h =
    let (first, rest) = >>-eq-ok (validate_pending p) _ valid in
    let (_, (_, (_, (forward, (records, _))))) = check-ok _ first in
    let (start, numbered, further) = follow_pending-cons byte index p ranges last h in
    let (ih, stop) =
      follow_pending-Pending p.byte_end_exclusive p.end_record_index ranges last rest further in
    ((start, numbered, omega (tests, forward), omega (tests, records), ih), stop)

module _ (py : Runtime) where
  -- The pending ranges of a valid cursor follow one another from the acknowledged position to the
  -- pending end, in bytes and in records, with at most 4,096 records among them, and the
  -- acknowledged bytes are retained.
  pub validate_fold_cursor-Pending :
      (s : TranscriptFoldCursorState)
      → validate_fold_cursor py s ≡ ok tt
      → Pending s.acknowledged_offset s.acknowledged_record_index
          (pending_end_offset s)
          (pending_end_record_index s)
          s.pending_ranges
        × (pending_end_record_index s ≤ s.acknowledged_record_index + max_assembly_records)
        × (s.acknowledged_offset ≤ s.durable_end_offset)
  unfolding validate_fold_cursor cursor_checks pending_end_offset pending_end_record_index
  validate_fold_cursor-Pending s h =
      let (each, h1) = >>-eq-ok (check_each validate_pending s.pending_ranges) _ h in
      let (_, h2) = >>-eq-ok (present validate_fold_acknowledgement s.last_acknowledgement) _ h1 in
      let (_, h3) = >>-eq-ok (cursor_fields s) _ h2 in
      let (state, _, h4) =
        >>=-eq-ok (extractor_state py (py.b64decode s.extractor_state_base64)) _ h3 in
      let (_, h5) = >>-eq-ok (state_checks py s state) _ h4 in
      let (last, follow, h6) =
        >>=-eq-ok
          (follow_pending s.acknowledged_offset s.acknowledged_record_index s.pending_ranges) _
          h5 in
      let (few, (_, (retained, _))) = check-ok _ h6 in
      let (pending, stop) =
        follow_pending-Pending s.acknowledged_offset s.acknowledged_record_index s.pending_ranges
          last each follow in
      (pending, omega (tests, few, stop), omega (tests, retained))
