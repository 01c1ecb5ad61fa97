-- ===== src/Capture/Fold/Stuck.antt =====
-- A cursor that holds 128 pending ranges, under `run_once` of transcript_fold.py.
use memoriesql.Prelude.{
  ℕ, ◌+◌, ◌≤◌, ◌≡◌, refl, sym, ap, subst, ◌∙◌, String, true, false, none, some, List, [], ◌∷◌,
  length, Error, ok, err, ltb, Holds-ok, ◌&◌, arith,
}
use memoriesql.Contracts.Runtime.{Runtime}
use memoriesql.Contracts.Exec.{Exec, pure, ok->>=, lift-ok->>=}
use memoriesql.Capture.Host.{Datetime, FileIdentity}
use memoriesql.Capture.Fold.Frame.{FramedSourceRecord, frame_complete_records}
use memoriesql.Capture.Fold.Source.{
  data_status, DurableTranscriptRead, validate_read_request, read_payload,
}
use memoriesql.Capture.Fold.Exact.{FoldSource}
use memoriesql.Capture.Fold.Outcome.{Envelopes}
use memoriesql.Capture.Fold.Commit.{Dumps}
use memoriesql.Capture.Fold.Cursor.{
  max_pending_ranges, max_state_bytes, TranscriptFoldCursorState, pending_end_record_index,
}
use memoriesql.Capture.Fold.State.{extractor_state, validate_read}
use memoriesql.Capture.Fold.Sealed.{FoldPorts, source_of}
use memoriesql.Capture.Fold.Adapter.{stepped, QualifiedTranscriptFoldAdapter, qualified_adapter}
use memoriesql.Capture.Fold.Records.{
  Assembly, exceeded, consume, visit_record, within_limits, take_step, finalized_step, go_on,
  assemble_records,
}
use memoriesql.Capture.Fold.Resolve.{settle_run}
use memoriesql.Capture.Fold.Bounded.{settle_run-Refused}
use memoriesql.Capture.Fold.Run.{
  DurableTranscriptFoldLoop, StoredCursor, fold_cursor, is_sealed_read, unassembled, framed_read,
  run_request, assemble_turns, run_on_records, run_on_data, run_on_read, run_from, cursor_of,
  run_once,
}

-- The adapter takes every record, within its limits, and ends no turn with any.
abbrev pub TakesAll :
    {T E : Type 0}
    → QualifiedTranscriptFoldAdapter T E
    → Assembly
    → ℕ
    → List FramedSourceRecord
    → Type 0
TakesAll adapter a index [] = Unit
TakesAll adapter a index (r ∷ records) =
    (exceeded adapter a r ≡ none)
    × ((state : List ℕ) × (adapter.advance r a.assembly_state ≡ stepped state none)
        × (ltb max_state_bytes (length state) ≡ false)
        × TakesAll adapter (consume a index state) (index + 1) records)

-- No outcome yet, and no reason for one.
record Open (a : Assembly) (index : ℕ) : Type 0 where
  none' : a.outcomes ≡ []
  unbroken : a.fallback ≡ none
  consumed : a.consumed_record_count ≡ index

module _ (py : Runtime) {T E : Type 0} (envelopes : Envelopes E)
    (adapter : QualifiedTranscriptFoldAdapter T E) {W : Type 0} (ports : FoldPorts W)
    (self : FoldSource) (file : FileIdentity) (recorded_at : Datetime) where
  visit_record-taken :
      (a : Assembly) (index : ℕ) (r : FramedSourceRecord) (state : List ℕ) (w : W)
      → a.outcomes ≡ []
      → exceeded adapter a r ≡ none
      → adapter.advance r a.assembly_state ≡ stepped state none
      → ltb max_state_bytes (length state) ≡ false
      → visit_record py envelopes adapter ports.read self file recorded_at a index r w
        ≡ (ok (true, consume a index state), w)
  unfolding visit_record within_limits take_step finalized_step pure
  visit_record-taken a index r state w none' limits took small =
      rw (none', limits, took, small) refl

  consume-Open :
      (a : Assembly) (index : ℕ) (state : List ℕ)
      → Open a index
      → Open (consume a index state) (index + 1)
  unfolding consume
  consume-Open a index state opened = record {
    none' = opened.none';
    unbroken = opened.unbroken;
    consumed = refl;
  }

  assemble_records-Open :
      (a : Assembly) (index : ℕ) (records : List FramedSourceRecord) (w : W)
      → Open a index
      → TakesAll adapter a index records
      → (a' : Assembly) × (assemble_records py envelopes adapter ports.read self file recorded_at a
            index records w
          ≡ (ok a', w))
        × Open a' (index + length records)
  unfolding assemble_records pure
  assemble_records-Open a index [] w opened takes = (a, refl, subst (Open a) (omega arith) opened)
  assemble_records-Open a index (r ∷ records) w opened (limits, (state, took, small, more)) =
      let (a', same, opened') =
        assemble_records-Open (consume a index state) (index + 1) records w
          (consume-Open a index state opened) more in
      (
        a',
        ok->>= _ _ (visit_record-taken a index r state w opened.none' limits took small)
            ∙ (unfold go_on in same),
        subst (Open a') (omega arith) opened',
      )

module _ (py : Runtime) (dumps : Dumps) {T E : Type 0} (envelopes : Envelopes E) {W : Type 0}
    (ports : FoldPorts W) (self : DurableTranscriptFoldLoop T E) (recorded_at : Datetime) where
  run_on_records-Refused :
      (s : TranscriptFoldCursorState) (file : FileIdentity)
      (adapter : QualifiedTranscriptFoldAdapter T E) (read : DurableTranscriptRead)
      (first : FramedSourceRecord) (rest : List FramedSourceRecord) (tail state : List ℕ) (w : W)
      → max_pending_ranges ≤ length s.pending_ranges
      → extractor_state py (py.b64decode s.extractor_state_base64) ≡ ok state
      → TakesAll adapter (unassembled s state) 0 (first ∷ rest)
      → is_sealed_read self read ≡ false
      → (e : Error) × (run_on_records py dumps envelopes ports self recorded_at s file
            (some adapter)
            read
            (first ∷ rest, tail)
            w
          ≡ (err e, w))
  unfolding run_on_records assemble_turns
  run_on_records-Refused s file adapter read first rest tail state w many decoded takes unsealed =
      let (a, assembled, opened) =
        assemble_records-Open py envelopes adapter ports (source_of self.base) file recorded_at
          (unassembled s state) 0 (first ∷ rest) w
          (unfold unassembled in record { none' = refl; unbroken = refl; consumed = refl }) takes in
      let consumed : a.consumed_record_count ≡ length (first ∷ rest) =
        omega (arith, opened.consumed) in
      let f = framed_read file (some adapter) read recorded_at first rest tail in
      let (e, refused) =
        settle_run-Refused py dumps envelopes ports self.base f s a w many
          (unfold framed_read in refl) (unfold framed_read in consumed) opened.none'
          opened.unbroken in
      (
        e,
        lift-ok->>= _ _ decoded
            ∙ (ok->>= _ _ assembled
                ∙ subst
                    (λ sealed.
                      settle_run py dumps envelopes ports self.base f sealed s a w ≡ (err e, w))
                    (sym unsealed) refused),
      )

  -- The read that `run_once` starts with, from the cursor `s`: new bytes, before the sealed end, with
  -- complete lines that the adapter takes.
  pub record GoesOn (s : TranscriptFoldCursorState) (w w' : W) : Type 0 where
    pub read : DurableTranscriptRead
    pub file : FileIdentity
    pub adapter : QualifiedTranscriptFoldAdapter T E
    pub first : FramedSourceRecord
    pub rest : List FramedSourceRecord
    pub tail : List ℕ
    pub state : List ℕ
    pub requested : validate_read_request (run_request self.base self.read_size s) ≡ ok tt
    pub was_read : ports.read (run_request self.base self.read_size s) w ≡ (ok read, w')
    pub matched : validate_read (source_of self.base) read s ≡ ok tt
    pub with_data : read.status ≡ data_status
    pub known : read.file_identity ≡ some file
    pub unsealed : is_sealed_read self read ≡ false
    pub adapted :
        qualified_adapter self.adapter self.observed_source_format_version read ≡ some adapter
    pub framed :
        frame_complete_records
          (read_payload read)
          read.byte_start
          (pending_end_record_index s)
          adapter.max_record_bytes
        ≡ (first ∷ rest, tail)
    pub decoded : extractor_state py (py.b64decode s.extractor_state_base64) ≡ ok state
    pub takes : TakesAll adapter (unassembled s state) 0 (first ∷ rest)

  run_on_data-records :
      (s : TranscriptFoldCursorState) (w v : W) (goes : GoesOn s w v)
      → run_on_data py dumps envelopes ports self recorded_at s goes.read (some goes.file) v
        ≡ run_on_records py dumps envelopes ports self recorded_at s goes.file
            (some goes.adapter)
            goes.read
            (goes.first ∷ goes.rest, goes.tail)
            v
  unfolding run_on_data
  run_on_data-records s w v goes = rw (goes.adapted, goes.framed) refl

  run_from-Refused :
      (s : TranscriptFoldCursorState) (w v : W)
      → max_pending_ranges ≤ length s.pending_ranges
      → GoesOn s w v
      → (e : Error) × (run_from py dumps envelopes ports self recorded_at s w ≡ (err e, v))
  unfolding run_from run_on_read
  run_from-Refused s w v many goes =
      let (e, refused) =
        run_on_records-Refused s goes.file goes.adapter goes.read goes.first goes.rest goes.tail
          goes.state v many goes.decoded goes.takes goes.unsealed in
      (
        e,
        lift-ok->>= _ _ goes.requested
            ∙ (ok->>= _ _ goes.was_read
                ∙ (lift-ok->>= _ _ goes.matched
                    ∙ (ap
                          (λ status.
                            run_on_read py dumps envelopes ports self recorded_at status s goes.read
                              v)
                          goes.with_data
                        ∙ (ap
                              (λ file.
                                run_on_data py dumps envelopes ports self recorded_at s goes.read
                                  file v)
                              goes.known
                            ∙ (run_on_data-records s w v goes ∙ refused))))),
      )

  -- A run over a stored cursor that holds 128 pending ranges, in which the read brings complete
  -- lines before the sealed end and the adapter takes them all without ending a turn, raises an
  -- error, and the world is as the load and the read left it: nothing is submitted or committed.
  pub run_once-Refused :
      (load : String → Exec W StoredCursor) (s : TranscriptFoldCursorState) (u v w : W)
      → recorded_at.has_tzinfo ≡ true
      → load self.base.capability_id u ≡ (ok (fold_cursor s), v)
      → 128 ≤ length s.pending_ranges
      → GoesOn s v w
      → (e : Error) × (run_once py dumps envelopes ports self recorded_at load u ≡ (err e, w))
  unfolding run_once cursor_of pure
  run_once-Refused load s u v w aware loaded many goes =
      let (e, refused) = run_from-Refused s v w many goes in
      (
        e,
        lift-ok->>= _ _ (Holds-ok _ (aware & tt))
            ∙ (ok->>= _ _ loaded ∙ (ok->>= _ _ refl ∙ refused)),
      )
