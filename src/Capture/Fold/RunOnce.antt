-- ===== src/Capture/Fold/RunOnce.antt =====
-- A run of `run_once` of transcript_fold.py reads from its cursor and reports an idle cursor, or
-- commits one.
use memoriesql.Prelude.{
  ℕ, ◌+◌, ◌≡◌, refl, ap, subst, ◌∙◌, ◌⊎◌, inl, inr, String, true, Option, none, some, List, [], ◌∷◌,
  length, ok, check-ok, arith,
}
use memoriesql.Contracts.Runtime.{Runtime}
use memoriesql.Contracts.Exec.{Exec, raise, >>=-eq-ok, lift->>=-eq-ok}
use memoriesql.Capture.Host.{Datetime, FileIdentity}
use memoriesql.Capture.Fold.Frame.{FramedSourceRecord, frame_complete_records}
use memoriesql.Capture.Fold.Framed.{frame_complete_records-Framing}
use memoriesql.Capture.Fold.Source.{
  DurableTranscriptReadStatus, data_status, end_of_durable_ranges, DurableTranscriptRead,
  read_payload,
}
use memoriesql.Capture.Fold.Exact.{FoldSource}
use memoriesql.Capture.Fold.Outcome.{Envelopes}
use memoriesql.Capture.Fold.Commit.{Dumps}
use memoriesql.Capture.Fold.Cursor.{
  TranscriptFoldCursorState, pending_end_offset, pending_end_record_index,
}
use memoriesql.Capture.Fold.State.{validate_read}
use memoriesql.Capture.Fold.Sealed.{TranscriptFoldHealth, FoldPorts, source_of}
use memoriesql.Capture.Fold.Adapter.{QualifiedTranscriptFoldAdapter, qualified_adapter}
use memoriesql.Capture.Fold.Assembled.{end_of}
use memoriesql.Capture.Fold.Resolved.{last_record-end}
use memoriesql.Capture.Fold.Committed.{Finished}
use memoriesql.Capture.Fold.Finished.{settle_run-Finished}
use memoriesql.Capture.Fold.Run.{
  DurableTranscriptFoldLoop, StoredCursor, is_sealed_read, record_limit, framed_read, run_request,
  run_on_records, run_on_data, run_on_read, run_from, cursor_of, run_once, unassembled,
}
use memoriesql.Capture.Fold.Reported.{
  Framing-length, IdleOnce, run_at_end-ended, run_without_records-Finished,
  assemble_turns-Assembled, assemble_turns-Reads,
}

-- Where the bytes that a read gave end.
unfoldable pub read_stop :
    DurableTranscriptReadStatus → TranscriptFoldCursorState → DurableTranscriptRead → ℕ
read_stop end_of_durable_ranges s read = pending_end_offset s
read_stop data_status s read = pending_end_offset s + length (read_payload read)

module _ (py : Runtime) (dumps : Dumps) {T E : Type 0} (envelopes : Envelopes E) {W : Type 0}
    (ports : FoldPorts W) (self : DurableTranscriptFoldLoop T E) (recorded_at : Datetime) where
  run_on_records-Finished :
      (s : TranscriptFoldCursorState) (file : FileIdentity)
      (adapter : Option (QualifiedTranscriptFoldAdapter T E)) (read : DurableTranscriptRead)
      (records : List FramedSourceRecord) (tail : List ℕ) (stop : ℕ) (h : TranscriptFoldHealth)
      (w w' : W)
      → end_of (pending_end_offset s) records + length tail ≡ stop
      → run_on_records py dumps envelopes ports self recorded_at s file adapter read
          (records, tail)
          w
        ≡ (ok h, w')
      → Finished py dumps envelopes ports s recorded_at stop h w w'
  unfolding run_on_records end_of
  run_on_records-Finished s file adapter read [] tail stop h w w' framed ran =
      subst (λ x. Finished py dumps envelopes ports s recorded_at x h w w') framed
        (run_without_records-Finished py dumps envelopes ports self recorded_at s file adapter read
          tail h w w' ran)
  run_on_records-Finished s file adapter read (first ∷ rest) tail stop h w w' framed ran =
      let (state, _, h1) = lift->>=-eq-ok _ _ ran in
      let (a, w1, ran1, h2) = >>=-eq-ok _ _ h1 in
      let (assembled, known) =
        assemble_turns-Assembled py dumps envelopes ports self recorded_at s state adapter file
          first rest a w w1 ran1 in
      subst (λ x. Finished py dumps envelopes ports s recorded_at x h w w')
        (ap (λ x. x + length tail) (last_record-end (pending_end_offset s) first rest) ∙ framed)
        (settle_run-Finished py dumps envelopes ports self.base
          (framed_read file adapter read recorded_at first rest tail) s (is_sealed_read self read) a
          h w w1 w'
          (assemble_turns-Reads py dumps envelopes ports self recorded_at adapter file
            (unassembled s state) (first ∷ rest) ran1)
          assembled known h2)

  run_on_data-Finished :
      (s : TranscriptFoldCursorState) (read : DurableTranscriptRead)
      (file_identity : Option FileIdentity) (h : TranscriptFoldHealth) (w w' : W)
      → read.byte_start ≡ pending_end_offset s
      → run_on_data py dumps envelopes ports self recorded_at s read file_identity w ≡ (ok h, w')
      → Finished py dumps envelopes ports s recorded_at
          (pending_end_offset s + length (read_payload read))
          h
          w
          w'
  unfolding run_on_data raise
  run_on_data-Finished s read none h w w' start ran = absurd (cc (ap (λ p. p.0) ran))
  run_on_data-Finished s read (some file) h w w' start ran =
      let adapter = qualified_adapter self.adapter self.observed_source_format_version read in
      let limit = record_limit adapter in
      let payload = read_payload read in
      let framed =
        frame_complete_records-Framing payload read.byte_start (pending_end_record_index s) limit in
      let length' =
        Framing-length limit read.byte_start (pending_end_record_index s) _ _ payload framed in
      let shifted =
        subst
          (λ start.
            end_of start
                (frame_complete_records payload read.byte_start (pending_end_record_index s)
                  limit).0
              + length
                  (frame_complete_records payload read.byte_start (pending_end_record_index s)
                    limit).1
            ≡ start + length payload)
          start length' in
      run_on_records-Finished s file adapter read _ _ _ h w w' shifted ran

  -- What a run did from the cursor `s`: it read from the pending end on, and then reported the
  -- cursor, or, after further reads alone, committed one that has read all that was given.
  pub record RanFrom (s : TranscriptFoldCursorState) (h : TranscriptFoldHealth) (w w' : W)
      : Type 0 where
    pub read : DurableTranscriptRead
    pub after_read : W
    pub was_read : ports.read (run_request self.base self.read_size s) w ≡ (ok read, after_read)
    pub matched : validate_read (source_of self.base) read s ≡ ok tt
    pub ended :
        IdleOnce py dumps envelopes ports self recorded_at s read h after_read w'
        ⊎ Finished py dumps envelopes ports s recorded_at
            (read_stop read.status s read)
            h
            after_read
            w'

  run_on_read-ended :
      (status : DurableTranscriptReadStatus) (s : TranscriptFoldCursorState)
      (read : DurableTranscriptRead) (h : TranscriptFoldHealth) (w w' : W)
      → read.status ≡ status
      → read.byte_start ≡ pending_end_offset s
      → run_on_read py dumps envelopes ports self recorded_at status s read w ≡ (ok h, w')
      → IdleOnce py dumps envelopes ports self recorded_at s read h w w'
        ⊎ Finished py dumps envelopes ports s recorded_at (read_stop status s read) h w w'
  unfolding run_on_read read_stop
  run_on_read-ended end_of_durable_ranges s read h w w' status start ran =
      elim (run_at_end-ended py dumps envelopes ports self recorded_at s read h w w' status ran) [
        | inl idle ↦ inl idle
        | inr sealed ↦ inr (inl sealed)
      ]
  run_on_read-ended data_status s read h w w' status start ran =
      inr (run_on_data-Finished s read read.file_identity h w w' start ran)

  validate_read-start :
      (source : FoldSource) (read : DurableTranscriptRead) (s : TranscriptFoldCursorState)
      → validate_read source read s ≡ ok tt
      → read.byte_start ≡ pending_end_offset s
  unfolding validate_read
  validate_read-start source read s h =
      let (_, (_, (_, (start, _)))) = check-ok _ h in ground (arith, start)

  run_from-RanFrom :
      (s : TranscriptFoldCursorState) (h : TranscriptFoldHealth) (w w' : W)
      → run_from py dumps envelopes ports self recorded_at s w ≡ (ok h, w')
      → RanFrom s h w w'
  unfolding run_from
  run_from-RanFrom s h w w' ran =
      let (_, _, h1) = lift->>=-eq-ok _ _ ran in
      let (read, w1, was_read, h2) = >>=-eq-ok _ _ h1 in
      let (_, matched, h3) = lift->>=-eq-ok _ _ h2 in
      record {
        read = read;
        after_read = w1;
        was_read = was_read;
        matched = matched;
        ended =
            run_on_read-ended read.status s read h w1 w' refl
              (validate_read-start (source_of self.base) read s matched) h3;
      }

  module _ (load : String → Exec W StoredCursor) where
    -- What a run did: it loaded a cursor, or made one of what was stored, and ran from it.
    pub record RanOnce (h : TranscriptFoldHealth) (w w' : W) : Type 0 where
      pub stored : StoredCursor
      pub state : TranscriptFoldCursorState
      pub after_load : W
      pub before_run : W
      pub aware : recorded_at.has_tzinfo ≡ true
      pub loaded : load self.base.capability_id w ≡ (ok stored, after_load)
      pub made :
          cursor_of py dumps envelopes ports self recorded_at stored after_load
          ≡ (ok state, before_run)
      pub ran : RanFrom state h before_run w'

    -- A run that reports loaded what is stored, made a cursor of it, read from the pending end of the
    -- cursor, and did one of three things. With no new bytes it reported the cursor as it is, and the
    -- world is as the read left it. Or, after reads alone, it committed a valid cursor at the same
    -- acknowledged position, and the world is as the commit left it. Or, after reads alone, it
    -- submitted a command that starts at the acknowledged position, got a receipt that binds it, and
    -- next committed a valid cursor at the end of the command, one checkpoint later, and the world is
    -- as the commit left it. A committed cursor is one revision later, and its pending ranges and
    -- tail end where the bytes of the first read end, unless the command holds as many outcomes as
    -- it may.
    pub run_once-RanOnce :
        (h : TranscriptFoldHealth) (w w' : W)
        → run_once py dumps envelopes ports self recorded_at load w ≡ (ok h, w')
        → RanOnce h w w'
    unfolding run_once
    run_once-RanOnce h w w' ran =
        let (_, aware, h1) = lift->>=-eq-ok _ _ ran in
        let (stored, w1, loaded, h2) = >>=-eq-ok _ _ h1 in
        let (s, w2, made, h3) = >>=-eq-ok _ _ h2 in
        record {
          stored = stored;
          state = s;
          after_load = w1;
          before_run = w2;
          aware = (check-ok _ aware).0;
          loaded = loaded;
          made = made;
          ran = run_from-RanFrom s h w2 w' h3;
        }
