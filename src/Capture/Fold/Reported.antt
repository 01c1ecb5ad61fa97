-- ===== src/Capture/Fold/Reported.antt =====
-- The ways in which a run of `run_once` of transcript_fold.py reports before it has records: an idle
-- cursor, a sealed span, or a cursor that waits; and what the loop over the records leaves.
use mathlib.Core.Path.{ap₂, subst₂}
use memoriesql.Prelude.{
  ℕ, ◌+◌, ◌≡◌, refl, sym, ap, subst, ◌∙◌, ◌⊎◌, inl, inr, true, false, not, ◌&&◌, Option, none, some,
  List, [], ◌∷◌, length, length-append, is_empty, is_some, ok, checked-eq-ok, arith,
}
use memoriesql.Contracts.Runtime.{Runtime}
use memoriesql.Contracts.Exec.{>>=-eq-ok, lift-eq-ok, lift->>=-eq-ok, pure-eq-ok, if-cases}
use memoriesql.Capture.Host.{Datetime, FileIdentity}
use memoriesql.Capture.Fold.Frame.{FramedSourceRecord}
use memoriesql.Capture.Fold.Framed.{Framing}
use memoriesql.Capture.Fold.Source.{end_of_durable_ranges, DurableTranscriptRead}
use memoriesql.Capture.Fold.Outcome.{Envelopes, span_outcome}
use memoriesql.Capture.Fold.Commit.{Dumps}
use memoriesql.Capture.Fold.Cursor.{HostCaptureState, TranscriptFoldCursorState, pending_end_offset}
use memoriesql.Capture.Fold.State.{updated_state}
use memoriesql.Capture.Fold.Sound.{Folds}
use memoriesql.Capture.Fold.Sealed.{
  TranscriptFoldRunStatus, TranscriptFoldHealth, FoldLoop, FoldPorts, SealedSpan, source_of,
  health_of, pending_outcome,
}
use memoriesql.Capture.Fold.SealedOnce.{Sealed, commit_sealed_pending_span-Sealed}
use memoriesql.Capture.Fold.Adapter.{QualifiedTranscriptFoldAdapter}
use memoriesql.Capture.Fold.Reads.{
  Reads, done, OnlyReads, OnlyReads-ok, OnlyReads-pure, assemble_records-OnlyReads,
  read_exact-Reads,
}
use memoriesql.Capture.Fold.Records.{Assembly}
use memoriesql.Capture.Fold.Settle.{last_record}
use memoriesql.Capture.Fold.Assembled.{Assembled, end_of, assemble_records-Assembled}
use memoriesql.Capture.Fold.Resolved.{last_record-end}
use memoriesql.Capture.Fold.Committed.{FoldedOnce, WaitedOnce, Finished}
use memoriesql.Capture.Fold.Finished.{Folds-forward}
use memoriesql.Capture.Fold.Run.{
  DurableTranscriptFoldLoop, is_sealed_read, profile_of, unassembled, end_status, report_state,
  run_at_end, wait_for_line, run_without_records, assemble_turns,
}

-- The records and the tail are as long as the payload.
pub Framing-length :
    (max_record_bytes offset index : ℕ) (records : List FramedSourceRecord) (tail payload : List ℕ)
    → Framing max_record_bytes offset index records tail payload
    → end_of offset records + length tail ≡ offset + length payload
unfolding end_of
Framing-length max_record_bytes offset index [] tail payload (same, _) = rw same refl
Framing-length max_record_bytes offset index (r ∷ records) tail payload (rest, line, more) =
    let further = Framing-length max_record_bytes r.end_offset (index + 1) records tail rest more in
    let sizes = sym (length-append r.framed_bytes rest) ∙ ap length line.cut in
    omega (arith, further, sizes, line.stop)

pending_end-nothing :
    (s : TranscriptFoldCursorState)
    → s.pending_ranges ≡ []
    → pending_end_offset s ≡ s.acknowledged_offset
unfolding pending_end_offset
pending_end-nothing s none' = rw none' refl

module _ (py : Runtime) (dumps : Dumps) {E : Type 0} (envelopes : Envelopes E) {W : Type 0}
    (ports : FoldPorts W) where
  -- A sealed span is a fold of all that was pending.
  Sealed-FoldedOnce :
      (self : FoldLoop) (s : TranscriptFoldCursorState) (call : SealedSpan)
      (h : TranscriptFoldHealth) (w w' : W)
      → Sealed py dumps envelopes ports self s call h w w'
      → FoldedOnce py dumps envelopes ports s call.recorded_at
          (pending_end_offset s + length call.pending_tail)
          h
          w
          w'
  unfolding pending_outcome span_outcome
  Sealed-FoldedOnce self s call h w w' sealed =
      let c = sealed.command in
      let row =
        subst
          (λ os. Folds c.byte_start c.start_record_index c.byte_end_exclusive c.end_record_index os)
          sealed.outcome sealed.binds.outcomes in
      let (b, i, _, _, _, (at_end, at_index)) = row in
      let forward = Folds-forward _ _ _ _ (pending_outcome self s sealed.read) [] row in
      let offset = sealed.offset ∙ at_end in
      record {
        command = c;
        receipt = sealed.receipt;
        updated = sealed.updated;
        before_submit = sealed.after_read;
        only_read = read_exact-Reads ports.read py _ _ _ none sealed.was_read;
        after_submit = sealed.after_submit;
        binds = sealed.binds;
        starts = sym b;
        starts_record = sym i;
        submitted = sealed.submitted;
        bound = sealed.bound;
        valid = sealed.valid;
        committed = sealed.committed;
        offset = offset;
        index = sealed.index ∙ at_index;
        forward = omega (arith, forward, b, offset);
        sequence = sealed.sequence;
        revision = sealed.revision;
        reported = sealed.reported;
        stands = inl (
            ap₂ (λ m n. m + n)
              (pending_end-nothing sealed.updated sealed.nothing_pending ∙ sealed.offset)
              sealed.tail);
      }

module _ (py : Runtime) (dumps : Dumps) {T E : Type 0} (envelopes : Envelopes E) {W : Type 0}
    (ports : FoldPorts W) (self : DurableTranscriptFoldLoop T E) (recorded_at : Datetime) where
  -- Nothing new is retained: the report is of the cursor as it is, and nothing is committed.
  pub record IdleOnce (s : TranscriptFoldCursorState) (read : DurableTranscriptRead)
      (h : TranscriptFoldHealth) (w w' : W) : Type 0 where
    pub ended : read.status ≡ end_of_durable_ranges
    pub unsealed : not (is_empty s.pending_ranges) && is_sealed_read self read ≡ false
    pub reported : h ≡ health_of s (end_status s) none
    pub untouched : w ≡ w'

  pub report_state-same :
      (s : TranscriptFoldCursorState) (status : TranscriptFoldRunStatus) (h : TranscriptFoldHealth)
      (w w' : W)
      → report_state py dumps envelopes ports self recorded_at s status w ≡ (ok h, w')
      → (h ≡ health_of s status none) × (w ≡ w')
  unfolding report_state
  report_state-same s status h w w' ran =
      let (report, same) = lift-eq-ok _ ran in
      let (_, reported) = checked-eq-ok _ _ report in (sym reported, same)

  pub run_at_end-ended :
      (s : TranscriptFoldCursorState) (read : DurableTranscriptRead) (h : TranscriptFoldHealth)
      (w w' : W)
      → read.status ≡ end_of_durable_ranges
      → run_at_end py dumps envelopes ports self recorded_at s read w ≡ (ok h, w')
      → IdleOnce s read h w w'
        ⊎ FoldedOnce py dumps envelopes ports s recorded_at (pending_end_offset s) h w w'
  unfolding run_at_end
  run_at_end-ended s read h w w' ended ran =
      elim (if-cases (not (is_empty s.pending_ranges) && is_sealed_read self read) _ _ ran) [
        | inl (_, sealed) ↦ inr (
            subst (λ stop. FoldedOnce py dumps envelopes ports s recorded_at stop h w w')
              (omega arith)
              (Sealed-FoldedOnce py dumps envelopes ports self.base s _ h w w' (
                commit_sealed_pending_span-Sealed py dumps envelopes ports self.base s
                  s.file_identity _ h w w' sealed)))
        | inr (unsealed, idle) ↦
            let (reported, untouched) = report_state-same s (end_status s) h w w' idle in
            inl (record {
              ended = ended;
              unsealed = unsealed;
              reported = reported;
              untouched = untouched;
            })
      ]

  wait_for_line-WaitedOnce :
      (s : TranscriptFoldCursorState) (file : FileIdentity) (read : DurableTranscriptRead)
      (partial_tail : List ℕ) (h : TranscriptFoldHealth) (w w' : W)
      → wait_for_line py dumps envelopes ports self recorded_at s file read partial_tail w
        ≡ (ok h, w')
      → WaitedOnce py dumps envelopes ports s (pending_end_offset s + length partial_tail) h w w'
  unfolding wait_for_line updated_state pending_end_offset health_of
  wait_for_line-WaitedOnce s file read partial_tail h w w' ran =
      let (state, _, h1) = lift->>=-eq-ok _ _ ran in
      let (_, valid, h2) = lift->>=-eq-ok _ _ h1 in
      let (_, w1, committed, h3) = >>=-eq-ok _ _ h2 in
      let updated =
        updated_state py s file s.pending_ranges state partial_tail
          HostCaptureState.waiting_for_complete_record read.durable_end_offset none true in
      let (reported, same) =
        report_state-same updated TranscriptFoldRunStatus.waiting_for_complete_record h w1 w' h3 in
      record {
        updated = updated;
        before_commit = w;
        only_read = done;
        valid = valid;
        committed = committed ∙ ap (λ x. (ok tt, x)) same;
        offset = refl;
        index = refl;
        sequence = refl;
        revision = refl;
        reported = ap (λ x. x.receipt) reported;
        stands = refl;
      }

  pub run_without_records-Finished :
      (s : TranscriptFoldCursorState) (file : FileIdentity)
      (adapter : Option (QualifiedTranscriptFoldAdapter T E)) (read : DurableTranscriptRead)
      (partial_tail : List ℕ) (h : TranscriptFoldHealth) (w w' : W)
      → run_without_records py dumps envelopes ports self recorded_at s file adapter read
          partial_tail w
        ≡ (ok h, w')
      → Finished py dumps envelopes ports s recorded_at
          (pending_end_offset s + length partial_tail)
          h
          w
          w'
  unfolding run_without_records
  run_without_records-Finished s file adapter read partial_tail h w w' ran =
      elim (if-cases (not (is_empty s.pending_ranges) && is_sealed_read self read) _ _ ran) [
        | inl (_, sealed) ↦ inl (
            Sealed-FoldedOnce py dumps envelopes ports self.base s _ h w w' (
              commit_sealed_pending_span-Sealed py dumps envelopes ports self.base s (some file) _ h
                w w' sealed))
        | inr (_, waits) ↦ inr (wait_for_line-WaitedOnce s file read partial_tail h w w' waits)
      ]

  pub assemble_turns-Assembled :
      (s : TranscriptFoldCursorState) (state : List ℕ)
      (adapter : Option (QualifiedTranscriptFoldAdapter T E)) (file : FileIdentity)
      (first : FramedSourceRecord) (rest : List FramedSourceRecord) (a : Assembly) (w w' : W)
      → assemble_turns py dumps envelopes ports self recorded_at adapter file
          (unassembled s state)
          (first ∷ rest)
          w
        ≡ (ok a, w')
      → Assembled s.acknowledged_offset s.acknowledged_record_index
          (length (first ∷ rest))
          (last_record first rest).end_offset
          a
        × ((is_some (profile_of adapter) ≡ true) ⊎ (is_some a.fallback ≡ true))
  unfolding assemble_turns unassembled
  assemble_turns-Assembled s state none file first rest a w w' ran =
      let same = (pure-eq-ok _ ran).0 in
      (
        subst
            (λ x.
              Assembled s.acknowledged_offset s.acknowledged_record_index (length (first ∷ rest))
                (last_record first rest).end_offset x)
            same (inr ((refl, refl), inl (_, refl, refl))),
        inr (ap (λ x. is_some x.fallback) (sym same)),
      )
  assemble_turns-Assembled s state (some adapter) file first rest a w w' ran = (
    subst₂ (λ count stop. Assembled s.acknowledged_offset s.acknowledged_record_index count stop a)
        (omega arith) (sym (last_record-end s.acknowledged_offset first rest))
        (assemble_records-Assembled py envelopes adapter ports.read (source_of self.base) file
          recorded_at s.acknowledged_offset s.acknowledged_record_index (unassembled s state) 0
          s.acknowledged_offset (first ∷ rest) a w w'
          (record {
            row = (refl, refl);
            unbroken = refl;
            open_end = refl;
            consumed = refl;
            behind = omega arith;
            caught_up = λ _. refl;
          })
          ran),
    inl refl,
  )

  assemble_turns-OnlyReads :
      (adapter : Option (QualifiedTranscriptFoldAdapter T E)) (file : FileIdentity) (a : Assembly)
      (records : List FramedSourceRecord)
      → OnlyReads ports.read
          (assemble_turns py dumps envelopes ports self recorded_at adapter file a records)
  unfolding assemble_turns
  assemble_turns-OnlyReads none file a records = OnlyReads-pure ports.read _
  assemble_turns-OnlyReads (some adapter) file a records =
      assemble_records-OnlyReads ports.read py envelopes adapter _ file recorded_at a 0 records

  pub assemble_turns-Reads :
      (adapter : Option (QualifiedTranscriptFoldAdapter T E)) (file : FileIdentity)
      (start : Assembly) (records : List FramedSourceRecord) {a : Assembly} {w w' : W}
      → assemble_turns py dumps envelopes ports self recorded_at adapter file start records w
        ≡ (ok a, w')
      → Reads ports.read w w'
  assemble_turns-Reads adapter file start records =
      OnlyReads-ok ports.read
        (assemble_turns py dumps envelopes ports self recorded_at adapter file start records)
        (assemble_turns-OnlyReads adapter file start records)
