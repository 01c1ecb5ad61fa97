-- ===== src/Capture/Fold/SealedOnce.antt =====
-- A sealed span moves the cursor from its acknowledged position to its pending end.
use memoriesql.Prelude.{
  ◌+◌, ◌≡◌, refl, true, Option, none, some, [], ◌∷◌, length, ok, check-ok, checked-eq-ok, ap, sym,
  subst, ◌∙◌, arith, nat_eq, string_eq,
}
use memoriesql.Contracts.Runtime.{Runtime}
use memoriesql.Contracts.Exec.{raise, >>=-eq-ok, lift-eq-ok, lift->>=-eq-ok}
use memoriesql.Capture.Host.{FileIdentity}
use memoriesql.Capture.Fold.Source.{DurableTranscriptRead}
use memoriesql.Capture.Fold.Exact.{read_exact}
use memoriesql.Capture.Fold.Outcome.{Envelopes, TranscriptFoldOutcome, span_outcome}
use memoriesql.Capture.Fold.Command.{CommitTranscriptFoldCommand}
use memoriesql.Capture.Fold.Commit.{Dumps}
use memoriesql.Capture.Fold.Sound.{BindsFold, Folds, build_transcript_fold_command-BindsFold}
use memoriesql.Capture.Fold.Cursor.{
  CommitTranscriptFoldReceipt, TranscriptFoldCursorState, pending_end_offset,
  pending_end_record_index,
}
use memoriesql.Capture.Fold.State.{validate_fold_cursor, receipt_binds, updated_state}
use memoriesql.Capture.Fold.Sealed.{
  TranscriptFoldHealth, FoldLoop, FoldPorts, SealedSpan, source_of, pending_outcome,
  sealed_arguments, acknowledged_state, sealed_state, submit_sealed, commit_pending,
  commit_sealed_pending_span, health_of,
}

pub receipt_binds-ends :
    (r : CommitTranscriptFoldReceipt) (c : CommitTranscriptFoldCommand)
    → receipt_binds r c ≡ true
    → (r.byte_end_exclusive ≡ c.byte_end_exclusive)
      × (r.end_record_index ≡ c.end_record_index)
      × (r.checkpoint_sequence ≡ c.checkpoint.next_sequence)
unfolding receipt_binds
receipt_binds-ends r c h = (ground (arith, h), ground (arith, h), ground (arith, h))

module _ (py : Runtime) (dumps : Dumps) {E : Type 0} (envelopes : Envelopes E) {W : Type 0}
    (ports : FoldPorts W) (self : FoldLoop) where
  -- One command over the pending bytes and records was submitted, a receipt that binds it came
  -- back, and the cursor was committed at its end with nothing pending.
  pub record Sealed (s : TranscriptFoldCursorState) (call : SealedSpan) (h : TranscriptFoldHealth)
      (w w' : W) : Type 0 where
    pub file : FileIdentity
    pub read : DurableTranscriptRead
    pub command : CommitTranscriptFoldCommand
    pub receipt : CommitTranscriptFoldReceipt
    pub updated : TranscriptFoldCursorState
    pub after_read : W
    pub after_submit : W
    pub was_read :
        read_exact py ports.read
          (source_of self)
          s.acknowledged_offset
          (pending_end_offset s)
          none
          w
        ≡ (ok read, after_read)
    pub binds : BindsFold py dumps envelopes command
    pub outcome : command.outcomes ≡ pending_outcome self s read ∷ []
    pub submitted : ports.submit command call.recorded_at after_read ≡ (ok receipt, after_submit)
    pub bound : receipt_binds receipt command ≡ true
    pub valid : validate_fold_cursor py updated ≡ ok tt
    pub committed : ports.commit s.revision updated after_submit ≡ (ok tt, w')
    pub offset : updated.acknowledged_offset ≡ pending_end_offset s
    pub index : updated.acknowledged_record_index ≡ pending_end_record_index s
    pub sequence : updated.checkpoint_sequence ≡ s.checkpoint_sequence + 1
    pub nothing_pending : updated.pending_ranges ≡ []
    pub tail : updated.pending_tail_byte_count ≡ length call.pending_tail
    pub revision : updated.revision ≡ s.revision + 1
    pub reported : h.receipt ≡ some receipt

  BindsFold-one :
      (c : CommitTranscriptFoldCommand) (o : TranscriptFoldOutcome)
      → BindsFold py dumps envelopes c
      → c.outcomes ≡ o ∷ []
      → (c.byte_end_exclusive ≡ o.byte_end_exclusive) × (c.end_record_index ≡ o.end_record_index)
  BindsFold-one c o binds one =
      let (_, _, _, _, _, (byte, index)) =
        subst
          (λ os. Folds c.byte_start c.start_record_index c.byte_end_exclusive c.end_record_index os)
          one binds.outcomes in
      (sym byte, sym index)

  -- A sealed span that ends with a report read exactly the pending bytes, submitted one command of
  -- one span over them, had it acknowledged by a receipt that binds it, and committed a valid cursor
  -- at the pending end, one checkpoint and one revision later, with nothing pending.
  pub commit_sealed_pending_span-Sealed :
      (s : TranscriptFoldCursorState) (file_identity : Option FileIdentity) (call : SealedSpan)
      (h : TranscriptFoldHealth) (w w' : W)
      → commit_sealed_pending_span py dumps envelopes ports self s file_identity call w ≡ (ok h, w')
      → Sealed s call h w w'
  unfolding commit_sealed_pending_span commit_pending submit_sealed sealed_arguments sealed_state
      updated_state acknowledged_state health_of pending_outcome span_outcome raise
  commit_sealed_pending_span-Sealed s none call h w w' run = absurd (cc (ap (λ p. p.0) run))
  commit_sealed_pending_span-Sealed s (some file) call h w w' run =
      let (_, _, h1) = lift->>=-eq-ok _ _ run in
      let (read, w1, was_read, h2) = >>=-eq-ok _ _ h1 in
      let (_, _, h3) = lift->>=-eq-ok _ _ h2 in
      let (command, built, h4) = lift->>=-eq-ok _ _ h3 in
      let (receipt, w2, submitted, h5) = >>=-eq-ok _ _ h4 in
      let (_, bound, h6) = lift->>=-eq-ok _ _ h5 in
      let (_, _, h7) = lift->>=-eq-ok _ _ h6 in
      let (_, valid, h8) = lift->>=-eq-ok _ _ h7 in
      let (_, w3, committed, h9) = >>=-eq-ok _ _ h8 in
      let (report, same) = lift-eq-ok _ h9 in
      let (outcomes, sized, _, expected, binds) =
        build_transcript_fold_command-BindsFold py dumps envelopes _ _ _ none command built in
      let (bound', _) = check-ok _ bound in
      let (at_end, at_index, at_sequence) = receipt_binds-ends receipt command bound' in
      let (last_byte, last_index) =
        BindsFold-one command (pending_outcome self s read) binds outcomes in
      let (_, reported) = checked-eq-ok _ _ report in
      record {
        file = file;
        read = read;
        command = command;
        receipt = receipt;
        updated = sealed_state py s file call receipt;
        after_read = w1;
        after_submit = w2;
        was_read = was_read;
        binds = binds;
        outcome = outcomes;
        submitted = submitted;
        bound = bound';
        valid = valid;
        committed = committed ∙ ap (λ x. (ok tt, x)) same;
        offset = at_end ∙ last_byte;
        index = at_index ∙ last_index;
        sequence = omega (arith, at_sequence, binds.once, expected);
        nothing_pending = refl;
        tail = refl;
        revision = refl;
        reported = sym (ap (λ x. x.receipt) reported);
      }
