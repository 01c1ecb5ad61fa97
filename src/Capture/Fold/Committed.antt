-- ===== src/Capture/Fold/Committed.antt =====
-- What the end of `run_once` commits: one command over the outcomes and the cursor at its end, or a
-- cursor that waits.
use mathlib.Core.Path.{ap₂}
use memoriesql.Prelude.{
  ℕ, ◌+◌, ◌≤◌, ◌<◌, ◌≡◌, refl, sym, ap, ◌∙◌, ◌⊎◌, Bool, true, false, Option, none, some, List, [],
  ◌∷◌, length, is_some, ok, checked-eq-ok, arith,
}
use memoriesql.Contracts.Runtime.{Runtime}
use memoriesql.Contracts.Exec.{>>=-eq-ok, lift-eq-ok, lift->>=-eq-ok}
use memoriesql.Capture.Host.{Datetime}
use memoriesql.Capture.Fold.Outcome.{Envelopes, TranscriptFoldOutcome}
use memoriesql.Capture.Fold.Command.{fold_max_outcomes, CommitTranscriptFoldCommand}
use memoriesql.Capture.Fold.Commit.{Dumps}
use memoriesql.Capture.Fold.Sound.{BindsFold, Folds}
use memoriesql.Capture.Fold.Cursor.{
  CommitTranscriptFoldReceipt, TranscriptFoldCursorState, end_from, pending_end_offset,
}
use memoriesql.Capture.Fold.State.{validate_fold_cursor, updated_state, receipt_binds}
use memoriesql.Capture.Fold.Sealed.{TranscriptFoldHealth, FoldLoop, FoldPorts, health_of}
use memoriesql.Capture.Fold.Reads.{Reads}
use memoriesql.Capture.Fold.Records.{Assembly}
use memoriesql.Capture.Fold.Settle.{Framed, last_in, tail_of, pending_ranges, final_state}
use memoriesql.Capture.Fold.Resolve.{finish}
use memoriesql.Capture.Fold.Resolved.{Resolved, pending_ranges-end}

pub Folds-ends :
    (byte index last last' stop stop' : ℕ) (outcomes : List TranscriptFoldOutcome)
    → Folds byte index last stop outcomes
    → Folds byte index last' stop' outcomes
    → (last ≡ last') × (stop ≡ stop')
Folds-ends byte index last last' stop stop' [] (b, i) (b', i') = (sym b ∙ b', sym i ∙ i')
Folds-ends byte index last last' stop stop' (o ∷ outcomes) (_, _, _, _, _, more)
      (_, _, _, _, _, more') =
    Folds-ends o.byte_end_exclusive o.end_record_index last last' stop stop' outcomes more more'

pub Folds-le :
    (byte index last stop : ℕ) (outcomes : List TranscriptFoldOutcome)
    → Folds byte index last stop outcomes
    → byte ≤ last
Folds-le byte index last stop [] (b, i) = omega (arith, b)
Folds-le byte index last stop (o ∷ outcomes) (b, i, forward, _, _, more) =
    let further = Folds-le o.byte_end_exclusive o.end_record_index last stop outcomes more in
    omega (arith, b, forward, further)

tail_of-open :
    (f : Framed) (a : Assembly)
    → a.outcome_limit_reached ≡ false
    → length (tail_of f a) ≡ length f.partial_tail
tail_of-open f a open_end = rw open_end refl

-- Where a cursor has read to: what is pending, and the tail behind it.
abbrev pub StandsAt : ℕ → TranscriptFoldCursorState → Type 0
StandsAt stop s = pending_end_offset s + s.pending_tail_byte_count ≡ stop

module _ (py : Runtime) (dumps : Dumps) {E : Type 0} (envelopes : Envelopes E) {W : Type 0}
    (ports : FoldPorts W) where
  -- From `w`, after reads alone, one command over outcomes that start at the acknowledged position, a receipt that binds it, and
  -- a valid cursor at its end, one checkpoint and one revision later. The cursor has read to `stop`,
  -- unless the command holds as many outcomes as it may and nothing is pending.
  pub record FoldedOnce (s : TranscriptFoldCursorState) (recorded_at : Datetime) (stop : ℕ)
      (h : TranscriptFoldHealth) (w w' : W) : Type 0 where
    pub command : CommitTranscriptFoldCommand
    pub receipt : CommitTranscriptFoldReceipt
    pub updated : TranscriptFoldCursorState
    pub before_submit : W
    pub after_submit : W
    pub only_read : Reads ports.read w before_submit
    pub binds : BindsFold py dumps envelopes command
    pub starts : command.byte_start ≡ s.acknowledged_offset
    pub starts_record : command.start_record_index ≡ s.acknowledged_record_index
    pub submitted : ports.submit command recorded_at before_submit ≡ (ok receipt, after_submit)
    pub bound : receipt_binds receipt command ≡ true
    pub valid : validate_fold_cursor py updated ≡ ok tt
    pub committed : ports.commit s.revision updated after_submit ≡ (ok tt, w')
    pub offset : updated.acknowledged_offset ≡ command.byte_end_exclusive
    pub index : updated.acknowledged_record_index ≡ command.end_record_index
    pub forward : s.acknowledged_offset < updated.acknowledged_offset
    pub sequence : updated.checkpoint_sequence ≡ s.checkpoint_sequence + 1
    pub revision : updated.revision ≡ s.revision + 1
    pub reported : h.receipt ≡ some receipt
    pub stands :
        StandsAt stop updated
        ⊎ ((length command.outcomes ≡ fold_max_outcomes)
            × (updated.pending_ranges ≡ [])
            × (updated.pending_tail_byte_count ≡ 0))

  -- From `w`, after reads alone, the commit of a valid cursor at the same acknowledged position, one
  -- revision later, that has read to `stop`.
  pub record WaitedOnce (s : TranscriptFoldCursorState) (stop : ℕ) (h : TranscriptFoldHealth)
      (w w' : W) : Type 0 where
    pub updated : TranscriptFoldCursorState
    pub before_commit : W
    pub only_read : Reads ports.read w before_commit
    pub valid : validate_fold_cursor py updated ≡ ok tt
    pub committed : ports.commit s.revision updated before_commit ≡ (ok tt, w')
    pub offset : updated.acknowledged_offset ≡ s.acknowledged_offset
    pub index : updated.acknowledged_record_index ≡ s.acknowledged_record_index
    pub sequence : updated.checkpoint_sequence ≡ s.checkpoint_sequence
    pub revision : updated.revision ≡ s.revision + 1
    pub reported : h.receipt ≡ none
    pub stands : StandsAt stop updated

  abbrev pub Finished :
      TranscriptFoldCursorState → Datetime → ℕ → TranscriptFoldHealth → W → W → Type 0
  Finished s recorded_at stop h w w' =
      FoldedOnce s recorded_at stop h w w' ⊎ WaitedOnce s stop h w w'

  module _ (self : FoldLoop) (f : Framed) (s : TranscriptFoldCursorState) where
    pub finish-committed :
        (a : Assembly) (next : TranscriptFoldCursorState)
        (receipt : Option CommitTranscriptFoldReceipt) (h : TranscriptFoldHealth) (w w' : W)
        → finish py dumps envelopes ports self f a s next receipt w ≡ (ok h, w')
        → (validate_fold_cursor py (final_state py f a s next (is_some receipt)) ≡ ok tt)
          × (ports.commit s.revision (final_state py f a s next (is_some receipt)) w ≡ (ok tt, w'))
          × (h.receipt ≡ receipt)
    unfolding finish health_of
    finish-committed a next receipt h w w' ran =
        let (_, valid, h1) = lift->>=-eq-ok _ _ ran in
        let (_, w1, committed, h2) = >>=-eq-ok _ _ h1 in
        let (report, same) = lift-eq-ok _ h2 in
        let (_, reported) = checked-eq-ok _ _ report in
        (valid, committed ∙ ap (λ x. (ok tt, x)) same, sym (ap (λ x. x.receipt) reported))

    -- The cursor that is committed has read all that was framed.
    pub final_state-StandsAt :
        (a : Assembly) (next : TranscriptFoldCursorState) (acknowledged : Bool)
        → a.outcome_limit_reached ≡ false
        → Resolved s.acknowledged_offset s.acknowledged_record_index f a
        → next.acknowledged_offset ≡ a.outcome_start_offset
        → StandsAt
            ((last_in f).end_offset + length f.partial_tail)
            (final_state py f a s next acknowledged)
    unfolding final_state updated_state pending_end_offset
    final_state-StandsAt a next acknowledged open_end resolved at_start =
        let stop =
          pending_ranges-end py s.acknowledged_offset s.acknowledged_record_index f s a resolved
            open_end in
        ap₂ (λ m n. m + n) (ap (λ b. end_from b (pending_ranges py f a s)) at_start ∙ stop)
          (tail_of-open f a open_end)

    -- Nothing to submit.
    pub waited :
        (a : Assembly) (h : TranscriptFoldHealth) (v w w' : W)
        → Reads ports.read v w
        → Resolved s.acknowledged_offset s.acknowledged_record_index f a
        → a.outcome_limit_reached ≡ false
        → s.acknowledged_offset ≡ a.outcome_start_offset
        → finish py dumps envelopes ports self f a s s none w ≡ (ok h, w')
        → WaitedOnce s ((last_in f).end_offset + length f.partial_tail) h v w'
    unfolding final_state updated_state
    waited a h v w w' only_read resolved open_end at_start ran =
        let (valid, committed, reported) = finish-committed a s none h w w' ran in
        record {
          updated = final_state py f a s s false;
          before_commit = w;
          only_read = only_read;
          valid = valid;
          committed = committed;
          offset = refl;
          index = refl;
          sequence = refl;
          revision = refl;
          reported = reported;
          stands = final_state-StandsAt a s false open_end resolved at_start;
        }
