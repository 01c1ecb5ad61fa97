-- ===== src/Capture/Fold/Moved.antt =====
-- A legacy cursor is migrated to a fold cursor at its own position, in finitely many rounds.
use memoriesql.Prelude.{
  ℕ, zero, suc, ◌+◌, ◌≤◌, ◌<◌, ◌≡◌, refl, sym, ap, subst, ◌∙◌, ◌⊎◌, inl, inr, Bool, true, false,
  String, Option, none, some, [], ltb, eqb, ok, check-ok, arith, tests,
}
use memoriesql.Contracts.Runtime.{Runtime}
use memoriesql.Contracts.Exec.{
  Exec, raise, pure, >>=-same, >>=-eq-ok, >>=-agree, lift->>=-eq-ok, pure-eq-ok, if-cases,
}
use memoriesql.Capture.Host.{Datetime}
use memoriesql.Capture.Fold.Source.{DurableTranscriptRead}
use memoriesql.Capture.Fold.Outcome.{Envelopes, policy_outcome}
use memoriesql.Capture.Fold.Command.{LegacyAdapterCursorBinding}
use memoriesql.Capture.Fold.Commit.{Dumps}
use memoriesql.Capture.Fold.Cursor.{CommitTranscriptFoldReceipt, TranscriptFoldCursorState}
use memoriesql.Capture.Fold.State.{validate_fold_cursor}
use memoriesql.Capture.Fold.Sound.{Folds, build_transcript_fold_command-BindsFold}
use memoriesql.Capture.Fold.Sealed.{FoldLoop, FoldPorts}
use memoriesql.Capture.Fold.SealedOnce.{receipt_binds-ends}
use memoriesql.Capture.Fold.Finished.{Folds-forward}
use memoriesql.Capture.Fold.Migrate.{
  HostCaptureCursorState, Migrated, legacy_binding_of, migrated_state, unstarted_state,
  migration_arguments, migration_outcome, submit_chunk, migrate_chunk, while_left, migrate_chunks,
  finish_migration, unstarted, migrate_acknowledged, migrate_unstarted, migrate_legacy_cursor,
}

-- The loop's variables are those of the last receipt.
abbrev Held : Migrated → Option (CommitTranscriptFoldReceipt × DurableTranscriptRead) → Type 0
Held m none = Unit
Held m (some (receipt, read)) =
    (m.next_offset ≡ receipt.byte_end_exclusive)
    × (m.next_record ≡ receipt.end_record_index)
    × (m.expected_checkpoint_sequence ≡ receipt.checkpoint_sequence)

module _ (py : Runtime) (dumps : Dumps) {E : Type 0} (envelopes : Envelopes E) {W : Type 0}
    (ports : FoldPorts W) (self : FoldLoop) (profile : Option String) (recorded_at : Datetime) where
  -- A round that ends well acknowledges at least one byte, at one checkpoint more.
  submit_chunk-forward :
      (binding : LegacyAdapterCursorBinding) (m m' : Migrated) (stop : ℕ)
      (read : DurableTranscriptRead) (w w' : W)
      → submit_chunk py dumps envelopes ports self profile recorded_at binding m stop read w
        ≡ (ok m', w')
      → (m.next_offset < m'.next_offset)
        × (m'.expected_checkpoint_sequence ≡ m.expected_checkpoint_sequence + 1)
        × Held m' m'.last
  unfolding submit_chunk migration_outcome policy_outcome migration_arguments
  submit_chunk-forward binding m m' stop read w w' ran =
      let (file, _, h1) = lift->>=-eq-ok _ _ ran in
      let (_, _, h2) = lift->>=-eq-ok _ _ h1 in
      let (command, built, h3) = lift->>=-eq-ok _ _ h2 in
      let (receipt, w1, submitted, h4) = >>=-eq-ok _ _ h3 in
      let (_, bound, h5) = lift->>=-eq-ok _ _ h4 in
      let (same, _) = pure-eq-ok _ h5 in
      let (holds, _, _, expected, binds) =
        build_transcript_fold_command-BindsFold py dumps envelopes _ _ _ _ command built in
      let row =
        subst
          (λ os.
            Folds command.byte_start command.start_record_index command.byte_end_exclusive
              command.end_record_index os)
          holds binds.outcomes in
      let forward =
        Folds-forward _ _ _ _
          (migration_outcome py dumps envelopes ports self profile recorded_at m stop read) []
          row in
      let (at_end, _, at_sequence) = receipt_binds-ends receipt command (check-ok _ bound).0 in
      subst
        (λ x.
          (m.next_offset < x.next_offset)
          × (x.expected_checkpoint_sequence ≡ m.expected_checkpoint_sequence + 1)
          × Held x x.last)
        same
        (
          omega (arith, forward, row.0, at_end),
          omega (arith, at_sequence, binds.once, expected),
          (refl, refl, refl),
        )

  migrate_chunk-forward :
      (legacy : HostCaptureCursorState) (binding : LegacyAdapterCursorBinding) (m m' : Migrated)
      (w w' : W)
      → migrate_chunk py dumps envelopes ports self profile recorded_at legacy binding m w
        ≡ (ok m', w')
      → (m.next_offset < m'.next_offset)
        × (m'.expected_checkpoint_sequence ≡ m.expected_checkpoint_sequence + 1)
        × Held m' m'.last
  unfolding migrate_chunk
  migrate_chunk-forward legacy binding m m' w w' ran =
      let (read, w1, _, h1) = >>=-eq-ok _ _ ran in
      let (_, _, h2) = lift->>=-eq-ok _ _ h1 in
      let (_, _, h3) = lift->>=-eq-ok _ _ h2 in
      let (chunk, w2, _, h4) = >>=-eq-ok _ _ h3 in
      let (_, _, h5) = lift->>=-eq-ok _ _ h4 in
      submit_chunk-forward binding m m' chunk.0 chunk.1 w2 w' h5

  while_left-done :
      (c : Bool) (next : Migrated → Exec W Migrated) (round : Exec W Migrated) (m : Migrated)
      (w : W)
      → c ≡ false
      → while_left py dumps envelopes ports self profile recorded_at c next round m w ≡ (ok m, w)
  unfolding pure
  while_left-done true next round m w h = absurd (cc h)
  while_left-done false next round m w h = refl

  while_left-agree :
      (c : Bool) (f g : Migrated → Exec W Migrated) (round : Exec W Migrated) (m : Migrated) (w : W)
      → ((m' : Migrated) (w' : W) → round w ≡ (ok m', w') → f m' w' ≡ g m' w')
      → while_left py dumps envelopes ports self profile recorded_at c f round m w
        ≡ while_left py dumps envelopes ports self profile recorded_at c g round m w
  while_left-agree true f g round m w same = >>=-agree round f g w same
  while_left-agree false f g round m w same = refl

  -- More rounds than there are bytes left change nothing.
  migrate_chunks-enough :
      (legacy : HostCaptureCursorState) (binding : LegacyAdapterCursorBinding) (rounds more : ℕ)
      (m : Migrated) (w : W)
      → rounds ≤ more
      → legacy.acknowledged_offset ≤ m.next_offset + rounds
      → migrate_chunks py dumps envelopes ports self profile recorded_at more legacy binding m w
        ≡ migrate_chunks py dumps envelopes ports self profile recorded_at rounds legacy binding m w
  unfolding migrate_chunks pure
  migrate_chunks-enough legacy binding zero zero m w few h = refl
  migrate_chunks-enough legacy binding zero (suc more) m w few h =
      while_left-done (ltb m.next_offset legacy.acknowledged_offset) _ _ m w (ground (arith, h))
  migrate_chunks-enough legacy binding (suc rounds) zero m w few h = absurd (omega (arith, few))
  migrate_chunks-enough legacy binding (suc rounds) (suc more) m w few h =
      while_left-agree (ltb m.next_offset legacy.acknowledged_offset) _ _ _ m w (λ m' w' ran.
        let (forward, _, _) = migrate_chunk-forward legacy binding m m' w w' ran in
        migrate_chunks-enough legacy binding rounds more m' w' (omega (arith, few))
          (omega (arith, h, forward)))

  -- The rounds of the migration are enough: with more rounds than there are acknowledged bytes it
  -- does and returns the same.
  pub migrate_acknowledged-enough :
      (legacy : HostCaptureCursorState) (rounds : ℕ) (w : W)
      → legacy.acknowledged_offset ≤ rounds
      → migrate_acknowledged py dumps envelopes ports self profile recorded_at rounds legacy w
        ≡ migrate_acknowledged py dumps envelopes ports self profile recorded_at
            legacy.acknowledged_offset legacy w
  unfolding migrate_acknowledged
  migrate_acknowledged-enough legacy rounds w enough = >>=-agree _ _ _ w (λ u w' _.
      >>=-same _ _ _ w' (
        migrate_chunks-enough legacy (legacy_binding_of py legacy) legacy.acknowledged_offset rounds
          (unstarted py dumps envelopes ports self profile recorded_at legacy) w' enough
          (omega arith)))

  migrate_chunks-Held :
      (legacy : HostCaptureCursorState) (binding : LegacyAdapterCursorBinding) (rounds : ℕ)
      (m m' : Migrated) (w w' : W)
      → Held m m.last
      → migrate_chunks py dumps envelopes ports self profile recorded_at rounds legacy binding m w
        ≡ (ok m', w')
      → Held m' m'.last × (m.expected_checkpoint_sequence ≤ m'.expected_checkpoint_sequence)
  unfolding migrate_chunks
  migrate_chunks-Held legacy binding zero m m' w w' held ran =
      subst (λ x. Held x x.last × (m.expected_checkpoint_sequence ≤ x.expected_checkpoint_sequence))
        (pure-eq-ok _ ran).0 (held, omega arith)
  migrate_chunks-Held legacy binding (suc rounds) m m' w w' held ran =
      go _ (λ m1 w1 held1 k. migrate_chunks-Held legacy binding rounds m1 m' w1 w' held1 k) ran
    where
      next : Migrated → Exec W Migrated
      next = migrate_chunks py dumps envelopes ports self profile recorded_at rounds legacy binding

      Kept : Migrated → Migrated → Type 0
      Kept a b = Held b b.last × (a.expected_checkpoint_sequence ≤ b.expected_checkpoint_sequence)

      go :
          (c : Bool)
          → ((m1 : Migrated) (w1 : W) → Held m1 m1.last → next m1 w1 ≡ (ok m', w') → Kept m1 m')
          → while_left py dumps envelopes ports self profile recorded_at c next
              (migrate_chunk py dumps envelopes ports self profile recorded_at legacy binding m)
              m
              w
            ≡ (ok m', w')
          → Kept m m'
      go true rest h =
          let (m1, w1, ran1, h1) = >>=-eq-ok _ _ h in
          let (_, later, held1) = migrate_chunk-forward legacy binding m m1 w w1 ran1 in
          let (held', further) = rest m1 w1 held1 h1 in (held', omega (arith, later, further))
      go false rest h = subst (Kept m) (pure-eq-ok _ h).0 (held, omega arith)

  -- A valid cursor with nothing pending was committed in the place of the legacy cursor, at its
  -- position and one revision later. If the legacy cursor had acknowledged bytes, the records and
  -- the checkpoint are its own, or later.
  pub record MovedTo (legacy : HostCaptureCursorState) (s : TranscriptFoldCursorState) (w' : W)
      : Type 0 where
    pub before_commit : W
    pub valid : validate_fold_cursor py s ≡ ok tt
    pub committed : ports.commit legacy.revision s before_commit ≡ (ok tt, w')
    pub capability : s.capability_id ≡ legacy.capability_id
    pub offset : s.acknowledged_offset ≡ legacy.acknowledged_offset
    pub index :
        (legacy.acknowledged_offset ≡ 0)
        ⊎ ((s.acknowledged_record_index ≡ legacy.acknowledged_record_index)
            × (legacy.checkpoint_sequence ≤ s.checkpoint_sequence))
    pub revision : s.revision ≡ legacy.revision + 1
    pub nothing_pending : s.pending_ranges ≡ []

  migrate_unstarted-MovedTo :
      (legacy : HostCaptureCursorState) (s : TranscriptFoldCursorState) (w w' : W)
      → legacy.acknowledged_offset ≡ 0
      → migrate_unstarted py dumps envelopes ports self profile recorded_at legacy w ≡ (ok s, w')
      → MovedTo legacy s w'
  unfolding migrate_unstarted unstarted_state
  migrate_unstarted-MovedTo legacy s w w' none_yet ran =
      let (_, valid, h1) = lift->>=-eq-ok _ _ ran in
      let (_, w1, committed, h2) = >>=-eq-ok _ _ h1 in
      let (same, same') = pure-eq-ok _ h2 in
      subst (λ x. MovedTo legacy x w') same
        (record {
          before_commit = w;
          valid = valid;
          committed = committed ∙ ap (λ x. (ok tt, x)) same';
          capability = refl;
          offset = sym none_yet;
          index = inl none_yet;
          revision = refl;
          nothing_pending = refl;
        })

  finish_migration-MovedTo :
      (legacy : HostCaptureCursorState) (m : Migrated)
      (last : Option (CommitTranscriptFoldReceipt × DurableTranscriptRead))
      (s : TranscriptFoldCursorState) (w w' : W)
      → Held m last
      → legacy.checkpoint_sequence ≤ m.expected_checkpoint_sequence
      → finish_migration py dumps envelopes ports self profile recorded_at legacy m last w
        ≡ (ok s, w')
      → MovedTo legacy s w'
  unfolding finish_migration migrated_state raise
  finish_migration-MovedTo legacy m none s w w' held later ran = absurd (cc (ap (λ p. p.0) ran))
  finish_migration-MovedTo legacy m (some (receipt, read)) s w w' held later ran =
      let (at_end, at_index, at_sequence) = held in
      let (_, covered, h1) = lift->>=-eq-ok _ _ ran in
      let (_, valid, h2) = lift->>=-eq-ok _ _ h1 in
      let (_, w1, committed, h3) = >>=-eq-ok _ _ h2 in
      let (same, same') = pure-eq-ok _ h3 in
      let (offset, (index, _)) = check-ok _ covered in
      subst (λ x. MovedTo legacy x w') same
        (record {
          before_commit = w;
          valid = valid;
          committed = committed ∙ ap (λ x. (ok tt, x)) same';
          capability = refl;
          offset = omega (tests, offset, at_end);
          index = inr (omega (tests, index, at_index), omega (arith, later, at_sequence));
          revision = refl;
          nothing_pending = refl;
        })

  -- A migration that returns left a cursor at the position of the legacy cursor.
  pub migrate_legacy_cursor-MovedTo :
      (legacy : HostCaptureCursorState) (s : TranscriptFoldCursorState) (w w' : W)
      → migrate_legacy_cursor py dumps envelopes ports self profile recorded_at legacy w
        ≡ (ok s, w')
      → MovedTo legacy s w'
  unfolding migrate_legacy_cursor migrate_acknowledged
  migrate_legacy_cursor-MovedTo legacy s w w' ran =
      let (_, _, h1) = lift->>=-eq-ok _ _ ran in
      elim (if-cases (eqb legacy.acknowledged_offset 0) _ _ h1) [
        | inl (zero', h2) ↦ migrate_unstarted-MovedTo legacy s w w' (omega (tests, zero')) h2
        | inr (_, h2) ↦
            let (_, _, h3) = lift->>=-eq-ok _ _ h2 in
            let (m, w1, ran1, h4) = >>=-eq-ok _ _ h3 in
            let (held, later) =
              migrate_chunks-Held legacy _ legacy.acknowledged_offset _ m w w1 tt ran1 in
            finish_migration-MovedTo legacy m m.last s w1 w' held later h4
      ]
