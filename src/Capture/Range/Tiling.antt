-- ===== src/Capture/Range/Tiling.antt =====
-- The raw capture loop over a cursor store that keeps what was committed: the captured ranges lie
-- one after the other.
use mathlib.Core.Path.{subst₂}
use memoriesql.Prelude.{
  ℕ, ◌+◌, ◌<◌, ◌≡◌, refl, ◌∙◌, inl, inr, true, false, Option, none, some, List, [], ◌∷◌, ok,
  checked-eq-ok, arith, ap, sym, String,
}
use memoriesql.Contracts.Runtime.{Runtime, Json}
use memoriesql.Contracts.Exec.{lift->>=-eq-ok}
use memoriesql.Capture.Host.{Uuid, Datetime, HostReadRequest, HostReadResponse}
use memoriesql.Capture.Range.Command.{CaptureSourceRangeCommand}
use memoriesql.Capture.Range.Sound.{validate_command-Binds}
use memoriesql.Capture.Range.Cursor.{
  CaptureSourceRangeReceipt, RawSourceCursorState, RawSourceCaptureResult, is_captured,
}
use memoriesql.Capture.Range.Loop.{
  Ports, RawSourceCaptureLoop, or_initial, start_state, advance, paused_after, rounds, run_once,
  run_until_pause,
}
use memoriesql.Capture.Range.Runs.{rounds_ind}
use memoriesql.Capture.Range.Once.{Ran, Idle, Advanced, run_once-Ran, binds-eqs}

-- What the loop relies on from a cursor store: it loads what was committed last, and the other
-- ports leave it alone. `view` is the stored cursor.
pub record KeepsCursor {W : Type 0} (ports : Ports W) : Type 0 where
  pub view : W → Option RawSourceCursorState
  pub load_view :
      (capability_id : String) (w : W) (loaded : Option RawSourceCursorState) (w' : W)
      → ports.load capability_id w ≡ (ok loaded, w')
      → (loaded ≡ view w) × (view w' ≡ view w)
  pub uuid4_view : (w : W) (u : Uuid) (w' : W) → ports.uuid4 w ≡ (ok u, w') → view w' ≡ view w
  pub read_view :
      (request : HostReadRequest) (w : W) (response : HostReadResponse) (w' : W)
      → ports.read request w ≡ (ok response, w')
      → view w' ≡ view w
  pub capture_view :
      (command : CaptureSourceRangeCommand) (t : Datetime) (w : W)
      (receipt : CaptureSourceRangeReceipt) (w' : W)
      → ports.capture command t w ≡ (ok receipt, w')
      → view w' ≡ view w
  pub commit_view :
      (revision : ℕ) (state : RawSourceCursorState) (w w' : W)
      → ports.commit revision state w ≡ (ok tt, w')
      → view w' ≡ some state

start_state-eq :
    (self : RawSourceCaptureLoop) (loaded : Option RawSourceCursorState)
    (state : RawSourceCursorState)
    → start_state self loaded ≡ ok state
    → state ≡ or_initial self loaded
unfolding start_state
start_state-eq self none state h = let (_, e) = checked-eq-ok _ _ h in sym e
start_state-eq self (some s) state h = cc

module _ (self : RawSourceCaptureLoop) where
  abbrev pub offset_of : Option RawSourceCursorState → ℕ
  offset_of stored = (or_initial self stored).acknowledged_byte_offset

  abbrev pub sequence_of : Option RawSourceCursorState → ℕ
  sequence_of stored = (or_initial self stored).checkpoint_sequence

-- The result of one transaction that starts at `offset` and `sequence` and ends at the other two.
pub data Tile (r : RawSourceCaptureResult) (offset sequence offset' sequence' : ℕ) : Type 0 where
  covers :
      (receipt : CaptureSourceRangeReceipt)
      → is_captured r.status ≡ true
      → r.receipt ≡ some receipt
      → receipt.byte_start ≡ offset
      → receipt.byte_end_exclusive ≡ offset'
      → offset < offset'
      → sequence' ≡ sequence + 1
      → Tile r offset sequence offset' sequence'
  rests :
      is_captured r.status ≡ false
      → r.receipt ≡ none
      → offset' ≡ offset
      → sequence' ≡ sequence
      → Tile r offset sequence offset' sequence'

-- The results report the bytes from `offset` to `last_offset` one range after the other.
abbrev pub Tiles : List RawSourceCaptureResult → ℕ → ℕ → ℕ → ℕ → Type 0
Tiles [] offset sequence last_offset last_sequence =
    (last_offset ≡ offset) × (last_sequence ≡ sequence)
Tiles (r ∷ rs) offset sequence last_offset last_sequence =
    Tile r offset sequence r.acknowledged_byte_offset r.checkpoint_sequence
    × Tiles rs r.acknowledged_byte_offset r.checkpoint_sequence last_offset last_sequence

module _ (py : Runtime) (model_dump : CaptureSourceRangeCommand → Json) {W : Type 0}
    (ports : Ports W) (store : KeepsCursor ports) (self : RawSourceCaptureLoop)
    (recorded_at : Datetime) where
  open store use {view}

  started-at_view :
      (r : RawSourceCaptureResult) (w w' : W)
      (ran : Ran py model_dump ports self recorded_at r w w')
      → (ran.state ≡ or_initial self (view w)) × (view ran.after_read ≡ view w)
  started-at_view r w w' ran =
      let (is_view, kept) = store.load_view _ _ _ _ ran.load in
      let (u, named) = ran.named in
      (
        start_state-eq self ran.loaded ran.state ran.started ∙ ap (or_initial self) is_view,
        store.read_view _ _ _ _ ran.read ∙ (store.uuid4_view _ _ _ named ∙ kept),
      )

  abbrev Reports : RawSourceCaptureResult → W → W → Type 0
  Reports r w w' =
      Tile r (offset_of self (view w)) (sequence_of self (view w)) r.acknowledged_byte_offset
        r.checkpoint_sequence
      × (r.acknowledged_byte_offset ≡ offset_of self (view w'))
      × (r.checkpoint_sequence ≡ sequence_of self (view w'))

  Idle-Reports :
      (r : RawSourceCaptureResult) (w w' : W) (state : RawSourceCursorState)
      → state ≡ or_initial self (view w)
      → view w' ≡ view w
      → Idle py model_dump ports self recorded_at state r w'
      → Reports r w w'
  Idle-Reports r w w' state at_view kept idle =
      let offset =
        idle.offset ∙ ap (λ (s : RawSourceCursorState). s.acknowledged_byte_offset) at_view in
      let sequence =
        idle.sequence ∙ ap (λ (s : RawSourceCursorState). s.checkpoint_sequence) at_view in
      (
        rests idle.not_captured idle.no_receipt offset sequence,
        offset ∙ ap (offset_of self) (sym kept),
        sequence ∙ ap (sequence_of self) (sym kept),
      )

  Advanced-Reports :
      (r : RawSourceCaptureResult) (response : HostReadResponse) (w v w' : W)
      (state : RawSourceCursorState)
      → state ≡ or_initial self (view w)
      → Advanced py model_dump ports self recorded_at state response r v w'
      → Reports r w w'
  unfolding advance
  Advanced-Reports r response w v w' state at_view a =
      let offset = ap (λ (s : RawSourceCursorState). s.acknowledged_byte_offset) at_view in
      let sequence = ap (λ (s : RawSourceCursorState). s.checkpoint_sequence) at_view in
      let (from, to, next) =
        binds-eqs py model_dump ports self recorded_at state a.file a.command a.receipt a.bound in
      let stored = store.commit_view _ _ _ _ a.committed in
      let bound = validate_command-Binds py model_dump a.command a.valid in
      (
        covers a.receipt (rw a.status) a.reported (from ∙ (a.start ∙ offset)) (to ∙ sym a.offset)
            (omega (arith, bound.nonempty, a.start, offset, a.offset))
            (omega (arith, a.sequence, sequence)),
        a.offset ∙ (sym to ∙ ap (offset_of self) (sym stored)),
        a.sequence ∙ (sym next ∙ ap (sequence_of self) (sym stored)),
      )

  -- One transaction reports the range between the stored cursors before and after it.
  once-Reports :
      (r : RawSourceCaptureResult) (w w' : W)
      → run_once py model_dump ports self recorded_at w ≡ (ok r, w')
      → Reports r w w'
  once-Reports r w w' h =
      let ran = run_once-Ran py model_dump ports self recorded_at w w' h in
      let (at_view, kept) = started-at_view r w w' ran in
      elim ran.handled [
        | inl (idle, same) ↦ Idle-Reports r w w' ran.state at_view (rw (← same) kept) idle
        | inr advanced ↦
            Advanced-Reports r ran.response w ran.after_read w' ran.state at_view advanced
      ]

  -- Where a round's last result stands.
  abbrev Stands : Option RawSourceCaptureResult → W → Type 0
  Stands none w = Unit {0}
  Stands (some last) w =
      (last.acknowledged_byte_offset ≡ offset_of self (view w))
      × (last.checkpoint_sequence ≡ sequence_of self (view w))

  abbrev Covered : Option RawSourceCaptureResult → W → List RawSourceCaptureResult → W → ℕ → Type 0
  Covered last w rs w' left =
      Stands last w
      → Tiles rs (offset_of self (view w)) (sequence_of self (view w)) (offset_of self (view w'))
          (sequence_of self (view w'))

  rounds-Tiles :
      (left : ℕ) (last : Option RawSourceCaptureResult) (rs : List RawSourceCaptureResult)
      (w w' : W)
      → rounds py model_dump ports self recorded_at left last w ≡ (ok rs, w')
      → Covered last w rs w' left
  rounds-Tiles =
      rounds_ind py model_dump ports self recorded_at Covered
        (λ last w at. unfold paused_after in (rests refl refl at.0 at.1, (sym at.0, sym at.1)))
        (λ left last r w w' once stop at.
          let (tile, offset, sequence) = once-Reports r w w' once in
          (tile, (sym offset, sym sequence)))
        (λ left last r w w1 rs w' once captured ih at.
          let (tile, offset, sequence) = once-Reports r w w1 once in
          (
            tile,
            subst₂ (λ o q. Tiles rs o q (offset_of self (view w')) (sequence_of self (view w')))
                (sym offset) (sym sequence) (ih (offset, sequence)),
          ))

  -- Over a store that keeps the cursor, the ranges that a run reports as captured follow one another
  -- with no gap and no overlap, each in one checkpoint step, from the cursor stored before the run
  -- to the cursor stored after it.
  pub run_until_pause-Tiles :
      (max_transactions : ℕ) (rs : List RawSourceCaptureResult) (w w' : W)
      → run_until_pause py model_dump ports self recorded_at max_transactions w ≡ (ok rs, w')
      → Tiles rs
          (offset_of self (view w))
          (sequence_of self (view w))
          (offset_of self (view w'))
          (sequence_of self (view w'))
  unfolding run_until_pause
  run_until_pause-Tiles max_transactions rs w w' h =
      let (_, _, h1) = lift->>=-eq-ok _ _ h in rounds-Tiles max_transactions none rs w w' h1 tt
