-- ===== src/Capture/Range/Runs.antt =====
-- Many transactions of the raw capture loop, over a cursor store that keeps what was committed.
use memoriesql.Prelude.{
  ℕ, zero, suc, ◌+◌, ◌≤◌, ◌≡◌, refl, ◌⊎◌, inl, inr, Bool, true, false, Option, none, some, List, [],
  ◌∷◌, length, ok, checked-eq-ok, arith, ap,
}
use memoriesql.Contracts.Runtime.{Runtime, Json}
use memoriesql.Contracts.Exec.{Exec, raise, >>=-eq-ok, lift->>=-eq-ok, pure-eq-ok}
use memoriesql.Capture.Host.{Datetime}
use memoriesql.Capture.Range.Command.{CaptureSourceRangeCommand}
use memoriesql.Capture.Range.Cursor.{RawSourceCaptureResult, is_captured}
use memoriesql.Capture.Range.Loop.{
  Ports, RawSourceCaptureLoop, paused_after, keep_going, rounds, run_once, run_until_pause,
}

-- Every result but the last reports a captured range, and the last does not.
abbrev pub EndsOnce : List RawSourceCaptureResult → Type 0
EndsOnce [] = ⊥
EndsOnce (r ∷ []) = is_captured r.status ≡ false
EndsOnce (r ∷ r' ∷ rs) = (is_captured r.status ≡ true) × EndsOnce (r' ∷ rs)

module _ (py : Runtime) (model_dump : CaptureSourceRangeCommand → Json) {W : Type 0}
    (ports : Ports W) (self : RawSourceCaptureLoop) (recorded_at : Datetime) where
  EndsOnce-cons :
      (r : RawSourceCaptureResult) (rs : List RawSourceCaptureResult)
      → is_captured r.status ≡ true
      → EndsOnce rs
      → EndsOnce (r ∷ rs)
  EndsOnce-cons r [] c h = absurd h
  EndsOnce-cons r (r' ∷ rs) c h = (c, h)

  -- What the step after a transaction did.
  keep_going-cases :
      (captured : Bool) (r : RawSourceCaptureResult) (next : Exec W (List RawSourceCaptureResult))
      (rs : List RawSourceCaptureResult) (w w' : W)
      → keep_going py model_dump ports captured r next w ≡ (ok rs, w')
      → ((captured ≡ true)
          × ((rs' : List RawSourceCaptureResult) × (next w ≡ (ok rs', w')) × ((r ∷ rs') ≡ rs)))
        ⊎ ((captured ≡ false) × ((r ∷ []) ≡ rs) × (w ≡ w'))
  unfolding keep_going
  keep_going-cases true r next rs w w' h =
      let (rs', w1, ran, h1) = >>=-eq-ok _ _ h in
      let (is_rs, same) = pure-eq-ok _ h1 in inl (refl, (rs', rw (← same) ran, is_rs))
  keep_going-cases false r next rs w w' h =
      let (is_rs, same) = pure-eq-ok _ h in inr (refl, is_rs, same)

  -- A property of the loop, by its rounds: of the paused result, of a last result, and of one more
  -- captured result in front.
  module _ (P : Option RawSourceCaptureResult → W → List RawSourceCaptureResult → W → ℕ → Type 0)
      (paused : (last : RawSourceCaptureResult) (w : W)
        → P (some last) w (paused_after last ∷ []) w 0)
      (final : (left : ℕ) (last : Option RawSourceCaptureResult) (r : RawSourceCaptureResult)
          (w w' : W)
        → run_once py model_dump ports self recorded_at w ≡ (ok r, w')
        → is_captured r.status ≡ false
        → P last w (r ∷ []) w' (suc left))
      (more : (left : ℕ) (last : Option RawSourceCaptureResult) (r : RawSourceCaptureResult)
          (w w1 : W) (rs : List RawSourceCaptureResult) (w' : W)
        → run_once py model_dump ports self recorded_at w ≡ (ok r, w1)
        → is_captured r.status ≡ true
        → P (some r) w1 rs w' left
        → P last w (r ∷ rs) w' (suc left)) where
    pub rounds_ind :
        (left : ℕ) (last : Option RawSourceCaptureResult) (rs : List RawSourceCaptureResult)
        (w w' : W)
        → rounds py model_dump ports self recorded_at left last w ≡ (ok rs, w')
        → P last w rs w' left
    unfolding rounds
    rounds_ind zero none rs w w' h = absurd (unfold raise in cc (ap (λ p. p.0) h))
    rounds_ind zero (some last) rs w w' h =
        let (r, report, h1) = lift->>=-eq-ok _ _ h in
        let (_, is_r) = checked-eq-ok _ _ report in
        let (is_rs, same) = pure-eq-ok _ h1 in rw (← is_rs, ← same, ← is_r) (paused last w)
    rounds_ind (suc left) last rs w w' h =
        let (r, w1, once, h1) = >>=-eq-ok _ _ h in
        elim (keep_going-cases (is_captured r.status) r
          (rounds py model_dump ports self recorded_at left (some r)) rs w1 w' h1) [
            | inl (captured, (rs', next, is_rs)) ↦ rw (← is_rs) (
                more left last r w w1 rs' w' once captured
                  (rounds_ind left (some r) rs' w1 w' next))
            | inr (stop, is_rs, same) ↦ rw (← is_rs, ← same) (final left last r w w1 once stop)
          ]

  -- The loop ends after at most its budget and one result more; every result but the last reports a
  -- captured range, and the last never does.
  rounds-EndsOnce :
      (left : ℕ) (last : Option RawSourceCaptureResult) (rs : List RawSourceCaptureResult)
      (w w' : W)
      → rounds py model_dump ports self recorded_at left last w ≡ (ok rs, w')
      → EndsOnce rs × (length rs ≤ left + 1)
  rounds-EndsOnce =
      rounds_ind (λ last w rs w' left. EndsOnce rs × (length rs ≤ left + 1))
        (λ last w. (unfold paused_after in refl, omega arith))
        (λ left last r w w' once stop. (stop, omega arith))
        (λ left last r w w1 rs w' once captured ih.
          (EndsOnce-cons r rs captured ih.0, omega (arith, ih.1)))

  -- A captured run never reports more than its budget allows: `run_until_pause` returns at most one
  -- result more than `max_transactions`, of which every one but the last reports a captured range
  -- and the last, a stop or the pause, does not.
  pub run_until_pause-EndsOnce :
      (max_transactions : ℕ) (rs : List RawSourceCaptureResult) (w w' : W)
      → run_until_pause py model_dump ports self recorded_at max_transactions w ≡ (ok rs, w')
      → EndsOnce rs × (length rs ≤ max_transactions + 1)
  unfolding run_until_pause
  run_until_pause-EndsOnce max_transactions rs w w' h =
      let (_, _, h1) = lift->>=-eq-ok _ _ h in rounds-EndsOnce max_transactions none rs w w' h1
