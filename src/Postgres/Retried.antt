-- ===== src/Postgres/Retried.antt =====
-- The runs that `run_owned` of transient_retry.py makes of a transaction.
use memoriesql.Prelude.{
  ℕ, zero, suc, ◌-◌, ◌≤◌, ◌<◌, ◌≡◌, refl, sym, ap, subst, ◌∙◌, ◌↔◌, inl, inr, Bool-cases, Bool,
  true, false, arith, le→leb, if◌then◌else◌,
}
use memoriesql.Postgres.Retry.{
  max_attempts, first_backoff, next_backoff, Failure, Outcome, returned, raised, transient, handle,
  retry, run_owned,
}
use memoriesql.Postgres.Contention.{Contends, contention}

-- The backoff of the pause after so many pauses, in milliseconds.
abbrev pub wait : ℕ → ℕ
wait zero = 50
wait (suc zero) = 100
wait (suc (suc pauses)) = 200

next_backoff-wait : (pauses : ℕ) → next_backoff (wait pauses) ≡ wait (suc pauses)
unfolding next_backoff
next_backoff-wait zero = refl
next_backoff-wait (suc zero) = refl
next_backoff-wait (suc (suc pauses)) = refl

module _ {A W : Type 0} (attempt : W → Outcome A × W) (pause : ℕ → W → W) where
  -- The transaction is run until it returns, raises an error that is not one of lock contention, or
  -- was run for the last time; between two runs is a pause. The indices are the runs that remain
  -- after the next one, and the pauses that were made.
  pub data Retries : ℕ → ℕ → W → Outcome A × W → Type 0 where
    returns :
        {remaining pauses : ℕ} {w w' : W} (a : A)
        → attempt w ≡ (returned a, w')
        → Retries remaining pauses w (returned a, w')
    refuses :
        {remaining pauses : ℕ} {w w' : W} (e : Failure)
        → attempt w ≡ (raised e, w')
        → ¬ Contends e
        → Retries remaining pauses w (raised e, w')
    gives_up :
        {pauses : ℕ} {w w' : W} (e : Failure)
        → attempt w ≡ (raised e, w')
        → Retries zero pauses w (raised e, w')
    again :
        {remaining pauses : ℕ} {w w' : W} (e : Failure) {p : Outcome A × W}
        → attempt w ≡ (raised e, w')
        → Contends e
        → Retries remaining (suc pauses) (pause (wait pauses) w') p
        → Retries (suc remaining) pauses w p

  last-Retries : (pauses : ℕ) (w : W) (p : Outcome A × W) → attempt w ≡ p → Retries zero pauses w p
  last-Retries pauses w (returned a, w') h = returns a h
  last-Retries pauses w (raised e, w') h = gives_up e h

  handle-Retries :
      (remaining pauses : ℕ) (rest : W → Outcome A × W) (w : W) (p : Outcome A × W)
      → ((w' : W) → Retries remaining (suc pauses) w' (rest w'))
      → attempt w ≡ p
      → Retries (suc remaining) pauses w (handle attempt pause rest (wait pauses) p)
  unfolding handle
  handle-Retries remaining pauses rest w (returned a, w') further h = returns a h
  handle-Retries remaining pauses rest w (raised e, w') further h = go _ refl
    where
      go :
          (c : Bool)
          → transient e ≡ c
          → Retries
              (suc remaining)
              pauses
              w
              (if c then rest (pause (wait pauses) w') else (raised e, w'))
      go true k = again e h ((contention e).0 k) (further (pause (wait pauses) w'))
      go false k = refuses e h (λ contends. absurd (cc (k, (contention e).1 contends)))

  retry-Retries :
      (remaining pauses : ℕ) (w : W)
      → Retries remaining pauses w (retry attempt pause remaining (wait pauses) w)
  unfolding retry
  retry-Retries zero pauses w = last-Retries pauses w (attempt w) refl
  retry-Retries (suc remaining) pauses w =
      handle-Retries remaining pauses (retry attempt pause remaining (next_backoff (wait pauses))) w
        (attempt w)
        (subst
          (λ b. (w' : W) → Retries remaining (suc pauses) w' (retry attempt pause remaining b w'))
          (sym (next_backoff-wait pauses)) (retry-Retries remaining (suc pauses)))
        refl

  handle-again :
      (rest : W → Outcome A × W) (backoff : ℕ) (e : Failure) (w : W)
      → transient e ≡ true
      → handle attempt pause rest backoff (raised e, w) ≡ rest (pause backoff w)
  unfolding handle
  handle-again rest backoff e w h = rw h refl

  handle-refuses :
      (rest : W → Outcome A × W) (backoff : ℕ) (e : Failure) (w : W)
      → transient e ≡ false
      → handle attempt pause rest backoff (raised e, w) ≡ (raised e, w)
  unfolding handle
  handle-refuses rest backoff e w h = rw h refl

  -- A run that returns ends the loop.
  retry-returns :
      (remaining backoff : ℕ) (w w' : W) (a : A)
      → attempt w ≡ (returned a, w')
      → retry attempt pause remaining backoff w ≡ (returned a, w')
  unfolding retry handle
  retry-returns zero backoff w w' a h = h
  retry-returns (suc remaining) backoff w w' a h =
      ap (handle attempt pause (retry attempt pause remaining (next_backoff backoff)) backoff) h

  -- A run that lock contention stopped is followed by a pause and another.
  retry-again :
      (remaining backoff : ℕ) (w w' : W) (e : Failure)
      → attempt w ≡ (raised e, w')
      → transient e ≡ true
      → retry attempt pause (suc remaining) backoff w
        ≡ retry attempt pause remaining (next_backoff backoff) (pause backoff w')
  unfolding retry
  retry-again remaining backoff w w' e h k =
      ap (handle attempt pause (retry attempt pause remaining (next_backoff backoff)) backoff) h
      ∙ handle-again (retry attempt pause remaining (next_backoff backoff)) backoff e w' k

  retry-refuses :
      (remaining backoff : ℕ) (w w' : W) (e : Failure)
      → attempt w ≡ (raised e, w')
      → transient e ≡ false
      → retry attempt pause remaining backoff w ≡ (raised e, w')
  unfolding retry
  retry-refuses zero backoff w w' e h k = h
  retry-refuses (suc remaining) backoff w w' e h k =
      ap (handle attempt pause (retry attempt pause remaining (next_backoff backoff)) backoff) h
      ∙ handle-refuses (retry attempt pause remaining (next_backoff backoff)) backoff e w' k

  not_contending : (e : Failure) → ¬ Contends e → transient e ≡ false
  not_contending e other = elim (Bool-cases (transient e)) [
    | inl h ↦ absurd (other ((contention e).0 h))
    | inr k ↦ k
  ]

  Retries-retry :
      {remaining pauses : ℕ} {w : W} {p : Outcome A × W}
      → Retries remaining pauses w p
      → retry attempt pause remaining (wait pauses) w ≡ p
  unfolding retry
  Retries-retry (returns a h) = retry-returns _ _ _ _ a h
  Retries-retry (refuses e h k) = retry-refuses _ _ _ _ e h (not_contending e k)
  Retries-retry (gives_up e h) = h
  Retries-retry (again {remaining = remaining} {pauses = pauses} {w' = w'} e h k more) =
      retry-again _ _ _ _ e h ((contention e).1 k)
      ∙ ap (λ b. retry attempt pause remaining b (pause (wait pauses) w'))
          (next_backoff-wait pauses)
      ∙ Retries-retry more

  run_owned-retry :
      (attempts : ℕ) (w : W)
      → 1 ≤ attempts
      → attempts ≤ max_attempts
      → run_owned attempt pause attempts w ≡ retry attempt pause (attempts - 1) first_backoff w
  unfolding run_owned
  run_owned-retry attempts w least most =
      rw (le→leb 1 attempts least, le→leb attempts max_attempts most) refl

  -- With one to four attempts, `run_owned` gives a result exactly if the runs of the transaction
  -- give it: they go on after an error of lock contention while attempts are left, with pauses for
  -- backoffs of 50, 100 and 200 milliseconds between them, and end with a value, with any other
  -- error, or with the error of the last attempt.
  pub run_owned-Retries :
      (attempts : ℕ) (w : W) (p : Outcome A × W)
      → 1 ≤ attempts
      → attempts ≤ 4
      → (run_owned attempt pause attempts w ≡ p) ↔ Retries (attempts - 1) 0 w p
  run_owned-Retries attempts w p least most =
      let same = run_owned-retry attempts w least most in
      (
        λ h. subst (Retries (attempts - 1) 0 w) (sym same ∙ h) (retry-Retries (attempts - 1) 0 w),
        λ runs. same ∙ Retries-retry runs,
      )

  -- A transaction that fails for a transient reason as many times as given, and then returns.
  pub data Recovers : ℕ → ℕ → W → A → W → Type 0 where
    now :
        {backoff : ℕ} {w w' : W} {a : A}
        → attempt w ≡ (returned a, w')
        → Recovers zero backoff w a w'
    later :
        {failures backoff : ℕ} {w w' w'' : W} {a : A} (e : Failure)
        → attempt w ≡ (raised e, w')
        → transient e ≡ true
        → Recovers failures (next_backoff backoff) (pause backoff w') a w''
        → Recovers (suc failures) backoff w a w''

  Recovers-retry :
      {failures backoff : ℕ} {w w' : W} {a : A} (remaining : ℕ)
      → Recovers failures backoff w a w'
      → failures ≤ remaining
      → retry attempt pause remaining backoff w ≡ (returned a, w')
  Recovers-retry remaining (now h) few = retry-returns _ _ _ _ _ h
  Recovers-retry zero (later e h k more) few = absurd (omega (arith, few))
  Recovers-retry (suc remaining) (later e h k more) few =
      retry-again _ _ _ _ e h k ∙ Recovers-retry remaining more (omega (arith, few))

  -- A transaction that lock contention stops fewer times than there are attempts, and that then
  -- returns, is brought to its end: `run_owned` returns what it returned.
  pub run_owned-Recovers :
      (attempts failures : ℕ) (w w' : W) (a : A)
      → failures < attempts
      → attempts ≤ max_attempts
      → Recovers failures first_backoff w a w'
      → run_owned attempt pause attempts w ≡ (returned a, w')
  run_owned-Recovers attempts failures w w' a fewer most recovers =
      run_owned-retry attempts w (omega (arith, fewer)) most
      ∙ Recovers-retry (attempts - 1) recovers (omega (arith, fewer))
