-- ===== src/Postgres/Tests.antt =====
-- A transaction that loses two locks and then returns.
use memoriesql.Prelude.{ℕ, zero, suc, ◌+◌, ◌≡◌, refl, ◌↔◌, arith}
use memoriesql.Postgres.Retry.{
  Outcome, returned, raised, lock_not_available, transient, next_backoff, run_owned,
}
use memoriesql.Postgres.Retried.{Retries, run_owned-Retries, now, later, run_owned-Recovers}

-- The state holds the locks to be lost and the time waited.
abbrev attempt : ℕ × ℕ → Outcome ℕ × (ℕ × ℕ)
attempt (zero, waited) = (returned 7, (zero, waited))
attempt (suc locks, waited) = (raised lock_not_available, (locks, waited))

abbrev pause : ℕ → ℕ × ℕ → ℕ × ℕ
pause backoff (locks, waited) = (locks, waited + backoff)

run_owned-Retries_example :
    (run_owned attempt pause 4 (2, 0) ≡ (returned 7, (0, 150)))
    ↔ Retries attempt pause 3 0 (2, 0) (returned 7, (0, 150))
run_owned-Retries_example =
    run_owned-Retries attempt pause 4 (2, 0) (returned 7, (0, 150)) (omega arith) (omega arith)

run_owned-Recovers_example : run_owned attempt pause 3 (2, 0) ≡ (returned 7, (0, 150))
unfolding transient next_backoff
run_owned-Recovers_example =
    run_owned-Recovers attempt pause 3 2 (2, 0) (0, 150) 7 (omega arith) (omega arith)
      (later lock_not_available refl refl (later lock_not_available refl refl (now refl)))
