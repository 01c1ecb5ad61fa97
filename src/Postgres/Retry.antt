-- ===== src/Postgres/Retry.antt =====
-- transient_retry.py: an owned transaction that lock contention stopped is run again. Errors are
-- those of the database driver, which the code tells apart by their classes.
use memoriesql.Prelude.{
  ℕ, zero, suc, ◌*◌, ◌-◌, min, String, Bool, true, false, ◌&&◌, Option, none, some, leb, eqb,
  string_eq, ◌==◌, if◌then◌else◌,
}
use Prim.Native.Char.{code}

abbrev pub max_attempts : ℕ
max_attempts = 4

-- In milliseconds.
abbrev pub first_backoff : ℕ
first_backoff = 50

abbrev pub max_backoff : ℕ
max_backoff = 200

abbrev pub server_serialization : String
server_serialization = "could not serialize access"

-- What a transaction raises. The driver's own errors are the first four.
pub data Failure : Type 0 where
  lock_not_available : Failure
  deadlock_detected : Failure
  -- its `diag.message_primary` and its text
  serialization_failure : Option String → String → Failure
  database_error : String → Failure
  other_exception : String → Failure
  -- raised by `run_owned` itself
  invalid_attempt_count : Failure

pub data Outcome (A : Type 0) : Type 0 where
  returned : A → Outcome A
  raised : Failure → Outcome A

-- text.startswith(prefix)
unfoldable pub starts_with : String → String → Bool
starts_with String.[] text = true
starts_with (String.◌∷◌ c prefix) String.[] = false
starts_with (String.◌∷◌ c prefix) (String.◌∷◌ d text) =
    let rest = starts_with prefix text in eqb (code c) (code d) && rest

-- error.diag.message_primary or str(error)
abbrev pub message_of : Option String → String → String
message_of none text = text
message_of (some primary) text = if primary == "" then text else primary

unfoldable pub transient : Failure → Bool
unfolding starts_with
transient lock_not_available = true
transient deadlock_detected = true
transient (serialization_failure primary text) =
    starts_with server_serialization (message_of primary text)
transient (database_error text) = false
transient (other_exception text) = false
transient invalid_attempt_count = false

unfoldable pub next_backoff : ℕ → ℕ
next_backoff backoff = min max_backoff (backoff * 2)

-- `attempt` runs one transaction, and `pause` waits for a part of the backoff that it is given, of
-- which it draws the length; `W` is what they act on.
module _ {A W : Type 0} (attempt : W → Outcome A × W) (pause : ℕ → W → W) where
  -- What follows a run that is not the last.
  unfoldable pub handle : (W → Outcome A × W) → ℕ → Outcome A × W → Outcome A × W
  unfolding transient
  handle rest backoff (returned a, w) = (returned a, w)
  handle rest backoff (raised e, w) = if transient e then rest (pause backoff w) else (raised e, w)

  -- The loop, with `remaining` rounds after this one.
  unfoldable pub retry : ℕ → ℕ → W → Outcome A × W
  unfolding handle next_backoff
  retry zero backoff w = attempt w
  retry (suc remaining) backoff w =
      handle (retry remaining (next_backoff backoff)) backoff (attempt w)

  unfoldable pub run_owned : ℕ → W → Outcome A × W
  unfolding retry
  run_owned attempts w =
      if leb 1 attempts && leb attempts max_attempts
      then retry (attempts - 1) first_backoff w
      else (raised invalid_attempt_count, w)
