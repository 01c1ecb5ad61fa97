-- ===== src/Postgres/Contention.antt =====
-- Which errors of a transaction transient_retry.py takes for lock contention.
use Prim.Native.String.{◌++◌}
use Prim.Native.Char.{code}
use text.Mathlib.TextEquality.{Char-path}
use text.Mathlib.TextLemmas.{nil-append, cons-append}
use mathlib.Core.Path.{ap₂}
use memoriesql.Prelude.{
  ◌≡◌, refl, ◌∙◌, sym, subst, ◌⊎◌, inl, inr, ◌↔◌, String, Bool, true, ◌&&◌, none, some, eqb, eqb→eq,
  string_eq, eq→beq, beq→eq, Bool-cases, ◌==◌, arith, eq→eqb,
}
use memoriesql.Postgres.Retry.{
  Failure, lock_not_available, deadlock_detected, serialization_failure, database_error,
  other_exception, invalid_attempt_count, starts_with, message_of, transient, server_serialization,
}

abbrev pub Begins : String → String → Type 0
Begins prefix text = (tail : String) × (text ≡ prefix ++ tail)

-- A lock that was not to be had, a deadlock, or a serialization failure of the server's own wording:
-- in its primary message or, where there is none or an empty one, in its text.
abbrev pub Contends : Failure → Type 0
Contends lock_not_available = Unit
Contends deadlock_detected = Unit
Contends (serialization_failure none text) = Begins "could not serialize access" text
Contends (serialization_failure (some primary) text) =
    Begins "could not serialize access" primary
    ⊎ ((primary ≡ "") × Begins "could not serialize access" text)
Contends (database_error text) = ⊥
Contends (other_exception text) = ⊥
Contends invalid_attempt_count = ⊥

and-parts : (a b : Bool) → a && b ≡ true → (a ≡ true) × (b ≡ true)
and-parts a b h = (ground (arith, h), ground (arith, h))

starts_with-Begins : (prefix text : String) → starts_with prefix text ≡ true → Begins prefix text
unfolding starts_with
starts_with-Begins String.[] text h = (text, sym (nil-append text))
starts_with-Begins (String.◌∷◌ c prefix) String.[] h = absurd (cc h)
starts_with-Begins (String.◌∷◌ c prefix) (String.◌∷◌ d text) h =
    let (first, more) = and-parts (eqb (code c) (code d)) _ h in
    let (tail, rest) = starts_with-Begins prefix text more in
    (
      tail,
      ap₂ String.◌∷◌ (sym (Char-path c d (eqb→eq (code c) (code d) first))) rest
          ∙ sym (cons-append c prefix tail),
    )

starts_with_append : (prefix tail : String) → starts_with prefix (prefix ++ tail) ≡ true
unfolding starts_with
starts_with_append String.[] tail = refl
starts_with_append (String.◌∷◌ c prefix) tail =
    rw (cons-append c prefix tail, eq→eqb (code c) (code c) refl, starts_with_append prefix tail)
      refl

primary-Contends :
    (primary text : String)
    → transient (serialization_failure (some primary) text) ≡ true
    → Contends (serialization_failure (some primary) text)
unfolding transient
primary-Contends primary text h = elim (Bool-cases (primary == "")) [
  | inl same ↦
      inr (beq→eq primary "" same, starts_with-Begins server_serialization text (rw same at h))
  | inr other ↦ inl (starts_with-Begins server_serialization primary (rw other at h))
]

transient-Contends : (e : Failure) → transient e ≡ true → Contends e
unfolding transient
transient-Contends lock_not_available h = tt
transient-Contends deadlock_detected h = tt
transient-Contends (serialization_failure none text) h =
    starts_with-Begins server_serialization text h
transient-Contends (serialization_failure (some primary) text) h = primary-Contends primary text h
transient-Contends (database_error text) h = absurd (cc h)
transient-Contends (other_exception text) h = absurd (cc h)
transient-Contends invalid_attempt_count h = absurd (cc h)

Begins-starts_with : (prefix text : String) → Begins prefix text → starts_with prefix text ≡ true
Begins-starts_with prefix text (tail, same) =
    subst (λ t. starts_with prefix t ≡ true) (sym same) (starts_with_append prefix tail)

-- A primary message that begins as the server's wording is not empty.
worded :
    (primary text : String)
    → Begins server_serialization primary
    → message_of (some primary) text ≡ primary
unfolding starts_with
worded primary text begins = elim (Bool-cases (primary == "")) [
  | inl same ↦
      let empty = subst (Begins server_serialization) (beq→eq primary "" same) begins in
      absurd (cc (Begins-starts_with server_serialization "" empty))
  | inr other ↦ rw other refl
]

Contends-transient : (e : Failure) → Contends e → transient e ≡ true
unfolding transient
Contends-transient lock_not_available h = refl
Contends-transient deadlock_detected h = refl
Contends-transient (serialization_failure none text) h =
    Begins-starts_with server_serialization text h
Contends-transient (serialization_failure (some primary) text) (inl begins) =
    rw (worded primary text begins) (Begins-starts_with server_serialization primary begins)
Contends-transient (serialization_failure (some primary) text) (inr (empty, begins)) =
    rw (eq→beq primary "" empty) (Begins-starts_with server_serialization text begins)
Contends-transient (database_error text) h = elim h [ ]
Contends-transient (other_exception text) h = elim h [ ]
Contends-transient invalid_attempt_count h = elim h [ ]

pub contention : (e : Failure) → (transient e ≡ true) ↔ Contends e
contention e = (transient-Contends e, Contends-transient e)
