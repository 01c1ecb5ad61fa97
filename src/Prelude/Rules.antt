-- ===== src/Prelude/Rules.antt =====
-- Errors as values, and a validator as the list of the checks that it makes in order.
use Prim.Native.String.{String}
use mathlib.Core.Path.{◌≡◌, refl}
use mathlib.Core.Bool.{Bool, true, false}
use mathlib.Core.List.{List, [], ◌∷◌}
use memoriesql.Prelude.Tests.{if◌then◌else◌}

-- What the code raises. A constraint of a contract field is known by the field's name, a
-- `ValueError` by its message.
pub data Error : Type 0 where
  invalid_field : String → Error
  value_error : String → Error
  assertion_error : Error
  external_error : String → Error

-- What a call returns or raises.
pub data Result {ℓ} (A : Type ℓ) : Type ℓ where
  ok : A → Result A
  err : Error → Result A

abbrev pub Rule : Type 0
Rule = Bool × Error

-- `if not condition: raise ValueError(message)`
abbrev pub require : Bool → String → Rule
require condition message = (condition, value_error message)

-- A constraint on a contract field.
abbrev pub field : Bool → String → Rule
field condition name = (condition, invalid_field name)

-- The first rule that fails raises.
unfoldable pub check : List Rule → Result (Unit {0})
check [] = ok tt
check ((b, e) ∷ rules) = let rest = check rules in if b then rest else err e

abbrev pub Holds : List Rule → Type 0
Holds [] = Unit {0}
Holds ((b, e) ∷ rules) = (b ≡ true) × Holds rules

infixl 5 ◌>>=◌ ◌>>◌
-- The first error ends a chain of calls.
abbrev pub ◌>>=◌ {κ ℓ} : {R : Type κ} {A : Type ℓ} → Result R → (R → Result A) → Result A
err raised >>= next = err raised
ok returned >>= next = next returned

pub check-ok : (rules : List Rule) → check rules ≡ ok tt → Holds rules
unfolding check
check-ok [] h = tt
check-ok ((true, e) ∷ rules) h = (refl, check-ok rules h)
check-ok ((false, e) ∷ rules) h = cc

pub Holds-ok : (rules : List Rule) → Holds rules → check rules ≡ ok tt
unfolding check
Holds-ok [] h = refl
Holds-ok ((true, e) ∷ rules) h = Holds-ok rules h.1
Holds-ok ((false, e) ∷ rules) h = cc h.0

abbrev pub ◌>>◌ {ℓ} : {B : Type ℓ} → Result (Unit {0}) → Result B → Result B
first >> second = first >>= λ _. second

pub >>-eq-ok {ℓ} :
    {B : Type ℓ} (m : Result (Unit {0})) (k : Result B) {b : B}
    → (m >> k) ≡ ok b
    → (m ≡ ok tt) × (k ≡ ok b)
>>-eq-ok (err raised) k h = cc
>>-eq-ok (ok tt) k h = (refl, h)

-- Chained checks: a check that passes is taken away.
pub ok->> {ℓ} : {B : Type ℓ} (m : Result (Unit {0})) (k : Result B) → m ≡ ok tt → (m >> k) ≡ k
ok->> (ok tt) k h = refl
ok->> (err e) k h = cc

pub >>=-eq-ok {κ ℓ} :
    {R : Type κ} {A : Type ℓ} (call : Result R) (next : R → Result A) {a : A}
    → (call >>= next) ≡ ok a
    → (r : R) × (call ≡ ok r) × (next r ≡ ok a)
>>=-eq-ok (err raised) next h = cc
>>=-eq-ok (ok r) next h = (r, refl, h)

-- A contract model is made only if its validator passes.
abbrev pub checked {ℓ} : {A : Type ℓ} → Result (Unit {0}) → A → Result A
checked m a = m >> ok a

pub checked-eq-ok {ℓ} :
    {A : Type ℓ} (m : Result (Unit {0})) (a : A) {b : A}
    → checked m a ≡ ok b
    → (m ≡ ok tt) × (a ≡ b)
checked-eq-ok (ok tt) a h = (refl, cc h)
checked-eq-ok (err e) a h = cc

-- The proof that a list of rules holds, one rule after the other.
infixr 3 ◌&◌
abbrev pub ◌&◌ {ℓ κ} : {A : Type ℓ} {B : Type κ} → A → B → A × B
a & b = (a, b)
