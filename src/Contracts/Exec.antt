-- ===== src/Contracts/Exec.antt =====
-- Calls on ports with state: the world comes back beside the result, also beside an error.
use memoriesql.Prelude.{
  ◌≡◌, refl, ap, ◌⊎◌, inl, inr, Bool, true, false, Error, Result, ok, err, if◌then◌else◌,
}

abbrev pub Exec {ℓ} : Type ℓ → Type ℓ → Type ℓ
Exec S A = S → Result A × S

module _ {ℓ} {S A : Type ℓ} where
  unfoldable pub pure : A → Exec S A
  pure a s = (ok a, s)

  unfoldable pub raise : Error → Exec S A
  raise e s = (err e, s)

  unfoldable pub lift : Result A → Exec S A
  lift r s = (r, s)

module _ {ℓ} {S A B : Type ℓ} where
  abbrev pub continue : Result A → (A → Exec S B) → Exec S B
  continue (ok a) f s = f a s
  continue (err e) f s = (err e, s)

  infixl 10 ◌>>=◌ ◌>>◌
  -- Opening this opens `pure`, `raise` and `lift` too.
  unfoldable pub ◌>>=◌ : Exec S A → (A → Exec S B) → Exec S B
  unfolding pure raise lift
  ◌>>=◌ m f s = let (r, s') = m s in continue r f s'

  abbrev pub ◌>>◌ : Exec S A → Exec S B → Exec S B
  m >> n = m >>= λ _. n

-- What an action that ended well did: its parts ended well, one after the other.
pub >>=-eq-ok {ℓ} :
    {S A B : Type ℓ} (m : Exec S A) (f : A → Exec S B) {s s'' : S} {b : B}
    → (m >>= f) s ≡ (ok b, s'')
    → (a : A) × (s' : S) × (m s ≡ (ok a, s')) × (f a s' ≡ (ok b, s''))
unfolding ◌>>=◌
>>=-eq-ok {S = S} {A = A} {B = B} m f {s} {s''} {b} h = go (m s) refl h
  where
    go :
        (p : Result A × S)
        → m s ≡ p
        → continue p.0 f p.1 ≡ (ok b, s'')
        → (a : A) × (s' : S) × (m s ≡ (ok a, s')) × (f a s' ≡ (ok b, s''))
    go (ok a, s') e k = (a, s', e, k)
    go (err x, s') e k = absurd (cc (ap (λ p. p.0) k))

pub lift-eq-ok {ℓ} :
    {S A : Type ℓ} (r : Result A) {s s' : S} {a : A} → lift r s ≡ (ok a, s') → (r ≡ ok a) × (s ≡ s')
unfolding lift
lift-eq-ok r h = (ap (λ p. p.0) h, ap (λ p. p.1) h)

-- The same for a check or a pure step, which leaves the world alone.
pub lift->>=-eq-ok {ℓ} :
    {S A B : Type ℓ} (r : Result A) (f : A → Exec S B) {s s' : S} {b : B}
    → (lift r >>= f) s ≡ (ok b, s')
    → (a : A) × (r ≡ ok a) × (f a s ≡ (ok b, s'))
unfolding ◌>>=◌
lift->>=-eq-ok (ok a) f h = (a, refl, h)
lift->>=-eq-ok (err x) f h = absurd (cc (ap (λ p. p.0) h))

pub pure-eq-ok {ℓ} :
    {S A : Type ℓ} (a : A) {s s' : S} {b : A} → pure a s ≡ (ok b, s') → (a ≡ b) × (s ≡ s')
unfolding pure
pure-eq-ok a h = (cc (ap (λ p. p.0) h), ap (λ p. p.1) h)

-- An action whose first call ended well goes on with what the call gave.
pub ok->>= {ℓ} :
    {S A B : Type ℓ} (m : Exec S A) (f : A → Exec S B) {s s' : S} {a : A}
    → m s ≡ (ok a, s')
    → (m >>= f) s ≡ f a s'
unfolding ◌>>=◌
ok->>= m f h = rw h refl

pub lift-ok->>= {ℓ} :
    {S A B : Type ℓ} (r : Result A) (f : A → Exec S B) {s : S} {a : A}
    → r ≡ ok a
    → (lift r >>= f) s ≡ f a s
unfolding ◌>>=◌ lift
lift-ok->>= r f h = rw h refl

pub lift-ok {ℓ} : {S A : Type ℓ} (r : Result A) {s : S} {a : A} → r ≡ ok a → lift r s ≡ (ok a, s)
unfolding lift
lift-ok r {s} h = ap (λ x. (x, s)) h

-- What a test between two actions ran.
pub if-cases {ℓ} :
    {S A : Type ℓ} (c : Bool) (m n : Exec S A) {s : S} {p : Result A × S}
    → (if c then m else n) s ≡ p
    → ((c ≡ true) × (m s ≡ p)) ⊎ ((c ≡ false) × (n s ≡ p))
if-cases true m n h = inl (refl, h)
if-cases false m n h = inr (refl, h)

-- Two actions that go on alike wherever the first ends well are alike.
pub >>=-agree {ℓ} :
    {S A B : Type ℓ} (m : Exec S A) (f g : A → Exec S B) (s : S)
    → ((a : A) (s' : S) → m s ≡ (ok a, s') → f a s' ≡ g a s')
    → (m >>= f) s ≡ (m >>= g) s
unfolding ◌>>=◌
>>=-agree {S = S} {A = A} m f g s same = go (m s) refl
  where
    go : (p : Result A × S) → m s ≡ p → continue p.0 f p.1 ≡ continue p.0 g p.1
    go (ok a, s') e = same a s' e
    go (err x, s') e = refl

pub >>=-same {ℓ} :
    {S A B : Type ℓ} (m n : Exec S A) (f : A → Exec S B) (s : S)
    → m s ≡ n s
    → (m >>= f) s ≡ (n >>= f) s
unfolding ◌>>=◌
>>=-same m n f s same = ap (λ p. continue p.0 f p.1) same
