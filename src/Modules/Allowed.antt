-- ===== src/Modules/Allowed.antt =====
-- The versions that a range of module_manifest.py allows, in terms of an order on versions.
use memoriesql.Prelude.{
  ◌≡◌, refl, sym, ap, subst, ◌<◌, ◌⊎◌, inl, inr, ◌↔◌, ◌>>=◌, String, Bool, true, false, List, [],
  ◌∷◌, string_eq, nat_eq, ◌==◌, Result, ok, err, value_error, if◌then◌else◌, beq→eq, arith,
}
use memoriesql.Modules.Versions.{
  SemanticVersion, version_ltb, version_leb, same_version, VersionConstraint, constraint_allows,
  range_allows,
}

-- A version is before another in the first part, from the left, in which they differ.
abbrev pub IsBefore : SemanticVersion → SemanticVersion → Type 0
IsBefore v w =
    (v.major < w.major)
    ⊎ ((v.major ≡ w.major) × (v.minor < w.minor))
    ⊎ ((v.major ≡ w.major) × (v.minor ≡ w.minor) × (v.patch < w.patch))

-- A bound is one of the five operators with a version.
abbrev pub Meets : SemanticVersion → VersionConstraint → Type 0
Meets v c =
    ((c.operator ≡ ">=") × (IsBefore c.version v ⊎ (c.version ≡ v)))
    ⊎ ((c.operator ≡ "<=") × (IsBefore v c.version ⊎ (v ≡ c.version)))
    ⊎ ((c.operator ≡ ">") × IsBefore c.version v)
    ⊎ ((c.operator ≡ "<") × IsBefore v c.version)
    ⊎ ((c.operator ≡ "==") × (v ≡ c.version))

abbrev pub MeetsAll : SemanticVersion → List VersionConstraint → Type 0
MeetsAll v [] = Unit
MeetsAll v (c ∷ constraints) = Meets v c × MeetsAll v constraints

version_ltb-IsBefore : (v w : SemanticVersion) → (version_ltb v w ≡ true) ↔ IsBefore v w
unfolding version_ltb
version_ltb-IsBefore v w = ground arith

same_parts :
    (v w : SemanticVersion) → v.major ≡ w.major → v.minor ≡ w.minor → v.patch ≡ w.patch → v ≡ w
same_parts v w a b c = λ i. record { major = a i; minor = b i; patch = c i }

same_version-eq : (v w : SemanticVersion) → (same_version v w ≡ true) ↔ (v ≡ w)
unfolding same_version
same_version-eq v w = (
  λ h. same_parts v w (ground (arith, h)) (ground (arith, h)) (ground (arith, h)),
  λ e.
      let a = ap (λ (x : SemanticVersion). x.major) e in
      let b = ap (λ (x : SemanticVersion). x.minor) e in
      let c = ap (λ (x : SemanticVersion). x.patch) e in ground (arith, a, b, c),
)

version_leb-split :
    (v w : SemanticVersion)
    → version_leb v w ≡ true
    → IsBefore v w ⊎ ((v.major ≡ w.major) × (v.minor ≡ w.minor) × (v.patch ≡ w.patch))
unfolding version_leb
version_leb-split v w h = ground (arith, h)

version_leb-IsBefore : (v w : SemanticVersion) → (version_leb v w ≡ true) ↔ (IsBefore v w ⊎ (v ≡ w))
unfolding version_leb
version_leb-IsBefore v w = (
  λ h. elim (version_leb-split v w h) [
    | inl before ↦ inl before
    | inr (a, b, c) ↦ inr (same_parts v w a b c)
  ],
  λ h. elim h [
    | inl before ↦ ground (arith, before)
    | inr e ↦
        let a = ap (λ (x : SemanticVersion). x.major) e in
        let b = ap (λ (x : SemanticVersion). x.minor) e in
        let c = ap (λ (x : SemanticVersion). x.patch) e in ground (arith, a, b, c)
  ],
)

-- The test that the operator of a constraint chooses, by what each comparison of it says.
abbrev chosen :
    (least most above below exact : Bool) → SemanticVersion → SemanticVersion → Result Bool
chosen least most above below exact version candidate =
    if least
    then ok (version_leb version candidate)
    else if most
    then ok (version_leb candidate version)
    else if above
    then ok (version_ltb version candidate)
    else if below
    then ok (version_ltb candidate version)
    else if exact
    then ok (same_version candidate version)
    else err (value_error "unsupported version operator")

ok_true : (b : Bool) → ok b ≡ ok true → b ≡ true
ok_true true h = refl
ok_true false h = absurd (cc h)

-- The outcome of a test that allows, with the comparison that chose it.
chosen-cases :
    (least most above below exact : Bool) (x v : SemanticVersion)
    → chosen least most above below exact x v ≡ ok true
    → ((least ≡ true) × (version_leb x v ≡ true))
      ⊎ ((most ≡ true) × (version_leb v x ≡ true))
      ⊎ ((above ≡ true) × (version_ltb x v ≡ true))
      ⊎ ((below ≡ true) × (version_ltb v x ≡ true))
      ⊎ ((exact ≡ true) × (same_version v x ≡ true))
chosen-cases true most above below exact x v h = inl (refl, ok_true _ h)
chosen-cases false true above below exact x v h = inr (inl (refl, ok_true _ h))
chosen-cases false false true below exact x v h = inr (inr (inl (refl, ok_true _ h)))
chosen-cases false false false true exact x v h = inr (inr (inr (inl (refl, ok_true _ h))))
chosen-cases false false false false true x v h = inr (inr (inr (inr (refl, ok_true _ h))))
chosen-cases false false false false false x v h = absurd (cc h)

abbrev verdict : String → SemanticVersion → SemanticVersion → Result Bool
verdict operator =
    chosen (operator == ">=") (operator == "<=") (operator == ">") (operator == "<")
      (operator == "==")

constraint_allows-Meets :
    (c : VersionConstraint) (v : SemanticVersion) → constraint_allows c v ≡ ok true → Meets v c
unfolding constraint_allows
constraint_allows-Meets c v h = elim (chosen-cases _ _ _ _ _ c.version v h) [
  | inl (o, k) ↦ inl (beq→eq c.operator ">=" o, (version_leb-IsBefore c.version v).0 k)
  | inr (inl (o, k)) ↦ inr (inl (beq→eq c.operator "<=" o, (version_leb-IsBefore v c.version).0 k))
  | inr (inr (inl (o, k))) ↦
      inr (inr (inl (beq→eq c.operator ">" o, (version_ltb-IsBefore c.version v).0 k)))
  | inr (inr (inr (inl (o, k)))) ↦
      inr (inr (inr (inl (beq→eq c.operator "<" o, (version_ltb-IsBefore v c.version).0 k))))
  | inr (inr (inr (inr (o, k)))) ↦
      inr (inr (inr (inr (beq→eq c.operator "==" o, (same_version-eq v c.version).0 k))))
]

verdict_of :
    (operator name : String) (x v : SemanticVersion)
    → operator ≡ name
    → verdict name x v ≡ ok true
    → verdict operator x v ≡ ok true
verdict_of operator name x v e h = subst (λ o. verdict o x v ≡ ok true) (sym e) h

Meets-constraint_allows :
    (c : VersionConstraint) (v : SemanticVersion) → Meets v c → constraint_allows c v ≡ ok true
unfolding constraint_allows
Meets-constraint_allows c v (inl (o, k)) =
    verdict_of c.operator ">=" c.version v o (ap ok ((version_leb-IsBefore c.version v).1 k))
Meets-constraint_allows c v (inr (inl (o, k))) =
    verdict_of c.operator "<=" c.version v o (ap ok ((version_leb-IsBefore v c.version).1 k))
Meets-constraint_allows c v (inr (inr (inl (o, k)))) =
    verdict_of c.operator ">" c.version v o (ap ok ((version_ltb-IsBefore c.version v).1 k))
Meets-constraint_allows c v (inr (inr (inr (inl (o, k))))) =
    verdict_of c.operator "<" c.version v o (ap ok ((version_ltb-IsBefore v c.version).1 k))
Meets-constraint_allows c v (inr (inr (inr (inr (o, k))))) =
    verdict_of c.operator "==" c.version v o (ap ok ((same_version-eq v c.version).1 k))

-- The tail of a range is reached where the constraint allows the candidate.
step_true :
    (r rest : Result Bool)
    → (do allowed ← r; (if allowed then rest else ok false)) ≡ ok true
    → (r ≡ ok true) × (rest ≡ ok true)
step_true (ok true) rest h = (refl, h)
step_true (ok false) rest h = absurd (cc h)
step_true (err e) rest h = absurd (cc h)

range_allows-forth :
    (constraints : List VersionConstraint) (v : SemanticVersion)
    → range_allows constraints v ≡ ok true
    → MeetsAll v constraints
unfolding range_allows
range_allows-forth [] v h = tt
range_allows-forth (c ∷ constraints) v h =
    let (first, rest) = step_true (constraint_allows c v) _ h in
    (constraint_allows-Meets c v first, range_allows-forth constraints v rest)

range_allows-back :
    (constraints : List VersionConstraint) (v : SemanticVersion)
    → MeetsAll v constraints
    → range_allows constraints v ≡ ok true
unfolding range_allows
range_allows-back [] v h = refl
range_allows-back (c ∷ constraints) v (first, rest) =
    rw (Meets-constraint_allows c v first) (range_allows-back constraints v rest)

-- A range allows a version, without an error, exactly if the version meets every bound of the range:
-- each bound is one of the five operators, and the version stands to the version of the bound as the
-- operator says, in the order of the first differing part.
pub range_allows-MeetsAll :
    (constraints : List VersionConstraint) (v : SemanticVersion)
    → (range_allows constraints v ≡ ok true) ↔ MeetsAll v constraints
range_allows-MeetsAll constraints v =
    (range_allows-forth constraints v, range_allows-back constraints v)
