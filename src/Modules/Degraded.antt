-- ===== src/Modules/Degraded.antt =====
-- What degrading one module does to the states of a composition.
use memoriesql.Prelude.{
  ℕ, suc, ◌≤◌, ◌<◌, ◌≡◌, refl, ap, subst, ◌∙◌, String, string_eq, ◌==◌, beq→eq, eq→beq, Bool, true,
  false, ◌⊎◌, inl, inr, List, [], ◌∷◌, if◌then◌else◌, arith, Bool-cases,
}
use memoriesql.Modules.Compose.{degraded, States, is_enabled, contains, all_enabled, assign, visit}

-- How many of some modules are enabled.
unfoldable pub count : States → List String → ℕ
count states [] = 0
count states (module_id ∷ rest) =
    let more = count states rest in if is_enabled (states module_id) then suc more else more

abbrev pub Member : String → List String → Type 0
Member module_id identifiers = contains identifiers module_id ≡ true

module _ (requires : String → List String) where
  -- An enabled module has only enabled dependencies.
  abbrev pub Supported : States → String → Type 0
  Supported states module_id =
      is_enabled (states module_id) ≡ true → all_enabled states (requires module_id) ≡ true

  -- What a visit does: nothing, at a module that is supported, or it degrades an enabled module.
  pub visit-cases :
      (module_id : String) (states : States) (changed : Bool)
      → (Supported states module_id
          × (visit requires module_id (states, changed) ≡ (states, changed)))
        ⊎ ((is_enabled (states module_id) ≡ true)
            × (all_enabled states (requires module_id) ≡ false)
            × (visit requires module_id (states, changed)
                ≡ (assign states module_id degraded, true)))
  unfolding visit
  visit-cases module_id states changed = elim (Bool-cases (is_enabled (states module_id))) [
    | inr off ↦ inl ((λ on. absurd (cc (off, on))), rw off refl)
    | inl on ↦ elim (Bool-cases (all_enabled states (requires module_id))) [
      | inl all ↦ inl ((λ _. all), rw on (rw all refl))
      | inr some_off ↦ inr (on, some_off, rw on (rw some_off refl))
    ]
  ]

-- Some modules of which each one's dependencies are among them.
abbrev pub Closed : (String → List String) → (String → Bool) → Type 0
Closed requires keep =
    (module_id dependency : String)
    → keep module_id ≡ true
    → Member dependency (requires module_id)
    → keep dependency ≡ true

abbrev pub AllEnabled : (String → Bool) → States → Type 0
AllEnabled keep states =
    (module_id : String) → keep module_id ≡ true → is_enabled (states module_id) ≡ true

pub contains-here : (module_id : String) (rest : List String) → Member module_id (module_id ∷ rest)
unfolding contains
contains-here module_id rest = rw (eq→beq {A = String} module_id module_id refl) refl

pub contains-there :
    (module_id candidate : String) (rest : List String)
    → Member module_id rest
    → Member module_id (candidate ∷ rest)
unfolding contains
contains-there module_id candidate rest h = elim (Bool-cases (candidate == module_id)) [
  | inl same ↦ rw same refl
  | inr other ↦ rw other h
]

all_enabled-Member :
    (states : States) (dependencies : List String)
    → ((d : String) → Member d dependencies → is_enabled (states d) ≡ true)
    → all_enabled states dependencies ≡ true
unfolding all_enabled
all_enabled-Member states [] h = refl
all_enabled-Member states (d ∷ dependencies) h = rw (h d (contains-here d dependencies)) (
    all_enabled-Member states dependencies
      (λ e member. h e (contains-there e d dependencies member)))

is_enabled-assign :
    (states : States) (module_id candidate : String)
    → is_enabled (assign states module_id degraded candidate) ≡ true
    → is_enabled (states candidate) ≡ true
unfolding assign
is_enabled-assign states module_id candidate = elim (Bool-cases (candidate == module_id)) [
  | inl same ↦ rw same (λ h. cc h)
  | inr other ↦ rw other (λ h. h)
]

assign-kept :
    (states : States) (module_id candidate : String)
    → is_enabled (states module_id) ≡ true
    → is_enabled (states candidate) ≡ false
    → assign states module_id degraded candidate ≡ states candidate
unfolding assign
assign-kept states module_id candidate on off = elim (Bool-cases (candidate == module_id)) [
  | inl same ↦ absurd (cc (on, off, beq→eq {A = String} candidate module_id same))
  | inr other ↦ rw other refl
]

count-assign :
    (states : States) (module_id : String) (identifiers : List String)
    → count (assign states module_id degraded) identifiers ≤ count states identifiers
unfolding count
count-assign states module_id [] = omega arith
count-assign states module_id (candidate ∷ rest) =
    elim (Bool-cases (is_enabled (assign states module_id degraded candidate))) [
      | inl on ↦ rw on (
          rw (is_enabled-assign states module_id candidate on)
            (omega (arith, count-assign states module_id rest)))
      | inr off ↦ rw off (elim (Bool-cases (is_enabled (states candidate))) [
        | inl on ↦ rw on (omega (arith, count-assign states module_id rest))
        | inr still ↦ rw still (count-assign states module_id rest)
      ])
    ]

assign-off :
    (states : States) (module_id candidate : String)
    → (candidate == module_id) ≡ true
    → is_enabled (assign states module_id degraded candidate) ≡ false
unfolding assign
assign-off states module_id candidate same = rw same refl

pub contains-cons :
    (module_id candidate : String) (rest : List String)
    → Member module_id (candidate ∷ rest)
    → ((candidate == module_id) ≡ true) ⊎ Member module_id rest
unfolding contains
contains-cons module_id candidate rest = elim (Bool-cases (candidate == module_id)) [
  | inl same ↦ λ member. inl same
  | inr other ↦ rw other (λ member. inr member)
]

pub count-assign-less :
    (states : States) (module_id : String) (identifiers : List String)
    → is_enabled (states module_id) ≡ true
    → Member module_id identifiers
    → count (assign states module_id degraded) identifiers < count states identifiers
unfolding count contains
count-assign-less states module_id [] on member = cc member
count-assign-less states module_id (candidate ∷ rest) on member =
    elim (contains-cons module_id candidate rest member) [
      | inl same ↦ rw (assign-off states module_id candidate same) (
          rw (ap (λ s. is_enabled (states s)) (beq→eq {A = String} candidate module_id same) ∙ on)
            (omega (arith, count-assign states module_id rest)))
      | inr later ↦ elim (Bool-cases (is_enabled (assign states module_id degraded candidate))) [
        | inl still ↦ rw still (
            rw (is_enabled-assign states module_id candidate still)
              (omega (arith, count-assign-less states module_id rest on later)))
        | inr off ↦ rw off (elim (Bool-cases (is_enabled (states candidate))) [
          | inl was ↦ rw was (omega (arith, count-assign states module_id rest))
          | inr was ↦ rw was (count-assign-less states module_id rest on later)
        ])
      ]
    ]

assign-other :
    (states : States) (module_id candidate : String)
    → (candidate == module_id) ≡ false
    → assign states module_id degraded candidate ≡ states candidate
unfolding assign
assign-other states module_id candidate other = rw other refl

-- What the loop does to the states, over the selected modules: no closed set of enabled modules
-- loses a module, and only enabled modules change.
pub record Progress (requires : String → List String) (identifiers : List String)
    (states states' : States) : Type 0 where
  pub fewer : count states' identifiers ≤ count states identifiers
  pub closed :
      (keep : String → Bool)
      → Closed requires keep
      → AllEnabled keep states
      → AllEnabled keep states'
  pub only_off :
      (module_id : String)
      → is_enabled (states' module_id) ≡ true
      → is_enabled (states module_id) ≡ true
  pub kept_off :
      (module_id : String)
      → is_enabled (states module_id) ≡ false
      → states' module_id ≡ states module_id

pub Progress-refl :
    (requires : String → List String) (identifiers : List String) (states : States)
    → Progress requires identifiers states states
Progress-refl requires identifiers states = record {
  fewer = omega arith;
  closed = λ keep c e. e;
  only_off = λ module_id h. h;
  kept_off = λ module_id h. refl;
}

pub Progress-trans :
    (requires : String → List String) (identifiers : List String) (s s' s'' : States)
    → Progress requires identifiers s s'
    → Progress requires identifiers s' s''
    → Progress requires identifiers s s''
Progress-trans requires identifiers s s' s'' p q = record {
  fewer = omega (arith, p.fewer, q.fewer);
  closed = λ keep c e. q.closed keep c (p.closed keep c e);
  only_off = λ module_id h. p.only_off module_id (q.only_off module_id h);
  kept_off = λ module_id h.
      q.kept_off module_id (ap is_enabled (p.kept_off module_id h) ∙ h) ∙ p.kept_off module_id h;
}

pub assign-Progress :
    (requires : String → List String) (identifiers : List String) (states : States)
    (module_id : String)
    → is_enabled (states module_id) ≡ true
    → all_enabled states (requires module_id) ≡ false
    → Progress requires identifiers states (assign states module_id degraded)
assign-Progress requires identifiers states module_id on some_off = record {
  fewer = count-assign states module_id identifiers;
  closed = λ keep c e candidate kept. elim (Bool-cases (candidate == module_id)) [
    | inl same ↦ absurd (
        cc (
          some_off,
          all_enabled-Member states (requires module_id) (λ d member. e d (
              c module_id d
                (subst (λ m. keep m ≡ true) (beq→eq {A = String} candidate module_id same) kept)
                member)),
        ))
    | inr other ↦ ap is_enabled (assign-other states module_id candidate other) ∙ e candidate kept
  ];
  only_off = λ candidate h. is_enabled-assign states module_id candidate h;
  kept_off = λ candidate h. assign-kept states module_id candidate on h;
}
