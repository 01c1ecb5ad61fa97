-- ===== src/Modules/Settled.antt =====
-- The loop of `compose` ends, and the modules that stay enabled are the most that can.
use memoriesql.Prelude.{
  ℕ, zero, suc, ◌≤◌, ◌<◌, ◌≡◌, refl, ap, subst, ◌∙◌, String, string_eq, beq→eq, Bool, true, false,
  inl, inr, some, List, [], ◌∷◌, length, arith, Bool-cases,
}
use memoriesql.Modules.Compose.{
  degraded, States, is_enabled, contains, initial_states, assign, visit, visit_each, settle,
  compose_states,
}
use memoriesql.Modules.Degraded.{
  count, Member, Supported, visit-cases, Closed, AllEnabled, contains-here, contains-there,
  contains-cons, count-assign-less, Progress, Progress-refl, Progress-trans, assign-Progress,
}

module _ (requires : String → List String) (identifiers : List String) where
  visit_each-cons :
      (m : String) (todo : List String) (now now' : States × Bool)
      → visit requires m now ≡ now'
      → visit_each requires (m ∷ todo) now ≡ visit_each requires todo now'
  unfolding visit_each
  visit_each-cons m todo now now' h = ap (visit_each requires todo) h

  visit_each-Progress :
      (todo : List String) (states : States) (changed : Bool)
      → Progress requires identifiers states (visit_each requires todo (states, changed)).0
  unfolding visit_each
  visit_each-Progress [] states changed = Progress-refl requires identifiers states
  visit_each-Progress (m ∷ todo) states changed = elim (visit-cases requires m states changed) [
    | inl (_, same) ↦
        rw (visit_each-cons m todo (states, changed) (states, changed) same)
          (visit_each-Progress todo states changed)
    | inr (on, some_off, moved) ↦
        rw (visit_each-cons m todo (states, changed) (assign states m degraded, true) moved) (
          Progress-trans requires identifiers states (assign states m degraded) _
            (assign-Progress requires identifiers states m on some_off)
            (visit_each-Progress todo (assign states m degraded) true))
  ]

  visit_each-changed :
      (todo : List String) (states : States) → (visit_each requires todo (states, true)).1 ≡ true
  unfolding visit_each
  visit_each-changed [] states = refl
  visit_each-changed (m ∷ todo) states = elim (visit-cases requires m states true) [
    | inl (_, same) ↦
        rw (visit_each-cons m todo (states, true) (states, true) same)
          (visit_each-changed todo states)
    | inr (_, _, moved) ↦
        rw (visit_each-cons m todo (states, true) (assign states m degraded, true) moved)
          (visit_each-changed todo (assign states m degraded))
  ]

  -- A round that reports no change changed nothing, and every visited module is supported.
  visit_each-still :
      (todo : List String) (states : States)
      → (visit_each requires todo (states, false)).1 ≡ false
      → ((visit_each requires todo (states, false)).0 ≡ states)
        × ((m : String) → Member m todo → Supported requires states m)
  unfolding visit_each
  visit_each-still [] states = λ h. (refl, λ m member. unfold contains in cc member)
  visit_each-still (m ∷ todo) states = elim (visit-cases requires m states false) [
    | inl (supported, same) ↦ rw (visit_each-cons m todo (states, false) (states, false) same) (λ h.
        let (kept, others) = visit_each-still todo states h in
        (
          kept,
          λ d member. elim (contains-cons d m todo member) [
            | inl first ↦
                subst (λ x. Supported requires states x) (beq→eq {A = String} m d first) supported
            | inr later ↦ others d later
          ],
        ))
    | inr (_, _, moved) ↦
        rw (visit_each-cons m todo (states, false) (assign states m degraded, true) moved)
          (λ h. absurd (cc (h, visit_each-changed todo (assign states m degraded))))
  ]

  -- A round that reports a change degraded a module.
  visit_each-moved :
      (todo : List String) (states : States)
      → ((m : String) → Member m todo → Member m identifiers)
      → (visit_each requires todo (states, false)).1 ≡ true
      → count (visit_each requires todo (states, false)).0 identifiers < count states identifiers
  unfolding visit_each
  visit_each-moved [] states within = λ h. cc h
  visit_each-moved (m ∷ todo) states within = elim (visit-cases requires m states false) [
    | inl (_, same) ↦
        rw (visit_each-cons m todo (states, false) (states, false) same)
          (visit_each-moved todo states (λ d member. within d (contains-there d m todo member)))
    | inr (on, _, moved) ↦
        rw (visit_each-cons m todo (states, false) (assign states m degraded, true) moved) (λ h.
          omega (
            arith,
            count-assign-less states m identifiers on (within m (contains-here m todo)),
            (visit_each-Progress todo (assign states m degraded) true).fewer,
          ))
  ]

count-bound :
    (states : States) (identifiers : List String) → count states identifiers ≤ length identifiers
unfolding count
count-bound states [] = omega arith
count-bound states (m ∷ rest) = elim (Bool-cases (is_enabled (states m))) [
  | inl on ↦ rw on (omega (arith, count-bound states rest))
  | inr off ↦ rw off (omega (arith, count-bound states rest))
]

-- Where the loop ends, from some states on.
pub record Settled (requires : String → List String) (selected : List String)
    (states final : States) : Type 0 where
  -- An enabled module has only enabled dependencies.
  pub supported : (m : String) → Member m selected → Supported requires final m
  -- A closed set of modules that were enabled is still enabled.
  pub most :
      (keep : String → Bool) → Closed requires keep → AllEnabled keep states → AllEnabled keep final
  pub only_off : (m : String) → is_enabled (final m) ≡ true → is_enabled (states m) ≡ true
  -- A module that was not enabled keeps its state.
  pub kept_off : (m : String) → is_enabled (states m) ≡ false → final m ≡ states m

module _ (requires : String → List String) (selected : List String) where
  settle-Settled :
      (fuel : ℕ) (states : States)
      → count states selected < fuel
      → (final : States) × (settle requires fuel selected states ≡ some final)
        × Settled requires selected states final
  unfolding settle
  settle-Settled zero states enough = absurd (omega arith)
  settle-Settled (suc fuel) states enough =
      elim (Bool-cases (visit_each requires selected (states, false)).1) [
        | inr done ↦
            let (same, all) = visit_each-still requires selected selected states done in
            rw done (
              states,
              ap some same,
              record {
                supported = all;
                most = λ keep c e. e;
                only_off = λ m h. h;
                kept_off = λ m h. refl;
              },
            )
        | inl more ↦
            let next = (visit_each requires selected (states, false)).0 in
            let first = visit_each-Progress requires selected selected states false in
            let (final, ends, settled) = settle-Settled fuel next (
              omega (
                arith,
                enough,
                visit_each-moved requires selected selected states (λ m member. member) more,
              )) in
            rw more (
              final,
              ends,
              record {
                supported = settled.supported;
                most = λ keep c e. settled.most keep c (first.closed keep c e);
                only_off = λ m h. first.only_off m (settled.only_off m h);
                kept_off = λ m h.
                    settled.kept_off m (ap is_enabled (first.kept_off m h) ∙ h)
                    ∙ first.kept_off m h;
              },
            )
      ]

  -- The loop over the states of a composition ends. In the states where it ends, an enabled module
  -- has only enabled dependencies, every set of modules that is closed under dependencies and was
  -- enabled at first is still enabled, and the modules that were not enabled keep their states.
  pub compose_states-Settled :
      (disabled_ids degraded_ids : List String)
      → (final : States) × (compose_states requires selected disabled_ids degraded_ids ≡ some final)
        × Settled requires selected (initial_states selected disabled_ids degraded_ids) final
  unfolding compose_states
  compose_states-Settled disabled_ids degraded_ids =
      settle-Settled (suc (length selected)) (initial_states selected disabled_ids degraded_ids)
        (omega (arith, count-bound (initial_states selected disabled_ids degraded_ids) selected))
