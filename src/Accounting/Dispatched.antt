-- ===== src/Accounting/Dispatched.antt =====
-- What a valid intent of a managed turn in managed_dispatch.py is bound to.
use memoriesql.Prelude.{
  ◌≡◌, ◌≢◌, ◌⊎◌, inl, inr, refl, sym, ap, String, Bool, true, false, not, ◌&&◌, ◌||◌, leb, length,
  Option, none, some, is_some, is_none, List, [], ◌∷◌, ok, check-ok, >>-eq-ok, ◌==◌, string_eq,
  nat_eq, eq→beq, beq→eq, arith,
}
use memoriesql.Capture.Host.{Uuid}
use memoriesql.Capture.Range.Command.{check_each}
use memoriesql.Accounting.Dispatch.{
  ManagedDispatchTarget, validate_managed_target, ModelProfileReference, same_reference,
  RouteTarget, managed_turn, single_inference, is_managed, SupervisedRoute, validate_route,
  starts_managed, repeats_profile, validate_supervision, ManagedDispatchIntent, managed_fields,
  managed_authority, is_text, validate_managed_intent,
}

-- The route of a managed turn, and one more of another profile at most.
abbrev pub IsRouted : List SupervisedRoute → Type 0
IsRouted routes =
    (first : SupervisedRoute) × ((turn : ManagedDispatchTarget) × (first.target
        ≡ managed_turn turn))
    × ((routes ≡ first ∷ [])
        ⊎ ((second : SupervisedRoute) × (routes ≡ first ∷ second ∷ [])
            × (first.reference ≢ second.reference)))

-- A turn of an attempt of the task that the qualification names.
abbrev pub IsOfTask : (Uuid → String) → ManagedDispatchIntent → Type 0
IsOfTask uuid_text i =
    (i.semantic_task_id ≡ some (uuid_text i.supervision.semantic_task_id))
    × (is_some i.semantic_attempt_id ≡ true)
    × (i.retrieval_execution_id ≡ none)

same_reference_refl : (q r : ModelProfileReference) → q ≡ r → same_reference q r ≡ true
unfolding same_reference
same_reference_refl q r e =
    let key : (q.profile_key == r.profile_key) ≡ true =
      eq→beq q.profile_key r.profile_key (ap (λ x. x.profile_key) e) in
    let revision : (q.revision == r.revision) ≡ true =
      eq→beq q.revision r.revision (ap (λ x. x.revision) e) in
    let effort : (q.effort_key == r.effort_key) ≡ true =
      eq→beq q.effort_key r.effort_key (ap (λ x. x.effort_key) e) in
    rw (key, revision, effort) refl

not_same : (q r : ModelProfileReference) → not (same_reference q r) ≡ true → q ≢ r
not_same q r h e = absurd (cc (h, same_reference_refl q r e))

is_managed-turn :
    (t : RouteTarget)
    → is_managed t ≡ true
    → (turn : ManagedDispatchTarget) × (t ≡ managed_turn turn)
is_managed-turn (managed_turn turn) h = (turn, refl)
is_managed-turn (single_inference t) h = absurd (cc h)

routes-IsRouted :
    (routes : List SupervisedRoute)
    → leb 1 (length routes) && leb (length routes) 2 ≡ true
    → starts_managed routes ≡ true
    → not (repeats_profile routes) ≡ true
    → IsRouted routes
unfolding starts_managed repeats_profile
routes-IsRouted [] few managed distinct = absurd (cc managed)
routes-IsRouted (r ∷ []) few managed distinct = (r, is_managed-turn r.target managed, inl refl)
routes-IsRouted (r ∷ s ∷ []) few managed distinct =
    (r, is_managed-turn r.target managed, inr (s, refl, not_same r.reference s.reference distinct))
routes-IsRouted (r ∷ s ∷ t ∷ routes) few managed distinct = absurd (ground (arith, few))

is_text-eq : (s : String) (o : Option String) → is_text s o ≡ true → o ≡ some s
is_text-eq s none h = absurd (cc h)
is_text-eq s (some t) h = ap some (sym (beq→eq s t h))

is_none-eq : (o : Option Uuid) → is_some o ≡ false → o ≡ none
is_none-eq none h = refl
is_none-eq (some x) h = absurd (cc h)

authority-IsOfTask :
    (uuid_text : Uuid → String) (i : ManagedDispatchIntent)
    → managed_authority uuid_text i ≡ ok tt
    → IsOfTask uuid_text i
unfolding managed_authority
authority-IsOfTask uuid_text i h =
    let (one, (named, _)) = check-ok _ h in
    (
      is_text-eq _ i.semantic_task_id named,
      attempt i.semantic_task_id i.semantic_attempt_id i.retrieval_execution_id one,
      is_none-eq i.retrieval_execution_id
          (no_retrieval (is_none i.semantic_task_id) (is_none i.semantic_attempt_id) _ one),
    )
  where
    attempt :
        (task text : Option String) (retrieval : Option Uuid)
        → not (is_none task || (is_none text || is_some retrieval)) ≡ true
        → is_some text ≡ true
    attempt task (some t) retrieval one = refl
    attempt none none retrieval one = absurd (cc one)
    attempt (some t) none retrieval one = absurd (cc one)

    no_retrieval : (a b c : Bool) → not (a || (b || c)) ≡ true → c ≡ false
    no_retrieval a b c one = ground (arith, one)

-- A valid intent of a managed turn is of an attempt of the task that its qualification names, never
-- of a retrieval, and the qualification has the route of a managed turn first, and one route of
-- another profile after it at most.
pub validate_managed_intent-IsRouted :
    (uuid_text : Uuid → String) (i : ManagedDispatchIntent)
    → validate_managed_intent uuid_text i ≡ ok tt
    → IsOfTask uuid_text i × IsRouted i.supervision.routes
unfolding validate_managed_intent validate_supervision
validate_managed_intent-IsRouted uuid_text i h =
    let (_, h1) = >>-eq-ok (validate_managed_target i.target) _ h in
    let (supervised, h2) = >>-eq-ok (validate_supervision i.supervision) _ h1 in
    let (_, authority) = >>-eq-ok (managed_fields i) _ h2 in
    let (_, checks) = >>-eq-ok (check_each validate_route i.supervision.routes) _ supervised in
    let (few, (_, (_, (_, (managed, (distinct, _)))))) = check-ok _ checks in
    (
      authority-IsOfTask uuid_text i authority,
      routes-IsRouted i.supervision.routes few managed distinct,
    )
