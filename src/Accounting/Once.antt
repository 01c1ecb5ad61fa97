-- ===== src/Accounting/Once.antt =====
-- The usage of a managed event counts no request twice.
use memoriesql.Prelude.{
  ◌≡◌, refl, sym, ap, ◌∙◌, Bool, true, false, not, ◌&&◌, ◌||◌, Option, none, some, is_some, ok,
  checked, Result, check-ok, checked-eq-ok, >>-eq-ok, >>=-eq-ok, nat_eq, arith, if◌then◌else◌,
  check,
}
use memoriesql.Capture.Range.Command.{check_each}
use memoriesql.Capture.Fold.Outcome.{present}
use memoriesql.Accounting.Target.{
  UsageProvenance, provider_reported, unavailable, NormalizedUsage, validate_usage,
}
use memoriesql.Accounting.Event.{ModelUsageEvent, validate_event}
use memoriesql.Accounting.Observation.{
  validate_inference, ManagedUsageObservation, sum_usage, any_missing, all_reported, sum_provenance,
  or_estimated, request_total, or_request_total, accounted_total, same_usage, complete_checks,
  validate_observation, is_provider_reported, validate_managed_event,
}

same_usage-eq : (a b : Option NormalizedUsage) → same_usage a b ≡ true → a ≡ b
unfolding same_usage
same_usage-eq none none h = refl
same_usage-eq none (some v) h = absurd (cc h)
same_usage-eq (some u) none h = absurd (cc h)
same_usage-eq (some u) (some v) h =
    let input : u.input_tokens ≡ v.input_tokens = ground (arith, h) in
    let output : u.output_tokens ≡ v.output_tokens = ground (arith, h) in
    let total : u.total_tokens ≡ v.total_tokens = ground (arith, h) in
    let cached : u.cached_input_tokens ≡ v.cached_input_tokens = ground (arith, h) in
    let written : u.cache_write_tokens ≡ v.cache_write_tokens = ground (arith, h) in
    let reasoning : u.reasoning_tokens ≡ v.reasoning_tokens = ground (arith, h) in
    let tools : u.tool_calls ≡ v.tool_calls = ground (arith, h) in
    λ i. some (record {
      input_tokens = input i;
      output_tokens = output i;
      total_tokens = total i;
      cached_input_tokens = cached i;
      cache_write_tokens = written i;
      reasoning_tokens = reasoning i;
      tool_calls = tools i;
    })

-- The requests are all there, each with its usage as the provider reported it.
abbrev pub IsItemized : ManagedUsageObservation → Type 0
IsItemized o =
    (o.request_observations_complete ≡ true)
    × (any_missing o.request_observations ≡ false)
    × (all_reported o.request_observations ≡ true)

itemized :
    (total : NormalizedUsage) (p : Option NormalizedUsage × UsageProvenance)
    (complete missing reported : Bool)
    → complete ≡ true
    → missing ≡ false
    → reported ≡ true
    → (if not complete || missing
        then ok (none, unavailable)
        else checked (validate_usage total) (some total, sum_provenance reported))
      ≡ ok p
    → p ≡ (some total, provider_reported)
itemized total p true false true a b c h = sym (checked-eq-ok _ _ h).1
itemized total p true false false a b c h = absurd (cc c)
itemized total p true true reported a b c h = absurd (cc b)
itemized total p false missing reported a b c h = absurd (cc a)

request_total-sum :
    (o : ManagedUsageObservation) (p : Option NormalizedUsage × UsageProvenance)
    → IsItemized o
    → request_total o ≡ ok p
    → p ≡ (some (sum_usage o.request_observations), provider_reported)
unfolding request_total
request_total-sum o p (complete, missing, reported) h =
    itemized (sum_usage o.request_observations) p o.request_observations_complete
      (any_missing o.request_observations) (all_reported o.request_observations) complete missing
      reported h

-- A reported total is the sum of the requests.
reported-sum :
    (reported : Option NormalizedUsage) (total : NormalizedUsage)
    (p : Option NormalizedUsage × UsageProvenance)
    → p ≡ (some total, provider_reported)
    → not (is_some reported && (is_provider_reported p.1 && not (same_usage p.0 reported))) ≡ true
    → is_some reported ≡ true
    → reported ≡ some total
reported-sum reported total p sums checked' there =
    let same : same_usage p.0 reported ≡ true =
      ground (arith, checked', there, ap (λ x. is_provider_reported x.1) sums) in
    sym (same_usage-eq p.0 reported same) ∙ ap (λ x. x.0) sums

complete_checks-sum :
    (o : ManagedUsageObservation)
    → IsItemized o
    → complete_checks o ≡ ok tt
    → is_some o.reported_total ≡ true
    → o.reported_total ≡ some (sum_usage o.request_observations)
unfolding complete_checks
complete_checks-sum o items h there =
    let (_, h1) = >>-eq-ok (check _) _ h in
    let (p, found, h2) = >>=-eq-ok (request_total o) _ h1 in
    reported-sum o.reported_total (sum_usage o.request_observations) p
      (request_total-sum o p items found) (check-ok _ h2).0 there

or_request_total-sum :
    (o : ManagedUsageObservation) (reported : Option NormalizedUsage)
    (p : Option NormalizedUsage × UsageProvenance)
    → IsItemized o
    → (is_some reported ≡ true → reported ≡ some (sum_usage o.request_observations))
    → or_request_total reported o ≡ ok p
    → p.0 ≡ some (sum_usage o.request_observations)
or_request_total-sum o (some u) p items sums h =
    let same : (some u, provider_reported) ≡ p = cc h in sym (ap (λ x. x.0) same) ∙ sums refl
or_request_total-sum o none p items sums h =
    let (q, found, h1) = >>=-eq-ok (request_total o) _ h in
    let same : or_estimated o.estimated_total q ≡ p = cc h1 in
    sym (ap (λ x. x.0) same)
    ∙ ap (λ x. (or_estimated o.estimated_total x).0) (request_total-sum o q items found)

if_complete :
    (c : Bool) (r : Result (Unit {0})) → c ≡ true → (if c then r else ok tt) ≡ ok tt → r ≡ ok tt
if_complete true r h k = k
if_complete false r h k = absurd (cc h)

validate_observation-sum :
    (o : ManagedUsageObservation)
    → IsItemized o
    → validate_observation o ≡ ok tt
    → is_some o.reported_total ≡ true
    → o.reported_total ≡ some (sum_usage o.request_observations)
unfolding validate_observation
validate_observation-sum o items h =
    let (_, h1) = >>-eq-ok (present validate_usage o.reported_total) _ h in
    let (_, h2) = >>-eq-ok (present validate_usage o.estimated_total) _ h1 in
    let (_, h3) = >>-eq-ok (check_each validate_inference o.request_observations) _ h2 in
    let (_, h4) = >>-eq-ok (check _) _ h3 in
    complete_checks-sum o items
      (if_complete o.request_observations_complete (complete_checks o) items.0 h4)

-- If the requests of a valid managed event are all observed, each with its usage as the provider
-- reported it, then the usage of the event is the sum of theirs, also where a total was reported
-- beside them.
pub validate_managed_event-sum :
    (e : ModelUsageEvent) (o : ManagedUsageObservation)
    → IsItemized o
    → validate_managed_event e o ≡ ok tt
    → e.usage ≡ some (sum_usage o.request_observations)
unfolding validate_managed_event accounted_total
validate_managed_event-sum e o items h =
    let (observation, h1) = >>-eq-ok (validate_observation o) _ h in
    let (_, h2) = >>-eq-ok (validate_event e) _ h1 in
    let (p, total, h3) = >>=-eq-ok (accounted_total o) _ h2 in
    let (same, _) = check-ok _ h3 in
    same_usage-eq e.usage p.0 (ground (arith, same))
    ∙ or_request_total-sum o o.reported_total p items (validate_observation-sum o items observation)
        total
