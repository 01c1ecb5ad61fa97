-- ===== src/Accounting/Accounted.antt =====
-- A managed turn is accounted for once: by its reported total, else by the sum of its requests, else
-- by its estimate.
use memoriesql.Prelude.{
  ◌+◌, ◌≡◌, ◌≢◌, refl, Bool, true, false, Option, none, some, List, [], ◌∷◌, ok, checked, Holds-ok,
  >>-eq-ok, le→leb, eq→eqb, arith, if◌then◌else◌,
}
use memoriesql.Capture.Range.Command.{check_each}
use memoriesql.Capture.Fold.Outcome.{present}
use memoriesql.Accounting.Target.{
  UsageProvenance, provider_reported, unavailable, NormalizedUsage, validate_usage,
}
use memoriesql.Accounting.Observation.{
  InferenceUsageObservation, validate_inference, ManagedUsageObservation, plus_usage, usage_or_zero,
  sum_usage, all_reported, sum_provenance, request_total, or_estimated, or_request_total,
  accounted_total, validate_observation,
}
use memoriesql.Accounting.Cash.{IsBalanced, validate_usage-IsBalanced}

-- What an aggregate is: balanced counts of a known provenance, or nothing of none.
abbrev pub IsAggregate : Option NormalizedUsage × UsageProvenance → Type 0
IsAggregate (none, provenance) = provenance ≡ unavailable
IsAggregate (some u, provenance) = IsBalanced u × (provenance ≢ unavailable)

IsBalanced-validate_usage : (u : NormalizedUsage) → IsBalanced u → validate_usage u ≡ ok tt
unfolding validate_usage
IsBalanced-validate_usage u (total, cached, reasoning) = Holds-ok _ (
  eq→eqb u.total_tokens (u.input_tokens + u.output_tokens) total,
  (
    le→leb (u.cached_input_tokens + u.cache_write_tokens) u.input_tokens cached,
    (le→leb u.reasoning_tokens u.output_tokens reasoning, tt),
  ),
)

plus_usage-IsBalanced :
    (u v : NormalizedUsage) → IsBalanced u → IsBalanced v → IsBalanced (plus_usage u v)
unfolding plus_usage
plus_usage-IsBalanced u v (a, b, c) (d, e, f) =
    (omega (arith, a, d), omega (arith, b, e), omega (arith, c, f))

usage_or_zero-IsBalanced :
    (o : Option NormalizedUsage) → present validate_usage o ≡ ok tt → IsBalanced (usage_or_zero o)
usage_or_zero-IsBalanced none h = (omega arith, omega arith, omega arith)
usage_or_zero-IsBalanced (some u) h = validate_usage-IsBalanced u h

sum_usage-IsBalanced :
    (requests : List InferenceUsageObservation)
    → check_each validate_inference requests ≡ ok tt
    → IsBalanced (sum_usage requests)
unfolding sum_usage check_each validate_inference
sum_usage-IsBalanced [] h = (omega arith, omega arith, omega arith)
sum_usage-IsBalanced (r ∷ requests) h =
    let (first, rest) = >>-eq-ok (validate_inference r) _ h in
    let (usage, _) = >>-eq-ok (present validate_usage r.usage) _ first in
    plus_usage-IsBalanced (usage_or_zero r.usage) (sum_usage requests)
      (usage_or_zero-IsBalanced r.usage usage) (sum_usage-IsBalanced requests rest)

sum_provenance-known : (c : Bool) → sum_provenance c ≢ unavailable
sum_provenance-known true h = absurd (cc h)
sum_provenance-known false h = absurd (cc h)

request_total-found :
    (o : ManagedUsageObservation)
    → check_each validate_inference o.request_observations ≡ ok tt
    → (p : Option NormalizedUsage × UsageProvenance) × (request_total o ≡ ok p) × IsAggregate p
unfolding request_total
request_total-found o each = go _
  where
    total : NormalizedUsage
    total = sum_usage o.request_observations

    balanced : IsBalanced total
    balanced = sum_usage-IsBalanced o.request_observations each

    go :
        (c : Bool)
        → (p : Option NormalizedUsage × UsageProvenance) × ((if c
              then ok (none, unavailable)
              else checked
                  (validate_usage total)
                  (some total, sum_provenance (all_reported o.request_observations)))
            ≡ ok p)
          × IsAggregate p
    go true = ((none, unavailable), refl, refl)
    go false = (
      (some total, sum_provenance (all_reported o.request_observations)),
      rw (IsBalanced-validate_usage total balanced) refl,
      (balanced, sum_provenance-known _),
    )

or_estimated-IsAggregate :
    (estimated : Option NormalizedUsage) (p : Option NormalizedUsage × UsageProvenance)
    → present validate_usage estimated ≡ ok tt
    → IsAggregate p
    → IsAggregate (or_estimated estimated p)
or_estimated-IsAggregate estimated (some total, provenance) valid aggregate = aggregate
or_estimated-IsAggregate (some u) (none, provenance) valid aggregate =
    (validate_usage-IsBalanced u valid, λ e. absurd (cc e))
or_estimated-IsAggregate none (none, provenance) valid aggregate = refl

-- The total of a valid observation is always found: the counts of the requests add up to counts
-- that are balanced, so that no validator refuses the aggregate, which has balanced counts of a
-- known provenance, or none of none.
pub accounted_total-total :
    (o : ManagedUsageObservation)
    → validate_observation o ≡ ok tt
    → (p : Option NormalizedUsage × UsageProvenance) × (accounted_total o ≡ ok p) × IsAggregate p
unfolding accounted_total validate_observation
accounted_total-total o h =
    let (reported, h1) = >>-eq-ok (present validate_usage o.reported_total) _ h in
    let (estimated, h2) = >>-eq-ok (present validate_usage o.estimated_total) _ h1 in
    let (each, _) = >>-eq-ok (check_each validate_inference o.request_observations) _ h2 in
    go o.reported_total reported estimated each
  where
    go :
        (total : Option NormalizedUsage)
        → present validate_usage total ≡ ok tt
        → present validate_usage o.estimated_total ≡ ok tt
        → check_each validate_inference o.request_observations ≡ ok tt
        → (p : Option NormalizedUsage × UsageProvenance) × (or_request_total total o ≡ ok p)
          × IsAggregate p
    go (some u) valid estimated each =
        ((some u, provider_reported), refl, (validate_usage-IsBalanced u valid, λ e. absurd (cc e)))
    go none valid estimated each =
        let (p, found, aggregate) = request_total-found o each in
        (
          or_estimated o.estimated_total p,
          rw found refl,
          or_estimated-IsAggregate o.estimated_total p estimated aggregate,
        )
