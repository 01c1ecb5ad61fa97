-- ===== src/Accounting/Forecasted.antt =====
-- What a valid forecast of model_accounting.py says of costs and of cash.
use memoriesql.Prelude.{
  ℕ, Bool, ap, ◌≤◌, ◌≡◌, refl, true, Option, none, some, is_some, is_none, ◌&&◌, ok, check,
  check-ok, >>-eq-ok, arith, tests,
}
use memoriesql.Accounting.Target.{
  BillingBasis, metered, subscription, local, discounted, credited, indeterminate, AllowanceState,
  covered, available, exhausted, unknown, not_applicable, is_metered, is_subscription, is_local,
  is_covered,
}
use memoriesql.Accounting.Forecast.{
  CostBasis, reported_by_provider, catalog_estimate, subscription_covered, local_cost, unknown_cost,
  BulkUsageForecast, forecast_fields, shadow_costs, is_zero_cash, cash_rule, validate_forecast,
}

-- Three costs in order, or none of them.
abbrev pub IsRange : Option ℕ → Option ℕ → Option ℕ → Type 0
IsRange (some low) (some expected) (some high) = (low ≤ expected) × (expected ≤ high)
IsRange low expected high = (low ≡ none) × (expected ≡ none) × (high ≡ none)

-- The cash that each basis of the cost stands for.
abbrev pub HasCash : BulkUsageForecast → CostBasis → Type 0
HasCash f reported_by_provider = is_some f.incremental_cash_exposure_microunits ≡ true
HasCash f catalog_estimate =
    (f.billing_basis ≡ metered)
    × (is_some f.pricing_revision_id ≡ true)
    × (is_some f.incremental_cash_exposure_microunits ≡ true)
HasCash f subscription_covered =
    (f.billing_basis ≡ subscription)
    × (f.allowance_state ≡ covered)
    × (f.incremental_cash_exposure_microunits ≡ some 0)
HasCash f local_cost = (f.billing_basis ≡ local) × (f.incremental_cash_exposure_microunits ≡ none)
HasCash f unknown_cost = f.incremental_cash_exposure_microunits ≡ none

shadow_costs-IsRange :
    (low expected high : Option ℕ)
    → shadow_costs low expected high ≡ ok tt
    → IsRange low expected high
unfolding shadow_costs
shadow_costs-IsRange (some low) (some expected) (some high) h =
    let (ordered, _) = check-ok _ h in (ground (arith, ordered), ground (arith, ordered))
shadow_costs-IsRange none none none h = (refl, refl, refl)
shadow_costs-IsRange none none (some high) h = absurd (cc (check-ok _ h).0)
shadow_costs-IsRange none (some expected) none h = absurd (cc (check-ok _ h).0)
shadow_costs-IsRange none (some expected) (some high) h = absurd (cc (check-ok _ h).0)
shadow_costs-IsRange (some low) none none h = absurd (cc (check-ok _ h).0)
shadow_costs-IsRange (some low) none (some high) h = absurd (cc (check-ok _ h).0)
shadow_costs-IsRange (some low) (some expected) none h = absurd (cc (check-ok _ h).0)

and-both : (a b : Bool) → a && b ≡ true → (a ≡ true) × (b ≡ true)
and-both a b h = (ground (arith, h), ground (arith, h))

is_metered-eq : (b : BillingBasis) → is_metered b ≡ true → b ≡ metered
is_metered-eq metered h = refl
is_metered-eq subscription h = absurd (cc h)
is_metered-eq local h = absurd (cc h)
is_metered-eq discounted h = absurd (cc h)
is_metered-eq credited h = absurd (cc h)
is_metered-eq indeterminate h = absurd (cc h)

is_subscription-eq : (b : BillingBasis) → is_subscription b ≡ true → b ≡ subscription
is_subscription-eq subscription h = refl
is_subscription-eq metered h = absurd (cc h)
is_subscription-eq local h = absurd (cc h)
is_subscription-eq discounted h = absurd (cc h)
is_subscription-eq credited h = absurd (cc h)
is_subscription-eq indeterminate h = absurd (cc h)

is_local-eq : (b : BillingBasis) → is_local b ≡ true → b ≡ local
is_local-eq local h = refl
is_local-eq metered h = absurd (cc h)
is_local-eq subscription h = absurd (cc h)
is_local-eq discounted h = absurd (cc h)
is_local-eq credited h = absurd (cc h)
is_local-eq indeterminate h = absurd (cc h)

is_covered-eq : (a : AllowanceState) → is_covered a ≡ true → a ≡ covered
is_covered-eq covered h = refl
is_covered-eq available h = absurd (cc h)
is_covered-eq exhausted h = absurd (cc h)
is_covered-eq unknown h = absurd (cc h)
is_covered-eq not_applicable h = absurd (cc h)

is_none-eq : (o : Option ℕ) → is_none o ≡ true → o ≡ none
is_none-eq none h = refl
is_none-eq (some x) h = absurd (cc h)

is_zero_cash-eq : (o : Option ℕ) → is_zero_cash o ≡ true → o ≡ some 0
is_zero_cash-eq none h = absurd (cc h)
is_zero_cash-eq (some cash) h = ap some (omega (tests, h))

cash_rule-HasCash :
    (f : BulkUsageForecast) (basis : CostBasis) → cash_rule f basis ≡ ok tt → HasCash f basis
cash_rule-HasCash f reported_by_provider h = (check-ok _ h).0
cash_rule-HasCash f catalog_estimate h =
    let (all, _) = check-ok _ h in
    let (basis, rest) = and-both (is_metered f.billing_basis) _ all in
    let (price, cash) = and-both (is_some f.pricing_revision_id) _ rest in
    (is_metered-eq _ basis, price, cash)
cash_rule-HasCash f subscription_covered h =
    let (all, _) = check-ok _ h in
    let (basis, rest) = and-both (is_subscription f.billing_basis) _ all in
    let (allowance, cash) = and-both (is_covered f.allowance_state) _ rest in
    (is_subscription-eq _ basis, is_covered-eq _ allowance, is_zero_cash-eq _ cash)
cash_rule-HasCash f local_cost h =
    let (all, _) = check-ok _ h in
    let (basis, cash) = and-both (is_local f.billing_basis) _ all in
    (is_local-eq _ basis, is_none-eq _ cash)
cash_rule-HasCash f unknown_cost h = is_none-eq _ (check-ok _ h).0

-- A valid forecast has its three costs in order, or none of them, and the cash that the basis of its
-- cost stands for: of an estimate by the catalog the cash and the price of a metered billing, of a
-- covered subscription no cash, and of a local or an unknown cost an unknown one.
pub validate_forecast-HasCash :
    (f : BulkUsageForecast)
    → validate_forecast f ≡ ok tt
    → IsRange f.low_shadow_cost_microunits f.expected_shadow_cost_microunits
        f.high_shadow_cost_microunits
      × HasCash f f.cost_basis
unfolding validate_forecast
validate_forecast-HasCash f h =
    let (_, h1) = >>-eq-ok (forecast_fields f) _ h in
    let (costs, h2) = >>-eq-ok (shadow_costs f.low_shadow_cost_microunits _ _) _ h1 in
    let (_, cash) = >>-eq-ok (check _) _ h2 in
    (shadow_costs-IsRange _ _ _ costs, cash_rule-HasCash f f.cost_basis cash)
