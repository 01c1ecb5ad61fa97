-- ===== src/Accounting/Cash.antt =====
-- What the validators of model_accounting.py promise of cash and of tokens.
use memoriesql.Prelude.{
  ℕ, String, not, ◌&&◌, ◌||◌, leb, is_none, ◌≢◌, ◌+◌, ◌≤◌, ◌<◌, ◌≡◌, refl, ◌⊎◌, inl, inr, true,
  Option, none, some, is_some, ok, check-ok, >>-eq-ok, arith, tests,
}
use memoriesql.Capture.Host.{Uuid}
use memoriesql.Capture.Fold.Outcome.{present}
use memoriesql.Accounting.Event.{
  UsageEventKind, usage_reported, usage_unavailable, request_failed, request_cancelled,
  lease_lost_return, RequestOutcome, succeeded, failed, cancelled, lease_lost, unknown_outcome,
  UsageState, reported_usage, unavailable_usage, is_reported, is_unavailable, ModelUsageEvent,
  outcome_fits, event_fields, event_state, validate_event,
}
use memoriesql.Accounting.Target.{
  UsageProvenance, provider_reported, framework_estimated, unavailable, BillingBasis, metered,
  subscription, local, discounted, credited, indeterminate, AllowanceState, covered, available,
  exhausted, unknown, not_applicable, is_metered, is_subscription, is_covered, validate_target,
  NormalizedUsage, validate_usage,
}
use memoriesql.Accounting.Intent.{
  ProviderRequestIntent, differs, intent_fields, intent_authority, validate_intent,
}

-- A ceiling on cash is held against a price and a reservation, or against a covered subscription.
abbrev pub IsBacked : ProviderRequestIntent → Type 0
IsBacked i =
    ((i.target.billing_basis ≡ metered)
      × ((price : ℕ) × (i.target.pricing_revision_id ≡ some price))
      × (0 < i.conservative_reservation_microunits))
    ⊎ ((i.target.billing_basis ≡ subscription) × (i.target.allowance_state ≡ covered))

abbrev pub IsTaskRequest : ProviderRequestIntent → Type 0
IsTaskRequest i =
    (is_some i.semantic_task_id ≡ true)
    × (is_some i.semantic_attempt_id ≡ true)
    × (i.retrieval_execution_id ≡ none)

abbrev pub IsRetrieval : ProviderRequestIntent → Type 0
IsRetrieval i =
    (i.semantic_task_id ≡ none)
    × (i.semantic_attempt_id ≡ none)
    × (is_some i.retrieval_execution_id ≡ true)

backed :
    (basis : BillingBasis) (allowance : AllowanceState) (price : Option ℕ) (reservation : ℕ)
    → (is_metered basis && is_some price) || (is_subscription basis && is_covered allowance) ≡ true
    → not (is_metered basis && leb reservation 0) ≡ true
    → ((basis ≡ metered) × ((p : ℕ) × (price ≡ some p)) × (0 < reservation))
      ⊎ ((basis ≡ subscription) × (allowance ≡ covered))
backed metered allowance (some price) reservation h k = inl (refl, (price, refl), ground (arith, k))
backed metered allowance none reservation h k = absurd (cc h)
backed subscription covered price reservation h k = inr (refl, refl)
backed subscription available price reservation h k = absurd (cc h)
backed subscription exhausted price reservation h k = absurd (cc h)
backed subscription unknown price reservation h k = absurd (cc h)
backed subscription not_applicable price reservation h k = absurd (cc h)
backed local allowance price reservation h k = absurd (cc h)
backed discounted allowance price reservation h k = absurd (cc h)
backed credited allowance price reservation h k = absurd (cc h)
backed indeterminate allowance price reservation h k = absurd (cc h)

-- A valid intent with a ceiling on cash is backed: it is metered with a pinned price and a
-- reservation, or its subscription covers it.
pub validate_intent-IsBacked :
    (i : ProviderRequestIntent)
    → validate_intent i ≡ ok tt
    → is_some i.safety_ceiling_microunits ≡ true
    → IsBacked i
unfolding validate_intent intent_authority
validate_intent-IsBacked i h ceiling =
    let (_, h1) = >>-eq-ok (validate_target i.target) _ h in
    let (_, h2) = >>-eq-ok (intent_fields i) _ h1 in
    let (_, (_, (_, (reserved, (_, (known, _)))))) = check-ok _ h2 in
    backed i.target.billing_basis i.target.allowance_state i.target.pricing_revision_id
      i.conservative_reservation_microunits (ground (arith, known, ceiling))
      (ground (arith, reserved, ceiling))

one_authority :
    (task attempt : Option String) (retrieval : Option Uuid)
    → differs (is_some task && is_some attempt) (is_some retrieval) ≡ true
    → not (differs (is_none task) (is_none attempt)) ≡ true
    → ((is_some task ≡ true) × (is_some attempt ≡ true) × (retrieval ≡ none))
      ⊎ ((task ≡ none) × (attempt ≡ none) × (is_some retrieval ≡ true))
one_authority (some t) (some a) none h k = inl (refl, refl, refl)
one_authority (some t) (some a) (some r) h k = absurd (cc h)
one_authority (some t) none r h k = absurd (cc k)
one_authority none (some a) r h k = absurd (cc k)
one_authority none none (some r) h k = inr (refl, refl, refl)
one_authority none none none h k = absurd (cc h)

-- A valid intent has one authority, the attempt of a semantic task or a retrieval, and asks for no
-- more tokens than its target is certified for.
pub validate_intent-authority :
    (i : ProviderRequestIntent)
    → validate_intent i ≡ ok tt
    → (IsTaskRequest i ⊎ IsRetrieval i)
      × (i.max_input_tokens ≡ i.target.max_input_tokens_per_request)
      × (i.max_output_tokens ≤ i.target.max_output_tokens_per_request)
unfolding validate_intent intent_authority
validate_intent-authority i h =
    let (_, h1) = >>-eq-ok (validate_target i.target) _ h in
    let (_, h2) = >>-eq-ok (intent_fields i) _ h1 in
    let (one, (together, (_, (_, (_, (_, (input, (output, _)))))))) = check-ok _ h2 in
    (
      one_authority i.semantic_task_id i.semantic_attempt_id i.retrieval_execution_id one together,
      omega (tests, input),
      omega (tests, output),
    )

-- The outcome that a kind of event stands for.
abbrev pub outcome_of : UsageEventKind → RequestOutcome
outcome_of usage_reported = succeeded
outcome_of usage_unavailable = succeeded
outcome_of request_failed = failed
outcome_of request_cancelled = cancelled
outcome_of lease_lost_return = lease_lost

abbrev pub IsBalanced : NormalizedUsage → Type 0
IsBalanced u =
    (u.total_tokens ≡ u.input_tokens + u.output_tokens)
    × (u.cached_input_tokens + u.cache_write_tokens ≤ u.input_tokens)
    × (u.reasoning_tokens ≤ u.output_tokens)

-- What the usage of an event is.
abbrev pub Accounts : UsageState → UsageProvenance → Option NormalizedUsage → Type 0
Accounts reported_usage provenance usage =
    (provenance ≢ unavailable) × ((u : NormalizedUsage) × (usage ≡ some u) × IsBalanced u)
Accounts unavailable_usage provenance usage = (provenance ≡ unavailable) × (usage ≡ none)

outcome_fits-outcome_of :
    (kind : UsageEventKind) (outcome : RequestOutcome)
    → outcome_fits kind outcome ≡ true
    → outcome ≡ outcome_of kind
outcome_fits-outcome_of usage_reported succeeded h = refl
outcome_fits-outcome_of usage_reported failed h = absurd (cc h)
outcome_fits-outcome_of usage_reported cancelled h = absurd (cc h)
outcome_fits-outcome_of usage_reported lease_lost h = absurd (cc h)
outcome_fits-outcome_of usage_reported unknown_outcome h = absurd (cc h)
outcome_fits-outcome_of usage_unavailable succeeded h = refl
outcome_fits-outcome_of usage_unavailable failed h = absurd (cc h)
outcome_fits-outcome_of usage_unavailable cancelled h = absurd (cc h)
outcome_fits-outcome_of usage_unavailable lease_lost h = absurd (cc h)
outcome_fits-outcome_of usage_unavailable unknown_outcome h = absurd (cc h)
outcome_fits-outcome_of request_failed succeeded h = absurd (cc h)
outcome_fits-outcome_of request_failed failed h = refl
outcome_fits-outcome_of request_failed cancelled h = absurd (cc h)
outcome_fits-outcome_of request_failed lease_lost h = absurd (cc h)
outcome_fits-outcome_of request_failed unknown_outcome h = absurd (cc h)
outcome_fits-outcome_of request_cancelled succeeded h = absurd (cc h)
outcome_fits-outcome_of request_cancelled failed h = absurd (cc h)
outcome_fits-outcome_of request_cancelled cancelled h = refl
outcome_fits-outcome_of request_cancelled lease_lost h = absurd (cc h)
outcome_fits-outcome_of request_cancelled unknown_outcome h = absurd (cc h)
outcome_fits-outcome_of lease_lost_return succeeded h = absurd (cc h)
outcome_fits-outcome_of lease_lost_return failed h = absurd (cc h)
outcome_fits-outcome_of lease_lost_return cancelled h = absurd (cc h)
outcome_fits-outcome_of lease_lost_return lease_lost h = refl
outcome_fits-outcome_of lease_lost_return unknown_outcome h = absurd (cc h)

pub validate_usage-IsBalanced : (u : NormalizedUsage) → validate_usage u ≡ ok tt → IsBalanced u
unfolding validate_usage
validate_usage-IsBalanced u h =
    let (total, (cached, (reasoning, _))) = check-ok _ h in
    (omega (tests, total), omega (tests, cached), omega (tests, reasoning))

accounts :
    (state : UsageState) (provenance : UsageProvenance) (usage : Option NormalizedUsage)
    → present validate_usage usage ≡ ok tt
    → not (is_reported state && is_none usage) ≡ true
    → not (not (is_reported state) && is_some usage) ≡ true
    → not (not (is_reported state) && not (is_unavailable provenance)) ≡ true
    → not (is_reported state && is_unavailable provenance) ≡ true
    → Accounts state provenance usage
accounts reported_usage provenance none valid a b c d = absurd (cc a)
accounts reported_usage unavailable (some u) valid a b c d = absurd (cc d)
accounts reported_usage provider_reported (some u) valid a b c d =
    (λ e. absurd (cc e), (u, refl, validate_usage-IsBalanced u valid))
accounts reported_usage framework_estimated (some u) valid a b c d =
    (λ e. absurd (cc e), (u, refl, validate_usage-IsBalanced u valid))
accounts unavailable_usage provenance (some u) valid a b c d = absurd (cc b)
accounts unavailable_usage unavailable none valid a b c d = (refl, refl)
accounts unavailable_usage provider_reported none valid a b c d = absurd (cc c)
accounts unavailable_usage framework_estimated none valid a b c d = absurd (cc c)

-- A valid usage event reports balanced token counts of a known provenance, or none at all of no
-- provenance; its outcome is that of its kind.
pub validate_event-Accounts :
    (e : ModelUsageEvent)
    → validate_event e ≡ ok tt
    → Accounts e.usage_state e.usage_provenance e.usage × (e.outcome ≡ outcome_of e.event_kind)
unfolding validate_event event_state
validate_event-Accounts e h =
    let (usage, h1) = >>-eq-ok (present validate_usage e.usage) _ h in
    let (_, h2) = >>-eq-ok (event_fields e) _ h1 in
    let (a, (b, (c, (d, (_, (_, (_, (fits, _)))))))) = check-ok _ h2 in
    (
      accounts e.usage_state e.usage_provenance e.usage usage a b c d,
      outcome_fits-outcome_of e.event_kind e.outcome fits,
    )
