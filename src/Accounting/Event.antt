-- ===== src/Accounting/Event.antt =====
-- ModelUsageEvent of model_accounting.py, and the refusals of its database function.
use memoriesql.Prelude.{
  ℕ, String, Bool, true, false, not, ◌&&◌, Option, [], ◌∷◌, is_some, is_none, string_eq, ◌==◌,
  Result, check, require, field, ◌>>◌,
}
use memoriesql.Contracts.Text.{optional, is_key, is_sha256}
use memoriesql.Capture.Host.{Uuid}
use memoriesql.Capture.Fold.Outcome.{present}
use memoriesql.Accounting.Target.{UsageProvenance, unavailable, NormalizedUsage, validate_usage}
use memoriesql.Accounting.Intent.{differs}

pub data UsageEventKind : Type 0 where
  usage_reported usage_unavailable request_failed request_cancelled lease_lost_return :
      UsageEventKind

pub data RequestOutcome : Type 0 where
  succeeded failed cancelled lease_lost unknown_outcome : RequestOutcome

pub data UsageState : Type 0 where
  reported_usage unavailable_usage : UsageState

abbrev pub is_reported : UsageState → Bool
is_reported reported_usage = true
is_reported unavailable_usage = false

abbrev pub is_unavailable : UsageProvenance → Bool
is_unavailable unavailable = true
is_unavailable _ = false

pub record ModelUsageEvent : Type 0 where
  pub event_id : Uuid
  pub request_id : Uuid
  pub dedupe_key : String
  pub event_kind : UsageEventKind
  pub outcome : RequestOutcome
  pub usage_state : UsageState
  pub usage_provenance : UsageProvenance
  pub usage : Option NormalizedUsage
  pub provider_reported_cost_microunits : Option ℕ
  pub provider_reported_currency : Option String
  pub provider_request_id_hash : Option String
  pub diagnostic_code : Option String

-- self.outcome == required_outcomes[self.event_kind]
abbrev pub outcome_fits : UsageEventKind → RequestOutcome → Bool
outcome_fits usage_reported succeeded = true
outcome_fits usage_unavailable succeeded = true
outcome_fits request_failed failed = true
outcome_fits request_cancelled cancelled = true
outcome_fits lease_lost_return lease_lost = true
outcome_fits _ _ = false

-- The two kinds that name a state of the usage agree with it.
abbrev pub kind_is_reported : UsageEventKind → Bool
kind_is_reported usage_reported = true
kind_is_reported _ = false

abbrev pub kind_is_unavailable : UsageEventKind → Bool
kind_is_unavailable usage_unavailable = true
kind_is_unavailable _ = false

unfoldable pub event_state : ModelUsageEvent → Result (Unit {0})
event_state e = check (
    require (not (is_reported e.usage_state && is_none e.usage))
      "reported usage requires normalized units"
    ∷ require (not (not (is_reported e.usage_state) && is_some e.usage))
        "unavailable usage cannot carry normalized units"
    ∷ require (not (not (is_reported e.usage_state) && not (is_unavailable e.usage_provenance)))
        "unavailable usage requires unavailable provenance"
    ∷ require (not (is_reported e.usage_state && is_unavailable e.usage_provenance))
        "reported usage requires a known provenance"
    ∷ require
        (not (
          differs (is_none e.provider_reported_cost_microunits)
            (is_none e.provider_reported_currency)))
        "provider-reported cost and currency are atomic"
    ∷ require (not (kind_is_reported e.event_kind && not (is_reported e.usage_state)))
        "usage_reported requires reported usage"
    ∷ require (not (kind_is_unavailable e.event_kind && is_reported e.usage_state))
        "usage_unavailable requires unavailable usage"
    ∷ require (outcome_fits e.event_kind e.outcome) "usage event kind and request outcome disagree"
    ∷ [])

unfoldable pub event_fields : ModelUsageEvent → Result (Unit {0})
event_fields e = check (
    field (is_sha256 e.dedupe_key) "dedupe_key"
    ∷ field (optional (λ currency. currency == "USD") e.provider_reported_currency)
        "provider_reported_currency"
    ∷ field (optional is_sha256 e.provider_request_id_hash) "provider_request_id_hash"
    ∷ field (optional is_key e.diagnostic_code) "diagnostic_code"
    ∷ [])

unfoldable pub validate_event : ModelUsageEvent → Result (Unit {0})
unfolding validate_usage event_fields event_state
validate_event e = do present validate_usage e.usage; event_fields e; event_state e
