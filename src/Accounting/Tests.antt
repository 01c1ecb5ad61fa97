-- ===== src/Accounting/Tests.antt =====
-- A metered request of a task, and what it reported.
use memoriesql.Prelude.{◌≡◌, refl, ◌≤◌, ◌⊎◌, String, true, none, some, check}
use memoriesql.Contracts.Text.{has_length, is_key, is_identifier, is_sha256}
use memoriesql.Accounting.Target.{
  metered, available, frontier, provider_reported, ProviderRequestTarget, NormalizedUsage,
  validate_usage,
}
use memoriesql.Accounting.Intent.{ProviderRequestIntent, validate_intent}
use memoriesql.Accounting.Event.{
  ModelUsageEvent, usage_reported, succeeded, reported_usage, validate_event,
}
use memoriesql.Accounting.Target.{subscription, covered}
use memoriesql.Accounting.Forecast.{BulkUsageForecast, subscription_covered, validate_forecast}
use memoriesql.Accounting.Forecasted.{IsRange, HasCash, validate_forecast-HasCash}
use memoriesql.Accounting.Cash.{
  IsBacked, validate_intent-IsBacked, IsTaskRequest, IsRetrieval, validate_intent-authority,
  Accounts, outcome_of, validate_event-Accounts,
}

abbrev pub hash : String
hash = "00000000000000000000000000000000000000000000000000000000000000ff"

abbrev pub target : ProviderRequestTarget
target = record {
  provider_key = "provider";
  credential_id = 1;
  model_id = "model";
  max_input_tokens_per_request = 1000;
  max_output_tokens_per_request = 200;
  billing_basis = metered;
  allowance_state = available;
  pricing_revision_id = some 2;
  quality_policy_revision_id = 3;
  quality_tier = frontier;
  request_boundary_revision = "v1";
  transport_retries_disabled = true;
  usage_provenance = provider_reported;
}

abbrev intent : ProviderRequestIntent
intent = record {
  request_id = 4;
  tenant_id = "t";
  workspace_id = "w";
  access_scope_id = "s";
  semantic_task_id = some "task";
  semantic_attempt_id = some "attempt";
  retrieval_execution_id = none;
  run_id = "run";
  parent_run_id = none;
  run_role = "primary";
  module_key = "module";
  operation_key = "operation";
  task_kind = "kind";
  task_contract_revision = 1;
  origin_principal_id = "principal";
  origin_delegation_id = none;
  policy_revision = 1;
  model_profile_key = "profile";
  model_profile_revision = 1;
  request_sequence = 1;
  target = target;
  safety_ceiling_microunits = some 500;
  conservative_reservation_microunits = 100;
  max_input_tokens = 1000;
  max_output_tokens = 150;
  request_payload_hash = hash;
}

validate_intent-IsBacked_example : IsBacked intent
unfolding validate_intent is_key is_identifier has_length is_sha256 check
validate_intent-IsBacked_example = validate_intent-IsBacked intent refl refl

validate_intent-authority_example :
    (IsTaskRequest intent ⊎ IsRetrieval intent)
    × (intent.max_input_tokens ≡ target.max_input_tokens_per_request)
    × (intent.max_output_tokens ≤ target.max_output_tokens_per_request)
unfolding validate_intent is_key is_identifier has_length is_sha256 check
validate_intent-authority_example = validate_intent-authority intent refl

abbrev pub usage : NormalizedUsage
usage = record {
  input_tokens = 900;
  output_tokens = 120;
  total_tokens = 1020;
  cached_input_tokens = 500;
  cache_write_tokens = 100;
  reasoning_tokens = 60;
  tool_calls = 1;
}

abbrev pub event : ModelUsageEvent
event = record {
  event_id = 5;
  request_id = 4;
  dedupe_key = hash;
  event_kind = usage_reported;
  outcome = succeeded;
  usage_state = reported_usage;
  usage_provenance = provider_reported;
  usage = some usage;
  provider_reported_cost_microunits = some 80;
  provider_reported_currency = some "USD";
  provider_request_id_hash = none;
  diagnostic_code = none;
}

validate_event-Accounts_example :
    Accounts reported_usage provider_reported (some usage) × (succeeded ≡ outcome_of usage_reported)
unfolding validate_event validate_usage is_sha256 check
validate_event-Accounts_example = validate_event-Accounts event refl

abbrev forecast : BulkUsageForecast
forecast = record {
  forecast_id = 7;
  forecast_series_key = hash;
  forecast_hash = hash;
  tenant_id = "t";
  workspace_id = "w";
  access_scope_id = "s";
  source_scope_hash = hash;
  quality_policy_revision_id = 3;
  model_profile_key = "profile";
  model_profile_revision = 1;
  billing_basis = subscription;
  pricing_revision_id = none;
  pricing_observed_at_epoch_us = 0;
  item_count = 12;
  low_shadow_cost_microunits = some 100;
  expected_shadow_cost_microunits = some 150;
  high_shadow_cost_microunits = some 400;
  incremental_cash_exposure_microunits = some 0;
  safety_ceiling_microunits = none;
  expected_completion_low_ms = 1000;
  expected_completion_high_ms = 5000;
  allowance_state = covered;
  cost_basis = subscription_covered;
  queue_effect_hash = hash;
  assumptions_hash = hash;
}

validate_forecast-HasCash_example :
    IsRange (some 100) (some 150) (some 400) × HasCash forecast subscription_covered
unfolding validate_forecast is_key is_identifier has_length is_sha256 check
validate_forecast-HasCash_example = validate_forecast-HasCash forecast refl
