-- ===== src/Accounting/Forecast.antt =====
-- Forecasts of bulk usage in model_accounting.py, their approvals, the targets they are weighed
-- with, and the refusals that an owner corrects.
use memoriesql.Prelude.{
  ℕ, String, Bool, true, false, not, ◌&&◌, ◌||◌, Option, none, some, [], ◌∷◌, leb, is_some, is_none,
  string_eq, Result, check, require, field, ◌>>◌,
}
use memoriesql.Contracts.Text.{has_length, is_key, is_sha256}
use memoriesql.Capture.Host.{Uuid}
use memoriesql.Accounting.Target.{
  BillingBasis, AllowanceState, is_metered, is_subscription, is_local, is_covered,
}

pub data CostBasis : Type 0 where
  reported_by_provider catalog_estimate subscription_covered local_cost unknown_cost : CostBasis

abbrev pub is_estimate : CostBasis → Bool
is_estimate catalog_estimate = true
is_estimate _ = false

pub record OptimizationTargetRevision : Type 0 where
  pub optimization_target_id : Uuid
  pub target_key : String
  pub revision : ℕ
  pub task_kind : String
  pub contract_revision : ℕ
  pub baseline_model_profile_key : String
  pub baseline_model_profile_revision : ℕ
  pub candidate_model_profile_key : String
  pub candidate_model_profile_revision : ℕ
  pub baseline_evidence_hash : String
  pub target_reduction_basis_points : ℕ
  pub quality_gate_hash : String
  pub source_hash : String

unfoldable pub validate_optimization_target : OptimizationTargetRevision → Result (Unit {0})
validate_optimization_target t = check (
    field (is_key t.target_key) "target_key"
    ∷ field (leb 1 t.revision) "revision"
    ∷ field (is_key t.task_kind) "task_kind"
    ∷ field (leb 1 t.contract_revision) "contract_revision"
    ∷ field (is_key t.baseline_model_profile_key) "baseline_model_profile_key"
    ∷ field (leb 1 t.baseline_model_profile_revision) "baseline_model_profile_revision"
    ∷ field (is_key t.candidate_model_profile_key) "candidate_model_profile_key"
    ∷ field (leb 1 t.candidate_model_profile_revision) "candidate_model_profile_revision"
    ∷ field (is_sha256 t.baseline_evidence_hash) "baseline_evidence_hash"
    ∷ field (leb t.target_reduction_basis_points 10000) "target_reduction_basis_points"
    ∷ field (is_sha256 t.quality_gate_hash) "quality_gate_hash"
    ∷ field (is_sha256 t.source_hash) "source_hash"
    ∷ [])

pub record BulkUsageForecast : Type 0 where
  pub forecast_id : Uuid
  pub forecast_series_key : String
  pub forecast_hash : String
  pub tenant_id : String
  pub workspace_id : String
  pub access_scope_id : String
  pub source_scope_hash : String
  pub quality_policy_revision_id : Uuid
  pub model_profile_key : String
  pub model_profile_revision : ℕ
  pub billing_basis : BillingBasis
  pub pricing_revision_id : Option Uuid
  pub pricing_observed_at_epoch_us : ℕ
  pub item_count : ℕ
  pub low_shadow_cost_microunits : Option ℕ
  pub expected_shadow_cost_microunits : Option ℕ
  pub high_shadow_cost_microunits : Option ℕ
  pub incremental_cash_exposure_microunits : Option ℕ
  pub safety_ceiling_microunits : Option ℕ
  pub expected_completion_low_ms : ℕ
  pub expected_completion_high_ms : ℕ
  pub allowance_state : AllowanceState
  pub cost_basis : CostBasis
  pub queue_effect_hash : String
  pub assumptions_hash : String

unfoldable pub forecast_fields : BulkUsageForecast → Result (Unit {0})
forecast_fields f = check (
    field (is_sha256 f.forecast_series_key) "forecast_series_key"
    ∷ field (is_sha256 f.forecast_hash) "forecast_hash"
    ∷ field (has_length 1 128 f.tenant_id) "tenant_id"
    ∷ field (has_length 1 128 f.workspace_id) "workspace_id"
    ∷ field (has_length 1 128 f.access_scope_id) "access_scope_id"
    ∷ field (is_sha256 f.source_scope_hash) "source_scope_hash"
    ∷ field (is_key f.model_profile_key) "model_profile_key"
    ∷ field (leb 1 f.model_profile_revision) "model_profile_revision"
    ∷ field (leb 1 f.item_count) "item_count"
    ∷ field (is_sha256 f.queue_effect_hash) "queue_effect_hash"
    ∷ field (is_sha256 f.assumptions_hash) "assumptions_hash"
    ∷ [])

-- The three costs are there and in order, or none is there.
unfoldable pub shadow_costs : Option ℕ → Option ℕ → Option ℕ → Result (Unit {0})
shadow_costs (some low) (some expected) (some high) =
    check (require (leb low expected && leb expected high) "forecast range must be ordered" ∷ [])
shadow_costs low expected high = check (
    require (not (is_some low || (is_some expected || is_some high)))
      "forecast range is atomic or wholly unavailable"
    ∷ [])

abbrev pub is_zero_cash : Option ℕ → Bool
is_zero_cash none = false
is_zero_cash (some cash) = leb cash 0

-- What the basis of the cost asks of the cash.
abbrev pub cash_rule : BulkUsageForecast → CostBasis → Result (Unit {0})
cash_rule f reported_by_provider = check (
    require (is_some f.incremental_cash_exposure_microunits)
      "provider-reported forecasts require cash exposure"
    ∷ [])
cash_rule f catalog_estimate = check (
    require
      (is_metered f.billing_basis
        && (is_some f.pricing_revision_id && is_some f.incremental_cash_exposure_microunits))
      "catalog-estimated cash requires priced metered billing"
    ∷ [])
cash_rule f subscription_covered = check (
    require
      (is_subscription f.billing_basis
        && (is_covered f.allowance_state && is_zero_cash f.incremental_cash_exposure_microunits))
      "subscription-covered forecasts require covered zero cash"
    ∷ [])
cash_rule f local_cost = check (
    require (is_local f.billing_basis && is_none f.incremental_cash_exposure_microunits)
      "local forecasts require unknown incremental cash"
    ∷ [])
cash_rule f unknown_cost = check (
    require (is_none f.incremental_cash_exposure_microunits)
      "unknown forecast cash cannot carry a value"
    ∷ [])

unfoldable pub validate_forecast : BulkUsageForecast → Result (Unit {0})
unfolding forecast_fields shadow_costs
validate_forecast f = do
  forecast_fields f
  shadow_costs f.low_shadow_cost_microunits f.expected_shadow_cost_microunits
      f.high_shadow_cost_microunits
  check (
      require (leb f.expected_completion_low_ms f.expected_completion_high_ms)
        "forecast completion range must be ordered"
      ∷ require
          (not (
            is_metered f.billing_basis
            && (is_estimate f.cost_basis && is_none f.pricing_revision_id)))
          "catalog-priced forecasts require a pricing revision"
      ∷ [])
  cash_rule f f.cost_basis

pub record BulkForecastApproval : Type 0 where
  pub approval_id : Uuid
  pub forecast_id : Uuid
  pub forecast_hash : String
  pub source_scope_hash : String
  pub assumptions_hash : String
  pub quality_policy_revision_id : Uuid
  pub model_profile_key : String
  pub model_profile_revision : ℕ
  pub safety_ceiling_microunits : Option ℕ
  pub approved_by_principal_id : String
  pub idempotency_key : String

unfoldable pub validate_approval : BulkForecastApproval → Result (Unit {0})
validate_approval a = check (
    field (is_sha256 a.forecast_hash) "forecast_hash"
    ∷ field (is_sha256 a.source_scope_hash) "source_scope_hash"
    ∷ field (is_sha256 a.assumptions_hash) "assumptions_hash"
    ∷ field (is_key a.model_profile_key) "model_profile_key"
    ∷ field (leb 1 a.model_profile_revision) "model_profile_revision"
    ∷ field (has_length 1 128 a.approved_by_principal_id) "approved_by_principal_id"
    ∷ field (is_sha256 a.idempotency_key) "idempotency_key"
    ∷ [])
