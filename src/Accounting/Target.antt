-- ===== src/Accounting/Target.antt =====
-- The target of a provider request in model_accounting.py, with what bills it, and priced revisions.
use memoriesql.Prelude.{
  ℕ, ◌+◌, String, Bool, true, false, not, ◌&&◌, ◌||◌, Option, [], ◌∷◌, leb, ltb, string_eq, nat_eq,
  ◌==◌, Result, check, require, field,
}
use memoriesql.Contracts.Text.{has_length, optional, is_key, is_sha256}
use memoriesql.Capture.Host.{Uuid}

pub data BillingBasis : Type 0 where
  metered subscription local discounted credited indeterminate : BillingBasis

pub data AllowanceState : Type 0 where
  covered available exhausted unknown not_applicable : AllowanceState

pub data QualityTier : Type 0 where
  frontier qualified_lower : QualityTier

pub data UsageProvenance : Type 0 where
  provider_reported framework_estimated unavailable : UsageProvenance

abbrev pub is_metered : BillingBasis → Bool
is_metered metered = true
is_metered _ = false

abbrev pub is_subscription : BillingBasis → Bool
is_subscription subscription = true
is_subscription _ = false

abbrev pub is_local : BillingBasis → Bool
is_local local = true
is_local _ = false

abbrev pub is_covered : AllowanceState → Bool
is_covered covered = true
is_covered _ = false

abbrev pub is_not_applicable : AllowanceState → Bool
is_not_applicable not_applicable = true
is_not_applicable _ = false

pub record ProviderRequestTarget : Type 0 where
  pub provider_key : String
  pub credential_id : Uuid
  pub model_id : String
  pub max_input_tokens_per_request : ℕ
  pub max_output_tokens_per_request : ℕ
  pub billing_basis : BillingBasis
  pub allowance_state : AllowanceState
  pub pricing_revision_id : Option Uuid
  pub quality_policy_revision_id : Uuid
  pub quality_tier : QualityTier
  pub request_boundary_revision : String
  pub transport_retries_disabled : Bool
  pub usage_provenance : UsageProvenance

unfoldable pub validate_target : ProviderRequestTarget → Result (Unit {0})
validate_target t = check (
    field (is_key t.provider_key) "provider_key"
    ∷ field (has_length 1 255 t.model_id) "model_id"
    ∷ field (leb 1 t.max_input_tokens_per_request) "max_input_tokens_per_request"
    ∷ field (leb 1 t.max_output_tokens_per_request) "max_output_tokens_per_request"
    ∷ field (is_key t.request_boundary_revision) "request_boundary_revision"
    ∷ require t.transport_retries_disabled
        "provider transport retries must be disabled or intercepted"
    ∷ require (not (is_subscription t.billing_basis && is_not_applicable t.allowance_state))
        "subscription targets require an allowance state"
    ∷ require (is_subscription t.billing_basis || not (is_covered t.allowance_state))
        "covered allowance is subscription-only"
    ∷ [])

pub record NormalizedUsage : Type 0 where
  pub input_tokens : ℕ
  pub output_tokens : ℕ
  pub total_tokens : ℕ
  pub cached_input_tokens : ℕ
  pub cache_write_tokens : ℕ
  pub reasoning_tokens : ℕ
  pub tool_calls : ℕ

unfoldable pub validate_usage : NormalizedUsage → Result (Unit {0})
validate_usage u = check (
    require (u.total_tokens == u.input_tokens + u.output_tokens)
      "total_tokens must equal input_tokens plus output_tokens"
    ∷ require (leb (u.cached_input_tokens + u.cache_write_tokens) u.input_tokens)
        "cached reads and writes cannot exceed input tokens"
    ∷ require (leb u.reasoning_tokens u.output_tokens)
        "reasoning tokens cannot exceed output tokens"
    ∷ [])

pub record PricingRevision : Type 0 where
  pub pricing_revision_id : Uuid
  pub provider_key : String
  pub model_id : String
  pub currency : String
  pub effective_from_epoch_us : ℕ
  pub effective_until_epoch_us : Option ℕ
  pub input_microunits_per_million_tokens : ℕ
  pub cached_input_microunits_per_million_tokens : ℕ
  pub cache_write_microunits_per_million_tokens : ℕ
  pub output_microunits_per_million_tokens : ℕ
  pub source_hash : String

unfoldable pub validate_pricing : PricingRevision → Result (Unit {0})
validate_pricing p = check (
    field (is_key p.provider_key) "provider_key"
    ∷ field (has_length 1 255 p.model_id) "model_id"
    ∷ field (p.currency == "USD") "currency"
    ∷ field (optional (λ until. leb 1 until) p.effective_until_epoch_us) "effective_until_epoch_us"
    ∷ field (is_sha256 p.source_hash) "source_hash"
    ∷ require (optional (λ until. ltb p.effective_from_epoch_us until) p.effective_until_epoch_us)
        "pricing revision range must be non-empty"
    ∷ [])

pub record QualityPolicyRevision : Type 0 where
  pub quality_policy_revision_id : Uuid
  pub policy_key : String
  pub revision : ℕ
  pub default_quality_first : Bool
  pub lower_tier_requires_frozen_qualification : Bool
  pub source_hash : String

unfoldable pub validate_quality_policy : QualityPolicyRevision → Result (Unit {0})
validate_quality_policy p = check (
    field (is_key p.policy_key) "policy_key"
    ∷ field (leb 1 p.revision) "revision"
    ∷ field (is_sha256 p.source_hash) "source_hash"
    ∷ [])

pub record TaskProfileQualification : Type 0 where
  pub qualification_id : Uuid
  pub task_kind : String
  pub contract_revision : ℕ
  pub model_profile_key : String
  pub model_profile_revision : ℕ
  pub quality_policy_revision_id : Uuid
  pub evidence_hash : String
  pub signer_key : String
  pub signature_hash : String

unfoldable pub validate_qualification : TaskProfileQualification → Result (Unit {0})
validate_qualification q = check (
    field (is_key q.task_kind) "task_kind"
    ∷ field (leb 1 q.contract_revision) "contract_revision"
    ∷ field (is_key q.model_profile_key) "model_profile_key"
    ∷ field (leb 1 q.model_profile_revision) "model_profile_revision"
    ∷ field (is_sha256 q.evidence_hash) "evidence_hash"
    ∷ field (is_key q.signer_key) "signer_key"
    ∷ field (is_sha256 q.signature_hash) "signature_hash"
    ∷ [])
