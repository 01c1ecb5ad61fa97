-- ===== src/Accounting/Intent.antt =====
-- ProviderRequestIntent of model_accounting.py: what is recorded before a request to a provider.
use memoriesql.Prelude.{
  ℕ, String, Bool, true, false, not, ◌&&◌, ◌||◌, Option, [], ◌∷◌, leb, is_some, is_none, string_eq,
  nat_eq, ◌==◌, Result, check, require, field, ◌>>◌,
}
use memoriesql.Contracts.Text.{has_length, optional, is_key, is_identifier, is_sha256}
use memoriesql.Capture.Host.{Uuid}
use memoriesql.Accounting.Target.{
  is_metered, is_subscription, is_covered, ProviderRequestTarget, validate_target,
}

pub record ProviderRequestIntent : Type 0 where
  pub request_id : Uuid
  pub tenant_id : String
  pub workspace_id : String
  pub access_scope_id : String
  pub semantic_task_id : Option String
  pub semantic_attempt_id : Option String
  pub retrieval_execution_id : Option Uuid
  pub run_id : String
  pub parent_run_id : Option String
  pub run_role : String
  pub module_key : String
  pub operation_key : String
  pub task_kind : String
  pub task_contract_revision : ℕ
  pub origin_principal_id : String
  pub origin_delegation_id : Option String
  pub policy_revision : ℕ
  pub model_profile_key : String
  pub model_profile_revision : ℕ
  pub request_sequence : ℕ
  pub target : ProviderRequestTarget
  pub safety_ceiling_microunits : Option ℕ
  pub conservative_reservation_microunits : ℕ
  pub max_input_tokens : ℕ
  pub max_output_tokens : ℕ
  pub request_payload_hash : String

abbrev pub differs : Bool → Bool → Bool
differs true b = not b
differs false b = b

unfoldable pub intent_fields : ProviderRequestIntent → Result (Unit {0})
intent_fields i = check (
    field (has_length 1 128 i.tenant_id) "tenant_id"
    ∷ field (has_length 1 128 i.workspace_id) "workspace_id"
    ∷ field (has_length 1 128 i.access_scope_id) "access_scope_id"
    ∷ field (optional (has_length 1 128) i.semantic_task_id) "semantic_task_id"
    ∷ field (optional (has_length 1 128) i.semantic_attempt_id) "semantic_attempt_id"
    ∷ field (is_key i.run_id) "run_id"
    ∷ field (optional is_key i.parent_run_id) "parent_run_id"
    ∷ field (is_identifier i.run_role && has_length 0 64 i.run_role) "run_role"
    ∷ field (is_key i.module_key) "module_key"
    ∷ field (is_key i.operation_key) "operation_key"
    ∷ field (is_key i.task_kind) "task_kind"
    ∷ field (leb 1 i.task_contract_revision) "task_contract_revision"
    ∷ field (has_length 1 128 i.origin_principal_id) "origin_principal_id"
    ∷ field (optional (has_length 1 128) i.origin_delegation_id) "origin_delegation_id"
    ∷ field (leb 1 i.policy_revision) "policy_revision"
    ∷ field (is_key i.model_profile_key) "model_profile_key"
    ∷ field (leb 1 i.model_profile_revision) "model_profile_revision"
    ∷ field (leb 1 i.request_sequence) "request_sequence"
    ∷ field (leb 1 i.max_input_tokens) "max_input_tokens"
    ∷ field (leb 1 i.max_output_tokens) "max_output_tokens"
    ∷ field (is_sha256 i.request_payload_hash) "request_payload_hash"
    ∷ [])

-- The cash that a ceiling is held against is known.
abbrev pub has_cash_basis : ProviderRequestTarget → Bool
has_cash_basis t =
    (is_metered t.billing_basis && is_some t.pricing_revision_id)
    || (is_subscription t.billing_basis && is_covered t.allowance_state)

-- `require_one_execution_authority`
unfoldable pub intent_authority : ProviderRequestIntent → Result (Unit {0})
intent_authority i = check (
    require
      (differs (is_some i.semantic_task_id && is_some i.semantic_attempt_id)
        (is_some i.retrieval_execution_id))
      "exactly one semantic task attempt or retrieval execution is required"
    ∷ require (not (differs (is_none i.semantic_task_id) (is_none i.semantic_attempt_id)))
        "semantic task and attempt must be recorded together"
    ∷ require
        (not (
          is_metered i.target.billing_basis
          && (is_some i.safety_ceiling_microunits && is_none i.target.pricing_revision_id)))
        "a dollar safety ceiling requires a pinned pricing revision"
    ∷ require
        (not (
          is_metered i.target.billing_basis
          && (is_some i.safety_ceiling_microunits && leb i.conservative_reservation_microunits 0)))
        "metered requests with a safety ceiling require a reservation"
    ∷ require
        (not (
          is_metered i.target.billing_basis
          && (is_none i.target.pricing_revision_id
              && not (i.conservative_reservation_microunits == 0))))
        "unpriced requests cannot claim a cash reservation"
    ∷ require (not (is_some i.safety_ceiling_microunits && not (has_cash_basis i.target)))
        "a dollar safety ceiling requires a known incremental cash basis"
    ∷ require (i.max_input_tokens == i.target.max_input_tokens_per_request)
        "input reservation must use the certified target bound"
    ∷ require (leb i.max_output_tokens i.target.max_output_tokens_per_request)
        "output reservation exceeds the certified target bound"
    ∷ [])

unfoldable pub validate_intent : ProviderRequestIntent → Result (Unit {0})
unfolding validate_target intent_fields intent_authority
validate_intent i = do validate_target i.target; intent_fields i; intent_authority i
