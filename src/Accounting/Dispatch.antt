-- ===== src/Accounting/Dispatch.antt =====
-- Managed turns in managed_dispatch.py: their targets, the qualification of a task with its routes,
-- and the intent that is recorded before a turn. Fields that admit one value have no entry.
use memoriesql.Prelude.{
  ℕ, String, Bool, true, false, not, ◌&&◌, ◌||◌, Option, none, some, List, [], ◌∷◌, length, leb,
  is_some, is_none, string_eq, nat_eq, ◌==◌, Result, check, require, field, ◌>>◌,
}
use memoriesql.Contracts.Text.{has_length, optional, is_key, is_identifier, is_sha256}
use memoriesql.Capture.Host.{Uuid, Datetime}
use memoriesql.Capture.Range.Command.{check_each}
use memoriesql.Accounting.Target.{
  BillingBasis, AllowanceState, covered, available, QualityTier, UsageProvenance, is_subscription,
  is_covered, ProviderRequestTarget, validate_target,
}

pub record ManagedDispatchTarget : Type 0 where
  pub provider_key : String
  pub credential_id : Uuid
  pub model_id : String
  pub billing_basis : BillingBasis
  pub allowance_state : AllowanceState
  pub pricing_revision_id : Option Uuid
  pub quality_policy_revision_id : Uuid
  pub quality_tier : QualityTier
  pub request_boundary_revision : String
  pub usage_provenance : UsageProvenance

-- allowance_state in (COVERED, AVAILABLE)
abbrev pub is_known_allowance : AllowanceState → Bool
is_known_allowance covered = true
is_known_allowance available = true
is_known_allowance _ = false

unfoldable pub validate_managed_target : ManagedDispatchTarget → Result (Unit {0})
validate_managed_target t = check (
    field (is_key t.provider_key) "provider_key"
    ∷ field (has_length 1 255 t.model_id) "model_id"
    ∷ field (is_key t.request_boundary_revision) "request_boundary_revision"
    ∷ require (not (is_subscription t.billing_basis && not (is_known_allowance t.allowance_state)))
        "managed subscription qualification requires known allowance"
    ∷ require (is_subscription t.billing_basis || not (is_covered t.allowance_state))
        "covered allowance is subscription-only"
    ∷ [])

pub record ModelProfileReference : Type 0 where
  pub profile_key : String
  pub revision : ℕ
  pub effort_key : String

unfoldable pub validate_reference : ModelProfileReference → Result (Unit {0})
validate_reference r = check (
    field (is_identifier r.profile_key) "profile_key"
    ∷ field (leb 1 r.revision) "revision"
    ∷ field (is_identifier r.effort_key) "effort_key"
    ∷ [])

unfoldable pub same_reference : ModelProfileReference → ModelProfileReference → Bool
same_reference q r =
    q.profile_key == r.profile_key && (q.revision == r.revision && q.effort_key == r.effort_key)

-- ManagedDispatchTarget | ProviderRequestTarget
pub data RouteTarget : Type 0 where
  managed_turn : ManagedDispatchTarget → RouteTarget
  single_inference : ProviderRequestTarget → RouteTarget

unfoldable pub validate_route_target : RouteTarget → Result (Unit {0})
unfolding validate_managed_target validate_target
validate_route_target (managed_turn t) = validate_managed_target t
validate_route_target (single_inference t) = validate_target t

-- isinstance(target, ManagedDispatchTarget)
abbrev pub is_managed : RouteTarget → Bool
is_managed (managed_turn t) = true
is_managed (single_inference t) = false

pub record SupervisedRoute : Type 0 where
  pub reference : ModelProfileReference
  pub target : RouteTarget
  pub qualification_revision : String

unfoldable pub validate_route : SupervisedRoute → Result (Unit {0})
unfolding validate_reference validate_route_target
validate_route r = do
  validate_reference r.reference
  validate_route_target r.target
  check (field (is_key r.qualification_revision) "qualification_revision" ∷ [])

pub record SupervisedQualification : Type 0 where
  pub qualification_id : Uuid
  pub semantic_task_id : Uuid
  pub routes : List SupervisedRoute
  pub deadline : Datetime
  pub reported_input_token_stop : ℕ
  pub reported_generated_token_stop : ℕ
  pub reported_cash_stop_microunits : Option ℕ

-- isinstance(routes[0].target, ManagedDispatchTarget)
unfoldable pub starts_managed : List SupervisedRoute → Bool
starts_managed [] = false
starts_managed (r ∷ routes) = is_managed r.target

-- len(routes) == 2 and routes[0].reference == routes[1].reference
unfoldable pub repeats_profile : List SupervisedRoute → Bool
unfolding same_reference
repeats_profile (r ∷ s ∷ []) = same_reference r.reference s.reference
repeats_profile _ = false

unfoldable pub validate_supervision : SupervisedQualification → Result (Unit {0})
unfolding validate_route starts_managed repeats_profile
validate_supervision q = do
  check_each validate_route q.routes
  check (
      field (leb 1 (length q.routes) && leb (length q.routes) 2) "routes"
      ∷ field (leb 1 q.reported_input_token_stop) "reported_input_token_stop"
      ∷ field (leb 1 q.reported_generated_token_stop) "reported_generated_token_stop"
      ∷ require q.deadline.has_tzinfo "qualification requires an absolute aware deadline"
      ∷ require (starts_managed q.routes) "first route must be the managed turn"
      ∷ require (not (repeats_profile q.routes))
          "qualification routes require distinct exact profiles"
      ∷ [])

-- ManagedDispatchIntent; its bounds on tokens and on cash are null, and its reservation is 0.
pub record ManagedDispatchIntent : Type 0 where
  pub request_id : Uuid
  pub tenant_id : String
  pub workspace_id : String
  pub access_scope_id : String
  pub semantic_task_id : Option String
  pub semantic_attempt_id : Option String
  pub retrieval_execution_id : Option Uuid
  pub run_id : String
  pub parent_run_id : Option String
  pub run_role : String
  pub module_key : String
  pub operation_key : String
  pub task_kind : String
  pub task_contract_revision : ℕ
  pub origin_principal_id : String
  pub origin_delegation_id : Option String
  pub policy_revision : ℕ
  pub model_profile_key : String
  pub model_profile_revision : ℕ
  pub request_sequence : ℕ
  pub target : ManagedDispatchTarget
  pub request_payload_hash : String
  pub supervision : SupervisedQualification
  pub qualification_revision : String

unfoldable pub managed_fields : ManagedDispatchIntent → Result (Unit {0})
managed_fields i = check (
    field (has_length 1 128 i.tenant_id) "tenant_id"
    ∷ field (has_length 1 128 i.workspace_id) "workspace_id"
    ∷ field (has_length 1 128 i.access_scope_id) "access_scope_id"
    ∷ field (optional (has_length 1 128) i.semantic_task_id) "semantic_task_id"
    ∷ field (optional (has_length 1 128) i.semantic_attempt_id) "semantic_attempt_id"
    ∷ field (is_key i.run_id) "run_id"
    ∷ field (optional is_key i.parent_run_id) "parent_run_id"
    ∷ field (is_identifier i.run_role && has_length 0 64 i.run_role) "run_role"
    ∷ field (is_key i.module_key) "module_key"
    ∷ field (is_key i.operation_key) "operation_key"
    ∷ field (is_key i.task_kind) "task_kind"
    ∷ field (leb 1 i.task_contract_revision) "task_contract_revision"
    ∷ field (has_length 1 128 i.origin_principal_id) "origin_principal_id"
    ∷ field (optional (has_length 1 128) i.origin_delegation_id) "origin_delegation_id"
    ∷ field (leb 1 i.policy_revision) "policy_revision"
    ∷ field (is_key i.model_profile_key) "model_profile_key"
    ∷ field (leb 1 i.model_profile_revision) "model_profile_revision"
    ∷ field (leb 1 i.request_sequence) "request_sequence"
    ∷ field (is_sha256 i.request_payload_hash) "request_payload_hash"
    ∷ field (is_key i.qualification_revision) "qualification_revision"
    ∷ [])

abbrev pub is_text : String → Option String → Bool
is_text s none = false
is_text s (some t) = s == t

-- `require_one_execution_authority`, where `uuid_text` is `str` on a UUID
unfoldable pub managed_authority : (Uuid → String) → ManagedDispatchIntent → Result (Unit {0})
managed_authority uuid_text i = check (
    require
      (not (
        is_none i.semantic_task_id
        || (is_none i.semantic_attempt_id || is_some i.retrieval_execution_id)))
      "managed dispatch requires one exact semantic task attempt"
    ∷ require (is_text (uuid_text i.supervision.semantic_task_id) i.semantic_task_id)
        "managed dispatch qualification names another task"
    ∷ [])

unfoldable pub validate_managed_intent : (Uuid → String) → ManagedDispatchIntent → Result (Unit {0})
unfolding validate_managed_target validate_supervision managed_fields managed_authority
validate_managed_intent uuid_text i = do
  validate_managed_target i.target
  validate_supervision i.supervision
  managed_fields i
  managed_authority uuid_text i
