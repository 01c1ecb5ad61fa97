-- ===== src/Accounting/DispatchTests.antt =====
-- The managed turn of a task, with a single inference to follow it.
use memoriesql.Prelude.{refl, String, true, some, none, [], ◌∷◌, check}
use memoriesql.Contracts.Text.{has_length, is_key, is_identifier, is_sha256}
use memoriesql.Capture.Host.{Uuid}
use memoriesql.Capture.Range.Command.{check_each}
use memoriesql.Accounting.Target.{subscription, covered, frontier, provider_reported}
use memoriesql.Accounting.Dispatch.{
  ManagedDispatchTarget, managed_turn, single_inference, SupervisedRoute, SupervisedQualification,
  ManagedDispatchIntent, validate_managed_intent,
}
use memoriesql.Accounting.Dispatched.{IsRouted, IsOfTask, validate_managed_intent-IsRouted}
use memoriesql.Accounting.Tests.{hash, target}

abbrev turn : ManagedDispatchTarget
turn = record {
  provider_key = "host";
  credential_id = 1;
  model_id = "model";
  billing_basis = subscription;
  allowance_state = covered;
  pricing_revision_id = none;
  quality_policy_revision_id = 3;
  quality_tier = frontier;
  request_boundary_revision = "v1";
  usage_provenance = provider_reported;
}

abbrev route : SupervisedRoute
route = record {
  reference = record { profile_key = "managed"; revision = 1; effort_key = "high" };
  target = managed_turn turn;
  qualification_revision = "v1";
}

abbrev follow_up : SupervisedRoute
follow_up = record {
  reference = record { profile_key = "single"; revision = 1; effort_key = "high" };
  target = single_inference target;
  qualification_revision = "v1";
}

abbrev supervision : SupervisedQualification
supervision = record {
  qualification_id = 8;
  semantic_task_id = 9;
  routes = route ∷ follow_up ∷ [];
  deadline = record { instant = 100; has_tzinfo = true };
  reported_input_token_stop = 1000;
  reported_generated_token_stop = 500;
  reported_cash_stop_microunits = none;
}

-- `str` of the one UUID that the intent names
abbrev uuid_text : Uuid → String
uuid_text uuid = "00000000-0000-0000-0000-000000000009"

abbrev intent : ManagedDispatchIntent
intent = record {
  request_id = 4;
  tenant_id = "t";
  workspace_id = "w";
  access_scope_id = "s";
  semantic_task_id = some "00000000-0000-0000-0000-000000000009";
  semantic_attempt_id = some "attempt";
  retrieval_execution_id = none;
  run_id = "run";
  parent_run_id = none;
  run_role = "primary";
  module_key = "module";
  operation_key = "operation";
  task_kind = "kind";
  task_contract_revision = 1;
  origin_principal_id = "principal";
  origin_delegation_id = none;
  policy_revision = 1;
  model_profile_key = "managed";
  model_profile_revision = 1;
  request_sequence = 1;
  target = turn;
  request_payload_hash = hash;
  supervision = supervision;
  qualification_revision = "v1";
}

validate_managed_intent-IsRouted_example :
    IsOfTask uuid_text intent × IsRouted (route ∷ follow_up ∷ [])
unfolding validate_managed_intent check_each is_key is_identifier has_length is_sha256 check
validate_managed_intent-IsRouted_example = validate_managed_intent-IsRouted uuid_text intent refl
