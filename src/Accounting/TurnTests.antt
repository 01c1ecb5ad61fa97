-- ===== src/Accounting/TurnTests.antt =====
-- A managed turn of two requests, each reported, beside their total.
use memoriesql.Prelude.{◌≡◌, refl, true, some, none, Option, [], ◌∷◌, ok, check}
use memoriesql.Contracts.Text.{is_sha256}
use memoriesql.Capture.Range.Command.{check_each}
use memoriesql.Accounting.Target.{
  UsageProvenance, provider_reported, NormalizedUsage, validate_usage,
}
use memoriesql.Accounting.Observation.{
  InferenceUsageObservation, counted_by_host, ManagedUsageObservation, sum_usage, any_missing,
  all_reported, validate_observation, accounted_total, validate_managed_event,
}
use memoriesql.Accounting.Accounted.{IsAggregate, accounted_total-total}
use memoriesql.Accounting.Once.{validate_managed_event-sum}
use memoriesql.Accounting.Tests.{usage, event, hash}

abbrev small : NormalizedUsage
small = record {
  input_tokens = 10;
  output_tokens = 5;
  total_tokens = 15;
  cached_input_tokens = 0;
  cache_write_tokens = 2;
  reasoning_tokens = 1;
  tool_calls = 0;
}

abbrev both : NormalizedUsage
both = record {
  input_tokens = 910;
  output_tokens = 125;
  total_tokens = 1035;
  cached_input_tokens = 500;
  cache_write_tokens = 102;
  reasoning_tokens = 61;
  tool_calls = 1;
}

abbrev first_request : InferenceUsageObservation
first_request = record {
  request_id_hash = hash;
  usage = some usage;
  provenance = provider_reported;
}

abbrev second_request : InferenceUsageObservation
second_request = record {
  request_id_hash = "aa000000000000000000000000000000000000000000000000000000000000ff";
  usage = some small;
  provenance = provider_reported;
}

abbrev turn : ManagedUsageObservation
turn = record {
  completed = true;
  underlying_inference_count = some 2;
  inference_count_basis = counted_by_host;
  reported_total = some both;
  estimated_total = none;
  request_observations = first_request ∷ second_request ∷ [];
  request_observations_complete = true;
}

accounted_total-total_example :
    (p : Option NormalizedUsage × UsageProvenance) × (accounted_total turn ≡ ok p) × IsAggregate p
unfolding validate_observation check_each is_sha256 validate_usage check
accounted_total-total_example = accounted_total-total turn refl

validate_managed_event-sum_example :
    some both ≡ some (sum_usage (first_request ∷ second_request ∷ []))
unfolding validate_managed_event check_each is_sha256 validate_usage check any_missing all_reported
validate_managed_event-sum_example =
    validate_managed_event-sum (record event { usage = some both }) turn (refl, refl, refl) refl
