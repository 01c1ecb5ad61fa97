-- ===== src/Accounting/Observation.antt =====
-- The observations of a managed turn in managed_dispatch.py: totals and parts are alternatives.
use memoriesql.Prelude.{
  ℕ, ◌+◌, String, Bool, true, false, not, ◌&&◌, ◌||◌, Option, none, some, List, [], ◌∷◌, length,
  leb, is_some, is_none, string_eq, nat_eq, ◌==◌, Result, ok, check, checked, require, field, ◌>>=◌,
  ◌>>◌, if◌then◌else◌,
}
use memoriesql.Contracts.Text.{is_sha256}
use memoriesql.Capture.Range.Command.{check_each}
use memoriesql.Capture.Fold.Outcome.{present}
use memoriesql.Accounting.Target.{
  UsageProvenance, provider_reported, framework_estimated, unavailable, NormalizedUsage,
  validate_usage,
}
use memoriesql.Accounting.Intent.{differs}
use memoriesql.Accounting.Event.{is_unavailable, ModelUsageEvent, validate_event}

pub record InferenceUsageObservation : Type 0 where
  pub request_id_hash : String
  pub usage : Option NormalizedUsage
  pub provenance : UsageProvenance

unfoldable pub validate_inference : InferenceUsageObservation → Result (Unit {0})
unfolding validate_usage
validate_inference r = do
  present validate_usage r.usage
  check (
      field (is_sha256 r.request_id_hash) "request_id_hash"
      ∷ require (not (differs (is_none r.usage) (is_unavailable r.provenance)))
          "request observation must state unavailable usage explicitly"
      ∷ [])

pub data InferenceCountBasis : Type 0 where
  counted_by_provider counted_by_host uncounted : InferenceCountBasis

abbrev pub is_uncounted : InferenceCountBasis → Bool
is_uncounted uncounted = true
is_uncounted _ = false

abbrev pub is_counted_by_host : InferenceCountBasis → Bool
is_counted_by_host counted_by_host = true
is_counted_by_host _ = false

pub record ManagedUsageObservation : Type 0 where
  pub completed : Bool
  pub underlying_inference_count : Option ℕ
  pub inference_count_basis : InferenceCountBasis
  pub reported_total : Option NormalizedUsage
  pub estimated_total : Option NormalizedUsage
  pub request_observations : List InferenceUsageObservation
  pub request_observations_complete : Bool

abbrev pub no_tokens : NormalizedUsage
no_tokens = record {
  input_tokens = 0;
  output_tokens = 0;
  total_tokens = 0;
  cached_input_tokens = 0;
  cache_write_tokens = 0;
  reasoning_tokens = 0;
  tool_calls = 0;
}

-- The fields of two counts, added one by one.
unfoldable pub plus_usage : NormalizedUsage → NormalizedUsage → NormalizedUsage
plus_usage u v = record {
  input_tokens = u.input_tokens + v.input_tokens;
  output_tokens = u.output_tokens + v.output_tokens;
  total_tokens = u.total_tokens + v.total_tokens;
  cached_input_tokens = u.cached_input_tokens + v.cached_input_tokens;
  cache_write_tokens = u.cache_write_tokens + v.cache_write_tokens;
  reasoning_tokens = u.reasoning_tokens + v.reasoning_tokens;
  tool_calls = u.tool_calls + v.tool_calls;
}

abbrev pub usage_or_zero : Option NormalizedUsage → NormalizedUsage
usage_or_zero none = no_tokens
usage_or_zero (some u) = u

-- `sum(getattr(r.usage, key) …)` for every key, where each request has its usage
unfoldable pub sum_usage : List InferenceUsageObservation → NormalizedUsage
unfolding plus_usage
sum_usage [] = no_tokens
sum_usage (r ∷ requests) = plus_usage (usage_or_zero r.usage) (sum_usage requests)

-- any(r.usage is None …)
unfoldable pub any_missing : List InferenceUsageObservation → Bool
any_missing [] = false
any_missing (r ∷ requests) = is_none r.usage || any_missing requests

abbrev pub is_provider_reported : UsageProvenance → Bool
is_provider_reported provider_reported = true
is_provider_reported _ = false

unfoldable pub all_reported : List InferenceUsageObservation → Bool
all_reported [] = true
all_reported (r ∷ requests) = is_provider_reported r.provenance && all_reported requests

abbrev pub sum_provenance : Bool → UsageProvenance
sum_provenance true = provider_reported
sum_provenance false = framework_estimated

-- `_request_total`
unfoldable pub request_total :
    ManagedUsageObservation → Result (Option NormalizedUsage × UsageProvenance)
unfolding any_missing sum_usage all_reported validate_usage
request_total o =
    let total = sum_usage o.request_observations in
    if not o.request_observations_complete || any_missing o.request_observations
    then ok (none, unavailable)
    else checked (validate_usage total)
        (some total, sum_provenance (all_reported o.request_observations))

abbrev pub or_estimated :
    Option NormalizedUsage
    → Option NormalizedUsage × UsageProvenance
    → Option NormalizedUsage × UsageProvenance
or_estimated estimated (some total, provenance) = (some total, provenance)
or_estimated (some estimated) (none, provenance) = (some estimated, framework_estimated)
or_estimated none (none, provenance) = (none, unavailable)

abbrev pub or_request_total :
    Option NormalizedUsage
    → ManagedUsageObservation
    → Result (Option NormalizedUsage × UsageProvenance)
or_request_total (some total) o = ok (some total, provider_reported)
or_request_total none o = do total ← request_total o; ok (or_estimated o.estimated_total total)

unfoldable pub accounted_total :
    ManagedUsageObservation → Result (Option NormalizedUsage × UsageProvenance)
unfolding request_total
accounted_total o = or_request_total o.reported_total o

unfoldable pub same_usage : Option NormalizedUsage → Option NormalizedUsage → Bool
same_usage none none = true
same_usage (some u) (some v) =
    u.input_tokens == v.input_tokens
    && (u.output_tokens == v.output_tokens
        && (u.total_tokens == v.total_tokens
            && (u.cached_input_tokens == v.cached_input_tokens
                && (u.cache_write_tokens == v.cache_write_tokens
                    && (u.reasoning_tokens == v.reasoning_tokens
                        && u.tool_calls == v.tool_calls)))))
same_usage _ _ = false

-- item in ids
unfoldable pub observed : String → List InferenceUsageObservation → Bool
observed id [] = false
observed id (r ∷ requests) = r.request_id_hash == id || observed id requests

-- len(ids) == len(set(ids))
unfoldable pub all_distinct : List InferenceUsageObservation → Bool
unfolding observed
all_distinct [] = true
all_distinct (r ∷ requests) = not (observed r.request_id_hash requests) && all_distinct requests

abbrev pub within_count : ℕ → Option ℕ → Bool
within_count n none = true
within_count n (some count) = leb n count

abbrev pub is_count : ℕ → Option ℕ → Bool
is_count n none = false
is_count n (some count) = n == count

-- The checks on observations that claim to be complete.
unfoldable pub complete_checks : ManagedUsageObservation → Result (Unit {0})
unfolding request_total same_usage
complete_checks o = do
  check (
      require
        (is_counted_by_host o.inference_count_basis
          && is_count (length o.request_observations) o.underlying_inference_count)
        "complete request observations require an observed exact count"
      ∷ [])
  total ← request_total o
  check (
      require
        (not (
          is_some o.reported_total
          && (is_provider_reported total.1 && not (same_usage total.0 o.reported_total))))
        "complete reported requests disagree with reported total"
      ∷ [])

unfoldable pub validate_observation : ManagedUsageObservation → Result (Unit {0})
unfolding validate_inference all_distinct complete_checks validate_usage
validate_observation o = do
  present validate_usage o.reported_total
  present validate_usage o.estimated_total
  check_each validate_inference o.request_observations
  check (
      field (leb (length o.request_observations) 64) "request_observations"
      ∷ require
          (not
            (differs (is_none o.underlying_inference_count) (is_uncounted o.inference_count_basis)))
          "unknown inference count must remain null"
      ∷ require (all_distinct o.request_observations) "duplicate inference observations"
      ∷ require (within_count (length o.request_observations) o.underlying_inference_count)
          "observations exceed declared inference count"
      ∷ [])
  (if o.request_observations_complete then complete_checks o else ok tt)

abbrev pub same_provenance : UsageProvenance → UsageProvenance → Bool
same_provenance provider_reported provider_reported = true
same_provenance framework_estimated framework_estimated = true
same_provenance unavailable unavailable = true
same_provenance _ _ = false

-- ManagedUsageEvent: a usage event with its observation.
unfoldable pub validate_managed_event :
    ModelUsageEvent → ManagedUsageObservation → Result (Unit {0})
unfolding validate_event validate_observation accounted_total same_usage
validate_managed_event e o = do
  validate_observation o
  validate_event e
  total ← accounted_total o
  check (
      require (same_usage e.usage total.0 && same_provenance e.usage_provenance total.1)
        "accounting must select one aggregate without double counting"
      ∷ [])
