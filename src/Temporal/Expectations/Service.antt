-- ===== src/Temporal/Expectations/Service.antt =====
-- `TemporalExpectationService.expectation` of backend/app/temporal_expectations.py. The projection is
-- the service's collaborator, any function with the interface of `series`.
pub mod Values
pub mod Total
pub mod Replay
pub mod Content
use openassetwatch.Prelude.{
  ℕ, ◌+◌, Bool, true, false, not, ◌&&◌, ◌||◌, String, Option, none, some, List, [], ◌∷◌, leb, ltb,
  ◌==◌, ◌=s=◌, is_none, if◌then◌else◌, length, any, count_if,
}
use openassetwatch.Text.{Text}
use openassetwatch.Temporal.Result.{
  Result, ok, err, ErrorCode, projection, ◌>>=◌, ◌>>◌, raise_if, construct,
}
use openassetwatch.Temporal.Clock.{Stamp, aware, as_utc, day, floor_day, off_midnight, minus_days}
use openassetwatch.Temporal.Vocabulary.{
  Granularity, Confidence, ExpectationDataQuality, BlockedReason, is_observed, is_missing,
  is_incomplete, is_stale, is_late_arriving,
}
use openassetwatch.Temporal.Identity.{Hashing}
use openassetwatch.Temporal.Registry.{MetricDefinition}
use openassetwatch.Temporal.Contracts.Signal.{Signal}
use openassetwatch.Temporal.Contracts.Series.{Series}
use openassetwatch.Temporal.Contracts.Expectation.{
  Expectation, Authority, history_buckets, validate_expectation,
}
use openassetwatch.Temporal.Projection.Service.{SeriesRequest, metric_or_unknown, or_now}
use openassetwatch.Temporal.Expectations.Range.{Range, robust_expected_range}
use openassetwatch.Temporal.Expectations.Digest.{temporal_history_digest, temporal_expectation_id}
use openassetwatch.Temporal.Expectations.Samples.{
  Sample, primary_method, usable_signals, method_sample, minimum_observations,
  quality_and_confidence,
}

-- `ExpectationProjection`
abbrev pub Projection : Type 0
Projection = SeriesRequest → Result Series

-- The arguments of `expectation`.
pub record ExpectationRequest : Type 0 where
  pub metric_key : String
  pub site_id : String
  pub target_start : Stamp
  pub granularity : String
  pub asset_id : Option String
  pub generated_at : Option Stamp

-- What the guards settle: the metric, the target and the calculation time.
pub record Accepted : Type 0 where
  pub metric : MetricDefinition
  pub target : ℕ
  pub calculation_time : ℕ

-- The guards of `expectation`, in their order.
unfoldable pub accept : Stamp → ExpectationRequest → Result Accepted
accept now r = do
  m ← metric_or_unknown r.metric_key
  raise_if (not (r.granularity =s= "daily")) (projection ErrorCode.unsupported_granularity)
  target ← as_utc r.target_start
  raise_if (off_midnight target) (projection ErrorCode.unaligned_target)
  raise_if (not (is_none r.asset_id) && not m.supports_asset_scope)
      (projection ErrorCode.unsupported_scope)
  calculation_time ← as_utc (or_now r.generated_at now)
  raise_if (ltb (floor_day calculation_time) target) (projection ErrorCode.future_target)
  ok (record { metric = m; target = target; calculation_time = calculation_time })

-- The history that is asked for ends at the target, and is cut off there.
unfoldable pub history_request : ExpectationRequest → ℕ → ℕ → SeriesRequest
history_request r history_start target = record {
  metric_key = r.metric_key;
  site_id = r.site_id;
  start = aware history_start;
  stop = aware target;
  granularity = "daily";
  asset_id = r.asset_id;
  generated_at = some (aware target);
  knowledge_cutoff = some (aware target);
}

-- The values of the sample that are not `None`.
unfoldable pub sample_values : List Signal → List ℕ
sample_values [] = []
sample_values (s ∷ ss) = elim s.value [ none ↦ sample_values ss | some v ↦ v ∷ sample_values ss ]

-- The fields that the sample decides.
pub record Outcome : Type 0 where
  pub expected : Option ℕ
  pub lower : Option ℕ
  pub upper : Option ℕ
  pub data_quality : ExpectationDataQuality
  pub confidence : Confidence
  pub blocked_reason : Option BlockedReason

abbrev pub blocked_outcome : Outcome
blocked_outcome = record {
  expected = none;
  lower = none;
  upper = none;
  data_quality = ExpectationDataQuality.insufficient;
  confidence = Confidence.none;
  blocked_reason = some BlockedReason.insufficient_usable_history;
}

unfoldable pub computed_outcome : ℕ → Sample → Range → Outcome
computed_outcome usable_count s range =
    let (quality, confidence) = quality_and_confidence usable_count (length s.signals) s.method in
    record {
      expected = some range.expected;
      lower = some range.lower;
      upper = some range.upper;
      data_quality = quality;
      confidence = confidence;
      blocked_reason = none;
    }

unfoldable pub outcome_of : ℕ → Sample → Result Outcome
unfolding sample_values computed_outcome
outcome_of usable_count s =
    if ltb (length s.signals) (minimum_observations s.method) then ok blocked_outcome else (do
      range ← robust_expected_range (sample_values s.signals)
      ok (computed_outcome usable_count s range))

-- The expectation of a target from its history, before its construction is validated.
unfoldable pub expectation_of :
    MetricDefinition
    → String
    → String
    → ℕ
    → ℕ
    → ℕ
    → List Signal
    → Text
    → Text
    → Sample
    → Outcome
    → Expectation
expectation_of m metric_key site_id target calculation_time history_start history digest identity
      sample o =
    record {
      expectation_id = identity;
      history_digest = digest;
      metric_key = metric_key;
      tenant_id = none;
      site_id = site_id;
      asset_id = none;
      target_bucket_start = target;
      target_bucket_end = target + day;
      bucket_granularity = Granularity.daily;
      knowledge_cutoff = target;
      generated_at = calculation_time;
      history_start = history_start;
      history_end = target;
      history_bucket_count = history_buckets;
      usable_bucket_count = count_if (λ s. is_observed s.data_quality) history;
      missing_bucket_count = count_if (λ s. is_missing s.data_quality) history;
      incomplete_bucket_count = count_if (λ s. is_incomplete s.data_quality) history;
      stale_bucket_count = count_if (λ s. is_stale s.data_quality) history;
      late_arriving_bucket_count = count_if (λ s. is_late_arriving s.backfill_state) history;
      method = sample.method;
      method_sample_count = length sample.signals;
      horizon_buckets = 1;
      expected = o.expected;
      lower = o.lower;
      upper = o.upper;
      unit = m.unit;
      confidence = o.confidence;
      data_quality = o.data_quality;
      blocked_reason = o.blocked_reason;
      projection_version = m.projection_version;
      authority = Authority.analytical_context_only;
    }

-- From the history to the expectation.
unfoldable pub expect : Hashing → Accepted → String → String → ℕ → List Signal → Result Expectation
expect h a metric_key site_id history_start history = do
  raise_if
      (any (λ s. ltb a.target s.bucket_end || ltb (floor_day a.calculation_time) s.bucket_end)
        history)
      (projection ErrorCode.open_history_bucket)
  digest ← temporal_history_digest h history
  let usable = usable_signals history
  sample ← method_sample (primary_method metric_key) usable a.target
  o ← outcome_of (length usable) sample
  identity ←
      temporal_expectation_id h metric_key site_id a.target (a.target + day) history_start a.target
        sample.method a.metric.projection_version digest
  construct validate_expectation (
      expectation_of a.metric metric_key site_id a.target a.calculation_time history_start history
        digest identity sample o)

unfoldable pub expectation : Hashing → Projection → Stamp → ExpectationRequest → Result Expectation
expectation h series now r = do
  a ← accept now r
  history_start ← minus_days a.target history_buckets
  history ← series (history_request r history_start a.target)
  expect h a r.metric_key r.site_id history_start history.signals
