-- ===== src/Temporal/Examples/Facts.antt =====
-- What the runs over the example store compute.
use openassetwatch.Prelude.{◌-◌, ◌≡◌, refl, Bool, true, false, ◌&&◌, Option, none, some}
use openassetwatch.Temporal.Result.{Result, ok, err, is_ok}
use openassetwatch.Temporal.Clock.{
  Stamp, aware, day, off_midnight, weekday, minus_days, as_utc, floor_day,
}
use openassetwatch.Temporal.Contracts.Assessment.{is_assessment_id}
use openassetwatch.Temporal.Contracts.Assessment.Checks.{
  unique_texts, unique_reasons, check_fields, check_bounds, check_target, required_reason,
  is_blocked_reason, check_reasons, check_blocked, calculated_direction, calculated_distance,
  relative_change_ok, check_trust, check_values, check_state, check_evaluated, validate_assessment,
}
use openassetwatch.Temporal.Contracts.Expectation.{
  is_expectation_id, check_count_fields, check_window, check_counts, check_range_values,
  validate_expectation,
}
use openassetwatch.Temporal.Contracts.Policy.{is_allowed, unique_directions, validate_policy}
use openassetwatch.Temporal.Contracts.Series.{
  missing_count, incomplete_count, check_scope, check_signals, validate_series,
}
use openassetwatch.Temporal.Contracts.Signal.{
  matches_site_pattern, is_site_id, is_signal_id, check_bucket, check_quality, check_watermarks,
  validate_signal,
}
use openassetwatch.Temporal.Deviations.Assess.{assessment_of, build_assessment}
use openassetwatch.Temporal.Deviations.Identity.{
  confidence_text, expectation_quality_text, direction_items, text_items,
  temporal_observation_digest, expectation_json, policy_json, assessment_input_json,
  temporal_assessment_input_digest, assessment_identity, temporal_deviation_assessment_id,
}
use openassetwatch.Temporal.Deviations.Inputs.{
  validate_request, observation_request, expectation_request, single_signal, is_observation_of,
  is_expectation_of, validate_provenance, load_inputs,
}
use openassetwatch.Temporal.Deviations.Policies.{
  temporal_deviation_policies, find_policy, temporal_deviation_policy,
}
use openassetwatch.Temporal.Deviations.Service.{
  from_projection_store, persists, reversed, assess_alone, collect_prior, settle, assessment,
}
use openassetwatch.Temporal.Deviations.Support.{
  assessment_lt, insert_assessment, sorted_assessments, is_persisting, is_aligned, check_aligned,
  check_support,
}
use openassetwatch.Temporal.Deviations.Verdict.{
  confidence_meets_policy, blocking_reasons, measured, relative_change_of, persistent_verdict,
  evaluated_verdict, asserted_verdict, verdict_for, verdict,
}
use openassetwatch.Temporal.Expectations.Digest.{
  freshness_text, quality_text, backfill_text, method_text, canonical_timestamp, signal_json,
  text_lt, signal_lt, insert_signal, sorted_signals, signal_items, json_digest,
  temporal_history_digest, expectation_identity, temporal_expectation_id,
}
use openassetwatch.Temporal.Expectations.Range.{
  median, rounded, half_width_of, center_of, deviation_of, range_around, range_of,
  robust_expected_range,
}
use openassetwatch.Temporal.Expectations.Samples.{
  primary_method, seasonal_signals, rolling_signals, rolling_sample, method_sample,
  minimum_observations, quality_and_confidence,
}
use openassetwatch.Temporal.Expectations.Service.{
  accept, history_request, sample_values, computed_outcome, outcome_of, expectation_of, expect,
  expectation,
}
use openassetwatch.Temporal.Expectations.Sorting.{insert, sorted}
use openassetwatch.Temporal.Identity.{tagged_digest}
use openassetwatch.Temporal.Projection.Service.{
  find_source, collect_sources, build_signals, metric_or_unknown, normalized_cutoff, response,
  check_cutoffs, project, series,
}
use openassetwatch.Temporal.Projection.Signals.{
  temporal_signal_id, freshness_of, backfill_state_of, published_value, data_quality_of, projected,
  signal_of,
}
use openassetwatch.Temporal.Projection.Windows.{
  utc_daily_bucket, check_window as check_series_window, validate_temporal_window, iter_from,
  iter_daily_buckets, daily_from,
}
use openassetwatch.Temporal.Registry.{temporal_metrics, find_metric, temporal_metric}
use openassetwatch.Text.{codes, join_unit, text_eq, is_hex_of_length, is_tagged_digest}
use openassetwatch.Temporal.Contracts.Assessment.{Assessment}
use openassetwatch.Temporal.Contracts.Expectation.{Expectation}
use openassetwatch.Temporal.Deviations.Inputs.{Collaborators}
use openassetwatch.Temporal.Examples.{
  hashing, store, now, calculation_time, assessment_request, target_start, expectation_query,
  series_query,
}

abbrev pub services : Collaborators
services = from_projection_store hashing store now

abbrev pub run : Result Assessment
run = assessment hashing services assessment_request now

abbrev pub is_candidate : Result Assessment → Bool
is_candidate (ok a) = a.candidate
is_candidate (err e) = false

abbrev pub expectation_run : Stamp → Option Stamp → Result Expectation
expectation_run t g =
    expectation hashing (series hashing store now) t (record expectation_query { generated_at = g })

-- The runs, each of which returns.
abbrev pub all_return : Bool
all_return =
    is_ok run
    && is_candidate run
    && is_ok (temporal_metric assessment_request.metric_key)
    && is_ok (load_inputs hashing services assessment_request target_start calculation_time)
    && is_ok (load_inputs hashing services assessment_request (target_start - day) calculation_time)
    && is_ok (expectation_run now none)
    && is_ok (expectation_run now (some (aware target_start)))
    && is_ok (series hashing store now series_query)

pub all_return-holds : all_return ≡ true
unfolding off_midnight weekday minus_days as_utc floor_day is_assessment_id unique_texts
    unique_reasons check_fields check_bounds check_target required_reason is_blocked_reason
    check_reasons check_blocked calculated_direction calculated_distance relative_change_ok
    check_trust check_values check_state check_evaluated validate_assessment is_expectation_id
    check_count_fields check_window check_counts check_range_values validate_expectation is_allowed
    unique_directions validate_policy missing_count incomplete_count check_scope check_signals
    validate_series matches_site_pattern is_site_id is_signal_id check_bucket check_quality
    check_watermarks validate_signal assessment_of build_assessment confidence_text
    expectation_quality_text direction_items text_items temporal_observation_digest expectation_json
    policy_json assessment_input_json temporal_assessment_input_digest assessment_identity
    temporal_deviation_assessment_id validate_request observation_request expectation_request
    single_signal is_observation_of is_expectation_of validate_provenance load_inputs
    temporal_deviation_policies find_policy temporal_deviation_policy from_projection_store persists
    reversed assess_alone collect_prior settle assessment assessment_lt insert_assessment
    sorted_assessments is_persisting is_aligned check_aligned check_support confidence_meets_policy
    blocking_reasons measured relative_change_of persistent_verdict evaluated_verdict
    asserted_verdict verdict_for verdict freshness_text quality_text backfill_text method_text
    canonical_timestamp signal_json text_lt signal_lt insert_signal sorted_signals signal_items
    json_digest temporal_history_digest expectation_identity temporal_expectation_id median rounded
    half_width_of center_of deviation_of range_around range_of robust_expected_range primary_method
    seasonal_signals rolling_signals rolling_sample method_sample minimum_observations
    quality_and_confidence accept history_request sample_values computed_outcome outcome_of
    expectation_of expect expectation insert sorted tagged_digest find_source collect_sources
    build_signals metric_or_unknown normalized_cutoff response check_cutoffs project series
    temporal_signal_id freshness_of backfill_state_of published_value data_quality_of projected
    signal_of utc_daily_bucket check_series_window validate_temporal_window iter_from
    iter_daily_buckets daily_from temporal_metrics find_metric temporal_metric codes join_unit
    text_eq is_hex_of_length is_tagged_digest
all_return-holds = refl

pub request_passes :
    validate_request now false assessment_request ≡ ok (target_start, calculation_time)
unfolding validate_request as_utc off_midnight floor_day
request_passes = refl

pub home_is_site : is_site_id "home" ≡ true
unfolding is_site_id matches_site_pattern codes
home_is_site = refl
