-- ===== src/Temporal/Examples/Instances.antt =====
-- The theorems on the parts of the temporal services, at small values.
use mathlib.Core.List.Perm
use openassetwatch.Prelude.{
  ℕ, ◌+◌, ◌-◌, ◌*◌, ◌≤◌, ◌<◌, ◌≡◌, refl, ◌↔◌, ◌⊎◌, false, String, none, some, List, [], ◌∷◌, arith,
  length, count_if, map, filter,
}
use openassetwatch.Text.{codes, is_tagged_digest, is_hex_of_length}
use openassetwatch.Temporal.Result.{ok, err, is_ok, projection, value_error, ErrorCode}
use openassetwatch.Temporal.Clock.{aware, as_utc, day, floor_day, off_midnight, weekday}
use openassetwatch.Temporal.Registry.{
  MetricDefinition, find_metric, temporal_metrics, temporal_metric, temporal_metric-IsGoverned,
}
use openassetwatch.Temporal.Contracts.Signal.{
  Signal, validate_signal, is_site_id, is_signal_id, matches_site_pattern, check_bucket,
  check_quality, check_watermarks,
}
use openassetwatch.Temporal.Projection.Windows.{
  Window, check_window, validate_temporal_window, iter_daily_buckets, daily_from,
  iter_daily_buckets-eq-daily_from, IsDailyRequest, validate_temporal_window-eq-ok_iff,
}
use openassetwatch.Temporal.Projection.Signals.{Aggregate, signal_of}
use openassetwatch.Temporal.Projection.Signals.Validity.{IsSourced, validate_signal-signal_of_iff}
use openassetwatch.Temporal.Projection.Service.{
  collect_sources, find_source, check_cutoffs, normalized_cutoff, response, series,
}
use openassetwatch.Temporal.Projection.Service.Total.{window_signals, series-eq-response}
use openassetwatch.Temporal.Expectations.Range.{Range, robust_expected_range}
use openassetwatch.Temporal.Expectations.Range.Laws.{
  is_within, robust_expected_range-covers, robust_expected_range-eq_of_perm,
  robust_expected_range-some,
}
use openassetwatch.Temporal.Expectations.Samples.{
  PrimaryMethod, Sample, method_sample, usable_signals, seasonal_signals,
}
use openassetwatch.Temporal.Expectations.Samples.Days.{
  is_weekly, starts_of, IsWeeklySample, IsRecentSample, method_sample-days,
}
use openassetwatch.Temporal.Expectations.Service.{expectation}
use openassetwatch.Temporal.Deviations.Policies.{
  temporal_deviation_policy, is_ok-temporal_deviation_policy,
}
use openassetwatch.Temporal.Vocabulary.{ExpectationMethod}
use openassetwatch.Temporal.Deviations.Verdict.{blocking_reasons}
use openassetwatch.Temporal.Deviations.Verdict.Laws.{IsTrusted, blocking_reasons-eq-nil_iff}
use openassetwatch.Temporal.Deviations.Service.{assessment}
use openassetwatch.Temporal.Deviations.Service.Composed.{unknown_metric-errors}
use openassetwatch.Temporal.Examples.{
  hashing, store, now, calculation_time, assessment_request, target_start, expectation_query,
  series_query, aggregate_at, value_on, observed_signal, estimated, low_policy,
}
use openassetwatch.Temporal.Examples.Facts.{services, home_is_site}

robust_expected_range-eq_of_perm_example :
    robust_expected_range (3 ∷ 1 ∷ []) ≡ robust_expected_range (1 ∷ 3 ∷ [])
robust_expected_range-eq_of_perm_example =
    robust_expected_range-eq_of_perm (3 ∷ 1 ∷ []) (1 ∷ 3 ∷ []) (Perm.swap _ _ _)

is_ok-temporal_deviation_policy_example :
    is_ok (temporal_deviation_policy "site.assets.new.count")
    ≡ is_ok (temporal_metric "site.assets.new.count")
is_ok-temporal_deviation_policy_example = is_ok-temporal_deviation_policy "site.assets.new.count"

iter_daily_buckets-eq-daily_from_example :
    iter_daily_buckets target_start (target_start + 3 * day) ≡ daily_from 3 target_start
iter_daily_buckets-eq-daily_from_example =
    iter_daily_buckets-eq-daily_from 3 target_start (target_start + 3 * day) refl

target_aligned : off_midnight target_start ≡ false
unfolding off_midnight
target_aligned = refl

abbrev three_days : Window
three_days = record { start = target_start; stop = target_start + 3 * day; bucket_count = 3 }

validate_temporal_window-eq-ok_iff_example :
    (validate_temporal_window (aware target_start) (aware (target_start + 3 * day)) "daily"
      ≡ ok three_days)
    ↔ IsDailyRequest (aware target_start) (aware (target_start + 3 * day)) "daily" three_days
validate_temporal_window-eq-ok_iff_example =
    validate_temporal_window-eq-ok_iff (aware target_start) (aware (target_start + 3 * day)) "daily"
      three_days

abbrev other_key : String
other_key = "site.other.count"

other_key_unknown : temporal_metric other_key ≡ err (value_error "unknown temporal metric")
unfolding temporal_metric find_metric temporal_metrics
other_key_unknown = refl

unknown_metric-errors_example :
    (series hashing store now (record series_query { metric_key = other_key })
      ≡ err (projection ErrorCode.unknown_metric))
    × (expectation hashing
          (series hashing store now)
          now
          (record expectation_query { metric_key = other_key })
        ≡ err (projection ErrorCode.unknown_metric))
    × (assessment hashing services (record assessment_request { metric_key = other_key }) now
        ≡ err (value_error "unknown temporal metric"))
unknown_metric-errors_example =
    unknown_metric-errors hashing store (series hashing store now) services now
      (record series_query { metric_key = other_key })
      (record expectation_query { metric_key = other_key })
      (record assessment_request { metric_key = other_key }) other_key_unknown other_key_unknown
      other_key_unknown

metric : (m : MetricDefinition) × (temporal_metric series_query.metric_key ≡ ok m)
unfolding temporal_metric find_metric temporal_metrics
metric = (_, refl)

aggregate_at-IsSourced : (v t : ℕ) → IsSourced (aggregate_at v t)
aggregate_at-IsSourced v t = record { watermark = λ c. refl; uncovered = λ z c o e. absurd (cc) }

abbrev two_days : Window
two_days = record { start = target_start - day; stop = target_start + day; bucket_count = 2 }

two_days_accepted :
    validate_temporal_window series_query.start series_query.stop series_query.granularity
    ≡ ok two_days
unfolding validate_temporal_window as_utc check_window off_midnight
two_days_accepted = refl

two_days_closed : check_cutoffs two_days now none ≡ ok (calculation_time, none)
unfolding check_cutoffs as_utc normalized_cutoff floor_day
two_days_closed = refl

abbrev sources : List (ℕ × Aggregate)
sources =
    (target_start, aggregate_at (value_on target_start) target_start)
    ∷ (target_start - day, aggregate_at (value_on (target_start - day)) (target_start - day))
    ∷ []

sources_collected :
    collect_sources two_days.start two_days.stop
      ((
        aware (target_start - day),
        aggregate_at (value_on (target_start - day)) (target_start - day),
      )
        ∷ (aware target_start, aggregate_at (value_on target_start) target_start)
        ∷ [])
      []
    ≡ ok sources
unfolding collect_sources as_utc find_source
sources_collected = refl

series-eq-response_example :
    series hashing store now series_query
    ≡ ok (
        response metric.0 "home" two_days calculation_time
          (window_signals hashing metric.0 "home" two_days calculation_time sources))
series-eq-response_example =
    series-eq-response hashing store now series_query sources metric.1 home_is_site refl
      two_days_accepted two_days_closed refl sources_collected
      (aggregate_at-IsSourced _ target_start, (aggregate_at-IsSourced _ (target_start - day), tt))

validate_signal-signal_of_iff_example :
    (validate_signal (
        signal_of hashing metric.0 "home" target_start calculation_time
          (some (aggregate_at 5 target_start)))
      ≡ ok tt)
    ↔ IsSourced (aggregate_at 5 target_start)
validate_signal-signal_of_iff_example =
    validate_signal-signal_of_iff hashing metric.0 "home" target_start calculation_time
      (some (aggregate_at 5 target_start)) target_aligned home_is_site
      (temporal_metric-IsGoverned series_query.metric_key metric.1).0.missing_differs

signal_valid : validate_signal observed_signal ≡ ok tt
unfolding validate_signal is_signal_id is_site_id matches_site_pattern codes is_tagged_digest
    is_hex_of_length check_bucket check_quality check_watermarks off_midnight
signal_valid = refl

blocking_reasons-eq-nil_iff_example :
    (blocking_reasons observed_signal estimated low_policy ≡ [])
    ↔ IsTrusted observed_signal estimated low_policy
blocking_reasons-eq-nil_iff_example =
    blocking_reasons-eq-nil_iff observed_signal estimated low_policy signal_valid

abbrev first_day : ℕ
first_day = target_start - 56 * day

abbrev history : List Signal
history = map (λ t. record observed_signal { bucket_start = t }) (daily_from 56 first_day)

history_daily : starts_of history ≡ daily_from 56 first_day
unfolding daily_from
history_daily = refl

abbrev weekly_sample : Sample
weekly_sample = record {
  method = ExpectationMethod.seasonal_robust_baseline;
  signals = seasonal_signals target_start (usable_signals history);
}

history_sampled :
    method_sample PrimaryMethod.seasonal (usable_signals history) target_start ≡ ok weekly_sample
unfolding method_sample seasonal_signals daily_from weekday
history_sampled = refl

method_sample-days_example :
    ((PrimaryMethod.seasonal ≡ PrimaryMethod.seasonal)
      × IsWeeklySample history target_start weekly_sample)
    ⊎ (((PrimaryMethod.seasonal ≡ PrimaryMethod.seasonal)
          → length (filter (is_weekly target_start) history) < 4)
        × IsRecentSample history target_start weekly_sample)
method_sample-days_example =
    method_sample-days PrimaryMethod.seasonal history first_day target_start history_daily refl
      history_sampled

some_range : (r : Range) × (robust_expected_range (1 ∷ 3 ∷ 50 ∷ []) ≡ ok r)
some_range = robust_expected_range-some (1 ∷ 3 ∷ 50 ∷ []) (omega arith)

robust_expected_range-covers_example : 3 ≤ 2 * count_if (is_within some_range.0) (1 ∷ 3 ∷ 50 ∷ [])
robust_expected_range-covers_example = robust_expected_range-covers (1 ∷ 3 ∷ 50 ∷ []) some_range.1
