-- ===== src/Temporal/Projection/Service/Total.antt =====
-- Once the request and the sources pass the guards of `series`, no contract refuses its result.
use openassetwatch.Prelude.{
  ℕ, ◌≤◌, ◌≡◌, true, String, Option, none, List, [], map, arith, length, length-map,
  count_if-le-length,
}
use openassetwatch.Temporal.Result.{ok, construct-ok}
use openassetwatch.Temporal.Clock.{Stamp, as_utc}
use openassetwatch.Temporal.Identity.{Hashing}
use openassetwatch.Temporal.Registry.{MetricDefinition, temporal_metric, temporal_metric-IsGoverned}
use openassetwatch.Temporal.Contracts.Signal.{Signal, is_site_id, matches_site_pattern}
use openassetwatch.Temporal.Contracts.Series.{
  validate_series, check_signals, missing_count, incomplete_count,
}
use openassetwatch.Temporal.Projection.Windows.{
  Window, IsWindow, check_window-IsWindow, validate_temporal_window, daily_from,
  iter_daily_buckets-eq-daily_from, length-daily_from,
}
use openassetwatch.Temporal.Projection.Signals.{Aggregate}
use openassetwatch.Temporal.Projection.Service.{
  SeriesRequest, Store, collect_sources, metric_or_unknown, or_now, response, check_cutoffs,
  project, series,
}
use openassetwatch.Temporal.Projection.Service.Loops.{
  AllSourced, signal_at, build_signals-eq-map, check_signals-map,
}

is_site_id→matches_site_pattern : (s : String) → is_site_id s ≡ true → matches_site_pattern s ≡ true
unfolding is_site_id
is_site_id→matches_site_pattern s h = ground arith

pub validate_temporal_window-IsWindow :
    (start stop : Stamp) (granularity : String) {w : Window}
    → validate_temporal_window start stop granularity ≡ ok w
    → IsWindow w
unfolding validate_temporal_window as_utc
validate_temporal_window-IsWindow (Stamp.naive a) stop g e = ground arith
validate_temporal_window-IsWindow (Stamp.aware a) (Stamp.naive b) g e = ground arith
validate_temporal_window-IsWindow (Stamp.aware a) (Stamp.aware b) g {w} e =
    check_window-IsWindow a b (ground arith)

pub metric_or_unknown-ok :
    (key : String) {m : MetricDefinition}
    → temporal_metric key ≡ ok m
    → metric_or_unknown key ≡ ok m
unfolding metric_or_unknown
metric_or_unknown-ok key e = rw (e, metric_or_unknown)

missing_count-le-length : (ss : List Signal) → missing_count ss ≤ length ss
unfolding missing_count
missing_count-le-length ss = count_if-le-length _ ss

incomplete_count-le-length : (ss : List Signal) → incomplete_count ss ≤ length ss
unfolding incomplete_count
incomplete_count-le-length ss = count_if-le-length _ ss

module _ (h : Hashing) (m : MetricDefinition) (site_id : String) (w : Window) (generated_at : ℕ)
    (sources : List (ℕ × Aggregate)) where
  -- The signals of every bucket of the window, in order.
  abbrev pub window_signals : List Signal
  window_signals =
      map (signal_at h m site_id generated_at sources) (daily_from w.bucket_count w.start)

  length-window_signals : length window_signals ≡ w.bucket_count
  length-window_signals = omega (
    arith,
    length-map (daily_from w.bucket_count w.start) (signal_at h m site_id generated_at sources),
    length-daily_from w.bucket_count w.start,
  )

  validate_series-response :
      (ss : List Signal)
      → IsWindow w
      → is_site_id site_id ≡ true
      → length ss ≡ w.bucket_count
      → check_signals (response m site_id w generated_at ss) w.start ss ≡ ok w.stop
      → validate_series (response m site_id w generated_at ss) ≡ ok tt
  unfolding validate_series response
  validate_series-response ss v site n walk =
      ground (arith, missing_count-le-length ss, incomplete_count-le-length ss)

  pub validate_series-window_signals :
      IsWindow w
      → is_site_id site_id ≡ true
      → validate_series (response m site_id w generated_at window_signals) ≡ ok tt
  validate_series-window_signals v site =
      validate_series-response window_signals v site length-window_signals (
        check_signals-map h m site_id generated_at sources w window_signals w.bucket_count w.start
          w.stop v.spans)

module _ (h : Hashing) (store : Store) where
  -- From a window with sourced aggregates the projection returns one signal for each day.
  project-eq-response :
      (m : MetricDefinition) (site_id : String) (w : Window) (generated_at : ℕ) (cutoff : Option ℕ)
      {rows : List (Stamp × Aggregate)} (sources : List (ℕ × Aggregate))
      → IsWindow w
      → is_site_id site_id ≡ true
      → m.missing_bucket_differs_from_zero ≡ true
      → store.metric_buckets m site_id w.start w.stop cutoff ≡ ok rows
      → collect_sources w.start w.stop rows [] ≡ ok sources
      → AllSourced sources
      → project h store m site_id w generated_at cutoff
        ≡ ok (response m site_id w generated_at (window_signals h m site_id w generated_at sources))
  unfolding project
  project-eq-response m site_id w generated_at cutoff sources v site differs rs cs all = rw (
    rs,
    cs,
    iter_daily_buckets-eq-daily_from w.bucket_count w.start w.stop v.spans,
    build_signals-eq-map h m site_id generated_at sources w.bucket_count w.start v.start_aligned
        site differs all,
    construct-ok validate_series _
        (validate_series-window_signals h m site_id w generated_at sources v site),
  )

  -- If the metric is governed, the site valid, no asset given, the window and the cutoffs accepted,
  -- and the source buckets distinct and as the queries give them, then `series` succeeds. Its response has, for
  -- each day of the window in order, the signal of that day's aggregate, or a missing one.
  pub series-eq-response :
      (now : Stamp) (r : SeriesRequest) {m : MetricDefinition} {w : Window} {generated_at : ℕ}
      {cutoff : Option ℕ} {rows : List (Stamp × Aggregate)} (sources : List (ℕ × Aggregate))
      → temporal_metric r.metric_key ≡ ok m
      → is_site_id r.site_id ≡ true
      → r.asset_id ≡ none
      → validate_temporal_window r.start r.stop r.granularity ≡ ok w
      → check_cutoffs w (or_now r.generated_at now) r.knowledge_cutoff ≡ ok (generated_at, cutoff)
      → store.metric_buckets m r.site_id w.start w.stop cutoff ≡ ok rows
      → collect_sources w.start w.stop rows [] ≡ ok sources
      → AllSourced sources
      → series h store now r
        ≡ ok (
            response m r.site_id w generated_at
              (window_signals h m r.site_id w generated_at sources))
  unfolding series
  series-eq-response now r {m} {w} {generated_at} {cutoff} sources em site asset ew ec rs cs all =
      rw
        (
          metric_or_unknown-ok r.metric_key em,
          is_site_id→matches_site_pattern r.site_id site,
          asset,
          ew,
          ec,
        )
        (project-eq-response m r.site_id w generated_at cutoff sources
          (validate_temporal_window-IsWindow r.start r.stop r.granularity ew) site
          (temporal_metric-IsGoverned r.metric_key em).0.missing_differs rs cs all)
