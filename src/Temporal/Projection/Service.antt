-- ===== src/Temporal/Projection/Service.antt =====
-- `TemporalProjectionService.series` of backend/app/temporal_projection.py. The store behind it is a
-- parameter; `now` is what the clock says where the caller gives no time.
pub mod Loops
pub mod Total
pub mod Sound
use openassetwatch.Prelude.{
  ℕ, ◌+◌, Bool, true, false, not, ◌&&◌, ◌||◌, String, Option, none, some, List, [], ◌∷◌, leb, ltb,
  ◌==◌, if◌then◌else◌, is_none,
}
use openassetwatch.Temporal.Result.{
  Result, ok, err, ErrorCode, projection, ◌>>=◌, ◌>>◌, raise_if, construct,
}
use openassetwatch.Temporal.Clock.{Stamp, as_utc, day, floor_day}
use openassetwatch.Temporal.Vocabulary.{Granularity}
use openassetwatch.Temporal.Identity.{Hashing}
use openassetwatch.Temporal.Registry.{MetricDefinition, temporal_metric}
use openassetwatch.Temporal.Contracts.Signal.{Signal, validate_signal, matches_site_pattern}
use openassetwatch.Temporal.Contracts.Series.{
  Series, validate_series, missing_count, incomplete_count, max_temporal_buckets,
}
use openassetwatch.Temporal.Projection.Windows.{
  Window, utc_daily_bucket, validate_temporal_window, iter_daily_buckets,
}
use openassetwatch.Temporal.Projection.Signals.{Aggregate, signal_of}

-- The arguments of `series`.
pub record SeriesRequest : Type 0 where
  pub metric_key : String
  pub site_id : String
  pub start : Stamp
  pub stop : Stamp
  pub granularity : String
  pub asset_id : Option String
  pub generated_at : Option Stamp
  pub knowledge_cutoff : Option Stamp

-- `TemporalProjectionStore`: the buckets of a metric, keyed by their start.
pub record Store : Type 0 where
  pub metric_buckets :
      MetricDefinition → String → ℕ → ℕ → Option ℕ → Result (List (Stamp × Aggregate))

-- `d.get(key)` on the dictionary of sources
unfoldable pub find_source : ℕ → List (ℕ × Aggregate) → Option Aggregate
find_source t [] = none
find_source t ((u, a) ∷ rest) = if t == u then some a else find_source t rest

-- The loop that fills `normalized_sources`; the last argument is the dictionary so far.
unfoldable pub collect_sources :
    ℕ → ℕ → List (Stamp × Aggregate) → List (ℕ × Aggregate) → Result (List (ℕ × Aggregate))
collect_sources start stop [] sources = ok sources
collect_sources start stop ((bucket, a) ∷ rest) sources = as_utc bucket >>= λ t.
    if not (leb start t && ltb t stop)
    then collect_sources start stop rest sources
    else raise_if (not (is_none (find_source t sources)))
        (projection ErrorCode.duplicate_source_bucket)
      >> collect_sources start stop rest ((t, a) ∷ sources)

-- The loop that appends one signal for each bucket.
unfoldable pub build_signals :
    Hashing → MetricDefinition → String → ℕ → List (ℕ × Aggregate) → List ℕ → Result (List Signal)
build_signals h m site_id generated_at sources [] = ok []
build_signals h m site_id generated_at sources (t ∷ ts) = do
  s ← construct validate_signal (signal_of h m site_id t generated_at (find_source t sources))
  ss ← build_signals h m site_id generated_at sources ts
  ok (s ∷ ss)

-- `temporal_metric` with its `ValueError` turned into a projection error
unfoldable pub metric_or_unknown : String → Result MetricDefinition
metric_or_unknown key = elim (temporal_metric key) [
  | ok m ↦ ok m
  | err e ↦ err (projection ErrorCode.unknown_metric)
]

-- `value or now`
abbrev pub or_now : Option Stamp → Stamp → Stamp
or_now none now = now
or_now (some t) now = t

unfoldable pub normalized_cutoff : Option Stamp → Result (Option ℕ)
normalized_cutoff none = ok none
normalized_cutoff (some c) = do t ← as_utc c; ok (some t)

-- `normalized_end > cutoff`, where there is a cutoff
abbrev pub is_past_cutoff : Option ℕ → ℕ → Bool
is_past_cutoff none stop = false
is_past_cutoff (some c) stop = ltb c stop

-- The response over the signals.
unfoldable pub response : MetricDefinition → String → Window → ℕ → List Signal → Series
response m site_id w generated_at signals = record {
  metric = m;
  tenant_id = none;
  site_id = site_id;
  asset_id = none;
  start = w.start;
  «end» = w.stop;
  granularity = Granularity.daily;
  generated_at = generated_at;
  bucket_count = w.bucket_count;
  missing_bucket_count = missing_count signals;
  incomplete_bucket_count = incomplete_count signals;
  maximum_bucket_count = max_temporal_buckets;
  signals = signals;
}

-- The checks on the projection time and on the cutoff.
unfoldable pub check_cutoffs : Window → Stamp → Option Stamp → Result (ℕ × Option ℕ)
check_cutoffs w projection_stamp knowledge_cutoff = do
  projection_time ← as_utc projection_stamp
  cutoff ← normalized_cutoff knowledge_cutoff
  raise_if (is_past_cutoff cutoff w.stop) (projection ErrorCode.history_after_cutoff)
  raise_if (ltb (floor_day projection_time + day) w.stop) (projection ErrorCode.future_window)
  ok (projection_time, cutoff)

module _ (h : Hashing) (store : Store) where
  -- From the source buckets to the response.
  unfoldable pub project : MetricDefinition → String → Window → ℕ → Option ℕ → Result Series
  project m site_id w projection_time cutoff = do
    rows ← store.metric_buckets m site_id w.start w.stop cutoff
    sources ← collect_sources w.start w.stop rows []
    signals ← build_signals h m site_id projection_time sources (iter_daily_buckets w.start w.stop)
    construct validate_series (response m site_id w projection_time signals)

  unfoldable pub series : Stamp → SeriesRequest → Result Series
  series now r = do
    m ← metric_or_unknown r.metric_key
    raise_if (not (matches_site_pattern r.site_id)) (projection ErrorCode.invalid_site)
    raise_if (not (is_none r.asset_id) && not m.supports_asset_scope)
        (projection ErrorCode.unsupported_scope)
    w ← validate_temporal_window r.start r.stop r.granularity
    (projection_time, cutoff) ← check_cutoffs w (or_now r.generated_at now) r.knowledge_cutoff
    project m r.site_id w projection_time cutoff
