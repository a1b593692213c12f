-- ===== src/Temporal/Projection/Service/Sound.antt =====
-- What a response of `series` means, whatever the store answers: it is made only for an accepted
-- window within the cutoffs, and its signals are those of the window's days.
use openassetwatch.Prelude.{
  ℕ, ◌+◌, ◌≤◌, ◌≡◌, refl, not, ◌&&◌, String, Option, none, some, List, [], arith, is_none,
}
use openassetwatch.Temporal.Result.{ok, construct-eq-ok, >>=-eq-ok, raise_if}
use openassetwatch.Temporal.Clock.{Stamp, as_utc, day, floor_day}
use openassetwatch.Temporal.Identity.{Hashing}
use openassetwatch.Temporal.Registry.{MetricDefinition}
use openassetwatch.Temporal.Contracts.Signal.{AllValid, matches_site_pattern}
use openassetwatch.Temporal.Contracts.Series.{Series, validate_series}
use openassetwatch.Temporal.Projection.Windows.{
  Window, IsWindow, check_window, validate_temporal_window, iter_daily_buckets-eq-daily_from,
}
use openassetwatch.Temporal.Projection.Signals.{Aggregate}
use openassetwatch.Temporal.Projection.Service.{
  SeriesRequest, Store, collect_sources, build_signals, metric_or_unknown, or_now, response,
  check_cutoffs, normalized_cutoff, project, series,
}
use openassetwatch.Temporal.Projection.Service.Loops.{build_signals-eq-ok}
use openassetwatch.Temporal.Projection.Service.Total.{
  window_signals, validate_temporal_window-IsWindow,
}

-- What a projected response satisfies.
pub record IsProjected (h : Hashing) (m : MetricDefinition) (site_id : String) (w : Window)
    (generated_at : ℕ) (r : Series) : Type 0 where
  pub sources : List (ℕ × Aggregate)
  pub responds :
      r ≡ response m site_id w generated_at (window_signals h m site_id w generated_at sources)
  pub signals_valid : AllValid (window_signals h m site_id w generated_at sources)
  pub valid : validate_series r ≡ ok tt

module _ (h : Hashing) (store : Store) where
  project-IsProjected :
      (m : MetricDefinition) (site_id : String) (w : Window) (generated_at : ℕ) (cutoff : Option ℕ)
      {r : Series}
      → IsWindow w
      → project h store m site_id w generated_at cutoff ≡ ok r
      → IsProjected h m site_id w generated_at r
  unfolding project
  project-IsProjected m site_id w generated_at cutoff {r} v e =
      let (rows, _, e1) = >>=-eq-ok (store.metric_buckets m site_id w.start w.stop cutoff) _ e in
      let (sources, _, e2) = >>=-eq-ok (collect_sources w.start w.stop rows []) _ e1 in
      let (signals, es, e3) = >>=-eq-ok (build_signals h m site_id generated_at sources _) _ e2 in
      let (same, valid) = build_signals-eq-ok h m site_id generated_at sources _ es in
      let (built, accepted) = construct-eq-ok validate_series _ e3 in
      let same' : signals ≡ window_signals h m site_id w generated_at sources =
        rw (← iter_daily_buckets-eq-daily_from w.bucket_count w.start w.stop v.spans) same in
      record {
        sources = sources;
        responds = rw built (rw same');
        signals_valid = rw same' at valid;
        valid = rw built accepted;
      }

-- What a response of `series` satisfies: the governed metric, an accepted window that ends by the end
-- of the projection's own day and by the knowledge cutoff, and signals that their contracts accept.
pub record IsSafe (r : SeriesRequest) (s : Series) : Type 0 where
  pub metric_known : metric_or_unknown r.metric_key ≡ ok s.metric
  pub same_site : s.site_id ≡ r.site_id
  pub start_requested : as_utc r.start ≡ ok s.start
  pub stop_requested : as_utc r.stop ≡ ok s.«end»
  pub window : IsWindow (record { start = s.start; stop = s.«end»; bucket_count = s.bucket_count })
  pub closed : s.«end» ≤ floor_day s.generated_at + day
  pub before_cutoff :
      (c : Stamp) (t : ℕ) → r.knowledge_cutoff ≡ some c → as_utc c ≡ ok t → s.«end» ≤ t
  pub signals_valid : AllValid s.signals
  pub valid : validate_series s ≡ ok tt

check_cutoffs-bounds :
    (w : Window) (t : Stamp) (k : Option Stamp) {g : ℕ} {cutoff : Option ℕ}
    → check_cutoffs w t k ≡ ok (g, cutoff)
    → (w.stop ≤ floor_day g + day)
      × ((c : Stamp) (u : ℕ) → k ≡ some c → as_utc c ≡ ok u → w.stop ≤ u)
unfolding check_cutoffs normalized_cutoff as_utc
check_cutoffs-bounds w (Stamp.naive t) k e = absurd (ground arith)
check_cutoffs-bounds w (Stamp.aware t) none e = (ground arith, λ c u p q. ground arith)
check_cutoffs-bounds w (Stamp.aware t) (some (Stamp.naive c)) e = absurd (ground arith)
check_cutoffs-bounds w (Stamp.aware t) (some (Stamp.aware c)) e =
    (ground arith, λ d u p q. let same : Stamp.aware c ≡ d = cc in ground arith)

validated_bounds :
    (start stop : Stamp) (granularity : String) {w : Window}
    → validate_temporal_window start stop granularity ≡ ok w
    → (as_utc start ≡ ok w.start) × (as_utc stop ≡ ok w.stop)
unfolding validate_temporal_window as_utc check_window
validated_bounds (Stamp.naive a) b g e = absurd (ground arith)
validated_bounds (Stamp.aware a) (Stamp.naive b) g e = absurd (ground arith)
validated_bounds (Stamp.aware a) (Stamp.aware b) g e = ground arith

IsProjected→IsSafe :
    (h : Hashing) (now : Stamp) (r : SeriesRequest) {m : MetricDefinition} {w : Window} {g : ℕ}
    {cutoff : Option ℕ} {s : Series}
    → metric_or_unknown r.metric_key ≡ ok m
    → validate_temporal_window r.start r.stop r.granularity ≡ ok w
    → check_cutoffs w (or_now r.generated_at now) r.knowledge_cutoff ≡ ok (g, cutoff)
    → IsProjected h m r.site_id w g s
    → IsSafe r s
unfolding response
IsProjected→IsSafe h now r {m} {w} {g} em ew ec p = rw p.responds (record {
  metric_known = em;
  same_site = refl;
  start_requested = (validated_bounds r.start r.stop r.granularity ew).0;
  stop_requested = (validated_bounds r.start r.stop r.granularity ew).1;
  window = validate_temporal_window-IsWindow r.start r.stop r.granularity ew;
  closed = (check_cutoffs-bounds w (or_now r.generated_at now) r.knowledge_cutoff ec).0;
  before_cutoff = (check_cutoffs-bounds w (or_now r.generated_at now) r.knowledge_cutoff ec).1;
  signals_valid = p.signals_valid;
  valid = rw p.responds at p.valid;
})

module _ (h : Hashing) (store : Store) where
  -- Whatever the store answers, a response of `series` is for the governed metric and the requested
  -- site and window; the window is aligned, has 1 to 366 days, and ends neither after the day of the
  -- projection time nor after the knowledge cutoff; and the contracts accept the response and each
  -- of its signals.
  pub series-IsSafe :
      (now : Stamp) (r : SeriesRequest) {s : Series} → series h store now r ≡ ok s → IsSafe r s
  unfolding series
  series-IsSafe now r e =
      let (m, em, e1) = >>=-eq-ok (metric_or_unknown r.metric_key) _ e in
      let (_, _, e2) = >>=-eq-ok (raise_if (not (matches_site_pattern r.site_id)) _) _ e1 in
      let (_, _, e3) = >>=-eq-ok (raise_if (not (is_none r.asset_id) && _) _) _ e2 in
      let (w, ew, e4) = >>=-eq-ok (validate_temporal_window r.start r.stop r.granularity) _ e3 in
      let ((g, cutoff), ec, e5) =
        >>=-eq-ok (check_cutoffs w (or_now r.generated_at now) r.knowledge_cutoff) _ e4 in
      IsProjected→IsSafe h now r em ew ec (
        project-IsProjected h store m r.site_id w g cutoff
          (validate_temporal_window-IsWindow r.start r.stop r.granularity ew) e5)
