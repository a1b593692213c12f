-- ===== src/Temporal/Expectations/Service/Total.antt =====
-- Over a projection that keeps its contract, an accepted request always gets its expectation.
use openassetwatch.Prelude.{
  ℕ, ◌+◌, ◌*◌, ◌≤◌, ◌≡◌, refl, sym, true, false, String, List, arith, length, count_if-le-length,
}
use openassetwatch.Text.{Text, is_hex_of_length}
use openassetwatch.Temporal.Result.{ok, construct-ok}
use openassetwatch.Temporal.Clock.{
  Stamp, as_utc, day, floor_day, off_midnight, minus_days, minus_days-eq-ok, off_midnight-plus_days,
  off_midnight-before,
}
use openassetwatch.Temporal.Vocabulary.{is_late_arriving}
use openassetwatch.Temporal.Identity.{Hashing}
use openassetwatch.Temporal.Contracts.Signal.{Signal, is_site_id}
use openassetwatch.Temporal.Contracts.Series.{Series}
use openassetwatch.Temporal.Contracts.Series.Walk.{AllEndBy, none_open, validate_series-walk}
use openassetwatch.Temporal.Contracts.Expectation.{
  Expectation, history_buckets, is_expectation_id, check_count_fields, check_window, check_counts,
  check_range_values, validate_expectation,
}
use openassetwatch.Temporal.Projection.Service.Sound.{IsSafe}
use openassetwatch.Temporal.Expectations.Digest.{
  temporal_history_digest-some, temporal_expectation_id-some,
}
use openassetwatch.Temporal.Expectations.Samples.{
  Sample, primary_method, usable_signals, method_sample-le, method_sample-some,
}
use openassetwatch.Temporal.Expectations.Service.{
  Projection, ExpectationRequest, Accepted, Outcome, accept, history_request, outcome_of,
  expectation_of, expect, expectation,
}
use openassetwatch.Temporal.Expectations.Service.Values.{
  quality_counts_partition, length-usable_signals-le, length-method_sample_values, outcome_of-some,
  check_range_values-outcome,
}

-- What a history has that fits the contract of its projection: 56 signals that end by the target.
pub record IsHistory (target history_start : ℕ) (history : List Signal) : Type 0 where
  pub count : length history ≡ history_buckets
  pub closed : AllEndBy target history
  pub window : target ≡ history_start + history_buckets * day

module _ (h : Hashing) (a : Accepted) (metric_key site_id : String) (history_start : ℕ)
    (history : List Signal) (digest identity : Text) (s : Sample) (o : Outcome) where
  abbrev pub built : Expectation
  built =
      expectation_of a.metric metric_key site_id a.target a.calculation_time history_start history
        digest identity s o

  built-identity :
      is_expectation_id identity ≡ true
      → is_hex_of_length 64 digest ≡ true
      → is_site_id site_id ≡ true
      → (is_expectation_id built.expectation_id ≡ true)
        × (is_hex_of_length 64 built.history_digest ≡ true)
        × (is_site_id built.site_id ≡ true)
  unfolding expectation_of
  built-identity i d v = (i, d, v)

  built-range_values :
      outcome_of (length (usable_signals history)) s ≡ ok o
      → check_range_values built.expected built.lower built.upper built ≡ ok tt
  unfolding expectation_of
  built-range_values made =
      check_range_values-outcome (length (usable_signals history)) s o _ made refl refl refl

  built-count_fields :
      IsHistory a.target history_start history
      → length s.signals ≤ length (usable_signals history)
      → check_count_fields built ≡ ok tt
  unfolding check_count_fields expectation_of
  built-count_fields v n = ground (
    arith,
    v.count,
    quality_counts_partition history,
    length-usable_signals-le history,
    count_if-le-length (λ x. is_late_arriving x.backfill_state) history,
  )

  built-window :
      IsHistory a.target history_start history
      → off_midnight a.target ≡ false
      → off_midnight history_start ≡ false
      → check_window built ≡ ok tt
  unfolding check_window expectation_of
  built-window v aligned begun = ground (arith, v.window, off_midnight-plus_days a.target 1 aligned)

  built-counts :
      IsHistory a.target history_start history
      → length s.signals ≤ length (usable_signals history)
      → check_counts built ≡ ok tt
  unfolding check_counts expectation_of
  built-counts v n =
      ground (arith, v.count, quality_counts_partition history, length-usable_signals-le history)

  built-validate :
      IsHistory a.target history_start history
      → length s.signals ≤ length (usable_signals history)
      → off_midnight a.target ≡ false
      → is_expectation_id identity ≡ true
      → is_hex_of_length 64 digest ≡ true
      → is_site_id site_id ≡ true
      → outcome_of (length (usable_signals history)) s ≡ ok o
      → validate_expectation built ≡ ok tt
  unfolding validate_expectation
  built-validate v n aligned id_form digest_form site made = ground (
    arith,
    built-identity id_form digest_form site,
    built-count_fields v n,
    built-window v aligned
        (off_midnight-before a.target history_buckets history_start aligned v.window),
    built-counts v n,
    built-range_values made,
  )

module _ (h : Hashing) (a : Accepted) (metric_key site_id : String) (history_start : ℕ)
    (history : List Signal) where
  -- From a history that fits, the expectation is made and its contract accepts it.
  expect-some :
      IsHistory a.target history_start history
      → off_midnight a.target ≡ false
      → a.target ≤ floor_day a.calculation_time
      → is_site_id site_id ≡ true
      → (e : Expectation) × (expect h a metric_key site_id history_start history ≡ ok e)
  unfolding expect
  expect-some v aligned past site =
      let (digest, ed, digest_form) = temporal_history_digest-some h history v.count in
      let (s, es) =
        method_sample-some (primary_method metric_key) (usable_signals history) a.target
          (let w = v.window in omega arith) in
      let n = method_sample-le (primary_method metric_key) (usable_signals history) a.target es in
      let (o, eo) =
        outcome_of-some (length (usable_signals history)) s
          (length-method_sample_values (primary_method metric_key) history a.target es) in
      let (identity, ei, id_form) =
        temporal_expectation_id-some h metric_key site_id a.target (a.target + day) history_start
          a.target s.method a.metric.projection_version digest digest_form in
      (
        built h a metric_key site_id history_start history digest identity s o,
        rw
            (
              none_open a.target (floor_day a.calculation_time) a.target history (omega arith) past
                  v.closed,
              ed,
              es,
              eo,
              ei,
            )
            (construct-ok validate_expectation _ (
              built-validate h a metric_key site_id history_start history digest identity s o v n
                aligned id_form digest_form site eo)),
      )

pub accept-facts :
    (now : Stamp) (r : ExpectationRequest) {a : Accepted}
    → accept now r ≡ ok a
    → (off_midnight a.target ≡ false) × (a.target ≤ floor_day a.calculation_time)
unfolding accept as_utc
accept-facts now r e = ground arith

pub IsSafe→IsHistory :
    (r : ExpectationRequest) (target history_start : ℕ) {series : Series}
    → target ≡ history_start + history_buckets * day
    → IsSafe (history_request r history_start target) series
    → IsHistory target history_start series.signals
unfolding history_request as_utc
IsSafe→IsHistory r target history_start {series} w safe =
    let (spans, ends) = validate_series-walk series safe.valid safe.signals_valid in
    let started : history_start ≡ series.start = cc safe.start_requested in
    let stopped : target ≡ series.«end» = cc safe.stop_requested in
    record { count = omega arith; closed = rw stopped ends; window = w }

-- If the request passes its guards, its site is valid, the history begins within the calendar, and
-- the projection answers with a series that fits its own contract, then there is an expectation.
pub expectation-some :
    (h : Hashing) (project : Projection) (now : Stamp) (r : ExpectationRequest) {a : Accepted}
    {history_start : ℕ} {series : Series}
    → accept now r ≡ ok a
    → is_site_id r.site_id ≡ true
    → minus_days a.target history_buckets ≡ ok history_start
    → project (history_request r history_start a.target) ≡ ok series
    → IsSafe (history_request r history_start a.target) series
    → (e : Expectation) × (expectation h project now r ≡ ok e)
unfolding expectation
expectation-some h project now r {a} {history_start} {series} ea site em ep safe =
    let (aligned, past) = accept-facts now r ea in
    let w : a.target ≡ history_start + history_buckets * day =
      sym (minus_days-eq-ok a.target history_buckets history_start em) in
    let (e, made) =
      expect-some h a r.metric_key r.site_id history_start series.signals
        (IsSafe→IsHistory r a.target history_start w safe) aligned past site in
    (e, rw (ea, em, ep) made)
