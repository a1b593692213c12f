-- ===== src/Temporal/Projection/Signals/Validity.antt =====
-- When the contract accepts the signals that the projection builds.
use openassetwatch.Prelude.{
  ℕ, ◌+◌, ◌≡◌, refl, ◌↔◌, true, false, String, Option, none, some, arith, is_none,
}
use openassetwatch.Temporal.Result.{ok}
use openassetwatch.Temporal.Clock.{day, off_midnight, off_midnight-plus_days}
use openassetwatch.Temporal.Identity.{Hashing, tagged_digest-is_tagged_digest}
use openassetwatch.Temporal.Registry.{MetricDefinition}
use openassetwatch.Temporal.Contracts.Signal.{
  is_site_id, is_signal_id, check_bucket, check_quality, check_watermarks, validate_signal,
}
use openassetwatch.Temporal.Projection.Signals.{Aggregate, signal_of, temporal_signal_id}

-- What the source queries give: a complete bucket has an observation watermark, and an incomplete zero
-- with no coverage and no evidence has none.
pub record IsSourced (a : Aggregate) : Type 0 where
  pub watermark : a.complete ≡ true → is_none a.source_observed_at ≡ false
  pub uncovered :
      a.value ≡ 0
      → a.complete ≡ false
      → a.coverage_observed ≡ false
      → a.evidence_count ≡ 0
      → is_none a.source_observed_at ≡ true

abbrev pub IsSourced? : Option Aggregate → Type 0
IsSourced? none = Unit
IsSourced? (some a) = IsSourced a

temporal_signal_id-is_signal_id :
    (h : Hashing) (k s : String) (a : Option String) (b e : ℕ) (v : String)
    → is_signal_id (temporal_signal_id h k s a b e v) ≡ true
unfolding is_signal_id temporal_signal_id
temporal_signal_id-is_signal_id h k s a b e v = tagged_digest-is_tagged_digest h _ _

module _ (h : Hashing) (m : MetricDefinition) (site_id : String) (start generated_at : ℕ) where
  signal_id-signal_of :
      (a : Option Aggregate)
      → is_signal_id (signal_of h m site_id start generated_at a).signal_id ≡ true
  unfolding signal_of
  signal_id-signal_of a =
      temporal_signal_id-is_signal_id h m.metric_key site_id none start (start + day)
        m.projection_version

  site_id-signal_of :
      (a : Option Aggregate) → (signal_of h m site_id start generated_at a).site_id ≡ site_id
  unfolding signal_of
  site_id-signal_of a = refl

  signal_of-check_bucket :
      (a : Option Aggregate)
      → off_midnight start ≡ false
      → check_bucket (signal_of h m site_id start generated_at a) ≡ ok tt
  unfolding check_bucket signal_of
  signal_of-check_bucket a p = ground (arith, off_midnight-plus_days start 1 p)

  signal_of-check_quality :
      (a : Option Aggregate)
      → IsSourced? a
      → check_quality (signal_of h m site_id start generated_at a) ≡ ok tt
  unfolding check_quality signal_of
  signal_of-check_quality none s = refl
  signal_of-check_quality (some a) s = ground arith

  signal_of-check_watermarks :
      (a : Option Aggregate)
      → IsSourced? a
      → check_watermarks (signal_of h m site_id start generated_at a) ≡ ok tt
  unfolding check_watermarks signal_of
  signal_of-check_watermarks none s = ground arith
  signal_of-check_watermarks (some a) s = ground arith

  check_quality→IsSourced :
      (a : Aggregate)
      → m.missing_bucket_differs_from_zero ≡ true
      → check_quality (signal_of h m site_id start generated_at (some a)) ≡ ok tt
      → check_watermarks (signal_of h m site_id start generated_at (some a)) ≡ ok tt
      → IsSourced a
  unfolding check_quality check_watermarks signal_of
  check_quality→IsSourced a differs q w = record {
    watermark = λ c. ground arith;
    uncovered = λ z c o e. ground arith;
  }

  validate_signal→IsSourced :
      (a : Option Aggregate)
      → m.missing_bucket_differs_from_zero ≡ true
      → validate_signal (signal_of h m site_id start generated_at a) ≡ ok tt
      → IsSourced? a
  unfolding validate_signal
  validate_signal→IsSourced none differs v = tt
  validate_signal→IsSourced (some a) differs v =
      check_quality→IsSourced a differs (ground arith) (ground arith)

  accepted :
      (a : Option Aggregate)
      → off_midnight start ≡ false
      → is_site_id site_id ≡ true
      → IsSourced? a
      → validate_signal (signal_of h m site_id start generated_at a) ≡ ok tt
  unfolding validate_signal
  accepted a aligned site s = ground (
    arith,
    signal_of-check_bucket a aligned,
    signal_of-check_quality a s,
    signal_of-check_watermarks a s,
    signal_id-signal_of a,
    site_id-signal_of a,
  )

  -- For a valid site and a metric whose missing buckets differ from zero, the contract accepts the
  -- signal of an aligned bucket exactly when its aggregate, if there is one, is as the source
  -- queries give it.
  pub validate_signal-signal_of_iff :
      (a : Option Aggregate)
      → off_midnight start ≡ false
      → is_site_id site_id ≡ true
      → m.missing_bucket_differs_from_zero ≡ true
      → (validate_signal (signal_of h m site_id start generated_at a) ≡ ok tt) ↔ IsSourced? a
  unfolding validate_signal
  validate_signal-signal_of_iff a aligned site differs =
      (λ v. validate_signal→IsSourced a differs v, λ s. accepted a aligned site s)
