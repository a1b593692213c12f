-- ===== src/Temporal/Expectations/Samples.antt =====
-- `TEMPORAL_EXPECTATION_POLICIES`, `_method_sample` and `_quality_and_confidence` of
-- backend/app/temporal_expectations.py.
pub mod Days
use openassetwatch.Prelude.{
  ℕ, ◌-◌, ◌*◌, ◌<◌, ◌⊎◌, Bool-cases, inl, inr, ◌≤◌, ◌≡◌, refl, Bool, not, ◌&&◌, String, List, [],
  ◌∷◌, leb, ◌==◌, ◌=s=◌, if◌then◌else◌, is_none, length, filter, arith,
}
use openassetwatch.Temporal.Result.{Result, ok, ◌>>=◌}
use openassetwatch.Temporal.Clock.{day, weekday, minus_days}
use openassetwatch.Temporal.Vocabulary.{
  ExpectationMethod, rolling_robust_baseline, seasonal_robust_baseline, Confidence,
  ExpectationDataQuality, is_observed, is_seasonal,
}
use openassetwatch.Temporal.Contracts.Signal.{Signal}
use openassetwatch.Temporal.Contracts.Expectation.{history_buckets}

pub data PrimaryMethod : Type 0 where
  rolling seasonal : PrimaryMethod

abbrev pub rolling_sample_buckets : ℕ
rolling_sample_buckets = 28

abbrev pub minimum_rolling_observations : ℕ
minimum_rolling_observations = 7

abbrev pub minimum_seasonal_observations : ℕ
minimum_seasonal_observations = 4

-- `TEMPORAL_EXPECTATION_POLICIES[metric_key]`; a key that is no metric's has been refused before.
unfoldable pub primary_method : String → PrimaryMethod
primary_method key =
    if key =s= "site.collectors.active.count"
    then PrimaryMethod.seasonal
    else if key =s= "site.inventory.collections.count"
    then PrimaryMethod.seasonal
    else if key =s= "site.inventory.asset_observations.count"
    then PrimaryMethod.seasonal
    else PrimaryMethod.rolling

-- `[signal for signal in signals if observed and with a value]`
abbrev pub is_usable : Signal → Bool
is_usable s = is_observed s.data_quality && not (is_none s.value)

abbrev pub usable_signals : List Signal → List Signal
usable_signals = filter is_usable

pub record Sample : Type 0 where
  pub method : ExpectationMethod
  pub signals : List Signal

-- The signals of the target's day of the week.
unfoldable pub seasonal_signals : ℕ → List Signal → List Signal
unfolding weekday
seasonal_signals target = filter (λ s. weekday s.bucket_start == weekday target)

-- The signals of the last 28 days.
unfoldable pub rolling_signals : ℕ → List Signal → List Signal
rolling_signals cutoff = filter (λ s. leb cutoff s.bucket_start)

unfoldable pub rolling_sample : ℕ → List Signal → Result Sample
rolling_sample target usable = do
  cutoff ← minus_days target rolling_sample_buckets
  ok (record { method = rolling_robust_baseline; signals = rolling_signals cutoff usable })

unfoldable pub method_sample : PrimaryMethod → List Signal → ℕ → Result Sample
unfolding rolling_sample
method_sample PrimaryMethod.rolling usable target = rolling_sample target usable
method_sample PrimaryMethod.seasonal usable target =
    if leb minimum_seasonal_observations (length (seasonal_signals target usable))
    then ok (record { method = seasonal_robust_baseline; signals = seasonal_signals target usable })
    else rolling_sample target usable

-- `minimum`
unfoldable pub minimum_observations : ExpectationMethod → ℕ
minimum_observations m =
    if is_seasonal m then minimum_seasonal_observations else minimum_rolling_observations

-- `history_coverage >= 0.8` is `usable * 10 >= 56 * 8`, and `>= 0.5` is `usable * 2 >= 56`.
unfoldable pub quality_and_confidence :
    ℕ → ℕ → ExpectationMethod → ExpectationDataQuality × Confidence
quality_and_confidence usable_count sample_count method =
    let strong_sample : ℕ = if is_seasonal method then 8 else 14 in
    let medium_sample : ℕ = if is_seasonal method then 6 else 10 in
    if leb (history_buckets * 8) (usable_count * 10) && leb strong_sample sample_count
    then (ExpectationDataQuality.sufficient, Confidence.high)
    else if leb history_buckets (usable_count * 2) && leb medium_sample sample_count
    then (ExpectationDataQuality.sufficient, Confidence.medium)
    else (ExpectationDataQuality.limited, Confidence.low)

length-filter-le : (p : Signal → Bool) (ss : List Signal) → length (filter p ss) ≤ length ss
length-filter-le p [] = omega arith
length-filter-le p (s ∷ ss) = ground (arith, length-filter-le p ss)

length-rolling_signals : (c : ℕ) (ss : List Signal) → length (rolling_signals c ss) ≤ length ss
unfolding rolling_signals
length-rolling_signals c ss = length-filter-le _ ss

length-seasonal_signals : (t : ℕ) (ss : List Signal) → length (seasonal_signals t ss) ≤ length ss
unfolding seasonal_signals
length-seasonal_signals t ss = length-filter-le _ ss

rolling_sample-eq-ok :
    (usable : List Signal) (target : ℕ) {s : Sample}
    → rolling_sample target usable ≡ ok s
    → (s.method ≡ rolling_robust_baseline)
      × (s.signals ≡ rolling_signals (target - rolling_sample_buckets * day) usable)
unfolding rolling_sample minus_days
rolling_sample-eq-ok usable target e = ground arith

-- The seasonal sample: at least four usable signals of the target's day of the week.
pub record IsSeasonalSample (usable : List Signal) (target : ℕ) (s : Sample) : Type 0 where
  pub method : s.method ≡ seasonal_robust_baseline
  pub signals : s.signals ≡ seasonal_signals target usable
  pub enough : minimum_seasonal_observations ≤ length (seasonal_signals target usable)

-- The rolling sample: the usable signals of the 28 days before the target.
pub record IsRollingSample (usable : List Signal) (target : ℕ) (s : Sample) : Type 0 where
  pub method : s.method ≡ rolling_robust_baseline
  pub signals : s.signals ≡ rolling_signals (target - rolling_sample_buckets * day) usable

-- A sample is seasonal or rolling. It is seasonal only under a seasonal policy, and under such a
-- policy rolling only if fewer than four usable signals fall on the target's day of the week.
pub method_sample-eq-ok :
    (p : PrimaryMethod) (usable : List Signal) (target : ℕ) {s : Sample}
    → method_sample p usable target ≡ ok s
    → ((p ≡ PrimaryMethod.seasonal) × IsSeasonalSample usable target s)
      ⊎ (((p ≡ PrimaryMethod.seasonal)
            → length (seasonal_signals target usable) < minimum_seasonal_observations)
          × IsRollingSample usable target s)
unfolding method_sample
method_sample-eq-ok PrimaryMethod.rolling usable target e =
    let (m, g) = rolling_sample-eq-ok usable target e in
    inr ((λ c. cc), record { method = m; signals = g })
method_sample-eq-ok PrimaryMethod.seasonal usable target {s} e =
    elim (Bool-cases
      (leb minimum_seasonal_observations (length (seasonal_signals target usable)))) [
        | inl enough ↦
            inl (
              refl,
              record { method = ground arith; signals = ground arith; enough = ground arith },
            )
        | inr few ↦
            let rolled : rolling_sample target usable ≡ ok s = ground arith in
            let (m, g) = rolling_sample-eq-ok usable target rolled in
            inr ((λ c. ground arith), record { method = m; signals = g })
      ]

-- A sample is no larger than the usable history.
pub method_sample-le :
    (p : PrimaryMethod) (usable : List Signal) (target : ℕ) {s : Sample}
    → method_sample p usable target ≡ ok s
    → length s.signals ≤ length usable
method_sample-le p usable target e = elim (method_sample-eq-ok p usable target e) [
  | inl (_, same_day) ↦ rw same_day.signals (length-seasonal_signals target usable)
  | inr (_, recent) ↦ rw recent.signals (length-rolling_signals _ usable)
]

rolling_sample-eq :
    (usable : List Signal) (target : ℕ)
    → rolling_sample_buckets * day ≤ target
    → rolling_sample target usable
      ≡ ok (record {
        method = rolling_robust_baseline;
        signals = rolling_signals (target - rolling_sample_buckets * day) usable;
      })
unfolding rolling_sample minus_days
rolling_sample-eq usable target h = ground arith

-- From the 28th day of the calendar on there is a sample.
pub method_sample-some :
    (p : PrimaryMethod) (usable : List Signal) (target : ℕ)
    → rolling_sample_buckets * day ≤ target
    → (s : Sample) × (method_sample p usable target ≡ ok s)
unfolding method_sample
method_sample-some PrimaryMethod.rolling usable target h = (_, rolling_sample-eq usable target h)
method_sample-some PrimaryMethod.seasonal usable target h =
    elim (Bool-cases
      (leb minimum_seasonal_observations (length (seasonal_signals target usable)))) [
        | inl enough ↦ (
          record { method = seasonal_robust_baseline; signals = seasonal_signals target usable },
          rw enough,
        )
        | inr few ↦ (
          record {
            method = rolling_robust_baseline;
            signals = rolling_signals (target - rolling_sample_buckets * day) usable;
          },
          rw few (rolling_sample-eq usable target h),
        )
      ]
