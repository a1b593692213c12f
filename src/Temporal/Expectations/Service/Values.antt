-- ===== src/Temporal/Expectations/Service/Values.antt =====
-- What the sample decides: the counts of the history, the values of the sample, and the outcome.
use openassetwatch.Prelude.{
  ℕ, ◌+◌, ◌≤◌, ◌<◌, ◌≡◌, refl, ◌⊎◌, Bool, true, false, List, [], ◌∷◌, arith, length, filter,
  count_if, ltb, Bool-cases, inl, inr,
}
use openassetwatch.Temporal.Result.{ok, >>=-eq-ok}
use openassetwatch.Temporal.Vocabulary.{
  is_observed, is_missing, is_incomplete, is_stale, Confidence, ExpectationDataQuality,
  ExpectationMethod,
}
use openassetwatch.Temporal.Contracts.Signal.{Signal}
use openassetwatch.Temporal.Contracts.Expectation.{Expectation, check_range_values}
use openassetwatch.Temporal.Expectations.Range.{Range, robust_expected_range}
use openassetwatch.Temporal.Expectations.Range.Laws.{
  robust_expected_range_bounds, robust_expected_range-some,
}
use openassetwatch.Temporal.Expectations.Samples.{
  PrimaryMethod, Sample, is_usable, usable_signals, seasonal_signals, rolling_signals,
  method_sample, method_sample-eq-ok, minimum_observations, quality_and_confidence,
}
use openassetwatch.Temporal.Expectations.Service.{
  Outcome, blocked_outcome, computed_outcome, sample_values, outcome_of,
}

-- The four qualities partition a history.
pub quality_counts_partition :
    (ss : List Signal)
    → count_if (λ s. is_observed s.data_quality) ss
        + count_if (λ s. is_missing s.data_quality) ss
        + count_if (λ s. is_incomplete s.data_quality) ss
        + count_if (λ s. is_stale s.data_quality) ss
      ≡ length ss
quality_counts_partition [] = omega arith
quality_counts_partition (s ∷ ss) = ground (arith, quality_counts_partition ss)

pub length-usable_signals-le :
    (ss : List Signal) → length (usable_signals ss) ≤ count_if (λ s. is_observed s.data_quality) ss
length-usable_signals-le [] = omega arith
length-usable_signals-le (s ∷ ss) = ground (arith, length-usable_signals-le ss)

abbrev AllUsable : List Signal → Type 0
AllUsable [] = Unit
AllUsable (s ∷ ss) = (is_usable s ≡ true) × AllUsable ss

AllUsable-usable_signals : (ss : List Signal) → AllUsable (usable_signals ss)
AllUsable-usable_signals [] = tt
AllUsable-usable_signals (s ∷ ss) = ground (arith, AllUsable-usable_signals ss)

AllUsable-filter : (p : Signal → Bool) (ss : List Signal) → AllUsable ss → AllUsable (filter p ss)
AllUsable-filter p [] h = tt
AllUsable-filter p (s ∷ ss) h = ground (arith, AllUsable-filter p ss h.1)

length-sample_values : (ss : List Signal) → AllUsable ss → length (sample_values ss) ≡ length ss
unfolding sample_values
length-sample_values [] h = refl
length-sample_values (s ∷ ss) h = ground (arith, length-sample_values ss h.1)

-- Every signal of a sample is usable, so the sample has as many values.
method_sample-AllUsable :
    (p : PrimaryMethod) (history : List Signal) (target : ℕ) {s : Sample}
    → method_sample p (usable_signals history) target ≡ ok s
    → AllUsable s.signals
unfolding seasonal_signals rolling_signals
method_sample-AllUsable p history target e =
    elim (method_sample-eq-ok p (usable_signals history) target e) [
      | inl (_, same_day) ↦
          rw same_day.signals
            (AllUsable-filter _ (usable_signals history) (AllUsable-usable_signals history))
      | inr (_, recent) ↦
          rw recent.signals
            (AllUsable-filter _ (usable_signals history) (AllUsable-usable_signals history))
    ]

pub length-method_sample_values :
    (p : PrimaryMethod) (history : List Signal) (target : ℕ) {s : Sample}
    → method_sample p (usable_signals history) target ≡ ok s
    → length (sample_values s.signals) ≡ length s.signals
length-method_sample_values p history target {s} e =
    length-sample_values s.signals (method_sample-AllUsable p history target e)

quality_and_confidence-some :
    (u n : ℕ) (m : ExpectationMethod)
    → (((quality_and_confidence u n m).0 ≡ ExpectationDataQuality.insufficient) → ⊥)
      × (((quality_and_confidence u n m).1 ≡ Confidence.none) → ⊥)
unfolding quality_and_confidence
quality_and_confidence-some u n m = ((λ e. ground arith), (λ e. ground arith))

-- The outcome of a sample that is large enough.
pub record IsComputed (usable_count : ℕ) (s : Sample) (o : Outcome) : Type 0 where
  pub enough : minimum_observations s.method ≤ length s.signals
  pub range : Range
  pub computed : robust_expected_range (sample_values s.signals) ≡ ok range
  pub outcome : o ≡ computed_outcome usable_count s range

-- The outcome is blocked if the sample is smaller than its method's minimum, and else it is the
-- robust range of the sample's values.
pub outcome_of-eq-ok :
    (usable_count : ℕ) (s : Sample) {o : Outcome}
    → outcome_of usable_count s ≡ ok o
    → ((length s.signals < minimum_observations s.method) × (o ≡ blocked_outcome))
      ⊎ IsComputed usable_count s o
unfolding outcome_of
outcome_of-eq-ok u s {o} e =
    elim (Bool-cases (ltb (length s.signals) (minimum_observations s.method))) [
      | inl few ↦ inl (ground arith, ground arith)
      | inr enough ↦
          let (range, computed, made) =
            >>=-eq-ok (robust_expected_range (sample_values s.signals)) _ (rw enough at e) in
          inr (record { enough = ground arith; range = range; computed = computed; outcome = cc })
    ]

positive :
    (m : ExpectationMethod) (k j : ℕ) → ltb k (minimum_observations m) ≡ false → j ≡ k → 0 < j
unfolding minimum_observations
positive m k j e p = ground arith

-- A sample with as many values as signals has an outcome.
pub outcome_of-some :
    (usable_count : ℕ) (s : Sample)
    → length (sample_values s.signals) ≡ length s.signals
    → (o : Outcome) × (outcome_of usable_count s ≡ ok o)
unfolding outcome_of
outcome_of-some u s n = elim (Bool-cases (ltb (length s.signals) (minimum_observations s.method))) [
  | inl few ↦ (blocked_outcome, rw few)
  | inr enough ↦
      let (range, computed) =
        robust_expected_range-some (sample_values s.signals)
          (positive s.method (length s.signals) (length (sample_values s.signals)) enough n) in
      (computed_outcome u s range, rw (enough, computed))
]

module _ (usable_count : ℕ) (s : Sample) (o : Outcome) (e : Expectation) where
  -- The contract of the range holds of an outcome's fields.
  pub check_range_values-outcome :
      outcome_of usable_count s ≡ ok o
      → e.data_quality ≡ o.data_quality
      → e.confidence ≡ o.confidence
      → e.blocked_reason ≡ o.blocked_reason
      → check_range_values o.expected o.lower o.upper e ≡ ok tt
  unfolding check_range_values computed_outcome
  check_range_values-outcome made q c b = elim (outcome_of-eq-ok usable_count s made) [
    | inl (_, p) ↦ ground arith
    | inr d ↦ ground (
      arith,
      d.outcome,
      robust_expected_range_bounds (sample_values s.signals) {r = d.range} d.computed,
      quality_and_confidence-some usable_count (length s.signals) s.method,
    )
  ]
