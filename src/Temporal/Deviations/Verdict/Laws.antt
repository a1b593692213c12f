-- ===== src/Temporal/Deviations/Verdict/Laws.antt =====
-- What a verdict of `_build_assessment` (backend/app/temporal_deviations.py) is made for.
use openassetwatch.Prelude.{
  ℕ, ◌≤◌, ◌≡◌, refl, ◌↔◌, Bool, true, false, Option, none, some, List, [], is_none, length, all,
  arith,
}
use openassetwatch.Temporal.Result.{ok}
use openassetwatch.Temporal.Vocabulary.{
  ReasonCode, SignalDataQuality, confidence_rank, ◌=q=◌, ExpectationDataQuality,
}
use openassetwatch.Temporal.Contracts.Signal.{Signal, validate_signal, check_quality}
use openassetwatch.Temporal.Contracts.Expectation.{Expectation}
use openassetwatch.Temporal.Contracts.Policy.{Policy}
use openassetwatch.Temporal.Contracts.Assessment.Checks.{unique_reasons, is_blocked_reason}
use openassetwatch.Temporal.Deviations.Verdict.{
  blocking_reasons, confidence_meets_policy, reason_if,
}

-- What a list of blocking reasons satisfies.
pub record IsBlocking (rs : List ReasonCode) : Type 0 where
  pub few : length rs ≤ 7
  pub unique : unique_reasons rs ≡ true
  pub blocking : all is_blocked_reason rs ≡ true

reason_if-IsBlocking :
    (a b c d e f g : Bool)
    → IsBlocking (
        reason_if a ReasonCode.target_observation_unavailable (
          reason_if b ReasonCode.target_observation_incomplete (
            reason_if c ReasonCode.target_observation_stale (
              reason_if d ReasonCode.target_observation_untrusted_quality (
                reason_if e ReasonCode.expectation_range_unavailable (
                  reason_if f ReasonCode.expectation_quality_below_policy
                    (reason_if g ReasonCode.expectation_confidence_below_policy [])))))))
unfolding unique_reasons is_blocked_reason
reason_if-IsBlocking a b c d e f g = ground arith

pub blocking_reasons-IsBlocking :
    (o : Signal) (e : Expectation) (p : Policy) → IsBlocking (blocking_reasons o e p)
unfolding blocking_reasons
blocking_reasons-IsBlocking o e p = reason_if-IsBlocking _ _ _ _ _ _ _

-- An observation and an expectation that an assessment may rest on: an observed value, and a range of
-- the policy's quality with at least its confidence.
pub record IsTrusted (o : Signal) (e : Expectation) (p : Policy) : Type 0 where
  pub value : ℕ
  pub mid : ℕ
  pub low : ℕ
  pub high : ℕ
  pub observed : o.data_quality ≡ SignalDataQuality.observed
  pub measures : o.value ≡ some value
  pub expects : e.expected ≡ some mid
  pub from_low : e.lower ≡ some low
  pub to_high : e.upper ≡ some high
  pub sufficient : e.data_quality ≡ p.required_expectation_data_quality
  pub confident : confidence_rank p.minimum_expectation_confidence ≤ confidence_rank e.confidence

=q=→eq : (a b : ExpectationDataQuality) → (a =q= b) ≡ true → a ≡ b
=q=→eq a b h = ground arith

present : (a : Option ℕ) → is_none a ≡ false → (v : ℕ) × (a ≡ some v)
present none h = cc
present (some v) h = (v, refl)

pub unblocked→IsTrusted :
    (o : Signal) (e : Expectation) (p : Policy) → blocking_reasons o e p ≡ [] → IsTrusted o e p
unfolding blocking_reasons confidence_meets_policy
unblocked→IsTrusted o e p h =
    let (value, measures) = present o.value (ground arith) in
    let (mid, expects) = present e.expected (ground arith) in
    let (low, from_low) = present e.lower (ground arith) in
    let (high, to_high) = present e.upper (ground arith) in
    record {
      value = value;
      mid = mid;
      low = low;
      high = high;
      observed = ground arith;
      measures = measures;
      expects = expects;
      from_low = from_low;
      to_high = to_high;
      sufficient = =q=→eq _ _ (ground arith);
      confident = ground arith;
    }

IsTrusted→unblocked :
    (o : Signal) (e : Expectation) (p : Policy)
    → validate_signal o ≡ ok tt
    → IsTrusted o e p
    → blocking_reasons o e p ≡ []
unfolding blocking_reasons confidence_meets_policy validate_signal check_quality
IsTrusted→unblocked o e p v t =
    ground
      (arith, t.observed, t.measures, t.expects, t.from_low, t.to_high, t.sufficient, t.confident)

-- For an observation that its contract accepts, nothing blocks an assessment exactly when the
-- observation is of observed quality with a value, and the expectation has a range, the policy's
-- quality and at least the policy's confidence.
pub blocking_reasons-eq-nil_iff :
    (o : Signal) (e : Expectation) (p : Policy)
    → validate_signal o ≡ ok tt
    → (blocking_reasons o e p ≡ []) ↔ IsTrusted o e p
blocking_reasons-eq-nil_iff o e p v = (unblocked→IsTrusted o e p, IsTrusted→unblocked o e p v)
