-- ===== src/Temporal/Deviations/Verdict.antt =====
-- `_build_assessment` of backend/app/temporal_deviations.py: what an observation, an expectation and
-- a policy decide, given the assessments that support them.
pub mod Laws
pub mod Cases
use openassetwatch.Prelude.{
  ℕ, ◌+◌, ◌-◌, Bool, true, false, not, ◌&&◌, ◌||◌, Option, none, some, List, [], ◌∷◌, ◌++◌, leb,
  ltb, ◌==◌, is_none, if◌then◌else◌, length, any,
}
use openassetwatch.Temporal.Result.{
  Result, ok, err, ErrorCode, projection, assertion, ◌>>=◌, ◌>>◌, raise_if,
}
use openassetwatch.Temporal.Vocabulary.{
  Direction, AssessmentState, ReasonCode, Confidence, is_freshness_stale, is_observed,
  confidence_rank, ◌=q=◌, ◌=d=◌,
}
use openassetwatch.Temporal.Contracts.Signal.{Signal}
use openassetwatch.Temporal.Contracts.Expectation.{Expectation}
use openassetwatch.Temporal.Contracts.Policy.{Policy, is_allowed}
use openassetwatch.Temporal.Contracts.Assessment.{Assessment, Ratio, abs_diff}

-- `_confidence_meets_policy`
unfoldable pub confidence_meets_policy : Confidence → Confidence → Bool
confidence_meets_policy value minimum = leb (confidence_rank minimum) (confidence_rank value)

-- `if test: reasons.append(reason)`
abbrev pub reason_if : Bool → ReasonCode → List ReasonCode → List ReasonCode
reason_if true r rest = r ∷ rest
reason_if false r rest = rest

-- The reasons that block an assessment, in their order.
unfoldable pub blocking_reasons : Signal → Expectation → Policy → List ReasonCode
unfolding confidence_meets_policy
blocking_reasons o e p = reason_if (is_none o.value) ReasonCode.target_observation_unavailable (
    reason_if (not o.complete) ReasonCode.target_observation_incomplete (
      reason_if (is_freshness_stale o.freshness) ReasonCode.target_observation_stale (
        reason_if (not (is_observed o.data_quality)) ReasonCode.target_observation_untrusted_quality
          (reason_if (is_none e.expected || is_none e.lower || is_none e.upper)
            ReasonCode.expectation_range_unavailable
            (reason_if (not (e.data_quality =q= p.required_expectation_data_quality))
              ReasonCode.expectation_quality_below_policy
              (reason_if
                (not (confidence_meets_policy e.confidence p.minimum_expectation_confidence))
                ReasonCode.expectation_confidence_below_policy []))))))

-- The fields that `_build_assessment` computes.
pub record Verdict : Type 0 where
  pub state : AssessmentState
  pub direction : Direction
  pub distance : Option ℕ
  pub relative_change : Option Ratio
  pub persistence : ℕ
  pub candidate : Bool
  pub reasons : List ReasonCode
  pub supporting : List Assessment

abbrev pub blocked_verdict : List ReasonCode → Verdict
blocked_verdict reasons = record {
  state = AssessmentState.blocked;
  direction = Direction.unknown;
  distance = none;
  relative_change = none;
  persistence = 0;
  candidate = false;
  reasons = reasons;
  supporting = [];
}

-- The direction and the distance beyond the bound.
unfoldable pub measured : ℕ → ℕ → ℕ → Direction × ℕ
measured observed low high =
    if ltb observed low
    then (Direction.below, low - observed)
    else if ltb high observed
    then (Direction.above, observed - high)
    else (Direction.inside, 0)

unfoldable pub relative_change_of : ℕ → ℕ → Option Ratio
relative_change_of observed mid =
    if ltb 0 mid
    then some (record { numerator = abs_diff observed mid; denominator = mid })
    else none

-- The verdict of a deviation in an admitted direction.
unfoldable pub persistent_verdict :
    Policy → Direction → ℕ → Option Ratio → List Assessment → Result Verdict
persistent_verdict p direction distance relative supporting =
    raise_if (any (λ s. not (s.direction =d= direction)) supporting)
      (projection ErrorCode.invalid_persistence_direction)
    >> (let persistence : ℕ = 1 + length supporting in
        let candidate : Bool = leb p.required_persistence_buckets persistence in
        ok (record {
          state =
              if candidate then AssessmentState.candidate else AssessmentState.pending_persistence;
          direction = direction;
          distance = some distance;
          relative_change = relative;
          persistence = persistence;
          candidate = candidate;
          reasons =
              (if candidate
                then ReasonCode.deviation_candidate
                else ReasonCode.persistence_requirement_not_met)
              ∷ [];
          supporting = supporting;
        }))

-- A verdict that ends the assessment without persistence.
abbrev pub settled_verdict : AssessmentState → ReasonCode → Direction → ℕ → Option Ratio → Verdict
settled_verdict state reason direction distance relative = record {
  state = state;
  direction = direction;
  distance = some distance;
  relative_change = relative;
  persistence = 0;
  candidate = false;
  reasons = reason ∷ [];
  supporting = [];
}

unfoldable pub evaluated_verdict : Policy → ℕ → ℕ → ℕ → ℕ → List Assessment → Result Verdict
unfolding measured relative_change_of persistent_verdict
evaluated_verdict p observed mid low high supporting =
    let (direction, distance) = measured observed low high in
    let relative : Option Ratio = relative_change_of observed mid in
    if direction =d= Direction.inside
    then ok (
        settled_verdict AssessmentState.within_range ReasonCode.within_expected_range direction
          distance relative)
    else if not (is_allowed direction p.allowed_directions)
    then ok (
        settled_verdict AssessmentState.outside_policy_direction ReasonCode.direction_not_admitted
          direction distance relative)
    else persistent_verdict p direction distance relative supporting

-- The assertions on the values, which hold where no reason blocks.
unfoldable pub asserted_verdict :
    Policy → Option ℕ → Option ℕ → Option ℕ → Option ℕ → List Assessment → Result Verdict
unfolding evaluated_verdict
asserted_verdict p (some observed) (some mid) (some low) (some high) supporting =
    evaluated_verdict p observed mid low high supporting
asserted_verdict p observed mid low high supporting = err assertion

unfoldable pub verdict_for :
    List ReasonCode → Signal → Expectation → Policy → List Assessment → Result Verdict
unfolding asserted_verdict
verdict_for [] o e p supporting = asserted_verdict p o.value e.expected e.lower e.upper supporting
verdict_for (r ∷ rs) o e p supporting = ok (blocked_verdict (r ∷ rs))

unfoldable pub verdict : Signal → Expectation → Policy → List Assessment → Result Verdict
unfolding verdict_for blocking_reasons
verdict o e p supporting = verdict_for (blocking_reasons o e p) o e p supporting
