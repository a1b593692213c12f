-- ===== src/Temporal/Contracts/Assessment/Checks.antt =====
-- The validators of `TemporalDeviationAssessment` (backend/app/temporal_contracts.py).
use openassetwatch.Prelude.{
  ℕ, ◌-◌, Bool, true, false, not, ◌&&◌, ◌||◌, Option, none, some, List, [], ◌∷◌, leb, ltb, ◌==◌,
  is_none, length, any, all, if◌then◌else◌,
}
use openassetwatch.Text.{Text, is_hex_of_length, text_eq}
use openassetwatch.Temporal.Result.{Result, ◌>>◌, refuse_if}
use openassetwatch.Temporal.Clock.{off_midnight}
use openassetwatch.Temporal.Vocabulary.{
  ExpectationDataQuality, Direction, AssessmentState, ReasonCode, is_freshness_current, is_observed,
  confidence_rank, ◌=q=◌, ◌=d=◌, ◌=r=◌,
}
use openassetwatch.Temporal.Contracts.Signal.{is_site_id, is_signal_id}
use openassetwatch.Temporal.Contracts.Expectation.{is_expectation_id, spans_days}
use openassetwatch.Temporal.Contracts.Policy.{is_allowed, unique_directions}
use openassetwatch.Temporal.Contracts.Assessment.{
  Ratio, ratio_eq, Assessment, is_assessment_id, abs_diff,
}

-- `len(ids) == len(set(ids))`
unfoldable pub unique_texts : List Text → Bool
unique_texts [] = true
unique_texts (t ∷ ts) = not (any (text_eq t) ts) && unique_texts ts

unfoldable pub unique_reasons : List ReasonCode → Bool
unique_reasons [] = true
unique_reasons (r ∷ rs) = not (any (◌=r=◌ r) rs) && unique_reasons rs

-- The field constraints, and `validate_supporting_ids`.
unfoldable pub check_fields : Assessment → Result (Unit {0})
check_fields a = do
  refuse_if (not (is_assessment_id a.assessment_id)) "assessment_id"
  refuse_if (not (is_hex_of_length 64 a.input_digest)) "input_digest"
  refuse_if (not (is_site_id a.site_id)) "site_id"
  refuse_if (not (is_signal_id a.signal_id)) "signal_id"
  refuse_if (not (is_hex_of_length 64 a.observation_digest)) "observation_digest"
  refuse_if (not (is_expectation_id a.expectation_id)) "expectation_id"
  refuse_if (not (is_hex_of_length 64 a.history_digest)) "history_digest"

unfoldable pub check_bounds : Assessment → Result (Unit {0})
check_bounds a = do
  refuse_if (not (leb 1 (length a.allowed_directions) && leb (length a.allowed_directions) 2))
      "allowed_directions"
  refuse_if (not (leb 1 a.required_persistence_buckets && leb a.required_persistence_buckets 3))
      "required_persistence_buckets"
  refuse_if (not (leb a.persistence_observed_buckets 3)) "persistence_observed_buckets"
  refuse_if (not (leb (length a.supporting_assessment_ids) 2)) "supporting_assessment_ids"
  refuse_if (not (leb 1 (length a.reason_codes) && leb (length a.reason_codes) 8)) "reason_codes"
  refuse_if (not (unique_texts a.supporting_assessment_ids))
      "supporting assessment identifiers must be unique"
  refuse_if (not (all is_assessment_id a.supporting_assessment_ids))
      "supporting assessment identifier is invalid"

-- The checks that hold in every state.
unfoldable pub check_target : Assessment → Result (Unit {0})
check_target a = do
  refuse_if (not (spans_days 1 a.target_bucket_start a.target_bucket_end))
      "deviation assessments must span exactly one UTC day"
  refuse_if
      (off_midnight a.target_bucket_start
        || off_midnight a.target_bucket_end
        || off_midnight a.observation_knowledge_cutoff)
      "deviation boundaries must align to UTC midnight"
  refuse_if (not (a.observation_knowledge_cutoff == a.target_bucket_end))
      "observation cutoff must equal the target bucket end"
  refuse_if (not (unique_directions a.allowed_directions))
      "deviation assessment directions must be unique"
  refuse_if (not (unique_reasons a.reason_codes)) "deviation reason codes must be unique"
  refuse_if
      ((is_none a.expected || is_none a.lower || is_none a.upper)
        && not (is_none a.expected && is_none a.lower && is_none a.upper))
      "assessment expectation values must be all present or absent"

-- `required_reason`
unfoldable pub required_reason : AssessmentState → Option ReasonCode
required_reason AssessmentState.blocked = none
required_reason AssessmentState.within_range = some ReasonCode.within_expected_range
required_reason AssessmentState.outside_policy_direction = some ReasonCode.direction_not_admitted
required_reason AssessmentState.pending_persistence =
    some ReasonCode.persistence_requirement_not_met
required_reason AssessmentState.candidate = some ReasonCode.deviation_candidate

-- membership in `blocked_reasons`
unfoldable pub is_blocked_reason : ReasonCode → Bool
is_blocked_reason ReasonCode.within_expected_range = false
is_blocked_reason ReasonCode.direction_not_admitted = false
is_blocked_reason ReasonCode.persistence_requirement_not_met = false
is_blocked_reason ReasonCode.deviation_candidate = false
is_blocked_reason _ = true

-- `tuple(self.reason_codes) == (required_reason,)`
abbrev pub is_only : ReasonCode → List ReasonCode → Bool
is_only r (x ∷ []) = x =r= r
is_only r _ = false

-- The reason codes against the state: a blocked state has blocking reasons, any other its one reason.
unfoldable pub check_reasons : Option ReasonCode → List ReasonCode → Result (Unit {0})
check_reasons none reasons =
    refuse_if (not (all is_blocked_reason reasons))
      "a blocked assessment contains a non-blocking reason"
check_reasons (some required) reasons = do
  refuse_if (not (any (◌=r=◌ required) reasons))
      "assessment state requires its matching reason code"
  refuse_if (not (is_only required reasons)) "an evaluated assessment requires one state reason"

-- The checks of a blocked assessment, after which the validator returns.
unfoldable pub check_blocked : Assessment → Result (Unit {0})
check_blocked a = do
  refuse_if a.candidate "a blocked assessment cannot be a candidate"
  refuse_if (not (a.direction =d= Direction.unknown) || not (is_none a.distance_beyond_bound))
      "a blocked assessment requires unknown direction and null distance"
  refuse_if (not (is_none a.relative_change)) "a blocked assessment requires null relative change"
  refuse_if
      (not (a.persistence_observed_buckets == 0) || leb 1 (length a.supporting_assessment_ids))
      "a blocked assessment cannot claim persistence support"

-- `calculated_direction`
unfoldable pub calculated_direction : ℕ → ℕ → ℕ → Direction
calculated_direction observed low high =
    if ltb observed low
    then Direction.below
    else if ltb high observed
    then Direction.above
    else Direction.inside

-- `calculated_distance`
unfoldable pub calculated_distance : ℕ → ℕ → ℕ → ℕ
calculated_distance observed low high =
    if ltb observed low then low - observed else if ltb high observed then observed - high else 0

-- The relative change: null when the expected value is zero, and else the quotient.
unfoldable pub relative_change_ok : Option Ratio → ℕ → ℕ → Bool
relative_change_ok none observed mid = mid == 0
relative_change_ok (some r) observed mid =
    not (mid == 0) && ratio_eq r (record { numerator = abs_diff observed mid; denominator = mid })

-- The observation, the expectation and the derived values of an evaluated assessment.
unfoldable pub check_trust : Assessment → Result (Unit {0})
check_trust a = do
  refuse_if
      (not a.observation_complete
        || not (is_freshness_current a.observation_freshness)
        || not (is_observed a.observation_data_quality))
      "an evaluated assessment requires a trustworthy observation"
  refuse_if
      (not (a.expectation_data_quality =q= ExpectationDataQuality.sufficient)
        || not (leb 2 (confidence_rank a.expectation_confidence)))
      "an evaluated assessment requires a trustworthy expectation"

unfoldable pub check_values :
    Option ℕ → Option ℕ → Option ℕ → Option ℕ → Assessment → Result (Unit {0})
check_values (some observed) (some mid) (some low) (some high) a = do
  refuse_if (not (leb low mid && leb mid high))
      "assessment range bounds must contain the expected value"
  check_trust a
  refuse_if (not (a.direction =d= calculated_direction observed low high))
      "assessment direction is inconsistent with its values"
  refuse_if
      (elim a.distance_beyond_bound [
        | none ↦ true
        | some d ↦ not (d == calculated_distance observed low high)
      ])
      "assessment distance is inconsistent with its values"
  refuse_if (not (relative_change_ok a.relative_change observed mid))
      "relative change is inconsistent with its values"
check_values observed mid low high a =
    refuse_if true "an evaluated assessment requires observation and range values"

-- The checks of each evaluated state.
unfoldable pub check_state : AssessmentState → Assessment → Result (Unit {0})
check_state AssessmentState.blocked a = refuse_if true "unsupported deviation assessment state"
check_state AssessmentState.within_range a = do
  refuse_if (not (a.direction =d= Direction.inside) || a.candidate)
      "within-range assessments must be inside and non-candidates"
  refuse_if
      (not (a.persistence_observed_buckets == 0) || leb 1 (length a.supporting_assessment_ids))
      "within-range assessments cannot claim persistence"
check_state AssessmentState.outside_policy_direction a = do
  refuse_if (a.direction =d= Direction.inside || is_allowed a.direction a.allowed_directions)
      "outside-policy-direction must use a disallowed direction"
  refuse_if (a.candidate || not (a.persistence_observed_buckets == 0))
      "a disallowed direction cannot claim candidate persistence"
check_state AssessmentState.pending_persistence a = do
  refuse_if (not (is_allowed a.direction a.allowed_directions) || a.candidate)
      "pending persistence requires an admitted non-candidate direction"
  refuse_if
      (not (
        leb 1 a.persistence_observed_buckets
        && ltb a.persistence_observed_buckets a.required_persistence_buckets))
      "pending persistence count is inconsistent with policy"
check_state AssessmentState.candidate a = do
  refuse_if (not (is_allowed a.direction a.allowed_directions) || not a.candidate)
      "candidate state requires an admitted candidate direction"
  refuse_if (not (a.persistence_observed_buckets == a.required_persistence_buckets))
      "candidate persistence count must meet the policy exactly"

-- An evaluated assessment: its values, its state, and the number of its supporting assessments.
unfoldable pub check_evaluated : Assessment → Result (Unit {0})
check_evaluated a = do
  check_values a.observed_value a.expected a.lower a.upper a
  check_state a.assessment_state a
  refuse_if (not (length a.supporting_assessment_ids == a.persistence_observed_buckets - 1))
      "supporting assessment count is inconsistent with persistence"

-- The construction `TemporalDeviationAssessment(...)`: the fields, then
-- `validate_deviation_consistency`.
unfoldable pub validate_assessment : Assessment → Result (Unit {0})
validate_assessment a = do
  check_fields a
  check_bounds a
  check_target a
  check_reasons (required_reason a.assessment_state) a.reason_codes
  elim a.assessment_state [ AssessmentState.blocked ↦ check_blocked a | _ ↦ check_evaluated a ]
