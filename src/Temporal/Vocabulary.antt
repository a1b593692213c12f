-- ===== src/Temporal/Vocabulary.antt =====
-- The literal types of backend/app/temporal_contracts.py, with the equality tests that the code
-- makes on them.
use openassetwatch.Prelude.{
  ℕ, Bool, true, false, ◌==◌, Option, none as nothing, some, ◌=s=◌, String,
}

pub data Granularity : Type 0 where
  daily : Granularity

pub data SignalFreshness : Type 0 where
  current stale unknown : SignalFreshness

pub data SignalDataQuality : Type 0 where
  observed missing incomplete stale : SignalDataQuality

pub data BackfillState : Type 0 where
  live backfilled late_arriving : BackfillState

pub data ExpectationMethod : Type 0 where
  rolling_robust_baseline seasonal_robust_baseline : ExpectationMethod

pub data Confidence : Type 0 where
  none low medium high : Confidence

pub data ExpectationDataQuality : Type 0 where
  insufficient limited sufficient : ExpectationDataQuality

pub data BlockedReason : Type 0 where
  insufficient_usable_history : BlockedReason

pub data PolicyDirection : Type 0 where
  above below : PolicyDirection

pub data Direction : Type 0 where
  inside above below unknown : Direction

pub data AssessmentState : Type 0 where
  blocked within_range outside_policy_direction pending_persistence candidate : AssessmentState

pub data ReasonCode : Type 0 where
  target_observation_unavailable target_observation_incomplete : ReasonCode
  target_observation_stale target_observation_untrusted_quality : ReasonCode
  expectation_range_unavailable expectation_confidence_below_policy : ReasonCode
  expectation_quality_below_policy expectation_provenance_invalid : ReasonCode
  within_expected_range direction_not_admitted : ReasonCode
  persistence_requirement_not_met deviation_candidate : ReasonCode

abbrev pub is_freshness_current : SignalFreshness → Bool
is_freshness_current SignalFreshness.current = true
is_freshness_current _ = false

abbrev pub is_freshness_stale : SignalFreshness → Bool
is_freshness_stale SignalFreshness.stale = true
is_freshness_stale _ = false

abbrev pub is_freshness_unknown : SignalFreshness → Bool
is_freshness_unknown SignalFreshness.unknown = true
is_freshness_unknown _ = false

abbrev pub is_observed : SignalDataQuality → Bool
is_observed SignalDataQuality.observed = true
is_observed _ = false

abbrev pub is_missing : SignalDataQuality → Bool
is_missing SignalDataQuality.missing = true
is_missing _ = false

abbrev pub is_incomplete : SignalDataQuality → Bool
is_incomplete SignalDataQuality.incomplete = true
is_incomplete _ = false

abbrev pub is_stale : SignalDataQuality → Bool
is_stale SignalDataQuality.stale = true
is_stale _ = false

abbrev pub is_late_arriving : BackfillState → Bool
is_late_arriving BackfillState.late_arriving = true
is_late_arriving _ = false

abbrev pub is_seasonal : ExpectationMethod → Bool
is_seasonal ExpectationMethod.seasonal_robust_baseline = true
is_seasonal _ = false

-- `{"none": 0, "low": 1, "medium": 2, "high": 3}`
abbrev pub confidence_rank : Confidence → ℕ
confidence_rank Confidence.none = 0
confidence_rank Confidence.low = 1
confidence_rank Confidence.medium = 2
confidence_rank Confidence.high = 3

abbrev pub is_confidence_none : Confidence → Bool
is_confidence_none c = confidence_rank c == 0

abbrev pub quality_rank : ExpectationDataQuality → ℕ
quality_rank ExpectationDataQuality.insufficient = 0
quality_rank ExpectationDataQuality.limited = 1
quality_rank ExpectationDataQuality.sufficient = 2

infix 50 ◌=q=◌ ◌=d=◌ ◌=r=◌ ◌=o=◌
abbrev pub ◌=q=◌ : ExpectationDataQuality → ExpectationDataQuality → Bool
a =q= b = quality_rank a == quality_rank b

abbrev pub direction_rank : Direction → ℕ
direction_rank Direction.inside = 0
direction_rank Direction.above = 1
direction_rank Direction.below = 2
direction_rank Direction.unknown = 3

abbrev pub ◌=d=◌ : Direction → Direction → Bool
a =d= b = direction_rank a == direction_rank b

-- A policy's direction as an assessment's.
abbrev pub to_direction : PolicyDirection → Direction
to_direction PolicyDirection.above = Direction.above
to_direction PolicyDirection.below = Direction.below

abbrev pub reason_rank : ReasonCode → ℕ
reason_rank ReasonCode.target_observation_unavailable = 0
reason_rank ReasonCode.target_observation_incomplete = 1
reason_rank ReasonCode.target_observation_stale = 2
reason_rank ReasonCode.target_observation_untrusted_quality = 3
reason_rank ReasonCode.expectation_range_unavailable = 4
reason_rank ReasonCode.expectation_confidence_below_policy = 5
reason_rank ReasonCode.expectation_quality_below_policy = 6
reason_rank ReasonCode.expectation_provenance_invalid = 7
reason_rank ReasonCode.within_expected_range = 8
reason_rank ReasonCode.direction_not_admitted = 9
reason_rank ReasonCode.persistence_requirement_not_met = 10
reason_rank ReasonCode.deviation_candidate = 11

abbrev pub ◌=r=◌ : ReasonCode → ReasonCode → Bool
a =r= b = reason_rank a == reason_rank b

-- `a == b` where either may be `None`
abbrev pub ◌=o=◌ : Option String → Option String → Bool
nothing =o= nothing = true
nothing =o= some b = false
some a =o= nothing = false
some a =o= some b = a =s= b
