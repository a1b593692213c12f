-- ===== src/Temporal/Contracts/Assessment.antt =====
-- `TemporalDeviationAssessment` of backend/app/temporal_contracts.py. Values and distances are in
-- millionths; a relative change is a fraction.
pub mod Checks
use openassetwatch.Prelude.{
  ℕ, ◌-◌, ◌*◌, Bool, true, false, not, ◌&&◌, ◌||◌, String, Option, none, some, List, [], ◌∷◌, leb,
  ltb, ◌==◌, is_none, length, any, all, if◌then◌else◌,
}
use openassetwatch.Text.{Text, codes, is_hex_of_length, is_tagged_digest, text_eq}
use openassetwatch.Temporal.Result.{Result, ◌>>◌, refuse_if}
use openassetwatch.Temporal.Clock.{off_midnight}
use openassetwatch.Temporal.Vocabulary.{
  Granularity, SignalFreshness, SignalDataQuality, ExpectationMethod, Confidence,
  ExpectationDataQuality, PolicyDirection, Direction, AssessmentState, ReasonCode,
  is_freshness_current, is_observed, confidence_rank, ◌=q=◌, ◌=d=◌, ◌=r=◌,
}
use openassetwatch.Temporal.Contracts.Signal.{is_site_id, is_signal_id}
use openassetwatch.Temporal.Contracts.Expectation.{is_expectation_id, spans_days}
use openassetwatch.Temporal.Contracts.Policy.{is_allowed, unique_directions}

-- `numerator / denominator`, with a positive denominator
pub record Ratio : Type 0 where
  pub numerator : ℕ
  pub denominator : ℕ

abbrev pub ratio_eq : Ratio → Ratio → Bool
ratio_eq a b = a.numerator * b.denominator == b.numerator * a.denominator

-- "analytical-investigation-context-only", the one value of the literal
pub data Authority : Type 0 where
  analytical_investigation_context_only : Authority

pub record Assessment : Type 0 where
  pub assessment_id : Text
  pub input_digest : Text
  pub metric_key : String
  pub tenant_id : Option String
  pub site_id : String
  pub asset_id : Option String
  pub target_bucket_start : ℕ
  pub target_bucket_end : ℕ
  pub bucket_granularity : Granularity
  pub generated_at : ℕ
  pub observation_knowledge_cutoff : ℕ
  pub signal_id : Text
  pub observation_digest : Text
  pub observed_value : Option ℕ
  pub observation_unit : String
  pub observation_freshness : SignalFreshness
  pub observation_data_quality : SignalDataQuality
  pub observation_complete : Bool
  pub expectation_id : Text
  pub history_digest : Text
  pub expected : Option ℕ
  pub lower : Option ℕ
  pub upper : Option ℕ
  pub expectation_method : ExpectationMethod
  pub expectation_confidence : Confidence
  pub expectation_data_quality : ExpectationDataQuality
  pub policy_id : String
  pub policy_version : String
  pub allowed_directions : List PolicyDirection
  pub required_persistence_buckets : ℕ
  pub direction : Direction
  pub distance_beyond_bound : Option ℕ
  pub relative_change : Option Ratio
  pub persistence_observed_buckets : ℕ
  pub supporting_assessment_ids : List Text
  pub assessment_state : AssessmentState
  pub candidate : Bool
  pub reason_codes : List ReasonCode
  pub authority : Authority

unfoldable pub is_assessment_id : Text → Bool
is_assessment_id = is_tagged_digest (codes "tda_")

-- `abs(a - b)`
abbrev pub abs_diff : ℕ → ℕ → ℕ
abs_diff a b = if ltb a b then b - a else a - b
