-- ===== src/Temporal/Contracts/Policy.antt =====
-- `TemporalDeviationPolicy` of backend/app/temporal_contracts.py. The granularity and the scope have
-- one value each.
use openassetwatch.Prelude.{
  ℕ, ◌≤◌, ◌≡◌, Bool, true, not, ◌&&◌, String, List, [], ◌∷◌, leb, ltb, ◌==◌, length, any,
}
use openassetwatch.Temporal.Result.{Result, ◌>>◌, refuse_if}
use openassetwatch.Temporal.Vocabulary.{
  PolicyDirection, Direction, Confidence, ExpectationDataQuality, confidence_rank, to_direction,
  ◌=q=◌, ◌=d=◌,
}

pub record Policy : Type 0 where
  pub policy_id : String
  pub policy_version : String
  pub metric_key : String
  pub allowed_directions : List PolicyDirection
  pub minimum_expectation_confidence : Confidence
  pub required_expectation_data_quality : ExpectationDataQuality
  pub required_persistence_buckets : ℕ
  pub maximum_persistence_lookback : ℕ

-- `direction in allowed_directions`
unfoldable pub is_allowed : Direction → List PolicyDirection → Bool
is_allowed d = any (λ p. d =d= to_direction p)

-- `len(directions) == len(set(directions))`
unfoldable pub unique_directions : List PolicyDirection → Bool
unfolding is_allowed
unique_directions [] = true
unique_directions (p ∷ ps) = not (is_allowed (to_direction p) ps) && unique_directions ps

-- The construction `TemporalDeviationPolicy(...)`: the fields, then `validate_policy`.
unfoldable pub validate_policy : Policy → Result (Unit {0})
unfolding unique_directions
validate_policy p = do
  refuse_if (not (leb 1 (length p.allowed_directions) && leb (length p.allowed_directions) 2))
      "allowed_directions"
  refuse_if (not (confidence_rank p.minimum_expectation_confidence == 2))
      "minimum_expectation_confidence"
  refuse_if (not (p.required_expectation_data_quality =q= ExpectationDataQuality.sufficient))
      "required_expectation_data_quality"
  refuse_if (not (leb 1 p.required_persistence_buckets && leb p.required_persistence_buckets 3))
      "required_persistence_buckets"
  refuse_if (not (leb 1 p.maximum_persistence_lookback && leb p.maximum_persistence_lookback 3))
      "maximum_persistence_lookback"
  refuse_if (not (unique_directions p.allowed_directions))
      "deviation policy directions must be unique"
  refuse_if (ltb p.maximum_persistence_lookback p.required_persistence_buckets)
      "deviation persistence cannot exceed its bounded lookback"

-- What a constructed policy satisfies.
pub record IsPolicy (p : Policy) : Type 0 where
  pub medium : p.minimum_expectation_confidence ≡ Confidence.medium
  pub sufficient : p.required_expectation_data_quality ≡ ExpectationDataQuality.sufficient
  pub at_least_one : 1 ≤ p.required_persistence_buckets
  pub at_most_three : p.required_persistence_buckets ≤ 3
  pub within_lookback : p.required_persistence_buckets ≤ p.maximum_persistence_lookback
  pub some_direction : 1 ≤ length p.allowed_directions
  pub at_most_two : length p.allowed_directions ≤ 2
  pub unique : unique_directions p.allowed_directions ≡ true
