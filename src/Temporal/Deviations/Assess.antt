-- ===== src/Temporal/Deviations/Assess.antt =====
-- `_build_assessment` of backend/app/temporal_deviations.py as a whole.
pub mod Bounded
pub mod Accepted
pub mod Built
use openassetwatch.Prelude.{ℕ, List, [], ◌∷◌, map}
use openassetwatch.Text.{Text}
use openassetwatch.Temporal.Result.{Result, ok, err, ◌>>=◌, ◌>>◌, construct}
use openassetwatch.Temporal.Identity.{Hashing}
use openassetwatch.Temporal.Contracts.Signal.{Signal}
use openassetwatch.Temporal.Contracts.Expectation.{Expectation}
use openassetwatch.Temporal.Contracts.Policy.{Policy}
use openassetwatch.Temporal.Contracts.Assessment.{Assessment, Authority}
use openassetwatch.Temporal.Contracts.Assessment.Checks.{validate_assessment}
use openassetwatch.Temporal.Deviations.Identity.{
  temporal_observation_digest, temporal_assessment_input_digest, temporal_deviation_assessment_id,
}
use openassetwatch.Temporal.Deviations.Verdict.{Verdict, verdict}
use openassetwatch.Temporal.Deviations.Support.{sorted_assessments, check_support}

-- `_AssessmentInputs`
pub record Inputs : Type 0 where
  pub observation : Signal
  pub expectation : Expectation

abbrev pub ids_of : List Assessment → List Text
ids_of = map (λ a. a.assessment_id)

-- The assessment before its construction is validated.
unfoldable pub assessment_of : Hashing → Inputs → Policy → ℕ → Verdict → Text → Text → Assessment
assessment_of h i p generated_at v input_digest identity =
    let o : Signal = i.observation in
    let e : Expectation = i.expectation in
    record {
      assessment_id = identity;
      input_digest = input_digest;
      metric_key = o.metric_key;
      tenant_id = o.tenant_id;
      site_id = o.site_id;
      asset_id = o.asset_id;
      target_bucket_start = o.bucket_start;
      target_bucket_end = o.bucket_end;
      bucket_granularity = o.bucket_granularity;
      generated_at = generated_at;
      observation_knowledge_cutoff = o.bucket_end;
      signal_id = o.signal_id;
      observation_digest = temporal_observation_digest h o;
      observed_value = o.value;
      observation_unit = o.unit;
      observation_freshness = o.freshness;
      observation_data_quality = o.data_quality;
      observation_complete = o.complete;
      expectation_id = e.expectation_id;
      history_digest = e.history_digest;
      expected = e.expected;
      lower = e.lower;
      upper = e.upper;
      expectation_method = e.method;
      expectation_confidence = e.confidence;
      expectation_data_quality = e.data_quality;
      policy_id = p.policy_id;
      policy_version = p.policy_version;
      allowed_directions = p.allowed_directions;
      required_persistence_buckets = p.required_persistence_buckets;
      direction = v.direction;
      distance_beyond_bound = v.distance;
      relative_change = v.relative_change;
      persistence_observed_buckets = v.persistence;
      supporting_assessment_ids = ids_of v.supporting;
      assessment_state = v.state;
      candidate = v.candidate;
      reason_codes = v.reasons;
      authority = Authority.analytical_investigation_context_only;
    }

unfoldable pub build_assessment :
    Hashing → Inputs → Policy → ℕ → List Assessment → Result Assessment
build_assessment h i p generated_at supporting = do
  let ordered = sorted_assessments supporting
  check_support i.observation p ordered
  v ← verdict i.observation i.expectation p ordered
  input_digest ←
      temporal_assessment_input_digest h (temporal_observation_digest h i.observation) i.expectation
        p (ids_of v.supporting)
  identity ←
      temporal_deviation_assessment_id h input_digest i.observation.metric_key i.observation.site_id
        i.observation.bucket_start i.observation.bucket_end p.policy_version
  construct validate_assessment (assessment_of h i p generated_at v input_digest identity)
