-- ===== src/Temporal/Deviations/Inputs.antt =====
-- `_validate_request`, `_load_inputs` and `_validate_provenance` of
-- backend/app/temporal_deviations.py. The projection and the expectation service are collaborators,
-- any functions with the interfaces of `series` and `expectation`.
pub mod Loaded
use openassetwatch.Prelude.{
  ℕ, ◌+◌, Bool, true, false, not, ◌&&◌, ◌||◌, String, Option, none, some, List, [], ◌∷◌, leb, ◌==◌,
  ◌=s=◌, is_none, if◌then◌else◌,
}
use openassetwatch.Text.{Text, text_eq}
use openassetwatch.Temporal.Result.{Result, ok, err, ErrorCode, projection, ◌>>=◌, ◌>>◌, raise_if}
use openassetwatch.Temporal.Clock.{Stamp, aware, as_utc, day, floor_day, off_midnight}
use openassetwatch.Temporal.Vocabulary.{◌=o=◌}
use openassetwatch.Temporal.Identity.{Hashing}
use openassetwatch.Temporal.Contracts.Signal.{Signal}
use openassetwatch.Temporal.Contracts.Series.{Series}
use openassetwatch.Temporal.Contracts.Expectation.{Expectation}
use openassetwatch.Temporal.Projection.Signals.{temporal_signal_id}
use openassetwatch.Temporal.Projection.Service.{SeriesRequest, or_now}
use openassetwatch.Temporal.Expectations.Digest.{temporal_expectation_id}
use openassetwatch.Temporal.Expectations.Service.{Projection, ExpectationRequest}
use openassetwatch.Temporal.Deviations.Assess.{Inputs}

-- The arguments of `assessment`.
pub record AssessmentRequest : Type 0 where
  pub metric_key : String
  pub site_id : String
  pub target_start : Stamp
  pub granularity : String
  pub asset_id : Option String
  pub generated_at : Option Stamp

-- `TemporalDeviationService`: its two collaborators.
pub record Collaborators : Type 0 where
  pub project : Projection
  pub estimate : ExpectationRequest → Result Expectation

-- `_validate_request`: the normalised target and the calculation time.
unfoldable pub validate_request : Stamp → Bool → AssessmentRequest → Result (ℕ × ℕ)
validate_request now supports_asset_scope r = do
  raise_if (not (r.granularity =s= "daily")) (projection ErrorCode.unsupported_granularity)
  raise_if (not (is_none r.asset_id) && not supports_asset_scope)
      (projection ErrorCode.unsupported_scope)
  target ← as_utc r.target_start
  raise_if (off_midnight target) (projection ErrorCode.unaligned_target)
  calculation_time ← as_utc (or_now r.generated_at now)
  raise_if (leb (floor_day calculation_time) target) (projection ErrorCode.open_or_future_target)
  ok (target, calculation_time)

-- The observation that is asked for is the target's one bucket, cut off at its end.
unfoldable pub observation_request : AssessmentRequest → ℕ → SeriesRequest
observation_request r target = record {
  metric_key = r.metric_key;
  site_id = r.site_id;
  start = aware target;
  stop = aware (target + day);
  granularity = "daily";
  asset_id = r.asset_id;
  generated_at = some (aware (target + day));
  knowledge_cutoff = some (aware (target + day));
}

unfoldable pub expectation_request : AssessmentRequest → ℕ → ℕ → ExpectationRequest
expectation_request r target generated_at = record {
  metric_key = r.metric_key;
  site_id = r.site_id;
  target_start = aware target;
  granularity = "daily";
  asset_id = r.asset_id;
  generated_at = some (aware generated_at);
}

-- `series.signals[0]` where the series has exactly one bucket
unfoldable pub single_signal : ℕ → List Signal → Result Signal
single_signal bucket_count (s ∷ []) =
    if bucket_count == 1 then ok s else err (projection ErrorCode.invalid_observation_projection)
single_signal bucket_count signals = err (projection ErrorCode.invalid_observation_projection)

-- The observation is the requested bucket's.
unfoldable pub is_observation_of : AssessmentRequest → ℕ → Signal → Bool
is_observation_of r target o =
    o.metric_key =s= r.metric_key
    && o.site_id =s= r.site_id
    && o.asset_id =o= r.asset_id
    && o.bucket_start == target
    && o.bucket_end == target + day

-- The expectation is the requested bucket's, and of the observation's kind. The granularity and the
-- authority have one value each.
unfoldable pub is_expectation_of : AssessmentRequest → ℕ → Signal → Expectation → Bool
is_expectation_of r target o e =
    e.metric_key =s= r.metric_key
    && e.site_id =s= r.site_id
    && e.asset_id =o= r.asset_id
    && e.tenant_id =o= o.tenant_id
    && e.target_bucket_start == target
    && e.target_bucket_end == target + day
    && e.unit =s= o.unit
    && e.projection_version =s= o.projection_version
    && e.knowledge_cutoff == target

-- `_validate_provenance`
unfoldable pub validate_provenance :
    Hashing → AssessmentRequest → ℕ → Signal → Expectation → Result (Unit {0})
unfolding is_observation_of is_expectation_of
validate_provenance h r target o e = do
  raise_if (not (is_observation_of r target o))
      (projection ErrorCode.observation_provenance_mismatch)
  let expected_signal_id =
      temporal_signal_id h r.metric_key r.site_id r.asset_id target (target + day)
        o.projection_version
  raise_if (not (text_eq o.signal_id expected_signal_id))
      (projection ErrorCode.invalid_observation_identity)
  raise_if (not (is_expectation_of r target o e))
      (projection ErrorCode.expectation_provenance_mismatch)
  expected_expectation_id ←
      temporal_expectation_id h e.metric_key e.site_id e.target_bucket_start e.target_bucket_end
        e.history_start e.history_end e.method e.projection_version e.history_digest
  raise_if (not (text_eq e.expectation_id expected_expectation_id))
      (projection ErrorCode.invalid_expectation_identity)

-- `_load_inputs`
unfoldable pub load_inputs : Hashing → Collaborators → AssessmentRequest → ℕ → ℕ → Result Inputs
load_inputs h c r target generated_at = do
  series ← c.project (observation_request r target)
  observation ← single_signal series.bucket_count series.signals
  expectation ← c.estimate (expectation_request r target generated_at)
  validate_provenance h r target observation expectation
  ok (record { observation = observation; expectation = expectation })
