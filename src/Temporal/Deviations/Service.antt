-- ===== src/Temporal/Deviations/Service.antt =====
-- `TemporalDeviationService.assessment` of backend/app/temporal_deviations.py.
pub mod Directions
pub mod Supported
pub mod Run
pub mod Candidate
pub mod Total
pub mod Composed
use openassetwatch.Prelude.{
  ℕ, zero, suc, ◌+◌, ◌-◌, Bool, true, false, ◌&&◌, List, [], ◌∷◌, ◌++◌, ltb, if◌then◌else◌,
}
use openassetwatch.Temporal.Result.{Result, ok, err, ErrorCode, projection, ◌>>=◌, ◌>>◌, raise_if}
use openassetwatch.Temporal.Clock.{Stamp, minus_days}
use openassetwatch.Temporal.Vocabulary.{AssessmentState, Direction, ◌=d=◌}
use openassetwatch.Temporal.Identity.{Hashing}
use openassetwatch.Temporal.Registry.{temporal_metric}
use openassetwatch.Temporal.Contracts.Policy.{Policy}
use openassetwatch.Temporal.Contracts.Assessment.{Assessment}
use openassetwatch.Temporal.Projection.Service.{Store, series}
use openassetwatch.Temporal.Expectations.Service.{expectation}
use openassetwatch.Temporal.Deviations.Policies.{temporal_deviation_policy}
use openassetwatch.Temporal.Deviations.Support.{is_persisting}
use openassetwatch.Temporal.Deviations.Assess.{Inputs, build_assessment}
use openassetwatch.Temporal.Deviations.Inputs.{
  AssessmentRequest, Collaborators, validate_request, load_inputs,
}

-- `from_projection_store`, where the clock says `now`
unfoldable pub from_projection_store : Hashing → Store → Stamp → Collaborators
from_projection_store h store now = record {
  project = series h store now;
  estimate = expectation h (series h store now) now;
}

abbrev pub is_pending : AssessmentState → Bool
is_pending AssessmentState.pending_persistence = true
is_pending _ = false

-- The earlier assessment keeps up the deviation: the loop goes on.
unfoldable pub persists : Direction → Assessment → Bool
persists direction prior = is_persisting prior.assessment_state && prior.direction =d= direction

-- `reversed(...)`
unfoldable pub reversed : List Assessment → List Assessment
reversed [] = []
reversed (a ∷ rest) = reversed rest ++ a ∷ []

module _ (h : Hashing) (c : Collaborators) (r : AssessmentRequest) where
  -- The assessment of one bucket by itself.
  unfoldable pub assess_alone : Policy → ℕ → ℕ → Result Assessment
  assess_alone p target generated_at = do
    inputs ← load_inputs h c r target generated_at
    build_assessment h inputs p generated_at []

  -- `for offset in range(1, required)` from an offset on, with the number of turns left: the
  -- assessments it appends, the latest bucket first.
  unfoldable pub collect_prior :
      Policy → ℕ → ℕ → Direction → (turns offset : ℕ) → Result (List Assessment)
  collect_prior p target generated_at direction zero offset = ok []
  collect_prior p target generated_at direction (suc turns) offset = do
    prior_target ← minus_days target offset
    prior ← assess_alone p prior_target generated_at
    if persists direction prior
        then (do
          rest ← collect_prior p target generated_at direction turns (suc offset)
          ok (prior ∷ rest))
        else ok []

  -- What follows the assessment of the target by itself.
  unfoldable pub settle : Policy → ℕ → ℕ → Inputs → Assessment → Result Assessment
  unfolding reversed
  settle p target generated_at inputs current =
      if is_pending current.assessment_state
      then (do
        raise_if (ltb p.maximum_persistence_lookback p.required_persistence_buckets)
            (projection ErrorCode.invalid_deviation_policy)
        found ←
            collect_prior p target generated_at current.direction
              (p.required_persistence_buckets - 1) 1
        build_assessment h inputs p generated_at (reversed found))
      else ok current

  unfoldable pub assessment : Stamp → Result Assessment
  assessment now = do
    metric ← temporal_metric r.metric_key
    p ← temporal_deviation_policy r.metric_key
    (target, calculation_time) ← validate_request now metric.supports_asset_scope r
    inputs ← load_inputs h c r target calculation_time
    current ← build_assessment h inputs p calculation_time []
    settle p target calculation_time inputs current
