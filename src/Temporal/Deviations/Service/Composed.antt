-- ===== src/Temporal/Deviations/Service/Composed.antt =====
-- `TemporalDeviationService.from_projection_store` of backend/app/temporal_deviations.py: the service
-- over the projection and the expectation service of one store.
use openassetwatch.Prelude.{ℕ, ◌-◌, ◌≤◌, ◌≡◌, refl, String, List, [], ◌∷◌, arith}
use openassetwatch.Temporal.Result.{ok, err, Error, ErrorCode, projection, value_error}
use openassetwatch.Temporal.Clock.{Stamp, day}
use openassetwatch.Temporal.Identity.{Hashing}
use openassetwatch.Temporal.Registry.{
  MetricDefinition, find_metric, temporal_metrics, temporal_metric,
}
use openassetwatch.Temporal.Contracts.Assessment.{Assessment}
use openassetwatch.Temporal.Projection.Service.{SeriesRequest, Store, metric_or_unknown, series}
use openassetwatch.Temporal.Projection.Service.Sound.{series-IsSafe}
use openassetwatch.Temporal.Expectations.Service.{
  Projection, ExpectationRequest, accept, expectation,
}
use openassetwatch.Temporal.Expectations.Service.Replay.{expectation-IsGrounded}
use openassetwatch.Temporal.Deviations.Assess.{Inputs}
use openassetwatch.Temporal.Deviations.Inputs.{
  AssessmentRequest, Collaborators, validate_request, load_inputs,
}
use openassetwatch.Temporal.Deviations.Inputs.Loaded.{KeepsContract}
use openassetwatch.Temporal.Deviations.Service.{from_projection_store, assessment}
use openassetwatch.Temporal.Deviations.Service.Total.{assessment-some}

from_projection_store-KeepsContract :
    (h : Hashing) (store : Store) (now : Stamp) → KeepsContract (from_projection_store h store now)
unfolding from_projection_store
from_projection_store-KeepsContract h store now = record {
  signals_valid = λ q {s} e. (series-IsSafe h store now q e).signals_valid;
  expectation_valid =
      λ q {e = x} e. (expectation-IsGrounded h (series h store now) now q e).made.valid;
}

-- Over any store: if the metric is registered, the request passes its checks, the target is not the
-- calendar's first day, and the inputs of the target bucket and of the bucket before it load, then an
-- assessment is returned.
pub from_projection_store-assessment_some :
    (h : Hashing) (store : Store) (r : AssessmentRequest) (now : Stamp) {m : MetricDefinition}
    {target t : ℕ} {i j : Inputs}
    → temporal_metric r.metric_key ≡ ok m
    → validate_request now m.supports_asset_scope r ≡ ok (target, t)
    → day ≤ target
    → load_inputs h (from_projection_store h store now) r target t ≡ ok i
    → load_inputs h (from_projection_store h store now) r (target - day) t ≡ ok j
    → (a : Assessment) × (assessment h (from_projection_store h store now) r now ≡ ok a)
from_projection_store-assessment_some h store r now em ev n el el' =
    assessment-some h (from_projection_store h store now) r now
      (from_projection_store-KeepsContract h store now) em ev n el el'

find_metric-err :
    (key : String) (ms : List MetricDefinition) {x : Error}
    → find_metric key ms ≡ err x
    → find_metric key ms ≡ err (value_error "unknown temporal metric")
unfolding find_metric
find_metric-err key [] q = refl
find_metric-err key (m ∷ ms) {x} q = ground (arith, find_metric-err key ms {x = x})

unknown :
    (key : String) {x : Error}
    → temporal_metric key ≡ err x
    → temporal_metric key ≡ err (value_error "unknown temporal metric")
unfolding temporal_metric
unknown key q = find_metric-err key temporal_metrics q

metric_or_unknown-err :
    (key : String) {x : Error}
    → temporal_metric key ≡ err x
    → metric_or_unknown key ≡ err (projection ErrorCode.unknown_metric)
unfolding metric_or_unknown
metric_or_unknown-err key q = rw (q, metric_or_unknown) refl

-- For a metric key that is not registered, the projection and the expectation service refuse with
-- their error for an unknown metric, whereas the deviation service lets through a plain ValueError.
pub unknown_metric-errors :
    (h : Hashing) (store : Store) (project : Projection) (c : Collaborators) (now : Stamp)
    (s : SeriesRequest) (e : ExpectationRequest) (r : AssessmentRequest) {x y z : Error}
    → temporal_metric s.metric_key ≡ err x
    → temporal_metric e.metric_key ≡ err y
    → temporal_metric r.metric_key ≡ err z
    → (series h store now s ≡ err (projection ErrorCode.unknown_metric))
      × (expectation h project now e ≡ err (projection ErrorCode.unknown_metric))
      × (assessment h c r now ≡ err (value_error "unknown temporal metric"))
unfolding series expectation accept assessment
unknown_metric-errors h store project c now s e r p q u = (
  rw (metric_or_unknown-err s.metric_key p) refl,
  rw (metric_or_unknown-err e.metric_key q) refl,
  rw (unknown r.metric_key u) refl,
)
