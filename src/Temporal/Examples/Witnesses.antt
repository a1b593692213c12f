-- ===== src/Temporal/Examples/Witnesses.antt =====
-- The theorems on the temporal services, at the example store and at small values.

use mathlib.Core.Path.{subst}
use openassetwatch.Prelude.{◌-◌, ◌≡◌, sym, ap, ◌∙◌, true, none, some, arith}
use openassetwatch.Temporal.Result.{ok, is_ok→some}
use openassetwatch.Temporal.Clock.{aware, day}
use openassetwatch.Temporal.Registry.{MetricDefinition, temporal_metric, temporal_metric-IsGoverned}
use openassetwatch.Temporal.Contracts.Expectation.{Expectation}
use openassetwatch.Temporal.Contracts.Series.{Series}
use openassetwatch.Temporal.Contracts.Assessment.{Assessment}
use openassetwatch.Temporal.Projection.Service.{series}
use openassetwatch.Temporal.Projection.Service.Sound.{IsSafe, series-IsSafe}
use openassetwatch.Temporal.Expectations.Service.Total.{expectation-some}
use openassetwatch.Temporal.Expectations.Service.Replay.{
  IsGrounded, expectation-IsGrounded, expectation_replays,
}
use openassetwatch.Temporal.Expectations.Service.Content.{IsAnswered, expectation-IsAnswered}
use openassetwatch.Temporal.Deviations.Assess.{Inputs}
use openassetwatch.Temporal.Deviations.Inputs.{validate_request, load_inputs}
use openassetwatch.Temporal.Deviations.Service.Candidate.{IsCandidate, assessment-IsCandidate}
use openassetwatch.Temporal.Deviations.Service.Composed.{from_projection_store-assessment_some}
use openassetwatch.Temporal.Examples.{
  hashing, store, now, calculation_time, assessment_request, target_start, expectation_query,
  series_query,
}
use openassetwatch.Temporal.Examples.Facts.{
  home_is_site, services, run, is_candidate, expectation_run, all_return-holds, request_passes,
}

answer : (a : Assessment) × (run ≡ ok a)
answer = is_ok→some run (let h = all_return-holds in ground arith)

answer-is_candidate : answer.0.candidate ≡ true
answer-is_candidate = sym (ap is_candidate answer.1) ∙ (let h = all_return-holds in ground arith)

assessment-IsCandidate_example : IsCandidate hashing services assessment_request answer.0
assessment-IsCandidate_example =
    assessment-IsCandidate hashing services assessment_request now answer.1 answer-is_candidate

metric : (m : MetricDefinition) × (temporal_metric assessment_request.metric_key ≡ ok m)
metric = is_ok→some _ (let h = all_return-holds in ground arith)

loaded :
    (i : Inputs) × (load_inputs hashing services assessment_request target_start calculation_time
      ≡ ok i)
loaded = is_ok→some _ (let h = all_return-holds in ground arith)

loaded_before :
    (i : Inputs) × (load_inputs hashing services assessment_request
        (target_start - day)
        calculation_time
      ≡ ok i)
loaded_before = is_ok→some _ (let h = all_return-holds in ground arith)

from_projection_store-assessment_some_example : (a : Assessment) × (run ≡ ok a)
from_projection_store-assessment_some_example =
    from_projection_store-assessment_some hashing store assessment_request now metric.1
      (subst (λ b. validate_request now b assessment_request ≡ ok (target_start, calculation_time))
        (sym (temporal_metric-IsGoverned assessment_request.metric_key metric.1).0.site_scope)
        request_passes)
      (omega arith) loaded.1 loaded_before.1

estimate : (e : Expectation) × (expectation_run now none ≡ ok e)
estimate = is_ok→some _ (let h = all_return-holds in ground arith)

estimate_again : (e : Expectation) × (expectation_run now (some (aware target_start)) ≡ ok e)
estimate_again = is_ok→some _ (let h = all_return-holds in ground arith)

grounded : IsGrounded hashing (series hashing store now) now expectation_query estimate.0
grounded =
    expectation-IsGrounded hashing (series hashing store now) now expectation_query estimate.1

expectation-some_example : (e : Expectation) × (expectation_run now none ≡ ok e)
expectation-some_example =
    expectation-some hashing (series hashing store now) now expectation_query grounded.guarded
      home_is_site grounded.begun grounded.answered
      (series-IsSafe hashing store now _ grounded.answered)

expectation-IsAnswered_example : IsAnswered (series hashing store now) expectation_query estimate.0
expectation-IsAnswered_example =
    expectation-IsAnswered hashing (series hashing store now) now expectation_query estimate.1

expectation_replays_example :
    estimate_again.0 ≡ record estimate.0 { generated_at = estimate_again.0.generated_at }
expectation_replays_example =
    expectation_replays hashing (series hashing store now) now now expectation_query
      (some (aware target_start)) estimate.1 estimate_again.1

response : (s : Series) × (series hashing store now series_query ≡ ok s)
response = is_ok→some _ (let h = all_return-holds in ground arith)

series-IsSafe_example : IsSafe series_query response.0
series-IsSafe_example = series-IsSafe hashing store now series_query response.1
