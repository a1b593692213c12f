-- ===== src/Temporal/Deviations/Inputs/Loaded.antt =====
-- What inputs that `_load_inputs` (backend/app/temporal_deviations.py) returned rest on.
use mathlib.Core.Path.{subst}
use openassetwatch.Prelude.{
  ℕ, ◌+◌, ◌≡◌, refl, ap, String, Option, none, some, true, List, [], ◌∷◌, eq_iff, arith,
}
use openassetwatch.Temporal.Result.{ok, >>=-eq-ok, same_ok}
use openassetwatch.Temporal.Clock.{day}
use openassetwatch.Temporal.Vocabulary.{◌=o=◌}
use openassetwatch.Temporal.Identity.{Hashing}
use openassetwatch.Temporal.Contracts.Signal.{Signal, AllValid, validate_signal}
use openassetwatch.Temporal.Contracts.Series.{Series}
use openassetwatch.Temporal.Contracts.Expectation.{Expectation, validate_expectation}
use openassetwatch.Temporal.Projection.Service.{SeriesRequest}
use openassetwatch.Temporal.Expectations.Service.{ExpectationRequest}
use openassetwatch.Temporal.Deviations.Assess.{Inputs}
use openassetwatch.Temporal.Deviations.Assess.Accepted.{IsInputs}
use openassetwatch.Temporal.Deviations.Inputs.{
  AssessmentRequest, Collaborators, observation_request, expectation_request, single_signal,
  is_observation_of, validate_provenance, load_inputs,
}

-- The collaborators answer only with values that their contracts accept.
pub record KeepsContract (c : Collaborators) : Type 0 where
  pub signals_valid : (q : SeriesRequest) {s : Series} → c.project q ≡ ok s → AllValid s.signals
  pub expectation_valid :
      (q : ExpectationRequest) {e : Expectation}
      → c.estimate q ≡ ok e
      → validate_expectation e ≡ ok tt

pub record IsLoaded (h : Hashing) (c : Collaborators) (r : AssessmentRequest)
    (target generated_at : ℕ) (i : Inputs) : Type 0 where
  pub series : Series
  pub answered : c.project (observation_request r target) ≡ ok series
  pub single : single_signal series.bucket_count series.signals ≡ ok i.observation
  pub estimated : c.estimate (expectation_request r target generated_at) ≡ ok i.expectation
  pub observed : is_observation_of r target i.observation ≡ true

pub load_inputs-IsLoaded :
    (h : Hashing) (c : Collaborators) (r : AssessmentRequest) (target generated_at : ℕ) {i : Inputs}
    → load_inputs h c r target generated_at ≡ ok i
    → IsLoaded h c r target generated_at i
unfolding load_inputs validate_provenance
load_inputs-IsLoaded h c r target generated_at {i} q =
    let (s, answered, q1) = >>=-eq-ok (c.project (observation_request r target)) _ q in
    let (o, single, q2) = >>=-eq-ok (single_signal s.bucket_count s.signals) _ q1 in
    let (e, estimated, q3) =
      >>=-eq-ok (c.estimate (expectation_request r target generated_at)) _ q2 in
    let (_, provenance, q4) = >>=-eq-ok (validate_provenance h r target o e) _ q3 in
    let same : record { observation = o; expectation = e } ≡ i = same_ok refl q4 in
    let observed : is_observation_of r target o ≡ true = ground arith in
    record {
      series = s;
      answered = answered;
      single =
          subst (λ x. single_signal s.bucket_count s.signals ≡ ok x)
            (ap (λ (x : Inputs). x.observation) same) single;
      estimated =
          subst (λ x. c.estimate (expectation_request r target generated_at) ≡ ok x)
            (ap (λ (x : Inputs). x.expectation) same) estimated;
      observed =
          subst (λ x. is_observation_of r target x ≡ true) (ap (λ (x : Inputs). x.observation) same)
            observed;
    }

single_signal-valid :
    (n : ℕ) (signals : List Signal) {s : Signal}
    → single_signal n signals ≡ ok s
    → AllValid signals
    → validate_signal s ≡ ok tt
unfolding single_signal
single_signal-valid n [] q v = absurd (ground arith)
single_signal-valid n (s ∷ []) q v = ground (arith, v.0)
single_signal-valid n (s ∷ t ∷ rest) q v = absurd (ground arith)

pub IsLoaded→IsInputs :
    {h : Hashing} {c : Collaborators} {r : AssessmentRequest} {target generated_at : ℕ} {i : Inputs}
    → KeepsContract c
    → IsLoaded h c r target generated_at i
    → IsInputs i
IsLoaded→IsInputs {r = r} {target = target} {generated_at = generated_at} k l = record {
  signal_valid =
      single_signal-valid l.series.bucket_count l.series.signals l.single
        (k.signals_valid (observation_request r target) l.answered);
  expectation_valid = k.expectation_valid (expectation_request r target generated_at) l.estimated;
}

=o=→eq : (a b : Option String) → (a =o= b) ≡ true → a ≡ b
=o=→eq none none h = refl
=o=→eq none (some b) h = cc
=o=→eq (some a) none h = cc
=o=→eq (some a) (some b) h = ground (arith, eq_iff a b)

-- The fields by which a supporting assessment is matched.
pub record IsScoped (r : AssessmentRequest) (target : ℕ) (o : Signal) : Type 0 where
  pub metric_key : o.metric_key ≡ r.metric_key
  pub site_id : o.site_id ≡ r.site_id
  pub asset_id : o.asset_id ≡ r.asset_id
  pub bucket_start : o.bucket_start ≡ target
  pub bucket_end : o.bucket_end ≡ target + day

pub is_observation_of-IsScoped :
    (r : AssessmentRequest) (target : ℕ) (o : Signal)
    → is_observation_of r target o ≡ true
    → IsScoped r target o
unfolding is_observation_of
is_observation_of-IsScoped r target o q = record {
  metric_key = ground (arith, eq_iff o.metric_key r.metric_key);
  site_id = ground (arith, eq_iff o.site_id r.site_id);
  asset_id = =o=→eq o.asset_id r.asset_id (ground arith);
  bucket_start = ground arith;
  bucket_end = ground arith;
}
