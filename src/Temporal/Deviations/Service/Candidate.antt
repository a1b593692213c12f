-- ===== src/Temporal/Deviations/Service/Candidate.antt =====
-- What a candidate of `assessment` (backend/app/temporal_deviations.py) rests on.
use mathlib.Core.Path.{subst, subst₂}
use openassetwatch.Prelude.{
  ℕ, zero, suc, ◌+◌, ◌-◌, ◌≤◌, ◌<◌, ◌≡◌, refl, sym, ap, ◌∙◌, true, List, [], leb, ltb, leb→le,
  length, arith, Bool-cases, inl, inr,
}
use openassetwatch.Temporal.Result.{ok, >>=-eq-ok, raise_if, same_ok}
use openassetwatch.Temporal.Clock.{Stamp}
use openassetwatch.Temporal.Identity.{Hashing}
use openassetwatch.Temporal.Registry.{temporal_metric}
use openassetwatch.Temporal.Contracts.Policy.{Policy, is_allowed}
use openassetwatch.Temporal.Contracts.Assessment.{Assessment}
use openassetwatch.Temporal.Deviations.Policies.{temporal_deviation_policy}
use openassetwatch.Temporal.Deviations.Assess.{Inputs, assessment_of, build_assessment}
use openassetwatch.Temporal.Deviations.Assess.Built.{IsBuilt, build_assessment-IsBuilt}
use openassetwatch.Temporal.Deviations.Inputs.{
  AssessmentRequest, Collaborators, validate_request, load_inputs,
}
use openassetwatch.Temporal.Deviations.Inputs.Loaded.{
  load_inputs-IsLoaded, is_observation_of-IsScoped,
}
use openassetwatch.Temporal.Deviations.Service.{
  is_pending, reversed, collect_prior, settle, assessment,
}
use openassetwatch.Temporal.Deviations.Service.Run.{
  DeviatesBefore, IsBuilt→IsDeviation, collect_prior-run,
}
use openassetwatch.Temporal.Deviations.Service.Directions.{
  length-reversed, length-sorted_assessments, IsBuilt-direction, IsBuilt-persisting,
}

-- What a candidate rests on: the metric's policy admits its direction, and the target bucket and
-- those before it, as many in a row as the policy requires, each deviate in that direction.
pub record IsCandidate (h : Hashing) (c : Collaborators) (r : AssessmentRequest) (a : Assessment)
    : Type 0 where
  pub policy : Policy
  pub governed : temporal_deviation_policy r.metric_key ≡ ok policy
  pub allowed : is_allowed a.direction policy.allowed_directions ≡ true
  pub run :
      (k : ℕ)
      → k < policy.required_persistence_buckets
      → DeviatesBefore h c r policy a.target_bucket_start a.generated_at a.direction k

IsBuilt-fields :
    {h : Hashing} {i : Inputs} {p : Policy} {t : ℕ} {xs : List Assessment} {a : Assessment}
    → IsBuilt h i p t xs a
    → (a.target_bucket_start ≡ i.observation.bucket_start) × (a.generated_at ≡ t)
unfolding assessment_of
IsBuilt-fields b = (
  ap (λ (x : Assessment). x.target_bucket_start) b.made,
  ap (λ (x : Assessment). x.generated_at) b.made,
)

IsBuilt-enough :
    {h : Hashing} {i : Inputs} {p : Policy} {t : ℕ} {xs : List Assessment} {a : Assessment}
    → IsBuilt h i p t xs a
    → a.candidate ≡ true
    → p.required_persistence_buckets ≤ 1 + length xs
IsBuilt-enough {p = p} {xs = xs} b y =
    let (_, _, candidate) = IsBuilt→IsDeviation b (IsBuilt-persisting b y) in
    leb→le p.required_persistence_buckets (1 + length xs) (
      subst (λ n. leb p.required_persistence_buckets (1 + n) ≡ true) (length-sorted_assessments xs)
        (sym candidate ∙ y))

module _ (h : Hashing) (c : Collaborators) (r : AssessmentRequest) where
  -- From the run before the target, and the target itself, to the whole run.
  whole-run :
      (p : Policy) (target t : ℕ) {i : Inputs} {supporting : List Assessment} {a : Assessment}
      → load_inputs h c r target t ≡ ok i
      → ((k : ℕ) → k < length supporting → DeviatesBefore h c r p target t a.direction (1 + k))
      → IsBuilt h i p t supporting a
      → a.candidate ≡ true
      → (k : ℕ) → k < p.required_persistence_buckets
      → DeviatesBefore h c r p target t a.direction k
  whole-run p target t {i} el before b y zero n = record {
    start = target;
    before = omega arith;
    on = record {
      inputs = i;
      loaded = el;
      deviates = (IsBuilt→IsDeviation b (IsBuilt-persisting b y)).0;
    };
  }
  whole-run p target t {a = a} el before b y (suc k) n =
      subst (λ j. DeviatesBefore h c r p target t a.direction j) (omega arith)
        (before k (let e = IsBuilt-enough b y in omega arith))

  settle-run :
      (p : Policy) (target t : ℕ) {i : Inputs} {current a : Assessment}
      → load_inputs h c r target t ≡ ok i
      → IsBuilt h i p t [] current
      → settle h c r p target t i current ≡ ok a
      → a.candidate ≡ true
      → (supporting : List Assessment) × IsBuilt h i p t supporting a
        × ((k : ℕ) → k < length supporting → DeviatesBefore h c r p target t a.direction (1 + k))
  unfolding settle
  settle-run p target t {i} {current} {a} el b q y =
      elim (Bool-cases (is_pending current.assessment_state)) [
        | inr s ↦
            let same : current ≡ a = same_ok refl (rw s at q) in
            ([], subst (λ x. IsBuilt h i p t [] x) same b, λ k n. absurd (omega arith))
        | inl s ↦
            let (_, _, q1) =
              >>=-eq-ok (raise_if (ltb p.maximum_persistence_lookback _) _) _ (rw s at q) in
            let (found, ec, q2) =
              >>=-eq-ok
                (collect_prior h c r p target t current.direction
                  (p.required_persistence_buckets - 1) 1)
                _ q1 in
            let built = build_assessment-IsBuilt h i p t (reversed found) q2 in
            (
              reversed found,
              built,
              λ k n.
                  subst (λ d. DeviatesBefore h c r p target t d (1 + k))
                    (sym (IsBuilt-direction b built))
                    (collect_prior-run h c r p target t current.direction _ 1 ec k
                      (let l = length-reversed found in omega arith)),
            )
      ]

  -- If an assessment that is returned is a candidate, then the metric's policy admits its direction,
  -- and the target bucket and those just before it, as many in a row as the policy requires, each had
  -- a trusted value beyond the bound of that direction in the expected range of their own.
  pub assessment-IsCandidate :
      (now : Stamp) {a : Assessment}
      → assessment h c r now ≡ ok a
      → a.candidate ≡ true
      → IsCandidate h c r a
  unfolding assessment
  assessment-IsCandidate now {a} q y =
      let (m, _, q1) = >>=-eq-ok (temporal_metric r.metric_key) _ q in
      let (p, governed, q2) = >>=-eq-ok (temporal_deviation_policy r.metric_key) _ q1 in
      let ((target, t), _, q3) = >>=-eq-ok (validate_request now m.supports_asset_scope r) _ q2 in
      let (i, el, q4) = >>=-eq-ok (load_inputs h c r target t) _ q3 in
      let (current, ec, q5) = >>=-eq-ok (build_assessment h i p t []) _ q4 in
      let (supporting, built, before) =
        settle-run p target t el (build_assessment-IsBuilt h i p t [] ec) q5 y in
      let (starts, made_at) = IsBuilt-fields built in
      let begun =
        (is_observation_of-IsScoped r target i.observation
          (load_inputs-IsLoaded h c r target t el).observed).bucket_start in
      record {
        policy = p;
        governed = governed;
        allowed = (IsBuilt→IsDeviation built (IsBuilt-persisting built y)).1;
        run = λ k n.
            subst₂ (λ x g. DeviatesBefore h c r p x g a.direction k) (sym (starts ∙ begun))
              (sym made_at) (whole-run p target t el before built y k n);
      }
