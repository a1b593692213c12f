-- ===== src/Temporal/Deviations/Service/Supported.antt =====
-- The support of one earlier bucket is admitted, and an assessment with or without it is made
-- (`_build_assessment` of backend/app/temporal_deviations.py).
use openassetwatch.Prelude.{
  ℕ, ◌+◌, ◌-◌, ◌≤◌, ◌≡◌, refl, ap, Option, none, some, String, true, [], ◌∷◌, eq_iff, all, arith,
}
use openassetwatch.Temporal.Result.{ok}
use openassetwatch.Temporal.Clock.{day, minus_days}
use openassetwatch.Temporal.Vocabulary.{Direction, ◌=o=◌}
use openassetwatch.Temporal.Identity.{Hashing}
use openassetwatch.Temporal.Contracts.Signal.{Signal}
use openassetwatch.Temporal.Contracts.Policy.{Policy}
use openassetwatch.Temporal.Contracts.Assessment.{Assessment, is_assessment_id}
use openassetwatch.Temporal.Deviations.Policies.{IsGovernedPolicy}
use openassetwatch.Temporal.Deviations.Verdict.{Verdict, verdict}
use openassetwatch.Temporal.Deviations.Support.{
  insert_assessment, sorted_assessments, is_aligned, check_aligned, check_support,
}
use openassetwatch.Temporal.Deviations.Assess.{Inputs, ids_of, assessment_of, build_assessment}
use openassetwatch.Temporal.Deviations.Assess.Accepted.{IsInputs}
use openassetwatch.Temporal.Deviations.Assess.Built.{
  IsBuilt, build_assessment-some, verdict-alone, verdict-again, verdict-supporting,
  validate_assessment-is_assessment_id,
}
use openassetwatch.Temporal.Deviations.Inputs.{AssessmentRequest}
use openassetwatch.Temporal.Deviations.Inputs.Loaded.{IsScoped}
use openassetwatch.Temporal.Deviations.Service.{persists}

=o=-refl : (a : Option String) → (a =o= a) ≡ true
=o=-refl none = refl
=o=-refl (some a) = ground (arith, eq_iff a a)

-- An assessment that may support one of the next day's bucket.
pub record Supports (h : Hashing) (r : AssessmentRequest) (p : Policy) (target t : ℕ)
    (direction : Direction) (a : Assessment) : Type 0 where
  pub start : ℕ
  pub inputs : Inputs
  pub before : start + day ≡ target
  pub scoped : IsScoped r start inputs.observation
  pub built : IsBuilt h inputs p t [] a
  pub kept : persists direction a ≡ true

module _ (h : Hashing) (r : AssessmentRequest) (p : Policy) (target t : ℕ) where
  check_support-none :
      (o : Signal) → 1 ≤ p.required_persistence_buckets → check_support o p [] ≡ ok tt
  unfolding check_support check_aligned minus_days
  check_support-none o n = ground arith

  Supports-is_aligned :
      (o : Signal) {direction : Direction} {a : Assessment}
      → IsScoped r target o
      → Supports h r p target t direction a
      → is_aligned o p (target - day) a ≡ true
  unfolding is_aligned assessment_of persists
  Supports-is_aligned o {direction} {a} s w =
      let m = w.built.made in
      let x = w.scoped in
      let b = w.before in
      let k = w.kept in
      ground (
        arith,
        s.metric_key,
        s.site_id,
        s.asset_id,
        x.metric_key,
        x.site_id,
        x.asset_id,
        x.bucket_start,
        x.bucket_end,
        =o=-refl r.asset_id,
        eq_iff r.metric_key r.metric_key,
        eq_iff r.site_id r.site_id,
        eq_iff p.policy_id p.policy_id,
        eq_iff p.policy_version p.policy_version,
      )

  check_support-one :
      (o : Signal) {direction : Direction} {a : Assessment}
      → IsScoped r target o
      → 2 ≤ p.required_persistence_buckets
      → Supports h r p target t direction a
      → check_support o p (a ∷ []) ≡ ok tt
  unfolding check_support check_aligned minus_days
  check_support-one o {a = a} s n w =
      let b = w.before in ground (arith, s.bucket_start, Supports-is_aligned o {a = a} s w)

  pub build-alone :
      (i : Inputs)
      → IsInputs i
      → IsGovernedPolicy p
      → (a : Assessment) × (build_assessment h i p t [] ≡ ok a)
  unfolding sorted_assessments
  build-alone i s g =
      let (v, ev) = verdict-alone i.observation i.expectation p in
      let q = g.policy in
      build_assessment-some h i p t [] s g (let n = q.at_least_one in omega arith) refl
        (verdict-supporting i.observation i.expectation p [] ev refl)
        (check_support-none i.observation q.at_least_one) ev

  -- The direction of an assessment made without support is its verdict's.
  verdict-alone-direction :
      (i : Inputs) {a : Assessment}
      → IsBuilt h i p t [] a
      → (v : Verdict) × (verdict i.observation i.expectation p [] ≡ ok v)
        × (a.direction ≡ v.direction)
  unfolding sorted_assessments assessment_of
  verdict-alone-direction i b =
      (b.verdict_made, b.decided, ap (λ (x : Assessment). x.direction) b.made)

  pub build-supported :
      (i : Inputs) {current a : Assessment}
      → IsInputs i
      → IsGovernedPolicy p
      → IsScoped r target i.observation
      → 2 ≤ p.required_persistence_buckets
      → IsBuilt h i p t [] current
      → Supports h r p target t current.direction a
      → (b : Assessment) × (build_assessment h i p t (a ∷ []) ≡ ok b)
  unfolding sorted_assessments insert_assessment persists
  build-supported i {current} {a} s g x n b w =
      let (v, ev, same) = verdict-alone-direction i b in
      let ids : all is_assessment_id (ids_of (a ∷ [])) ≡ true =
        let f = validate_assessment-is_assessment_id a w.built.valid in ground arith in
      let (u, eu) =
        verdict-again i.observation i.expectation p (a ∷ []) ev (let k = w.kept in ground arith) in
      build_assessment-some h i p t (a ∷ []) s g (omega arith) ids
        (verdict-supporting i.observation i.expectation p (a ∷ []) eu ids)
        (check_support-one i.observation x n w) eu
