-- ===== src/Temporal/Deviations/Assess/Accepted.antt =====
-- The contract of an assessment (backend/app/temporal_contracts.py) accepts what `_build_assessment`
-- (backend/app/temporal_deviations.py) makes of inputs that their own contracts accept.
use openassetwatch.Prelude.{
  ℕ, ◌+◌, ◌≤◌, ◌≡◌, ◌≢◌, refl, inl, inr, true, List, ==-refl, length, length-map, all, arith,
}
use openassetwatch.Text.{Text, is_hex_of_length}
use openassetwatch.Temporal.Result.{ok}
use openassetwatch.Temporal.Vocabulary.{AssessmentState}
use openassetwatch.Temporal.Identity.{Hashing}
use openassetwatch.Temporal.Contracts.Signal.{validate_signal, check_quality, check_bucket}
use openassetwatch.Temporal.Contracts.Expectation.{validate_expectation, check_range_values}
use openassetwatch.Temporal.Contracts.Policy.{Policy, IsPolicy}
use openassetwatch.Temporal.Contracts.Assessment.{Assessment, is_assessment_id}
use openassetwatch.Temporal.Contracts.Assessment.Checks.{
  check_fields, check_bounds, check_target, check_blocked, calculated_distance, check_trust,
  check_values, check_state, check_evaluated, validate_assessment,
}
use openassetwatch.Temporal.Deviations.Policies.{IsGovernedPolicy}
use openassetwatch.Temporal.Deviations.Identity.{temporal_observation_digest_form}
use openassetwatch.Temporal.Deviations.Verdict.{
  Verdict, evaluated_verdict, measured, persistent_verdict, verdict,
}
use openassetwatch.Temporal.Deviations.Verdict.Laws.{IsTrusted}
use openassetwatch.Temporal.Deviations.Verdict.Cases.{IsBlockedBy, IsEvaluated, verdict-eq-ok}
use openassetwatch.Temporal.Deviations.Assess.{Inputs, assessment_of, ids_of}
use openassetwatch.Temporal.Deviations.Assess.Bounded.{
  IsBounded, unique-short, IsBlockedBy→IsBounded, IsEvaluated→IsBounded, evaluated-values,
}

-- The inputs, each accepted by its contract.
pub record IsInputs (i : Inputs) : Type 0 where
  pub signal_valid : validate_signal i.observation ≡ ok tt
  pub expectation_valid : validate_expectation i.expectation ≡ ok tt

module _ (h : Hashing) (i : Inputs) (p : Policy) (generated_at : ℕ) (v : Verdict)
    (input_digest identity : Text) where
  abbrev made : Assessment
  made = assessment_of h i p generated_at v input_digest identity

  made-check_fields :
      IsInputs i
      → is_hex_of_length 64 input_digest ≡ true
      → is_assessment_id identity ≡ true
      → check_fields made ≡ ok tt
  unfolding check_fields assessment_of validate_signal validate_expectation
  made-check_fields s d f =
      let o = s.signal_valid in
      let e = s.expectation_valid in
      ground (arith, temporal_observation_digest_form h i.observation)

  made-check_bounds : IsGovernedPolicy p → IsBounded p v → check_bounds made ≡ ok tt
  unfolding check_bounds assessment_of
  made-check_bounds g b =
      let q = g.policy in
      ground (
        arith,
        g.at_most_two_buckets,
        q.at_least_one,
        q.some_direction,
        q.at_most_two,
        b.persistence,
        b.supporting,
        b.some_reason,
        b.few_reasons,
        b.identified,
        length-map v.supporting (λ (a : Assessment). a.assessment_id),
        unique-short (ids_of v.supporting),
      )

  made-check_target : IsInputs i → IsPolicy p → IsBounded p v → check_target made ≡ ok tt
  unfolding check_target assessment_of validate_signal validate_expectation check_bucket
      check_range_values
  made-check_target s g b =
      let o = s.signal_valid in let e = s.expectation_valid in ground (arith, g.unique, b.unique)

  made-check_blocked : IsBlockedBy i.observation i.expectation p v → check_blocked made ≡ ok tt
  unfolding check_blocked assessment_of
  made-check_blocked b = rw b.blocked refl

  made-check_trust :
      IsInputs i → IsPolicy p → IsTrusted i.observation i.expectation p → check_trust made ≡ ok tt
  unfolding check_trust assessment_of validate_signal check_quality
  made-check_trust s g t =
      let o = s.signal_valid in
      ground (arith, t.observed, t.sufficient, t.confident, g.medium, g.sufficient)

  made-check_values :
      (supporting : List Assessment)
      → IsInputs i
      → IsPolicy p
      → IsEvaluated i.observation i.expectation p supporting v
      → check_values made.observed_value made.expected made.lower made.upper made ≡ ok tt
  unfolding check_values assessment_of validate_expectation check_range_values
  made-check_values supporting s g w =
      let t = w.trusted in
      let e = s.expectation_valid in
      let x = evaluated-values p t.value t.mid t.low t.high supporting w.evaluated in
      rw (t.measures, t.expects, t.from_low, t.to_high)
        (ground (
          arith,
          made-check_trust s g t,
          x,
          t.expects,
          t.from_low,
          t.to_high,
          ==-refl (calculated_distance t.value t.low t.high),
        ))

  made-check_state :
      (supporting : List Assessment)
      → length supporting + 1 ≤ p.required_persistence_buckets
      → IsEvaluated i.observation i.expectation p supporting v
      → check_state made.assessment_state made ≡ ok tt
  unfolding check_state assessment_of evaluated_verdict measured persistent_verdict
  made-check_state supporting n w = let q = w.evaluated in ground arith

  made-check_evaluated :
      (supporting : List Assessment)
      → IsInputs i
      → IsPolicy p
      → length supporting + 1 ≤ p.required_persistence_buckets
      → IsEvaluated i.observation i.expectation p supporting v
      → check_evaluated made ≡ ok tt
  unfolding check_evaluated assessment_of evaluated_verdict measured persistent_verdict
  made-check_evaluated supporting s g n w =
      let q = w.evaluated in
      ground (
        arith,
        made-check_values supporting s g w,
        made-check_state supporting n w,
        length-map v.supporting (λ (a : Assessment). a.assessment_id),
      )

  evaluated-is_not_blocked :
      (supporting : List Assessment)
      → IsEvaluated i.observation i.expectation p supporting v
      → v.state ≢ AssessmentState.blocked
  unfolding evaluated_verdict measured persistent_verdict
  evaluated-is_not_blocked supporting w = let q = w.evaluated in ground arith

  pub made-valid :
      (supporting : List Assessment)
      → IsInputs i
      → IsGovernedPolicy p
      → length supporting + 1 ≤ p.required_persistence_buckets
      → all is_assessment_id (ids_of supporting) ≡ true
      → verdict i.observation i.expectation p supporting ≡ ok v
      → is_hex_of_length 64 input_digest ≡ true
      → is_assessment_id identity ≡ true
      → validate_assessment made ≡ ok tt
  unfolding validate_assessment assessment_of
  made-valid supporting s g n ids q d f =
      elim (verdict-eq-ok i.observation i.expectation p supporting q) [
        | inl b ↦
            let bounded =
              IsBlockedBy→IsBounded i.observation i.expectation p supporting g.policy b in
            ground (
              arith,
              made-check_fields s d f,
              made-check_bounds g bounded,
              made-check_target s g.policy bounded,
              bounded.fits,
              made-check_blocked b,
              b.blocked,
            )
        | inr w ↦
            let bounded =
              IsEvaluated→IsBounded i.observation i.expectation p supporting g.policy n ids w in
            ground (
              arith,
              made-check_fields s d f,
              made-check_bounds g bounded,
              made-check_target s g.policy bounded,
              bounded.fits,
              made-check_evaluated supporting s g.policy n w,
              evaluated-is_not_blocked supporting w,
            )
      ]
