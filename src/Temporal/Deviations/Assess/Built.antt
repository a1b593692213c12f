-- ===== src/Temporal/Deviations/Assess/Built.antt =====
-- How `_build_assessment` (backend/app/temporal_deviations.py) makes an assessment, and that it does.
use openassetwatch.Prelude.{
  ℕ, ◌+◌, ◌≤◌, ◌≡◌, refl, inl, inr, true, false, not, List, [], ◌∷◌, length, any, all, arith,
}
use openassetwatch.Text.{Text}
use openassetwatch.Temporal.Result.{ok, >>=-eq-ok, construct-eq-ok, construct-ok, is_ok, is_ok→some}
use openassetwatch.Temporal.Vocabulary.{ReasonCode, ◌=d=◌}
use openassetwatch.Temporal.Identity.{Hashing}
use openassetwatch.Temporal.Contracts.Signal.{Signal}
use openassetwatch.Temporal.Contracts.Expectation.{Expectation}
use openassetwatch.Temporal.Contracts.Policy.{Policy}
use openassetwatch.Temporal.Contracts.Assessment.{Assessment, is_assessment_id}
use openassetwatch.Temporal.Contracts.Assessment.Checks.{validate_assessment, check_fields}
use openassetwatch.Temporal.Deviations.Policies.{IsGovernedPolicy}
use openassetwatch.Temporal.Deviations.Identity.{
  temporal_observation_digest, temporal_observation_digest_form, temporal_assessment_input_digest,
  temporal_assessment_input_digest-some, temporal_deviation_assessment_id,
  temporal_deviation_assessment_id-some,
}
use openassetwatch.Temporal.Deviations.Verdict.{
  Verdict, verdict, verdict_for, asserted_verdict, evaluated_verdict, measured, persistent_verdict,
  blocking_reasons,
}
use openassetwatch.Temporal.Deviations.Verdict.Laws.{IsTrusted, unblocked→IsTrusted}
use openassetwatch.Temporal.Deviations.Verdict.Cases.{verdict-IsTrusted, verdict-eq-ok}
use openassetwatch.Temporal.Deviations.Support.{sorted_assessments, check_support}
use openassetwatch.Temporal.Deviations.Assess.{Inputs, ids_of, assessment_of, build_assessment}
use openassetwatch.Temporal.Deviations.Assess.Accepted.{IsInputs, made-valid}

-- How an assessment was made.
pub record IsBuilt (h : Hashing) (i : Inputs) (p : Policy) (generated_at : ℕ)
    (supporting : List Assessment) (a : Assessment) : Type 0 where
  pub verdict_made : Verdict
  pub input_digest : Text
  pub identity : Text
  pub supported : check_support i.observation p (sorted_assessments supporting) ≡ ok tt
  pub decided :
      verdict i.observation i.expectation p (sorted_assessments supporting) ≡ ok verdict_made
  pub made : a ≡ assessment_of h i p generated_at verdict_made input_digest identity
  pub valid : validate_assessment a ≡ ok tt

module _ (h : Hashing) (i : Inputs) (p : Policy) (generated_at : ℕ)
    (supporting : List Assessment) where
  pub build_assessment-IsBuilt :
      {a : Assessment}
      → build_assessment h i p generated_at supporting ≡ ok a
      → IsBuilt h i p generated_at supporting a
  unfolding build_assessment
  build_assessment-IsBuilt q =
      let (_, supported, q1) =
        >>=-eq-ok (check_support i.observation p (sorted_assessments supporting)) _ q in
      let (v, decided, q2) =
        >>=-eq-ok (verdict i.observation i.expectation p (sorted_assessments supporting)) _ q1 in
      let (input_digest, _, q3) = >>=-eq-ok (temporal_assessment_input_digest h _ _ p _) _ q2 in
      let (identity, _, q4) =
        >>=-eq-ok (temporal_deviation_assessment_id h input_digest _ _ _ _ _) _ q3 in
      let (same, valid) = construct-eq-ok validate_assessment _ q4 in
      record {
        verdict_made = v;
        input_digest = input_digest;
        identity = identity;
        supported = supported;
        decided = decided;
        made = same;
        valid = rw same valid;
      }

  -- Once its support is admitted and it comes to a verdict, an assessment is made.
  pub build_assessment-some :
      {v : Verdict}
      → IsInputs i
      → IsGovernedPolicy p
      → length (sorted_assessments supporting) + 1 ≤ p.required_persistence_buckets
      → all is_assessment_id (ids_of (sorted_assessments supporting)) ≡ true
      → all is_assessment_id (ids_of v.supporting) ≡ true
      → check_support i.observation p (sorted_assessments supporting) ≡ ok tt
      → verdict i.observation i.expectation p (sorted_assessments supporting) ≡ ok v
      → (a : Assessment) × (build_assessment h i p generated_at supporting ≡ ok a)
  unfolding build_assessment
  build_assessment-some {v} s g n ids kept supported decided =
      let (d, ed, digest_form) =
        temporal_assessment_input_digest-some h (temporal_observation_digest h i.observation)
          i.expectation p (ids_of v.supporting) (temporal_observation_digest_form h i.observation)
          kept in
      let (identity, ei, id_form) =
        temporal_deviation_assessment_id-some h d i.observation.metric_key i.observation.site_id
          i.observation.bucket_start i.observation.bucket_end p.policy_version digest_form in
      (
        assessment_of h i p generated_at v d identity,
        rw (supported, decided, ed, ei)
            (construct-ok validate_assessment _ (
              made-valid h i p generated_at v d identity (sorted_assessments supporting) s g n ids
                decided digest_form id_form)),
      )

module _ (o : Signal) (e : Expectation) (p : Policy) (supporting : List Assessment) where
  pub verdict-supporting :
      {v : Verdict}
      → verdict o e p supporting ≡ ok v
      → all is_assessment_id (ids_of supporting) ≡ true
      → all is_assessment_id (ids_of v.supporting) ≡ true
  unfolding verdict verdict_for asserted_verdict evaluated_verdict measured persistent_verdict
  verdict-supporting q ids = ground arith

  is_ok-verdict :
      (t : IsTrusted o e p)
      → blocking_reasons o e p ≡ []
      → is_ok (evaluated_verdict p t.value t.mid t.low t.high supporting) ≡ true
      → is_ok (verdict o e p supporting) ≡ true
  is_ok-verdict t h q = rw (verdict-IsTrusted o e p supporting t h) q

  verdict-blocked :
      (r : ReasonCode) (rs : List ReasonCode)
      → blocking_reasons o e p ≡ r ∷ rs
      → is_ok (verdict o e p supporting) ≡ true
  unfolding verdict verdict_for
  verdict-blocked r rs h = rw h refl

  by_reasons :
      (rs : List ReasonCode)
      → blocking_reasons o e p ≡ rs
      → ((t : IsTrusted o e p)
          → is_ok (evaluated_verdict p t.value t.mid t.low t.high supporting) ≡ true)
      → is_ok (verdict o e p supporting) ≡ true
  by_reasons [] h q = let t = unblocked→IsTrusted o e p h in is_ok-verdict t h (q t)
  by_reasons (r ∷ rs) h q = verdict-blocked r rs h

evaluated-alone :
    (p : Policy) (value mid low high : ℕ) → is_ok (evaluated_verdict p value mid low high []) ≡ true
unfolding evaluated_verdict measured persistent_verdict
evaluated-alone p value mid low high = ground arith

evaluated-again :
    (p : Policy) (value mid low high : ℕ) (supporting : List Assessment) {v : Verdict}
    → evaluated_verdict p value mid low high [] ≡ ok v
    → any (λ s. not (s.direction =d= v.direction)) supporting ≡ false
    → is_ok (evaluated_verdict p value mid low high supporting) ≡ true
unfolding evaluated_verdict measured persistent_verdict
evaluated-again p value mid low high supporting q s = ground arith

module _ (o : Signal) (e : Expectation) (p : Policy) where
  -- Without support there is always a verdict.
  pub verdict-alone : (v : Verdict) × (verdict o e p [] ≡ ok v)
  verdict-alone =
      is_ok→some _ (by_reasons o e p [] _ refl (λ t. evaluated-alone p t.value t.mid t.low t.high))

  -- Support of the same direction keeps it.
  pub verdict-again :
      (supporting : List Assessment) {v : Verdict}
      → verdict o e p [] ≡ ok v
      → any (λ s. not (s.direction =d= v.direction)) supporting ≡ false
      → (w : Verdict) × (verdict o e p supporting ≡ ok w)
  verdict-again supporting {v} q s = is_ok→some _ (elim (verdict-eq-ok o e p [] q) [
    | inl b ↦ verdict-blocked o e p supporting b.reason b.others b.reasons
    | inr w ↦ is_ok-verdict o e p supporting w.trusted w.unblocked (
        evaluated-again p w.trusted.value w.trusted.mid w.trusted.low w.trusted.high supporting
          w.evaluated s)
  ])

-- A made assessment's identifier has the form of one.
pub validate_assessment-is_assessment_id :
    (a : Assessment) → validate_assessment a ≡ ok tt → is_assessment_id a.assessment_id ≡ true
unfolding validate_assessment check_fields
validate_assessment-is_assessment_id a v = ground arith
