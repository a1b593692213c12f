-- ===== src/Temporal/Deviations/Assess/Bounded.antt =====
-- What a verdict of `_build_assessment` (backend/app/temporal_deviations.py) always satisfies.
use openassetwatch.Prelude.{ℕ, ◌+◌, ◌≤◌, ◌≡◌, refl, true, some, List, [], ◌∷◌, length, all, arith}
use openassetwatch.Text.{Text}
use openassetwatch.Temporal.Result.{ok}
use openassetwatch.Temporal.Vocabulary.{AssessmentState, ReasonCode}
use openassetwatch.Temporal.Contracts.Signal.{Signal}
use openassetwatch.Temporal.Contracts.Expectation.{Expectation}
use openassetwatch.Temporal.Contracts.Policy.{Policy, IsPolicy}
use openassetwatch.Temporal.Contracts.Assessment.{Assessment, is_assessment_id}
use openassetwatch.Temporal.Contracts.Assessment.Checks.{
  unique_texts, unique_reasons, check_reasons, required_reason, calculated_direction,
  calculated_distance, relative_change_ok,
}
use openassetwatch.Temporal.Deviations.Verdict.{
  Verdict, evaluated_verdict, measured, persistent_verdict, relative_change_of,
}
use openassetwatch.Temporal.Deviations.Verdict.Laws.{IsBlocking, blocking_reasons-IsBlocking}
use openassetwatch.Temporal.Deviations.Verdict.Cases.{IsBlockedBy, IsEvaluated}
use openassetwatch.Temporal.Deviations.Assess.{ids_of}

-- What the contract needs of a verdict in every state.
pub record IsBounded (p : Policy) (v : Verdict) : Type 0 where
  pub persistence : v.persistence ≤ p.required_persistence_buckets
  pub supporting : length v.supporting + 1 ≤ p.required_persistence_buckets
  pub identified : all is_assessment_id (ids_of v.supporting) ≡ true
  pub some_reason : 1 ≤ length v.reasons
  pub few_reasons : length v.reasons ≤ 8
  pub unique : unique_reasons v.reasons ≡ true
  pub fits : check_reasons (required_reason v.state) v.reasons ≡ ok tt

pub unique-short : (ts : List Text) → length ts ≤ 1 → unique_texts ts ≡ true
unfolding unique_texts
unique-short [] h = refl
unique-short (t ∷ []) h = refl
unique-short (t ∷ u ∷ ts) h = absurd (omega arith)

check_reasons-blocked :
    (rs : List ReasonCode)
    → IsBlocking rs
    → check_reasons (required_reason AssessmentState.blocked) rs ≡ ok tt
unfolding check_reasons required_reason
check_reasons-blocked rs b = rw b.blocking

module _ (o : Signal) (e : Expectation) (p : Policy) (supporting : List Assessment) where
  pub IsBlockedBy→IsBounded : {v : Verdict} → IsPolicy p → IsBlockedBy o e p v → IsBounded p v
  IsBlockedBy→IsBounded g b =
      let blocking : IsBlocking (b.reason ∷ b.others) =
        rw b.reasons at (blocking_reasons-IsBlocking o e p) in
      rw b.blocked (record {
        persistence = omega arith;
        supporting = let n = g.at_least_one in omega arith;
        identified = refl;
        some_reason = omega arith;
        few_reasons = let n = blocking.few in omega arith;
        unique = blocking.unique;
        fits = check_reasons-blocked _ blocking;
      })

  pub IsEvaluated→IsBounded :
      {v : Verdict}
      → IsPolicy p
      → length supporting + 1 ≤ p.required_persistence_buckets
      → all is_assessment_id (ids_of supporting) ≡ true
      → IsEvaluated o e p supporting v
      → IsBounded p v
  unfolding evaluated_verdict measured persistent_verdict check_reasons required_reason
      unique_reasons
  IsEvaluated→IsBounded g n ids v =
      let made = v.evaluated in
      let one = g.at_least_one in
      record {
        persistence = ground arith;
        supporting = ground arith;
        identified = ground arith;
        some_reason = ground arith;
        few_reasons = ground arith;
        unique = ground arith;
        fits = ground arith;
      }

-- The values of a verdict are those that the contract calculates.
pub evaluated-values :
    (p : Policy) (value mid low high : ℕ) (supporting : List Assessment) {v : Verdict}
    → evaluated_verdict p value mid low high supporting ≡ ok v
    → (v.direction ≡ calculated_direction value low high)
      × (v.distance ≡ some (calculated_distance value low high))
      × (relative_change_ok v.relative_change value mid ≡ true)
unfolding evaluated_verdict measured persistent_verdict calculated_direction calculated_distance
    relative_change_of relative_change_ok
evaluated-values p value mid low high supporting q = (ground arith, ground arith, ground arith)
