-- ===== src/Temporal/Deviations/Support.antt =====
-- The checks of `_build_assessment` (backend/app/temporal_deviations.py) on the assessments that
-- support another: they are ordered by bucket, few enough, and the days just before the target.
use openassetwatch.Prelude.{
  ℕ, ◌+◌, Bool, true, not, ◌&&◌, ◌||◌, List, [], ◌∷◌, ltb, ◌==◌, ◌=s=◌, if◌then◌else◌, length,
}
use openassetwatch.Temporal.Result.{Result, ok, ErrorCode, projection, ◌>>=◌, ◌>>◌, raise_if}
use openassetwatch.Temporal.Clock.{day, minus_days}
use openassetwatch.Temporal.Vocabulary.{AssessmentState, ◌=o=◌}
use openassetwatch.Temporal.Contracts.Signal.{Signal}
use openassetwatch.Temporal.Contracts.Policy.{Policy}
use openassetwatch.Temporal.Contracts.Assessment.{Assessment}
use openassetwatch.Temporal.Expectations.Digest.{text_lt}

-- The order of the key `(target_bucket_start, target_bucket_end, assessment_id)`.
unfoldable pub assessment_lt : Assessment → Assessment → Bool
assessment_lt a b =
    ltb a.target_bucket_start b.target_bucket_start
    || (a.target_bucket_start == b.target_bucket_start
        && (ltb a.target_bucket_end b.target_bucket_end
            || (a.target_bucket_end == b.target_bucket_end
                && text_lt a.assessment_id b.assessment_id)))

unfoldable pub insert_assessment : Assessment → List Assessment → List Assessment
insert_assessment a [] = a ∷ []
insert_assessment a (b ∷ bs) = if assessment_lt b a then b ∷ insert_assessment a bs else a ∷ b ∷ bs

-- `sorted(supporting, key=...)`
unfoldable pub sorted_assessments : List Assessment → List Assessment
unfolding insert_assessment assessment_lt
sorted_assessments [] = []
sorted_assessments (a ∷ rest) = insert_assessment a (sorted_assessments rest)

-- `state in {"pending-persistence", "candidate"}`
unfoldable pub is_persisting : AssessmentState → Bool
is_persisting AssessmentState.pending_persistence = true
is_persisting AssessmentState.candidate = true
is_persisting _ = Bool.false

-- The condition on the supporting assessment that should start at `expected_start`.
unfoldable pub is_aligned : Signal → Policy → ℕ → Assessment → Bool
unfolding is_persisting
is_aligned o p expected_start s =
    s.metric_key =s= o.metric_key
    && s.site_id =s= o.site_id
    && s.asset_id =o= o.asset_id
    && s.policy_id =s= p.policy_id
    && s.policy_version =s= p.policy_version
    && s.target_bucket_start == expected_start
    && s.target_bucket_end == expected_start + day
    && is_persisting s.assessment_state

-- `for index, support in enumerate(ordered_supporting):`
unfoldable pub check_aligned : Signal → Policy → ℕ → List Assessment → Result (Unit {0})
check_aligned o p expected_start [] = ok tt
check_aligned o p expected_start (s ∷ ss) = do
  raise_if (not (is_aligned o p expected_start s))
      (projection ErrorCode.invalid_persistence_support)
  check_aligned o p (expected_start + day) ss

-- `len(ordered_supporting) > required - 1`, where at least one bucket is required
unfoldable pub check_support : Signal → Policy → List Assessment → Result (Unit {0})
unfolding check_aligned is_aligned
check_support o p ordered = do
  raise_if (ltb p.required_persistence_buckets (length ordered + 1))
      (projection ErrorCode.unbounded_persistence_support)
  expected_start ← minus_days o.bucket_start (length ordered)
  check_aligned o p expected_start ordered
