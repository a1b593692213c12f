-- ===== src/Temporal/Deviations/Service/Run.antt =====
-- The loop of `assessment` (backend/app/temporal_deviations.py) over the buckets before the target.
use mathlib.Core.Path.{subst}
use openassetwatch.Prelude.{
  ℕ, zero, suc, ◌+◌, ◌*◌, ◌<◌, ◌≡◌, refl, ap, inl, inr, true, List, [], ◌∷◌, leb, length, arith,
  Bool-cases,
}
use openassetwatch.Temporal.Result.{ok, >>=-eq-ok, same_ok}
use openassetwatch.Temporal.Clock.{day, minus_days, minus_days-eq-ok}
use openassetwatch.Temporal.Vocabulary.{Direction, ◌=d=◌}
use openassetwatch.Temporal.Identity.{Hashing}
use openassetwatch.Temporal.Contracts.Policy.{Policy, is_allowed}
use openassetwatch.Temporal.Contracts.Assessment.{Assessment}
use openassetwatch.Temporal.Deviations.Verdict.Laws.{IsTrusted}
use openassetwatch.Temporal.Deviations.Verdict.Cases.{
  IsBeyond, verdict-eq-ok, evaluated-IsDeviation,
}
use openassetwatch.Temporal.Deviations.Support.{is_persisting, sorted_assessments}
use openassetwatch.Temporal.Deviations.Assess.{Inputs, assessment_of}
use openassetwatch.Temporal.Deviations.Assess.Built.{IsBuilt, build_assessment-IsBuilt}
use openassetwatch.Temporal.Deviations.Inputs.{AssessmentRequest, Collaborators, load_inputs}
use openassetwatch.Temporal.Deviations.Service.{persists, assess_alone, collect_prior}

pub =d=→eq : (a b : Direction) → (a =d= b) ≡ true → a ≡ b
=d=→eq a b h = ground arith

-- A deviation that inputs show: a trusted value beyond the bound of its direction.
pub record Deviates (i : Inputs) (p : Policy) (direction : Direction) : Type 0 where
  pub trusted : IsTrusted i.observation i.expectation p
  pub beyond : IsBeyond direction trusted.value trusted.low trusted.high

-- A made assessment that keeps up a deviation was made of inputs that show it, in a direction that
-- the policy admits.
pub IsBuilt→IsDeviation :
    {h : Hashing} {i : Inputs} {p : Policy} {generated_at : ℕ} {supporting : List Assessment}
    {a : Assessment}
    → (b : IsBuilt h i p generated_at supporting a) → is_persisting a.assessment_state ≡ true
    → Deviates i p a.direction
      × (is_allowed a.direction p.allowed_directions ≡ true)
      × (a.candidate
          ≡ leb p.required_persistence_buckets (1 + length (sorted_assessments supporting)))
unfolding assessment_of is_persisting
IsBuilt→IsDeviation {h} {i} {p} {generated_at} {supporting} {a} b s =
    elim (verdict-eq-ok i.observation i.expectation p (sorted_assessments supporting) b.decided) [
      | inl w ↦ absurd (let m = b.made in let q = w.blocked in ground arith)
      | inr w ↦
          let t = w.trusted in
          let d =
            evaluated-IsDeviation p t.value t.mid t.low t.high (sorted_assessments supporting)
              w.evaluated (rw b.made at s) in
          rw b.made
            (record { trusted = t; beyond = d.beyond }, d.allowed, rw (d.candidate, d.count))
    ]

module _ (h : Hashing) (c : Collaborators) (r : AssessmentRequest) where
  -- The deviation of the bucket that starts at a time.
  pub record DeviatesOn (p : Policy) (generated_at : ℕ) (direction : Direction) (start : ℕ)
      : Type 0 where
    pub inputs : Inputs
    pub loaded : load_inputs h c r start generated_at ≡ ok inputs
    pub deviates : Deviates inputs p direction

  assess_alone-DeviatesOn :
      (p : Policy) (start generated_at : ℕ) (direction : Direction) {a : Assessment}
      → assess_alone h c r p start generated_at ≡ ok a
      → persists direction a ≡ true
      → DeviatesOn p generated_at direction start
  unfolding assess_alone persists
  assess_alone-DeviatesOn p start generated_at direction {a} q s =
      let (i, loaded, q1) = >>=-eq-ok (load_inputs h c r start generated_at) _ q in
      let b = build_assessment-IsBuilt h i p generated_at [] q1 in
      let (d, _, _) = IsBuilt→IsDeviation b (ground arith) in
      let same : a.direction ≡ direction = =d=→eq a.direction direction (ground arith) in
      record { inputs = i; loaded = loaded; deviates = subst (λ x. Deviates i p x) same d }

  -- The bucket that starts a number of days before the target deviates.
  pub record DeviatesBefore (p : Policy) (target generated_at : ℕ) (direction : Direction)
      (days : ℕ) : Type 0 where
    pub start : ℕ
    pub before : start + days * day ≡ target
    pub on : DeviatesOn p generated_at direction start

  -- A turn of the loop that appends an assessment.
  record IsTurn (p : Policy) (target generated_at : ℕ) (direction : Direction) (turns offset : ℕ)
      (found : List Assessment) : Type 0 where
    start : ℕ
    prior : Assessment
    rest : List Assessment
    before : minus_days target offset ≡ ok start
    alone : assess_alone h c r p start generated_at ≡ ok prior
    kept : persists direction prior ≡ true
    more : collect_prior h c r p target generated_at direction turns (suc offset) ≡ ok rest
    appended : found ≡ prior ∷ rest

  collect_prior-IsTurn :
      (p : Policy) (target generated_at : ℕ) (direction : Direction) (turns offset : ℕ)
      {found : List Assessment}
      → collect_prior h c r p target generated_at direction (suc turns) offset ≡ ok found
      → 0 < length found
      → IsTurn p target generated_at direction turns offset found
  unfolding collect_prior
  collect_prior-IsTurn p target generated_at direction turns offset {found} q n =
      let (start, before, q1) = >>=-eq-ok (minus_days target offset) _ q in
      let (prior, alone, q2) = >>=-eq-ok (assess_alone h c r p start generated_at) _ q1 in
      elim (Bool-cases (persists direction prior)) [
        | inr s ↦ absurd (let l = ap (λ xs. length xs) (same_ok refl (rw s at q2)) in omega arith)
        | inl s ↦
            let (rest, more, q3) =
              >>=-eq-ok (collect_prior h c r p target generated_at direction turns (suc offset)) _
                (rw s at q2) in
            record {
              start = start;
              prior = prior;
              rest = rest;
              before = before;
              alone = alone;
              kept = s;
              more = more;
              appended = same_ok q3 refl;
            }
      ]

  collect_prior-none :
      (p : Policy) (target generated_at : ℕ) (direction : Direction) (offset : ℕ) {k : ℕ}
      {found : List Assessment}
      → collect_prior h c r p target generated_at direction zero offset ≡ ok found
      → ¬ (k < length found)
  unfolding collect_prior
  collect_prior-none p target generated_at direction offset q n = ground arith

  pub collect_prior-run :
      (p : Policy) (target generated_at : ℕ) (direction : Direction) (turns offset : ℕ)
      {found : List Assessment}
      → collect_prior h c r p target generated_at direction turns offset ≡ ok found
      → (k : ℕ) → k < length found
      → DeviatesBefore p target generated_at direction (offset + k)
  collect_prior-run p target generated_at direction zero offset q k n =
      absurd (collect_prior-none p target generated_at direction offset q n)
  collect_prior-run p target generated_at direction (suc turns) offset q zero n =
      let t = collect_prior-IsTurn p target generated_at direction turns offset q n in
      record {
        start = t.start;
        before = let b = minus_days-eq-ok target offset t.start t.before in omega arith;
        on = assess_alone-DeviatesOn p t.start generated_at direction t.alone t.kept;
      }
  collect_prior-run p target generated_at direction (suc turns) offset q (suc k) n =
      let t = collect_prior-IsTurn p target generated_at direction turns offset q (omega arith) in
      let l = ap (λ xs. length xs) t.appended in
      let d =
        collect_prior-run p target generated_at direction turns (suc offset) t.more k
          (omega arith) in
      record { start = d.start; before = let b = d.before in omega arith; on = d.on }
