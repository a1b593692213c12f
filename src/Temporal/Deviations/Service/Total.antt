-- ===== src/Temporal/Deviations/Service/Total.antt =====
-- Once its inputs load, `assessment` (backend/app/temporal_deviations.py) always returns.
use openassetwatch.Prelude.{
  ℕ, zero, suc, ◌-◌, ◌≤◌, ◌≡◌, refl, ◌⊎◌, List, [], ◌∷◌, if◌then◌else◌, arith, Bool-cases, inl, inr,
}
use openassetwatch.Temporal.Result.{ok, is_ok→some}
use openassetwatch.Temporal.Clock.{Stamp, day, minus_days}
use openassetwatch.Temporal.Vocabulary.{Direction}
use openassetwatch.Temporal.Identity.{Hashing}
use openassetwatch.Temporal.Registry.{MetricDefinition, temporal_metric}
use openassetwatch.Temporal.Contracts.Policy.{Policy}
use openassetwatch.Temporal.Contracts.Assessment.{Assessment}
use openassetwatch.Temporal.Deviations.Policies.{
  IsGovernedPolicy, temporal_deviation_policy, temporal_deviation_policy-IsGovernedPolicy,
  is_ok-temporal_deviation_policy,
}
use openassetwatch.Temporal.Deviations.Assess.{Inputs, build_assessment}
use openassetwatch.Temporal.Deviations.Assess.Accepted.{IsInputs}
use openassetwatch.Temporal.Deviations.Assess.Built.{IsBuilt, build_assessment-IsBuilt}
use openassetwatch.Temporal.Deviations.Inputs.{
  AssessmentRequest, Collaborators, validate_request, load_inputs,
}
use openassetwatch.Temporal.Deviations.Inputs.Loaded.{
  KeepsContract, load_inputs-IsLoaded, IsLoaded→IsInputs, IsScoped, is_observation_of-IsScoped,
}
use openassetwatch.Temporal.Deviations.Service.{
  persists, reversed, assess_alone, collect_prior, settle, assessment,
}
use openassetwatch.Temporal.Deviations.Service.Supported.{Supports, build-alone, build-supported}

-- What the loop finds where it takes at most one turn: nothing, or an assessment that supports.
record IsFound (h : Hashing) (c : Collaborators) (r : AssessmentRequest) (p : Policy) (target t : ℕ)
    (direction : Direction) (turns : ℕ) : Type 0 where
  found : List Assessment
  collected : collect_prior h c r p target t direction turns 1 ≡ ok found
  supports :
      (found ≡ [])
      ⊎ ((a : Assessment) × (found ≡ a ∷ []) × (turns ≡ 1) × Supports h r p target t direction a)

module _ (h : Hashing) (c : Collaborators) (r : AssessmentRequest) (p : Policy) (target t : ℕ)
    (i j : Inputs) where
  minus_days-one : day ≤ target → minus_days target 1 ≡ ok (target - day)
  unfolding minus_days
  minus_days-one n = ground arith

  alone-is_built :
      {prior : Assessment}
      → load_inputs h c r (target - day) t ≡ ok j
      → build_assessment h j p t [] ≡ ok prior
      → assess_alone h c r p (target - day) t ≡ ok prior
  unfolding assess_alone
  alone-is_built el eb = rw (el, eb)

  collect_prior-once :
      (direction : Direction) {prior : Assessment}
      → day ≤ target
      → assess_alone h c r p (target - day) t ≡ ok prior
      → collect_prior h c r p target t direction 1 1
        ≡ ok (if persists direction prior then prior ∷ [] else [])
  unfolding collect_prior
  collect_prior-once direction {prior} n ea = rw (minus_days-one n, ea) (ground arith)

  turn-IsFound :
      (direction : Direction)
      → IsGovernedPolicy p
      → IsInputs j
      → day ≤ target
      → load_inputs h c r (target - day) t ≡ ok j
      → IsFound h c r p target t direction 1
  turn-IsFound direction g s n el =
      let (prior, eb) = build-alone h r p target t j s g in
      let once = collect_prior-once direction n (alone-is_built el eb) in
      elim (Bool-cases (persists direction prior)) [
        | inl k ↦ record {
          found = prior ∷ [];
          collected = rw k at once;
          supports = inr (
            prior,
            refl,
            refl,
            record {
              start = target - day;
              inputs = j;
              before = omega arith;
              scoped =
                  is_observation_of-IsScoped r (target - day) j.observation
                    (load_inputs-IsLoaded h c r (target - day) t el).observed;
              built = build_assessment-IsBuilt h j p t [] eb;
              kept = k;
            },
          );
        }
        | inr k ↦ record { found = []; collected = rw k at once; supports = inl refl }
      ]

  no_turn-IsFound : (direction : Direction) → IsFound h c r p target t direction 0
  unfolding collect_prior
  no_turn-IsFound direction = record { found = []; collected = refl; supports = inl refl }

  turns-IsFound :
      (direction : Direction) (turns : ℕ)
      → turns ≤ 1
      → IsGovernedPolicy p
      → IsInputs j
      → day ≤ target
      → load_inputs h c r (target - day) t ≡ ok j
      → IsFound h c r p target t direction turns
  turns-IsFound direction zero m g s n el = no_turn-IsFound direction
  turns-IsFound direction (suc zero) m g s n el = turn-IsFound direction g s n el
  turns-IsFound direction (suc (suc k)) m g s n el = absurd (omega arith)

  -- With what the loop found, the assessment is made.
  build-found :
      {current : Assessment}
      → IsInputs i
      → IsGovernedPolicy p
      → IsScoped r target i.observation
      → IsBuilt h i p t [] current
      → (f : IsFound h c r p target t current.direction (p.required_persistence_buckets - 1))
      → (a : Assessment) × (build_assessment h i p t (reversed f.found) ≡ ok a)
  unfolding reversed
  build-found s g x b f = elim f.supports [
    | inl e ↦ rw e (build-alone h r p target t i s g)
    | inr (a, e, n, w) ↦ rw e (build-supported h r p target t i s g x (omega arith) b w)
  ]

  settle-some :
      {current : Assessment}
      → IsInputs i
      → IsInputs j
      → IsGovernedPolicy p
      → day ≤ target
      → load_inputs h c r target t ≡ ok i
      → load_inputs h c r (target - day) t ≡ ok j
      → IsBuilt h i p t [] current
      → (a : Assessment) × (settle h c r p target t i current ≡ ok a)
  unfolding settle
  settle-some {current} s s' g n el el' b =
      let f =
        turns-IsFound current.direction (p.required_persistence_buckets - 1)
          (let m = g.at_most_two_buckets in omega arith) g s' n el' in
      let (a, ea) =
        build-found s g
          (is_observation_of-IsScoped r target i.observation
            (load_inputs-IsLoaded h c r target t el).observed)
          b f in
      is_ok→some _
        (let q = g.policy in let w = q.within_lookback in let e = f.collected in ground arith)

-- If the collaborators keep their contracts, the metric is registered, the request passes its checks,
-- and the inputs of the target and of the day before load, then an assessment is returned: the
-- support that the loop gathers is always admitted, and the contract accepts the result.
pub assessment-some :
    (h : Hashing) (c : Collaborators) (r : AssessmentRequest) (now : Stamp) {m : MetricDefinition}
    {target t : ℕ} {i j : Inputs}
    → KeepsContract c
    → temporal_metric r.metric_key ≡ ok m
    → validate_request now m.supports_asset_scope r ≡ ok (target, t)
    → day ≤ target
    → load_inputs h c r target t ≡ ok i
    → load_inputs h c r (target - day) t ≡ ok j
    → (a : Assessment) × (assessment h c r now ≡ ok a)
unfolding assessment
assessment-some h c r now {m} {target} {t} {i} {j} k em ev n el el' =
    let (p, ep) =
      is_ok→some (temporal_deviation_policy r.metric_key)
        (rw (is_ok-temporal_deviation_policy r.metric_key, em) refl) in
    let g = (temporal_deviation_policy-IsGovernedPolicy r.metric_key ep).0 in
    let s = IsLoaded→IsInputs k (load_inputs-IsLoaded h c r target t el) in
    let s' = IsLoaded→IsInputs k (load_inputs-IsLoaded h c r (target - day) t el') in
    let (current, ec) = build-alone h r p target t i s g in
    let (a, ea) =
      settle-some h c r p target t i j s s' g n el el' (build_assessment-IsBuilt h i p t [] ec) in
    (a, rw (em, ep, ev, el, ec) ea)
