-- ===== src/Temporal/Deviations/Verdict/Cases.antt =====
-- The two ways in which `_build_assessment` (backend/app/temporal_deviations.py) comes to a verdict,
-- and when it comes to one.
use openassetwatch.Prelude.{
  ℕ, ◌+◌, ◌<◌, ◌≡◌, refl, ◌⊎◌, inl, inr, true, false, not, List, [], ◌∷◌, leb, length, any, arith,
}
use openassetwatch.Temporal.Result.{ok, same_ok}
use openassetwatch.Temporal.Vocabulary.{Direction, ReasonCode, ◌=d=◌}
use openassetwatch.Temporal.Contracts.Signal.{Signal}
use openassetwatch.Temporal.Contracts.Expectation.{Expectation}
use openassetwatch.Temporal.Contracts.Policy.{Policy, is_allowed}
use openassetwatch.Temporal.Contracts.Assessment.{Assessment}
use openassetwatch.Temporal.Deviations.Support.{is_persisting}
use openassetwatch.Temporal.Deviations.Verdict.{
  blocking_reasons, Verdict, blocked_verdict, measured, evaluated_verdict, persistent_verdict,
  asserted_verdict, verdict_for, verdict,
}
use openassetwatch.Temporal.Deviations.Verdict.Laws.{IsTrusted, unblocked→IsTrusted}

-- A verdict on values that are trusted.
pub record IsEvaluated (o : Signal) (e : Expectation) (p : Policy) (supporting : List Assessment)
    (v : Verdict) : Type 0 where
  pub unblocked : blocking_reasons o e p ≡ []
  pub trusted : IsTrusted o e p
  pub evaluated :
      evaluated_verdict p trusted.value trusted.mid trusted.low trusted.high supporting ≡ ok v

-- A verdict that some reason blocks.
pub record IsBlockedBy (o : Signal) (e : Expectation) (p : Policy) (v : Verdict) : Type 0 where
  pub reason : ReasonCode
  pub others : List ReasonCode
  pub reasons : blocking_reasons o e p ≡ reason ∷ others
  pub blocked : v ≡ blocked_verdict (reason ∷ others)

module _ (o : Signal) (e : Expectation) (p : Policy) (supporting : List Assessment) where
  -- On trusted values the assertions hold, and the values decide.
  pub verdict-IsTrusted :
      (t : IsTrusted o e p)
      → blocking_reasons o e p ≡ []
      → verdict o e p supporting ≡ evaluated_verdict p t.value t.mid t.low t.high supporting
  unfolding verdict verdict_for asserted_verdict
  verdict-IsTrusted t h = rw (h, t.measures, t.expects, t.from_low, t.to_high)

  by_reasons :
      {v : Verdict} (rs : List ReasonCode)
      → blocking_reasons o e p ≡ rs
      → verdict o e p supporting ≡ ok v
      → IsBlockedBy o e p v ⊎ IsEvaluated o e p supporting v
  unfolding verdict verdict_for
  by_reasons {v} [] h q =
      let t = unblocked→IsTrusted o e p h in
      inr (record { unblocked = h; trusted = t; evaluated = rw (← verdict-IsTrusted t h) q })
  by_reasons {v} (r ∷ rs) h q =
      inl (record { reason = r; others = rs; reasons = h; blocked = same_ok (rw h at q) refl })

  pub verdict-eq-ok :
      {v : Verdict}
      → verdict o e p supporting ≡ ok v
      → IsBlockedBy o e p v ⊎ IsEvaluated o e p supporting v
  verdict-eq-ok q = by_reasons (blocking_reasons o e p) refl q

-- The value lies beyond the bound that the direction names.
abbrev pub IsBeyond : Direction → ℕ → ℕ → ℕ → Type 0
IsBeyond d value low high =
    ((d ≡ Direction.above) × (high < value)) ⊎ ((d ≡ Direction.below) × (value < low))

-- What a verdict that keeps up a deviation says.
pub record IsDeviation (p : Policy) (value low high : ℕ) (supporting : List Assessment)
    (v : Verdict) : Type 0 where
  pub beyond : IsBeyond v.direction value low high
  pub allowed : is_allowed v.direction p.allowed_directions ≡ true
  pub supports : v.supporting ≡ supporting
  pub same_direction : any (λ s. not (s.direction =d= v.direction)) supporting ≡ false
  pub count : v.persistence ≡ 1 + length supporting
  pub candidate : v.candidate ≡ leb p.required_persistence_buckets v.persistence

module _ (p : Policy) (value mid low high : ℕ) (supporting : List Assessment) where
  pub evaluated-IsDeviation :
      {v : Verdict}
      → evaluated_verdict p value mid low high supporting ≡ ok v
      → is_persisting v.state ≡ true
      → IsDeviation p value low high supporting v
  unfolding evaluated_verdict measured persistent_verdict is_persisting
  evaluated-IsDeviation q s = ground arith
