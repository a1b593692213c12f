-- ===== src/Vulnerability/Matching/Verdict.antt =====
-- Which of several outcomes decides: an affected one wins wherever it stands.
use openassetwatch.Prelude.{
  ◌≡◌, refl, ◌∙◌, ◌↔◌, Bool, true, false, Option, none, some, List, [], ◌∷◌, Bool-cases, inl, inr,
  any, String,
}
use openassetwatch.Versions.Range.{
  MatchStatus, affected, not_affected, fixed, unsupported_comparison,
}
use openassetwatch.Vulnerability.Outcomes.{
  ◌=m=◌, Described, first_with, first_reason, resolved, resolve,
}

abbrev pub has_status : MatchStatus → List Described → Bool
has_status s os = any (λ o. o.0 =m= s) os

-- The status that a list of outcomes resolves to, by what stands in it.
abbrev pub status_by : Bool → Bool → Bool → MatchStatus
status_by true u f = affected
status_by false true f = unsupported_comparison
status_by false false true = fixed
status_by false false false = not_affected

abbrev found {ℓ} : {A : Type ℓ} → Option A → Bool
found none = false
found (some x) = true

found-first_with :
    (s : MatchStatus) (os : List Described) → found (first_with s os) ≡ has_status s os
unfolding first_with
found-first_with s [] = refl
found-first_with s (o ∷ os) = elim (Bool-cases (o.0 =m= s)) [
  | inl y ↦ rw y refl
  | inr n ↦ rw n (found-first_with s os)
]

resolved-status :
    (a u f : Option Described) (reason : String)
    → (resolved a u f reason).0 ≡ status_by (found a) (found u) (found f)
resolved-status (some o) u f reason = refl
resolved-status none (some o) f reason = refl
resolved-status none none (some o) reason = refl
resolved-status none none none reason = refl

pub resolve-status :
    (os : List Described)
    → (resolve os).0
      ≡ status_by
          (has_status affected os)
          (has_status unsupported_comparison os)
          (has_status fixed os)
unfolding resolve
resolve-status os =
    resolved-status (first_with affected os) (first_with unsupported_comparison os)
      (first_with fixed os) (first_reason os)
    ∙ rw
        (
          found-first_with affected os,
          found-first_with unsupported_comparison os,
          found-first_with fixed os,
        )
        refl

status_by-affected : (a u f : Bool) → (status_by a u f ≡ affected) ↔ (a ≡ true)
status_by-affected true u f = (λ _. refl, λ _. refl)
status_by-affected false true f = (λ e. cc e, λ e. cc e)
status_by-affected false false true = (λ e. cc e, λ e. cc e)
status_by-affected false false false = (λ e. cc e, λ e. cc e)

pub resolve-affected :
    (os : List Described) → ((resolve os).0 ≡ affected) ↔ (has_status affected os ≡ true)
resolve-affected os = rw (resolve-status os) (status_by-affected _ _ _)
