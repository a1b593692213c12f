-- ===== src/Vulnerability/Evaluation/Selection.antt =====
-- Which match stands for the affected records of one component and advisory.
use openassetwatch.Prelude.{
  ℕ, ◌≤◌, ◌≡◌, refl, ap, ◌∙◌, Bool, true, false, ◌&&◌, ◌||◌, List, [], ◌∷◌, arith, ltb, ◌==◌,
  if◌then◌else◌, any,
}
use openassetwatch.Versions.Range.{
  MatchStatus, affected, not_affected, fixed, version_unknown, identity_uncertain,
  unsupported_comparison, insufficient_evidence, advisory_withdrawn,
}
use openassetwatch.Vulnerability.Records.{VulnerabilityMatch}
use openassetwatch.Vulnerability.Outcomes.{◌=m=◌}
use openassetwatch.Vulnerability.Evaluation.{
  precedence, key_less, greatest_from, aggregate_advisory_matches,
}

abbrev pub is_affected_match : VulnerabilityMatch → Bool
is_affected_match m = m.match_status =m= affected

affected-precedence : (s : MatchStatus) → (s =m= affected) ≡ (precedence s == 80)
affected-precedence affected = refl
affected-precedence not_affected = refl
affected-precedence fixed = refl
affected-precedence version_unknown = refl
affected-precedence identity_uncertain = refl
affected-precedence unsupported_comparison = refl
affected-precedence insufficient_evidence = refl
affected-precedence advisory_withdrawn = refl

precedence-le : (s : MatchStatus) → precedence s ≤ 80
precedence-le affected = omega arith
precedence-le not_affected = omega arith
precedence-le fixed = omega arith
precedence-le version_unknown = omega arith
precedence-le identity_uncertain = omega arith
precedence-le unsupported_comparison = omega arith
precedence-le insufficient_evidence = omega arith
precedence-le advisory_withdrawn = omega arith

-- The better of two matches.
abbrev better : VulnerabilityMatch → VulnerabilityMatch → VulnerabilityMatch
better a b = if key_less a b then b else a

-- The better match by the statuses' precedence and what decides a tie.
better_precedence :
    (x y : ℕ) (tie : Bool)
    → (if ltb x y || (x == y && tie) then y else x) ≡ (if ltb x y then y else x)
better_precedence x y tie = ground arith

precedence-if :
    (b : Bool) (x y : VulnerabilityMatch)
    → precedence (if b then x else y).match_status
      ≡ (if b then precedence x.match_status else precedence y.match_status)
precedence-if true x y = refl
precedence-if false x y = refl

precedence-better :
    (a b : VulnerabilityMatch)
    → precedence (better a b).match_status ≡ (
        if ltb (precedence a.match_status) (precedence b.match_status)
        then precedence b.match_status
        else precedence a.match_status)
precedence-better a b =
    precedence-if (key_less a b) b a
    ∙ better_precedence (precedence a.match_status) (precedence b.match_status) _

top_or : (x y : ℕ) → x ≤ 80 → y ≤ 80 → ((if ltb x y then y else x) == 80) ≡ ((x == 80) || (y == 80))
top_or x y h k = ground arith

better-affected :
    (a b : VulnerabilityMatch)
    → is_affected_match (better a b) ≡ (is_affected_match a || is_affected_match b)
better-affected a b =
    rw
      (
        affected-precedence (better a b).match_status,
        precedence-better a b,
        affected-precedence a.match_status,
        affected-precedence b.match_status,
      )
      (top_or _ _ (precedence-le a.match_status) (precedence-le b.match_status))

or_assoc : (a b c : Bool) → ((a || b) || c) ≡ (a || (b || c))
or_assoc true b c = refl
or_assoc false b c = refl

greatest_from-affected :
    (ms : List VulnerabilityMatch) (m : VulnerabilityMatch)
    → is_affected_match (greatest_from m ms) ≡ any is_affected_match (m ∷ ms)
unfolding greatest_from
greatest_from-affected [] m = or_false_right (is_affected_match m)
  where
    or_false_right : (a : Bool) → a ≡ (a || false)
    or_false_right true = refl
    or_false_right false = refl
greatest_from-affected (x ∷ ms) m =
    greatest_from-affected ms (better m x)
    ∙ ap (λ b. b || any is_affected_match ms) (better-affected m x)
    ∙ or_assoc (is_affected_match m) (is_affected_match x) (any is_affected_match ms)

-- The aggregated match says affected exactly when one of the matches that it stands for does.
pub aggregate_advisory_matches-affected :
    (m : VulnerabilityMatch) (ms : List VulnerabilityMatch)
    → is_affected_match (aggregate_advisory_matches m ms) ≡ any is_affected_match (m ∷ ms)
unfolding aggregate_advisory_matches
aggregate_advisory_matches-affected m ms = greatest_from-affected ms m

better_le : (x y : ℕ) → (x ≤ (if ltb x y then y else x)) × (y ≤ (if ltb x y then y else x))
better_le x y = (ground arith, ground arith)

better-le :
    (a b : VulnerabilityMatch)
    → (precedence a.match_status ≤ precedence (better a b).match_status)
      × (precedence b.match_status ≤ precedence (better a b).match_status)
better-le a b =
    rw (precedence-better a b) (better_le (precedence a.match_status) (precedence b.match_status))

greatest_from-le :
    (ms : List VulnerabilityMatch) (m : VulnerabilityMatch)
    → precedence m.match_status ≤ precedence (greatest_from m ms).match_status
unfolding greatest_from
greatest_from-le [] m = omega arith
greatest_from-le (x ∷ ms) m = omega (arith, greatest_from-le ms (better m x), (better-le m x).0)

-- No match of the list has a status that takes precedence.
abbrev pub NoneAbove : ℕ → List VulnerabilityMatch → Type 0
NoneAbove n [] = Unit
NoneAbove n (m ∷ ms) = (precedence m.match_status ≤ n) × NoneAbove n ms

greatest_from-NoneAbove :
    (ms : List VulnerabilityMatch) (m : VulnerabilityMatch)
    → NoneAbove (precedence (greatest_from m ms).match_status) ms
unfolding greatest_from
greatest_from-NoneAbove [] m = tt
greatest_from-NoneAbove (x ∷ ms) m = (
  omega (arith, greatest_from-le ms (better m x), (better-le m x).1),
  greatest_from-NoneAbove ms (better m x),
)

-- No match that is aggregated has a status that takes precedence over the aggregated one.
pub aggregate_advisory_matches-NoneAbove :
    (m : VulnerabilityMatch) (ms : List VulnerabilityMatch)
    → NoneAbove (precedence (aggregate_advisory_matches m ms).match_status) (m ∷ ms)
unfolding aggregate_advisory_matches
aggregate_advisory_matches-NoneAbove m ms = (greatest_from-le ms m, greatest_from-NoneAbove ms m)
