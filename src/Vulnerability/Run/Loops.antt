-- ===== src/Vulnerability/Run/Loops.antt =====
-- What every addition to the groups keeps, the loops of the evaluation keep.
use mathlib.Core.Path.{subst}
use openassetwatch.Prelude.{
  ℕ, ◌+◌, ◌≡◌, refl, sym, inl, inr, Bool, true, false, Option, none, some, List, [], ◌∷◌, ltb,
  Bool-cases, if◌then◌else◌, length,
}
use openassetwatch.Text.{text_eq}
use openassetwatch.Temporal.Identity.{Hashing}
use openassetwatch.Temporal.Result.{
  Result, ok, Error, value_error, ◌>>◌, raise_if, >>=-eq-ok, same_ok,
}
use openassetwatch.Versions.Characters.{is_empty}
use openassetwatch.Versions.Compare.{Pep440}
use openassetwatch.Vulnerability.Names.{Naming}
use openassetwatch.Vulnerability.Records.{Component, Affected, VulnerabilityMatch}
use openassetwatch.Vulnerability.Index.{
  or_empty, candidate_index, found_rows, put, candidates_from, lookup,
}
use openassetwatch.Vulnerability.Index.Lookup.{candidate_index-lookup}
use openassetwatch.Vulnerability.Matching.{match_component}
use openassetwatch.Vulnerability.Run.{
  max_evaluation_matches, max_candidates_per_component, max_evaluation_comparisons,
  max_evaluation_components, max_evaluation_advisory_rows, add_match, Group, Progress, with_match,
  match_candidates, evaluate_component, evaluate_components, matches_of, evaluate_matches,
}
use openassetwatch.Vulnerability.Run.Groups.{All, All-append, All-filter}

-- A check that is passed.
pub passes :
    {Y : Type 0} (b : Bool) (raised : Error) {rest : Result Y} {y : Y}
    → (raise_if b raised >> rest) ≡ ok y
    → rest ≡ ok y
passes true raised h = cc
passes false raised h = h

put-All :
    (P : Affected → Type 0) (a : Affected) (xs : List Affected) → P a → All P xs → All P (put a xs)
unfolding put
put-All P a [] h k = (h, tt)
put-All P a (x ∷ xs) h (b, k) = elim (Bool-cases (text_eq x.affected_id a.affected_id)) [
  | inl y ↦ rw y (h, k)
  | inr n ↦ rw n (b, put-All P a xs h k)
]

candidates_from-All :
    (P : Affected → Type 0) (items candidates : List Affected)
    → All P candidates
    → All P items
    → All P (candidates_from candidates items)
unfolding candidates_from
candidates_from-All P [] candidates h k = h
candidates_from-All P (a ∷ items) candidates h (b, k) =
    candidates_from-All P items (put a candidates) (put-All P a candidates b h) k

found_rows-All :
    (P : Affected → Type 0) (rows : List Affected) (c : Component)
    → All P rows
    → All P (found_rows (candidate_index rows) c)
unfolding found_rows
found_rows-All P rows c h =
    All-append P _ _ (by_identifier (is_empty (or_empty c.canonical_identifier)))
      (subst (All P) (sym (candidate_index-lookup rows _).1) (All-filter P _ rows h))
  where
    by_identifier :
        (b : Bool)
        → All P (
            if b
            then []
            else lookup (c.ecosystem, or_empty c.canonical_identifier) (candidate_index rows).0)
    by_identifier true = tt
    by_identifier false =
        subst (All P) (sym (candidate_index-lookup rows _).0) (All-filter P _ rows h)

module _ (h : Hashing) (p : Pep440) (n : Naming) (now : ℕ) (IsComponent : Component → Type 0)
    (IsRow : Affected → Type 0) (Kept : List Group → Type 0)
    (step : (c : Component) (a : Affected) (m : VulnerabilityMatch) (gs : List Group)
      → IsComponent c
      → IsRow a
      → match_component h p n c a now ≡ some m
      → Kept gs
      → Kept (add_match m gs)) where
  abbrev IsKept : Progress → Type 0
  IsKept s = Kept s.grouped

  with_match-IsKept :
      (s : Progress) (m : Option VulnerabilityMatch) {s' : Progress}
      → ((x : VulnerabilityMatch) → m ≡ some x → Kept s.grouped → Kept (add_match x s.grouped))
      → IsKept s
      → with_match s m ≡ ok s'
      → IsKept s'
  with_match-IsKept s none k g e = subst IsKept (same_ok refl e) g
  with_match-IsKept s (some x) k g e =
      let f =
        passes (ltb max_evaluation_matches (length (add_match x s.grouped)))
          (value_error "vulnerability match candidate limit exceeded") e in
      subst IsKept (same_ok refl f) (k x refl g)

  pub match_candidates-IsKept :
      (c : Component) (candidates : List Affected) (s : Progress) {s' : Progress}
      → IsComponent c
      → All IsRow candidates
      → IsKept s
      → match_candidates h p n now c s candidates ≡ ok s'
      → IsKept s'
  unfolding match_candidates
  match_candidates-IsKept c [] s ic rows g e = subst IsKept (same_ok refl e) g
  match_candidates-IsKept c (a ∷ candidates) s ic (ia, rows) g e =
      let (s1, f, k) = >>=-eq-ok (with_match _ (match_component h p n c a now)) _ e in
      match_candidates-IsKept c candidates s1 ic rows
        (with_match-IsKept _ (match_component h p n c a now) (λ x o. step c a x s.grouped ic ia o) g
          f)
        k

  evaluate_component-IsKept :
      (rows : List Affected) (c : Component) (s : Progress) {s' : Progress}
      → IsComponent c
      → All IsRow rows
      → IsKept s
      → evaluate_component h p n now (candidate_index rows) s c ≡ ok s'
      → IsKept s'
  unfolding evaluate_component
  evaluate_component-IsKept rows c s ic ir g e =
      let candidates = candidates_from [] (found_rows (candidate_index rows) c) in
      let f =
        passes (ltb max_candidates_per_component (length candidates))
          (value_error "vulnerability candidates per component limit exceeded") e in
      let k =
        passes (ltb max_evaluation_comparisons (s.comparison_count + length candidates))
          (value_error "vulnerability comparison budget exceeded") f in
      match_candidates-IsKept c _ _ ic
        (candidates_from-All IsRow (found_rows (candidate_index rows) c) [] tt
          (found_rows-All IsRow rows c ir))
        g k

  pub evaluate_components-IsKept :
      (rows : List Affected) (components : List Component) (s : Progress) {s' : Progress}
      → All IsComponent components
      → All IsRow rows
      → IsKept s
      → evaluate_components h p n now (candidate_index rows) s components ≡ ok s'
      → IsKept s'
  unfolding evaluate_components
  evaluate_components-IsKept rows [] s ics ir g e = subst IsKept (same_ok refl e) g
  evaluate_components-IsKept rows (c ∷ components) s (ic, ics) ir g e =
      let (s1, f, k) = >>=-eq-ok (evaluate_component h p n now (candidate_index rows) s c) _ e in
      evaluate_components-IsKept rows components s1 ics ir
        (evaluate_component-IsKept rows c s ic ir g f) k

  -- The matches of an evaluation come from groups that have what each addition keeps.
  pub evaluate_matches-groups :
      (components : List Component) (rows : List Affected) {ms : List VulnerabilityMatch}
      → All IsComponent components
      → All IsRow rows
      → Kept []
      → evaluate_matches h p n now components rows ≡ ok ms
      → (gs : List Group) × ((matches_of gs ≡ ms) × Kept gs)
  unfolding evaluate_matches
  evaluate_matches-groups components rows ics ir start e =
      let f =
        passes (ltb max_evaluation_components (length components))
          (value_error "vulnerability component evaluation limit exceeded") e in
      let k =
        passes (ltb max_evaluation_advisory_rows (length rows))
          (value_error "advisory evaluation limit exceeded") f in
      let (s, o, r) =
        >>=-eq-ok (evaluate_components h p n now (candidate_index rows) _ components) _ k in
      (s.grouped, (same_ok refl r, evaluate_components-IsKept rows components _ ics ir start o))
