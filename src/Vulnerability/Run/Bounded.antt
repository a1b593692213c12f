-- ===== src/Vulnerability/Run/Bounded.antt =====
-- An evaluation returns at most as many matches as its limit allows.
use mathlib.Core.Path.{subst}
use openassetwatch.Prelude.{
  ℕ, suc, ◌+◌, ◌≤◌, ◌≡◌, refl, ap, ◌∙◌, inl, inr, false, Option, none, some, List, [], ◌∷◌, arith,
  ltb, Bool-cases, length, String, length-map,
}
use openassetwatch.Temporal.Identity.{Hashing}
use openassetwatch.Temporal.Result.{Result, ok, value_error, ◌>>◌, raise_if, >>=-eq-ok, same_ok}
use openassetwatch.Versions.Compare.{Pep440}
use openassetwatch.Vulnerability.Names.{Naming}
use openassetwatch.Vulnerability.Records.{Component, Affected, VulnerabilityMatch}
use openassetwatch.Vulnerability.Index.{Index, candidate_index, found_rows, candidates_from}
use openassetwatch.Vulnerability.Matching.{match_component}
use openassetwatch.Vulnerability.Run.{
  max_evaluation_matches, max_candidates_per_component, max_evaluation_comparisons,
  max_evaluation_components, max_evaluation_advisory_rows, add_match, Group, pair_less, Progress,
  with_match, match_candidates, evaluate_component, evaluate_components, insert_group,
  sorted_groups, aggregated, matches_of, evaluate_matches,
}

-- The limits that the loops keep.
record IsBounded (s : Progress) : Type 0 where
  few_groups : length s.grouped ≤ 200000
  few_comparisons : s.comparison_count ≤ 1000000

-- A limit that is kept.
passed :
    {Y : Type 0} (limit k : ℕ) (message : String) {rest : Result Y} {y : Y}
    → (raise_if (ltb limit k) (value_error message) >> rest) ≡ ok y
    → (k ≤ limit) × (rest ≡ ok y)
passed limit k message h = elim (Bool-cases (ltb limit k)) [
  | inl y ↦ cc (rw y at h)
  | inr n ↦ (within n, rw n at h)
]
  where
    within : ltb limit k ≡ false → k ≤ limit
    within n = ground arith

with_match-IsBounded :
    (s : Progress) (m : Option VulnerabilityMatch) {s' : Progress}
    → IsBounded s
    → with_match s m ≡ ok s'
    → IsBounded s'
with_match-IsBounded s none g e = subst IsBounded (same_ok refl e) g
with_match-IsBounded s (some x) g e =
    let (few, f) =
      passed max_evaluation_matches (length (add_match x s.grouped))
        "vulnerability match candidate limit exceeded" e in
    subst IsBounded (same_ok refl f)
      (record { few_groups = few; few_comparisons = g.few_comparisons })

match_candidates-IsBounded :
    (h : Hashing) (p : Pep440) (n : Naming) (now : ℕ) (c : Component) (candidates : List Affected)
    (s : Progress) {s' : Progress}
    → IsBounded s
    → match_candidates h p n now c s candidates ≡ ok s'
    → IsBounded s'
unfolding match_candidates
match_candidates-IsBounded h p n now c [] s g e = subst IsBounded (same_ok refl e) g
match_candidates-IsBounded h p n now c (a ∷ candidates) s g e =
    let (s1, f, k) = >>=-eq-ok (with_match _ (match_component h p n c a now)) _ e in
    match_candidates-IsBounded h p n now c candidates s1
      (with_match-IsBounded _ (match_component h p n c a now)
        (record { few_groups = g.few_groups; few_comparisons = g.few_comparisons }) f)
      k

evaluate_components-IsBounded :
    (h : Hashing) (p : Pep440) (n : Naming) (now : ℕ) (indexes : Index × Index)
    (components : List Component) (s : Progress) {s' : Progress}
    → IsBounded s
    → evaluate_components h p n now indexes s components ≡ ok s'
    → IsBounded s'
unfolding evaluate_components evaluate_component
evaluate_components-IsBounded h p n now indexes [] s g e = subst IsBounded (same_ok refl e) g
evaluate_components-IsBounded h p n now indexes (c ∷ components) s g e =
    let (s1, f, k) = >>=-eq-ok (evaluate_component h p n now indexes s c) _ e in
    let candidates = candidates_from [] (found_rows indexes c) in
    let (_, u) =
      passed max_candidates_per_component (length candidates)
        "vulnerability candidates per component limit exceeded" f in
    let (few, v) =
      passed max_evaluation_comparisons (s.comparison_count + length candidates)
        "vulnerability comparison budget exceeded" u in
    evaluate_components-IsBounded h p n now indexes components s1
      (match_candidates-IsBounded h p n now c candidates _
        (record { few_groups = g.few_groups; few_comparisons = few }) v)
      k

length-insert_group : (x : Group) (gs : List Group) → length (insert_group x gs) ≡ suc (length gs)
unfolding insert_group
length-insert_group x [] = refl
length-insert_group x (g ∷ gs) = elim (Bool-cases (pair_less g.0 x.0)) [
  | inl y ↦ rw y (ap suc (length-insert_group x gs))
  | inr n ↦ rw n refl
]

length-sorted_groups : (gs : List Group) → length (sorted_groups gs) ≡ length gs
unfolding sorted_groups
length-sorted_groups [] = refl
length-sorted_groups (g ∷ gs) =
    length-insert_group g (sorted_groups gs) ∙ ap suc (length-sorted_groups gs)

length-matches_of : (gs : List Group) → length (matches_of gs) ≡ length gs
unfolding matches_of
length-matches_of gs = length-map (sorted_groups gs) aggregated ∙ length-sorted_groups gs

-- An evaluation that succeeds was given at most 100,000 components and 200,000 rows, and returns at
-- most 200,000 matches.
pub evaluate_matches-le :
    (h : Hashing) (p : Pep440) (n : Naming) (started_at : ℕ) (components : List Component)
    (rows : List Affected) (ms : List VulnerabilityMatch)
    → evaluate_matches h p n started_at components rows ≡ ok ms
    → (length components ≤ 100000) × ((length rows ≤ 200000) × (length ms ≤ 200000))
unfolding evaluate_matches
evaluate_matches-le h p n now components rows ms e =
    let (few_components, f) =
      passed max_evaluation_components (length components)
        "vulnerability component evaluation limit exceeded" e in
    let (few_rows, k) =
      passed max_evaluation_advisory_rows (length rows) "advisory evaluation limit exceeded" f in
    let (s, o, r) =
      >>=-eq-ok (evaluate_components h p n now (candidate_index rows) _ components) _ k in
    let bounded =
      evaluate_components-IsBounded h p n now (candidate_index rows) components _
        (record { few_groups = omega arith; few_comparisons = omega arith }) o in
    (
      few_components,
      (
        few_rows,
        omega (arith, bounded.few_groups, length-matches_of s.grouped, ap length (same_ok refl r)),
      ),
    )
