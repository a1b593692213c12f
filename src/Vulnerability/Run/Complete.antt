-- ===== src/Vulnerability/Run/Complete.antt =====
-- A vulnerable component with a candidate row is reported.
use mathlib.Core.Path.{subst, subst₂}
use mathlib.Core.List.{Memᴰ}
use openassetwatch.Prelude.{
  ℕ, ◌+◌, ◌≡◌, refl, sym, ap, ◌∙◌, true, some, List, [], ◌∷◌, ltb, length, any,
}
use openassetwatch.Temporal.Identity.{Hashing}
use openassetwatch.Temporal.Result.{ok, value_error, >>=-eq-ok, same_ok}
use openassetwatch.Versions.Compare.{Pep440}
use openassetwatch.Vulnerability.Names.{Naming}
use openassetwatch.Vulnerability.Records.{Component, Affected, VulnerabilityMatch}
use openassetwatch.Vulnerability.Index.{candidate_index, found_rows, candidates_from}
use openassetwatch.Vulnerability.Matching.{match_component}
use openassetwatch.Vulnerability.Matching.Laws.{IsVulnerable, match_component-IsVulnerable}
use openassetwatch.Vulnerability.Evaluation.Selection.{is_affected_match}
use openassetwatch.Vulnerability.Run.{
  max_evaluation_components, max_evaluation_advisory_rows, max_evaluation_matches,
  max_candidates_per_component, max_evaluation_comparisons, pair_of, add_match, add_id, Progress,
  with_match, match_candidates, evaluate_component, evaluate_components, evaluate_matches,
}
use openassetwatch.Vulnerability.Run.Groups.{All-of_mem}
use openassetwatch.Vulnerability.Run.Loops.{
  passes, match_candidates-IsKept, evaluate_components-IsKept,
}
use openassetwatch.Vulnerability.Run.Sound.{match_component-pair_of}
use openassetwatch.Vulnerability.Run.Distinct.{Keyed, add_match-Keyed}
use openassetwatch.Vulnerability.Run.Reported.{
  Reported, reports_affected, add_match-Reported, add_match-adds, matches_of-Reported,
  affected-match,
}

-- The progress when a candidate has been visited, before its match is added.
abbrev visited : Progress → Affected → Progress
visited s a = record s { advisory_ids = add_id a.advisory_id s.advisory_ids }

module _ (h : Hashing) (p : Pep440) (n : Naming) (now : ℕ) where
  with_match-adds :
      (s : Progress) (m : VulnerabilityMatch) {s' : Progress}
      → is_affected_match m ≡ true
      → with_match s (some m) ≡ ok s'
      → Reported (pair_of m) s'.grouped
  with_match-adds s m a e =
      let f =
        passes (ltb max_evaluation_matches (length (add_match m s.grouped)))
          (value_error "vulnerability match candidate limit exceeded") e in
      subst (λ t. Reported (pair_of m) t.grouped) (same_ok refl f) (add_match-adds m s.grouped a)

  -- The loops keep what is reported.
  match_candidates-adds :
      (c : Component) (a : Affected) (m : VulnerabilityMatch) (candidates : List Affected)
      (s : Progress) {s' : Progress}
      → match_component h p n c a now ≡ some m
      → is_affected_match m ≡ true
      → Memᴰ a candidates
      → match_candidates h p n now c s candidates ≡ ok s'
      → Reported (pair_of m) s'.grouped
  unfolding match_candidates
  match_candidates-adds c a m [] s o t i e = elim i [ ]
  match_candidates-adds c a m (x ∷ candidates) s o t (Memᴰ.head q) e =
      let (s1, f, k) = >>=-eq-ok (with_match _ (match_component h p n c x now)) _ e in
      match_candidates-IsKept h p n now (λ _. Unit) (λ _. Unit) (Reported (pair_of m))
        (λ _ _ y gs _ _ _ r. add_match-Reported (pair_of m) y gs r) c candidates s1 tt
        (All-of_mem _ candidates (λ _ _. tt))
        (with_match-adds (visited s x) m t (
          sym (ap (with_match (visited s x)) (ap (λ y. match_component h p n c y now) (sym q) ∙ o))
          ∙ f))
        k
  match_candidates-adds c a m (x ∷ candidates) s o t (Memᴰ.tail i) e =
      let (s1, f, k) = >>=-eq-ok (with_match _ (match_component h p n c x now)) _ e in
      match_candidates-adds c a m candidates s1 o t i k

  evaluate_components-adds :
      (rows : List Affected) (c : Component) (a : Affected) (m : VulnerabilityMatch)
      (components : List Component) (s : Progress) {s' : Progress}
      → match_component h p n c a now ≡ some m
      → is_affected_match m ≡ true
      → Memᴰ a (candidates_from [] (found_rows (candidate_index rows) c))
      → Memᴰ c components
      → evaluate_components h p n now (candidate_index rows) s components ≡ ok s'
      → Reported (pair_of m) s'.grouped
  unfolding evaluate_components evaluate_component
  evaluate_components-adds rows c a m [] s o t i j e = elim j [ ]
  evaluate_components-adds rows c a m (x ∷ components) s o t i (Memᴰ.tail j) e =
      let (s1, f, k) = >>=-eq-ok (evaluate_component h p n now (candidate_index rows) s x) _ e in
      evaluate_components-adds rows c a m components s1 o t i j k
  evaluate_components-adds rows c a m (x ∷ components) s o t i (Memᴰ.head q) e =
      let (s1, f, k) = >>=-eq-ok (evaluate_component h p n now (candidate_index rows) s x) _ e in
      let candidates = candidates_from [] (found_rows (candidate_index rows) x) in
      let u =
        passes (ltb max_candidates_per_component (length candidates))
          (value_error "vulnerability candidates per component limit exceeded") f in
      let v =
        passes (ltb max_evaluation_comparisons (s.comparison_count + length candidates))
          (value_error "vulnerability comparison budget exceeded") u in
      evaluate_components-IsKept h p n now (λ _. Unit) (λ _. Unit) (Reported (pair_of m))
        (λ _ _ y gs _ _ _ r. add_match-Reported (pair_of m) y gs r) rows components s1
        (All-of_mem _ components (λ _ _. tt)) (All-of_mem _ rows (λ _ _. tt))
        (match_candidates-adds x a m candidates _
          (ap (λ y. match_component h p n y a now) (sym q) ∙ o) t
          (subst (λ y. Memᴰ a (candidates_from [] (found_rows (candidate_index rows) y))) q i) v)
        k

-- When an evaluation succeeds, every component that a candidate row of its makes vulnerable is
-- reported: one of the matches is about the component and the row's advisory and says affected.
pub evaluate_matches-reports :
    (h : Hashing) (p : Pep440) (n : Naming) (started_at : ℕ) (components : List Component)
    (rows : List Affected) (ms : List VulnerabilityMatch) (c : Component) (a : Affected)
    → evaluate_matches h p n started_at components rows ≡ ok ms
    → Memᴰ c components
    → Memᴰ a (candidates_from [] (found_rows (candidate_index rows) c))
    → IsVulnerable p n c a
    → any (reports_affected (c.component_id, a.advisory_id)) ms ≡ true
unfolding evaluate_matches
evaluate_matches-reports h p n now components rows ms c a e j i vulnerable =
    let (m, (o, status)) = (match_component-IsVulnerable h p n c a now).1 vulnerable in
    let f =
      passes (ltb max_evaluation_components (length components))
        (value_error "vulnerability component evaluation limit exceeded") e in
    let k =
      passes (ltb max_evaluation_advisory_rows (length rows))
        (value_error "advisory evaluation limit exceeded") f in
    let (s, g, r) =
      >>=-eq-ok (evaluate_components h p n now (candidate_index rows) _ components) _ k in
    let keyed =
      evaluate_components-IsKept h p n now (λ _. Unit) (λ _. Unit) Keyed
        (λ _ _ y gs _ _ _ q. add_match-Keyed y gs q) rows components _
        (All-of_mem _ components (λ _ _. tt)) (All-of_mem _ rows (λ _ _. tt)) tt g in
    subst₂ (λ x k. any (reports_affected k) x ≡ true) (same_ok refl r)
      (match_component-pair_of h p n now c a m o)
      (matches_of-Reported (pair_of m) s.grouped keyed (
        evaluate_components-adds h p n now rows c a m components _ o (affected-match m status) i j
          g))
