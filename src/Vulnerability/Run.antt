-- ===== src/Vulnerability/Run.antt =====
-- The evaluation between the reads and the writes of `evaluate_vulnerabilities` of
-- backend/app/vulnerability_service.py: its limits, its loops and its matches.
pub mod Groups
pub mod Loops
pub mod Sound
pub mod Distinct
pub mod Reported
pub mod Complete
pub mod Bounded
use openassetwatch.Prelude.{
  ℕ, ◌+◌, Bool, true, false, ◌&&◌, ◌||◌, Option, none, some, List, [], ◌∷◌, ◌++◌, map, ltb, ◌==◌,
  if◌then◌else◌, length, any, count_if,
}
use openassetwatch.Text.{Text, text_eq}
use openassetwatch.Temporal.Identity.{Hashing}
use openassetwatch.Temporal.Expectations.Digest.{text_lt}
use openassetwatch.Temporal.Result.{Result, ok, err, value_error, ◌>>=◌, ◌>>◌, raise_if}
use openassetwatch.Versions.Compare.{Pep440}
use openassetwatch.Vulnerability.Names.{Naming}
use openassetwatch.Vulnerability.Records.{Component, Affected, VulnerabilityMatch}
use openassetwatch.Vulnerability.Matching.{match_component}
use openassetwatch.Vulnerability.Index.{Index, candidate_index, found_rows, candidates_from}
use openassetwatch.Vulnerability.Evaluation.{aggregate_advisory_matches}

abbrev pub max_evaluation_components : ℕ
max_evaluation_components = 100000

abbrev pub max_evaluation_advisory_rows : ℕ
max_evaluation_advisory_rows = 200000

abbrev pub max_evaluation_matches : ℕ
max_evaluation_matches = 200000

abbrev pub max_candidates_per_component : ℕ
max_candidates_per_component = 1000

abbrev pub max_evaluation_comparisons : ℕ
max_evaluation_comparisons = 1000000

-- `(match.component_id, match.advisory_id)`
abbrev pub Pair : Type 0
Pair = Text × Text

abbrev pub pair_of : VulnerabilityMatch → Pair
pair_of m = (m.component_id, m.advisory_id)

abbrev pub same_pair : Pair → Pair → Bool
same_pair x y = text_eq x.0 y.0 && text_eq x.1 y.1

-- A group is never empty: its first match, and the others.
abbrev pub Group : Type 0
Group = Pair × (VulnerabilityMatch × List VulnerabilityMatch)

-- `grouped_matches.setdefault(key, []).append(match)`
unfoldable pub add_match : VulnerabilityMatch → List Group → List Group
unfolding text_eq
add_match m [] = (pair_of m, (m, [])) ∷ []
add_match m ((k, (x, xs)) ∷ rest) =
    let later = add_match m rest in
    if same_pair k (pair_of m) then (k, (x, xs ++ m ∷ [])) ∷ rest else (k, (x, xs)) ∷ later

-- The locals of the loops.
pub record Progress : Type 0 where
  pub grouped : List Group
  pub advisory_ids : List Text
  pub comparison_count : ℕ

-- `advisory_ids.add(value)`
unfoldable pub add_id : Text → List Text → List Text
unfolding text_eq
add_id t ids = if any (text_eq t) ids then ids else t ∷ ids

abbrev pub with_match : Progress → Option VulnerabilityMatch → Result Progress
with_match s none = ok s
with_match s (some m) = do
  let grouped = add_match m s.grouped
  raise_if (ltb max_evaluation_matches (length grouped))
      (value_error "vulnerability match candidate limit exceeded")
  ok (record s { grouped = grouped })

-- The loop over the candidates of a component.
unfoldable pub match_candidates :
    Hashing → Pep440 → Naming → ℕ → Component → Progress → List Affected → Result Progress
unfolding match_component add_match add_id
match_candidates h p n started_at c s [] = ok s
match_candidates h p n started_at c s (a ∷ candidates) = do
  s ←
      with_match (record s { advisory_ids = add_id a.advisory_id s.advisory_ids })
        (match_component h p n c a started_at)
  match_candidates h p n started_at c s candidates

-- One turn of the loop over the components.
unfoldable pub evaluate_component :
    Hashing → Pep440 → Naming → ℕ → Index × Index → Progress → Component → Result Progress
unfolding match_candidates found_rows candidates_from
evaluate_component h p n started_at indexes s c = do
  let candidates = candidates_from [] (found_rows indexes c)
  raise_if (ltb max_candidates_per_component (length candidates))
      (value_error "vulnerability candidates per component limit exceeded")
  let comparisons = s.comparison_count + length candidates
  raise_if (ltb max_evaluation_comparisons comparisons)
      (value_error "vulnerability comparison budget exceeded")
  match_candidates h p n started_at c (record s { comparison_count = comparisons }) candidates

unfoldable pub evaluate_components :
    Hashing → Pep440 → Naming → ℕ → Index × Index → Progress → List Component → Result Progress
unfolding evaluate_component
evaluate_components h p n started_at indexes s [] = ok s
evaluate_components h p n started_at indexes s (c ∷ components) = do
  s ← evaluate_component h p n started_at indexes s c
  evaluate_components h p n started_at indexes s components

-- `<` on pairs of texts
abbrev pub pair_less : Pair → Pair → Bool
pair_less x y = text_lt x.0 y.0 || (text_eq x.0 y.0 && text_lt x.1 y.1)

unfoldable pub insert_group : Group → List Group → List Group
unfolding text_eq text_lt
insert_group g [] = g ∷ []
insert_group g (x ∷ xs) =
    let later = insert_group g xs in if pair_less x.0 g.0 then x ∷ later else g ∷ x ∷ xs

-- `sorted(grouped_matches.items())`: the keys differ
unfoldable pub sorted_groups : List Group → List Group
unfolding insert_group
sorted_groups [] = []
sorted_groups (g ∷ gs) = insert_group g (sorted_groups gs)

abbrev pub aggregated : Group → VulnerabilityMatch
aggregated g = aggregate_advisory_matches g.1.0 g.1.1

unfoldable pub matches_of : List Group → List VulnerabilityMatch
unfolding aggregate_advisory_matches sorted_groups
matches_of grouped = map aggregated (sorted_groups grouped)

-- From the components and the advisory rows to the matches that are reconciled.
unfoldable pub evaluate_matches :
    Hashing
    → Pep440
    → Naming
    → ℕ
    → List Component
    → List Affected
    → Result (List VulnerabilityMatch)
unfolding candidate_index evaluate_components matches_of
evaluate_matches h p n started_at components advisory_rows = do
  raise_if (ltb max_evaluation_components (length components))
      (value_error "vulnerability component evaluation limit exceeded")
  raise_if (ltb max_evaluation_advisory_rows (length advisory_rows))
      (value_error "advisory evaluation limit exceeded")
  s ←
      evaluate_components h p n started_at (candidate_index advisory_rows)
        (record { grouped = []; advisory_ids = []; comparison_count = 0 }) components
  ok (matches_of s.grouped)
