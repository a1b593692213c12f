-- ===== src/Vulnerability/Index.antt =====
-- `_candidate_index` of backend/app/vulnerability_service.py, and how `evaluate_vulnerabilities`
-- finds the candidates of a component with it.
pub mod Lookup
use openassetwatch.Prelude.{
  ℕ, Bool, true, false, not, ◌&&◌, Option, none, some, List, [], ◌∷◌, ◌++◌, ◌=s=◌, if◌then◌else◌,
  String,
}
use openassetwatch.Text.{Text, text_eq}
use openassetwatch.Versions.Characters.{is_empty}
use openassetwatch.Vulnerability.Records.{Component, Affected}

-- Ecosystem, and identifier or name.
abbrev pub Key : Type 0
Key = String × Text

abbrev pub same_key : Key → Key → Bool
same_key k l = k.0 =s= l.0 && text_eq k.1 l.1

-- A dictionary of lists, in the order in which its keys came.
abbrev pub Index : Type 0
Index = List (Key × List Affected)

-- `index.setdefault(key, []).append(item)`
unfoldable pub append_at : Key → Affected → Index → Index
unfolding text_eq
append_at k item [] = (k, item ∷ []) ∷ []
append_at k item ((l, items) ∷ rest) =
    let later = append_at k item rest in
    if same_key l k then (l, items ++ item ∷ []) ∷ rest else (l, items) ∷ later

-- `index.get(key, [])`
unfoldable pub lookup : Key → Index → List Affected
unfolding text_eq
lookup k [] = []
lookup k ((l, items) ∷ rest) = let later = lookup k rest in if same_key l k then items else later

-- `str(value or "")`
abbrev pub or_empty : Option Text → Text
or_empty none = []
or_empty (some t) = t

abbrev pub identifier_key : Affected → Key
identifier_key a = (a.ecosystem, or_empty a.canonical_identifier)

abbrev pub name_key : Affected → Key
name_key a = (a.ecosystem, or_empty a.normalized_name)

-- `if value: index.setdefault(…)`
abbrev pub append_if : Key → Affected → Index → Index
append_if k item index = if is_empty k.1 then index else append_at k item index

-- The loop over the rows, from the indexes so far.
unfoldable pub index_from : Index × Index → List Affected → Index × Index
unfolding append_at
index_from (by_identifier, by_name) [] = (by_identifier, by_name)
index_from (by_identifier, by_name) (item ∷ rows) =
    index_from
      (append_if (identifier_key item) item by_identifier, append_if (name_key item) item by_name)
      rows

unfoldable pub candidate_index : List Affected → Index × Index
unfolding index_from
candidate_index rows = index_from ([], []) rows

-- The rows that may be about a component: by its identifier, when it has one, and by its name.
unfoldable pub found_rows : Index × Index → Component → List Affected
unfolding lookup
found_rows (by_identifier, by_name) c =
    (if is_empty (or_empty c.canonical_identifier)
      then []
      else lookup (c.ecosystem, or_empty c.canonical_identifier) by_identifier)
    ++ lookup (c.ecosystem, or_empty c.normalized_name) by_name

-- `candidates[str(item["affected_id"])] = item`: a later row takes an earlier one's place.
unfoldable pub put : Affected → List Affected → List Affected
unfolding text_eq
put item [] = item ∷ []
put item (x ∷ xs) =
    let later = put item xs in
    if text_eq x.affected_id item.affected_id then item ∷ xs else x ∷ later

unfoldable pub candidates_from : List Affected → List Affected → List Affected
unfolding put
candidates_from candidates [] = candidates
candidates_from candidates (item ∷ items) = candidates_from (put item candidates) items
