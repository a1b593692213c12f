-- ===== src/Temporal/Rows/Entries.antt =====
-- The dictionary that `_project_rows` (backend/app/temporal_store.py) makes, entry by entry.
use openassetwatch.Prelude.{
  ℕ, ◌≡◌, refl, ◌↔◌, false, not, none, List, [], ◌∷◌, ◌++◌, arith, ◌==◌, is_none, sym, ◌∙◌,
  append_assoc, append_nil,
}
use openassetwatch.Temporal.Result.{ok, raise_if, >>=-eq-ok}
use openassetwatch.Temporal.Projection.Signals.{Aggregate}
use openassetwatch.Temporal.Projection.Service.{find_source}
use openassetwatch.Temporal.Rows.{Row, bucket_of, aggregate_of, project_from, project_rows}
use openassetwatch.Temporal.Rows.Collected.{DistinctKeys, project_from-DistinctKeys}

-- One entry for each row, in order: its bucket with its aggregate.
abbrev pub EachProjected : List Row → List (ℕ × Aggregate) → Type 0
EachProjected [] [] = Unit
EachProjected [] (entry ∷ entries) = ⊥
EachProjected (row ∷ rows) [] = ⊥
EachProjected (row ∷ rows) ((t, a) ∷ entries) =
    (bucket_of row ≡ ok t) × (aggregate_of row ≡ ok a) × EachProjected rows entries

project_from-entries :
    (rows : List Row) (projected : List (ℕ × Aggregate)) {ps : List (ℕ × Aggregate)}
    → project_from rows projected ≡ ok ps
    → (entries : List (ℕ × Aggregate)) × (ps ≡ projected ++ entries) × EachProjected rows entries
unfolding project_from
project_from-entries [] projected {ps} e =
    let p : ps ≡ projected = cc in ([], rw (append_nil projected) p, tt)
project_from-entries (row ∷ rows) projected {ps} e =
    let (bucket, eb, e1) = >>=-eq-ok (bucket_of row) _ e in
    let (checked, ec, e2) =
      >>=-eq-ok (raise_if (not (is_none (find_source bucket projected))) _) _ e1 in
    let (a, ea, e3) = >>=-eq-ok (aggregate_of row) _ e2 in
    let (entries, p, each) = project_from-entries rows _ e3 in
    ((bucket, a) ∷ entries, p ∙ append_assoc projected ((bucket, a) ∷ []) entries, (eb, ea, each))

find_source-differs :
    (u t : ℕ) (a : Aggregate) (before after : List (ℕ × Aggregate))
    → find_source u (before ++ ((t, a) ∷ after)) ≡ none
    → (t == u) ≡ false
unfolding find_source
find_source-differs u t a [] after h = ground arith
find_source-differs u t a ((v, b) ∷ before) after h =
    find_source-differs u t a before after (ground arith)

find_source-before :
    (t : ℕ) (a : Aggregate) (before after : List (ℕ × Aggregate))
    → DistinctKeys (before ++ ((t, a) ∷ after))
    → find_source t before ≡ none
unfolding find_source
find_source-before t a [] after d = refl
find_source-before t a ((u, b) ∷ before) after d =
    let rest : find_source t before ≡ none = find_source-before t a before after d.1 in
    let differs : (t == u) ≡ false = find_source-differs u t a before after d.0 in rw differs rest

from_entries :
    (rows : List Row) (projected entries : List (ℕ × Aggregate))
    → EachProjected rows entries
    → DistinctKeys (projected ++ entries)
    → project_from rows projected ≡ ok (projected ++ entries)
unfolding project_from
from_entries [] projected [] each d = rw (append_nil projected) refl
from_entries [] projected (entry ∷ entries) each d = absurd each
from_entries (row ∷ rows) projected [] each d = absurd each
from_entries (row ∷ rows) projected ((t, a) ∷ entries) (eb, ea, each) d =
    rw (eb, find_source-before t a projected entries d, ea)
      (rw (sym (append_assoc projected ((t, a) ∷ []) entries)) (
        from_entries rows (projected ++ ((t, a) ∷ [])) entries each
          (rw (append_assoc projected ((t, a) ∷ []) entries) d)))

-- The rows of a query are projected to a dictionary exactly when it has one entry for each row, in
-- order, of the row's bucket and aggregate, and no bucket occurs twice.
pub project_rows-eq-ok_iff :
    (rows : List Row) (ps : List (ℕ × Aggregate))
    → (project_rows rows ≡ ok ps) ↔ (EachProjected rows ps × DistinctKeys ps)
unfolding project_rows
project_rows-eq-ok_iff rows ps = (
  λ e.
      let (entries, p, each) = project_from-entries rows [] e in
      (rw p each, project_from-DistinctKeys rows [] tt e),
  λ (each, d). from_entries rows [] ps each d,
)
