-- ===== src/Temporal/Rows/Examples.antt =====
-- The rows of two days projected, and instances of the theorems about the projection of rows.
use openassetwatch.Prelude.{
  ℕ, ◌+◌, ◌≡◌, ◌≤◌, ◌<◌, ◌↔◌, refl, true, Option, none, some, List, [], ◌∷◌,
}
use openassetwatch.Temporal.Result.{ok, err, runtime_error}
use openassetwatch.Temporal.Clock.{naive, aware, day}
use openassetwatch.Temporal.Projection.Signals.{Aggregate}
use openassetwatch.Temporal.Projection.Service.{find_source, collect_sources}
use openassetwatch.Temporal.Examples.{target_start, aggregate_at}
use openassetwatch.Temporal.Rows.{
  Row, Number, from_zero, utc, or_zero, truth, aggregate, aggregate_of, bucket_of, project_from,
  project_rows, items,
}
use openassetwatch.Temporal.Rows.Collected.{DistinctKeys, project_rows-collected}
use openassetwatch.Temporal.Rows.Entries.{EachProjected, project_rows-eq-ok_iff}

abbrev row_at : Option Number → ℕ → Row
row_at value t = record {
  bucket_start = some (aware t);
  value = value;
  evidence_count = some (from_zero 1);
  source_observed_at = some (aware (t + day));
  source_received_at = some (aware (t + day));
  complete = some true;
  coverage_observed = some true;
}

abbrev two_rows : List Row
two_rows = row_at (some (from_zero 10)) target_start ∷ row_at none (target_start + day) ∷ []

abbrev two_entries : List (ℕ × Aggregate)
two_entries =
    (target_start, aggregate_at 10_000_000 target_start)
    ∷ (target_start + day, aggregate_at 0 (target_start + day))
    ∷ []

two_rows_projected : project_rows two_rows ≡ ok two_entries
unfolding project_rows project_from bucket_of aggregate_of aggregate utc or_zero truth find_source
two_rows_projected = refl

duplicate_refused :
    project_rows (row_at none target_start ∷ row_at none target_start ∷ [])
    ≡ err (runtime_error "temporal source query returned a duplicate bucket")
unfolding project_rows project_from bucket_of aggregate_of aggregate utc or_zero truth find_source
duplicate_refused = refl

naive_refused :
    project_rows
      (record (row_at none target_start) { bucket_start = some (naive target_start) } ∷ [])
    ≡ err (runtime_error "temporal source timestamps must include a timezone")
unfolding project_rows project_from bucket_of utc
naive_refused = refl

project_rows-collected_example :
    (sources : List (ℕ × Aggregate)) × (collect_sources target_start
        (target_start + day)
        (items two_entries)
        []
      ≡ ok sources)
    × ((t : ℕ)
        → target_start ≤ t
        → t < target_start + day
        → find_source t sources ≡ find_source t two_entries)
project_rows-collected_example =
    project_rows-collected two_rows target_start (target_start + day) two_rows_projected

project_rows-eq-ok_iff_example :
    (project_rows two_rows ≡ ok two_entries)
    ↔ (EachProjected two_rows two_entries × DistinctKeys two_entries)
project_rows-eq-ok_iff_example = project_rows-eq-ok_iff two_rows two_entries
