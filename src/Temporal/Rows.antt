-- ===== src/Temporal/Rows.antt =====
-- `_project_rows` and `_utc` of backend/app/temporal_store.py: the rows of a query as the dictionary
-- of source aggregates. A row is a parameter of the model: the columns that the query returned.
pub mod Collected
pub mod Entries
mod Examples
use openassetwatch.Prelude.{
  ℕ, ◌*◌, Bool, true, false, not, ◌||◌, Option, none, some, List, [], ◌∷◌, ◌++◌, map, is_none,
}
use openassetwatch.Temporal.Result.{
  Result, ok, err, runtime_error, value_error, ◌>>=◌, ◌>>◌, raise_if,
}
use openassetwatch.Temporal.Clock.{Stamp, naive, aware}
use openassetwatch.Temporal.Projection.Signals.{Aggregate}
use openassetwatch.Temporal.Projection.Service.{find_source}

-- A whole number of a numeric column; `below n` is `-(n + 1)`.
pub data Number : Type 0 where
  from_zero below : ℕ → Number

-- A column that is missing from the row, or null, is `none`.
pub record Row : Type 0 where
  pub bucket_start : Option Stamp
  pub value : Option Number
  pub evidence_count : Option Number
  pub source_observed_at : Option Stamp
  pub source_received_at : Option Stamp
  pub complete : Option Bool
  pub coverage_observed : Option Bool

unfoldable pub utc : Option Stamp → Result (Option ℕ)
utc none = ok none
utc (some (naive t)) = err (runtime_error "temporal source timestamps must include a timezone")
utc (some (aware t)) = ok (some t)

-- `int(value or 0)`
unfoldable pub or_zero : Option Number → Number
or_zero none = from_zero 0
or_zero (some n) = n

-- `bool(value)`
unfoldable pub truth : Option Bool → Bool
truth none = false
truth (some b) = b

-- The construction of a `ProjectionAggregate`, whose value is kept in millionths.
unfoldable pub aggregate : Number → Number → Option ℕ → Option ℕ → Bool → Bool → Result Aggregate
aggregate (from_zero v) (from_zero n) observed received complete coverage = ok (record {
  value = v * 1_000_000;
  evidence_count = n;
  source_observed_at = observed;
  source_received_at = received;
  complete = complete;
  coverage_observed = coverage;
})
aggregate (from_zero v) (below n) observed received complete coverage =
    err (value_error "temporal aggregates cannot be negative")
aggregate (below v) n observed received complete coverage =
    err (value_error "temporal aggregates cannot be negative")

unfoldable pub aggregate_of : Row → Result Aggregate
aggregate_of row = do
  observed ← utc row.source_observed_at
  received ← utc row.source_received_at
  aggregate (or_zero row.value) (or_zero row.evidence_count) observed received (truth row.complete)
      (truth row.coverage_observed)

-- The key of a row.
unfoldable pub bucket_of : Row → Result ℕ
bucket_of row = utc row.bucket_start >>= λ bucket. elim bucket [
  | none ↦ err (runtime_error "temporal source query returned a null bucket")
  | some t ↦ ok t
]

-- The loop over the rows; the last argument is the dictionary so far, in order of insertion.
unfoldable pub project_from : List Row → List (ℕ × Aggregate) → Result (List (ℕ × Aggregate))
project_from [] projected = ok projected
project_from (row ∷ rows) projected = do
  bucket ← bucket_of row
  raise_if (not (is_none (find_source bucket projected)))
      (runtime_error "temporal source query returned a duplicate bucket")
  a ← aggregate_of row
  project_from rows (projected ++ ((bucket, a) ∷ []))

unfoldable pub project_rows : List Row → Result (List (ℕ × Aggregate))
project_rows rows = project_from rows []

-- The items of the dictionary, its keys UTC datetimes.
unfoldable pub items : List (ℕ × Aggregate) → List (Stamp × Aggregate)
items [] = []
items ((t, a) ∷ rest) = (aware t, a) ∷ items rest
