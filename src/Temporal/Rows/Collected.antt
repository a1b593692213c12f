-- ===== src/Temporal/Rows/Collected.antt =====
-- What the projection's loop over the sources makes of the dictionary of `_project_rows`
-- (backend/app/temporal_store.py).
use openassetwatch.Prelude.{
  ℕ, ◌≤◌, ◌<◌, ◌≡◌, refl, false, not, Option, none, some, List, [], ◌∷◌, ◌++◌, arith, leb, ltb,
  ◌&&◌, ◌==◌, is_none, Bool-cases, inl, inr,
}
use openassetwatch.Temporal.Result.{Error, ok, raise_if, >>=-eq-ok}
use openassetwatch.Temporal.Clock.{as_utc}
use openassetwatch.Temporal.Projection.Signals.{Aggregate}
use openassetwatch.Temporal.Projection.Service.{find_source, collect_sources}
use openassetwatch.Temporal.Rows.{Row, bucket_of, aggregate_of, project_from, project_rows, items}

-- No key occurs twice.
abbrev pub DistinctKeys : List (ℕ × Aggregate) → Type 0
DistinctKeys [] = Unit
DistinctKeys ((t, a) ∷ rest) = (find_source t rest ≡ none) × DistinctKeys rest

find_source-snoc :
    (t u : ℕ) (a : Aggregate) (xs : List (ℕ × Aggregate))
    → (t == u) ≡ false
    → find_source t xs ≡ none
    → find_source t (xs ++ ((u, a) ∷ [])) ≡ none
unfolding find_source
find_source-snoc t u a [] d h = ground arith
find_source-snoc t u a ((v, b) ∷ xs) d h = ground (arith, find_source-snoc t u a xs d)

snoc-DistinctKeys :
    (t : ℕ) (a : Aggregate) (xs : List (ℕ × Aggregate))
    → DistinctKeys xs
    → find_source t xs ≡ none
    → DistinctKeys (xs ++ ((t, a) ∷ []))
unfolding find_source
snoc-DistinctKeys t a [] d h = (refl, tt)
snoc-DistinctKeys t a ((u, b) ∷ xs) d h =
    let differs : (u == t) ≡ false = ground arith in
    let rest : find_source t xs ≡ none = ground arith in
    (find_source-snoc u t a xs differs d.0, snoc-DistinctKeys t a xs d.1 rest)

pub unchecked :
    (e : Error) (found : Option Aggregate) → raise_if (not (is_none found)) e ≡ ok tt → found ≡ none
unchecked e none h = refl
unchecked e (some a) h = absurd (cc)

pub project_from-DistinctKeys :
    (rows : List Row) (projected : List (ℕ × Aggregate)) {ps : List (ℕ × Aggregate)}
    → DistinctKeys projected
    → project_from rows projected ≡ ok ps
    → DistinctKeys ps
unfolding project_from
project_from-DistinctKeys [] projected {ps} d e = let p : ps ≡ projected = cc in rw p d
project_from-DistinctKeys (row ∷ rows) projected d e =
    let (bucket, eb, e1) = >>=-eq-ok (bucket_of row) _ e in
    let (checked, ec, e2) =
      >>=-eq-ok (raise_if (not (is_none (find_source bucket projected))) _) _ e1 in
    let (a, ea, e3) = >>=-eq-ok (aggregate_of row) _ e2 in
    project_from-DistinctKeys rows _
      (snoc-DistinctKeys bucket a projected d (unchecked _ (find_source bucket projected) ec)) e3

-- The loop's result: what was found before it, and then what the items give, within the window.
abbrev Finds : ℕ → ℕ → List (ℕ × Aggregate) → List (ℕ × Aggregate) → List (ℕ × Aggregate) → Type 0
Finds start stop before ps sources =
    (t : ℕ)
    → start ≤ t
    → t < stop
    → find_source t before ≡ none
    → find_source t sources ≡ find_source t ps

abbrev Keeps : List (ℕ × Aggregate) → List (ℕ × Aggregate) → Type 0
Keeps before sources =
    (t : ℕ) (a : Aggregate) → find_source t before ≡ some a → find_source t sources ≡ some a

-- No key of the items is among the sources so far.
abbrev Fresh : List (ℕ × Aggregate) → List (ℕ × Aggregate) → Type 0
Fresh before [] = Unit
Fresh before ((t, a) ∷ rest) = (find_source t before ≡ none) × Fresh before rest

Fresh-cons :
    (t : ℕ) (a : Aggregate) (before ps : List (ℕ × Aggregate))
    → find_source t ps ≡ none
    → Fresh before ps
    → Fresh ((t, a) ∷ before) ps
unfolding find_source
Fresh-cons t a before [] h f = tt
Fresh-cons t a before ((u, b) ∷ ps) h f =
    let differs : (u == t) ≡ false = ground arith in
    let rest : find_source t ps ≡ none = ground arith in
    (rw differs f.0, Fresh-cons t a before ps rest f.1)

Fresh-nil : (ps : List (ℕ × Aggregate)) → Fresh [] ps
unfolding find_source
Fresh-nil [] = tt
Fresh-nil ((t, a) ∷ ps) = (refl, Fresh-nil ps)

Finds-entered :
    (start stop t : ℕ) (a : Aggregate) (before ps sources : List (ℕ × Aggregate))
    → Finds start stop ((t, a) ∷ before) ps sources
    → Keeps ((t, a) ∷ before) sources
    → Finds start stop before ((t, a) ∷ ps) sources
unfolding find_source
Finds-entered start stop t a before ps sources finds keeps u l s n = elim (Bool-cases (u == t)) [
  | inl same ↦ rw same (keeps u a (rw same refl))
  | inr differs ↦ rw differs (finds u l s (rw differs n))
]

Keeps-entered :
    (t : ℕ) (a : Aggregate) (before sources : List (ℕ × Aggregate))
    → find_source t before ≡ none
    → Keeps ((t, a) ∷ before) sources
    → Keeps before sources
unfolding find_source
Keeps-entered t a before sources n keeps u b h =
    let differs : (u == t) ≡ false = ground arith in keeps u b (rw differs h)

Finds-skipped :
    (start stop t : ℕ) (a : Aggregate) (before ps sources : List (ℕ × Aggregate))
    → (leb start t && ltb t stop) ≡ false
    → Finds start stop before ps sources
    → Finds start stop before ((t, a) ∷ ps) sources
unfolding find_source
Finds-skipped start stop t a before ps sources outside finds u l s n =
    let differs : (u == t) ≡ false = ground arith in rw differs (finds u l s n)

collect_sources-items :
    (start stop : ℕ) (ps before : List (ℕ × Aggregate))
    → DistinctKeys ps
    → Fresh before ps
    → (sources : List (ℕ × Aggregate)) × (collect_sources start stop (items ps) before ≡ ok sources)
      × Finds start stop before ps sources
      × Keeps before sources
unfolding collect_sources items as_utc find_source
collect_sources-items start stop [] before d f = (before, refl, (λ t l u n. n), (λ t a h. h))
collect_sources-items start stop ((t, a) ∷ ps) before d f =
    elim (Bool-cases (leb start t && ltb t stop)) [
      | inl inside ↦
          let (sources, e, finds, keeps) =
            collect_sources-items start stop ps ((t, a) ∷ before) d.1
              (Fresh-cons t a before ps d.0 f.1) in
          (
            sources,
            rw (inside, f.0) e,
            Finds-entered start stop t a before ps sources finds keeps,
            Keeps-entered t a before sources f.0 keeps,
          )
      | inr outside ↦
          let (sources, e, finds, keeps) = collect_sources-items start stop ps before d.1 f.1 in
          (
            sources,
            rw outside e,
            Finds-skipped start stop t a before ps sources outside finds,
            keeps,
          )
    ]

-- If the rows of a query are projected, then in every window the projection's loop over the items
-- raises no error, and it finds for each time of the window the aggregate under that key.
pub project_rows-collected :
    (rows : List Row) (start stop : ℕ) {ps : List (ℕ × Aggregate)}
    → project_rows rows ≡ ok ps
    → (sources : List (ℕ × Aggregate)) × (collect_sources start stop (items ps) [] ≡ ok sources)
      × ((t : ℕ) → start ≤ t → t < stop → find_source t sources ≡ find_source t ps)
unfolding project_rows find_source
project_rows-collected rows start stop {ps} e =
    let (sources, c, finds, keeps) =
      collect_sources-items start stop ps [] (project_from-DistinctKeys rows [] tt e)
        (Fresh-nil ps) in
    (sources, c, λ t l u. finds t l u refl)
