-- ===== src/Temporal/Expectations/Range/Median.antt =====
-- The median of backend/app/temporal_expectations.py splits its values in halves.
use mathlib.Core.List.{Perm}
use openassetwatch.Prelude.{
  ℕ, zero, suc, ◌+◌, ◌-◌, ◌*◌, ◌/◌, ◌%◌, ◌≤◌, ◌<◌, ◌≡◌, List, [], ◌∷◌, arith, leb, ◌==◌, length,
  get_or, count_if, Bool-cases, inl, inr,
}
use openassetwatch.Temporal.Expectations.Sorting.{sorted}
use openassetwatch.Temporal.Expectations.Sorting.Laws.{
  IsSorted, sorted-IsSorted, count_if-sorted, length-sorted, count_if-le-get_or, get_or_mono,
  sorted-eq_of_perm,
}
use openassetwatch.Temporal.Expectations.Range.{median}

pub median-eq_of_perm : {xs ys : List ℕ} → Perm xs ys → median xs ≡ median ys
unfolding median
median-eq_of_perm p = rw (sorted-eq_of_perm p)

-- The element in the middle, the lower one of two.
abbrev lower_middle : List ℕ → ℕ
lower_middle s = (length s - 1) / 2

le-average :
    (s : List ℕ) (mid : ℕ)
    → IsSorted s
    → 0 < mid
    → mid < length s
    → get_or s (mid - 1) 0 ≤ (get_or s (mid - 1) 0 + get_or s mid 0) / 2
le-average s zero o h b = absurd (omega arith)
le-average s (suc k) o h b =
    let e : suc k - 1 ≡ k = omega arith in rw e (omega (arith, get_or_mono s k o b))

lower_middle-le-median :
    (xs : List ℕ)
    → 0 < length (sorted xs)
    → get_or (sorted xs) (lower_middle (sorted xs)) 0 ≤ median xs
unfolding median
lower_middle-le-median xs h = elim (Bool-cases (length (sorted xs) % 2 == 1)) [
  | inl odd ↦
      let e : lower_middle (sorted xs) ≡ length (sorted xs) / 2 = ground arith in
      rw (odd, e) (omega arith)
  | inr even ↦
      let e : lower_middle (sorted xs) ≡ length (sorted xs) / 2 - 1 = ground arith in
      rw (even, e)
        (le-average (sorted xs) (length (sorted xs) / 2) (sorted-IsSorted xs) (ground arith)
          (omega arith))
]

-- At least half of the values are at most the median.
pub median-covers : (xs : List ℕ) → length xs ≤ 2 * count_if (λ x. leb x (median xs)) xs
median-covers [] = omega arith
median-covers (x ∷ xs) =
    let some_value : 0 < length (sorted (x ∷ xs)) = omega (arith, length-sorted (x ∷ xs)) in
    omega (
      arith,
      length-sorted (x ∷ xs),
      count_if-sorted (λ y. leb y (median (x ∷ xs))) (x ∷ xs),
      count_if-le-get_or (sorted (x ∷ xs)) (lower_middle (sorted (x ∷ xs))) (median (x ∷ xs))
          (sorted-IsSorted (x ∷ xs)) (omega arith) (lower_middle-le-median (x ∷ xs) some_value),
    )
