-- ===== src/Temporal/Expectations/Sorting.antt =====
-- Python's `sorted` on numbers, as the median of backend/app/temporal_expectations.py uses it.
pub mod Laws
use openassetwatch.Prelude.{ℕ, Bool, List, [], ◌∷◌, leb, if◌then◌else◌}

unfoldable pub insert : ℕ → List ℕ → List ℕ
insert x [] = x ∷ []
insert x (y ∷ ys) = if leb x y then x ∷ y ∷ ys else y ∷ insert x ys

unfoldable pub sorted : List ℕ → List ℕ
unfolding insert
sorted [] = []
sorted (x ∷ xs) = insert x (sorted xs)
