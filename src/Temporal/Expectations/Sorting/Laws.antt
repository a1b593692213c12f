-- ===== src/Temporal/Expectations/Sorting/Laws.antt =====
-- A sorted list is ordered, keeps how many elements pass a test, and does not depend on the order of
-- its input.
use mathlib.Core.HLevel.{hedberg}
use mathlib.Core.Logic.{∥∥₁_elim}
use mathlib.Core.List.{Perm, Permᴰ}
use native.Mathlib.Decide.{ℕ_discrete}
use openassetwatch.Prelude.{
  ℕ, zero, suc, ◌≤◌, ◌<◌, ◌≡◌, refl, ◌∙◌, Bool, List, [], ◌∷◌, arith, leb, length, get_or, count_if,
}
use openassetwatch.Temporal.Expectations.Sorting.{insert, sorted}

-- `x` is at most every element.
abbrev pub LeAll : ℕ → List ℕ → Type 0
LeAll x [] = Unit
LeAll x (y ∷ ys) = (x ≤ y) × LeAll x ys

abbrev pub IsSorted : List ℕ → Type 0
IsSorted [] = Unit
IsSorted (x ∷ xs) = LeAll x xs × IsSorted xs

LeAll-trans : (x y : ℕ) (ys : List ℕ) → x ≤ y → LeAll y ys → LeAll x ys
LeAll-trans x y [] h a = tt
LeAll-trans x y (z ∷ zs) h a = (omega arith, LeAll-trans x y zs h a.1)

LeAll-insert : (x y : ℕ) (ys : List ℕ) → x ≤ y → LeAll x ys → LeAll x (insert y ys)
unfolding insert
LeAll-insert x y [] h a = (h, tt)
LeAll-insert x y (z ∷ zs) h a = ground (arith, LeAll-insert x y zs h a.1)

insert-IsSorted : (x : ℕ) (ys : List ℕ) → IsSorted ys → IsSorted (insert x ys)
unfolding insert
insert-IsSorted x [] s = (tt, tt)
insert-IsSorted x (y ∷ ys) s =
    ground (arith, LeAll-trans x y ys, LeAll-insert y x ys, insert-IsSorted x ys s.1)

pub sorted-IsSorted : (xs : List ℕ) → IsSorted (sorted xs)
unfolding sorted
sorted-IsSorted [] = tt
sorted-IsSorted (x ∷ xs) = insert-IsSorted x (sorted xs) (sorted-IsSorted xs)

count_if-insert :
    (p : ℕ → Bool) (x : ℕ) (ys : List ℕ) → count_if p (insert x ys) ≡ count_if p (x ∷ ys)
unfolding insert
count_if-insert p x [] = refl
count_if-insert p x (y ∷ ys) = ground (arith, count_if-insert p x ys)

pub count_if-sorted : (p : ℕ → Bool) (xs : List ℕ) → count_if p (sorted xs) ≡ count_if p xs
unfolding sorted
count_if-sorted p [] = refl
count_if-sorted p (x ∷ xs) = ground (arith, count_if-insert p x (sorted xs), count_if-sorted p xs)

length-insert : (x : ℕ) (ys : List ℕ) → length (insert x ys) ≡ suc (length ys)
unfolding insert
length-insert x [] = refl
length-insert x (y ∷ ys) = ground (arith, length-insert x ys)

pub length-sorted : (xs : List ℕ) → length (sorted xs) ≡ length xs
unfolding sorted
length-sorted [] = refl
length-sorted (x ∷ xs) = omega (arith, length-insert x (sorted xs), length-sorted xs)

-- Of a sorted list, at least the first `k + 1` elements are at most what is at least the `k`th.
pub count_if-le-get_or :
    (xs : List ℕ) (k m : ℕ)
    → IsSorted xs
    → k < length xs
    → get_or xs k 0 ≤ m
    → suc k ≤ count_if (λ x. leb x m) xs
count_if-le-get_or [] k m s h b = absurd (omega arith)
count_if-le-get_or (x ∷ xs) zero m s h b = ground arith
count_if-le-get_or (x ∷ xs) (suc k) m s h b =
    ground (arith, count_if-le-get_or xs k m s.1, LeAll-get_or x xs k s.0)
  where
    LeAll-get_or : (x : ℕ) (ys : List ℕ) (k : ℕ) → LeAll x ys → k < length ys → x ≤ get_or ys k 0
    LeAll-get_or x [] k a h = absurd (omega arith)
    LeAll-get_or x (y ∷ ys) zero a h = a.0
    LeAll-get_or x (y ∷ ys) (suc k) a h = LeAll-get_or x ys k a.1 (omega arith)

-- Neighbours in a sorted list are ordered.
pub get_or_mono :
    (xs : List ℕ) (k : ℕ) → IsSorted xs → suc k < length xs → get_or xs k 0 ≤ get_or xs (suc k) 0
get_or_mono [] k s h = absurd (omega arith)
get_or_mono (x ∷ []) k s h = absurd (omega arith)
get_or_mono (x ∷ y ∷ ys) zero s h = s.0.0
get_or_mono (x ∷ y ∷ ys) (suc k) s h = get_or_mono (y ∷ ys) k s.1 (omega arith)

insert_comm : (x y : ℕ) (l : List ℕ) → insert x (insert y l) ≡ insert y (insert x l)
unfolding insert
insert_comm x y [] = ground arith
insert_comm x y (z ∷ zs) = ground (arith, insert_comm x y zs)

list_discrete : Discrete (List ℕ)
list_discrete = hlevel ℕ_discrete

sorted-eq_of_permᴰ : {xs ys : List ℕ} → Permᴰ xs ys → sorted xs ≡ sorted ys
unfolding sorted
sorted-eq_of_permᴰ Permᴰ.nil = refl
sorted-eq_of_permᴰ (Permᴰ.cons e p) = cc (sorted-eq_of_permᴰ p)
sorted-eq_of_permᴰ (Permᴰ.swap {a} {b} {l = l} e f) = cc (insert_comm a b (sorted l))
sorted-eq_of_permᴰ (Permᴰ.trans p q) = sorted-eq_of_permᴰ p ∙ sorted-eq_of_permᴰ q

pub sorted-eq_of_perm : {xs ys : List ℕ} → Perm xs ys → sorted xs ≡ sorted ys
sorted-eq_of_perm {xs} {ys} p =
    ∥∥₁_elim p (hedberg list_discrete (sorted xs) (sorted ys)) sorted-eq_of_permᴰ
