-- ===== src/Temporal/Expectations/Range/Laws.antt =====
-- What the expected range promises: it brackets the expected value, it holds at least half of the
-- values that it is computed from, and it does not depend on their order.
use mathlib.Core.List.{Perm}
use mathlib.Core.List.Perm
use mathlib.Core.Path.{subst}
use openassetwatch.Prelude.{
  ℕ, ◌+◌, ◌-◌, ◌*◌, ◌≤◌, ◌<◌, ◌≡◌, refl, sym, ap, List, [], ◌∷◌, map, arith, leb, ◌&&◌, Bool, true,
  length, length-map, count_if,
}
use openassetwatch.Temporal.Result.{ok}
use openassetwatch.Temporal.Expectations.Range.{
  Range, parts, median, abs_diff, rounded, half_width_of, center_of, deviation_of, range_around,
  range_of, robust_expected_range,
}
use openassetwatch.Temporal.Expectations.Range.Median.{median-eq_of_perm, median-covers}

rounded_mono : (x y : ℕ) → x ≤ y → rounded x ≤ rounded y
unfolding rounded
rounded_mono x y h = omega arith

-- The range brackets the expected value.
pub range_around_bounds :
    (c w : ℕ)
    → ((range_around c w).lower ≤ (range_around c w).expected)
      × ((range_around c w).expected ≤ (range_around c w).upper)
unfolding range_around
range_around_bounds c w =
    (rounded_mono (c - w) c (omega arith), rounded_mono c (c + w) (omega arith))

-- `lower <= v <= upper`
abbrev pub is_within : Range → ℕ → Bool
is_within r v = leb r.lower v && leb v r.upper

half_width_of-le : (mad : ℕ) → mad ≤ half_width_of mad
unfolding half_width_of
half_width_of-le mad = omega arith

-- A value that deviates by no more than the half width is in the rounded range.
is_within-range_around :
    (c w v : ℕ) → abs_diff (v * parts) c ≤ w → is_within (range_around c w) v ≡ true
unfolding range_around rounded
is_within-range_around c w v h = ground arith

count_within :
    (c mad : ℕ) (vs : List ℕ)
    → count_if (λ x. leb x mad) (map (λ v. abs_diff (v * parts) c) vs)
      ≤ count_if (is_within (range_around c (half_width_of mad))) vs
count_within c mad [] = omega arith
count_within c mad (v ∷ vs) = ground (
  arith,
  count_within c mad vs,
  half_width_of-le mad,
  is_within-range_around c (half_width_of mad) v,
)

within_of_deviation :
    (c : ℕ) (vs : List ℕ)
    → length vs ≤ 2 * count_if (is_within (range_around c (half_width_of (deviation_of c vs)))) vs
unfolding deviation_of
within_of_deviation c vs = omega (
  arith,
  median-covers (map (λ v. abs_diff (v * parts) c) vs),
  length-map vs (λ v. abs_diff (v * parts) c),
  count_within c (median (map (λ v. abs_diff (v * parts) c) vs)) vs,
)

range_of-covers : (vs : List ℕ) → length vs ≤ 2 * count_if (is_within (range_of vs)) vs
unfolding range_of
range_of-covers vs = within_of_deviation (center_of vs) vs

range_of_bounds :
    (vs : List ℕ)
    → ((range_of vs).lower ≤ (range_of vs).expected)
      × ((range_of vs).expected ≤ (range_of vs).upper)
unfolding range_of
range_of_bounds vs = range_around_bounds (center_of vs) _

pub robust_expected_range-eq-range_of :
    (vs : List ℕ) {r : Range} → robust_expected_range vs ≡ ok r → r ≡ range_of vs
unfolding robust_expected_range
robust_expected_range-eq-range_of [] e = cc
robust_expected_range-eq-range_of (v ∷ vs) e = cc

-- The range that is returned for some values holds at least half of them.
pub robust_expected_range-covers :
    (vs : List ℕ) {r : Range}
    → robust_expected_range vs ≡ ok r
    → length vs ≤ 2 * count_if (is_within r) vs
robust_expected_range-covers vs e =
    subst (λ x. length vs ≤ 2 * count_if (is_within x) vs)
      (sym (robust_expected_range-eq-range_of vs e)) (range_of-covers vs)

-- The range that is returned brackets its expected value.
pub robust_expected_range_bounds :
    (vs : List ℕ) {r : Range}
    → robust_expected_range vs ≡ ok r
    → (r.lower ≤ r.expected) × (r.expected ≤ r.upper)
robust_expected_range_bounds vs e =
    subst (λ x. (x.lower ≤ x.expected) × (x.expected ≤ x.upper))
      (sym (robust_expected_range-eq-range_of vs e)) (range_of_bounds vs)

pub robust_expected_range-some :
    (vs : List ℕ) → 0 < length vs → (r : Range) × (robust_expected_range vs ≡ ok r)
unfolding robust_expected_range
robust_expected_range-some [] h = absurd (omega arith)
robust_expected_range-some (v ∷ vs) h = (_, refl)

center_of-eq_of_perm : {xs ys : List ℕ} → Perm xs ys → center_of xs ≡ center_of ys
unfolding center_of
center_of-eq_of_perm p = median-eq_of_perm (Perm.map _ p)

deviation_of-eq_of_perm :
    (c : ℕ) {xs ys : List ℕ} → Perm xs ys → deviation_of c xs ≡ deviation_of c ys
unfolding deviation_of
deviation_of-eq_of_perm c p = median-eq_of_perm (Perm.map _ p)

range_of-eq_of_perm : (xs ys : List ℕ) → Perm xs ys → range_of xs ≡ range_of ys
unfolding range_of
range_of-eq_of_perm xs ys p = rw (center_of-eq_of_perm p, deviation_of-eq_of_perm (center_of ys) p)

-- The same values in another order have the same range, or both have none.
pub robust_expected_range-eq_of_perm :
    (xs ys : List ℕ) → Perm xs ys → robust_expected_range xs ≡ robust_expected_range ys
unfolding robust_expected_range
robust_expected_range-eq_of_perm [] [] p = refl
robust_expected_range-eq_of_perm [] (y ∷ ys) p = cc (Perm.nil-eq p)
robust_expected_range-eq_of_perm (x ∷ xs) [] p = cc (Perm.nil-eq (Perm.symm p))
robust_expected_range-eq_of_perm (x ∷ xs) (y ∷ ys) p =
    ap ok (range_of-eq_of_perm (x ∷ xs) (y ∷ ys) p)
