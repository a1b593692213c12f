-- ===== src/Temporal/Expectations/Range.antt =====
-- `robust_expected_range` of backend/app/temporal_expectations.py. Values and results are numbers of
-- millionths, the quantum of the output. Between them the code computes with `Decimal`: the model
-- computes in parts of 1/40000 of a millionth, in which the median, the median absolute deviation
-- and its multiple by 1.4826 * 3 are whole, so nothing is rounded before the last step. (`Decimal`
-- keeps 28 digits, which is exact here below 10 ^ 17.)
pub mod Median
pub mod Laws
use openassetwatch.Prelude.{
  ℕ, zero, suc, ◌+◌, ◌-◌, ◌*◌, ◌/◌, ◌%◌, Bool, List, [], ◌∷◌, map, ltb, ◌==◌, if◌then◌else◌, length,
  get_or,
}
use openassetwatch.Temporal.Result.{Result, ok, err, value_error}
use openassetwatch.Temporal.Expectations.Sorting.{sorted}

-- The parts of a millionth that the model computes in.
abbrev pub parts : ℕ
parts = 40_000

unfoldable pub median : List ℕ → ℕ
median values =
    let ordered : List ℕ = sorted values in
    let midpoint : ℕ = length ordered / 2 in
    if length ordered % 2 == 1
    then get_or ordered midpoint 0
    else (get_or ordered (midpoint - 1) 0 + get_or ordered midpoint 0) / 2

-- `abs(a - b)`
abbrev pub abs_diff : ℕ → ℕ → ℕ
abs_diff a b = if ltb a b then b - a else a - b

-- `quantize(OUTPUT_QUANTUM, rounding=ROUND_HALF_UP)`
unfoldable pub rounded : ℕ → ℕ
rounded x = (x + 20_000) / parts

-- `mad * ROBUST_MAD_SCALE * ROBUST_RANGE_MULTIPLIER`, that is times 4.4478
unfoldable pub half_width_of : ℕ → ℕ
half_width_of mad = mad * 44_478 / 10_000

pub record Range : Type 0 where
  pub expected : ℕ
  pub lower : ℕ
  pub upper : ℕ

-- The center of the values, in parts.
unfoldable pub center_of : List ℕ → ℕ
center_of values = median (map (λ v. v * parts) values)

-- The median absolute deviation of the values from `center`, in parts.
unfoldable pub deviation_of : ℕ → List ℕ → ℕ
deviation_of center values = median (map (λ v. abs_diff (v * parts) center) values)

-- `max(Decimal(0), center - half_width)` is the truncated subtraction.
unfoldable pub range_around : ℕ → ℕ → Range
unfolding rounded
range_around center half_width = record {
  expected = rounded center;
  lower = rounded (center - half_width);
  upper = rounded (center + half_width);
}

unfoldable pub range_of : List ℕ → Range
range_of values =
    let center : ℕ = center_of values in
    range_around center (half_width_of (deviation_of center values))

unfoldable pub robust_expected_range : List ℕ → Result Range
robust_expected_range [] = err (value_error "robust expected range requires at least one value")
robust_expected_range (v ∷ vs) = ok (range_of (v ∷ vs))
