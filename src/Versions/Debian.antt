-- ===== src/Versions/Debian.antt =====
-- `_debian_non_digit_order`, `_debian_part_compare` and `_debian_compare` of
-- backend/app/version_intelligence.py. The modules below give the order an independent key.
pub mod Key
pub mod Numbers
pub mod Rounds
pub mod Agreement
pub mod Refinement
use openassetwatch.Prelude.{
  ℕ, zero, suc, ◌+◌, Bool, ◌&&◌, Option, none, some, List, [], ◌∷◌, ◌==◌, if◌then◌else◌, length,
  any,
}
use openassetwatch.Text.{Text}
use openassetwatch.Temporal.Result.{Result, ok, err, Error, value_error, ◌>>=◌}
use openassetwatch.Versions.Order.{
  Order, less, equal, greater, or_else, ℤ, pos, negsuc, integer_order, number_order, number_ordered,
}
use openassetwatch.Versions.Order.Tuples.{list_order}
use openassetwatch.Versions.Characters.{is_digit, is_letter, is_empty, leading, after}
use openassetwatch.Versions.Schemes.Rpm.{split_epoch}

-- No character is the empty text.
abbrev pub non_digit_order : Option ℕ → ℤ
non_digit_order none = pos 0
non_digit_order (some c) =
    if c == b'~' then negsuc 0 else if is_letter c then pos c else pos (c + 256)

-- The character at the index when it is no digit, and the text after the loop has passed it.
abbrev pub non_digit : Text → Option ℕ
non_digit [] = none
non_digit (c ∷ cs) = if is_digit c then none else some c

abbrev pub past_non_digit : Text → Text
past_non_digit [] = []
past_non_digit (c ∷ cs) = if is_digit c then c ∷ cs else cs

-- The inner loop: an order that it returns, or what is left of the two texts.
pub data Scan : Type 0 where
  decided : Order → Scan
  reached : Text → Text → Scan

abbrev pub unless_decided : Order → Scan → Scan
unless_decided less next = decided less
unless_decided equal next = next
unless_decided greater next = decided greater

-- The loop where the left text is at a digit or at its end.
unfoldable pub scan_right : Text → Text → Scan
scan_right left [] = reached left []
scan_right left (d ∷ ds) =
    let next = scan_right left ds in
    if is_digit d
    then reached left (d ∷ ds)
    else unless_decided (integer_order (non_digit_order none) (non_digit_order (some d))) next

unfoldable pub scan : Text → Text → Scan
unfolding scan_right
scan [] right = scan_right [] right
scan (c ∷ cs) right =
    let next = scan cs (past_non_digit right) in
    if is_digit c
    then scan_right (c ∷ cs) right
    else unless_decided
        (integer_order (non_digit_order (some c)) (non_digit_order (non_digit right))) next

-- `digits.lstrip("0") or "0"`
unfoldable pub significant : Text → Text
unfolding after
significant digits =
    let stripped = after (λ c. c == b'0') digits in
    if is_empty stripped then b'0' ∷ [] else stripped

-- The order of two runs of digits: the longer one first, then the texts.
unfoldable pub digits_order : Text → Text → Order
unfolding significant
digits_order left right =
    or_else (number_order (length (significant left)) (length (significant right)))
      (list_order (significant left) (significant right))

-- `MAX_VERSION_PARTS * 4`
abbrev pub max_rounds : ℕ
max_rounds = 256

abbrev pub too_many_segments : Error
too_many_segments = value_error "version has too many segments"

-- `order or second`
abbrev pub order_or : Order → Result Order → Result Order
order_or less second = ok less
order_or equal second = second
order_or greater second = ok greater

-- The outer loop, with the number of rounds that are left.
unfoldable pub part_rounds : ℕ → Text → Text → Result Order
unfolding scan digits_order leading after
part_rounds zero left right =
    if is_empty left && is_empty right then ok equal else err too_many_segments
part_rounds (suc rounds) left right =
    if is_empty left && is_empty right then ok equal else elim (scan left right) [
      | decided order ↦ ok order
      | reached left right ↦
          order_or (digits_order (leading is_digit left) (leading is_digit right))
            (part_rounds rounds (after is_digit left) (after is_digit right))
    ]

unfoldable pub debian_part_compare : Text → Text → Result Order
unfolding part_rounds
debian_part_compare left right = part_rounds max_rounds left right

abbrev pub is_dash : ℕ → Bool
is_dash c = c == b'-'

-- `text.rsplit("-", 1)`
unfoldable pub before_last_dash : Text → Text
before_last_dash [] = []
before_last_dash (c ∷ cs) =
    let rest = before_last_dash cs in if any is_dash cs then c ∷ rest else []

unfoldable pub after_last_dash : Text → Text
after_last_dash [] = []
after_last_dash (c ∷ cs) = let rest = after_last_dash cs in if any is_dash cs then rest else cs

abbrev pub upstream_of : Text → Text
upstream_of t = if any is_dash t then before_last_dash t else t

abbrev pub revision_of : Text → Text
revision_of t = if any is_dash t then after_last_dash t else b'0' ∷ []

-- Upstream version and revision of the texts behind the epochs.
unfoldable pub remainder_compare : Text → Text → Result Order
unfolding debian_part_compare before_last_dash after_last_dash
remainder_compare left right = do
  upstream_order ← debian_part_compare (upstream_of left) (upstream_of right)
  order_or upstream_order (debian_part_compare (revision_of left) (revision_of right))

unfoldable pub debian_compare : Text → Text → Result Order
unfolding split_epoch remainder_compare
debian_compare left right = do
  (left_epoch, left_remainder) ← split_epoch left
  (right_epoch, right_remainder) ← split_epoch right
  order_or (number_order left_epoch right_epoch) (remainder_compare left_remainder right_remainder)
