-- ===== src/Versions/Debian/Numbers.antt =====
-- Runs of digits that are compared by length and then as texts are compared as numbers.
use openassetwatch.Prelude.{
  ℕ, ◌+◌, ◌-◌, ◌*◌, ◌≤◌, ◌<◌, ◌≡◌, refl, ◌∙◌, ◌⊎◌, inl, inr, Bool, true, [], ◌∷◌, arith, ◌==◌,
  length, all,
}
use openassetwatch.Text.{Text}
use openassetwatch.Versions.Order.{
  Order, less, equal, greater, or_else, number_order, number_ordered,
}
use openassetwatch.Versions.Order.Tuples.{list_order}
use openassetwatch.Versions.Characters.{is_digit, after, numeral_from, numeral}
use openassetwatch.Versions.Debian.{significant, digits_order}

-- A smaller number stays smaller under no more digits.
numeral_from-lt :
    (a b : ℕ) (s t : Text)
    → all is_digit s ≡ true
    → length s ≤ length t
    → a < b
    → numeral_from a s < numeral_from b t
unfolding numeral_from
numeral_from-lt a b [] [] ds n h = h
numeral_from-lt a b (c ∷ s) [] ds n h = absurd (omega arith)
numeral_from-lt a b [] (d ∷ t) ds n h =
    numeral_from-lt a (b * 10 + (d - b'0')) [] t refl (omega arith) (omega arith)
numeral_from-lt a b (c ∷ s) (d ∷ t) ds n h =
    numeral_from-lt (a * 10 + (c - b'0')) (b * 10 + (d - b'0')) s t (ground arith) (omega arith)
      (ground arith)

next_digit-order :
    (a b c d : ℕ)
    → is_digit c ≡ true
    → is_digit d ≡ true
    → number_order (a * 10 + (c - b'0')) (b * 10 + (d - b'0'))
      ≡ or_else (number_order a b) (number_order c d)
next_digit-order a b c d hc hd = ground arith

or_else_assoc : (a b c : Order) → or_else (or_else a b) c ≡ or_else a (or_else b c)
or_else_assoc less b c = refl
or_else_assoc equal b c = refl
or_else_assoc greater b c = refl

head_digit : (c : ℕ) (s : Text) → all is_digit (c ∷ s) ≡ true → is_digit c ≡ true
head_digit c s h = ground arith

tail_digits : (c : ℕ) (s : Text) → all is_digit (c ∷ s) ≡ true → all is_digit s ≡ true
tail_digits c s h = ground arith

or_else-equal_right : (a : Order) → a ≡ or_else a equal
or_else-equal_right less = refl
or_else-equal_right equal = refl
or_else-equal_right greater = refl

numeral_from-order :
    (a b : ℕ) (s t : Text)
    → all is_digit s ≡ true
    → all is_digit t ≡ true
    → length s ≡ length t
    → number_order (numeral_from a s) (numeral_from b t)
      ≡ or_else (number_order a b) (list_order s t)
unfolding numeral_from
numeral_from-order a b [] [] ds dt n = or_else-equal_right (number_order a b)
numeral_from-order a b [] (d ∷ t) ds dt n = absurd (omega arith)
numeral_from-order a b (c ∷ s) [] ds dt n = absurd (omega arith)
numeral_from-order a b (c ∷ s) (d ∷ t) ds dt n =
    rw
      (
        numeral_from-order (a * 10 + (c - b'0')) (b * 10 + (d - b'0')) s t (tail_digits c s ds)
            (tail_digits d t dt) (omega arith),
        next_digit-order a b c d (head_digit c s ds) (head_digit d t dt),
      )
      (or_else_assoc (number_order a b) (number_order c d) (list_order s t))

abbrev is_zero : ℕ → Bool
is_zero c = c == b'0'

numeral-after : (t : Text) → numeral (after is_zero t) ≡ numeral t
unfolding numeral_from after
numeral-after [] = refl
numeral-after (c ∷ t) = ground (arith, numeral-after t)

numeral-significant : (t : Text) → numeral (significant t) ≡ numeral t
unfolding numeral_from significant
numeral-significant t = ground (arith, numeral-after t)

all-after : (t : Text) → all is_digit t ≡ true → all is_digit (after is_zero t) ≡ true
unfolding after
all-after [] h = refl
all-after (c ∷ t) h = ground (arith, all-after t)

all-significant : (t : Text) → all is_digit t ≡ true → all is_digit (significant t) ≡ true
unfolding significant
all-significant t h = ground (arith, all-after t h)

-- What is left without its zeros starts with another digit, or is one zero.
abbrev IsProper : Text → Type 0
IsProper [] = ⊥
IsProper (c ∷ cs) = (b'0' < c) ⊎ (cs ≡ [])

after-first :
    (t : Text) → all is_digit t ≡ true → (after is_zero t ≡ []) ⊎ IsProper (after is_zero t)
unfolding after
after-first [] h = inl refl
after-first (c ∷ t) h = ground (arith, after-first t)

significant-IsProper : (t : Text) → all is_digit t ≡ true → IsProper (significant t)
unfolding significant
significant-IsProper t h = ground (arith, after-first t h)

numeral-lt_longer :
    (s t : Text)
    → all is_digit s ≡ true
    → IsProper t
    → length s < length t
    → 0 < length s
    → numeral s < numeral t
unfolding numeral_from
numeral-lt_longer s [] ds proper n m = absurd proper
numeral-lt_longer s (d ∷ t) ds (inl up) n m =
    numeral_from-lt 0 (0 * 10 + (d - b'0')) s t ds (omega arith) (omega arith)
numeral-lt_longer s (d ∷ t) ds (inr e) n m = absurd (ground arith)

proper-length : (t : Text) → IsProper t → 0 < length t
proper-length [] p = absurd p
proper-length (c ∷ t) p = omega arith

-- The comparison of two proper runs, by the comparison of their lengths.
proper-order :
    (s t : Text)
    → all is_digit s ≡ true
    → all is_digit t ≡ true
    → IsProper s
    → IsProper t
    → or_else (number_order (length s) (length t)) (list_order s t)
      ≡ number_order (numeral s) (numeral t)
proper-order s t ds dt ps pt = ground (
  arith,
  numeral-lt_longer s t ds pt,
  numeral-lt_longer t s dt ps,
  proper-length s ps,
  proper-length t pt,
  numeral_from-order 0 0 s t ds dt,
)

pub digits_order-number_order :
    (s t : Text)
    → all is_digit s ≡ true
    → all is_digit t ≡ true
    → digits_order s t ≡ number_order (numeral s) (numeral t)
unfolding digits_order
digits_order-number_order s t ds dt =
    proper-order (significant s) (significant t) (all-significant s ds) (all-significant t dt)
      (significant-IsProper s ds) (significant-IsProper t dt)
    ∙ rw (numeral-significant s, numeral-significant t) refl
