-- ===== src/Versions/Debian/Agreement.antt =====
-- The comparison of Debian's version parts ends within its rounds, with the order of the keys.
use openassetwatch.Prelude.{
  ℕ, zero, suc, ◌+◌, ◌-◌, ◌*◌, ◌≤◌, ◌<◌, ◌≡◌, refl, sym, ap, ◌∙◌, true, ◌&&◌, some, List, [], ◌∷◌,
  arith, Bool-cases, length, all, inl, inr,
}
use openassetwatch.Text.{Text}
use openassetwatch.Temporal.Result.{Result, ok, is_ok, is_ok→some, same_ok}
use openassetwatch.Versions.Order.{
  Order, less, equal, greater, or_else, ℤ, pos, number_ordered, alike_right,
}
use openassetwatch.Versions.Characters.{is_digit, is_empty, leading, after, numeral_from, numeral}
use openassetwatch.Versions.Debian.{
  past_non_digit, Scan, decided, reached, scan, digits_order, order_or, part_rounds,
  debian_part_compare,
}
use openassetwatch.Versions.Debian.Key.{
  key_from, debian_key, padded_order, padded_ordered, padded_order_self,
}
use openassetwatch.Versions.Debian.Numbers.{digits_order-number_order}
use openassetwatch.Versions.Debian.Rounds.{
  AtDigit, NoDigit, Means, scan-Means, scan-shorter, scan-decided, key-digit,
}

all-leading : (t : Text) → all is_digit (leading is_digit t) ≡ true
unfolding leading
all-leading [] = refl
all-leading (c ∷ t) = ground (arith, all-leading t)

length-after : (t : Text) → length (after is_digit t) ≤ length t
unfolding after
length-after [] = omega arith
length-after (c ∷ t) = ground (arith, length-after t)

after-NoDigit : (t : Text) → NoDigit (after is_digit t)
unfolding after
after-NoDigit [] = tt
after-NoDigit (c ∷ t) = elim (Bool-cases (is_digit c)) [
  | inl y ↦ rw y (after-NoDigit t)
  | inr n ↦ rw n n
]

-- Behind a number in progress the key goes on with the whole number and the text behind it.
key_from-number :
    (n : ℕ) (t : Text)
    → key_from (some n) t
      ≡ pos (numeral_from n (leading is_digit t)) ∷ debian_key (after is_digit t)
unfolding key_from leading after numeral_from
key_from-number n [] = refl
key_from-number n (c ∷ t) = elim (Bool-cases (is_digit c)) [
  | inl y ↦ rw y (key_from-number (n * 10 + (c - b'0')) t)
  | inr k ↦ rw (k, k) refl
]

abbrev number_key : Text → List ℤ
number_key t = pos 0 ∷ pos (numeral (leading is_digit t)) ∷ debian_key (after is_digit t)

digit-number_key : (c : ℕ) (t : Text) → is_digit c ≡ true → debian_key (c ∷ t) ≡ number_key (c ∷ t)
unfolding leading after numeral_from
digit-number_key c t a =
    key-digit c t a
    ∙ ap (λ n. pos 0 ∷ key_from (some n) t) (first_numeral c)
    ∙ ap (λ k. pos 0 ∷ k) (key_from-number (0 * 10 + (c - b'0')) t)
    ∙ rw a refl
  where
    first_numeral : (c : ℕ) → c - b'0' ≡ 0 * 10 + (c - b'0')
    first_numeral c = omega arith

key-number_key : (t : Text) → AtDigit t → padded_order (debian_key t) (number_key t) ≡ equal
unfolding key_from leading after numeral_from padded_order
key-number_key [] a = refl
key-number_key (c ∷ t) a = rw (digit-number_key c t a) (padded_order_self (number_key (c ∷ t)))

-- One number each, and what follows the numbers.
numbers-order :
    (l r : Text)
    → AtDigit l
    → AtDigit r
    → padded_order (debian_key l) (debian_key r)
      ≡ or_else
          (digits_order (leading is_digit l) (leading is_digit r))
          (padded_order (debian_key (after is_digit l)) (debian_key (after is_digit r)))
unfolding padded_order
numbers-order l r al ar =
    padded_ordered.alike (debian_key l) (number_key l) (debian_key r) (key-number_key l al)
    ∙ sym (
        alike_right ⦃o = padded_ordered⦄ (number_key l) (debian_key r) (number_key r)
          (key-number_key r ar))
    ∙ ap
        (λ o.
          or_else o (padded_order (debian_key (after is_digit l)) (debian_key (after is_digit r))))
        (sym (digits_order-number_order _ _ (all-leading l) (all-leading r)))

-- Two texts without a character left have the key of nothing.
both_empty :
    (l r : Text)
    → (is_empty l && is_empty r) ≡ true
    → padded_order (debian_key l) (debian_key r) ≡ equal
unfolding key_from padded_order
both_empty [] [] h = refl
both_empty [] (d ∷ r) h = cc
both_empty (c ∷ l) r h = cc

ok-same : {a b : Order} → (ok a) ≡ ok b → a ≡ b
ok-same h = same_ok refl h

or_else-order_or :
    (o x : Order) (second : Result Order) {y : Order}
    → order_or o second ≡ ok y
    → (second ≡ ok y → x ≡ y)
    → or_else o x ≡ y
or_else-order_or less x second h k = ok-same h
or_else-order_or equal x second h k = k h
or_else-order_or greater x second h k = ok-same h

-- What the loop does after the scan, with what its next rounds do.
abbrev settle : (Text → Text → Result Order) → Scan → Result Order
settle rounds (decided order) = ok order
settle rounds (reached l r) =
    order_or (digits_order (leading is_digit l) (leading is_digit r))
      (rounds (after is_digit l) (after is_digit r))

settle-order :
    (rounds : Text → Text → Result Order) (l r : Text) (n : ℕ) (s : Scan) {o : Order}
    → ((a b : Text) (x : Order)
        → rounds a b ≡ ok x
        → padded_order (debian_key a) (debian_key b) ≡ x)
    → Means l r n s
    → settle rounds s ≡ ok o
    → padded_order (debian_key l) (debian_key r) ≡ o
settle-order rounds l r n (decided x) next m h = m ∙ ok-same h
settle-order rounds l r n (reached a b) next (e, (al, (ar, _))) h =
    e
    ∙ numbers-order a b al ar
    ∙ or_else-order_or _ _ _ h (next (after is_digit a) (after is_digit b) _)

-- A run that returns gives the order of the keys.
part_rounds-order :
    (n : ℕ) (l r : Text) {o : Order}
    → part_rounds n l r ≡ ok o
    → padded_order (debian_key l) (debian_key r) ≡ o
unfolding part_rounds
part_rounds-order zero l r h = elim (Bool-cases (is_empty l && is_empty r)) [
  | inl e ↦ both_empty l r e ∙ ok-same (rw e at h)
  | inr k ↦ absurd (cc (rw k at h))
]
part_rounds-order (suc n) l r h = elim (Bool-cases (is_empty l && is_empty r)) [
  | inl e ↦ both_empty l r e ∙ ok-same (rw e at h)
  | inr k ↦
      settle-order (part_rounds n) l r (length l) (scan l r) (λ a b x e. part_rounds-order n a b e)
        (scan-Means l r) (rw k at h)
]

order_or-ok :
    (o : Order) (second : Result Order) → is_ok second ≡ true → is_ok (order_or o second) ≡ true
order_or-ok less second h = refl
order_or-ok equal second h = h
order_or-ok greater second h = refl

settle-ok :
    (rounds : Text → Text → Result Order) (l r : Text) (n : ℕ) (s : Scan)
    → ((a b : Text) → NoDigit a → NoDigit b → length a ≤ n → is_ok (rounds a b) ≡ true)
    → Means l r n s
    → is_ok (settle rounds s) ≡ true
settle-ok rounds l r n (decided x) next m = refl
settle-ok rounds l r n (reached a b) next (e, (al, (ar, le))) = order_or-ok _ _ (
    next (after is_digit a) (after is_digit b) (after-NoDigit a) (after-NoDigit b)
      (omega (arith, le, length-after a)))

part_rounds-ok :
    (n : ℕ) (l r : Text) → NoDigit l → NoDigit r → length l < n → is_ok (part_rounds n l r) ≡ true
unfolding part_rounds
part_rounds-ok zero l r nl nr h = absurd (omega arith)
part_rounds-ok (suc n) [] [] nl nr h = refl
part_rounds-ok (suc n) [] (d ∷ r) nl nr h = let (o, e) = scan-decided d r nr in rw e refl
part_rounds-ok (suc n) (c ∷ l) r nl nr h =
    settle-ok (part_rounds n) (c ∷ l) r (length l) (scan (c ∷ l) r)
      (λ a b na nb le. part_rounds-ok n a b na nb (omega (arith, le)))
      (scan-shorter c l r nl (scan-Means l (past_non_digit r)))

-- The first round may start at a digit.
part_rounds-ok_start : (n : ℕ) (l r : Text) → length l < n → is_ok (part_rounds (suc n) l r) ≡ true
unfolding part_rounds
part_rounds-ok_start n l r h = elim (Bool-cases (is_empty l && is_empty r)) [
  | inl e ↦ rw e refl
  | inr k ↦ rw k (
      settle-ok (part_rounds n) l r (length l) (scan l r)
        (λ a b na nb le. part_rounds-ok n a b na nb (omega (arith, le, h))) (scan-Means l r))
]

-- The rounds that the source allows are enough for a left text of up to 254 characters, and what
-- they return is the order of the keys.
pub debian_part_compare-padded_order :
    (l r : Text)
    → length l ≤ 254
    → debian_part_compare l r ≡ ok (padded_order (debian_key l) (debian_key r))
unfolding debian_part_compare
debian_part_compare-padded_order l r h =
    let (o, e) =
      is_ok→some (part_rounds 256 l r) (part_rounds-ok_start 255 l r (omega (arith, h))) in
    rw (part_rounds-order 256 l r e) e
