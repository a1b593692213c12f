-- ===== src/Versions/Debian/Key.antt =====
-- A description of Debian's order that does not scan two texts in step: a text is a sequence of
-- integers, and sequences compare as if zeros followed them without end.
use openassetwatch.Prelude.{
  ℕ, zero, suc, ◌+◌, ◌-◌, ◌*◌, ◌≤◌, ◌≡◌, refl, sym, ◌∙◌, Option, none, some, List, [], ◌∷◌, arith,
  if◌then◌else◌, length,
}
use openassetwatch.Text.{Text}
use openassetwatch.Versions.Order.{
  Order, less, equal, or_else, reversed, Ordered, ℤ, pos, integer_order, integer_ordered,
  or_else-swap, or_else-equal, or_else_trans, alike_right,
}
use openassetwatch.Versions.Characters.{is_digit}
use openassetwatch.Versions.Debian.{non_digit_order}

-- The characters that are no digits by their order, a zero where a run of them ends, and then the
-- number that follows it. The number of a run of digits grows in the first argument.
unfoldable pub key_from : Option ℕ → Text → List ℤ
key_from none [] = []
key_from (some n) [] = pos n ∷ []
key_from none (c ∷ cs) =
    if is_digit c
    then pos 0 ∷ key_from (some (c - b'0')) cs
    else non_digit_order (some c) ∷ key_from none cs
key_from (some n) (c ∷ cs) =
    if is_digit c
    then key_from (some (n * 10 + (c - b'0'))) cs
    else pos n ∷ non_digit_order (some c) ∷ key_from none cs

abbrev pub debian_key : Text → List ℤ
debian_key t = key_from none t

-- The order of sequences that zeros follow without end.
unfoldable pub padded_order : List ℤ → List ℤ → Order
padded_order [] [] = equal
padded_order [] (b ∷ bs) = or_else (integer_order (pos 0) b) (padded_order [] bs)
padded_order (a ∷ p) [] = or_else (integer_order a (pos 0)) (padded_order p [])
padded_order (a ∷ p) (b ∷ bs) = or_else (integer_order a b) (padded_order p bs)

abbrev first : List ℤ → ℤ
first [] = pos 0
first (a ∷ p) = a

abbrev tail : List ℤ → List ℤ
tail [] = []
tail (a ∷ p) = p

padded_order-step :
    (p q : List ℤ)
    → padded_order p q
      ≡ or_else (integer_order (first p) (first q)) (padded_order (tail p) (tail q))
unfolding padded_order
padded_order-step [] [] = refl
padded_order-step [] (b ∷ q) = refl
padded_order-step (a ∷ p) [] = refl
padded_order-step (a ∷ p) (b ∷ q) = refl

length-tail : (n : ℕ) (p : List ℤ) → length p ≤ suc n → length (tail p) ≤ n
length-tail n [] h = omega arith
length-tail n (a ∷ p) h = omega arith

pub padded_order_self : (p : List ℤ) → padded_order p p ≡ equal
unfolding padded_order
padded_order_self [] = refl
padded_order_self (a ∷ p) = rw (integer_ordered.self a) (padded_order_self p)

swap_within :
    (n : ℕ) (p q : List ℤ)
    → length p ≤ n
    → length q ≤ n
    → padded_order q p ≡ reversed (padded_order p q)
unfolding padded_order
swap_within zero [] [] lp lq = refl
swap_within zero [] (b ∷ q) lp lq = absurd (omega arith)
swap_within zero (a ∷ p) q lp lq = absurd (omega arith)
swap_within (suc n) p q lp lq =
    rw
      (
        padded_order-step p q,
        padded_order-step q p,
        integer_ordered.swap (first p) (first q),
        swap_within n (tail p) (tail q) (length-tail n p lp) (length-tail n q lq),
      )
      (or_else-swap _ _)

alike_within :
    (n : ℕ) (p q r : List ℤ)
    → length p ≤ n
    → length q ≤ n
    → length r ≤ n
    → padded_order p q ≡ equal
    → padded_order p r ≡ padded_order q r
unfolding padded_order
alike_within zero [] [] r lp lq lr h = refl
alike_within zero [] (b ∷ q) r lp lq lr h = absurd (omega arith)
alike_within zero (a ∷ p) q r lp lq lr h = absurd (omega arith)
alike_within (suc n) p q r lp lq lr h =
    let (a, b) = or_else-equal _ _ (sym (padded_order-step p q) ∙ h) in
    rw (
      padded_order-step p r,
      padded_order-step q r,
      integer_ordered.alike (first p) (first q) (first r) a,
      alike_within n (tail p) (tail q) (tail r) (length-tail n p lp) (length-tail n q lq)
          (length-tail n r lr) b,
    )

trans_within :
    (n : ℕ) (p q r : List ℤ)
    → length p ≤ n
    → length q ≤ n
    → length r ≤ n
    → padded_order p q ≡ less
    → padded_order q r ≡ less
    → padded_order p r ≡ less
unfolding padded_order
trans_within zero [] [] r lp lq lr h k = cc
trans_within zero [] (b ∷ q) r lp lq lr h k = absurd (omega arith)
trans_within zero (a ∷ p) q r lp lq lr h k = absurd (omega arith)
trans_within (suc n) p q r lp lq lr h k =
    padded_order-step p r
    ∙ or_else_trans _ _ _ _ _ _ (integer_ordered.trans (first p) (first q) (first r))
        (λ e. integer_ordered.alike (first p) (first q) (first r) e)
        (alike_right (first p) (first q) (first r))
        (trans_within n (tail p) (tail q) (tail r) (length-tail n p lp) (length-tail n q lq)
          (length-tail n r lr))
        (sym (padded_order-step p q) ∙ h) (sym (padded_order-step q r) ∙ k)

pub padded_order-swap : (p q : List ℤ) → padded_order q p ≡ reversed (padded_order p q)
padded_order-swap p q = swap_within (length p + length q) p q (omega arith) (omega arith)

pub padded_order-alike :
    (p q r : List ℤ) → padded_order p q ≡ equal → padded_order p r ≡ padded_order q r
padded_order-alike p q r =
    alike_within (length p + length q + length r) p q r (omega arith) (omega arith) (omega arith)

pub padded_order_trans :
    (p q r : List ℤ) → padded_order p q ≡ less → padded_order q r ≡ less → padded_order p r ≡ less
padded_order_trans p q r =
    trans_within (length p + length q + length r) p q r (omega arith) (omega arith) (omega arith)

-- The sequences as a total preorder.
abbrev pub padded_ordered : Ordered (List ℤ)
padded_ordered = record {
  order = padded_order;
  self = padded_order_self;
  swap = padded_order-swap;
  alike = padded_order-alike;
  trans = padded_order_trans;
}
