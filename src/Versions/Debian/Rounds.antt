-- ===== src/Versions/Debian/Rounds.antt =====
-- The scan of two texts in step agrees with the order of their keys, step by step.
use openassetwatch.Prelude.{
  ℕ, suc, ◌-◌, ◌≤◌, ◌≡◌, ◌≢◌, refl, ◌∙◌, inl, inr, true, false, some, [], ◌∷◌, arith, Bool-cases,
  length,
}
use openassetwatch.Text.{Text}
use openassetwatch.Versions.Order.{
  Order, less, equal, greater, or_else, pos, integer_order, integer_ordered, number_ordered,
}
use openassetwatch.Versions.Characters.{is_digit}
use openassetwatch.Versions.Debian.{
  non_digit_order, past_non_digit, Scan, decided, reached, unless_decided, scan, scan_right,
}
use openassetwatch.Versions.Debian.Key.{key_from, debian_key, padded_order}

-- At a digit, or at the end.
abbrev pub AtDigit : Text → Type 0
AtDigit [] = Unit
AtDigit (c ∷ cs) = is_digit c ≡ true

abbrev pub NoDigit : Text → Type 0
NoDigit [] = Unit
NoDigit (c ∷ cs) = is_digit c ≡ false

-- What an outcome of the scan says of the keys, with a bound on what is left of the left text.
abbrev pub Means : Text → Text → ℕ → Scan → Type 0
Means left right n (decided order) = padded_order (debian_key left) (debian_key right) ≡ order
Means left right n (reached l r) =
    (padded_order (debian_key left) (debian_key right) ≡ padded_order (debian_key l) (debian_key r))
    × (AtDigit l × (AtDigit r × (length l ≤ n)))

-- A character that is no digit never has the order of the empty text.
order-left : (c : ℕ) → integer_order (non_digit_order (some c)) (pos 0) ≢ equal
order-left c h = ground arith

order-right : (c : ℕ) → integer_order (pos 0) (non_digit_order (some c)) ≢ equal
order-right c h = ground arith

-- A step that decides, or that both texts take.
step-Means :
    (left right l r : Text) (n : ℕ) (o : Order) (next : Scan)
    → padded_order (debian_key left) (debian_key right)
      ≡ or_else o (padded_order (debian_key l) (debian_key r))
    → (o ≡ equal → Means l r n next)
    → Means left right n (unless_decided o next)
step-Means left right l r n less next h k = h
step-Means left right l r n equal (decided x) h k = h ∙ k refl
step-Means left right l r n equal (reached a b) h k = let (p, rest) = k refl in (h ∙ p, rest)
step-Means left right l r n greater next h k = h

-- A step that decides.
decided-Means :
    (left right : Text) (n : ℕ) (o x : Order) (next : Scan)
    → padded_order (debian_key left) (debian_key right) ≡ or_else o x
    → o ≢ equal
    → Means left right n (unless_decided o next)
decided-Means left right n less x next h k = h
decided-Means left right n equal x next h k = absurd (k refl)
decided-Means left right n greater x next h k = h

pub key-digit :
    (c : ℕ) (cs : Text)
    → is_digit c ≡ true
    → debian_key (c ∷ cs) ≡ pos 0 ∷ key_from (some (c - b'0')) cs
unfolding key_from
key-digit c cs h = rw h

pub key-no_digit :
    (c : ℕ) (cs : Text)
    → is_digit c ≡ false
    → debian_key (c ∷ cs) ≡ non_digit_order (some c) ∷ debian_key cs
unfolding key_from
key-no_digit c cs h = rw h

-- A right text that goes on where the left one is at a digit.
right_first :
    (left : Text) (d : ℕ) (ds : Text)
    → AtDigit left
    → is_digit d ≡ false
    → (x : Order) × (padded_order (debian_key left) (debian_key (d ∷ ds))
        ≡ or_else (integer_order (pos 0) (non_digit_order (some d))) x)
unfolding key_from padded_order
right_first [] d ds a h = (padded_order [] (debian_key ds), rw (key-no_digit d ds h) refl)
right_first (c ∷ cs) d ds a h = (
  padded_order (key_from (some (c - b'0')) cs) (debian_key ds),
  rw (key-no_digit d ds h, key-digit c cs a) refl,
)

scan_right-Means :
    (left right : Text) → AtDigit left → Means left right (length left) (scan_right left right)
unfolding scan_right
scan_right-Means left [] a = (refl, (a, (tt, omega arith)))
scan_right-Means left (d ∷ ds) a = elim (Bool-cases (is_digit d)) [
  | inl y ↦ rw y (refl, (a, (y, omega arith)))
  | inr n ↦ rw n (
      let (x, e) = right_first left d ds a n in
      decided-Means left (d ∷ ds) (length left) _ x (scan_right left ds) e (order-right d))
]

-- A left text that goes on where the right one is at a digit.
left_first :
    (c : ℕ) (cs right : Text)
    → AtDigit right
    → is_digit c ≡ false
    → (x : Order) × (padded_order (debian_key (c ∷ cs)) (debian_key right)
        ≡ or_else (integer_order (non_digit_order (some c)) (pos 0)) x)
unfolding key_from padded_order
left_first c cs [] a h = (padded_order (debian_key cs) [], rw (key-no_digit c cs h) refl)
left_first c cs (d ∷ ds) a h = (
  padded_order (debian_key cs) (key_from (some (d - b'0')) ds),
  rw (key-no_digit c cs h, key-digit d ds a) refl,
)

both_first :
    (c : ℕ) (cs : Text) (d : ℕ) (ds : Text)
    → is_digit c ≡ false
    → is_digit d ≡ false
    → padded_order (debian_key (c ∷ cs)) (debian_key (d ∷ ds))
      ≡ or_else
          (integer_order (non_digit_order (some c)) (non_digit_order (some d)))
          (padded_order (debian_key cs) (debian_key ds))
unfolding padded_order
both_first c cs d ds h k = rw (key-no_digit c cs h, key-no_digit d ds k) refl

weaken-Means :
    (left right : Text) (n : ℕ) (s : Scan) → Means left right n s → Means left right (suc n) s
weaken-Means left right n (decided o) k = k
weaken-Means left right n (reached a b) (p, (q, (s, l))) = (p, (q, (s, omega arith)))

-- A round at a character that is no digit takes it off the left text, or decides.
pub scan-shorter :
    (c : ℕ) (cs right : Text)
    → is_digit c ≡ false
    → Means cs (past_non_digit right) (length cs) (scan cs (past_non_digit right))
    → Means (c ∷ cs) right (length cs) (scan (c ∷ cs) right)
unfolding scan
scan-shorter c cs [] n next = rw n (
    let (x, e) = left_first c cs [] tt n in
    decided-Means (c ∷ cs) [] (length cs) _ x (scan cs []) e (order-left c))
scan-shorter c cs (d ∷ ds) n next = elim (Bool-cases (is_digit d)) [
  | inl z ↦
      rw (n, z)
        (let (x, e) = left_first c cs (d ∷ ds) z n in
          decided-Means (c ∷ cs) (d ∷ ds) (length cs) _ x (scan cs (d ∷ ds)) e (order-left c))
  | inr m ↦
      rw (n, m)
        (step-Means (c ∷ cs) (d ∷ ds) cs ds (length cs) _ (scan cs ds) (both_first c cs d ds n m)
          (λ _. rw m at next))
]

pub scan-Means : (left right : Text) → Means left right (length left) (scan left right)
unfolding scan
scan-Means [] right = scan_right-Means [] right tt
scan-Means (c ∷ cs) right = elim (Bool-cases (is_digit c)) [
  | inl y ↦ rw y (scan_right-Means (c ∷ cs) right y)
  | inr n ↦
      weaken-Means (c ∷ cs) right (length cs) _
        (scan-shorter c cs right n (scan-Means cs (past_non_digit right)))
]

-- With nothing left on the left a character that is no digit decides.
pub scan-decided :
    (d : ℕ) (ds : Text) → is_digit d ≡ false → (o : Order) × (scan [] (d ∷ ds) ≡ decided o)
unfolding scan scan_right
scan-decided d ds n = rw n (decides _ _ (order-right d))
  where
    decides :
        (o : Order) (next : Scan) → o ≢ equal → (x : Order) × (unless_decided o next ≡ decided x)
    decides less next h = (less, refl)
    decides equal next h = absurd (h refl)
    decides greater next h = (greater, refl)
