-- ===== src/Versions/Order.antt =====
-- Outcomes of a comparison, as `_compare_tuple` returns them, and the orders of the keys that
-- backend/app/version_intelligence.py compares: numbers, tuples and sequences.
pub mod Tuples
use openassetwatch.Prelude.{
  ℕ, ◌<◌, ◌≡◌, refl, sym, ◌∙◌, ◌⊎◌, inl, inr, Bool, true, false, List, [], ◌∷◌, arith, ltb, ◌==◌,
  ap, if◌then◌else◌,
}

-- `-1`, `0` and `1`
pub data Order : Type 0 where
  less equal greater : Order

-- `first or second`
abbrev pub or_else : Order → Order → Order
or_else less second = less
or_else equal second = second
or_else greater second = greater

abbrev pub reversed : Order → Order
reversed less = greater
reversed equal = equal
reversed greater = less

-- A total preorder: what compares `equal` compares alike with everything.
pub record Ordered {ℓ} (A : Type ℓ) : Type ℓ where
  pub order : A → A → Order
  pub self : (a : A) → order a a ≡ equal
  pub swap : (a b : A) → order b a ≡ reversed (order a b)
  pub alike : (a b c : A) → order a b ≡ equal → order a c ≡ order b c
  pub trans : (a b c : A) → order a b ≡ less → order b c ≡ less → order a c ≡ less

-- `_compare_tuple`
abbrev pub compare_tuple {ℓ} : {A : Type ℓ} ⦃o : Ordered A⦄ → A → A → Order
compare_tuple ⦃o⦄ left right = o.order left right

abbrev pub number_order : ℕ → ℕ → Order
number_order a b = if ltb a b then less else if ltb b a then greater else equal

pub number_order-alike :
    (a b c : ℕ) → number_order a b ≡ equal → number_order a c ≡ number_order b c
number_order-alike a b c h = ground arith

pub number_order_self : (a : ℕ) → number_order a a ≡ equal
number_order_self a = ground arith

pub number_order-swap : (a b : ℕ) → number_order b a ≡ reversed (number_order a b)
number_order-swap a b = ground arith

pub number_order_trans :
    (a b c : ℕ) → number_order a b ≡ less → number_order b c ≡ less → number_order a c ≡ less
number_order_trans a b c h k = ground arith

instance abbrev pub number_ordered : Ordered ℕ
number_ordered = record {
  order = number_order;
  self = number_order_self;
  swap = number_order-swap;
  alike = number_order-alike;
  trans = number_order_trans;
}

-- The integers, for the ranks below zero.
pub data ℤ : Type 0 where
  pos negsuc : ℕ → ℤ

abbrev pub integer_order : ℤ → ℤ → Order
integer_order (pos a) (pos b) = number_order a b
integer_order (pos a) (negsuc b) = greater
integer_order (negsuc a) (pos b) = less
integer_order (negsuc a) (negsuc b) = number_order b a

pub integer_order-same : (a b : ℤ) → integer_order a b ≡ equal → a ≡ b
integer_order-same (pos a) (pos b) h = ground arith
integer_order-same (pos a) (negsuc b) h = cc
integer_order-same (negsuc a) (pos b) h = cc
integer_order-same (negsuc a) (negsuc b) h = ground arith

pub integer_order-alike :
    (a b c : ℤ) → integer_order a b ≡ equal → integer_order a c ≡ integer_order b c
integer_order-alike a b c h = cc (integer_order-same a b h)

pub integer_order_self : (a : ℤ) → integer_order a a ≡ equal
integer_order_self (pos a) = number_order_self a
integer_order_self (negsuc a) = number_order_self a

pub integer_order-swap : (a b : ℤ) → integer_order b a ≡ reversed (integer_order a b)
integer_order-swap (pos a) (pos b) = number_order-swap a b
integer_order-swap (pos a) (negsuc b) = refl
integer_order-swap (negsuc a) (pos b) = refl
integer_order-swap (negsuc a) (negsuc b) = number_order-swap b a

pub integer_order_trans :
    (a b c : ℤ) → integer_order a b ≡ less → integer_order b c ≡ less → integer_order a c ≡ less
integer_order_trans (pos a) (pos b) (pos c) h k = number_order_trans a b c h k
integer_order_trans (pos a) (pos b) (negsuc c) h k = cc
integer_order_trans (pos a) (negsuc b) c h k = cc
integer_order_trans (negsuc a) (pos b) (pos c) h k = refl
integer_order_trans (negsuc a) (pos b) (negsuc c) h k = cc
integer_order_trans (negsuc a) (negsuc b) (pos c) h k = refl
integer_order_trans (negsuc a) (negsuc b) (negsuc c) h k = number_order_trans c b a k h

instance abbrev pub integer_ordered : Ordered ℤ
integer_ordered = record {
  order = integer_order;
  self = integer_order_self;
  swap = integer_order-swap;
  alike = integer_order-alike;
  trans = integer_order_trans;
}

pub or_else-swap : (a b : Order) → or_else (reversed a) (reversed b) ≡ reversed (or_else a b)
or_else-swap less b = refl
or_else-swap equal b = refl
or_else-swap greater b = refl

pub or_else-equal : (a b : Order) → or_else a b ≡ equal → (a ≡ equal) × (b ≡ equal)
or_else-equal less b h = cc
or_else-equal equal b h = (refl, h)
or_else-equal greater b h = cc

-- How two steps up in a lexicographic order compose.
pub or_else_trans :
    (ab bc ac s t u : Order)
    → (ab ≡ less → bc ≡ less → ac ≡ less)
    → (ab ≡ equal → ac ≡ bc)
    → (bc ≡ equal → ac ≡ ab)
    → (s ≡ less → t ≡ less → u ≡ less)
    → or_else ab s ≡ less
    → or_else bc t ≡ less
    → or_else ac u ≡ less
or_else_trans less less ac s t u both left right next h k = rw (both refl refl)
or_else_trans less equal ac s t u both left right next h k = rw (right refl)
or_else_trans less greater ac s t u both left right next h k = cc
or_else_trans equal less ac s t u both left right next h k = rw (left refl)
or_else_trans equal equal ac s t u both left right next h k = rw (left refl) (next h k)
or_else_trans equal greater ac s t u both left right next h k = cc
or_else_trans greater bc ac s t u both left right next h k = cc

module _ {ℓ} {A : Type ℓ} ⦃o : Ordered A⦄ where
  pub alike_right : (a b c : A) → o.order b c ≡ equal → o.order a c ≡ o.order a b
  alike_right a b c h = o.swap c a ∙ ap reversed (sym (o.alike b c a h)) ∙ sym (o.swap b a)

-- Values ordered by a key.
abbrev pub by_key {ℓ κ} : {A : Type ℓ} {B : Type κ} → (A → B) → Ordered B → Ordered A
by_key key o = record {
  order = λ a b. o.order (key a) (key b);
  self = λ a. o.self (key a);
  swap = λ a b. o.swap (key a) (key b);
  alike = λ a b c. o.alike (key a) (key b) (key c);
  trans = λ a b c. o.trans (key a) (key b) (key c);
}
