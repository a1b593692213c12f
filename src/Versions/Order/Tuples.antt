-- ===== src/Versions/Order/Tuples.antt =====
-- Python's orders of tuples: by the first component that differs, a prefix before what extends it.
use openassetwatch.Prelude.{◌≡◌, refl, List, [], ◌∷◌}
use openassetwatch.Versions.Order.{
  Order, less, equal, greater, or_else, reversed, Ordered, or_else-swap, or_else-equal,
  or_else_trans, alike_right,
}

module _ {ℓ κ} {A : Type ℓ} {B : Type κ} ⦃oa : Ordered A⦄ ⦃ob : Ordered B⦄ where
  abbrev pub pair_order : A × B → A × B → Order
  pair_order p q = or_else (oa.order p.0 q.0) (ob.order p.1 q.1)

  pub pair_order-alike : (p q r : A × B) → pair_order p q ≡ equal → pair_order p r ≡ pair_order q r
  pair_order-alike (a, b) (c, d) (e, f) h =
      let (ac, bd) = or_else-equal (oa.order a c) (ob.order b d) h in
      rw (oa.alike a c e ac, ob.alike b d f bd)

  pub pair_order_self : (p : A × B) → pair_order p p ≡ equal
  pair_order_self (a, b) = rw (oa.self a, ob.self b)

  pub pair_order-swap : (p q : A × B) → pair_order q p ≡ reversed (pair_order p q)
  pair_order-swap (a, b) (c, d) = rw (oa.swap a c, ob.swap b d) (or_else-swap _ _)

  pub pair_order_trans :
      (p q r : A × B) → pair_order p q ≡ less → pair_order q r ≡ less → pair_order p r ≡ less
  pair_order_trans (a, b) (c, d) (e, f) h k =
      or_else_trans _ _ _ _ _ _ (oa.trans a c e) (λ h. oa.alike a c e h) (alike_right a c e)
        (ob.trans b d f) h k

  instance abbrev pub pair_ordered : Ordered (A × B)
  pair_ordered = record {
    order = pair_order;
    self = pair_order_self;
    swap = pair_order-swap;
    alike = pair_order-alike;
    trans = pair_order_trans;
  }

module _ {ℓ} {A : Type ℓ} ⦃oa : Ordered A⦄ where
  abbrev pub list_order : List A → List A → Order
  list_order [] [] = equal
  list_order [] (b ∷ bs) = less
  list_order (a ∷ as_) [] = greater
  list_order (a ∷ as_) (b ∷ bs) = or_else (oa.order a b) (list_order as_ bs)

  pub list_order-alike : (p q r : List A) → list_order p q ≡ equal → list_order p r ≡ list_order q r
  list_order-alike [] [] r h = refl
  list_order-alike [] (b ∷ q) r h = cc
  list_order-alike (a ∷ p) [] r h = cc
  list_order-alike (a ∷ p) (b ∷ q) [] h = refl
  list_order-alike (a ∷ p) (b ∷ q) (c ∷ r) h =
      let (ab, pq) = or_else-equal (oa.order a b) (list_order p q) h in
      rw (oa.alike a b c ab, list_order-alike p q r pq)

  pub list_order_self : (p : List A) → list_order p p ≡ equal
  list_order_self [] = refl
  list_order_self (a ∷ p) = rw (oa.self a) (list_order_self p)

  pub list_order-swap : (p q : List A) → list_order q p ≡ reversed (list_order p q)
  list_order-swap [] [] = refl
  list_order-swap [] (b ∷ q) = refl
  list_order-swap (a ∷ p) [] = refl
  list_order-swap (a ∷ p) (b ∷ q) = rw (oa.swap a b, list_order-swap p q) (or_else-swap _ _)

  pub list_order_trans :
      (p q r : List A) → list_order p q ≡ less → list_order q r ≡ less → list_order p r ≡ less
  list_order_trans [] [] [] h k = h
  list_order_trans [] (b ∷ q) [] h k = cc
  list_order_trans [] q (c ∷ r) h k = refl
  list_order_trans (a ∷ p) [] r h k = cc
  list_order_trans (a ∷ p) (b ∷ q) [] h k = cc
  list_order_trans (a ∷ p) (b ∷ q) (c ∷ r) h k =
      or_else_trans _ _ _ _ _ _ (oa.trans a b c) (λ h. oa.alike a b c h) (alike_right a b c)
        (list_order_trans p q r) h k

  instance abbrev pub list_ordered : Ordered (List A)
  list_ordered = record {
    order = list_order;
    self = list_order_self;
    swap = list_order-swap;
    alike = list_order-alike;
    trans = list_order_trans;
  }
