-- ===== src/Versions/Compare/Ranked.antt =====
-- Two texts as the keys of a scheme order them.
use mathlib.Core.Path.{subst, subst₂}
use openassetwatch.Prelude.{◌≡◌, sym, ap, ◌∙◌, ◌⊎◌, inl, inr, false, Option, some, Bool-cases}
use openassetwatch.Text.{Text, text_eq, text_eq→eq}
use openassetwatch.Temporal.Result.{Result, ok}
use openassetwatch.Versions.Order.{Order, less, equal, reversed}
use openassetwatch.Versions.Compare.Schemewise.{Keys}
use openassetwatch.Versions.Compare.Laws.{text_eq-sym}

-- The keys behind an order that a scheme found.
pub record Ranked (k : Keys) (l r : Text) (x : Order) : Type 0 where
  pub left_key : k.Key
  pub right_key : k.Key
  pub left_read : k.read l ≡ ok (some left_key)
  pub right_read : k.read r ≡ ok (some right_key)
  pub ranked : k.ordered.order left_key right_key ≡ x

-- Either the same text, or two texts whose keys have that order.
abbrev pub IsOrdered : Keys → Text → Text → Order → Type 0
IsOrdered k l r x = ((l ≡ r) × (x ≡ equal)) ⊎ ((text_eq l r ≡ false) × Ranked k l r x)

same_key :
    {K : Type 0} {m : Result (Option K)} {a b : K} → m ≡ ok (some a) → m ≡ ok (some b) → a ≡ b
same_key p q = cc

text_cases : (l r : Text) → (l ≡ r) ⊎ (text_eq l r ≡ false)
text_cases l r = elim (Bool-cases (text_eq l r)) [ inl e ↦ inl (text_eq→eq l r e) | inr n ↦ inr n ]

module _ (k : Keys) where
  Ranked-trans : (l r c : Text) → Ranked k l r less → Ranked k r c less → Ranked k l c less
  Ranked-trans l r c u v = record {
    left_key = u.left_key;
    right_key = v.right_key;
    left_read = u.left_read;
    right_read = v.right_read;
    ranked =
        k.ordered.trans u.left_key u.right_key v.right_key u.ranked
          (ap (λ a. k.ordered.order a v.right_key) (same_key u.right_read v.left_read) ∙ v.ranked);
  }

  Ranked-irrefl : (l : Text) → Ranked k l l less → ⊥
  Ranked-irrefl l u = less-self (
      sym (k.ordered.self u.left_key)
      ∙ ap (λ a. k.ordered.order u.left_key a) (same_key u.left_read u.right_read)
      ∙ u.ranked)
    where
      less-self : equal ≡ less → ⊥
      less-self e = cc

  pub IsOrdered-trans :
      (l r c : Text) → IsOrdered k l r less → IsOrdered k r c less → IsOrdered k l c less
  IsOrdered-trans l r c (inl (_, e)) v = cc
  IsOrdered-trans l r c (inr u) (inl (_, e)) = cc
  IsOrdered-trans l r c (inr (_, u)) (inr (_, v)) =
      let w = Ranked-trans l r c u v in
      elim (text_cases l c) [ inl e ↦ absurd (Ranked-irrefl c (rw e at w)) | inr n ↦ inr (n, w) ]

  Ranked-mirrored : (l r : Text) → Ranked k l r equal → Ranked k r l equal
  Ranked-mirrored l r u = record {
    left_key = u.right_key;
    right_key = u.left_key;
    left_read = u.right_read;
    right_read = u.left_read;
    ranked = k.ordered.swap u.left_key u.right_key ∙ ap reversed u.ranked;
  }

  Ranked-alike : (l r c : Text) (x : Order) → Ranked k l r equal → Ranked k l c x → Ranked k r c x
  Ranked-alike l r c x u v = record {
    left_key = u.right_key;
    right_key = v.right_key;
    left_read = u.right_read;
    right_read = v.right_read;
    ranked =
        sym (k.ordered.alike u.left_key u.right_key v.right_key u.ranked)
        ∙ ap (λ a. k.ordered.order a v.right_key) (same_key u.left_read v.left_read)
        ∙ v.ranked;
  }

  Ranked-unique : (l r : Text) (x y : Order) → Ranked k l r x → Ranked k l r y → x ≡ y
  Ranked-unique l r x y u v =
      sym u.ranked
      ∙ ap (λ a. k.ordered.order a u.right_key) (same_key u.left_read v.left_read)
      ∙ ap (λ b. k.ordered.order v.left_key b) (same_key u.right_read v.right_read)
      ∙ v.ranked

  pub IsOrdered-alike :
      (l r c : Text) (x : Order) → IsOrdered k l r equal → IsOrdered k l c x → IsOrdered k r c x
  IsOrdered-alike l r c x (inl (e, _)) v = subst (λ t. IsOrdered k t c x) e v
  IsOrdered-alike l r c x (inr (n, u)) (inl (e, f)) =
      subst₂ (λ t y. IsOrdered k r t y) e (sym f) (inr (text_eq-sym r l ∙ n, Ranked-mirrored l r u))
  IsOrdered-alike l r c x (inr (n, u)) (inr (_, v)) = elim (text_cases r c) [
    | inl e ↦ inl (e, Ranked-unique l c x equal v (subst (λ t. Ranked k l t equal) e u))
    | inr m ↦ inr (m, Ranked-alike l r c x u v)
  ]
