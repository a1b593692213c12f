-- ===== src/Versions/Range/Convex.antt =====
-- A range that affects two versions affects every version between them.
use openassetwatch.Prelude.{◌≡◌, refl, ap, ◌∙◌, ◌⊎◌, inl, inr, Bool, Option, none, some, String}
use openassetwatch.Text.{Text}
use openassetwatch.Versions.Order.{Order, less, equal, greater, reversed}
use openassetwatch.Versions.Characters.{normalize_version_text}
use openassetwatch.Versions.Compare.{Pep440}
use openassetwatch.Versions.Compare.Keyed.{reversed_order}
use openassetwatch.Versions.Compare.Laws.{compare_versions-mirrored}
use openassetwatch.Versions.Compare.Preorder.{
  version_order, version_order_trans, version_order-alike,
}
use openassetwatch.Versions.Range.{affected, VersionRange, below, above, version_satisfies_range}
use openassetwatch.Versions.Range.Interval.{Within, InRange, version_satisfies_range-affected}

-- Below or equal, with a comparison that is supported.
abbrev pub AtMost : Pep440 → String → Text → Text → Type 0
AtMost p e l r =
    (version_order p e (some l) (some r) ≡ some less)
    ⊎ (version_order p e (some l) (some r) ≡ some equal)

module _ (p : Pep440) (e : String) where
  order_of : Text → Text → Option Order
  order_of l r = version_order p e (some l) (some r)

  turn : (l r : Text) (x : Order) → order_of l r ≡ some x → order_of r l ≡ some (reversed x)
  unfolding order_of
  turn l r x h =
      ap (λ c. c.order) (compare_versions-mirrored p e (some l) (some r)) ∙ ap reversed_order h

  trans_of :
      (l m r : Text)
      → order_of l m ≡ some less
      → order_of m r ≡ some less
      → order_of l r ≡ some less
  unfolding order_of
  trans_of l m r = version_order_trans p e (some l) (some m) (some r)

  alike_of :
      (l m r : Text) (x : Order)
      → order_of l m ≡ some equal
      → order_of l r ≡ some x
      → order_of m r ≡ some x
  unfolding order_of
  alike_of l m r x = version_order-alike p e (some l) (some m) (some r) x

  -- A version at or above one that a lower bound admits is admitted too.
  lower_up :
      (v u b : Text) (i : Bool)
      → AtMost p e v u
      → Within p e v (some b) (below i)
      → Within p e u (some b) (below i)
  unfolding order_of
  lower_up v u b i h (less, (o, f)) = cc
  lower_up v u b i (inl h) (equal, (o, f)) =
      (greater, (turn b u less (alike_of v b u less o h), refl))
  lower_up v u b i (inr h) (equal, (o, f)) = (equal, (alike_of v u b equal h o, f))
  lower_up v u b i (inl h) (greater, (o, f)) =
      (greater, (turn b u less (trans_of b v u (turn v b greater o) h), refl))
  lower_up v u b i (inr h) (greater, (o, f)) = (greater, (alike_of v u b greater h o, refl))

  -- A version at or below one that an upper bound admits is admitted too.
  upper_down :
      (u w b : Text) (i : Bool)
      → AtMost p e u w
      → Within p e w (some b) (above i)
      → Within p e u (some b) (above i)
  unfolding order_of
  upper_down u w b i h (greater, (o, f)) = cc
  upper_down u w b i (inl h) (equal, (o, f)) =
      (less, (turn b u greater (alike_of w b u greater o (turn u w less h)), refl))
  upper_down u w b i (inr h) (equal, (o, f)) =
      (equal, (alike_of w u b equal (turn u w equal h) o, f))
  upper_down u w b i (inl h) (less, (o, f)) = (less, (trans_of u w b h o, refl))
  upper_down u w b i (inr h) (less, (o, f)) =
      (less, (alike_of w u b less (turn u w equal h) o, refl))

  Within-lower :
      (v u : Text) (b : Option Text) (i : Bool)
      → AtMost p e v u
      → Within p e v b (below i)
      → Within p e u b (below i)
  Within-lower v u none i h k = tt
  Within-lower v u (some b) i h k = lower_up v u b i h k

  Within-upper :
      (u w : Text) (b : Option Text) (i : Bool)
      → AtMost p e u w
      → Within p e w b (above i)
      → Within p e u b (above i)
  Within-upper u w none i h k = tt
  Within-upper u w (some b) i h k = upper_down u w b i h k

-- In every ecosystem a range that affects a low and a high version affects every version that is at
-- or above the low one and at or below the high one.
pub version_satisfies_range-between :
    (p : Pep440) (ecosystem : String) (range : VersionRange) (low between high : Text)
    → normalize_version_text (some low) ≡ some low
    → normalize_version_text (some between) ≡ some between
    → normalize_version_text (some high) ≡ some high
    → (version_satisfies_range p ecosystem (some low) range).0 ≡ affected
    → (version_satisfies_range p ecosystem (some high) range).0 ≡ affected
    → AtMost p ecosystem low between
    → AtMost p ecosystem between high
    → (version_satisfies_range p ecosystem (some between) range).0 ≡ affected
unfolding InRange
version_satisfies_range-between p e range low between high nl nb nh al ah lb bh =
    let (a, _) = (version_satisfies_range-affected p e (some low) low range nl).0 al in
    let (_, (b, c)) = (version_satisfies_range-affected p e (some high) high range nh).0 ah in
    (version_satisfies_range-affected p e (some between) between range nb).1 (
      Within-lower p e low between range.introduced range.introduced_inclusive lb a,
      (
        Within-upper p e between high range.fixed range.fixed_inclusive bh b,
        Within-upper p e between high range.last_affected range.last_affected_inclusive bh c,
      ),
    )
