-- ===== src/Versions/Range/Interval.antt =====
-- The versions that a range affects are those within all its bounds, and they form an interval.
use mathlib.Core.Path.{subst}
use openassetwatch.Prelude.{
  ◌≡◌, ◌≢◌, refl, sym, inl, inr, ◌↔◌, Bool, true, false, Option, none, some, String, Bool-cases,
}
use openassetwatch.Text.{Text}
use openassetwatch.Versions.Order.{Order}
use openassetwatch.Versions.Characters.{normalize_version_text}
use openassetwatch.Versions.Compare.{
  Pep440, Attempt, in_order, not_supported, conclude, compare_normalized, compare_versions,
}
use openassetwatch.Temporal.Result.{Result, ok, err}
use openassetwatch.Versions.Compare.Preorder.{guarded, compare_texts-guarded, version_order}
use openassetwatch.Versions.Range.{
  affected, not_affected, fixed, VersionRange, Outcome, supported_order, below, above, by_order,
  at_bound, upper_outcome, fixed_outcome, range_outcome, installed_outcome, version_satisfies_range,
}

-- A bound that is missing, or that the version has an order with that does not fail it.
abbrev pub Within : Pep440 → String → Text → Option Text → (Order → Bool) → Type 0
Within p e installed none fails = Unit
Within p e installed (some bound) fails =
    (o : Order) × ((version_order p e (some installed) (some bound) ≡ some o) × (fails o ≡ false))

unfoldable pub InRange : Pep440 → String → Text → VersionRange → Type 0
InRange p e installed range =
    Within p e installed range.introduced (below range.introduced_inclusive)
    × (Within p e installed range.fixed (above range.fixed_inclusive)
        × Within p e installed range.last_affected (above range.last_affected_inclusive))

supported_order-conclude : (m : Result Attempt) → supported_order (conclude m) ≡ (conclude m).order
supported_order-conclude (err e) = refl
supported_order-conclude (ok (not_supported s)) = refl
supported_order-conclude (ok (in_order o)) = refl

supported_order-guarded :
    (y z t : Bool) (m : Result Attempt)
    → supported_order (guarded y z t (conclude m)) ≡ (guarded y z t (conclude m)).order
unfolding guarded
supported_order-guarded false z t m = refl
supported_order-guarded true false t m = refl
supported_order-guarded true true true m = refl
supported_order-guarded true true false m = supported_order-conclude m

supported_order-normalized :
    (p : Pep440) (e : String) (l r : Option Text)
    → supported_order (compare_normalized p e l r) ≡ (compare_normalized p e l r).order
supported_order-normalized p e none r = refl
supported_order-normalized p e (some l) none = refl
supported_order-normalized p e (some l) (some r) =
    subst (λ c. supported_order c ≡ c.order) (sym (compare_texts-guarded p e l r))
      (supported_order-guarded _ _ _ _)

-- An order comes with the status `supported`.
supported_order-version_order :
    (p : Pep440) (e : String) (l r : Option Text)
    → supported_order (compare_versions p e l r) ≡ version_order p e l r
unfolding compare_versions
supported_order-version_order p e l r =
    supported_order-normalized p e (normalize_version_text l) (normalize_version_text r)

by_order-affected :
    (order : Option Order) (reason : String) (fails : Order → Bool) (missed next : Outcome)
    → missed.0 ≢ affected
    → (((by_order order reason fails missed next).0 ≡ affected)
        ↔ (((o : Order) × ((order ≡ some o) × (fails o ≡ false))) × (next.0 ≡ affected)))
by_order-affected none reason fails missed next h = (λ a. cc a, λ ((o, (g, _)), _). cc g)
by_order-affected (some x) reason fails missed next h = elim (Bool-cases (fails x)) [
  | inl y ↦ rw y (λ a. absurd (h a), λ ((o, (g, f)), _). absurd (true_false (x_fails y g f)))
  | inr n ↦ rw n (λ a. ((x, (refl, n)), a), λ (_, a). a)
]
  where
    x_fails : {o : Order} → fails x ≡ true → some x ≡ some o → fails o ≡ false → true ≡ false
    x_fails y g f = cc (y, g, f)

    true_false : true ≡ false → ⊥
    true_false e = cc e

at_bound-affected :
    (p : Pep440) (e : String) (v : Text) (b : Option Text) (fails : Order → Bool)
    (missed next : Outcome)
    → missed.0 ≢ affected
    → (((at_bound p e v b fails missed next).0 ≡ affected)
        ↔ (Within p e v b fails × (next.0 ≡ affected)))
unfolding at_bound
at_bound-affected p e v none fails missed next h = (λ a. (tt, a), λ w. w.1)
at_bound-affected p e v (some b) fails missed next h =
    rw (supported_order-version_order p e (some v) (some b))
      (by_order-affected _ _ fails missed next h)

not_affected-affected : not_affected ≢ affected
not_affected-affected x = cc

fixed-affected : fixed ≢ affected
fixed-affected x = cc

upper_outcome-affected :
    (p : Pep440) (e : String) (v : Text) (range : VersionRange)
    → (((upper_outcome p e v range).0 ≡ affected)
        ↔ Within p e v range.last_affected (above range.last_affected_inclusive))
unfolding upper_outcome
upper_outcome-affected p e v range =
    let both =
      at_bound-affected p e v range.last_affected (above range.last_affected_inclusive)
        (not_affected, "after-last-affected-boundary")
        (affected, "installed-version-in-affected-range") not_affected-affected in
    (λ a. (both.0 a).0, λ w. both.1 (w, refl))

range_outcome-affected :
    (p : Pep440) (e : String) (v : Text) (range : VersionRange)
    → (((range_outcome p e v range).0 ≡ affected) ↔ InRange p e v range)
unfolding range_outcome fixed_outcome InRange
range_outcome-affected p e v range =
    let lower =
      at_bound-affected p e v range.introduced (below range.introduced_inclusive)
        (not_affected, "before-introduced-boundary") (fixed_outcome p e v range)
        not_affected-affected in
    let middle =
      at_bound-affected p e v range.fixed (above range.fixed_inclusive)
        (fixed, "at-or-after-fixed-boundary") (upper_outcome p e v range) fixed-affected in
    let upper = upper_outcome-affected p e v range in
    (
      λ a. let (b, c) = lower.0 a in let (d, f) = middle.0 c in (b, (d, upper.0 f)),
      λ (b, (d, f)). lower.1 (b, middle.1 (d, upper.1 f)),
    )

pub version_satisfies_range-affected :
    (p : Pep440) (ecosystem : String) (value : Option Text) (installed : Text)
    (range : VersionRange)
    → normalize_version_text value ≡ some installed
    → (((version_satisfies_range p ecosystem value range).0 ≡ affected)
        ↔ InRange p ecosystem installed range)
unfolding version_satisfies_range
version_satisfies_range-affected p e value v range h =
    subst (λ m. (((installed_outcome p e range m).0 ≡ affected) ↔ InRange p e v range)) (sym h)
      (range_outcome-affected p e v range)
