-- ===== src/Versions/Range.antt =====
-- `version_satisfies_range` of backend/app/version_intelligence.py.
pub mod Interval
pub mod Convex
use openassetwatch.Prelude.{
  Bool, true, false, not, ◌&&◌, ◌||◌, Option, none, some, String, if◌then◌else◌,
}
use openassetwatch.Text.{Text}
use openassetwatch.Versions.Order.{Order, less, equal, greater}
use openassetwatch.Versions.Characters.{normalize_version_text}
use openassetwatch.Versions.Compare.{
  Pep440, ComparisonStatus, supported, unsupported, invalid, VersionComparison, compare_versions,
}

-- `MatchStatus` of backend/app/vulnerability_matching.py
pub data MatchStatus : Type 0 where
  affected not_affected fixed version_unknown identity_uncertain : MatchStatus
  unsupported_comparison insufficient_evidence advisory_withdrawn : MatchStatus

-- The bounds of a reviewed range.
pub record VersionRange : Type 0 where
  pub introduced_unbounded : Bool
  pub introduced : Option Text
  pub introduced_inclusive : Bool
  pub fixed : Option Text
  pub fixed_inclusive : Bool
  pub last_affected : Option Text
  pub last_affected_inclusive : Bool

abbrev pub Outcome : Type 0
Outcome = MatchStatus × String

-- `status == "supported" and order is not None`
abbrev pub order_in : ComparisonStatus → Option Order → Option Order
order_in supported order = order
order_in unsupported order = none
order_in invalid order = none

abbrev pub supported_order : VersionComparison → Option Order
supported_order c = order_in c.status c.order

-- `order < 0 or (order == 0 and not inclusive)`
abbrev pub below : Bool → Order → Bool
below inclusive less = true
below inclusive equal = not inclusive
below inclusive greater = false

-- `order > 0 or (order == 0 and not inclusive)`
abbrev pub above : Bool → Order → Bool
above inclusive less = false
above inclusive equal = not inclusive
above inclusive greater = true

-- The test of a bound that is given: the comparison's outcome, `missed` when it fails, else `next`.
abbrev pub by_order : Option Order → String → (Order → Bool) → Outcome → Outcome → Outcome
by_order none reason fails missed next = (unsupported_comparison, reason)
by_order (some order) reason fails missed next = if fails order then missed else next

unfoldable pub at_bound :
    Pep440 → String → Text → Option Text → (Order → Bool) → Outcome → Outcome → Outcome
unfolding compare_versions
at_bound p ecosystem installed none fails missed next = next
at_bound p ecosystem installed (some bound) fails missed next =
    let comparison = compare_versions p ecosystem (some installed) (some bound) in
    by_order (supported_order comparison) comparison.reason fails missed next

-- The tests after the one of the lower bound, from the last one back.
unfoldable pub upper_outcome : Pep440 → String → Text → VersionRange → Outcome
unfolding at_bound
upper_outcome p ecosystem installed range =
    at_bound p ecosystem installed range.last_affected (above range.last_affected_inclusive)
      (not_affected, "after-last-affected-boundary")
      (affected, "installed-version-in-affected-range")

unfoldable pub fixed_outcome : Pep440 → String → Text → VersionRange → Outcome
unfolding at_bound upper_outcome
fixed_outcome p ecosystem installed range =
    at_bound p ecosystem installed range.fixed (above range.fixed_inclusive)
      (fixed, "at-or-after-fixed-boundary") (upper_outcome p ecosystem installed range)

unfoldable pub range_outcome : Pep440 → String → Text → VersionRange → Outcome
unfolding at_bound fixed_outcome
range_outcome p ecosystem installed range =
    at_bound p ecosystem installed range.introduced (below range.introduced_inclusive)
      (not_affected, "before-introduced-boundary") (fixed_outcome p ecosystem installed range)

abbrev pub installed_outcome : Pep440 → String → VersionRange → Option Text → Outcome
installed_outcome p ecosystem range none = (version_unknown, "installed-version-missing")
installed_outcome p ecosystem range (some installed) = range_outcome p ecosystem installed range

unfoldable pub version_satisfies_range : Pep440 → String → Option Text → VersionRange → Outcome
unfolding normalize_version_text range_outcome
version_satisfies_range p ecosystem installed_version range =
    installed_outcome p ecosystem range (normalize_version_text installed_version)
