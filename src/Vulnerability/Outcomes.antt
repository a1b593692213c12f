-- ===== src/Vulnerability/Outcomes.antt =====
-- The outcomes of an advisory's version conditions and the choice among them: `_range_description`,
-- `_exact_version_status` and the last branch of `match_component` of
-- backend/app/vulnerability_matching.py.
use openassetwatch.Prelude.{
  ℕ, Bool, true, false, not, Option, none, some, List, [], ◌∷◌, ◌++◌, map, ◌==◌, ◌=s=◌,
  if◌then◌else◌, take, String,
}
use openassetwatch.Text.{Text, codes}
use openassetwatch.Versions.Order.{Order, less, equal, greater}
use openassetwatch.Versions.Compare.{
  Pep440, ComparisonStatus, supported, unsupported, invalid, compare_versions,
}
use openassetwatch.Versions.Range.{
  MatchStatus, affected, not_affected, fixed, version_unknown, identity_uncertain,
  unsupported_comparison, insufficient_evidence, advisory_withdrawn, VersionRange, Outcome,
  version_satisfies_range,
}

-- The literals told apart.
abbrev pub status_code : MatchStatus → ℕ
status_code affected = 0
status_code not_affected = 1
status_code fixed = 2
status_code version_unknown = 3
status_code identity_uncertain = 4
status_code unsupported_comparison = 5
status_code insufficient_evidence = 6
status_code advisory_withdrawn = 7

infix 50 ◌=m=◌
abbrev pub ◌=m=◌ : MatchStatus → MatchStatus → Bool
a =m= b = status_code a == status_code b

-- `", ".join(parts)`
unfoldable pub join_comma : List Text → Text
join_comma [] = []
join_comma (t ∷ []) = t
join_comma (t ∷ u ∷ ts) = t ++ codes ", " ++ join_comma (u ∷ ts)

-- A bound that is given, behind one of two signs.
abbrev pub bound_part : Option Text → Bool → String → String → List Text
bound_part none inclusive closed opened = []
bound_part (some bound) inclusive closed opened =
    (codes (if inclusive then closed else opened) ++ bound) ∷ []

unfoldable pub range_description : VersionRange → Text
unfolding join_comma codes
range_description r = take 320 (
    join_comma (
      (if r.introduced_unbounded then codes "from beginning" ∷ [] else [])
      ++ bound_part r.introduced r.introduced_inclusive ">=" ">"
      ++ bound_part r.fixed r.fixed_inclusive "<=" "<"
      ++ bound_part r.last_affected r.last_affected_inclusive "<=" "<"))

-- `status == "supported" and order == 0`
abbrev pub is_same_order : ComparisonStatus → Option Order → Bool
is_same_order supported (some equal) = true
is_same_order supported (some less) = false
is_same_order supported (some greater) = false
is_same_order supported none = false
is_same_order unsupported order = false
is_same_order invalid order = false

abbrev pub is_supported : ComparisonStatus → Bool
is_supported supported = true
is_supported unsupported = false
is_supported invalid = false

-- The loop over the listed versions, with the last reason for which a comparison was not supported.
-- The list is not empty where there is such a reason.
unfoldable pub exact_status_from : Pep440 → String → Text → String → List Text → Outcome
unfolding compare_versions
exact_status_from p ecosystem installed reason [] =
    if not (reason =s= "")
    then (unsupported_comparison, reason)
    else (not_affected, "installed-version-not-in-exact-list")
exact_status_from p ecosystem installed reason (exact ∷ rest) =
    let comparison = compare_versions p ecosystem (some installed) (some exact) in
    let later =
      exact_status_from p ecosystem installed
        (if is_supported comparison.status then reason else comparison.reason) rest in
    if is_same_order comparison.status comparison.order
    then (affected, "installed-version-is-listed-exactly")
    else later

unfoldable pub exact_version_status : Pep440 → String → Text → List Text → Outcome
unfolding exact_status_from
exact_version_status p ecosystem installed exact_versions =
    exact_status_from p ecosystem installed "" exact_versions

-- An outcome with the description of its condition.
abbrev pub Described : Type 0
Described = MatchStatus × (String × Option Text)

abbrev pub described : Outcome → Option Text → Described
described o text = (o.0, (o.1, text))

abbrev pub exact_outcomes : Pep440 → String → Text → List Text → List Described
exact_outcomes p ecosystem installed [] = []
exact_outcomes p ecosystem installed (e ∷ es) =
    described (exact_version_status p ecosystem installed (e ∷ es))
      (some (codes "exact version list"))
    ∷ []

abbrev pub range_outcomes : Pep440 → String → Text → List VersionRange → List Described
range_outcomes p ecosystem installed ranges =
    map
      (λ r.
        described (version_satisfies_range p ecosystem (some installed) r)
          (some (range_description r)))
      (take 32 ranges)

-- `next((item for item in outcomes if item[0] == status), None)`
unfoldable pub first_with : MatchStatus → List Described → Option Described
first_with status [] = none
first_with status (o ∷ os) =
    let later = first_with status os in if o.0 =m= status then some o else later

abbrev pub first_reason : List Described → String
first_reason [] = "no-reviewed-version-range-applies"
first_reason (o ∷ os) = o.1.0

-- Status, reason and range: an affected outcome before an unsupported one before a fixed one.
abbrev pub resolved : Option Described → Option Described → Option Described → String → Described
resolved (some o) unsupported_one fixed_one reason = (affected, o.1)
resolved none (some o) fixed_one reason = (unsupported_comparison, (o.1.0, none))
resolved none none (some o) reason = (fixed, (o.1.0, none))
resolved none none none reason = (not_affected, (reason, none))

unfoldable pub resolve : List Described → Described
unfolding first_with
resolve outcomes =
    resolved (first_with affected outcomes) (first_with unsupported_comparison outcomes)
      (first_with fixed outcomes) (first_reason outcomes)
