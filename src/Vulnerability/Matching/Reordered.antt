-- ===== src/Vulnerability/Matching/Reordered.antt =====
-- The status that `match_component` (backend/app/vulnerability_matching.py) gives does not depend on
-- the order in which an advisory lists its versions and ranges.
use mathlib.Core.List.{Perm}
use openassetwatch.Prelude.{
  ℕ, ◌≤◌, ◌≡◌, refl, sym, ap, ◌∙◌, Bool, true, false, not, ◌&&◌, ◌||◌, Option, none, some, List, [],
  ◌∷◌, ◌++◌, ◌=s=◌, if◌then◌else◌, length, any, any-perm, length-perm, take-all, String, Bool-cases,
  inl, inr,
}
use openassetwatch.Text.{Text}
use openassetwatch.Temporal.Identity.{Hashing}
use openassetwatch.Versions.Compare.{Pep440, VersionComparison, compare_versions}
use openassetwatch.Versions.Compare.Reasons.{has_reason, compare_versions-reason}
use openassetwatch.Versions.Range.{
  MatchStatus, affected, not_affected, fixed, unsupported_comparison, VersionRange, Outcome,
}
use openassetwatch.Vulnerability.Names.{Naming}
use openassetwatch.Vulnerability.Records.{Component, Affected, VulnerabilityMatch}
use openassetwatch.Vulnerability.Outcomes.{
  ◌=m=◌, is_same_order, is_supported, exact_status_from, exact_version_status, Described,
  exact_outcomes, range_outcomes, resolve,
}
use openassetwatch.Vulnerability.Matching.{
  IdentityState, identity_match, is_unmatched, unless, installed_version_of, version_verdict,
  match_verdict, match_component,
}
use openassetwatch.Vulnerability.Matching.Verdict.{has_status, resolve-status}
use openassetwatch.Vulnerability.Matching.Laws.{
  is_listed, has_status-append, has_status-map, exact_outcomes-affected,
}

-- Some listed version cannot be compared.
abbrev is_incomparable : Pep440 → String → Text → List Text → Bool
is_incomparable p e v exact_versions =
    any (λ exact. not (is_supported (compare_versions p e (some v) (some exact)).status))
      exact_versions

-- The status of the exact list, by what stands in it.
abbrev listed_status : Bool → Bool → MatchStatus
listed_status true incomparable = affected
listed_status false true = unsupported_comparison
listed_status false false = not_affected

or_true : (b : Bool) → (b || true) ≡ true
or_true true = refl
or_true false = refl

-- One turn of the loop over the listed versions.
listed_step :
    (c : VersionComparison) (listed incomparable : Bool) (reason text : String) (later : Outcome)
    → has_reason c ≡ true
    → later.0
      ≡ listed_status listed
          (not ((if is_supported c.status then reason else c.reason) =s= "") || incomparable)
    → (if is_same_order c.status c.order then (affected, text) else later).0
      ≡ listed_status
          (is_same_order c.status c.order || listed)
          (not (reason =s= "") || (not (is_supported c.status) || incomparable))
listed_step c listed incomparable reason text later h e =
    elim (Bool-cases (is_same_order c.status c.order)) [
      | inl y ↦ rw y refl
      | inr n ↦ elim (Bool-cases (is_supported c.status)) [
        | inl s ↦ rw (n, s, rw s at e) refl
        | inr u ↦ rw (n, u, or_true (not (reason =s= ""))) (rw (u, h) at e)
      ]
    ]

no_turn :
    (b : Bool) (s t : String)
    → (let o : Outcome = if b then (unsupported_comparison, s) else (not_affected, t) in o.0)
      ≡ listed_status false (b || false)
no_turn true s t = refl
no_turn false s t = refl

exact_status_from-status :
    (p : Pep440) (e : String) (v : Text) (es : List Text) (reason : String)
    → (exact_status_from p e v reason es).0
      ≡ listed_status (is_listed p e v es) (not (reason =s= "") || is_incomparable p e v es)
unfolding exact_status_from
exact_status_from-status p e v [] reason = no_turn (not (reason =s= "")) _ _
exact_status_from-status p e v (x ∷ es) reason =
    listed_step (compare_versions p e (some v) (some x)) _ _ reason _ _
      (compare_versions-reason p e (some v) (some x)) (exact_status_from-status p e v es _)

-- What the outcome of the exact list is not.
not_listed :
    (listed incomparable : Bool)
    → (listed_status listed incomparable =m= unsupported_comparison) ≡ (not listed && incomparable)
not_listed true incomparable = refl
not_listed false true = refl
not_listed false false = refl

never_fixed : (listed incomparable : Bool) → (listed_status listed incomparable =m= fixed) ≡ false
never_fixed true incomparable = refl
never_fixed false true = refl
never_fixed false false = refl

or_false : (b : Bool) → (b || false) ≡ b
or_false true = refl
or_false false = refl

exact_outcomes-unsupported :
    (p : Pep440) (e : String) (v : Text) (es : List Text)
    → has_status unsupported_comparison (exact_outcomes p e v es)
      ≡ (not (is_listed p e v es) && is_incomparable p e v es)
unfolding exact_version_status
exact_outcomes-unsupported p e v [] = refl
exact_outcomes-unsupported p e v (x ∷ es) =
    or_false _
    ∙ ap (λ s. s =m= unsupported_comparison) (exact_status_from-status p e v (x ∷ es) "")
    ∙ not_listed (is_listed p e v (x ∷ es)) _

exact_outcomes-fixed :
    (p : Pep440) (e : String) (v : Text) (es : List Text)
    → has_status fixed (exact_outcomes p e v es) ≡ false
unfolding exact_version_status
exact_outcomes-fixed p e v [] = refl
exact_outcomes-fixed p e v (x ∷ es) =
    or_false _
    ∙ ap (λ s. s =m= fixed) (exact_status_from-status p e v (x ∷ es) "")
    ∙ never_fixed (is_listed p e v (x ∷ es)) _

module _ (p : Pep440) (e : String) (v : Text) {xs ys : List Text} (versions : Perm xs ys) where
  is_listed-perm : is_listed p e v xs ≡ is_listed p e v ys
  is_listed-perm = any-perm _ versions

  exact_unsupported-perm :
      has_status unsupported_comparison (exact_outcomes p e v xs)
      ≡ has_status unsupported_comparison (exact_outcomes p e v ys)
  exact_unsupported-perm =
      exact_outcomes-unsupported p e v xs
      ∙ rw
          (
            is_listed-perm,
            any-perm
                (λ exact. not (is_supported (compare_versions p e (some v) (some exact)).status))
                versions,
          )
          refl
      ∙ sym (exact_outcomes-unsupported p e v ys)

  exact_affected-perm :
      has_status affected (exact_outcomes p e v xs) ≡ has_status affected (exact_outcomes p e v ys)
  exact_affected-perm =
      exact_outcomes-affected p e v xs ∙ is_listed-perm ∙ sym (exact_outcomes-affected p e v ys)

  exact_fixed-perm :
      has_status fixed (exact_outcomes p e v xs) ≡ has_status fixed (exact_outcomes p e v ys)
  exact_fixed-perm = exact_outcomes-fixed p e v xs ∙ sym (exact_outcomes-fixed p e v ys)

-- The ranges of an advisory that none of them is cut off from.
range_outcomes-perm :
    (p : Pep440) (e : String) (v : Text) {rs ts : List VersionRange} (s : MatchStatus)
    → length rs ≤ 32
    → length ts ≤ 32
    → Perm rs ts
    → has_status s (range_outcomes p e v rs) ≡ has_status s (range_outcomes p e v ts)
range_outcomes-perm p e v {rs} {ts} s few_rs few_ts ranges =
    rw (take-all 32 rs few_rs, take-all 32 ts few_ts)
      (has_status-map s _ rs ∙ any-perm _ ranges ∙ sym (has_status-map s _ ts))

-- The status of a resolved pair of lists of outcomes.
resolve-alike :
    (os os' rs rs' : List Described)
    → has_status affected os ≡ has_status affected os'
    → has_status unsupported_comparison os ≡ has_status unsupported_comparison os'
    → has_status fixed os ≡ has_status fixed os'
    → ((s : MatchStatus) → has_status s rs ≡ has_status s rs')
    → (resolve (os ++ rs)).0 ≡ (resolve (os' ++ rs')).0
resolve-alike os os' rs rs' a u f r =
    resolve-status (os ++ rs)
    ∙ rw
        (
          has_status-append affected os rs,
          has_status-append unsupported_comparison os rs,
          has_status-append fixed os rs,
          has_status-append affected os' rs',
          has_status-append unsupported_comparison os' rs',
          has_status-append fixed os' rs',
          a,
          u,
          f,
          r affected,
          r unsupported_comparison,
          r fixed,
        )
        refl
    ∙ sym (resolve-status (os' ++ rs'))

unless-status :
    (test : Bool) (status : MatchStatus) (reason : String) (next : Described)
    → (unless test status reason next).0 ≡ (if test then status else next.0)
unless-status true status reason next = refl
unless-status false status reason next = refl

-- An affected record with its versions and ranges in other orders.
abbrev pub with_conditions : Affected → List Text → List VersionRange → Affected
with_conditions a versions ranges = record a { exact_versions = versions; ranges = ranges }

module _ (p : Pep440) (n : Naming) (c : Component) (a : Affected) {vs : List Text}
    {rs : List VersionRange} (versions : Perm a.exact_versions vs) (ranges : Perm a.ranges rs)
    (few : length a.ranges ≤ 32) where
  version_verdict-reordered :
      (installed : Option Text)
      → (version_verdict p c.ecosystem a installed).0
        ≡ (version_verdict p c.ecosystem (with_conditions a vs rs) installed).0
  version_verdict-reordered none = refl
  version_verdict-reordered (some v) =
      resolve-alike _ _ _ _ (exact_affected-perm p c.ecosystem v versions)
        (exact_unsupported-perm p c.ecosystem v versions)
        (exact_fixed-perm p c.ecosystem v versions)
        (λ s. range_outcomes-perm p c.ecosystem v s few (rw (← length-perm ranges) few) ranges)

  match_verdict-reordered :
      (i : IdentityState)
      → (match_verdict p n c a i).0 ≡ (match_verdict p n c (with_conditions a vs rs) i).0
  unfolding match_verdict
  match_verdict-reordered i =
      simp (unless-status, version_verdict-reordered (installed_version_of c.normalized_version))

-- The status of the match, if there is one.
abbrev pub reported_status : Option VulnerabilityMatch → Option MatchStatus
reported_status none = none
reported_status (some m) = some m.match_status

-- For an advisory of at most 32 ranges, neither whether a candidate is a match nor the match's status
-- depends on the order of the listed versions and of the ranges.
pub match_component-reordered :
    (h : Hashing) (p : Pep440) (n : Naming) (c : Component) (a : Affected) (evaluated_at : ℕ)
    {versions : List Text} {ranges : List VersionRange}
    → length a.ranges ≤ 32
    → Perm a.exact_versions versions
    → Perm a.ranges ranges
    → reported_status (match_component h p n c a evaluated_at)
      ≡ reported_status (match_component h p n c (with_conditions a versions ranges) evaluated_at)
unfolding match_component identity_match
match_component-reordered h p n c a t few versions ranges =
    statuses (is_unmatched (identity_match n c a).0) _ _
      (match_verdict-reordered p n c a versions ranges few (identity_match n c a).0)
  where
    statuses :
        (b : Bool) (x y : VulnerabilityMatch)
        → x.match_status ≡ y.match_status
        → reported_status (if b then none else some x)
          ≡ reported_status (if b then none else some y)
    statuses true x y e = refl
    statuses false x y e = ap some e
