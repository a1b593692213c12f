-- ===== src/Versions/Compare/Reasons.antt =====
-- Every comparison of backend/app/version_intelligence.py says why it is not supported.
use openassetwatch.Prelude.{
  ◌≡◌, refl, Bool, true, false, not, ◌||◌, Option, none, some, ◌=s=◌, if◌then◌else◌, String,
}
use openassetwatch.Text.{Text, text_eq}
use openassetwatch.Temporal.Result.{Result, ok, err, ◌>>=◌}
use openassetwatch.Versions.Order.{Order, equal, Ordered, number_ordered, integer_ordered}
use openassetwatch.Versions.Order.Tuples.{pair_ordered, list_ordered}
use openassetwatch.Versions.Schemes.{part_ordered}
use openassetwatch.Versions.Schemes.Semver.{semver}
use openassetwatch.Versions.Schemes.Rpm.{rpm_segments, generic_numeric}
use openassetwatch.Versions.Schemes.Maven.{maven}
use openassetwatch.Versions.Characters.{normalize_version_text}
use openassetwatch.Versions.Debian.{debian_compare}
use openassetwatch.Versions.Compare.{
  Pep440, Scheme, invalid, supported, version_comparison, Attempt, in_order, VersionComparison,
  pypi, semantic, debian, rpm, maven_scheme, generic, unknown, scheme_of, key_attempt, compare_keys,
  always, scheme_compare, conclude, is_safe_version, compare_texts, compare_normalized,
  compare_versions,
}

abbrev pub has_reason : VersionComparison → Bool
has_reason c = not (c.reason =s= "")

module _ {K : Type 0} (o : Ordered K) (reason : String) where
  attempt_of : Result (Option K) → Result (Option K) → Result Attempt
  unfolding key_attempt
  attempt_of left right = left >>= λ l. right >>= λ r. ok (key_attempt o reason l r)

  attempt_of-reason :
      (left right : Result (Option K))
      → (reason =s= "") ≡ false
      → has_reason (conclude (attempt_of left right)) ≡ true
  unfolding attempt_of
  attempt_of-reason (err a) right h = refl
  attempt_of-reason (ok l) (err b) h = refl
  attempt_of-reason (ok none) (ok r) h = rw h refl
  attempt_of-reason (ok (some l)) (ok none) h = rw h refl
  attempt_of-reason (ok (some l)) (ok (some r)) h = refl

  -- Texts that always have a key need no reason.
  always-reason :
      (left right : Result K)
      → has_reason (conclude (attempt_of (always left) (always right))) ≡ true
  unfolding attempt_of
  always-reason (err a) right = refl
  always-reason (ok l) (err b) = refl
  always-reason (ok l) (ok r) = refl

scheme_compare-reason :
    (p : Pep440) (s : Scheme) (l r : Text) → has_reason (conclude (scheme_compare p s l r)) ≡ true
unfolding scheme_compare compare_keys attempt_of
scheme_compare-reason p pypi l r =
    attempt_of-reason p.ordered "unsupported-pep440-form" (ok (p.parse l)) (ok (p.parse r)) refl
scheme_compare-reason p semantic l r =
    attempt_of-reason pair_ordered "unsupported-semver-form" (semver l) (semver r) refl
scheme_compare-reason p debian l r = ordered (debian_compare l r)
  where
    ordered : (x : Result Order) → has_reason (conclude (x >>= λ order. ok (in_order order))) ≡ true
    ordered (err raised) = refl
    ordered (ok order) = refl
scheme_compare-reason p rpm l r = always-reason list_ordered "" (rpm_segments l) (rpm_segments r)
scheme_compare-reason p maven_scheme l r = always-reason pair_ordered "" (maven l) (maven r)
scheme_compare-reason p generic l r =
    attempt_of-reason list_ordered "unsupported-generic-version" (ok (generic_numeric l))
      (ok (generic_numeric r)) refl
scheme_compare-reason p unknown l r = refl

compare_texts-reason :
    (p : Pep440) (e : String) (l r : Text) → has_reason (compare_texts p e l r) ≡ true
unfolding compare_texts
compare_texts-reason p e l r =
    chosen (not (is_safe_version l) || not (is_safe_version r)) (text_eq l r) _
      (scheme_compare-reason p (scheme_of e) l r)
  where
    chosen :
        (unsafe same : Bool) (c : VersionComparison)
        → has_reason c ≡ true
        → has_reason (
            if unsafe
            then version_comparison invalid none "version-contains-unsupported-characters"
            else if same
            then version_comparison supported (some equal) "exact-equality"
            else c)
          ≡ true
    chosen true same c h = refl
    chosen false true c h = refl
    chosen false false c h = h

compare_normalized-reason :
    (p : Pep440) (e : String) (l r : Option Text) → has_reason (compare_normalized p e l r) ≡ true
compare_normalized-reason p e none r = refl
compare_normalized-reason p e (some l) none = refl
compare_normalized-reason p e (some l) (some r) = compare_texts-reason p e l r

-- Every comparison has a reason.
pub compare_versions-reason :
    (p : Pep440) (e : String) (l r : Option Text) → has_reason (compare_versions p e l r) ≡ true
unfolding compare_versions
compare_versions-reason p e l r =
    compare_normalized-reason p e (normalize_version_text l) (normalize_version_text r)
