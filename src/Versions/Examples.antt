-- ===== src/Versions/Examples.antt =====
-- Runs of the comparison and instances of its theorems.
use openassetwatch.Prelude.{
  ℕ, ◌≤◌, ◌≡◌, refl, inl, true, false, none, some, List, ◌∷◌, ◌++◌, map, arith, all, length, any,
  if◌then◌else◌, ◌==◌,
}
use openassetwatch.Text.{Text, codes, text_eq}
use openassetwatch.Temporal.Result.{ok, ◌>>=◌}
use openassetwatch.Versions.Order.{less, equal, number_ordered}
use openassetwatch.Versions.Order.Tuples.{list_order, list_ordered}
use openassetwatch.Versions.Characters.{
  leading, after, numeral_from, numeral, is_numeral, split_on, tokens, words, join_words, join_run,
  add_first, bounded_text, normalize_version_text,
}
use openassetwatch.Versions.Characters.Normal.{normalize_version_text-again}
use openassetwatch.Versions.Schemes.{Part, part_ordered}
use openassetwatch.Versions.Schemes.Rpm.{split_epoch, rpm_segments, is_colon}
use openassetwatch.Versions.Schemes.Tilde.{rpm_segments-tilde}
use openassetwatch.Versions.Debian.{
  debian_compare, remainder_compare, before_last_dash, after_last_dash, debian_part_compare,
  part_rounds, digits_order, significant, scan, scan_right,
}
use openassetwatch.Versions.Debian.Key.{key_from, debian_key, padded_order}
use openassetwatch.Versions.Debian.Agreement.{debian_part_compare-padded_order}
use openassetwatch.Versions.Debian.Refinement.{
  debian_ordered, debian_version, debian_compare-debian_version,
}
use openassetwatch.Versions.Compare.{
  Pep440, is_safe_version, scheme_of, scheme_compare, compare_keys, key_attempt, compare_texts,
  compare_versions,
}
use openassetwatch.Versions.Compare.Keyed.{mirrored}
use openassetwatch.Versions.Compare.Laws.{compare_versions-mirrored}
use openassetwatch.Versions.Compare.Preorder.{
  version_order, version_order_trans, version_order-alike,
}
use openassetwatch.Versions.Range.{
  affected, VersionRange, at_bound, upper_outcome, fixed_outcome, range_outcome,
  version_satisfies_range,
}
use openassetwatch.Versions.Range.Interval.{InRange}
use openassetwatch.Versions.Range.Convex.{version_satisfies_range-between}

-- The release numbers of PEP 440, without its other parts.
abbrev pub dotted : Pep440
dotted = record {
  Version = List ℕ;
  parse = λ t.
      let items = split_on b'.' t in
      if all is_numeral items then some (map numeral items) else none;
  ordered = list_ordered;
}

abbrev candidate : Text
candidate = codes "1.0~rc1"

abbrev release : Text
release = codes "1.0"

abbrev padded_release : Text
padded_release = codes "1.00"

abbrev revised : Text
revised = codes "1.1-2"

abbrev range_to_revised : VersionRange
range_to_revised = record {
  introduced_unbounded = false;
  introduced = some candidate;
  introduced_inclusive = true;
  fixed = some (codes "2.0");
  fixed_inclusive = false;
  last_affected = none;
  last_affected_inclusive = true;
}

candidate_below_release : version_order dotted "deb" (some candidate) (some release) ≡ some less
unfolding codes text_eq normalize_version_text bounded_text words join_words join_run add_first
    leading after numeral_from is_numeral split_on tokens is_safe_version scheme_of scheme_compare
    compare_keys key_attempt compare_texts compare_versions debian_compare remainder_compare
    before_last_dash after_last_dash debian_part_compare part_rounds digits_order significant scan
    scan_right split_epoch key_from padded_order debian_version at_bound upper_outcome fixed_outcome
    range_outcome version_satisfies_range InRange
candidate_below_release = refl

release_below_revised : version_order dotted "deb" (some release) (some revised) ≡ some less
unfolding codes text_eq normalize_version_text bounded_text words join_words join_run add_first
    leading after numeral_from is_numeral split_on tokens is_safe_version scheme_of scheme_compare
    compare_keys key_attempt compare_texts compare_versions debian_compare remainder_compare
    before_last_dash after_last_dash debian_part_compare part_rounds digits_order significant scan
    scan_right split_epoch key_from padded_order debian_version at_bound upper_outcome fixed_outcome
    range_outcome version_satisfies_range InRange
release_below_revised = refl

release_same_padded : version_order dotted "deb" (some release) (some padded_release) ≡ some equal
unfolding codes text_eq normalize_version_text bounded_text words join_words join_run add_first
    leading after numeral_from is_numeral split_on tokens is_safe_version scheme_of scheme_compare
    compare_keys key_attempt compare_texts compare_versions debian_compare remainder_compare
    before_last_dash after_last_dash debian_part_compare part_rounds digits_order significant scan
    scan_right split_epoch key_from padded_order debian_version at_bound upper_outcome fixed_outcome
    range_outcome version_satisfies_range InRange
release_same_padded = refl

candidate_is_normal : normalize_version_text (some candidate) ≡ some candidate
unfolding codes text_eq normalize_version_text bounded_text words join_words join_run add_first
    leading after numeral_from is_numeral split_on tokens is_safe_version scheme_of scheme_compare
    compare_keys key_attempt compare_texts compare_versions debian_compare remainder_compare
    before_last_dash after_last_dash debian_part_compare part_rounds digits_order significant scan
    scan_right split_epoch key_from padded_order debian_version at_bound upper_outcome fixed_outcome
    range_outcome version_satisfies_range InRange
candidate_is_normal = refl

release_is_normal : normalize_version_text (some release) ≡ some release
unfolding codes text_eq normalize_version_text bounded_text words join_words join_run add_first
    leading after numeral_from is_numeral split_on tokens is_safe_version scheme_of scheme_compare
    compare_keys key_attempt compare_texts compare_versions debian_compare remainder_compare
    before_last_dash after_last_dash debian_part_compare part_rounds digits_order significant scan
    scan_right split_epoch key_from padded_order debian_version at_bound upper_outcome fixed_outcome
    range_outcome version_satisfies_range InRange
release_is_normal = refl

revised_is_normal : normalize_version_text (some revised) ≡ some revised
unfolding codes text_eq normalize_version_text bounded_text words join_words join_run add_first
    leading after numeral_from is_numeral split_on tokens is_safe_version scheme_of scheme_compare
    compare_keys key_attempt compare_texts compare_versions debian_compare remainder_compare
    before_last_dash after_last_dash debian_part_compare part_rounds digits_order significant scan
    scan_right split_epoch key_from padded_order debian_version at_bound upper_outcome fixed_outcome
    range_outcome version_satisfies_range InRange
revised_is_normal = refl

spaced_is_release : normalize_version_text (some (codes "  1.0 ")) ≡ some release
unfolding codes text_eq normalize_version_text bounded_text words join_words join_run add_first
    leading after numeral_from is_numeral split_on tokens is_safe_version scheme_of scheme_compare
    compare_keys key_attempt compare_texts compare_versions debian_compare remainder_compare
    before_last_dash after_last_dash debian_part_compare part_rounds digits_order significant scan
    scan_right split_epoch key_from padded_order debian_version at_bound upper_outcome fixed_outcome
    range_outcome version_satisfies_range InRange
spaced_is_release = refl

candidate_affected :
    (version_satisfies_range dotted "deb" (some candidate) range_to_revised).0 ≡ affected
unfolding codes text_eq normalize_version_text bounded_text words join_words join_run add_first
    leading after numeral_from is_numeral split_on tokens is_safe_version scheme_of scheme_compare
    compare_keys key_attempt compare_texts compare_versions debian_compare remainder_compare
    before_last_dash after_last_dash debian_part_compare part_rounds digits_order significant scan
    scan_right split_epoch key_from padded_order debian_version at_bound upper_outcome fixed_outcome
    range_outcome version_satisfies_range InRange
candidate_affected = refl

revised_affected :
    (version_satisfies_range dotted "deb" (some revised) range_to_revised).0 ≡ affected
unfolding codes text_eq normalize_version_text bounded_text words join_words join_run add_first
    leading after numeral_from is_numeral split_on tokens is_safe_version scheme_of scheme_compare
    compare_keys key_attempt compare_texts compare_versions debian_compare remainder_compare
    before_last_dash after_last_dash debian_part_compare part_rounds digits_order significant scan
    scan_right split_epoch key_from padded_order debian_version at_bound upper_outcome fixed_outcome
    range_outcome version_satisfies_range InRange
revised_affected = refl

normalize_version_text-again_example : normalize_version_text (some release) ≡ some release
normalize_version_text-again_example =
    normalize_version_text-again (some (codes "  1.0 ")) release spaced_is_release

version_order_trans_example : version_order dotted "deb" (some candidate) (some revised) ≡ some less
version_order_trans_example =
    version_order_trans dotted "deb" (some candidate) (some release) (some revised)
      candidate_below_release release_below_revised

version_order-alike_example :
    version_order dotted "deb" (some padded_release) (some revised) ≡ some less
version_order-alike_example =
    version_order-alike dotted "deb" (some release) (some padded_release) (some revised) less
      release_same_padded release_below_revised

compare_versions-mirrored_example :
    compare_versions dotted "pypi" (some release) (some candidate)
    ≡ mirrored (compare_versions dotted "pypi" (some candidate) (some release))
compare_versions-mirrored_example =
    compare_versions-mirrored dotted "pypi" (some candidate) (some release)

version_satisfies_range-between_example :
    (version_satisfies_range dotted "deb" (some release) range_to_revised).0 ≡ affected
version_satisfies_range-between_example =
    version_satisfies_range-between dotted "deb" range_to_revised candidate release revised
      candidate_is_normal release_is_normal revised_is_normal candidate_affected revised_affected
      (inl candidate_below_release) (inl release_below_revised)

short_candidate : length candidate ≤ 160
unfolding codes
short_candidate = omega arith

debian_part_compare-padded_order_example :
    debian_part_compare candidate release
    ≡ ok (padded_order (debian_key candidate) (debian_key release))
debian_part_compare-padded_order_example =
    debian_part_compare-padded_order candidate release (omega (arith, short_candidate))

debian_compare-debian_version_example : debian_compare candidate revised ≡ (
    debian_version candidate >>= λ a. debian_version revised >>= λ b. ok (debian_ordered.order a b))
debian_compare-debian_version_example =
    debian_compare-debian_version candidate revised short_candidate

few_tokens : length (tokens (λ c. c == b'~') (release ++ b'~' ∷ codes "rc1")) ≤ 63
unfolding tokens join_run add_first codes
few_tokens = omega arith

no_colon : (any is_colon release ≡ false) × (any is_colon (codes "rc1") ≡ false)
unfolding codes
no_colon = (refl, refl)

rpm_segments-tilde_example :
    (short : List Part) × ((long : List Part) × ((rpm_segments release ≡ ok short)
        × ((rpm_segments (release ++ b'~' ∷ codes "rc1") ≡ ok long)
            × (list_order short long ≡ less))))
rpm_segments-tilde_example =
    rpm_segments-tilde release (codes "rc1") no_colon.0 no_colon.1 few_tokens
