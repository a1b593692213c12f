-- ===== src/Vulnerability/Examples.antt =====
-- A component, an affected record, runs of the matching, and instances of its theorems.
use mathlib.Core.List.Perm
use mathlib.Core.List.{Memᴰ}
use openassetwatch.Temporal.Result.{ok}
use openassetwatch.Prelude.{◌≤◌, length, arith}
use openassetwatch.Prelude.{◌≡◌, refl, ◌↔◌, true, false, none, some, [], ◌∷◌, filter, any}
use openassetwatch.Text.{codes, text_eq}
use openassetwatch.Temporal.Examples.{hashing}
use openassetwatch.Temporal.Expectations.Digest.{text_lt}
use openassetwatch.Versions.Characters.{
  leading, after, numeral_from, is_numeral, split_on, tokens, words, join_words, join_run,
  add_first, bounded_text, normalize_version_text,
}
use openassetwatch.Versions.Schemes.Rpm.{split_epoch}
use openassetwatch.Versions.Debian.{
  debian_compare, remainder_compare, before_last_dash, after_last_dash, debian_part_compare,
  part_rounds, digits_order, significant, scan, scan_right,
}
use openassetwatch.Versions.Compare.{
  is_safe_version, scheme_of, scheme_compare, compare_keys, key_attempt, compare_texts,
  compare_versions,
}
use openassetwatch.Versions.Range.{
  MatchStatus, affected, not_affected, fixed, VersionRange, at_bound, upper_outcome, fixed_outcome,
  range_outcome, version_satisfies_range,
}
use openassetwatch.Versions.Examples.{dotted}
use openassetwatch.Vulnerability.Names.{
  Naming, dashed, left_trimmed, right_trimmed, normalized_token,
}
use openassetwatch.Vulnerability.Records.{Component, Affected, VulnerabilityMatch}
use openassetwatch.Vulnerability.Outcomes.{
  join_comma, range_description, exact_status_from, exact_version_status, first_with, resolve,
}
use openassetwatch.Vulnerability.Index.{Key, lookup, candidate_index, identifier_key, name_key}
use openassetwatch.Vulnerability.Index.Lookup.{has_key, candidate_index-lookup}
use openassetwatch.Vulnerability.Matching.{
  match_id_for, constraint_applies, match_names, identity_match, match_verdict, unique_by,
  match_component,
}
use openassetwatch.Vulnerability.Index.{found_rows, put, candidates_from, append_at, index_from}
use openassetwatch.Vulnerability.Evaluation.{all_evidence, all_reasons, greatest_from}
use openassetwatch.Vulnerability.Run.{
  pair_of, add_match, add_id, match_candidates, evaluate_component, evaluate_components,
  insert_group, sorted_groups, matches_of, evaluate_matches,
}
use openassetwatch.Vulnerability.Run.Reported.{reports_affected}
use openassetwatch.Vulnerability.Run.Complete.{evaluate_matches-reports}
use openassetwatch.Vulnerability.Run.Sound.{evaluate_matches-IsVulnerable}
use openassetwatch.Vulnerability.Run.Distinct.{DistinctPairs, evaluate_matches-DistinctPairs}
use openassetwatch.Vulnerability.Run.Bounded.{evaluate_matches-le}
use openassetwatch.Vulnerability.Matching.Reordered.{
  reported_status, with_conditions, match_component-reordered,
}
use openassetwatch.Vulnerability.Matching.Laws.{IsVulnerable, match_component-IsVulnerable}
use openassetwatch.Vulnerability.Evaluation.{precedence, aggregate_advisory_matches}
use openassetwatch.Vulnerability.Evaluation.Selection.{
  is_affected_match, NoneAbove, aggregate_advisory_matches-affected,
  aggregate_advisory_matches-NoneAbove,
}

-- Identifiers as they are, without their versions; case is kept.
abbrev naming : Naming
naming = record { casefold = λ t. t; purl_identity = λ i. i }

abbrev openssl : Component
openssl = record {
  component_id = codes "cmp_1";
  site_id = codes "site";
  asset_id = codes "asset";
  ecosystem = "deb";
  canonical_identifier = some (codes "pkg:deb/openssl");
  normalized_name = some (codes "openssl");
  vendor = none;
  normalized_version = some (codes "3.0.9");
  architecture = some (codes "amd64");
  asset_platform = none;
  component_type = "operating-system-package";
  firmware_evidence_type = "";
  source_type = "endpoint-collector";
  freshness = some "fresh";
  confidence = 100;
  active = true;
  evidence_ids = [];
}

abbrev until_fixed : VersionRange
until_fixed = record {
  introduced_unbounded = false;
  introduced = some (codes "3.0.0");
  introduced_inclusive = true;
  fixed = some (codes "3.0.11-1");
  fixed_inclusive = false;
  last_affected = none;
  last_affected_inclusive = true;
}

abbrev flaw : Affected
flaw = record {
  affected_id = codes "aff_1";
  advisory_id = codes "adv_1";
  ecosystem = "deb";
  canonical_identifier = some (codes "pkg:deb/openssl");
  normalized_name = some (codes "openssl");
  vendor = none;
  current = true;
  withdrawn = false;
  architectures = codes "amd64" ∷ [];
  platforms = [];
  exact_versions = [];
  ranges = until_fixed ∷ [];
  fixed_versions = codes "3.0.11-1" ∷ [];
}

-- A match of the given status.
abbrev match_with : MatchStatus → VulnerabilityMatch
match_with status = record {
  match_id = codes "vmt_1";
  site_id = codes "site";
  asset_id = codes "asset";
  component_id = codes "cmp_1";
  advisory_id = codes "adv_1";
  affected_id = codes "aff_1";
  match_status = status;
  match_confidence = 100;
  matched_identifier = none;
  installed_version = none;
  affected_range = none;
  fixed_version = none;
  evaluated_at = 0;
  evidence_ids = [];
  reason_codes = "installed-version-missing" ∷ [];
  engine_version = "oaw.vulnerabilities.v1";
}

openssl_verdict :
    match_verdict dotted naming openssl flaw (identity_match naming openssl flaw).0
    ≡ (affected, ("installed-version-in-affected-range", some (codes ">=3.0.0, <3.0.11-1")))
unfolding codes text_eq text_lt leading after numeral_from is_numeral split_on tokens words
    join_words join_run add_first bounded_text normalize_version_text split_epoch debian_compare
    remainder_compare before_last_dash after_last_dash debian_part_compare part_rounds digits_order
    significant scan scan_right is_safe_version scheme_of scheme_compare compare_keys key_attempt
    compare_texts compare_versions at_bound upper_outcome fixed_outcome range_outcome
    version_satisfies_range dashed left_trimmed right_trimmed normalized_token join_comma
    range_description exact_status_from exact_version_status first_with resolve match_id_for
    constraint_applies match_names identity_match match_verdict unique_by match_component
openssl_verdict = refl

match_component-IsVulnerable_example :
    ((m : VulnerabilityMatch) × ((match_component hashing dotted naming openssl flaw 0 ≡ some m)
        × (m.match_status ≡ affected)))
    ↔ IsVulnerable dotted naming openssl flaw
match_component-IsVulnerable_example =
    match_component-IsVulnerable hashing dotted naming openssl flaw 0

abbrev before_four : VersionRange
before_four = record until_fixed { fixed = some (codes "4.0") }

-- The same advisory with two versions and two ranges.
abbrev listed_flaw : Affected
listed_flaw = record flaw {
  exact_versions = codes "3.0.9" ∷ codes "3.0.8" ∷ [];
  ranges = until_fixed ∷ before_four ∷ [];
}

match_component-reordered_example :
    reported_status (match_component hashing dotted naming openssl listed_flaw 0)
    ≡ reported_status (
        match_component hashing dotted naming openssl
          (with_conditions listed_flaw
            (codes "3.0.8" ∷ codes "3.0.9" ∷ [])
            (before_four ∷ until_fixed ∷ []))
          0)
match_component-reordered_example =
    match_component-reordered hashing dotted naming openssl listed_flaw 0 (omega arith)
      (Perm.swap _ _ _) (Perm.swap _ _ _)

aggregate_advisory_matches-affected_example :
    is_affected_match (
      aggregate_advisory_matches
        (match_with fixed)
        (match_with affected ∷ match_with not_affected ∷ []))
    ≡ any is_affected_match (match_with fixed ∷ match_with affected ∷ match_with not_affected ∷ [])
aggregate_advisory_matches-affected_example =
    aggregate_advisory_matches-affected (match_with fixed)
      (match_with affected ∷ match_with not_affected ∷ [])

aggregate_advisory_matches-NoneAbove_example :
    NoneAbove
      (precedence
        (aggregate_advisory_matches (match_with fixed) (match_with affected ∷ [])).match_status)
      (match_with fixed ∷ match_with affected ∷ [])
aggregate_advisory_matches-NoneAbove_example =
    aggregate_advisory_matches-NoneAbove (match_with fixed) (match_with affected ∷ [])

abbrev openssl_key : Key
openssl_key = ("deb", codes "openssl")

candidate_index-lookup_example :
    (lookup openssl_key (candidate_index (flaw ∷ [])).0
      ≡ filter (has_key identifier_key openssl_key) (flaw ∷ []))
    × (lookup openssl_key (candidate_index (flaw ∷ [])).1
        ≡ filter (has_key name_key openssl_key) (flaw ∷ []))
candidate_index-lookup_example = candidate_index-lookup (flaw ∷ []) openssl_key

abbrev openssl_match : VulnerabilityMatch
openssl_match = record {
  match_id = codes "vmt_00000000000000000000000000000000";
  site_id = codes "site";
  asset_id = codes "asset";
  component_id = codes "cmp_1";
  advisory_id = codes "adv_1";
  affected_id = codes "aff_1";
  match_status = affected;
  match_confidence = 100;
  matched_identifier = some (codes "pkg:deb/openssl");
  installed_version = some (codes "3.0.9");
  affected_range = some (codes ">=3.0.0, <3.0.11-1");
  fixed_version = some (codes "3.0.11-1");
  evaluated_at = 0;
  evidence_ids = codes "cmp_1" ∷ codes "adv_1" ∷ [];
  reason_codes = "installed-version-in-affected-range" ∷ "reviewed-identity-match" ∷ [];
  engine_version = "oaw.vulnerabilities.v1";
}

openssl_run :
    evaluate_matches hashing dotted naming 0 (openssl ∷ []) (flaw ∷ []) ≡ ok (openssl_match ∷ [])
unfolding codes text_eq text_lt leading after numeral_from is_numeral split_on tokens words
    join_words join_run add_first bounded_text normalize_version_text split_epoch debian_compare
    remainder_compare before_last_dash after_last_dash debian_part_compare part_rounds digits_order
    significant scan scan_right is_safe_version scheme_of scheme_compare compare_keys key_attempt
    compare_texts compare_versions at_bound upper_outcome fixed_outcome range_outcome
    version_satisfies_range dashed left_trimmed right_trimmed normalized_token join_comma
    range_description exact_status_from exact_version_status first_with resolve match_id_for
    constraint_applies match_names identity_match match_verdict unique_by match_component append_at
    lookup index_from candidate_index found_rows put candidates_from greatest_from all_evidence
    all_reasons aggregate_advisory_matches add_match add_id match_candidates evaluate_component
    evaluate_components insert_group sorted_groups matches_of evaluate_matches
openssl_run = refl

evaluate_matches-IsVulnerable_example :
    (c : Component) × ((a : Affected) × (Memᴰ c (openssl ∷ [])
        × (Memᴰ a (flaw ∷ [])
            × ((pair_of openssl_match ≡ (c.component_id, a.advisory_id))
                × IsVulnerable dotted naming c a))))
evaluate_matches-IsVulnerable_example =
    evaluate_matches-IsVulnerable hashing dotted naming 0 (openssl ∷ []) (flaw ∷ [])
      (openssl_match ∷ []) openssl_match openssl_run (Memᴰ.head refl) refl

evaluate_matches-DistinctPairs_example : DistinctPairs (openssl_match ∷ [])
evaluate_matches-DistinctPairs_example =
    evaluate_matches-DistinctPairs hashing dotted naming 0 (openssl ∷ []) (flaw ∷ [])
      (openssl_match ∷ []) openssl_run

evaluate_matches-le_example :
    (length (openssl ∷ []) ≤ 100000)
    × ((length (flaw ∷ []) ≤ 200000) × (length (openssl_match ∷ []) ≤ 200000))
evaluate_matches-le_example =
    evaluate_matches-le hashing dotted naming 0 (openssl ∷ []) (flaw ∷ []) (openssl_match ∷ [])
      openssl_run

openssl_matched : match_component hashing dotted naming openssl flaw 0 ≡ some openssl_match
unfolding codes text_eq text_lt leading after numeral_from is_numeral split_on tokens words
    join_words join_run add_first bounded_text normalize_version_text split_epoch debian_compare
    remainder_compare before_last_dash after_last_dash debian_part_compare part_rounds digits_order
    significant scan scan_right is_safe_version scheme_of scheme_compare compare_keys key_attempt
    compare_texts compare_versions at_bound upper_outcome fixed_outcome range_outcome
    version_satisfies_range dashed left_trimmed right_trimmed normalized_token join_comma
    range_description exact_status_from exact_version_status first_with resolve match_id_for
    constraint_applies match_names identity_match match_verdict unique_by match_component append_at
    lookup index_from candidate_index found_rows put candidates_from greatest_from all_evidence
    all_reasons aggregate_advisory_matches add_match add_id match_candidates evaluate_component
    evaluate_components insert_group sorted_groups matches_of evaluate_matches
openssl_matched = refl

openssl-IsVulnerable : IsVulnerable dotted naming openssl flaw
openssl-IsVulnerable =
    (match_component-IsVulnerable hashing dotted naming openssl flaw 0).0
      (openssl_match, (openssl_matched, refl))

flaw_is_candidate :
    Memᴰ flaw (candidates_from [] (found_rows (candidate_index (flaw ∷ [])) openssl))
unfolding codes text_eq text_lt leading after numeral_from is_numeral split_on tokens words
    join_words join_run add_first bounded_text normalize_version_text split_epoch debian_compare
    remainder_compare before_last_dash after_last_dash debian_part_compare part_rounds digits_order
    significant scan scan_right is_safe_version scheme_of scheme_compare compare_keys key_attempt
    compare_texts compare_versions at_bound upper_outcome fixed_outcome range_outcome
    version_satisfies_range dashed left_trimmed right_trimmed normalized_token join_comma
    range_description exact_status_from exact_version_status first_with resolve match_id_for
    constraint_applies match_names identity_match match_verdict unique_by match_component append_at
    lookup index_from candidate_index found_rows put candidates_from greatest_from all_evidence
    all_reasons aggregate_advisory_matches add_match add_id match_candidates evaluate_component
    evaluate_components insert_group sorted_groups matches_of evaluate_matches
flaw_is_candidate = Memᴰ.head refl

evaluate_matches-reports_example :
    any (reports_affected (openssl.component_id, flaw.advisory_id)) (openssl_match ∷ []) ≡ true
evaluate_matches-reports_example =
    evaluate_matches-reports hashing dotted naming 0 (openssl ∷ []) (flaw ∷ []) (openssl_match ∷ [])
      openssl flaw openssl_run (Memᴰ.head refl) flaw_is_candidate openssl-IsVulnerable
