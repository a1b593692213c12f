-- ===== src/Temporal/Deviations/Policies.antt =====
-- `TEMPORAL_DEVIATION_POLICIES` of backend/app/temporal_deviations.py.
use openassetwatch.Prelude.{ℕ, ◌≤◌, ◌≡◌, String, List, [], ◌∷◌, arith, ◌=s=◌, eq_iff, if◌then◌else◌}
use openassetwatch.Temporal.Result.{Result, ok, err, ErrorCode, projection, is_ok}
use openassetwatch.Temporal.Vocabulary.{PolicyDirection, Confidence, ExpectationDataQuality}
use openassetwatch.Temporal.Registry.{find_metric, temporal_metrics, temporal_metric}
use openassetwatch.Temporal.Contracts.Policy.{Policy, IsPolicy, validate_policy}

abbrev governed_policy : String → String → List PolicyDirection → ℕ → Policy
governed_policy id key directions persistence = record {
  policy_id = id;
  policy_version = "1";
  metric_key = key;
  allowed_directions = directions;
  minimum_expectation_confidence = Confidence.medium;
  required_expectation_data_quality = ExpectationDataQuality.sufficient;
  required_persistence_buckets = persistence;
  maximum_persistence_lookback = persistence;
}

abbrev only_above : List PolicyDirection
only_above = PolicyDirection.above ∷ []

abbrev only_below : List PolicyDirection
only_below = PolicyDirection.below ∷ []

abbrev both_ways : List PolicyDirection
both_ways = PolicyDirection.above ∷ PolicyDirection.below ∷ []

unfoldable pub temporal_deviation_policies : List Policy
temporal_deviation_policies =
    governed_policy "tdp_site_assets_new" "site.assets.new.count" only_above 1
    ∷ governed_policy "tdp_site_collectors_active" "site.collectors.active.count" only_below 1
    ∷ governed_policy "tdp_site_findings_new" "site.findings.new.count" only_above 1
    ∷ governed_policy "tdp_site_vulnerabilities_new" "site.vulnerabilities.new.count" only_above 1
    ∷ governed_policy "tdp_site_inventory_collections" "site.inventory.collections.count" both_ways
        2
    ∷ governed_policy "tdp_site_inventory_asset_observations"
        "site.inventory.asset_observations.count" both_ways 2
    ∷ []

unfoldable pub find_policy : String → List Policy → Result Policy
find_policy key [] = err (projection ErrorCode.unknown_metric)
find_policy key (p ∷ ps) = if key =s= p.metric_key then ok p else find_policy key ps

unfoldable pub temporal_deviation_policy : String → Result Policy
unfolding find_policy temporal_deviation_policies
temporal_deviation_policy key = find_policy key temporal_deviation_policies

-- A governed policy is one that its contract accepts, and needs at most two buckets in a row.
pub record IsGovernedPolicy (p : Policy) : Type 0 where
  pub valid : validate_policy p ≡ ok tt
  pub policy : IsPolicy p
  pub at_most_two_buckets : p.required_persistence_buckets ≤ 2

abbrev AllGoverned : List Policy → Type 0
AllGoverned [] = Unit
AllGoverned (p ∷ ps) = IsGovernedPolicy p × AllGoverned ps

find_policy-IsGovernedPolicy :
    (key : String) (ps : List Policy) {p : Policy}
    → AllGoverned ps
    → find_policy key ps ≡ ok p
    → IsGovernedPolicy p × (p.metric_key ≡ key)
unfolding find_policy
find_policy-IsGovernedPolicy key [] a h = cc
find_policy-IsGovernedPolicy key (x ∷ ps) {p} a h =
    ground (arith, eq_iff key x.metric_key, find_policy-IsGovernedPolicy key ps {p = p} a.1)

temporal_deviation_policies-AllGoverned : AllGoverned temporal_deviation_policies
unfolding temporal_deviation_policies validate_policy
temporal_deviation_policies-AllGoverned = ground arith

pub temporal_deviation_policy-IsGovernedPolicy :
    (key : String) {p : Policy}
    → temporal_deviation_policy key ≡ ok p
    → IsGovernedPolicy p × (p.metric_key ≡ key)
temporal_deviation_policy-IsGovernedPolicy key h =
    find_policy-IsGovernedPolicy key temporal_deviation_policies
      temporal_deviation_policies-AllGoverned (unfold temporal_deviation_policy in h)

-- A metric key has a deviation policy exactly when it is registered.
pub is_ok-temporal_deviation_policy :
    (key : String) → is_ok (temporal_deviation_policy key) ≡ is_ok (temporal_metric key)
unfolding temporal_deviation_policy find_policy temporal_deviation_policies temporal_metric
    find_metric temporal_metrics
is_ok-temporal_deviation_policy key = ground arith
