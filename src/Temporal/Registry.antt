-- ===== src/Temporal/Registry.antt =====
-- The governed metrics of backend/app/temporal_contracts.py.
use openassetwatch.Prelude.{
  ℕ, ◌≡◌, Bool, true, false, String, List, [], ◌∷◌, arith, ◌=s=◌, eq_iff, if◌then◌else◌,
}
use openassetwatch.Temporal.Result.{Result, ok, err, value_error}

-- The name, the description and the list of granularities, which is always ("daily",), are left out:
-- no code reads them.
pub record MetricDefinition : Type 0 where
  pub metric_key : String
  pub unit : String
  pub source_authority : String
  pub projection_version : String
  pub freshness_expectation_seconds : ℕ
  pub zero_is_meaningful : Bool
  pub missing_bucket_differs_from_zero : Bool
  pub supports_asset_scope : Bool

abbrev pub temporal_projection_version : String
temporal_projection_version = "1"

abbrev governed : String → String → String → ℕ → Bool → MetricDefinition
governed key unit_name source seconds zero_meaningful = record {
  metric_key = key;
  unit = unit_name;
  source_authority = source;
  projection_version = temporal_projection_version;
  freshness_expectation_seconds = seconds;
  zero_is_meaningful = zero_meaningful;
  missing_bucket_differs_from_zero = true;
  supports_asset_scope = false;
}

unfoldable pub temporal_metrics : List MetricDefinition
temporal_metrics =
    governed "site.assets.new.count" "count" "canonical control_tower_assets.first_seen_at" 129_600
      true
    ∷ governed "site.collectors.active.count" "count" "accepted agent_checkins" 90_000 true
    ∷ governed "site.findings.new.count" "count" "deterministic findings.first_seen_at" 129_600 true
    ∷ governed "site.vulnerabilities.new.count" "count"
        "deterministic vulnerability_matches.first_matched_at" 172_800 true
    ∷ governed "site.inventory.collections.count" "count" "canonical_inventory_collections" 129_600
        false
    ∷ governed "site.inventory.asset_observations.count" "asset-observations"
        "canonical_inventory_collections.canonical_asset_count" 129_600 true
    ∷ []

unfoldable pub find_metric : String → List MetricDefinition → Result MetricDefinition
find_metric key [] = err (value_error "unknown temporal metric")
find_metric key (m ∷ ms) = if key =s= m.metric_key then ok m else find_metric key ms

unfoldable pub temporal_metric : String → Result MetricDefinition
unfolding find_metric temporal_metrics
temporal_metric key = find_metric key temporal_metrics

-- What every governed metric satisfies.
pub record IsGoverned (m : MetricDefinition) : Type 0 where
  pub site_scope : m.supports_asset_scope ≡ false
  pub missing_differs : m.missing_bucket_differs_from_zero ≡ true

abbrev AllGoverned : List MetricDefinition → Type 0
AllGoverned [] = Unit
AllGoverned (m ∷ ms) = IsGoverned m × AllGoverned ms

find_metric-IsGoverned :
    (key : String) (ms : List MetricDefinition) {m : MetricDefinition}
    → AllGoverned ms
    → find_metric key ms ≡ ok m
    → IsGoverned m × (m.metric_key ≡ key)
unfolding find_metric
find_metric-IsGoverned key [] a h = cc
find_metric-IsGoverned key (x ∷ ms) {m} a h =
    ground (arith, eq_iff key x.metric_key, find_metric-IsGoverned key ms {m = m} a.1)

temporal_metrics-AllGoverned : AllGoverned temporal_metrics
unfolding temporal_metrics
temporal_metrics-AllGoverned = ground arith

pub temporal_metric-IsGoverned :
    (key : String) {m : MetricDefinition}
    → temporal_metric key ≡ ok m
    → IsGoverned m × (m.metric_key ≡ key)
temporal_metric-IsGoverned key h =
    find_metric-IsGoverned key temporal_metrics temporal_metrics-AllGoverned
      (unfold temporal_metric in h)
