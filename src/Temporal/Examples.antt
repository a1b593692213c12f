-- ===== src/Temporal/Examples.antt =====
-- Runs of the temporal services over a small store, and instances of the theorems about them.
mod Facts
mod Witnesses
mod Instances
use openassetwatch.Prelude.{
  ℕ, zero, suc, ◌+◌, ◌-◌, ◌*◌, ◌/◌, ◌≤◌, ◌≡◌, refl, Bool, true, false, String, Option, none, some,
  List, [], ◌∷◌, ◌++◌, ◌==◌, if◌then◌else◌, length, arith,
}
use openassetwatch.Text.{Text, codes, is_hex_of_length}
use openassetwatch.Temporal.Result.{Result, ok, err}
use openassetwatch.Temporal.Clock.{Stamp, naive, aware, day}
use openassetwatch.Temporal.Vocabulary.{
  Granularity, SignalFreshness, SignalDataQuality, BackfillState, ExpectationMethod, Confidence,
  ExpectationDataQuality, PolicyDirection,
}
use openassetwatch.Temporal.Contracts.Signal.{Signal}
use openassetwatch.Temporal.Contracts.Expectation.{Expectation, Authority}
use openassetwatch.Temporal.Contracts.Policy.{Policy}
use openassetwatch.Temporal.Identity.{Hashing, Json}
use openassetwatch.Temporal.Projection.Signals.{Aggregate}
use openassetwatch.Temporal.Projection.Service.{Store, SeriesRequest, series}
use openassetwatch.Temporal.Expectations.Service.{ExpectationRequest}
use openassetwatch.Temporal.Deviations.Inputs.{AssessmentRequest}
use openassetwatch.Temporal.Deviations.Service.{from_projection_store, assessment}

-- A hash with one value, and a printer with one text.
abbrev pub zeros : ℕ → Text
zeros zero = []
zeros (suc n) = b'0' ∷ zeros n

pub zeros_form : is_hex_of_length 64 (zeros 64) ≡ true
unfolding is_hex_of_length
zeros_form = refl

abbrev pub hashing : Hashing
hashing = record {
  sha256_hexdigest = λ t. zeros 64;
  dumps = λ j. [];
  isoformat = λ t. [];
  hexdigest_form = λ t. zeros_form;
}

abbrev pub target_start : ℕ
target_start = 738_000 * day

abbrev pub aggregate_at : ℕ → ℕ → Aggregate
aggregate_at value t = record {
  value = value;
  evidence_count = 1;
  source_observed_at = some (t + day);
  source_received_at = some (t + day);
  complete = true;
  coverage_observed = true;
}

-- Ten a day, and a hundred on the last two days.
abbrev pub value_on : ℕ → ℕ
value_on t =
    if t == target_start
    then 100_000_000
    else if t == target_start - day
    then 100_000_000
    else 10_000_000

abbrev pub rows : ℕ → ℕ → List (Stamp × Aggregate)
rows zero t = []
rows (suc n) t = (aware t, aggregate_at (value_on t) t) ∷ rows n (t + day)

abbrev pub store : Store
store = record {
  metric_buckets = λ m site start stop cutoff. ok (rows ((stop - start) / day) start);
}

abbrev pub calculation_time : ℕ
calculation_time = target_start + 3 * day

abbrev pub now : Stamp
now = aware calculation_time

abbrev pub assessment_request : AssessmentRequest
assessment_request = record {
  metric_key = "site.inventory.collections.count";
  site_id = "home";
  target_start = aware target_start;
  granularity = "daily";
  asset_id = none;
  generated_at = none;
}

abbrev pub expectation_query : ExpectationRequest
expectation_query = record {
  metric_key = "site.inventory.collections.count";
  site_id = "home";
  target_start = aware target_start;
  granularity = "daily";
  asset_id = none;
  generated_at = none;
}

abbrev pub series_query : SeriesRequest
series_query = record {
  metric_key = "site.inventory.collections.count";
  site_id = "home";
  start = aware (target_start - day);
  stop = aware (target_start + day);
  granularity = "daily";
  asset_id = none;
  generated_at = none;
  knowledge_cutoff = none;
}

abbrev pub observed_signal : Signal
observed_signal = record {
  signal_id = codes "sig_" ++ zeros 32;
  metric_key = "site.assets.new.count";
  tenant_id = none;
  site_id = "home";
  asset_id = none;
  bucket_start = target_start;
  bucket_end = target_start + day;
  bucket_granularity = Granularity.daily;
  value = some 5_000_000;
  unit = "count";
  evidence_count = 5;
  source = "canonical";
  source_observed_at = some target_start;
  source_received_at = none;
  freshness = SignalFreshness.current;
  complete = true;
  data_quality = SignalDataQuality.observed;
  backfill_state = BackfillState.live;
  projection_version = "1";
  generated_at = target_start;
}

abbrev pub estimated : Expectation
estimated = record {
  expectation_id = codes "exp_" ++ zeros 32;
  history_digest = zeros 64;
  metric_key = "site.assets.new.count";
  tenant_id = none;
  site_id = "home";
  asset_id = none;
  target_bucket_start = target_start;
  target_bucket_end = target_start + day;
  bucket_granularity = Granularity.daily;
  knowledge_cutoff = target_start;
  generated_at = target_start;
  history_start = target_start - 56 * day;
  history_end = target_start;
  history_bucket_count = 56;
  usable_bucket_count = 56;
  missing_bucket_count = 0;
  incomplete_bucket_count = 0;
  stale_bucket_count = 0;
  late_arriving_bucket_count = 0;
  method = ExpectationMethod.rolling_robust_baseline;
  method_sample_count = 28;
  horizon_buckets = 1;
  expected = some 3_000_000;
  lower = some 2_000_000;
  upper = some 4_000_000;
  unit = "count";
  confidence = Confidence.high;
  data_quality = ExpectationDataQuality.sufficient;
  blocked_reason = none;
  projection_version = "1";
  authority = Authority.analytical_context_only;
}

abbrev pub low_policy : Policy
low_policy = record {
  policy_id = "tdp_low";
  policy_version = "1";
  metric_key = "site.assets.new.count";
  allowed_directions = PolicyDirection.above ∷ [];
  minimum_expectation_confidence = Confidence.low;
  required_expectation_data_quality = ExpectationDataQuality.sufficient;
  required_persistence_buckets = 1;
  maximum_persistence_lookback = 1;
}
