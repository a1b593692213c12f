-- ===== src/Temporal/Contracts/Series.antt =====
-- `TemporalSignalSeriesResponse` of backend/app/temporal_contracts.py.
pub mod Walk
use openassetwatch.Prelude.{
  ℕ, not, ◌&&◌, ◌||◌, String, Option, List, [], ◌∷◌, leb, ◌==◌, ◌=s=◌, length, count_if,
}
use openassetwatch.Temporal.Result.{Result, ok, ◌>>=◌, ◌>>◌, refuse_if}
use openassetwatch.Temporal.Vocabulary.{Granularity, is_missing, ◌=o=◌}
use openassetwatch.Temporal.Registry.{MetricDefinition}
use openassetwatch.Temporal.Contracts.Signal.{Signal, is_site_id}

pub record Series : Type 0 where
  pub metric : MetricDefinition
  pub tenant_id : Option String
  pub site_id : String
  pub asset_id : Option String
  pub start : ℕ
  pub «end» : ℕ
  pub granularity : Granularity
  pub generated_at : ℕ
  pub bucket_count : ℕ
  pub missing_bucket_count : ℕ
  pub incomplete_bucket_count : ℕ
  pub maximum_bucket_count : ℕ
  pub signals : List Signal

abbrev pub max_temporal_buckets : ℕ
max_temporal_buckets = 366

abbrev pub max_temporal_history_days : ℕ
max_temporal_history_days = 366

-- `sum(signal.data_quality == "missing" for signal in signals)`
unfoldable pub missing_count : List Signal → ℕ
missing_count = count_if (λ s. is_missing s.data_quality)

-- `sum(not signal.complete for signal in signals)`
unfoldable pub incomplete_count : List Signal → ℕ
incomplete_count = count_if (λ s. not s.complete)

-- The checks that one round of the validator's loop makes.
unfoldable pub check_scope : Series → ℕ → Signal → Result (Unit {0})
check_scope r expected_start s = do
  refuse_if (not (s.metric_key =s= r.metric.metric_key))
      "series contains a signal for another metric"
  refuse_if (not (s.site_id =s= r.site_id) || not (s.tenant_id =o= r.tenant_id))
      "series contains a signal for another authority scope"
  refuse_if (not (s.asset_id =o= r.asset_id)) "series contains a signal for another asset scope"
  refuse_if (not (s.bucket_start == expected_start)) "series buckets must be contiguous and ordered"

-- `for signal in self.signals:`; the result is the final `expected_start`.
unfoldable pub check_signals : Series → ℕ → List Signal → Result ℕ
check_signals r expected_start [] = ok expected_start
check_signals r expected_start (s ∷ ss) = do
  check_scope r expected_start s
  check_signals r s.bucket_end ss

-- The construction `TemporalSignalSeriesResponse(...)`: the fields, then
-- `validate_series_consistency`.
unfoldable pub validate_series : Series → Result (Unit {0})
validate_series r = do
  refuse_if (not (is_site_id r.site_id)) "site_id"
  refuse_if (not (leb 1 r.bucket_count && leb r.bucket_count max_temporal_buckets)) "bucket_count"
  refuse_if (not (leb r.missing_bucket_count max_temporal_buckets)) "missing_bucket_count"
  refuse_if (not (leb r.incomplete_bucket_count max_temporal_buckets)) "incomplete_bucket_count"
  refuse_if (not (r.maximum_bucket_count == max_temporal_buckets)) "maximum_bucket_count"
  refuse_if (not (leb (length r.signals) max_temporal_buckets)) "signals"
  refuse_if (leb r.«end» r.start) "series end must be after start"
  refuse_if (not (length r.signals == r.bucket_count))
      "series bucket_count must match the signal count"
  refuse_if (not (r.missing_bucket_count == missing_count r.signals))
      "series missing bucket count is inconsistent"
  refuse_if (not (r.incomplete_bucket_count == incomplete_count r.signals))
      "series incomplete bucket count is inconsistent"
  final_start ← check_signals r r.start r.signals
  refuse_if (not (final_start == r.«end»)) "series buckets must cover the requested window"
