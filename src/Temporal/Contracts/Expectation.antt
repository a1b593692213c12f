-- ===== src/Temporal/Contracts/Expectation.antt =====
-- `TemporalExpectation` of backend/app/temporal_contracts.py. The range is in millionths.
use openassetwatch.Prelude.{
  ℕ, ◌+◌, ◌*◌, Bool, not, ◌&&◌, ◌||◌, String, Option, none, some, leb, ltb, ◌==◌, is_none,
}
use openassetwatch.Text.{Text, codes, is_hex_of_length, is_tagged_digest}
use openassetwatch.Temporal.Result.{Result, ◌>>◌, refuse_if}
use openassetwatch.Temporal.Clock.{day, off_midnight}
use openassetwatch.Temporal.Vocabulary.{
  Granularity, ExpectationMethod, Confidence, ExpectationDataQuality, BlockedReason,
  is_confidence_none, ◌=q=◌,
}
use openassetwatch.Temporal.Contracts.Signal.{is_site_id}

-- "analytical-context-only", the one value of the literal
pub data Authority : Type 0 where
  analytical_context_only : Authority

pub record Expectation : Type 0 where
  pub expectation_id : Text
  pub history_digest : Text
  pub metric_key : String
  pub tenant_id : Option String
  pub site_id : String
  pub asset_id : Option String
  pub target_bucket_start : ℕ
  pub target_bucket_end : ℕ
  pub bucket_granularity : Granularity
  pub knowledge_cutoff : ℕ
  pub generated_at : ℕ
  pub history_start : ℕ
  pub history_end : ℕ
  pub history_bucket_count : ℕ
  pub usable_bucket_count : ℕ
  pub missing_bucket_count : ℕ
  pub incomplete_bucket_count : ℕ
  pub stale_bucket_count : ℕ
  pub late_arriving_bucket_count : ℕ
  pub method : ExpectationMethod
  pub method_sample_count : ℕ
  pub horizon_buckets : ℕ
  pub expected : Option ℕ
  pub lower : Option ℕ
  pub upper : Option ℕ
  pub unit : String
  pub confidence : Confidence
  pub data_quality : ExpectationDataQuality
  pub blocked_reason : Option BlockedReason
  pub projection_version : String
  pub authority : Authority

abbrev pub history_buckets : ℕ
history_buckets = 56

unfoldable pub is_expectation_id : Text → Bool
is_expectation_id = is_tagged_digest (codes "exp_")

-- The bounds on the counts: `le=TEMPORAL_EXPECTATION_HISTORY_BUCKETS`, `Literal[56]`, `Literal[1]`.
unfoldable pub check_count_fields : Expectation → Result (Unit {0})
check_count_fields e = do
  refuse_if (not (e.history_bucket_count == history_buckets)) "history_bucket_count"
  refuse_if (not (leb e.usable_bucket_count history_buckets)) "usable_bucket_count"
  refuse_if (not (leb e.missing_bucket_count history_buckets)) "missing_bucket_count"
  refuse_if (not (leb e.incomplete_bucket_count history_buckets)) "incomplete_bucket_count"
  refuse_if (not (leb e.stale_bucket_count history_buckets)) "stale_bucket_count"
  refuse_if (not (leb e.late_arriving_bucket_count history_buckets)) "late_arriving_bucket_count"
  refuse_if (not (leb e.method_sample_count history_buckets)) "method_sample_count"
  refuse_if (not (e.horizon_buckets == 1)) "horizon_buckets"

-- `b - a == timedelta(days=n)`
abbrev pub spans_days : ℕ → ℕ → ℕ → Bool
spans_days n a b = b == a + n * day

-- The checks on the target, the cutoff and the history window.
unfoldable pub check_window : Expectation → Result (Unit {0})
check_window e = do
  refuse_if (not (spans_days 1 e.target_bucket_start e.target_bucket_end))
      "expectation targets must span exactly one UTC day"
  refuse_if
      (off_midnight e.target_bucket_start
        || off_midnight e.target_bucket_end
        || off_midnight e.knowledge_cutoff
        || off_midnight e.history_start
        || off_midnight e.history_end)
      "expectation boundaries must align to UTC midnight"
  refuse_if (not (e.knowledge_cutoff == e.target_bucket_start))
      "knowledge_cutoff must equal the target bucket start"
  refuse_if (not (e.history_end == e.target_bucket_start))
      "expectation history must end at the target bucket start"
  refuse_if (not (spans_days history_buckets e.history_start e.history_end))
      "expectation history must cover the fixed bounded window"

-- The checks on the quality counts.
unfoldable pub check_counts : Expectation → Result (Unit {0})
check_counts e = do
  refuse_if
      (not (
        e.usable_bucket_count + e.missing_bucket_count + e.incomplete_bucket_count
          + e.stale_bucket_count
        == e.history_bucket_count))
      "expectation history quality counts are inconsistent"
  refuse_if (ltb e.usable_bucket_count e.method_sample_count)
      "expectation method sample cannot exceed usable history"

-- The checks of a range that is present, and those of one that is not.
unfoldable pub check_range_values : Option ℕ → Option ℕ → Option ℕ → Expectation → Result (Unit {0})
check_range_values (some mid) (some low) (some high) e = do
  refuse_if (not (leb low mid && leb mid high))
      "expected range bounds must contain the expected value"
  refuse_if (e.data_quality =q= ExpectationDataQuality.insufficient)
      "a populated expected range cannot be insufficient"
  refuse_if (is_confidence_none e.confidence || not (is_none e.blocked_reason))
      "a populated expected range requires confidence and no block"
check_range_values none none none e = do
  refuse_if (not (e.data_quality =q= ExpectationDataQuality.insufficient))
      "a blocked expected range must report insufficient quality"
  refuse_if (not (is_confidence_none e.confidence) || is_none e.blocked_reason)
      "a blocked expected range requires no confidence and a reason"
check_range_values mid low high e =
    refuse_if Bool.true "expected range values must be all present or all absent"

-- The construction `TemporalExpectation(...)`: the fields, then `validate_expectation_consistency`.
unfoldable pub validate_expectation : Expectation → Result (Unit {0})
validate_expectation e = do
  refuse_if (not (is_expectation_id e.expectation_id)) "expectation_id"
  refuse_if (not (is_hex_of_length 64 e.history_digest)) "history_digest"
  refuse_if (not (is_site_id e.site_id)) "site_id"
  check_count_fields e
  check_window e
  check_counts e
  check_range_values e.expected e.lower e.upper e
