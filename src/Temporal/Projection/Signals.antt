-- ===== src/Temporal/Projection/Signals.antt =====
-- `_signal` of backend/app/temporal_projection.py with its helpers: what one bucket's source
-- aggregate becomes.
pub mod Validity
use openassetwatch.Prelude.{
  ℕ, ◌+◌, ◌*◌, Bool, true, false, not, ◌&&◌, String, Option, none, some, List, [], ◌∷◌, leb, ltb,
  ◌==◌, if◌then◌else◌, is_none,
}
use openassetwatch.Text.{Text, codes}
use openassetwatch.Temporal.Clock.{day, second, floor_day}
use openassetwatch.Temporal.Vocabulary.{
  Granularity, SignalFreshness, SignalDataQuality, BackfillState, is_freshness_stale,
}
use openassetwatch.Temporal.Identity.{Hashing, tagged_digest}
use openassetwatch.Temporal.Registry.{MetricDefinition}
use openassetwatch.Temporal.Contracts.Signal.{Signal, is_after}

-- `ProjectionAggregate`. Its `__post_init__` has refused negative values and naive timestamps, so the
-- value is a natural number of millionths and the timestamps are normalised.
pub record Aggregate : Type 0 where
  pub value : ℕ
  pub evidence_count : ℕ
  pub source_observed_at : Option ℕ
  pub source_received_at : Option ℕ
  pub complete : Bool
  pub coverage_observed : Bool

unfoldable pub temporal_signal_id :
    Hashing → String → String → Option String → ℕ → ℕ → String → Text
temporal_signal_id h metric_key site_id asset_id bucket_start bucket_end projection_version =
    tagged_digest h (codes "sig_") (
      codes "oaw.temporal-signal.v1"
      ∷ codes metric_key
      ∷ codes site_id
      ∷ elim asset_id [ none ↦ [] | some a ↦ codes a ]
      ∷ h.isoformat bucket_start
      ∷ h.isoformat bucket_end
      ∷ codes projection_version
      ∷ [])

-- `_freshness`; the subtraction of the expected delay is written on the other side.
unfoldable pub freshness_of : MetricDefinition → ℕ → Option ℕ → SignalFreshness
freshness_of metric bucket_end none = SignalFreshness.unknown
freshness_of metric bucket_end (some observed) =
    if ltb (observed + metric.freshness_expectation_seconds * second) bucket_end
    then SignalFreshness.stale
    else SignalFreshness.current

unfoldable pub backfill_state_of : ℕ → ℕ → Option ℕ → BackfillState
backfill_state_of bucket_end generated_at received =
    if is_after received bucket_end
    then BackfillState.late_arriving
    else if leb bucket_end (floor_day generated_at)
    then BackfillState.backfilled
    else BackfillState.live

-- The value that is published: an uncovered zero is no value.
unfoldable pub published_value : MetricDefinition → Aggregate → Option ℕ
published_value metric a =
    if a.value == 0
      && not a.complete
      && metric.missing_bucket_differs_from_zero
      && a.evidence_count == 0
    then none
    else some a.value

unfoldable pub data_quality_of : Option ℕ → Bool → Bool → SignalFreshness → SignalDataQuality
data_quality_of none coverage complete freshness =
    if coverage then SignalDataQuality.incomplete else SignalDataQuality.missing
data_quality_of (some v) coverage complete freshness =
    if not complete
    then SignalDataQuality.incomplete
    else if is_freshness_stale freshness
    then SignalDataQuality.stale
    else SignalDataQuality.observed

-- The fields that a bucket's signal takes from its aggregate, if it has one.
pub record Projected : Type 0 where
  pub value : Option ℕ
  pub evidence_count : ℕ
  pub observed_at : Option ℕ
  pub received_at : Option ℕ
  pub freshness : SignalFreshness
  pub complete : Bool
  pub data_quality : SignalDataQuality
  pub backfill_state : BackfillState

unfoldable pub projected : MetricDefinition → ℕ → ℕ → Option Aggregate → Projected
unfolding freshness_of backfill_state_of published_value data_quality_of
projected metric bucket_end generated_at none = record {
  value = none;
  evidence_count = 0;
  observed_at = none;
  received_at = none;
  freshness = SignalFreshness.unknown;
  complete = false;
  data_quality = SignalDataQuality.missing;
  backfill_state = backfill_state_of bucket_end generated_at none;
}
projected metric bucket_end generated_at (some a) =
    let value : Option ℕ = published_value metric a in
    let freshness : SignalFreshness = freshness_of metric bucket_end a.source_observed_at in
    let complete : Bool = a.complete && not (is_none value) in
    record {
      value = value;
      evidence_count = a.evidence_count;
      observed_at = a.source_observed_at;
      received_at = a.source_received_at;
      freshness = freshness;
      complete = complete;
      data_quality = data_quality_of value a.coverage_observed complete freshness;
      backfill_state = backfill_state_of bucket_end generated_at a.source_received_at;
    }

-- `_signal`, before its construction is validated
unfoldable pub signal_of : Hashing → MetricDefinition → String → ℕ → ℕ → Option Aggregate → Signal
unfolding projected temporal_signal_id
signal_of h metric site_id bucket_start generated_at aggregate =
    let bucket_end : ℕ = bucket_start + day in
    let p : Projected = projected metric bucket_end generated_at aggregate in
    record {
      signal_id =
          temporal_signal_id h metric.metric_key site_id none bucket_start bucket_end
            metric.projection_version;
      metric_key = metric.metric_key;
      tenant_id = none;
      site_id = site_id;
      asset_id = none;
      bucket_start = bucket_start;
      bucket_end = bucket_end;
      bucket_granularity = Granularity.daily;
      value = p.value;
      unit = metric.unit;
      evidence_count = p.evidence_count;
      source = metric.source_authority;
      source_observed_at = p.observed_at;
      source_received_at = p.received_at;
      freshness = p.freshness;
      complete = p.complete;
      data_quality = p.data_quality;
      backfill_state = p.backfill_state;
      projection_version = metric.projection_version;
      generated_at = generated_at;
    }
