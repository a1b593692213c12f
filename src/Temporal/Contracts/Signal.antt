-- ===== src/Temporal/Contracts/Signal.antt =====
-- `TemporalSignal` of backend/app/temporal_contracts.py. A value is a number of millionths.
use openassetwatch.Prelude.{
  ◌≡◌, List, [], ◌∷◌, ℕ, ◌-◌, Bool, false, not, ◌&&◌, ◌||◌, String, Option, none, some, leb, ltb,
  ◌==◌, is_none, length, all,
}
use openassetwatch.Text.{Text, codes, is_site_char, is_tagged_digest}
use openassetwatch.Temporal.Result.{Result, ok, ◌>>◌, refuse_if}
use openassetwatch.Temporal.Clock.{day, off_midnight}
use openassetwatch.Temporal.Vocabulary.{
  Granularity, SignalFreshness, SignalDataQuality, BackfillState, is_freshness_current,
  is_freshness_stale, is_freshness_unknown, is_observed, is_missing, is_incomplete, is_stale,
  is_late_arriving,
}

pub record Signal : Type 0 where
  pub signal_id : Text
  pub metric_key : String
  pub tenant_id : Option String
  pub site_id : String
  pub asset_id : Option String
  pub bucket_start : ℕ
  pub bucket_end : ℕ
  pub bucket_granularity : Granularity
  pub value : Option ℕ
  pub unit : String
  pub evidence_count : ℕ
  pub source : String
  pub source_observed_at : Option ℕ
  pub source_received_at : Option ℕ
  pub freshness : SignalFreshness
  pub complete : Bool
  pub data_quality : SignalDataQuality
  pub backfill_state : BackfillState
  pub projection_version : String
  pub generated_at : ℕ

-- `re.fullmatch(r"^[A-Za-z0-9._-]+$", site_id)`
unfoldable pub matches_site_pattern : String → Bool
matches_site_pattern s = leb 1 (length (codes s)) && all is_site_char (codes s)

-- `Field(..., min_length=1, max_length=128, pattern=SITE_ID_PATTERN)`
unfoldable pub is_site_id : String → Bool
unfolding matches_site_pattern
is_site_id s = matches_site_pattern s && leb (length (codes s)) 128

-- `Field(..., pattern=SIGNAL_ID_PATTERN)`
unfoldable pub is_signal_id : Text → Bool
is_signal_id = is_tagged_digest (codes "sig_")

-- `value is not None and value > bound`
abbrev pub is_after : Option ℕ → ℕ → Bool
is_after none bound = false
is_after (some t) bound = ltb bound t

-- The checks on the bucket's bounds.
unfoldable pub check_bucket : Signal → Result (Unit {0})
check_bucket s = do
  refuse_if (leb s.bucket_end s.bucket_start) "bucket_end must be after bucket_start"
  refuse_if (not (s.bucket_end - s.bucket_start == day))
      "daily buckets must span exactly one UTC day"
  refuse_if (off_midnight s.bucket_start || off_midnight s.bucket_end)
      "daily bucket boundaries must be UTC midnight"

-- The checks on a missing value and on each quality.
unfoldable pub check_quality : Signal → Result (Unit {0})
check_quality s = do
  refuse_if (is_none s.value && s.complete) "a missing value cannot be complete"
  refuse_if (is_none s.value && not (is_missing s.data_quality || is_incomplete s.data_quality))
      "a missing value must report missing or incomplete quality"
  refuse_if
      (is_observed s.data_quality
        && (not s.complete || is_none s.value || not (is_freshness_current s.freshness)))
      "observed quality requires a complete current value"
  refuse_if
      (is_missing s.data_quality
        && (s.complete
            || not (is_none s.value)
            || not (s.evidence_count == 0)
            || not (is_freshness_unknown s.freshness)))
      "missing quality requires an uncovered null value"
  refuse_if (is_incomplete s.data_quality && s.complete)
      "incomplete signals cannot claim complete coverage"
  refuse_if
      (is_stale s.data_quality
        && (not s.complete || is_none s.value || not (is_freshness_stale s.freshness)))
      "stale quality requires a complete stale value"
  refuse_if (s.complete && is_freshness_stale s.freshness && not (is_stale s.data_quality))
      "complete stale signals must report stale quality"

-- The checks on the source's watermarks.
unfoldable pub check_watermarks : Signal → Result (Unit {0})
check_watermarks s = do
  refuse_if (s.complete && is_none s.source_observed_at)
      "complete signals require a source observation watermark"
  refuse_if (is_late_arriving s.backfill_state && not (is_after s.source_received_at s.bucket_end))
      "late-arriving signals require evidence received after bucket end"
  refuse_if (is_after s.source_received_at s.bucket_end && not (is_late_arriving s.backfill_state))
      "evidence received after bucket end must be late-arriving"

-- The construction `TemporalSignal(...)`: the fields, then `validate_bucket_and_quality`.
unfoldable pub validate_signal : Signal → Result (Unit {0})
validate_signal s = do
  refuse_if (not (is_signal_id s.signal_id)) "signal_id"
  refuse_if (not (is_site_id s.site_id)) "site_id"
  check_bucket s
  check_quality s
  check_watermarks s

-- The contract accepts every signal.
abbrev pub AllValid : List Signal → Type 0
AllValid [] = Unit
AllValid (s ∷ ss) = (validate_signal s ≡ ok tt) × AllValid ss
