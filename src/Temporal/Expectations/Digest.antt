-- ===== src/Temporal/Expectations/Digest.antt =====
-- `temporal_history_digest` and `temporal_expectation_id` of backend/app/temporal_expectations.py.
use openassetwatch.Prelude.{
  ℕ, Bool, true, false, not, ◌&&◌, ◌||◌, ◌≡◌, String, Option, none, some, List, [], ◌∷◌, ltb, ◌==◌,
  if◌then◌else◌, length,
}
use openassetwatch.Text.{Text, codes, is_hex_of_length}
use openassetwatch.Temporal.Result.{Result, ok, value_error, ◌>>◌, raise_if}
use openassetwatch.Temporal.Vocabulary.{
  SignalFreshness, SignalDataQuality, BackfillState, ExpectationMethod,
}
use openassetwatch.Temporal.Identity.{
  Hashing, Json, null, text, number, integer, boolean, array, object, Items, nil, cons, end, field,
  tagged_digest, tagged_digest-is_tagged_digest,
}
use openassetwatch.Temporal.Contracts.Signal.{Signal}
use openassetwatch.Temporal.Contracts.Expectation.{history_buckets, is_expectation_id}

-- The literals as the strings that are hashed.
unfoldable pub freshness_text : SignalFreshness → Text
freshness_text SignalFreshness.current = codes "current"
freshness_text SignalFreshness.stale = codes "stale"
freshness_text SignalFreshness.unknown = codes "unknown"

unfoldable pub quality_text : SignalDataQuality → Text
quality_text SignalDataQuality.observed = codes "observed"
quality_text SignalDataQuality.missing = codes "missing"
quality_text SignalDataQuality.incomplete = codes "incomplete"
quality_text SignalDataQuality.stale = codes "stale"

unfoldable pub backfill_text : BackfillState → Text
backfill_text BackfillState.live = codes "live"
backfill_text BackfillState.backfilled = codes "backfilled"
backfill_text BackfillState.late_arriving = codes "late-arriving"

unfoldable pub method_text : ExpectationMethod → Text
method_text ExpectationMethod.rolling_robust_baseline = codes "rolling_robust_baseline"
method_text ExpectationMethod.seasonal_robust_baseline = codes "seasonal_robust_baseline"

abbrev pub json_string : Option String → Json
json_string none = null
json_string (some s) = text (codes s)

abbrev pub json_number : Option ℕ → Json
json_number none = null
json_number (some v) = number v

-- `_canonical_timestamp`
unfoldable pub canonical_timestamp : Hashing → Option ℕ → Json
canonical_timestamp h none = null
canonical_timestamp h (some t) = text (h.isoformat t)

-- The governed fields of a signal, as both digests hash them.
unfoldable pub signal_json : Hashing → Signal → Json
unfolding canonical_timestamp freshness_text quality_text backfill_text
signal_json h s = object (
    field "schema_version" (text (codes "oaw.temporal-signal.v1")) (
      field "signal_id" (text s.signal_id) (
        field "metric_key" (text (codes s.metric_key)) (
          field "tenant_id" (json_string s.tenant_id) (
            field "site_id" (text (codes s.site_id)) (
              field "asset_id" (json_string s.asset_id) (
                field "bucket_start" (canonical_timestamp h (some s.bucket_start)) (
                  field "bucket_end" (canonical_timestamp h (some s.bucket_end)) (
                    field "bucket_granularity" (text (codes "daily")) (
                      field "value" (json_number s.value) (
                        field "unit" (text (codes s.unit)) (
                          field "evidence_count" (integer s.evidence_count) (
                            field "source" (text (codes s.source)) (
                              field "source_observed_at"
                                (canonical_timestamp h s.source_observed_at)
                                (field "source_received_at"
                                  (canonical_timestamp h s.source_received_at)
                                  (field "freshness" (text (freshness_text s.freshness)) (
                                    field "complete" (boolean s.complete) (
                                      field "data_quality" (text (quality_text s.data_quality)) (
                                        field "backfill_state"
                                          (text (backfill_text s.backfill_state))
                                          (field "projection_version"
                                            (text (codes s.projection_version))
                                            end))))))))))))))))))))

-- `<` on strings
unfoldable pub text_lt : Text → Text → Bool
text_lt s [] = false
text_lt [] (y ∷ ys) = true
text_lt (x ∷ xs) (y ∷ ys) = ltb x y || (x == y && text_lt xs ys)

-- The order of the key `(bucket_start, bucket_end, signal_id)`.
unfoldable pub signal_lt : Signal → Signal → Bool
unfolding text_lt
signal_lt s t =
    ltb s.bucket_start t.bucket_start
    || (s.bucket_start == t.bucket_start
        && (ltb s.bucket_end t.bucket_end
            || (s.bucket_end == t.bucket_end && text_lt s.signal_id t.signal_id)))

unfoldable pub insert_signal : Signal → List Signal → List Signal
insert_signal s [] = s ∷ []
insert_signal s (t ∷ ts) = if signal_lt t s then t ∷ insert_signal s ts else s ∷ t ∷ ts

-- `sorted(signals, key=...)`
unfoldable pub sorted_signals : List Signal → List Signal
unfolding insert_signal signal_lt
sorted_signals [] = []
sorted_signals (s ∷ ss) = insert_signal s (sorted_signals ss)

unfoldable pub signal_items : Hashing → List Signal → Items
unfolding signal_json
signal_items h [] = nil
signal_items h (s ∷ ss) = cons (signal_json h s) (signal_items h ss)

-- `hashlib.sha256(json.dumps(...).encode("utf-8")).hexdigest()`
unfoldable pub json_digest : Hashing → Json → Text
json_digest h j = h.sha256_hexdigest (h.dumps j)

unfoldable pub temporal_history_digest : Hashing → List Signal → Result Text
temporal_history_digest h signals = do
  raise_if (not (length signals == history_buckets))
      (value_error "temporal history digest requires exactly 56 signals")
  ok (json_digest h (array (signal_items h (sorted_signals signals))))

-- The parts of an expectation's identity.
unfoldable pub expectation_identity :
    Hashing → String → String → ℕ → ℕ → ℕ → ℕ → ExpectationMethod → String → Text → List Text
unfolding method_text
expectation_identity h metric_key site_id target_start target_end history_start history_end method
      projection_version history_digest =
    codes "oaw.temporal-expectation.v1"
    ∷ codes metric_key
    ∷ codes site_id
    ∷ h.isoformat target_start
    ∷ h.isoformat target_end
    ∷ h.isoformat history_start
    ∷ h.isoformat history_end
    ∷ method_text method
    ∷ codes "1"
    ∷ codes projection_version
    ∷ history_digest
    ∷ []

unfoldable pub temporal_expectation_id :
    Hashing → String → String → ℕ → ℕ → ℕ → ℕ → ExpectationMethod → String → Text → Result Text
temporal_expectation_id h metric_key site_id target_start target_end history_start history_end
      method projection_version history_digest =
    do
      raise_if (not (is_hex_of_length 64 history_digest))
          (value_error "history_digest must be a lowercase SHA-256 digest")
      ok (
          tagged_digest h (codes "exp_") (
            expectation_identity h metric_key site_id target_start target_end history_start
              history_end method projection_version history_digest))

pub json_digest_form : (h : Hashing) (j : Json) → is_hex_of_length 64 (json_digest h j) ≡ true
unfolding json_digest
json_digest_form h j = h.hexdigest_form (h.dumps j)

-- A history of 56 signals has a digest, of the digests' form.
pub temporal_history_digest-some :
    (h : Hashing) (signals : List Signal)
    → length signals ≡ history_buckets
    → (d : Text) × (temporal_history_digest h signals ≡ ok d) × (is_hex_of_length 64 d ≡ true)
unfolding temporal_history_digest
temporal_history_digest-some h signals n =
    (json_digest h (array (signal_items h (sorted_signals signals))), rw n, json_digest_form h _)

-- Over a digest of that form the identity is defined, and matches the identifiers' pattern.
pub temporal_expectation_id-some :
    (h : Hashing) (k s : String) (a b c d : ℕ) (m : ExpectationMethod) (v : String) (g : Text)
    → is_hex_of_length 64 g ≡ true
    → (i : Text) × (temporal_expectation_id h k s a b c d m v g ≡ ok i)
      × (is_expectation_id i ≡ true)
unfolding temporal_expectation_id is_expectation_id
temporal_expectation_id-some h k s a b c d m v g form = (
  tagged_digest h (codes "exp_") (expectation_identity h k s a b c d m v g),
  rw form,
  tagged_digest-is_tagged_digest h _ _,
)
