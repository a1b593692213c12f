-- ===== src/Temporal/Deviations/Identity.antt =====
-- The digests and the identity of an assessment, backend/app/temporal_deviations.py.
use openassetwatch.Prelude.{ℕ, ◌≡◌, true, not, String, List, [], ◌∷◌, all}
use openassetwatch.Text.{Text, codes, is_hex_of_length}
use openassetwatch.Temporal.Result.{Result, ok, value_error, ◌>>◌, raise_if}
use openassetwatch.Temporal.Vocabulary.{Confidence, ExpectationDataQuality, PolicyDirection}
use openassetwatch.Temporal.Identity.{
  Hashing, Json, text, integer, array, object, Items, nil, cons, end, field, tagged_digest,
  tagged_digest-is_tagged_digest,
}
use openassetwatch.Temporal.Contracts.Signal.{Signal}
use openassetwatch.Temporal.Contracts.Expectation.{Expectation}
use openassetwatch.Temporal.Contracts.Policy.{Policy}
use openassetwatch.Temporal.Contracts.Assessment.{is_assessment_id}
use openassetwatch.Temporal.Expectations.Digest.{
  signal_json, json_digest, json_digest_form, json_number, method_text,
}

unfoldable pub confidence_text : Confidence → Text
confidence_text Confidence.none = codes "none"
confidence_text Confidence.low = codes "low"
confidence_text Confidence.medium = codes "medium"
confidence_text Confidence.high = codes "high"

unfoldable pub expectation_quality_text : ExpectationDataQuality → Text
expectation_quality_text ExpectationDataQuality.insufficient = codes "insufficient"
expectation_quality_text ExpectationDataQuality.limited = codes "limited"
expectation_quality_text ExpectationDataQuality.sufficient = codes "sufficient"

unfoldable pub direction_items : List PolicyDirection → Items
direction_items [] = nil
direction_items (PolicyDirection.above ∷ ds) = cons (text (codes "above")) (direction_items ds)
direction_items (PolicyDirection.below ∷ ds) = cons (text (codes "below")) (direction_items ds)

unfoldable pub text_items : List Text → Items
text_items [] = nil
text_items (t ∷ ts) = cons (text t) (text_items ts)

unfoldable pub temporal_observation_digest : Hashing → Signal → Text
temporal_observation_digest h s = json_digest h (signal_json h s)

unfoldable pub expectation_json : Expectation → Json
unfolding confidence_text expectation_quality_text
expectation_json e = object (
    field "expectation_id" (text e.expectation_id) (
      field "history_digest" (text e.history_digest) (
        field "expected" (json_number e.expected) (
          field "lower" (json_number e.lower) (
            field "upper" (json_number e.upper) (
              field "method" (text (method_text e.method)) (
                field "method_version" (text (codes "1")) (
                  field "confidence" (text (confidence_text e.confidence)) (
                    field "data_quality" (text (expectation_quality_text e.data_quality))
                      end)))))))))

unfoldable pub policy_json : Policy → Json
unfolding confidence_text expectation_quality_text direction_items
policy_json p = object (
    field "policy_id" (text (codes p.policy_id)) (
      field "policy_version" (text (codes p.policy_version)) (
        field "allowed_directions" (array (direction_items p.allowed_directions)) (
          field "minimum_expectation_confidence"
            (text (confidence_text p.minimum_expectation_confidence))
            (field "required_expectation_data_quality"
              (text (expectation_quality_text p.required_expectation_data_quality))
              (field "required_persistence_buckets" (integer p.required_persistence_buckets) (
                field "maximum_persistence_lookback" (integer p.maximum_persistence_lookback) (
                  field "supported_granularity" (text (codes "daily"))
                    (field "entity_scope" (text (codes "site")) end)))))))))

unfoldable pub assessment_input_json : Text → Expectation → Policy → List Text → Json
unfolding expectation_json policy_json text_items
assessment_input_json observation_digest e p ids = object (
    field "schema_version" (text (codes "oaw.temporal-deviation-assessment.v1")) (
      field "observation_digest" (text observation_digest) (
        field "expectation" (expectation_json e) (
          field "policy" (policy_json p)
            (field "supporting_assessment_ids" (array (text_items ids)) end)))))

unfoldable pub temporal_assessment_input_digest :
    Hashing → Text → Expectation → Policy → List Text → Result Text
temporal_assessment_input_digest h observation_digest e p ids = do
  raise_if (not (is_hex_of_length 64 observation_digest))
      (value_error "observation_digest must be a lowercase SHA-256 digest")
  raise_if (not (all is_assessment_id ids))
      (value_error "supporting assessment identifier is invalid")
  ok (json_digest h (assessment_input_json observation_digest e p ids))

unfoldable pub assessment_identity : Hashing → Text → String → String → ℕ → ℕ → String → List Text
assessment_identity h input_digest metric_key site_id target_start target_end policy_version =
    codes "oaw.temporal-deviation-assessment.v1"
    ∷ input_digest
    ∷ codes metric_key
    ∷ codes site_id
    ∷ h.isoformat target_start
    ∷ h.isoformat target_end
    ∷ codes policy_version
    ∷ []

unfoldable pub temporal_deviation_assessment_id :
    Hashing → Text → String → String → ℕ → ℕ → String → Result Text
temporal_deviation_assessment_id h input_digest metric_key site_id target_start target_end
      policy_version =
    do
      raise_if (not (is_hex_of_length 64 input_digest))
          (value_error "input_digest must be a lowercase SHA-256 digest")
      ok (
          tagged_digest h (codes "tda_") (
            assessment_identity h input_digest metric_key site_id target_start target_end
              policy_version))

pub temporal_observation_digest_form :
    (h : Hashing) (s : Signal) → is_hex_of_length 64 (temporal_observation_digest h s) ≡ true
unfolding temporal_observation_digest
temporal_observation_digest_form h s = json_digest_form h (signal_json h s)

-- Over identifiers of the right form the digest is defined, and has the digests' form.
pub temporal_assessment_input_digest-some :
    (h : Hashing) (d : Text) (e : Expectation) (p : Policy) (ids : List Text)
    → is_hex_of_length 64 d ≡ true
    → all is_assessment_id ids ≡ true
    → (g : Text) × (temporal_assessment_input_digest h d e p ids ≡ ok g)
      × (is_hex_of_length 64 g ≡ true)
unfolding temporal_assessment_input_digest
temporal_assessment_input_digest-some h d e p ids form valid =
    (json_digest h (assessment_input_json d e p ids), rw (form, valid), json_digest_form h _)

pub temporal_deviation_assessment_id-some :
    (h : Hashing) (g : Text) (k s : String) (a b : ℕ) (v : String)
    → is_hex_of_length 64 g ≡ true
    → (i : Text) × (temporal_deviation_assessment_id h g k s a b v ≡ ok i)
      × (is_assessment_id i ≡ true)
unfolding temporal_deviation_assessment_id is_assessment_id
temporal_deviation_assessment_id-some h g k s a b v form = (
  tagged_digest h (codes "tda_") (assessment_identity h g k s a b v),
  rw form,
  tagged_digest-is_tagged_digest h _ _,
)
