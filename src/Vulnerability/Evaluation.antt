-- ===== src/Vulnerability/Evaluation.antt =====
-- `_candidate_index`, `_aggregate_advisory_matches` and the loops of `evaluate_vulnerabilities` of
-- backend/app/vulnerability_service.py.
pub mod Selection
use openassetwatch.Prelude.{
  ℕ, zero, suc, ◌+◌, Bool, true, false, not, ◌&&◌, ◌||◌, Option, none, some, List, [], ◌∷◌, ◌++◌,
  map, ltb, ◌==◌, ◌=s=◌, if◌then◌else◌, take, any, length, count_if, String,
}
use openassetwatch.Text.{Text, text_eq}
use openassetwatch.Temporal.Identity.{Hashing}
use openassetwatch.Temporal.Expectations.Digest.{text_lt}
use openassetwatch.Temporal.Result.{Result, ok, err, value_error, ◌>>=◌, ◌>>◌, raise_if}
use openassetwatch.Versions.Characters.{is_empty}
use openassetwatch.Versions.Compare.{Pep440}
use openassetwatch.Versions.Range.{
  MatchStatus, affected, not_affected, fixed, version_unknown, identity_uncertain,
  unsupported_comparison, insufficient_evidence, advisory_withdrawn,
}
use openassetwatch.Vulnerability.Names.{Naming}
use openassetwatch.Vulnerability.Records.{Component, Affected, VulnerabilityMatch}
use openassetwatch.Vulnerability.Outcomes.{◌=m=◌, status_code}
use openassetwatch.Vulnerability.Matching.{unique_by, string_same, match_component}

-- `_MATCH_PRECEDENCE`
abbrev pub precedence : MatchStatus → ℕ
precedence affected = 80
precedence version_unknown = 70
precedence identity_uncertain = 60
precedence unsupported_comparison = 50
precedence insufficient_evidence = 40
precedence fixed = 30
precedence not_affected = 20
precedence advisory_withdrawn = 10

-- `<` on the keys `(precedence, match_confidence, affected_id)`
abbrev pub key_less : VulnerabilityMatch → VulnerabilityMatch → Bool
key_less a b =
    ltb (precedence a.match_status) (precedence b.match_status)
    || (precedence a.match_status == precedence b.match_status
        && (ltb a.match_confidence b.match_confidence
            || (a.match_confidence == b.match_confidence && text_lt a.affected_id b.affected_id)))

-- `max(matches, key=…)`: the first of the greatest, after the best so far
unfoldable pub greatest_from : VulnerabilityMatch → List VulnerabilityMatch → VulnerabilityMatch
unfolding text_lt
greatest_from best [] = best
greatest_from best (m ∷ ms) = greatest_from (if key_less best m then m else best) ms

unfoldable pub all_evidence : List VulnerabilityMatch → List Text
all_evidence [] = []
all_evidence (m ∷ ms) = m.evidence_ids ++ all_evidence ms

unfoldable pub all_reasons : List VulnerabilityMatch → List String
all_reasons [] = []
all_reasons (m ∷ ms) = m.reason_codes ++ all_reasons ms

-- The matches of one component and advisory, of which there is at least one.
unfoldable pub aggregate_advisory_matches :
    VulnerabilityMatch → List VulnerabilityMatch → VulnerabilityMatch
unfolding greatest_from all_evidence all_reasons unique_by text_eq
aggregate_advisory_matches m ms = record (greatest_from m ms) {
  evidence_ids = take 16 (unique_by text_eq [] (all_evidence (m ∷ ms)));
  reason_codes = unique_by string_same [] (
      all_reasons (m ∷ ms)
      ++ (if ltb 1 (length (m ∷ ms)) then "multiple-affected-records-evaluated" ∷ [] else []));
}
