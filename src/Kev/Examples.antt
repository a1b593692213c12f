-- ===== src/Kev/Examples.antt =====
-- A batch of two matches, and an instance of the theorem about it.
use openassetwatch.Prelude.{◌≤◌, ◌≡◌, refl, none, some, List, [], ◌∷◌, length}
use openassetwatch.Text.{codes, text_eq}
use openassetwatch.Temporal.Result.{ok}
use openassetwatch.Temporal.Expectations.Digest.{text_lt}
use openassetwatch.Versions.Characters.{after}
use openassetwatch.Versions.Range.{MatchStatus, affected, fixed}
use openassetwatch.Kev.{
  KevRecord, KevMatch, KevCorrelation, stripped_right, is_cve, normalize_cve, insert_text,
  aliases_from, exact_cve_aliases, record_of, correlations_from, is_eligible, append_correlations,
  correlate_from, correlate_current_affected_matches,
}
use openassetwatch.Kev.Batch.{all_correlations, correlate_current_affected_matches-all}

abbrev exploited : KevRecord
exploited = record {
  kev_record_id = codes "kev_1";
  cve_id = codes "CVE-2024-12345";
  ransomware_campaign_status = "Known";
}

abbrev kev_match : MatchStatus → KevMatch
kev_match status = record {
  match_status = status;
  match_id = codes "vmt_1";
  advisory_id = codes "adv_1";
  aliases = some (some (codes " cve-2024-12345 ") ∷ none ∷ some (codes "GHSA-1") ∷ []);
}

abbrev kev_matches : List KevMatch
kev_matches = kev_match affected ∷ kev_match fixed ∷ []

abbrev correlated : List KevCorrelation
correlated =
    (record {
      match_id = codes "vmt_1";
      advisory_id = codes "adv_1";
      kev_record_id = codes "kev_1";
      cve_id = codes "CVE-2024-12345";
      priority_status = "known_exploited_ransomware";
    })
    ∷ []

kev_run : correlate_current_affected_matches kev_matches (exploited ∷ []) 10 10 ≡ ok correlated
unfolding codes text_eq text_lt after stripped_right is_cve normalize_cve insert_text aliases_from
    exact_cve_aliases record_of correlations_from is_eligible append_correlations correlate_from
    correlate_current_affected_matches
kev_run = refl

correlate_current_affected_matches-all_example :
    (correlated ≡ all_correlations kev_matches (exploited ∷ []))
    × ((length correlated ≤ 10) × (10 ≤ 200000))
correlate_current_affected_matches-all_example =
    correlate_current_affected_matches-all kev_matches (exploited ∷ []) 10 10 correlated kev_run
