-- ===== src/Vulnerability/Records.antt =====
-- The mappings that matching reads and the match that it returns:
-- backend/app/vulnerability_matching.py.
use openassetwatch.Prelude.{ℕ, Bool, Option, List, String}
use openassetwatch.Text.{Text}
use openassetwatch.Versions.Range.{MatchStatus, VersionRange}

-- The fields of a component that are read. Confidence is in hundredths.
pub record Component : Type 0 where
  pub component_id : Text
  pub site_id : Text
  pub asset_id : Text
  pub ecosystem : String
  pub canonical_identifier : Option Text
  pub normalized_name : Option Text
  pub vendor : Option Text
  pub normalized_version : Option Text
  pub architecture : Option Text
  pub asset_platform : Option Text
  pub component_type : String
  pub firmware_evidence_type : String
  pub source_type : String
  pub freshness : Option String
  pub confidence : ℕ
  pub active : Bool
  pub evidence_ids : List Text

-- The fields of an affected record of an advisory.
pub record Affected : Type 0 where
  pub affected_id : Text
  pub advisory_id : Text
  pub ecosystem : String
  pub canonical_identifier : Option Text
  pub normalized_name : Option Text
  pub vendor : Option Text
  pub current : Bool
  pub withdrawn : Bool
  pub architectures : List Text
  pub platforms : List Text
  pub exact_versions : List Text
  pub ranges : List VersionRange
  pub fixed_versions : List Text

pub record VulnerabilityMatch : Type 0 where
  pub match_id : Text
  pub site_id : Text
  pub asset_id : Text
  pub component_id : Text
  pub advisory_id : Text
  pub affected_id : Text
  pub match_status : MatchStatus
  pub match_confidence : ℕ
  pub matched_identifier : Option Text
  pub installed_version : Option Text
  pub affected_range : Option Text
  pub fixed_version : Option Text
  pub evaluated_at : ℕ
  pub evidence_ids : List Text
  pub reason_codes : List String
  pub engine_version : String
