-- ===== src/Vulnerability/Matching.antt =====
-- `match_id_for`, `_constraint_applies`, `_identity_match` and `match_component` of
-- backend/app/vulnerability_matching.py.
pub mod Verdict
pub mod Laws
pub mod Reordered
use openassetwatch.Prelude.{
  ℕ, Bool, true, false, not, ◌&&◌, ◌||◌, Option, none, some, List, [], ◌∷◌, ◌++◌, ltb, ◌=s=◌,
  if◌then◌else◌, take, any, String,
}
use openassetwatch.Text.{Text, codes, text_eq}
use openassetwatch.Temporal.Identity.{Hashing}
use openassetwatch.Versions.Characters.{is_empty}
use openassetwatch.Versions.Compare.{Pep440}
use openassetwatch.Versions.Range.{
  MatchStatus, not_affected, fixed, version_unknown, identity_uncertain, insufficient_evidence,
  advisory_withdrawn,
}
use openassetwatch.Vulnerability.Names.{Naming, normalized_token}
use openassetwatch.Vulnerability.Records.{Component, Affected, VulnerabilityMatch}
use openassetwatch.Vulnerability.Outcomes.{Described, exact_outcomes, range_outcomes, resolve}

unfoldable pub match_id_for : Hashing → Text → Text → Text
match_id_for h component_id advisory_id =
    codes "vmt_" ++ take 32 (h.sha256_hexdigest (component_id ++ 0 ∷ advisory_id))

unfoldable pub constraint_applies : Naming → Option Text → List Text → Bool
unfolding normalized_token
constraint_applies n actual [] = true
constraint_applies n actual (item ∷ items) =
    let value = normalized_token n 80 actual in
    not (is_empty value)
    && any (λ allowed. text_eq value (normalized_token n 80 (some allowed))) (item ∷ items)

pub data IdentityState : Type 0 where
  unmatched precise uncertain : IdentityState

-- State, confidence in hundredths, and the identifier that matched.
abbrev pub Identity : Type 0
Identity = IdentityState × (ℕ × Option Text)

abbrev pub no_identity : Identity
no_identity = (unmatched, (0, none))

-- `f"{kind}:{vendor}/{name}"`
abbrev pub qualified : String → Text → Text → Text
qualified kind vendor name = codes kind ++ codes ":" ++ vendor ++ codes "/" ++ name

-- The branches without two identifiers, by the normalised names and vendors.
unfoldable pub match_names : String → Text → Text → Text → Text → Identity
unfolding text_eq codes
match_names ecosystem component_name affected_name component_vendor affected_vendor =
    if is_empty component_name || not (text_eq component_name affected_name)
    then no_identity
    else if not (is_empty affected_vendor) && not (text_eq component_vendor affected_vendor)
    then no_identity
    else if ecosystem =s= "firmware" && not (is_empty component_vendor)
    then (precise, (92, some (qualified "firmware" component_vendor component_name)))
    else (uncertain, (45, some (qualified ecosystem affected_vendor component_name)))

-- The branch of two identifiers, which are never empty.
abbrev pub match_identifiers : Option Text → Option Text → Identity → Identity
match_identifiers (some component_identifier) (some affected_identifier) by_name =
    if text_eq component_identifier affected_identifier
    then (precise, (100, some component_identifier))
    else no_identity
match_identifiers none affected_identifier by_name = by_name
match_identifiers (some component_identifier) none by_name = by_name

unfoldable pub identity_match : Naming → Component → Affected → Identity
unfolding normalized_token match_names text_eq
identity_match n c a =
    let by_name =
      match_names c.ecosystem (normalized_token n 240 c.normalized_name)
        (normalized_token n 240 a.normalized_name) (normalized_token n 160 c.vendor)
        (normalized_token n 160 a.vendor) in
    if not (c.ecosystem =s= a.ecosystem)
    then no_identity
    else match_identifiers (n.purl_identity c.canonical_identifier)
        (n.purl_identity a.canonical_identifier) by_name

abbrev pub is_uncertain : IdentityState → Bool
is_uncertain unmatched = false
is_uncertain precise = false
is_uncertain uncertain = true

abbrev pub is_authoritative : Component → Bool
is_authoritative c =
    c.source_type =s= "endpoint-collector" || c.source_type =s= "reviewed-connector"

-- `str(freshness or "unknown") in {"stale", "unknown"}`
abbrev pub is_outdated : Option String → Bool
is_outdated none = true
is_outdated (some f) = f =s= "" || f =s= "stale" || f =s= "unknown"

abbrev pub is_imprecise_firmware : Component → Bool
is_imprecise_firmware c =
    c.component_type =s= "firmware"
    && (not (
          c.firmware_evidence_type =s= "direct"
          || c.firmware_evidence_type =s= "vendor-reported"
          || c.firmware_evidence_type =s= "collector-reported")
        || ltb c.confidence 80)

abbrev pub is_withdrawn : Affected → Bool
is_withdrawn a = not a.current || a.withdrawn

-- An empty version is none.
abbrev pub installed_version_of : Option Text → Option Text
installed_version_of none = none
installed_version_of (some []) = none
installed_version_of (some (c ∷ cs)) = some (c ∷ cs)

-- `if test: status = …; reasons.append(…)`, before the branches after it.
abbrev pub unless : Bool → MatchStatus → String → Described → Described
unless test status reason next = if test then (status, (reason, none)) else next

abbrev pub version_verdict : Pep440 → String → Affected → Option Text → Described
version_verdict p ecosystem a none = (version_unknown, ("installed-version-missing", none))
version_verdict p ecosystem a (some installed) = resolve (
    exact_outcomes p ecosystem installed a.exact_versions
    ++ range_outcomes p ecosystem installed a.ranges)

-- The chain of conditions on a candidate whose identity matches in some way.
unfoldable pub match_verdict : Pep440 → Naming → Component → Affected → IdentityState → Described
unfolding constraint_applies resolve
match_verdict p n c a identity =
    unless (is_withdrawn a) advisory_withdrawn "advisory-withdrawn-or-superseded" (
      unless (not c.active) fixed "component-removal-confirmed-by-complete-inventory" (
        unless (not (is_authoritative c)) insufficient_evidence
          "component-source-is-not-authoritative-for-version-matching"
          (unless (is_outdated c.freshness) insufficient_evidence "component-evidence-not-current" (
            unless (is_uncertain identity) identity_uncertain
              "component-identity-lacks-reviewed-canonical-identifier"
              (unless (not (constraint_applies n c.architecture a.architectures)) not_affected
                "architecture-constraint-not-applicable"
                (unless (not (constraint_applies n c.asset_platform a.platforms)) not_affected
                  "platform-constraint-not-applicable"
                  (unless (is_imprecise_firmware c) insufficient_evidence
                    "firmware-evidence-is-not-sufficiently-precise"
                    (version_verdict p c.ecosystem a
                      (installed_version_of c.normalized_version)))))))))

-- `tuple(dict.fromkeys(values))`: each value where it first stands
unfoldable pub unique_by {ℓ} : {A : Type ℓ} → (A → A → Bool) → List A → List A → List A
unique_by same seen [] = []
unique_by same seen (x ∷ xs) =
    let skipped = unique_by same seen xs in
    let kept = unique_by same (x ∷ seen) xs in if any (same x) seen then skipped else x ∷ kept

abbrev pub string_same : String → String → Bool
string_same s t = s =s= t

abbrev pub first_of {ℓ} : {A : Type ℓ} → List A → Option A
first_of [] = none
first_of (x ∷ xs) = some x

abbrev pub reasons_of : String → Option Text → List String
reasons_of reason none = unique_by string_same [] (reason ∷ [])
reasons_of reason (some []) = unique_by string_same [] (reason ∷ [])
reasons_of reason (some (c ∷ cs)) =
    unique_by string_same [] (reason ∷ "reviewed-identity-match" ∷ [])

abbrev pub is_unmatched : IdentityState → Bool
is_unmatched unmatched = true
is_unmatched precise = false
is_unmatched uncertain = false

-- The match of a candidate with its identity and verdict.
abbrev pub match_of : Hashing → Component → Affected → ℕ → Identity → Described → VulnerabilityMatch
match_of h c a now identity verdict = record {
  match_id = match_id_for h c.component_id a.advisory_id;
  site_id = c.site_id;
  asset_id = c.asset_id;
  component_id = c.component_id;
  advisory_id = a.advisory_id;
  affected_id = a.affected_id;
  match_status = verdict.0;
  match_confidence = identity.1.0;
  matched_identifier = identity.1.1;
  installed_version = installed_version_of c.normalized_version;
  affected_range = verdict.1.1;
  fixed_version = first_of a.fixed_versions;
  evaluated_at = now;
  evidence_ids =
      unique_by text_eq [] (take 16 (c.evidence_ids ++ c.component_id ∷ a.advisory_id ∷ []));
  reason_codes = reasons_of verdict.1.0 identity.1.1;
  engine_version = "oaw.vulnerabilities.v1";
}

unfoldable pub match_component :
    Hashing → Pep440 → Naming → Component → Affected → ℕ → Option VulnerabilityMatch
unfolding match_id_for identity_match match_verdict unique_by
match_component h p n c a evaluated_at =
    let identity = identity_match n c a in
    if is_unmatched identity.0
    then none
    else some (match_of h c a evaluated_at identity (match_verdict p n c a identity.0))
