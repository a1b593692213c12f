-- ===== src/Kev.antt =====
-- Correlation of affected matches with known exploited vulnerabilities:
-- backend/app/kev_correlation.py, with `normalize_cve` of backend/app/kev_catalog.py.
pub mod Batch
mod Examples
use openassetwatch.Prelude.{
  ℕ, zero, suc, Bool, true, false, not, ◌&&◌, ◌||◌, Option, none, some, List, [], ◌∷◌, ◌++◌, map,
  leb, ltb, ◌==◌, ◌=s=◌, is_none, if◌then◌else◌, length, take, drop, filter, any, all, ◌-◌, String,
}
use openassetwatch.Text.{Text, codes, text_eq}
use openassetwatch.Temporal.Result.{Result, ok, err, value_error, ◌>>=◌, ◌>>◌, raise_if}
use openassetwatch.Temporal.Expectations.Digest.{text_lt}
use openassetwatch.Versions.Characters.{is_space, is_digit, is_empty, after}
use openassetwatch.Versions.Range.{MatchStatus, affected}
use openassetwatch.Vulnerability.Outcomes.{◌=m=◌, status_code}

-- `text.rstrip()`
unfoldable pub stripped_right : Text → Text
stripped_right [] = []
stripped_right (c ∷ cs) = keep c (stripped_right cs)
  where
    keep : ℕ → Text → Text
    keep c [] = if is_space c then [] else c ∷ []
    keep c (d ∷ ds) = c ∷ d ∷ ds

-- `str.upper` on the letters that an identifier may hold; no other character becomes one of them.
abbrev pub upper : ℕ → ℕ
upper c = if leb b'a' c && leb c b'z' then c - 32 else c

-- `CVE-[0-9]{4}-[0-9]{4,19}`
unfoldable pub is_cve : Text → Bool
unfolding text_eq codes
is_cve t =
    let year = take 4 (drop 4 t) in
    let number = drop 9 t in
    text_eq (take 4 t) (codes "CVE-")
    && (length year == 4)
    && all is_digit year
    && text_eq (take 1 (drop 8 t)) (b'-' ∷ [])
    && leb 4 (length number)
    && leb (length number) 19
    && all is_digit number

-- The identifier, or none for a `ValueError`.
unfoldable pub normalize_cve : Text → Option Text
unfolding stripped_right after is_cve
normalize_cve value =
    let normalized = map upper (stripped_right (after is_space value)) in
    if is_cve normalized then some normalized else none

-- A sorted sequence without repetitions, for a set that is sorted in the end.
unfoldable pub insert_text : Text → List Text → List Text
unfolding text_eq text_lt
insert_text t [] = t ∷ []
insert_text t (u ∷ us) =
    let later = insert_text t us in
    if text_eq t u then u ∷ us else if text_lt t u then t ∷ u ∷ us else u ∷ later

abbrev pub insert_if : Option Text → List Text → List Text
insert_if none ts = ts
insert_if (some t) ts = insert_text t ts

abbrev pub normalized_value : Option Text → Option Text
normalized_value none = none
normalized_value (some value) = normalize_cve value

-- The set of the identifiers among values that may be no text.
unfoldable pub aliases_from : List (Option Text) → List Text
unfolding normalize_cve insert_text
aliases_from [] = []
aliases_from (value ∷ values) = insert_if (normalized_value value) (aliases_from values)

unfoldable pub exact_cve_aliases : List (Option Text) → List Text
unfolding aliases_from
exact_cve_aliases values = aliases_from (take 128 values)

-- The fields that correlation reads.
pub record KevRecord : Type 0 where
  pub kev_record_id : Text
  pub cve_id : Text
  pub ransomware_campaign_status : String

pub record KevMatch : Type 0 where
  pub match_status : MatchStatus
  pub match_id : Text
  pub advisory_id : Text
  pub aliases : Option (List (Option Text))

pub record KevCorrelation : Type 0 where
  pub match_id : Text
  pub advisory_id : Text
  pub kev_record_id : Text
  pub cve_id : Text
  pub priority_status : String

-- `{record.cve_id: record for record in records}.get(cve)`: the last record of a CVE
unfoldable pub record_of : Text → List KevRecord → Option KevRecord
unfolding text_eq
record_of cve [] = none
record_of cve (r ∷ rs) = or_this (record_of cve rs)
  where
    or_this : Option KevRecord → Option KevRecord
    or_this none = if text_eq r.cve_id cve then some r else none
    or_this (some later) = some later

abbrev pub correlation_of : KevMatch → Text → KevRecord → KevCorrelation
correlation_of m cve r = record {
  match_id = m.match_id;
  advisory_id = m.advisory_id;
  kev_record_id = r.kev_record_id;
  cve_id = cve;
  priority_status =
      if r.ransomware_campaign_status =s= "Known"
      then "known_exploited_ransomware"
      else "known_exploited";
}

-- The loop over the CVEs that have a record.
unfoldable pub correlations_from : KevMatch → List KevRecord → List Text → List KevCorrelation
unfolding record_of
correlations_from m records [] = []
correlations_from m records (cve ∷ cves) =
    let later = correlations_from m records cves in
    elim (record_of cve records) [ none ↦ later | some r ↦ correlation_of m cve r ∷ later ]

-- `match_status == "affected"` with identifiers and a list of aliases
unfoldable pub is_eligible : KevMatch → Bool
is_eligible m =
    m.match_status =m= affected
    && not (is_empty m.match_id)
    && not (is_empty m.advisory_id)
    && not (is_none m.aliases)

abbrev pub aliases_of : KevMatch → List (Option Text)
aliases_of m = elim m.aliases [ none ↦ [] | some values ↦ values ]

abbrev pub eligible_correlations : KevMatch → List KevRecord → List KevCorrelation
eligible_correlations m records = correlations_from m records (exact_cve_aliases (aliases_of m))

unfoldable pub correlate_current_affected_match : KevMatch → List KevRecord → List KevCorrelation
unfolding is_eligible correlations_from exact_cve_aliases
correlate_current_affected_match m records =
    if is_eligible m then eligible_correlations m records else []

-- The inner loop of the batch: each correlation is appended and the output measured.
unfoldable pub append_correlations :
    ℕ → List KevCorrelation → List KevCorrelation → Result (List KevCorrelation)
append_correlations maximum output [] = ok output
append_correlations maximum output (x ∷ xs) = do
  raise_if (ltb maximum (length (output ++ x ∷ [])))
      (value_error "KEV correlation batch exceeds the reviewed limit")
  append_correlations maximum (output ++ x ∷ []) xs

-- The loop over the matches, with the identifiers seen and the output so far.
unfoldable pub correlate_from :
    ℕ
    → List KevRecord
    → List Text
    → List KevCorrelation
    → List KevMatch
    → Result (List KevCorrelation)
unfolding is_eligible correlations_from exact_cve_aliases append_correlations text_eq
correlate_from maximum records seen output [] = ok output
correlate_from maximum records seen output (m ∷ ms) =
    let skipped = correlate_from maximum records seen output ms in
    if is_eligible m
    then (do
      raise_if (any (text_eq m.match_id) seen)
          (value_error "KEV match batch contains a duplicate logical match")
      output ← append_correlations maximum output (eligible_correlations m records)
      correlate_from maximum records (m.match_id ∷ seen) output ms)
    else skipped

abbrev pub max_batch_matches : ℕ
max_batch_matches = 200000

abbrev pub max_batch_correlations : ℕ
max_batch_correlations = 200000

-- `not 1 <= value <= limit`
abbrev pub out_of_range : ℕ → ℕ → Bool
out_of_range value limit = not (leb 1 value && leb value limit)

unfoldable pub correlate_current_affected_matches :
    List KevMatch → List KevRecord → ℕ → ℕ → Result (List KevCorrelation)
unfolding correlate_from
correlate_current_affected_matches matches records maximum_matches maximum_correlations = do
  raise_if (out_of_range maximum_matches max_batch_matches)
      (value_error "KEV match batch limit is invalid")
  raise_if (out_of_range maximum_correlations max_batch_correlations)
      (value_error "KEV correlation batch limit is invalid")
  raise_if (ltb maximum_matches (length matches))
      (value_error "KEV match batch exceeds the reviewed limit")
  correlate_from maximum_correlations records [] [] matches
