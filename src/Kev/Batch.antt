-- ===== src/Kev/Batch.antt =====
-- The batch gives what the single correlations give, one after the other, within its limit.
use mathlib.Core.Path.{subst}
use openassetwatch.Prelude.{
  ℕ, ◌≤◌, ◌≡◌, refl, sym, ap, ◌∙◌, inl, inr, Bool, true, false, List, [], ◌∷◌, ◌++◌, ltb, arith,
  Bool-cases, length, any, String, append_assoc, append_nil,
}
use openassetwatch.Text.{Text, text_eq}
use openassetwatch.Temporal.Result.{Result, ok, value_error, ◌>>◌, raise_if, >>=-eq-ok, same_ok}
use openassetwatch.Kev.{
  KevRecord, KevMatch, KevCorrelation, is_eligible, eligible_correlations,
  correlate_current_affected_match, append_correlations, correlate_from, max_batch_matches,
  max_batch_correlations, out_of_range, correlate_current_affected_matches,
}

-- The single correlations one after the other.
abbrev pub all_correlations : List KevMatch → List KevRecord → List KevCorrelation
all_correlations [] records = []
all_correlations (m ∷ ms) records =
    correlate_current_affected_match m records ++ all_correlations ms records

kept :
    {Y : Type 0} (b : Bool) (message : String) {rest : Result Y} {y : Y}
    → (raise_if b (value_error message) >> rest) ≡ ok y
    → (b ≡ false) × (rest ≡ ok y)
kept true message h = cc
kept false message h = (refl, h)

within : (limit k : ℕ) → ltb limit k ≡ false → k ≤ limit
within limit k h = ground arith

append_correlations-eq :
    (maximum : ℕ) (xs output : List KevCorrelation) {result : List KevCorrelation}
    → length output ≤ maximum
    → append_correlations maximum output xs ≡ ok result
    → (result ≡ output ++ xs) × (length result ≤ maximum)
unfolding append_correlations
append_correlations-eq maximum [] output h e =
    let same = same_ok refl e in
    (sym same ∙ sym (append_nil output), subst (λ r. length r ≤ maximum) same h)
append_correlations-eq maximum (x ∷ xs) output h e =
    let (few, k) =
      kept (ltb maximum (length (output ++ x ∷ [])))
        "KEV correlation batch exceeds the reviewed limit" e in
    let (same, short) =
      append_correlations-eq maximum xs (output ++ x ∷ []) (within maximum _ few) k in
    (same ∙ append_assoc output (x ∷ []) xs, short)

correlate_from-eq :
    (maximum : ℕ) (records : List KevRecord) (ms : List KevMatch) (seen : List Text)
    (output : List KevCorrelation) {result : List KevCorrelation}
    → length output ≤ maximum
    → correlate_from maximum records seen output ms ≡ ok result
    → (result ≡ output ++ all_correlations ms records) × (length result ≤ maximum)
unfolding correlate_from correlate_current_affected_match
correlate_from-eq maximum records [] seen output h e =
    let same = same_ok refl e in
    (sym same ∙ sym (append_nil output), subst (λ r. length r ≤ maximum) same h)
correlate_from-eq maximum records (m ∷ ms) seen output h e = elim (Bool-cases (is_eligible m)) [
  | inr n ↦ rw n (correlate_from-eq maximum records ms seen output h (rw n at e))
  | inl y ↦ rw y (
      let (_, f) =
        kept (any (text_eq m.match_id) seen) "KEV match batch contains a duplicate logical match"
          (rw y at e) in
      let (longer, a, k) =
        >>=-eq-ok (append_correlations maximum output (eligible_correlations m records)) _ f in
      let (appended, short) =
        append_correlations-eq maximum (eligible_correlations m records) output h a in
      let (same, bounded) =
        correlate_from-eq maximum records ms (m.match_id ∷ seen) longer short k in
      (
        same
            ∙ ap (λ l. l ++ all_correlations ms records) appended
            ∙ append_assoc output (eligible_correlations m records) (all_correlations ms records),
        bounded,
      ))
]

-- A batch that succeeds gives exactly the correlations of its matches, each on its own, in order,
-- and no more of them than its limit, which is at most 200,000.
pub correlate_current_affected_matches-all :
    (matches : List KevMatch) (records : List KevRecord) (maximum_matches maximum_correlations : ℕ)
    (result : List KevCorrelation)
    → correlate_current_affected_matches matches records maximum_matches maximum_correlations
      ≡ ok result
    → (result ≡ all_correlations matches records)
      × ((length result ≤ maximum_correlations) × (maximum_correlations ≤ 200000))
unfolding correlate_current_affected_matches
correlate_current_affected_matches-all matches records mm mc result e =
    let (_, f) = kept (out_of_range mm max_batch_matches) "KEV match batch limit is invalid" e in
    let (valid, g) =
      kept (out_of_range mc max_batch_correlations) "KEV correlation batch limit is invalid" f in
    let (_, k) = kept (ltb mm (length matches)) "KEV match batch exceeds the reviewed limit" g in
    let (same, short) = correlate_from-eq mc records matches [] [] (omega arith) k in
    (same, (short, in_range mc valid))
  where
    in_range : (v : ℕ) → out_of_range v 200000 ≡ false → v ≤ 200000
    in_range v h = ground arith
