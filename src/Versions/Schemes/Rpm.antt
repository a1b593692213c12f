-- ===== src/Versions/Schemes/Rpm.antt =====
-- `_split_epoch`, `_rpm_segments` and `_generic_numeric` of backend/app/version_intelligence.py.
use openassetwatch.Prelude.{
  ℕ, suc, Bool, true, false, not, Option, none, some, List, [], ◌∷◌, map, ltb, ◌==◌, if◌then◌else◌,
  length, any, drop,
}
use openassetwatch.Text.{Text, text_eq}
use openassetwatch.Temporal.Result.{Result, ok, err, value_error, ◌>>=◌, ◌>>◌, raise_if}
use openassetwatch.Versions.Characters.{lower, leading, after, numeral, is_numeral, tokens}
use openassetwatch.Versions.Schemes.{Part, tilde, epoch, number, word, max_version_parts}

abbrev pub is_colon : ℕ → Bool
is_colon c = c == b':'

-- The texts before and after the first colon.
unfoldable pub split_epoch : Text → Result (ℕ × Text)
unfolding leading after is_numeral
split_epoch value =
    let raw_epoch = leading (λ c. not (is_colon c)) value in
    let remainder = drop 1 (after (λ c. not (is_colon c)) value) in
    if not (any is_colon value)
    then ok (0, value)
    else if not (is_numeral raw_epoch)
    then err (value_error "invalid epoch")
    else ok (numeral raw_epoch, remainder)

-- A run of digits, or a run of letters, as a part.
unfoldable pub token_part : Text → Part
unfolding is_numeral
token_part token = if is_numeral token then number (numeral token) else word (map lower token)

unfoldable pub rpm_segment : Text → Part
unfolding text_eq token_part
rpm_segment token = if text_eq token (b'~' ∷ []) then tilde else token_part token

-- The loop over the tokens, with the number of segments so far.
unfoldable pub rpm_segments_from : ℕ → List Text → Result (List Part)
unfolding rpm_segment
rpm_segments_from n [] = ok []
rpm_segments_from n (token ∷ rest) = do
  raise_if (ltb max_version_parts (suc n)) (value_error "version has too many segments")
  segments ← rpm_segments_from (suc n) rest
  ok (rpm_segment token ∷ segments)

unfoldable pub rpm_segments : Text → Result (List Part)
unfolding split_epoch tokens rpm_segments_from
rpm_segments value = do
  (number_of_epoch, remainder) ← split_epoch value
  segments ← rpm_segments_from 1 (tokens (λ c. c == b'~') remainder)
  ok (epoch number_of_epoch ∷ segments)

-- Too many tokens, or none.
unfoldable pub is_unusable : List Text → Bool
is_unusable [] = true
is_unusable (t ∷ ts) = ltb max_version_parts (length (t ∷ ts))

unfoldable pub generic_numeric : Text → Option (List Part)
unfolding tokens is_unusable token_part
generic_numeric value =
    let found = tokens (λ c. false) value in
    if is_unusable found then none else some (map token_part found)
