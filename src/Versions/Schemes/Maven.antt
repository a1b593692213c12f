-- ===== src/Versions/Schemes/Maven.antt =====
-- `_trim_release` and `_maven` of backend/app/version_intelligence.py.
use openassetwatch.Prelude.{
  ℕ, Bool, false, not, ◌&&◌, ◌||◌, Option, none, some, List, [], ◌∷◌, map, ◌==◌, if◌then◌else◌, any,
}
use openassetwatch.Text.{Text, codes, text_eq}
use openassetwatch.Temporal.Result.{Result, ok, value_error, ◌>>◌, raise_if}
use openassetwatch.Versions.Order.{ℤ, pos, negsuc}
use openassetwatch.Versions.Characters.{is_digit, is_letter, lower, numeral, is_numeral, tokens}
use openassetwatch.Versions.Schemes.Rpm.{is_unusable}

-- `while values and values[-1] == 0: values.pop()`
unfoldable pub trim_zeros : List ℕ → List ℕ
trim_zeros [] = []
trim_zeros (n ∷ ns) = trimmed n (trim_zeros ns)
  where
    trimmed : ℕ → List ℕ → List ℕ
    trimmed n [] = if n == 0 then [] else n ∷ []
    trimmed n (m ∷ ms) = n ∷ m ∷ ms

-- The loop leaves the first number in its place.
unfoldable pub trim_release : List ℕ → List ℕ
unfolding trim_zeros
trim_release [] = []
trim_release (n ∷ ns) = n ∷ trim_zeros ns

abbrev pub qualifiers : List (Text × ℤ)
qualifiers =
    (codes "alpha", negsuc 4)
    ∷ (codes "a", negsuc 4)
    ∷ (codes "beta", negsuc 3)
    ∷ (codes "b", negsuc 3)
    ∷ (codes "milestone", negsuc 2)
    ∷ (codes "m", negsuc 2)
    ∷ (codes "rc", negsuc 1)
    ∷ (codes "cr", negsuc 1)
    ∷ (codes "snapshot", negsuc 0)
    ∷ (codes "", pos 0)
    ∷ (codes "final", pos 0)
    ∷ (codes "ga", pos 0)
    ∷ (codes "release", pos 0)
    ∷ (codes "sp", pos 1)
    ∷ []

-- `qualifiers.get(name)`
unfoldable pub rank_in : Text → List (Text × ℤ) → Option ℤ
unfolding text_eq
rank_in name [] = none
rank_in name ((known, rank) ∷ rest) =
    let later = rank_in name rest in if text_eq name known then some rank else later

-- The loop that tells the release from the qualifier's tokens.
unfoldable pub split_tokens : Bool → List Text → List ℕ × List Text
unfolding is_numeral
split_tokens started [] = ([], [])
split_tokens started (token ∷ rest) =
    let in_release = is_numeral token && not started in
    let (release, qualifier) = split_tokens (not in_release) rest in
    if in_release
    then (numeral token ∷ release, qualifier)
    else (release, map lower token ∷ qualifier)

abbrev pub Qualifier : Type 0
Qualifier = ℤ × (Text × (ℕ × List Text))

abbrev pub MavenKey : Type 0
MavenKey = List ℕ × Qualifier

-- The number behind a qualifier's name, and the tokens behind the number.
unfoldable pub suffix_number : List Text → ℕ
unfolding is_numeral
suffix_number [] = 0
suffix_number (token ∷ rest) = if is_numeral token then numeral token else 0

unfoldable pub tail_tokens : List Text → List Text
tail_tokens [] = []
tail_tokens (token ∷ rest) = rest

unfoldable pub qualifier_of : List Text → Qualifier
unfolding rank_in suffix_number tail_tokens
qualifier_of [] = (pos 0, ([], (0, [])))
qualifier_of (name ∷ rest) = elim (rank_in name qualifiers) [
  | none ↦ (pos 2, (name, (suffix_number rest, tail_tokens rest)))
  | some rank ↦ (rank, ([], (suffix_number rest, tail_tokens rest)))
]

-- `[0-9A-Za-z]+|[._-]`
abbrev pub is_maven_char : ℕ → Bool
is_maven_char c = is_digit c || is_letter c || c == b'.' || c == b'_' || c == b'-'

unfoldable pub maven : Text → Result MavenKey
unfolding tokens is_unusable split_tokens trim_release qualifier_of
maven value = do
  raise_if (any (λ c. not (is_maven_char c)) value) (value_error "unsupported Maven punctuation")
  let found = tokens (λ c. false) value
  raise_if (is_unusable found) (value_error "unsupported Maven version")
  let (release, qualifier) = split_tokens false found
  ok (trim_release release, qualifier_of qualifier)
