-- ===== src/Versions/Schemes/Semver.antt =====
-- `_SEMVER_RE`, `_prerelease_parts` and `_semver` of backend/app/version_intelligence.py.
use openassetwatch.Prelude.{
  ℕ, Bool, true, not, ◌&&◌, ◌||◌, Option, none, some, List, [], ◌∷◌, map, ltb, ◌==◌, if◌then◌else◌,
  length, all,
}
use openassetwatch.Text.{Text}
use openassetwatch.Temporal.Result.{Result, ok, value_error, ◌>>=◌, ◌>>◌, raise_if}
use openassetwatch.Versions.Characters.{
  is_digit, is_letter, is_empty, starts, leading, after, numeral, is_numeral, split_on,
}
use openassetwatch.Versions.Schemes.{Part, identifier, number, word, max_version_parts}

-- `(?:0|[1-9]\d*)` at the start of a text: its value and what follows it
unfoldable pub release_number : Text → Option (ℕ × Text)
unfolding leading after
release_number [] = none
release_number (c ∷ cs) =
    if c == b'0'
    then some (0, cs)
    else if is_digit c
    then some (numeral (c ∷ leading is_digit cs), after is_digit cs)
    else none

-- `(?:\.(0|[1-9]\d*))?`, with 0 for a number that is missing
unfoldable pub next_number : Text → ℕ × Text
unfolding release_number
next_number [] = (0, [])
next_number (c ∷ cs) =
    if c == b'.'
    then elim (release_number cs) [ none ↦ (0, c ∷ cs) | some found ↦ found ]
    else (0, c ∷ cs)

-- `[0-9A-Za-z.-]`
abbrev pub is_label_char : ℕ → Bool
is_label_char c = is_digit c || is_letter c || c == b'.' || c == b'-'

-- `(?:-([0-9A-Za-z.-]+))?`
unfoldable pub prerelease_label : Text → Option Text × Text
unfolding leading after
prerelease_label [] = (none, [])
prerelease_label (c ∷ cs) =
    if c == b'-' && starts is_label_char cs
    then (some (leading is_label_char cs), after is_label_char cs)
    else (none, c ∷ cs)

-- `(?:\+[0-9A-Za-z.-]+)?$`
unfoldable pub is_build : Text → Bool
is_build [] = true
is_build (c ∷ cs) = c == b'+' && not (is_empty cs) && all is_label_char cs

-- `^[vV]?`
unfoldable pub without_v : Text → Text
without_v [] = []
without_v (c ∷ cs) = if c == b'v' || c == b'V' then cs else c ∷ cs

unfoldable pub prerelease_part : Text → Part
unfolding is_numeral
prerelease_part item = if is_numeral item then identifier (numeral item) else word item

unfoldable pub prerelease_parts : Option Text → Result (List Part)
unfolding split_on prerelease_part
prerelease_parts none = ok (number 0 ∷ [])
prerelease_parts (some value) =
    let items = split_on b'.' value in
    raise_if (ltb max_version_parts (length items))
      (value_error "prerelease has too many identifiers")
    >> ok (map prerelease_part items)

abbrev pub SemverKey : Type 0
SemverKey = ℕ × (ℕ × (ℕ × List Part))

-- What follows the major number.
unfoldable pub semver_rest : ℕ → Text → Result (Option SemverKey)
unfolding next_number prerelease_label is_build prerelease_parts
semver_rest major text =
    let (minor, text) = next_number text in
    let (patch, text) = next_number text in
    let (pre, text) = prerelease_label text in
    if is_build text
    then (do parts ← prerelease_parts pre; ok (some (major, (minor, (patch, parts)))))
    else ok none

unfoldable pub semver : Text → Result (Option SemverKey)
unfolding without_v release_number semver_rest
semver value = elim (release_number (without_v value)) [
  | none ↦ ok none
  | some (major, rest) ↦ semver_rest major rest
]
