-- ===== src/Versions/Characters.antt =====
-- Characters, numerals and pieces of versions, over the alphabet `[0-9A-Za-z.!+:~_-]` that
-- `compare_versions` of backend/app/version_intelligence.py lets through, and the text rules of
-- backend/app/component_intelligence.py.
pub mod Words
pub mod Normal
use openassetwatch.Prelude.{
  ℕ, ◌+◌, ◌-◌, ◌*◌, Bool, true, false, not, ◌&&◌, ◌||◌, Option, none, some, List, [], ◌∷◌, ◌++◌,
  leb, ◌==◌, if◌then◌else◌, take, any, all,
}
use openassetwatch.Text.{Text}

abbrev pub is_digit : ℕ → Bool
is_digit c = leb b'0' c && leb c b'9'

abbrev pub is_letter : ℕ → Bool
is_letter c = (leb b'A' c && leb c b'Z') || (leb b'a' c && leb c b'z')

-- `_SAFE_VERSION_RE`, for one character
abbrev pub is_safe : ℕ → Bool
is_safe c =
    is_digit c
    || is_letter c
    || c == b'.'
    || c == b'!'
    || c == b'+'
    || c == b':'
    || c == b'~'
    || c == b'_'
    || c == b'-'

-- `str.isspace`
abbrev pub is_space : ℕ → Bool
is_space c =
    (leb 9 c && leb c 13)
    || (leb 28 c && leb c 32)
    || c == 133
    || c == 160
    || c == 5760
    || (leb 8192 c && leb c 8202)
    || c == 8232
    || c == 8233
    || c == 8239
    || c == 8287
    || c == 12288

-- `[\x00-\x1f\x7f]`
abbrev pub is_control : ℕ → Bool
is_control c = leb c 31 || c == 127

-- `str.casefold` on the letters of that alphabet
abbrev pub lower : ℕ → ℕ
lower c = if leb b'A' c && leb c b'Z' then c + 32 else c

abbrev pub is_empty : Text → Bool
is_empty [] = true
is_empty (c ∷ cs) = false

-- The longest prefix whose characters pass the test, and what follows it.
unfoldable pub leading : (ℕ → Bool) → Text → Text
leading p [] = []
leading p (c ∷ cs) = let rest = leading p cs in if p c then c ∷ rest else []

unfoldable pub after : (ℕ → Bool) → Text → Text
after p [] = []
after p (c ∷ cs) = let rest = after p cs in if p c then rest else c ∷ cs

-- `int(text)` of decimal digits, after the digits already read.
unfoldable pub numeral_from : ℕ → Text → ℕ
numeral_from n [] = n
numeral_from n (c ∷ cs) = numeral_from (n * 10 + (c - b'0')) cs

abbrev pub numeral : Text → ℕ
numeral t = numeral_from 0 t

-- `text.isdigit()`
unfoldable pub is_numeral : Text → Bool
is_numeral t = not (is_empty t) && all is_digit t

unfoldable pub add_first : ℕ → List Text → List Text
add_first c [] = (c ∷ []) ∷ []
add_first c (t ∷ ts) = (c ∷ t) ∷ ts

-- `text.split(separator)`
unfoldable pub split_on : ℕ → Text → List Text
unfolding add_first
split_on s [] = [] ∷ []
split_on s (c ∷ cs) = let rest = split_on s cs in if c == s then [] ∷ rest else add_first c rest

abbrev pub starts : (ℕ → Bool) → Text → Bool
starts p [] = false
starts p (c ∷ cs) = p c

-- A character of a run before the runs of what follows it.
unfoldable pub join_run : (ℕ → Bool) → ℕ → Text → List Text → List Text
unfolding add_first
join_run p c cs ts = if starts p cs then add_first c ts else (c ∷ []) ∷ ts

-- `re.findall(r"\d+|[A-Za-z]+", text)`, and the single characters that are tokens too.
unfoldable pub tokens : (ℕ → Bool) → Text → List Text
unfolding join_run
tokens single [] = []
tokens single (c ∷ cs) =
    let rest = tokens single cs in
    if is_digit c
    then join_run is_digit c cs rest
    else if is_letter c
    then join_run is_letter c cs rest
    else if single c
    then (c ∷ []) ∷ rest
    else rest

-- `text.split()`: the words between white space
unfoldable pub words : Text → List Text
unfolding join_run
words [] = []
words (c ∷ cs) =
    let rest = words cs in if is_space c then rest else join_run (λ d. not (is_space d)) c cs rest

-- `" ".join(words)`
unfoldable pub join_words : List Text → Text
join_words [] = []
join_words (t ∷ []) = t
join_words (t ∷ u ∷ ts) = t ++ 32 ∷ join_words (u ∷ ts)

-- `bounded_text`, of a text or of a value that is none
unfoldable pub bounded_text : ℕ → Option Text → Text
unfolding words join_words
bounded_text limit none = []
bounded_text limit (some value) =
    let cleaned = join_words (words value) in
    if is_empty cleaned || any is_control cleaned then [] else take limit cleaned

abbrev pub max_component_version : ℕ
max_component_version = 160

unfoldable pub normalize_version_text : Option Text → Option Text
unfolding bounded_text words join_words
normalize_version_text value =
    let version = bounded_text max_component_version value in
    if is_empty version
    then none
    else if any is_space version
    then some (join_words (words version))
    else some version
