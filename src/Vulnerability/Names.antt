-- ===== src/Vulnerability/Names.antt =====
-- `normalized_token` of backend/app/component_intelligence.py, and what matching takes of the parts
-- of that file that are not modelled.
use openassetwatch.Prelude.{ℕ, Bool, not, ◌&&◌, ◌||◌, Option, [], ◌∷◌, leb, ◌==◌, if◌then◌else◌}
use openassetwatch.Text.{Text}
use openassetwatch.Versions.Characters.{is_space, is_digit, starts, bounded_text}

-- Python's `str.casefold`, and `purl_identity`, which parses and prints a package URL.
pub record Naming : Type 0 where
  pub casefold : Text → Text
  pub purl_identity : Option Text → Option Text

-- `re.sub(p + "+", "-", text)`: each run of matching characters becomes one dash.
unfoldable pub dashed : (ℕ → Bool) → Text → Text
dashed p [] = []
dashed p (c ∷ cs) =
    let rest = dashed p cs in if p c then (if starts p cs then rest else b'-' ∷ rest) else c ∷ rest

-- `[\s_/\\]`
abbrev pub is_separator : ℕ → Bool
is_separator c = is_space c || c == b'_' || c == b'/' || c == b'\\'

-- `[^a-z0-9.+~-]`
abbrev pub is_other : ℕ → Bool
is_other c =
    not
      ((leb b'a' c && leb c b'z') || is_digit c || c == b'.' || c == b'+' || c == b'~' || c == b'-')

abbrev pub is_trim : ℕ → Bool
is_trim c = c == b'-' || c == b'.'

abbrev pub is_dash_char : ℕ → Bool
is_dash_char c = c == b'-'

-- `text.lstrip("-.")` and `text.rstrip("-.")`
unfoldable pub left_trimmed : Text → Text
left_trimmed [] = []
left_trimmed (c ∷ cs) = let rest = left_trimmed cs in if is_trim c then rest else c ∷ cs

unfoldable pub right_trimmed : Text → Text
right_trimmed [] = []
right_trimmed (c ∷ cs) = keep c (right_trimmed cs)
  where
    keep : ℕ → Text → Text
    keep c [] = if is_trim c then [] else c ∷ []
    keep c (d ∷ ds) = c ∷ d ∷ ds

-- A single dash stays a dash, so a run of two or more may be replaced with the single ones.
unfoldable pub normalized_token : Naming → ℕ → Option Text → Text
unfolding bounded_text dashed left_trimmed right_trimmed
normalized_token n limit value = right_trimmed (
    left_trimmed (
      dashed is_dash_char
        (dashed is_other (dashed is_separator (n.casefold (bounded_text limit value))))))
