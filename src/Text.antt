-- ===== src/Text.antt =====
-- Texts that the program builds, slices and matches: identifiers and digests, as code points.
use Prim.Native.Char.{code}
use openassetwatch.Prelude.{
  ℕ, ◌+◌, zero, suc, ◌≡◌, refl, Bool, true, false, ◌&&◌, ◌||◌, List, [], ◌∷◌, ◌++◌, arith, leb,
  ◌==◌, String, length, take, all,
}

abbrev pub Text : Type 0
Text = List ℕ

unfoldable pub codes : String → Text
codes String.[] = []
codes (String.◌∷◌ c s) = code c ∷ codes s

-- `[0-9a-f]`
abbrev pub is_hex : ℕ → Bool
is_hex c = (leb b'0' c && leb c b'9') || (leb b'a' c && leb c b'f')

-- `[A-Za-z0-9._-]`
abbrev pub is_site_char : ℕ → Bool
is_site_char c =
    (leb b'A' c && leb c b'Z')
    || (leb b'a' c && leb c b'z')
    || (leb b'0' c && leb c b'9')
    || c == b'.'
    || c == b'_'
    || c == b'-'

-- `"\x1f".join(parts)`
unfoldable pub join_unit : List Text → Text
join_unit [] = []
join_unit (t ∷ []) = t
join_unit (t ∷ u ∷ ts) = t ++ 31 ∷ join_unit (u ∷ ts)

-- `x == y` on texts.
unfoldable pub text_eq : Text → Text → Bool
text_eq [] [] = true
text_eq [] (y ∷ ys) = false
text_eq (x ∷ xs) [] = false
text_eq (x ∷ xs) (y ∷ ys) = x == y && text_eq xs ys

-- `re.fullmatch("[0-9a-f]{n}", t)`
unfoldable pub is_hex_of_length : ℕ → Text → Bool
is_hex_of_length n t = length t == n && all is_hex t

-- `re.fullmatch(prefix + "[0-9a-f]{32}", t)`
unfoldable pub is_tagged_digest : Text → Text → Bool
is_tagged_digest [] t = is_hex_of_length 32 t
is_tagged_digest (p ∷ ps) [] = false
is_tagged_digest (p ∷ ps) (c ∷ cs) = p == c && is_tagged_digest ps cs

pub text_eq_refl : (t : Text) → text_eq t t ≡ true
unfolding text_eq
text_eq_refl [] = refl
text_eq_refl (x ∷ xs) = ground (arith, text_eq_refl xs)

pub text_eq→eq : (s t : Text) → text_eq s t ≡ true → s ≡ t
unfolding text_eq
text_eq→eq [] [] h = refl
text_eq→eq [] (y ∷ ys) h = cc
text_eq→eq (x ∷ xs) [] h = cc
text_eq→eq (x ∷ xs) (y ∷ ys) h = ground (arith, text_eq→eq xs ys)

take-is_hex : (k : ℕ) (t : Text) → all is_hex t ≡ true → all is_hex (take k t) ≡ true
take-is_hex zero t h = refl
take-is_hex (suc k) [] h = refl
take-is_hex (suc k) (c ∷ cs) h = ground (arith, take-is_hex k cs)

length-take_of_longer : (k m : ℕ) (t : Text) → length t ≡ k + m → length (take k t) ≡ k
length-take_of_longer zero m t h = refl
length-take_of_longer (suc k) m [] h = omega arith
length-take_of_longer (suc k) m (c ∷ cs) h = omega (arith, length-take_of_longer k m cs)

is_hex_of_length-take :
    (k m : ℕ) (t : Text)
    → length t ≡ k + m
    → all is_hex t ≡ true
    → is_hex_of_length k (take k t) ≡ true
unfolding is_hex_of_length
is_hex_of_length-take k m t l h =
    simp (length-take_of_longer k m t l, take-is_hex k t h) (ground arith)

is_hex_of_length→length : (k : ℕ) (t : Text) → is_hex_of_length k t ≡ true → length t ≡ k
unfolding is_hex_of_length
is_hex_of_length→length k t h = ground arith

is_hex_of_length→all : (k : ℕ) (t : Text) → is_hex_of_length k t ≡ true → all is_hex t ≡ true
unfolding is_hex_of_length
is_hex_of_length→all k t h = ground arith

-- The first 32 digits of a 64-digit digest, behind a tag, match the tag's pattern.
pub tagged-take :
    (tag t : Text) → is_hex_of_length 64 t ≡ true → is_tagged_digest tag (tag ++ take 32 t) ≡ true
unfolding is_tagged_digest
tagged-take [] t h =
    is_hex_of_length-take 32 32 t (is_hex_of_length→length 64 t h) (is_hex_of_length→all 64 t h)
tagged-take (p ∷ ps) t h = ground (arith, tagged-take ps t h)
