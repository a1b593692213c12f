-- ===== src/Versions/Schemes.antt =====
-- The parts of the keys that versions are compared by, and the schemes of
-- backend/app/version_intelligence.py that build them.
pub mod Semver
pub mod Rpm
pub mod Maven
pub mod Tilde
use openassetwatch.Prelude.{
  ℕ, zero, suc, ◌≡◌, refl, sym, ◌∙◌, ap, Bool, true, false, not, ◌&&◌, ◌||◌, Option, none, some,
  List, [], ◌∷◌, ◌++◌, map, ltb, ◌==◌, if◌then◌else◌, length, all, any,
}
use openassetwatch.Text.{Text, codes, text_eq}
use openassetwatch.Temporal.Result.{Result, ok, value_error, ◌>>=◌, ◌>>◌, raise_if}
use openassetwatch.Versions.Order.{
  Order, ℤ, pos, negsuc, Ordered, by_key, integer_ordered, number_ordered,
}
use openassetwatch.Versions.Order.Tuples.{pair_ordered, list_ordered}
use openassetwatch.Versions.Characters.{
  is_digit, is_letter, lower, is_empty, starts, leading, after, numeral, is_numeral, split_on,
  tokens,
}

abbrev pub max_version_parts : ℕ
max_version_parts = 64

-- The pairs of a tag and a value that keys consist of.
pub data Part : Type 0 where
  tilde : Part
  identifier number epoch : ℕ → Part
  word : Text → Part

-- The tag and the value of a part. A tag goes with values of one type, so the other stays at its
-- least.
unfoldable pub part_key : Part → ℤ × (ℕ × Text)
part_key tilde = (negsuc 0, (0, []))
part_key (identifier n) = (pos 0, (n, []))
part_key (word t) = (pos 1, (0, t))
part_key (number n) = (pos 2, (n, []))
part_key (epoch n) = (pos 3, (n, []))

abbrev pub key_ordered : Ordered (ℤ × (ℕ × Text))
key_ordered = pair_ordered

instance abbrev pub part_ordered : Ordered Part
part_ordered = by_key part_key key_ordered
