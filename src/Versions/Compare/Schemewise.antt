-- ===== src/Versions/Compare/Schemewise.antt =====
-- Every scheme reads a key from each version and compares the keys in a total preorder.
use openassetwatch.Prelude.{ℕ, ◌≤◌, ◌≡◌, refl, sym, ap, ◌∙◌, Option, none, List, length, String}
use openassetwatch.Text.{Text}
use openassetwatch.Temporal.Result.{Result, ok, err, ◌>>=◌}
use openassetwatch.Versions.Order.{Ordered, number_ordered, integer_ordered}
use openassetwatch.Versions.Order.Tuples.{pair_ordered, list_ordered}
use openassetwatch.Versions.Schemes.{Part, part_ordered}
use openassetwatch.Versions.Schemes.Semver.{SemverKey, semver}
use openassetwatch.Versions.Schemes.Rpm.{rpm_segments, generic_numeric}
use openassetwatch.Versions.Schemes.Maven.{MavenKey, maven}
use openassetwatch.Versions.Debian.Refinement.{
  DebianVersion, debian_ordered, debian_version, debian_compare-debian_version,
}
use openassetwatch.Versions.Compare.{
  Pep440, Scheme, pypi, semantic, debian, rpm, maven_scheme, generic, unknown, in_order,
  key_attempt, compare_keys, always, scheme_compare, conclude,
}
use openassetwatch.Versions.Compare.Keyed.{mirrored, mirrored-compare_keys}

pub record Keys : Type 1 where
  pub Key : Type 0
  pub ordered : Ordered Key
  pub reason : String
  pub read : Text → Result (Option Key)

-- The keys of each scheme, the error texts as the program gives them.
abbrev pub keys : Pep440 → Scheme → Keys
keys p pypi = record {
  Key = p.Version;
  ordered = p.ordered;
  reason = "unsupported-pep440-form";
  read = λ t. ok (p.parse t);
}
keys p semantic = record {
  Key = SemverKey;
  ordered = pair_ordered;
  reason = "unsupported-semver-form";
  read = semver;
}
keys p debian = record {
  Key = DebianVersion;
  ordered = debian_ordered;
  reason = "";
  read = λ t. always (debian_version t);
}
keys p rpm = record {
  Key = List Part;
  ordered = list_ordered;
  reason = "";
  read = λ t. always (rpm_segments t);
}
keys p maven_scheme = record {
  Key = MavenKey;
  ordered = pair_ordered;
  reason = "";
  read = λ t. always (maven t);
}
keys p generic = record {
  Key = List Part;
  ordered = list_ordered;
  reason = "unsupported-generic-version";
  read = λ t. ok (generic_numeric t);
}
keys p unknown = record {
  Key = ℕ;
  ordered = number_ordered;
  reason = "unsupported-ecosystem";
  read = λ t. ok none;
}

-- Both sides read, then compared, in either way of writing it.
always-both :
    {K : Type 0} (o : Ordered K) (reason : String) (left right : Result K)
    → (do x ← left >>= λ a. right >>= λ b. ok (o.order a b); ok (in_order x))
      ≡ (always left >>= λ l. always right >>= λ r. ok (key_attempt o reason l r))
unfolding key_attempt
always-both o reason (err x) right = refl
always-both o reason (ok a) (err x) = refl
always-both o reason (ok a) (ok b) = refl

-- Every scheme, Debian's included, compares two safe versions by their keys.
pub scheme_compare-keys :
    (p : Pep440) (s : Scheme) (l r : Text)
    → length l ≤ 160
    → scheme_compare p s l r ≡ compare_keys (keys p s).ordered (keys p s).reason (keys p s).read l r
unfolding scheme_compare compare_keys key_attempt
scheme_compare-keys p pypi l r h = refl
scheme_compare-keys p semantic l r h = refl
scheme_compare-keys p debian l r h =
    ap (λ m. m >>= λ x. ok (in_order x)) (debian_compare-debian_version l r h)
    ∙ always-both debian_ordered "" (debian_version l) (debian_version r)
scheme_compare-keys p rpm l r h = refl
scheme_compare-keys p maven_scheme l r h = refl
scheme_compare-keys p generic l r h = refl
scheme_compare-keys p unknown l r h = refl

pub mirrored-scheme_compare :
    (p : Pep440) (s : Scheme) (l r : Text)
    → length l ≤ 160
    → length r ≤ 160
    → conclude (scheme_compare p s r l) ≡ mirrored (conclude (scheme_compare p s l r))
mirrored-scheme_compare p s l r hl hr =
    ap conclude (scheme_compare-keys p s r l hr)
    ∙ mirrored-compare_keys (keys p s).ordered (keys p s).reason (keys p s).read l r
    ∙ ap (λ m. mirrored (conclude m)) (sym (scheme_compare-keys p s l r hl))
