-- ===== src/Versions/Compare.antt =====
-- `compare_versions` of backend/app/version_intelligence.py.
pub mod Keyed
pub mod Schemewise
pub mod Reasons
pub mod Laws
pub mod Ranked
pub mod Preorder
use openassetwatch.Prelude.{
  ◌≡◌, Bool, true, false, not, ◌&&◌, ◌||◌, Option, none, some, List, [], ◌∷◌, ℕ, leb, ◌=s=◌,
  if◌then◌else◌, length, all, String,
}
use openassetwatch.Text.{Text, text_eq}
use openassetwatch.Temporal.Result.{Result, ok, err, ◌>>=◌}
use openassetwatch.Versions.Order.{Order, equal, reversed, Ordered, number_ordered, integer_ordered}
use openassetwatch.Versions.Order.Tuples.{pair_ordered, list_ordered}
use openassetwatch.Versions.Characters.{is_safe, is_empty, normalize_version_text}
use openassetwatch.Versions.Schemes.{Part, part_ordered}
use openassetwatch.Versions.Schemes.Semver.{SemverKey, semver}
use openassetwatch.Versions.Schemes.Rpm.{rpm_segments, generic_numeric}
use openassetwatch.Versions.Schemes.Maven.{MavenKey, maven}
use openassetwatch.Versions.Debian.{debian_compare}

-- `packaging.version`: the versions that it reads, or `InvalidVersion`, and their order, which PEP
-- 440 makes total.
pub record Pep440 : Type 1 where
  pub Version : Type 0
  pub parse : Text → Option Version
  pub ordered : Ordered Version

pub data ComparisonStatus : Type 0 where
  supported unsupported invalid : ComparisonStatus

pub record VersionComparison : Type 0 where
  pub status : ComparisonStatus
  pub order : Option Order
  pub reason : String
  pub engine_version : String

-- The constructor with its default.
abbrev pub version_comparison : ComparisonStatus → Option Order → String → VersionComparison
version_comparison status order reason = record {
  status = status;
  order = order;
  reason = reason;
  engine_version = "oaw.versions.v1";
}

-- The families of ecosystems that are compared alike.
pub data Scheme : Type 0 where
  pypi semantic debian rpm maven_scheme generic unknown : Scheme

unfoldable pub scheme_of : String → Scheme
scheme_of ecosystem =
    if ecosystem =s= "pypi"
    then pypi
    else if ecosystem =s= "npm" || ecosystem =s= "nuget" || ecosystem =s= "golang"
    then semantic
    else if ecosystem =s= "deb" || ecosystem =s= "alpine"
    then debian
    else if ecosystem =s= "rpm"
    then rpm
    else if ecosystem =s= "maven"
    then maven_scheme
    else if ecosystem =s= "generic" || ecosystem =s= "firmware" || ecosystem =s= "operating-system"
    then generic
    else unknown

-- An order, or the reason why there is none.
pub data Attempt : Type 0 where
  in_order : Order → Attempt
  not_supported : String → Attempt

-- The order of two keys, when both texts have one.
unfoldable pub key_attempt : {K : Type 0} → Ordered K → String → Option K → Option K → Attempt
key_attempt o reason none right = not_supported reason
key_attempt o reason (some left) none = not_supported reason
key_attempt o reason (some left) (some right) = in_order (o.order left right)

-- Both texts are read before their keys are compared.
unfoldable pub compare_keys :
    {K : Type 0} → Ordered K → String → (Text → Result (Option K)) → Text → Text → Result Attempt
unfolding key_attempt
compare_keys o reason read left right = do
  left_parsed ← read left
  right_parsed ← read right
  ok (key_attempt o reason left_parsed right_parsed)

-- A reader that raises or has a key.
abbrev pub always {ℓ} : {K : Type ℓ} → Result K → Result (Option K)
always r = r >>= λ key. ok (some key)

unfoldable pub scheme_compare : Pep440 → Scheme → Text → Text → Result Attempt
unfolding compare_keys
scheme_compare p pypi left right =
    compare_keys p.ordered "unsupported-pep440-form" (λ t. ok (p.parse t)) left right
scheme_compare p semantic left right =
    compare_keys pair_ordered "unsupported-semver-form" semver left right
scheme_compare p debian left right = do order ← debian_compare left right; ok (in_order order)
scheme_compare p rpm left right =
    compare_keys list_ordered "" (λ t. always (rpm_segments t)) left right
scheme_compare p maven_scheme left right =
    compare_keys pair_ordered "" (λ t. always (maven t)) left right
scheme_compare p generic left right =
    compare_keys list_ordered "unsupported-generic-version" (λ t. ok (generic_numeric t)) left right
scheme_compare p unknown left right = ok (not_supported "unsupported-ecosystem")

-- An exception of the comparison makes it invalid.
abbrev pub conclude : Result Attempt → VersionComparison
conclude (err raised) = version_comparison invalid none "invalid-version"
conclude (ok (not_supported reason)) = version_comparison unsupported none reason
conclude (ok (in_order order)) = version_comparison supported (some order) "ordered-comparison"

-- `_SAFE_VERSION_RE.fullmatch`
unfoldable pub is_safe_version : Text → Bool
is_safe_version t = not (is_empty t) && leb (length t) 160 && all is_safe t

unfoldable pub compare_texts : Pep440 → String → Text → Text → VersionComparison
unfolding is_safe_version text_eq scheme_compare
compare_texts p ecosystem left right =
    if not (is_safe_version left) || not (is_safe_version right)
    then version_comparison invalid none "version-contains-unsupported-characters"
    else if text_eq left right
    then version_comparison supported (some equal) "exact-equality"
    else conclude (scheme_compare p (scheme_of ecosystem) left right)

abbrev pub compare_normalized : Pep440 → String → Option Text → Option Text → VersionComparison
compare_normalized p ecosystem none right = version_comparison invalid none "version-missing"
compare_normalized p ecosystem (some left) none = version_comparison invalid none "version-missing"
compare_normalized p ecosystem (some left) (some right) = compare_texts p ecosystem left right

unfoldable pub compare_versions : Pep440 → String → Option Text → Option Text → VersionComparison
unfolding normalize_version_text compare_texts
compare_versions p ecosystem left_value right_value =
    compare_normalized p ecosystem (normalize_version_text left_value)
      (normalize_version_text right_value)
