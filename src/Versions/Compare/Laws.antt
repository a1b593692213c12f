-- ===== src/Versions/Compare/Laws.antt =====
-- `compare_versions` is a total preorder on the versions that it supports, whatever the ecosystem.
use openassetwatch.Prelude.{
  ◌≤◌, ◌≡◌, refl, inl, inr, Bool, true, false, Option, none, some, [], ◌∷◌, arith, Bool-cases,
  if◌then◌else◌, length, String,
}
use openassetwatch.Text.{Text, text_eq}
use openassetwatch.Versions.Order.{equal}
use openassetwatch.Versions.Characters.{normalize_version_text}
use openassetwatch.Versions.Compare.{
  Pep440, supported, VersionComparison, version_comparison, scheme_of, is_safe_version,
  compare_texts, compare_normalized, compare_versions,
}
use openassetwatch.Versions.Compare.Keyed.{mirrored}
use openassetwatch.Versions.Compare.Schemewise.{mirrored-scheme_compare}

pub text_eq-sym : (s t : Text) → text_eq s t ≡ text_eq t s
unfolding text_eq
text_eq-sym [] [] = refl
text_eq-sym [] (y ∷ t) = refl
text_eq-sym (x ∷ s) [] = refl
text_eq-sym (x ∷ s) (y ∷ t) = rw (text_eq-sym s t) (ground arith)

pub safe-length : (t : Text) → is_safe_version t ≡ true → length t ≤ 160
unfolding is_safe_version
safe-length t h = ground arith

compare_texts-mirrored :
    (p : Pep440) (e : String) (l r : Text)
    → compare_texts p e r l ≡ mirrored (compare_texts p e l r)
unfolding compare_texts
compare_texts-mirrored p e l r = elim (Bool-cases (is_safe_version l)) [
  | inr n ↦ elim (Bool-cases (is_safe_version r)) [
    | inr m ↦ rw (n, m) refl
    | inl z ↦ rw (n, z) refl
  ]
  | inl y ↦ elim (Bool-cases (is_safe_version r)) [
    | inr n ↦ rw (y, n) refl
    | inl z ↦
        rw (y, z, text_eq-sym r l)
          (by_equality (text_eq l r) _ _
            (mirrored-scheme_compare p (scheme_of e) l r (safe-length l y) (safe-length r z)))
  ]
]
  where
    by_equality :
        (b : Bool) (x y : VersionComparison)
        → y ≡ mirrored x
        → (if b then version_comparison supported (some equal) "exact-equality" else y)
          ≡ mirrored (if b then version_comparison supported (some equal) "exact-equality" else x)
    by_equality true x y h = refl
    by_equality false x y h = h

compare_normalized-mirrored :
    (p : Pep440) (e : String) (l r : Option Text)
    → compare_normalized p e r l ≡ mirrored (compare_normalized p e l r)
compare_normalized-mirrored p e none none = refl
compare_normalized-mirrored p e none (some r) = refl
compare_normalized-mirrored p e (some l) none = refl
compare_normalized-mirrored p e (some l) (some r) = compare_texts-mirrored p e l r

-- Exchanging the two versions keeps the status and the reason and reverses the order.
pub compare_versions-mirrored :
    (p : Pep440) (ecosystem : String) (left right : Option Text)
    → compare_versions p ecosystem right left ≡ mirrored (compare_versions p ecosystem left right)
unfolding compare_versions
compare_versions-mirrored p ecosystem left right =
    compare_normalized-mirrored p ecosystem (normalize_version_text left)
      (normalize_version_text right)
