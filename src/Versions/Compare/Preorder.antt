-- ===== src/Versions/Compare/Preorder.antt =====
-- The order that `compare_versions` finds is transitive, and equal versions are ordered alike.
use openassetwatch.Prelude.{
  ◌≡◌, refl, sym, ap, ◌∙◌, ◌⊎◌, inl, inr, Bool, true, false, not, ◌||◌, Option, none, some,
  if◌then◌else◌, String,
}
use openassetwatch.Text.{Text, text_eq, text_eq_refl, text_eq→eq}
use openassetwatch.Temporal.Result.{Result, ok, err}
use openassetwatch.Versions.Order.{Order, less, equal}
use openassetwatch.Versions.Characters.{normalize_version_text}
use openassetwatch.Versions.Compare.{
  Pep440, supported, invalid, VersionComparison, version_comparison, scheme_of, Attempt, in_order,
  not_supported, scheme_compare, conclude, is_safe_version, compare_texts, compare_normalized,
  compare_versions,
}
use openassetwatch.Versions.Compare.Keyed.{compare_keys-keys, compare_keys-of_keys}
use openassetwatch.Versions.Compare.Schemewise.{keys, scheme_compare-keys}
use openassetwatch.Versions.Compare.Laws.{safe-length}
use openassetwatch.Versions.Compare.Ranked.{Ranked, IsOrdered, IsOrdered-trans, IsOrdered-alike}

-- The order of two texts, and what it rests on.
abbrev texts_order : Pep440 → String → Text → Text → Option Order
texts_order p e l r = (compare_texts p e l r).order

Rests : Pep440 → String → Text → Text → Order → Type 0
Rests p e l r x =
    (is_safe_version l ≡ true)
    × ((is_safe_version r ≡ true) × IsOrdered (keys p (scheme_of e)) l r x)

conclude-order :
    (m : Result Attempt) {x : Order} → (conclude m).order ≡ some x → m ≡ ok (in_order x)
conclude-order (err e) h = cc
conclude-order (ok (not_supported s)) h = cc
conclude-order (ok (in_order o)) h = cc

-- The guards of `compare_texts`, by what they find.
unfoldable pub guarded : Bool → Bool → Bool → VersionComparison → VersionComparison
guarded y z t c =
    if not y || not z
    then version_comparison invalid none "version-contains-unsupported-characters"
    else if t
    then version_comparison supported (some equal) "exact-equality"
    else c

guarded-order :
    (y z t : Bool) (m : Result Attempt) (x : Order)
    → (guarded y z t (conclude m)).order ≡ some x
    → (y ≡ true)
      × ((z ≡ true) × (((t ≡ true) × (x ≡ equal)) ⊎ ((t ≡ false) × (m ≡ ok (in_order x)))))
unfolding guarded
guarded-order false z t m x h = cc
guarded-order true false t m x h = cc
guarded-order true true true m x h = (refl, (refl, inl (refl, cc)))
guarded-order true true false m x h = (refl, (refl, inr (refl, conclude-order m h)))

pub compare_texts-guarded :
    (p : Pep440) (e : String) (l r : Text)
    → compare_texts p e l r
      ≡ guarded
          (is_safe_version l)
          (is_safe_version r)
          (text_eq l r)
          (conclude (scheme_compare p (scheme_of e) l r))
unfolding compare_texts guarded
compare_texts-guarded p e l r = refl

texts_order-Rests :
    (p : Pep440) (e : String) (l r : Text) (x : Order)
    → texts_order p e l r ≡ some x
    → Rests p e l r x
unfolding Rests
texts_order-Rests p e l r x h =
    let (y, (z, rest)) =
      guarded-order _ _ _ _ x (ap (λ c. c.order) (sym (compare_texts-guarded p e l r)) ∙ h) in
    (
      y,
      (z, elim rest [ inl (t, g) ↦ inl (text_eq→eq l r t, g) | inr (n, g) ↦ inr (n, by_keys y g) ]),
    )
  where
    by_keys :
        is_safe_version l ≡ true
        → scheme_compare p (scheme_of e) l r ≡ ok (in_order x)
        → Ranked (keys p (scheme_of e)) l r x
    by_keys y g =
        let k = keys p (scheme_of e) in
        let (a, (b, (u, (v, w)))) =
          compare_keys-keys k.ordered k.reason k.read l r
            (sym (scheme_compare-keys p (scheme_of e) l r (safe-length l y)) ∙ g) in
        record { left_key = a; right_key = b; left_read = u; right_read = v; ranked = w }

Rests-texts_order :
    (p : Pep440) (e : String) (l r : Text) (x : Order)
    → Rests p e l r x
    → texts_order p e l r ≡ some x
unfolding Rests guarded
Rests-texts_order p e l r x (y, (z, inl (t, g))) =
    ap (λ c. c.order) (compare_texts-guarded p e l r)
    ∙ rw (y, z, ap (λ s. text_eq s r) t ∙ text_eq_refl r) (ap some (sym g))
Rests-texts_order p e l r x (y, (z, inr (n, u))) =
    ap (λ c. c.order) (compare_texts-guarded p e l r) ∙ rw (y, z, n, by_scheme) (ap some u.ranked)
  where
    by_scheme :
        scheme_compare p (scheme_of e) l r
        ≡ ok (in_order ((keys p (scheme_of e)).ordered.order u.left_key u.right_key))
    by_scheme =
        let k = keys p (scheme_of e) in
        scheme_compare-keys p (scheme_of e) l r (safe-length l y)
        ∙ compare_keys-of_keys k.ordered k.reason k.read l r u.left_key u.right_key u.left_read
            u.right_read

Rests-trans :
    (p : Pep440) (e : String) (l r c : Text)
    → Rests p e l r less
    → Rests p e r c less
    → Rests p e l c less
unfolding Rests
Rests-trans p e l r c (y, (_, u)) (_, (z, v)) =
    (y, (z, IsOrdered-trans (keys p (scheme_of e)) l r c u v))

Rests-alike :
    (p : Pep440) (e : String) (l r c : Text) (x : Order)
    → Rests p e l r equal
    → Rests p e l c x
    → Rests p e r c x
unfolding Rests
Rests-alike p e l r c x (_, (y, u)) (_, (z, v)) =
    (y, (z, IsOrdered-alike (keys p (scheme_of e)) l r c x u v))

-- The order of two values of any kind.
abbrev pub version_order : Pep440 → String → Option Text → Option Text → Option Order
version_order p e l r = (compare_versions p e l r).order

normalized_order : Pep440 → String → Option Text → Option Text → Option Order
normalized_order p e l r = (compare_normalized p e l r).order

normalized_trans :
    (p : Pep440) (e : String) (l r c : Option Text)
    → normalized_order p e l r ≡ some less
    → normalized_order p e r c ≡ some less
    → normalized_order p e l c ≡ some less
unfolding normalized_order
normalized_trans p e none r c h k = cc
normalized_trans p e (some l) none c h k = cc
normalized_trans p e (some l) (some r) none h k = cc
normalized_trans p e (some l) (some r) (some c) h k =
    Rests-texts_order p e l c less
      (Rests-trans p e l r c (texts_order-Rests p e l r less h) (texts_order-Rests p e r c less k))

normalized-alike :
    (p : Pep440) (e : String) (l r c : Option Text) (x : Order)
    → normalized_order p e l r ≡ some equal
    → normalized_order p e l c ≡ some x
    → normalized_order p e r c ≡ some x
unfolding normalized_order
normalized-alike p e none r c x h k = cc
normalized-alike p e (some l) none c x h k = cc
normalized-alike p e (some l) (some r) none x h k = cc
normalized-alike p e (some l) (some r) (some c) x h k =
    Rests-texts_order p e r c x
      (Rests-alike p e l r c x (texts_order-Rests p e l r equal h) (texts_order-Rests p e l c x k))

-- In every ecosystem the order is transitive: when the first version is below the second and the
-- second below the third, the comparison of the first with the third is supported and says below.
pub version_order_trans :
    (p : Pep440) (ecosystem : String) (left middle right : Option Text)
    → version_order p ecosystem left middle ≡ some less
    → version_order p ecosystem middle right ≡ some less
    → version_order p ecosystem left right ≡ some less
unfolding compare_versions normalized_order
version_order_trans p ecosystem left middle right =
    normalized_trans p ecosystem (normalize_version_text left) (normalize_version_text middle)
      (normalize_version_text right)

-- Versions that compare equal, textually different ones too, compare alike with every third version
-- that the first has an order with.
pub version_order-alike :
    (p : Pep440) (ecosystem : String) (left middle right : Option Text) (x : Order)
    → version_order p ecosystem left middle ≡ some equal
    → version_order p ecosystem left right ≡ some x
    → version_order p ecosystem middle right ≡ some x
unfolding compare_versions normalized_order
version_order-alike p ecosystem left middle right x =
    normalized-alike p ecosystem (normalize_version_text left) (normalize_version_text middle)
      (normalize_version_text right) x
