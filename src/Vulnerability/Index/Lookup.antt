-- ===== src/Vulnerability/Index/Lookup.antt =====
-- Looking a key up in the index gives the rows that have it, in their order.
use openassetwatch.Prelude.{
  ◌≡◌, refl, sym, ap, ◌∙◌, Bool, true, false, not, ◌&&◌, List, [], ◌∷◌, ◌++◌, ◌=s=◌, eq_iff,
  Bool-cases, inl, inr, if◌then◌else◌, filter,
}
use openassetwatch.Text.{text_eq_refl, text_eq→eq}
use openassetwatch.Versions.Characters.{is_empty}
use openassetwatch.Vulnerability.Records.{Affected}
use openassetwatch.Vulnerability.Index.{
  Key, same_key, Index, append_at, lookup, identifier_key, name_key, append_if, index_from,
  candidate_index,
}

same_key→eq : (k l : Key) → same_key k l ≡ true → k ≡ l
same_key→eq (s, t) (u, v) h =
    cc ((eq_iff s u).0 (both_left (s =s= u) _ h), text_eq→eq t v (both_right (s =s= u) _ h))
  where
    both_left : (a b : Bool) → (a && b) ≡ true → a ≡ true
    both_left true b h = refl
    both_left false b h = cc

    both_right : (a b : Bool) → (a && b) ≡ true → b ≡ true
    both_right true b h = h
    both_right false b h = cc

same_key_self : (k : Key) → same_key k k ≡ true
same_key_self (s, t) = rw ((eq_iff s s).1 refl, text_eq_refl t) refl

same_key-apart : (m k l : Key) → same_key m k ≡ false → same_key m l ≡ true → same_key k l ≡ false
same_key-apart m k l h e = elim (Bool-cases (same_key k l)) [
  | inr n ↦ n
  | inl y ↦ absurd (
      true_false (
        sym (same_key_self m)
        ∙ ap (λ x. same_key m x) (same_key→eq m l e ∙ sym (same_key→eq k l y))
        ∙ h))
]
  where
    true_false : true ≡ false → ⊥
    true_false x = cc

lookup-append_at :
    (k l : Key) (item : Affected) (index : Index)
    → lookup l (append_at k item index)
      ≡ (if same_key k l then lookup l index ++ item ∷ [] else lookup l index)
unfolding lookup append_at
lookup-append_at k l item [] = refl
lookup-append_at k l item ((m, items) ∷ rest) = elim (Bool-cases (same_key m k)) [
  | inl y ↦ rw (y, ← same_key→eq m k y) (at_place (same_key m l) items (lookup l rest))
  | inr n ↦ elim (Bool-cases (same_key m l)) [
    | inl z ↦ rw (n, z, same_key-apart m k l n z) refl
    | inr w ↦ rw (n, w) (lookup-append_at k l item rest)
  ]
]
  where
    at_place :
        (b : Bool) (items later : List Affected)
        → (if b then items ++ item ∷ [] else later)
          ≡ (if b then (if b then items else later) ++ item ∷ [] else if b then items else later)
    at_place true items later = refl
    at_place false items later = refl

-- A row that has a key, with a text that is not empty.
abbrev pub has_key : (Affected → Key) → Key → Affected → Bool
has_key key l a = not (is_empty (key a).1) && same_key (key a) l

append_assoc : (xs ys zs : List Affected) → (xs ++ ys) ++ zs ≡ xs ++ (ys ++ zs)
append_assoc [] ys zs = refl
append_assoc (x ∷ xs) ys zs = ap (λ l. x ∷ l) (append_assoc xs ys zs)

-- Appending a row, then further ones.
lookup-append_if :
    (key : Affected → Key) (l : Key) (item : Affected) (index : Index) (rest : List Affected)
    → lookup l (append_if (key item) item index) ++ rest
      ≡ lookup l index ++ (if has_key key l item then item ∷ rest else rest)
lookup-append_if key l item index rest = elim (Bool-cases (is_empty (key item).1)) [
  | inl y ↦ rw y refl
  | inr n ↦ elim (Bool-cases (same_key (key item) l)) [
    | inl z ↦
        rw (n, lookup-append_at (key item) l item index, z)
          (append_assoc (lookup l index) (item ∷ []) rest)
    | inr w ↦ rw (n, lookup-append_at (key item) l item index, w) refl
  ]
]

index_from-lookup :
    (rows : List Affected) (by_identifier by_name : Index) (l : Key)
    → (lookup l (index_from (by_identifier, by_name) rows).0
        ≡ lookup l by_identifier ++ filter (has_key identifier_key l) rows)
      × (lookup l (index_from (by_identifier, by_name) rows).1
          ≡ lookup l by_name ++ filter (has_key name_key l) rows)
unfolding index_from
index_from-lookup [] bi bn l = (sym (append_nil (lookup l bi)), sym (append_nil (lookup l bn)))
  where
    append_nil : (xs : List Affected) → xs ++ [] ≡ xs
    append_nil [] = refl
    append_nil (x ∷ xs) = ap (λ l. x ∷ l) (append_nil xs)
index_from-lookup (a ∷ rows) bi bn l =
    let (h, k) =
      index_from-lookup rows (append_if (identifier_key a) a bi) (append_if (name_key a) a bn) l in
    (
      h ∙ lookup-append_if identifier_key l a bi (filter (has_key identifier_key l) rows),
      k ∙ lookup-append_if name_key l a bn (filter (has_key name_key l) rows),
    )

-- Both indexes hold, under every key, exactly the rows that have the key, in the rows' order.
pub candidate_index-lookup :
    (rows : List Affected) (l : Key)
    → (lookup l (candidate_index rows).0 ≡ filter (has_key identifier_key l) rows)
      × (lookup l (candidate_index rows).1 ≡ filter (has_key name_key l) rows)
unfolding candidate_index lookup
candidate_index-lookup rows l = index_from-lookup rows [] [] l
