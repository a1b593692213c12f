-- ===== src/Vulnerability/Run/Groups.antt =====
-- What holds of every match that goes into the groups holds of every aggregated match.
use mathlib.Core.List.{Memᴰ}
use mathlib.Core.Path.{subst}
use openassetwatch.Prelude.{
  ◌≡◌, refl, sym, inl, inr, Bool, true, false, List, [], ◌∷◌, ◌++◌, map, Bool-cases, filter,
  if◌then◌else◌,
}
use openassetwatch.Vulnerability.Records.{VulnerabilityMatch}
use openassetwatch.Vulnerability.Evaluation.{key_less, greatest_from, aggregate_advisory_matches}
use openassetwatch.Vulnerability.Run.{
  pair_of, same_pair, Group, add_match, insert_group, sorted_groups, aggregated, matches_of,
  pair_less,
}

-- A predicate of every element.
module _ {ℓ κ} {A : Type ℓ} (P : A → Type κ) where
  abbrev pub All : List A → Type κ
  All [] = Unit
  All (x ∷ xs) = P x × All xs

  pub All-append : (xs ys : List A) → All xs → All ys → All (xs ++ ys)
  All-append [] ys h k = k
  All-append (x ∷ xs) ys (a, h) k = (a, All-append xs ys h k)

  pub All-filter : (b : A → Bool) (xs : List A) → All xs → All (filter b xs)
  All-filter b [] h = tt
  All-filter b (x ∷ xs) (a, h) = elim (Bool-cases (b x)) [
    | inl y ↦ rw y (a, All-filter b xs h)
    | inr n ↦ rw n (All-filter b xs h)
  ]

  pub All-mem : (x : A) (xs : List A) → All xs → Memᴰ x xs → P x
  All-mem x [] h m = elim m [ ]
  All-mem x (y ∷ xs) (a, h) (Memᴰ.head e) = subst P (sym e) a
  All-mem x (y ∷ xs) (a, h) (Memᴰ.tail m) = All-mem x xs h m

  pub All-of_mem : (xs : List A) → ((x : A) → Memᴰ x xs → P x) → All xs
  All-of_mem [] h = tt
  All-of_mem (x ∷ xs) h = (h x (Memᴰ.head refl), All-of_mem xs (λ y m. h y (Memᴰ.tail m)))

-- A property of matches.
module _ {κ} (P : VulnerabilityMatch → Type κ) where
  abbrev pub InGroup : Group → Type κ
  InGroup g = P g.1.0 × All P g.1.1

  pub add_match-All :
      (m : VulnerabilityMatch) (gs : List Group)
      → P m
      → All InGroup gs
      → All InGroup (add_match m gs)
  unfolding add_match
  add_match-All m [] h k = ((h, tt), tt)
  add_match-All m ((k, (x, xs)) ∷ rest) h ((a, b), c) =
      elim (Bool-cases (same_pair k (pair_of m))) [
        | inl y ↦ rw y ((a, All-append P xs (m ∷ []) b (h, tt)), c)
        | inr n ↦ rw n ((a, b), add_match-All m rest h c)
      ]

  insert_group-All :
      (g : Group) (gs : List Group) → InGroup g → All InGroup gs → All InGroup (insert_group g gs)
  unfolding insert_group
  insert_group-All g [] h k = (h, tt)
  insert_group-All g (x ∷ xs) h (a, k) = elim (Bool-cases (pair_less x.0 g.0)) [
    | inl y ↦ rw y (a, insert_group-All g xs h k)
    | inr n ↦ rw n (h, (a, k))
  ]

  sorted_groups-All : (gs : List Group) → All InGroup gs → All InGroup (sorted_groups gs)
  unfolding sorted_groups
  sorted_groups-All [] h = tt
  sorted_groups-All (g ∷ gs) (a, h) =
      insert_group-All g (sorted_groups gs) a (sorted_groups-All gs h)

  greatest_from-All :
      (ms : List VulnerabilityMatch) (m : VulnerabilityMatch)
      → P m
      → All P ms
      → P (greatest_from m ms)
  unfolding greatest_from
  greatest_from-All [] m h k = h
  greatest_from-All (x ∷ ms) m h (a, k) = greatest_from-All ms _ (either (key_less m x)) k
    where
      either : (b : Bool) → P (if b then x else m)
      either true = a
      either false = h

  -- The matches that come out, but for their evidence and reasons.
  abbrev pub Selected : VulnerabilityMatch → Type κ
  Selected m =
      (x : VulnerabilityMatch) × (P x
        × ((m.match_status ≡ x.match_status) × (pair_of m ≡ pair_of x)))

  aggregated-Selected : (g : Group) → InGroup g → Selected (aggregated g)
  unfolding aggregate_advisory_matches
  aggregated-Selected (k, (x, xs)) (a, h) =
      (greatest_from x xs, (greatest_from-All xs x a h, (refl, refl)))

  map-Selected : (gs : List Group) → All InGroup gs → All Selected (map aggregated gs)
  map-Selected [] h = tt
  map-Selected (g ∷ gs) (a, h) = (aggregated-Selected g a, map-Selected gs h)

  pub matches_of-Selected : (gs : List Group) → All InGroup gs → All Selected (matches_of gs)
  unfolding matches_of
  matches_of-Selected gs h = map-Selected (sorted_groups gs) (sorted_groups-All gs h)
