-- ===== src/Vulnerability/Run/Distinct.antt =====
-- An evaluation returns one match for each component and advisory.
use mathlib.Core.Path.{subst}
use openassetwatch.Prelude.{
  ℕ, ◌≡◌, refl, sym, ap, ◌∙◌, inl, inr, Bool, true, false, ◌&&◌, List, [], ◌∷◌, map, Bool-cases,
  if◌then◌else◌,
}
use openassetwatch.Text.{text_eq, text_eq→eq}
use openassetwatch.Temporal.Identity.{Hashing}
use openassetwatch.Temporal.Result.{ok}
use openassetwatch.Versions.Compare.{Pep440}
use openassetwatch.Versions.Compare.Laws.{text_eq-sym}
use openassetwatch.Vulnerability.Names.{Naming}
use openassetwatch.Vulnerability.Records.{Component, Affected, VulnerabilityMatch}
use openassetwatch.Vulnerability.Evaluation.{greatest_from, key_less, aggregate_advisory_matches}
use openassetwatch.Vulnerability.Run.{
  Pair, pair_of, same_pair, Group, add_match, pair_less, insert_group, sorted_groups, aggregated,
  matches_of, evaluate_matches,
}
use openassetwatch.Vulnerability.Run.Groups.{All, All-append, All-of_mem}
use openassetwatch.Vulnerability.Run.Loops.{evaluate_matches-groups}

-- Apart from the key of every group.
abbrev pub Fresh : Pair → List Group → Type 0
Fresh k gs = All (λ g. same_pair k g.0 ≡ false) gs

-- The keys differ, and each is the pair of all the matches of its group.
abbrev pub Keyed : List Group → Type 0
Keyed [] = Unit
Keyed ((k, (x, xs)) ∷ gs) =
    ((pair_of x ≡ k) × All (λ m. pair_of m ≡ k) xs) × (Fresh k gs × Keyed gs)

pub same_pair→eq : (k l : Pair) → same_pair k l ≡ true → k ≡ l
same_pair→eq (s, t) (u, v) h =
    cc (text_eq→eq s u (both_left (text_eq s u) _ h), text_eq→eq t v (both_right (text_eq s u) _ h))
  where
    both_left : (a b : Bool) → (a && b) ≡ true → a ≡ true
    both_left true b h = refl
    both_left false b h = cc

    both_right : (a b : Bool) → (a && b) ≡ true → b ≡ true
    both_right true b h = h
    both_right false b h = cc

same_pair-sym : (k l : Pair) → same_pair k l ≡ same_pair l k
same_pair-sym (s, t) (u, v) = rw (text_eq-sym s u, text_eq-sym t v) refl

add_match-Fresh :
    (k : Pair) (m : VulnerabilityMatch) (gs : List Group)
    → same_pair k (pair_of m) ≡ false
    → Fresh k gs
    → Fresh k (add_match m gs)
unfolding add_match
add_match-Fresh k m [] h f = (h, tt)
add_match-Fresh k m ((l, (x, xs)) ∷ gs) h (a, f) = elim (Bool-cases (same_pair l (pair_of m))) [
  | inl y ↦ rw y (a, f)
  | inr n ↦ rw n (a, add_match-Fresh k m gs h f)
]

pub add_match-Keyed : (m : VulnerabilityMatch) (gs : List Group) → Keyed gs → Keyed (add_match m gs)
unfolding add_match
add_match-Keyed m [] h = ((refl, tt), (tt, tt))
add_match-Keyed m ((l, (x, xs)) ∷ gs) ((a, b), (f, h)) =
    elim (Bool-cases (same_pair l (pair_of m))) [
      | inl y ↦ rw y (
        (a, All-append (λ z. pair_of z ≡ l) xs (m ∷ []) b (sym (same_pair→eq l (pair_of m) y), tt)),
        (f, h),
      )
      | inr n ↦ rw n ((a, b), (add_match-Fresh l m gs n f, add_match-Keyed m gs h))
    ]

insert_group-Fresh :
    (k : Pair) (g : Group) (gs : List Group)
    → same_pair k g.0 ≡ false
    → Fresh k gs
    → Fresh k (insert_group g gs)
unfolding insert_group
insert_group-Fresh k g [] h f = (h, tt)
insert_group-Fresh k g (x ∷ gs) h (a, f) = elim (Bool-cases (pair_less x.0 g.0)) [
  | inl y ↦ rw y (a, insert_group-Fresh k g gs h f)
  | inr n ↦ rw n (h, (a, f))
]

insert_group-Keyed : (g : Group) (gs : List Group) → Keyed (g ∷ gs) → Keyed (insert_group g gs)
unfolding insert_group
insert_group-Keyed g [] h = h
insert_group-Keyed g (x ∷ gs) (own, ((a, f), (other, (fx, h)))) =
    elim (Bool-cases (pair_less x.0 g.0)) [
      | inl y ↦ rw y (
        other,
        (
          insert_group-Fresh x.0 g gs (same_pair-sym x.0 g.0 ∙ a) fx,
          insert_group-Keyed g gs (own, (f, h)),
        ),
      )
      | inr n ↦ rw n (own, ((a, f), (other, (fx, h))))
    ]

sorted_groups-Fresh : (k : Pair) (gs : List Group) → Fresh k gs → Fresh k (sorted_groups gs)
unfolding sorted_groups
sorted_groups-Fresh k [] f = tt
sorted_groups-Fresh k (g ∷ gs) (a, f) =
    insert_group-Fresh k g (sorted_groups gs) a (sorted_groups-Fresh k gs f)

pub sorted_groups-Keyed : (gs : List Group) → Keyed gs → Keyed (sorted_groups gs)
unfolding sorted_groups
sorted_groups-Keyed [] h = tt
sorted_groups-Keyed (g ∷ gs) (own, (f, h)) =
    insert_group-Keyed g (sorted_groups gs)
      (own, (sorted_groups-Fresh g.0 gs f, sorted_groups-Keyed gs h))

greatest_from-pair_of :
    (k : Pair) (ms : List VulnerabilityMatch) (m : VulnerabilityMatch)
    → pair_of m ≡ k
    → All (λ x. pair_of x ≡ k) ms
    → pair_of (greatest_from m ms) ≡ k
unfolding greatest_from
greatest_from-pair_of k [] m h a = h
greatest_from-pair_of k (x ∷ ms) m h (b, a) = greatest_from-pair_of k ms _ (either (key_less m x)) a
  where
    either : (c : Bool) → pair_of (if c then x else m) ≡ k
    either true = b
    either false = h

-- No later match is about the same component and advisory.
abbrev pub DistinctPairs : List VulnerabilityMatch → Type 0
DistinctPairs [] = Unit
DistinctPairs (m ∷ ms) = All (λ x. same_pair (pair_of m) (pair_of x) ≡ false) ms × DistinctPairs ms

pub aggregated-pair_of :
    (g : Group)
    → (pair_of g.1.0 ≡ g.0) × All (λ m. pair_of m ≡ g.0) g.1.1
    → pair_of (aggregated g) ≡ g.0
unfolding aggregate_advisory_matches
aggregated-pair_of (k, (x, xs)) (a, b) = greatest_from-pair_of k xs x a b

map-Fresh :
    (k : Pair) (gs : List Group)
    → Fresh k gs
    → Keyed gs
    → All (λ x. same_pair k (pair_of x) ≡ false) (map aggregated gs)
map-Fresh k [] f h = tt
map-Fresh k (g ∷ gs) (a, f) (own, (_, h)) =
    (ap (same_pair k) (aggregated-pair_of g own) ∙ a, map-Fresh k gs f h)

map-DistinctPairs : (gs : List Group) → Keyed gs → DistinctPairs (map aggregated gs)
map-DistinctPairs [] h = tt
map-DistinctPairs (g ∷ gs) (own, (f, h)) = (
  subst (λ k. All (λ x. same_pair k (pair_of x) ≡ false) (map aggregated gs))
      (sym (aggregated-pair_of g own)) (map-Fresh g.0 gs f h),
  map-DistinctPairs gs h,
)

matches_of-DistinctPairs : (gs : List Group) → Keyed gs → DistinctPairs (matches_of gs)
unfolding matches_of
matches_of-DistinctPairs gs h = map-DistinctPairs (sorted_groups gs) (sorted_groups-Keyed gs h)

-- An evaluation that succeeds returns at most one match for each component and advisory.
pub evaluate_matches-DistinctPairs :
    (h : Hashing) (p : Pep440) (n : Naming) (started_at : ℕ) (components : List Component)
    (rows : List Affected) (ms : List VulnerabilityMatch)
    → evaluate_matches h p n started_at components rows ≡ ok ms
    → DistinctPairs ms
evaluate_matches-DistinctPairs h p n now components rows ms e =
    let (gs, (same, keyed)) =
      evaluate_matches-groups h p n now (λ c. Unit) (λ a. Unit) Keyed
        (λ c a m gs _ _ _ k. add_match-Keyed m gs k) components rows
        (All-of_mem _ components (λ _ _. tt)) (All-of_mem _ rows (λ _ _. tt)) tt e in
    subst DistinctPairs same (matches_of-DistinctPairs gs keyed)
