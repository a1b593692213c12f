-- ===== src/Vulnerability/Run/Reported.antt =====
-- Groups that hold an affected match of a pair, and the matches that come of them.
use openassetwatch.Prelude.{
  ◌≡◌, refl, ap, ◌∙◌, inl, inr, Bool, true, false, ◌&&◌, ◌||◌, List, [], ◌∷◌, ◌++◌, map, Bool-cases,
  any,
}
use openassetwatch.Text.{text_eq_refl}
use openassetwatch.Versions.Range.{affected}
use openassetwatch.Vulnerability.Records.{VulnerabilityMatch}
use openassetwatch.Vulnerability.Evaluation.Selection.{
  is_affected_match, aggregate_advisory_matches-affected,
}
use openassetwatch.Vulnerability.Run.{
  Pair, pair_of, same_pair, Group, add_match, pair_less, insert_group, sorted_groups, aggregated,
  matches_of,
}
use openassetwatch.Vulnerability.Run.Groups.{All}
use openassetwatch.Vulnerability.Run.Distinct.{Keyed, sorted_groups-Keyed, aggregated-pair_of}

-- A group of a pair that holds an affected match.
abbrev pub reports : Pair → Group → Bool
reports k g = same_pair g.0 k && any is_affected_match (g.1.0 ∷ g.1.1)

abbrev pub Reported : Pair → List Group → Type 0
Reported k gs = any (reports k) gs ≡ true

or_left : (a b : Bool) → a ≡ true → (a || b) ≡ true
or_left a b h = rw h refl

or_right : (a b : Bool) → b ≡ true → (a || b) ≡ true
or_right true b h = refl
or_right false b h = h

or_cases :
    (a b c d : Bool)
    → (a || b) ≡ true
    → (a ≡ true → c ≡ true)
    → (b ≡ true → d ≡ true)
    → (c || d) ≡ true
or_cases true b c d h f g = or_left c d (f refl)
or_cases false b c d h f g = or_right c d (g h)

and_mono : (a b c : Bool) → (b ≡ true → c ≡ true) → (a && b) ≡ true → (a && c) ≡ true
and_mono true b c f h = f h
and_mono false b c f h = cc

any_more :
    (xs : List VulnerabilityMatch) (ys : List VulnerabilityMatch)
    → any is_affected_match xs ≡ true
    → any is_affected_match (xs ++ ys) ≡ true
any_more [] ys h = cc
any_more (x ∷ xs) ys h = or_cases _ _ _ _ h (λ e. e) (any_more xs ys)

any_last :
    (xs : List VulnerabilityMatch) (m : VulnerabilityMatch)
    → is_affected_match m ≡ true
    → any is_affected_match (xs ++ m ∷ []) ≡ true
any_last [] m h = or_left (is_affected_match m) false h
any_last (x ∷ xs) m h = or_right (is_affected_match x) _ (any_last xs m h)

same_pair_self : (k : Pair) → same_pair k k ≡ true
same_pair_self (s, t) = rw (text_eq_refl s, text_eq_refl t) refl

pub add_match-Reported :
    (k : Pair) (m : VulnerabilityMatch) (gs : List Group)
    → Reported k gs
    → Reported k (add_match m gs)
unfolding add_match
add_match-Reported k m [] h = cc
add_match-Reported k m ((l, (x, xs)) ∷ gs) h = elim (Bool-cases (same_pair l (pair_of m))) [
  | inl y ↦ rw y (
      or_cases _ _ _ _ h (λ e. and_mono (same_pair l k) _ _ (any_more (x ∷ xs) (m ∷ [])) e)
        (λ e. e))
  | inr n ↦ rw n (or_cases _ _ _ _ h (λ e. e) (add_match-Reported k m gs))
]

pub add_match-adds :
    (m : VulnerabilityMatch) (gs : List Group)
    → is_affected_match m ≡ true
    → Reported (pair_of m) (add_match m gs)
unfolding add_match
add_match-adds m [] h = rw (same_pair_self (pair_of m), h) refl
add_match-adds m ((l, (x, xs)) ∷ gs) h = elim (Bool-cases (same_pair l (pair_of m))) [
  | inl y ↦ rw (y, y) (or_left _ _ (any_last (x ∷ xs) m h))
  | inr n ↦ rw n (or_right _ _ (add_match-adds m gs h))
]

insert_group-Reported :
    (k : Pair) (g : Group) (gs : List Group)
    → any (reports k) (insert_group g gs) ≡ any (reports k) (g ∷ gs)
unfolding insert_group
insert_group-Reported k g [] = refl
insert_group-Reported k g (x ∷ gs) = elim (Bool-cases (pair_less x.0 g.0)) [
  | inl y ↦ rw (y, insert_group-Reported k g gs) (or_swap (reports k x) (reports k g) _)
  | inr n ↦ rw n refl
]
  where
    or_swap : (a b c : Bool) → (a || (b || c)) ≡ (b || (a || c))
    or_swap true true c = refl
    or_swap true false c = refl
    or_swap false b c = refl

sorted_groups-Reported :
    (k : Pair) (gs : List Group) → any (reports k) (sorted_groups gs) ≡ any (reports k) gs
unfolding sorted_groups
sorted_groups-Reported k [] = refl
sorted_groups-Reported k (g ∷ gs) =
    insert_group-Reported k g (sorted_groups gs)
    ∙ ap (λ b. reports k g || b) (sorted_groups-Reported k gs)

-- A match of a pair that says affected.
abbrev pub reports_affected : Pair → VulnerabilityMatch → Bool
reports_affected k m = same_pair (pair_of m) k && is_affected_match m

aggregated-reports :
    (k : Pair) (g : Group)
    → (pair_of g.1.0 ≡ g.0) × All (λ m. pair_of m ≡ g.0) g.1.1
    → reports_affected k (aggregated g) ≡ reports k g
aggregated-reports k g own =
    ap (λ l. same_pair l k && is_affected_match (aggregated g)) (aggregated-pair_of g own)
    ∙ ap (λ b. same_pair g.0 k && b) (aggregate_advisory_matches-affected g.1.0 g.1.1)

map-Reported :
    (k : Pair) (gs : List Group)
    → Keyed gs
    → any (reports_affected k) (map aggregated gs) ≡ any (reports k) gs
map-Reported k [] h = refl
map-Reported k (g ∷ gs) (own, (_, h)) =
    ap (λ b. b || any (reports_affected k) (map aggregated gs)) (aggregated-reports k g own)
    ∙ ap (λ b. reports k g || b) (map-Reported k gs h)

pub matches_of-Reported :
    (k : Pair) (gs : List Group)
    → Keyed gs
    → Reported k gs
    → any (reports_affected k) (matches_of gs) ≡ true
unfolding matches_of
matches_of-Reported k gs h r =
    map-Reported k (sorted_groups gs) (sorted_groups-Keyed gs h) ∙ sorted_groups-Reported k gs ∙ r

pub affected-match :
    (m : VulnerabilityMatch) → m.match_status ≡ affected → is_affected_match m ≡ true
affected-match m h = rw h refl
