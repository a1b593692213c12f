-- ===== src/Vulnerability/Run/Sound.antt =====
-- Every affected match of an evaluation rests on a component and a row that match.
use mathlib.Core.Path.{subst}
use mathlib.Core.List.{Memᴰ}
use openassetwatch.Prelude.{ℕ, ◌≡◌, sym, ◌∙◌, inl, inr, some, List, Bool-cases}
use openassetwatch.Temporal.Identity.{Hashing}
use openassetwatch.Temporal.Result.{ok}
use openassetwatch.Versions.Compare.{Pep440}
use openassetwatch.Versions.Range.{affected}
use openassetwatch.Vulnerability.Names.{Naming}
use openassetwatch.Vulnerability.Records.{Component, Affected, VulnerabilityMatch}
use openassetwatch.Vulnerability.Matching.{identity_match, is_unmatched, match_component}
use openassetwatch.Vulnerability.Matching.Laws.{IsVulnerable, match_component-IsVulnerable}
use openassetwatch.Vulnerability.Run.{pair_of, evaluate_matches}
use openassetwatch.Vulnerability.Run.Groups.{
  All, All-mem, All-of_mem, InGroup, add_match-All, Selected, matches_of-Selected,
}
use openassetwatch.Vulnerability.Run.Loops.{evaluate_matches-groups}

-- What a match was made of.
abbrev MadeOf :
    Hashing → Pep440 → Naming → ℕ → List Component → List Affected → VulnerabilityMatch → Type 0
MadeOf h p n now components rows m =
    (c : Component) × ((a : Affected) × (Memᴰ c components
        × (Memᴰ a rows × (match_component h p n c a now ≡ some m))))

pub match_component-pair_of :
    (h : Hashing) (p : Pep440) (n : Naming) (now : ℕ) (c : Component) (a : Affected)
    (m : VulnerabilityMatch)
    → match_component h p n c a now ≡ some m
    → pair_of m ≡ (c.component_id, a.advisory_id)
unfolding match_component
match_component-pair_of h p n now c a m e =
    elim (Bool-cases (is_unmatched (identity_match n c a).0)) [
      | inl y ↦ cc (rw y at e)
      | inr k ↦ sym (same_pairs _ (rw k at e))
    ]
  where
    same_pairs : (x : VulnerabilityMatch) → some x ≡ some m → pair_of x ≡ pair_of m
    same_pairs x e = cc

-- An affected match of an evaluation that succeeds is about a component that was evaluated and an
-- advisory with an affected record that was read, and that record makes the component vulnerable.
pub evaluate_matches-IsVulnerable :
    (h : Hashing) (p : Pep440) (n : Naming) (started_at : ℕ) (components : List Component)
    (rows : List Affected) (ms : List VulnerabilityMatch) (m : VulnerabilityMatch)
    → evaluate_matches h p n started_at components rows ≡ ok ms
    → Memᴰ m ms
    → m.match_status ≡ affected
    → (c : Component) × ((a : Affected) × (Memᴰ c components
          × (Memᴰ a rows × ((pair_of m ≡ (c.component_id, a.advisory_id)) × IsVulnerable p n c a))))
evaluate_matches-IsVulnerable h p n now components rows ms m e i s =
    let made = MadeOf h p n now components rows in
    let groups =
      evaluate_matches-groups h p n now (λ c. Memᴰ c components) (λ a. Memᴰ a rows)
        (All (InGroup made)) (λ c a x gs ic ia o. add_match-All made x gs (c, (a, (ic, (ia, o)))))
        components rows (All-of_mem _ components (λ c k. k)) (All-of_mem _ rows (λ a k. k)) tt e in
    let (x, ((c, (a, (ic, (ia, o)))), (same_status, same_ids))) =
      All-mem (Selected made) m ms
        (subst (All (Selected made)) groups.1.0 (matches_of-Selected made groups.0 groups.1.1)) i in
    (
      c,
      (
        a,
        (
          ic,
          (
            ia,
            (
              same_ids ∙ match_component-pair_of h p n now c a x o,
              (match_component-IsVulnerable h p n c a now).0 (x, (o, sym same_status ∙ s)),
            ),
          ),
        ),
      ),
    )
