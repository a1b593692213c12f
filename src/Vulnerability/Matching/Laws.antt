-- ===== src/Vulnerability/Matching/Laws.antt =====
-- When `match_component` reports a component as affected.
use mathlib.Core.Path.{subst}
use openassetwatch.Prelude.{
  ℕ, ◌≡◌, ◌≢◌, refl, sym, ap, ◌∙◌, inl, inr, ◌↔◌, Bool, true, false, not, ◌||◌, Option, none, some,
  List, [], ◌∷◌, ◌++◌, map, ◌=s=◌, Bool-cases, if◌then◌else◌, take, any, String,
}
use openassetwatch.Text.{Text}
use openassetwatch.Temporal.Identity.{Hashing}
use openassetwatch.Versions.Compare.{Pep440, compare_versions}
use openassetwatch.Versions.Range.{
  MatchStatus, affected, not_affected, unsupported_comparison, VersionRange, Outcome,
  version_satisfies_range,
}
use openassetwatch.Vulnerability.Names.{Naming}
use openassetwatch.Vulnerability.Records.{Component, Affected, VulnerabilityMatch}
use openassetwatch.Vulnerability.Outcomes.{
  ◌=m=◌, is_same_order, exact_status_from, exact_version_status, Described, exact_outcomes,
  range_outcomes,
}
use openassetwatch.Vulnerability.Matching.{
  constraint_applies, IdentityState, unmatched, precise, uncertain, identity_match, is_uncertain,
  is_unmatched, is_authoritative, is_outdated, is_imprecise_firmware, is_withdrawn,
  installed_version_of, unless, version_verdict, match_verdict, match_of, match_component,
}
use openassetwatch.Vulnerability.Matching.Verdict.{has_status, resolve-affected}

-- The installed version is one of the listed ones, by the order of its ecosystem.
abbrev pub is_listed : Pep440 → String → Text → List Text → Bool
is_listed p ecosystem installed exact_versions =
    any
      (λ exact.
        let comparison = compare_versions p ecosystem (some installed) (some exact) in
        is_same_order comparison.status comparison.order)
      exact_versions

-- One of the first 32 ranges affects the installed version.
abbrev pub is_in_some_range : Pep440 → String → Text → List VersionRange → Bool
is_in_some_range p ecosystem installed ranges =
    any (λ r. (version_satisfies_range p ecosystem (some installed) r).0 =m= affected)
      (take 32 ranges)

-- Everything that has to hold of a component and an affected record.
pub record IsVulnerable (p : Pep440) (n : Naming) (c : Component) (a : Affected) : Type 0 where
  pub published : is_withdrawn a ≡ false
  pub installed_now : c.active ≡ true
  pub authoritative : is_authoritative c ≡ true
  pub recent : is_outdated c.freshness ≡ false
  pub identified : (identity_match n c a).0 ≡ precise
  pub architecture : constraint_applies n c.architecture a.architectures ≡ true
  pub platform : constraint_applies n c.asset_platform a.platforms ≡ true
  pub firmware : is_imprecise_firmware c ≡ false
  pub installed : Text
  pub version : installed_version_of c.normalized_version ≡ some installed
  pub covered :
      (is_listed p c.ecosystem installed a.exact_versions
        || is_in_some_range p c.ecosystem installed a.ranges)
      ≡ true

unless-affected :
    (test : Bool) (status : MatchStatus) (reason : String) (next : Described)
    → status ≢ affected
    → (((unless test status reason next).0 ≡ affected) ↔ ((test ≡ false) × (next.0 ≡ affected)))
unless-affected true status reason next h = (λ e. absurd (h e), λ (e, _). cc e)
unless-affected false status reason next h = (λ e. (refl, e), λ (_, e). e)

abbrev is_affected : Outcome → Bool
is_affected o = o.0 =m= affected

choice-affected :
    (b : Bool) (s : String) (later : Outcome) (r : Bool)
    → is_affected later ≡ r
    → is_affected (if b then (affected, s) else later) ≡ (b || r)
choice-affected true s later r h = refl
choice-affected false s later r h = h

none-affected :
    (b : Bool) (s t : String)
    → is_affected (if b then (unsupported_comparison, s) else (not_affected, t)) ≡ false
none-affected true s t = refl
none-affected false s t = refl

exact_status_from-affected :
    (p : Pep440) (e : String) (v : Text) (es : List Text) (reason : String)
    → is_affected (exact_status_from p e v reason es) ≡ is_listed p e v es
unfolding exact_status_from
exact_status_from-affected p e v [] reason = none-affected (not (reason =s= "")) _ _
exact_status_from-affected p e v (x ∷ es) reason =
    choice-affected _ _ _ _ (exact_status_from-affected p e v es _)

pub has_status-append :
    (s : MatchStatus) (os ps : List Described)
    → has_status s (os ++ ps) ≡ (has_status s os || has_status s ps)
has_status-append s [] ps = refl
has_status-append s (o ∷ os) ps = rw (has_status-append s os ps) (sym (or_assoc (o.0 =m= s) _ _))
  where
    or_assoc : (a b c : Bool) → ((a || b) || c) ≡ (a || (b || c))
    or_assoc true b c = refl
    or_assoc false b c = refl

or_false_right : (a : Bool) → (a || false) ≡ a
or_false_right true = refl
or_false_right false = refl

pub exact_outcomes-affected :
    (p : Pep440) (e : String) (v : Text) (es : List Text)
    → has_status affected (exact_outcomes p e v es) ≡ is_listed p e v es
unfolding exact_version_status
exact_outcomes-affected p e v [] = refl
exact_outcomes-affected p e v (x ∷ es) =
    or_false_right (is_affected (exact_status_from p e v "" (x ∷ es)))
    ∙ exact_status_from-affected p e v (x ∷ es) ""

pub has_status-map :
    (s : MatchStatus) (f : VersionRange → Described) (rs : List VersionRange)
    → has_status s (map f rs) ≡ any (λ r. (f r).0 =m= s) rs
has_status-map s f [] = refl
has_status-map s f (r ∷ rs) = ap (λ b. ((f r).0 =m= s) || b) (has_status-map s f rs)

outcomes-affected :
    (p : Pep440) (e : String) (a : Affected) (v : Text)
    → has_status affected (exact_outcomes p e v a.exact_versions ++ range_outcomes p e v a.ranges)
      ≡ (is_listed p e v a.exact_versions || is_in_some_range p e v a.ranges)
outcomes-affected p e a v =
    has_status-append affected (exact_outcomes p e v a.exact_versions)
      (range_outcomes p e v a.ranges)
    ∙ ap (λ b. b || has_status affected (range_outcomes p e v a.ranges))
        (exact_outcomes-affected p e v a.exact_versions)
    ∙ ap (λ b. is_listed p e v a.exact_versions || b) (has_status-map affected _ (take 32 a.ranges))

version_verdict-affected :
    (p : Pep440) (e : String) (a : Affected) (v : Text)
    → ((version_verdict p e a (some v)).0 ≡ affected)
      ↔ ((is_listed p e v a.exact_versions || is_in_some_range p e v a.ranges) ≡ true)
version_verdict-affected p e a v =
    subst (λ b. (((version_verdict p e a (some v)).0 ≡ affected) ↔ (b ≡ true)))
      (outcomes-affected p e a v)
      (resolve-affected (exact_outcomes p e v a.exact_versions ++ range_outcomes p e v a.ranges))

-- A verdict on a known version, or none.
version_verdict-some :
    (p : Pep440) (e : String) (a : Affected) (version : Option Text)
    → (version_verdict p e a version).0 ≡ affected
    → (v : Text) × ((version ≡ some v)
        × ((is_listed p e v a.exact_versions || is_in_some_range p e v a.ranges) ≡ true))
version_verdict-some p e a none h = cc
version_verdict-some p e a (some v) h = (v, (refl, (version_verdict-affected p e a v).0 h))

not-eq_false : (b : Bool) → not b ≡ false → b ≡ true
not-eq_false true h = refl
not-eq_false false h = cc

not-eq_true : (b : Bool) → b ≡ true → not b ≡ false
not-eq_true b h = rw h refl

certain : (i : IdentityState) → is_unmatched i ≡ false → is_uncertain i ≡ false → i ≡ precise
certain unmatched h k = cc
certain precise h k = refl
certain uncertain h k = cc

match_verdict-IsVulnerable :
    (p : Pep440) (n : Naming) (c : Component) (a : Affected)
    → is_unmatched (identity_match n c a).0 ≡ false
    → (match_verdict p n c a (identity_match n c a).0).0 ≡ affected
    → IsVulnerable p n c a
unfolding match_verdict
match_verdict-IsVulnerable p n c a known h =
    let (published, h) = (unless-affected _ _ _ _ (λ x. cc x)).0 h in
    let (active, h) = (unless-affected _ _ _ _ (λ x. cc x)).0 h in
    let (authoritative, h) = (unless-affected _ _ _ _ (λ x. cc x)).0 h in
    let (recent, h) = (unless-affected _ _ _ _ (λ x. cc x)).0 h in
    let (identified, h) = (unless-affected _ _ _ _ (λ x. cc x)).0 h in
    let (architecture, h) = (unless-affected _ _ _ _ (λ x. cc x)).0 h in
    let (platform, h) = (unless-affected _ _ _ _ (λ x. cc x)).0 h in
    let (firmware, h) = (unless-affected _ _ _ _ (λ x. cc x)).0 h in
    let (v, (version, covered)) = version_verdict-some p c.ecosystem a _ h in
    record {
      published = published;
      installed_now = not-eq_false _ active;
      authoritative = not-eq_false _ authoritative;
      recent = recent;
      identified = certain _ known identified;
      architecture = not-eq_false _ architecture;
      platform = not-eq_false _ platform;
      firmware = firmware;
      installed = v;
      version = version;
      covered = covered;
    }

IsVulnerable-match_verdict :
    (p : Pep440) (n : Naming) (c : Component) (a : Affected)
    → IsVulnerable p n c a
    → (match_verdict p n c a (identity_match n c a).0).0 ≡ affected
unfolding match_verdict identity_match
IsVulnerable-match_verdict p n c a u =
    rw
      (
        u.published, u.installed_now, u.authoritative, u.recent, u.identified, u.architecture,
        u.platform, u.firmware, u.version,
      )
      ((version_verdict-affected p c.ecosystem a u.installed).1 u.covered)

-- A candidate is reported as affected exactly when the advisory stands, the component is installed,
-- its source authoritative and its evidence recent, the identity precise, both constraints apply, a
-- firmware's evidence is precise, and the installed version is known and either listed or within one
-- of the first 32 ranges.
pub match_component-IsVulnerable :
    (h : Hashing) (p : Pep440) (n : Naming) (c : Component) (a : Affected) (evaluated_at : ℕ)
    → ((m : VulnerabilityMatch) × ((match_component h p n c a evaluated_at ≡ some m)
          × (m.match_status ≡ affected)))
      ↔ IsVulnerable p n c a
unfolding match_component
match_component-IsVulnerable h p n c a t = (λ (m, (e, s)). reported m e s, λ u. vulnerable u)
  where
    same_status :
        (x : VulnerabilityMatch) {m : VulnerabilityMatch}
        → some x ≡ some m
        → x.match_status ≡ m.match_status
    same_status x e = cc

    reported :
        (m : VulnerabilityMatch)
        → match_component h p n c a t ≡ some m
        → m.match_status ≡ affected
        → IsVulnerable p n c a
    reported m e s = elim (Bool-cases (is_unmatched (identity_match n c a).0)) [
      | inl y ↦ cc (rw y at e)
      | inr k ↦ match_verdict-IsVulnerable p n c a k (same_status _ (rw k at e) ∙ s)
    ]

    vulnerable :
        IsVulnerable p n c a
        → (m : VulnerabilityMatch) × ((match_component h p n c a t ≡ some m)
            × (m.match_status ≡ affected))
    vulnerable u = (
      match_of h c a t (identity_match n c a) (match_verdict p n c a (identity_match n c a).0),
      (
        ap
            (λ i.
              if is_unmatched i
              then none
              else some (
                  match_of h c a t (identity_match n c a)
                    (match_verdict p n c a (identity_match n c a).0)))
            u.identified,
        IsVulnerable-match_verdict p n c a u,
      ),
    )
