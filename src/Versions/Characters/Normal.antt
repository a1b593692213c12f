-- ===== src/Versions/Characters/Normal.antt =====
-- `normalize_version_text` of backend/app/component_intelligence.py: what it returns is a fixed
-- point of it.
use mathlib.Core.Path.{subst}
use openassetwatch.Prelude.{
  ℕ, zero, suc, ◌≤◌, ◌≡◌, refl, ap, Bool, true, false, not, ◌&&◌, ◌||◌, Option, none, some, List,
  [], ◌∷◌, arith, Bool-cases, inl, inr, if◌then◌else◌, length, take, all, any,
}
use openassetwatch.Text.{Text}
use openassetwatch.Versions.Characters.{
  is_space, is_control, is_empty, starts, add_first, join_run, words, join_words, bounded_text,
  normalize_version_text,
}
use openassetwatch.Versions.Characters.Words.{
  no_space, is_word, words-is_word, words-only, words-join_words, any-joined, length-joined,
  and-left, not_and-left,
}

abbrev rejoined : Text → Text
rejoined t = join_words (words t)

-- A text that the rules leave as it is.
record IsNormal (s : Text) : Type 0 where
  joined : rejoined s ≡ s
  filled : is_empty s ≡ false
  printable : any is_control s ≡ false
  short : length s ≤ 160

take-short : (k : ℕ) (s : Text) → length s ≤ k → take k s ≡ s
take-short zero [] h = refl
take-short zero (c ∷ s) h = absurd (omega arith)
take-short (suc k) [] h = refl
take-short (suc k) (c ∷ s) h = ap (λ r. c ∷ r) (take-short k s (omega (arith, h)))

length-take : (k : ℕ) (s : Text) → length (take k s) ≤ k
length-take zero s = omega arith
length-take (suc k) [] = omega arith
length-take (suc k) (c ∷ s) = omega (arith, length-take k s)

any-take : (p : ℕ → Bool) (k : ℕ) (s : Text) → any p s ≡ false → any p (take k s) ≡ false
any-take p zero s h = refl
any-take p (suc k) [] h = refl
any-take p (suc k) (c ∷ s) h = ground (arith, any-take p k s)

or-none : (a b : Bool) {x : Bool} → (a || b) ≡ false → (b ≡ false → x ≡ true) → (not a && x) ≡ true
or-none true b h k = cc
or-none false b h k = k h

all-no_space : (t : Text) → any is_space t ≡ false → all no_space t ≡ true
all-no_space [] h = refl
all-no_space (c ∷ t) h = or-none (is_space c) (any is_space t) h (all-no_space t)

any-is_word : (t : Text) → is_empty t ≡ false → any is_space t ≡ false → is_word t ≡ true
any-is_word t h k = rw h (all-no_space t k)

rejoined-again : (t : Text) → rejoined (rejoined t) ≡ rejoined t
rejoined-again t = ap join_words (words-join_words (words t) (words-is_word t))

-- A text of words starts with no white space.
starts-join_words :
    (ws : List Text) → all is_word ws ≡ true → starts is_space (join_words ws) ≡ false
unfolding join_words
starts-join_words [] h = refl
starts-join_words ([] ∷ ws) h = cc
starts-join_words ((c ∷ w) ∷ []) h = not_and-left (is_space c) _ (and-left (is_word (c ∷ w)) _ h)
starts-join_words ((c ∷ w) ∷ u ∷ ws) h =
    not_and-left (is_space c) _ (and-left (is_word (c ∷ w)) _ h)

starts-take : (k : ℕ) (t : Text) → starts is_space t ≡ false → starts is_space (take k t) ≡ false
starts-take zero t h = refl
starts-take (suc k) [] h = refl
starts-take (suc k) (c ∷ t) h = h

filled-add_first : (c : ℕ) (ts : List Text) → is_empty (join_words (add_first c ts)) ≡ false
unfolding add_first join_words
filled-add_first c [] = refl
filled-add_first c (t ∷ []) = refl
filled-add_first c (t ∷ u ∷ ts) = refl

filled-one : (c : ℕ) (ts : List Text) → is_empty (join_words ((c ∷ []) ∷ ts)) ≡ false
unfolding join_words
filled-one c [] = refl
filled-one c (t ∷ ts) = refl

filled-rejoined :
    (t : Text) → is_empty t ≡ false → starts is_space t ≡ false → is_empty (rejoined t) ≡ false
unfolding words join_run
filled-rejoined [] h k = cc
filled-rejoined (c ∷ cs) h k = elim (Bool-cases (starts no_space cs)) [
  | inl y ↦ rw (k, y) (filled-add_first c (words cs))
  | inr n ↦ rw (k, n) (filled-one c (words cs))
]

normalize-IsNormal : (s : Text) → IsNormal s → normalize_version_text (some s) ≡ some s
unfolding normalize_version_text bounded_text
normalize-IsNormal s n =
    rw (n.joined, n.filled, n.printable, take-short 160 s n.short, n.filled, n.joined)
      (same_branches (any is_space s))
  where
    same_branches : (b : Bool) → (if b then some s else some s) ≡ some s
    same_branches true = refl
    same_branches false = refl

-- What the second half of the rules makes of a cut text.
abbrev cut_text : Text → Option Text
cut_text v = if is_empty v then none else if any is_space v then some (rejoined v) else some v

IsNormal-cut_text :
    (v s : Text)
    → starts is_space v ≡ false
    → any is_control v ≡ false
    → length v ≤ 160
    → cut_text v ≡ some s
    → IsNormal s
unfolding join_words
IsNormal-cut_text v s first printable short h = elim (Bool-cases (is_empty v)) [
  | inl y ↦ cc (rw y at h)
  | inr n ↦ elim (Bool-cases (any is_space v)) [
    | inl y ↦ subst IsNormal (same_some (rw (n, y) at h)) (record {
      joined = rejoined-again v;
      filled = filled-rejoined v n first;
      printable = any-joined is_control refl v printable;
      short = omega (arith, length-joined v, short);
    })
    | inr m ↦ subst IsNormal (same_some (rw (n, m) at h)) (record {
      joined = ap join_words (words-only v (any-is_word v n m));
      filled = n;
      printable = printable;
      short = short;
    })
  ]
]
  where
    same_some : {a b : Text} → some a ≡ some b → a ≡ b
    same_some e = cc

IsNormal-normalize :
    (value : Option Text) (s : Text) → normalize_version_text value ≡ some s → IsNormal s
unfolding normalize_version_text bounded_text
IsNormal-normalize none s h = cc
IsNormal-normalize (some x) s h =
    elim (Bool-cases (is_empty (rejoined x) || any is_control (rejoined x))) [
      | inl y ↦ cc (rw y at h)
      | inr n ↦
          IsNormal-cut_text (take 160 (rejoined x)) s
            (starts-take 160 (rejoined x) (starts-join_words (words x) (words-is_word x)))
            (any-take is_control 160 (rejoined x) (second_false (is_empty (rejoined x)) _ n))
            (length-take 160 (rejoined x)) (rw n at h)
    ]
  where
    second_false : (a b : Bool) → (a || b) ≡ false → b ≡ false
    second_false true b h = cc
    second_false false b h = h

-- Normalising a version again leaves it as it is, whatever the first text was.
pub normalize_version_text-again :
    (value : Option Text) (version : Text)
    → normalize_version_text value ≡ some version
    → normalize_version_text (some version) ≡ some version
normalize_version_text-again value version h =
    normalize-IsNormal version (IsNormal-normalize value version h)
