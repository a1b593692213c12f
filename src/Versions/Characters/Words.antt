-- ===== src/Versions/Characters/Words.antt =====
-- The words of a text, and the text of words: `" ".join(value.split())` of
-- backend/app/component_intelligence.py changes nothing when it is done again.
use openassetwatch.Prelude.{
  ℕ, suc, ◌+◌, ◌≤◌, ◌≡◌, refl, ap, ◌∙◌, Bool, true, false, not, ◌&&◌, ◌||◌, List, [], ◌∷◌, ◌++◌,
  arith, Bool-cases, inl, inr, length, all, any,
}
use openassetwatch.Text.{Text}
use openassetwatch.Versions.Characters.{
  is_space, is_empty, starts, add_first, join_run, words, join_words,
}

abbrev pub no_space : ℕ → Bool
no_space c = not (is_space c)

-- A text without white space that is not empty.
abbrev pub is_word : Text → Bool
is_word t = not (is_empty t) && all no_space t

words-space : (c : ℕ) (cs : Text) → is_space c ≡ true → words (c ∷ cs) ≡ words cs
unfolding words
words-space c cs h = rw h refl

words-joined :
    (c d : ℕ) (cs : Text)
    → is_space c ≡ false
    → is_space d ≡ false
    → words (c ∷ d ∷ cs) ≡ add_first c (words (d ∷ cs))
unfolding words join_run
words-joined c d cs h k = rw (h, k) refl

words-ended :
    (c d : ℕ) (cs : Text)
    → is_space c ≡ false
    → is_space d ≡ true
    → words (c ∷ d ∷ cs) ≡ (c ∷ []) ∷ words cs
unfolding words join_run
words-ended c d cs h k = rw (h, k) refl

words-last : (c : ℕ) → is_space c ≡ false → words (c ∷ []) ≡ (c ∷ []) ∷ []
unfolding words join_run
words-last c h = rw h refl

add_first-is_word :
    (c : ℕ) (ts : List Text)
    → is_space c ≡ false
    → all is_word ts ≡ true
    → all is_word (add_first c ts) ≡ true
unfolding add_first
add_first-is_word c [] h k = rw h refl
add_first-is_word c (t ∷ ts) h k = ground arith

join_run-is_word :
    (c : ℕ) (cs : Text) (ts : List Text)
    → is_space c ≡ false
    → all is_word ts ≡ true
    → all is_word (join_run no_space c cs ts) ≡ true
unfolding join_run
join_run-is_word c cs ts h k = elim (Bool-cases (starts no_space cs)) [
  | inl y ↦ rw y (add_first-is_word c ts h k)
  | inr n ↦ rw (n, h) k
]

pub words-is_word : (t : Text) → all is_word (words t) ≡ true
unfolding words
words-is_word [] = refl
words-is_word (c ∷ cs) = elim (Bool-cases (is_space c)) [
  | inl y ↦ rw y (words-is_word cs)
  | inr n ↦ rw n (join_run-is_word c cs (words cs) n (words-is_word cs))
]

pub and-left : (a b : Bool) → (a && b) ≡ true → a ≡ true
and-left true b h = refl
and-left false b h = cc

and-right : (a b : Bool) → (a && b) ≡ true → b ≡ true
and-right true b h = h
and-right false b h = cc

pub not_and-left : (a b : Bool) → (not a && b) ≡ true → a ≡ false
not_and-left false b h = refl
not_and-left true b h = cc

not_and-right : (a b : Bool) → (not a && b) ≡ true → b ≡ true
not_and-right false b h = h
not_and-right true b h = cc

words-first : (w rest : Text) → is_word w ≡ true → words (w ++ 32 ∷ rest) ≡ w ∷ words rest
unfolding add_first
words-first [] rest h = cc
words-first (c ∷ []) rest h = words-ended c 32 rest (not_and-left (is_space c) _ h) refl
words-first (c ∷ d ∷ w) rest h =
    let k = not_and-right (is_space c) _ h in
    words-joined c d (w ++ 32 ∷ rest) (not_and-left (is_space c) _ h)
      (not_and-left (is_space d) _ k)
    ∙ ap (add_first c) (words-first (d ∷ w) rest k)

pub words-only : (w : Text) → is_word w ≡ true → words w ≡ w ∷ []
unfolding add_first
words-only [] h = cc
words-only (c ∷ []) h = words-last c (not_and-left (is_space c) _ h)
words-only (c ∷ d ∷ w) h =
    let k = not_and-right (is_space c) _ h in
    words-joined c d w (not_and-left (is_space c) _ h) (not_and-left (is_space d) _ k)
    ∙ ap (add_first c) (words-only (d ∷ w) k)

-- The words of joined words are these words.
pub words-join_words : (ws : List Text) → all is_word ws ≡ true → words (join_words ws) ≡ ws
unfolding join_words words
words-join_words [] h = refl
words-join_words (w ∷ []) h = words-only w (and-left (is_word w) _ h)
words-join_words (w ∷ u ∷ ws) h =
    words-first w (join_words (u ∷ ws)) (and-left (is_word w) _ h)
    ∙ ap (λ r. w ∷ r) (words-join_words (u ∷ ws) (and-right (is_word w) _ h))

-- What holds of no character of a text, and not of a blank, holds of none of the joined words'.
module _ (p : ℕ → Bool) (blank : p 32 ≡ false) where
  any-append : (v w : Text) → any p v ≡ false → any p w ≡ false → any p (v ++ w) ≡ false
  any-append [] w h k = k
  any-append (c ∷ v) w h k = ground (arith, any-append v w)

  any-join_words :
      (ws : List Text) → all (λ w. not (any p w)) ws ≡ true → any p (join_words ws) ≡ false
  unfolding join_words
  any-join_words [] h = refl
  any-join_words (w ∷ []) h = ground arith
  any-join_words (w ∷ u ∷ ws) h =
      any-append w (32 ∷ join_words (u ∷ ws)) (ground arith)
        (rw blank (any-join_words (u ∷ ws) (ground arith)))

  none_in : List Text → Bool
  none_in ts = all (λ w. not (any p w)) ts

  add_first-none :
      (c : ℕ) (ts : List Text) → p c ≡ false → none_in ts ≡ true → none_in (add_first c ts) ≡ true
  unfolding add_first none_in
  add_first-none c [] h k = rw h refl
  add_first-none c (t ∷ ts) h k = rw h k

  words-none : (t : Text) → any p t ≡ false → none_in (words t) ≡ true
  unfolding words join_run none_in
  words-none [] h = refl
  words-none (c ∷ cs) h = elim (Bool-cases (is_space c)) [
    | inl y ↦ rw y (words-none cs (ground arith))
    | inr n ↦ elim (Bool-cases (starts no_space cs)) [
      | inl z ↦
          rw (n, z) (add_first-none c (words cs) (ground arith) (words-none cs (ground arith)))
      | inr m ↦ rw (n, m) (first_none c h (words-none cs (ground arith)))
    ]
  ]
    where
      first_none :
          (c : ℕ) {rest : Bool}
          → any p (c ∷ cs) ≡ false
          → rest ≡ true
          → (not (p c || false) && rest) ≡ true
      first_none c h k = ground arith

  pub any-joined : (t : Text) → any p t ≡ false → any p (join_words (words t)) ≡ false
  unfolding none_in
  any-joined t h = any-join_words (words t) (words-none t h)

-- Joining words again never makes a text longer.
length-add_first :
    (c : ℕ) (ts : List Text) → length (join_words (add_first c ts)) ≤ suc (length (join_words ts))
unfolding join_words add_first
length-add_first c [] = omega arith
length-add_first c (t ∷ []) = omega arith
length-add_first c (t ∷ u ∷ ts) = omega arith

length-one_more :
    (c : ℕ) (ts : List Text) → length (join_words ((c ∷ []) ∷ ts)) ≤ 2 + length (join_words ts)
unfolding join_words
length-one_more c [] = omega arith
length-one_more c (t ∷ ts) = omega arith

pub length-joined : (t : Text) → length (join_words (words t)) ≤ length t
unfolding join_words words
length-joined [] = omega arith
length-joined (c ∷ []) = elim (Bool-cases (is_space c)) [
  | inl y ↦ rw (words-space c [] y) (omega (arith, length-joined []))
  | inr n ↦ rw (words-last c n) (omega arith)
]
length-joined (c ∷ d ∷ cs) = elim (Bool-cases (is_space c)) [
  | inl y ↦ rw (words-space c (d ∷ cs) y) (omega (arith, length-joined (d ∷ cs)))
  | inr n ↦ elim (Bool-cases (is_space d)) [
    | inl z ↦
        rw (words-ended c d cs n z) (omega (arith, length-one_more c (words cs), length-joined cs))
    | inr m ↦
        rw (words-joined c d cs n m)
          (omega (arith, length-add_first c (words (d ∷ cs)), length-joined (d ∷ cs)))
  ]
]
