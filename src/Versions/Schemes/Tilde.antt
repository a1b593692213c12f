-- ===== src/Versions/Schemes/Tilde.antt =====
-- Where RPM's keys put a tilde: `_rpm_segments` of backend/app/version_intelligence.py.
use openassetwatch.Prelude.{
  ℕ, suc, ◌+◌, ◌≤◌, ◌≡◌, refl, ap, Bool, true, false, ◌||◌, List, [], ◌∷◌, ◌++◌, map, arith, ltb,
  ◌==◌, Bool-cases, inl, inr, length, any, length-append,
}
use openassetwatch.Text.{Text}
use openassetwatch.Temporal.Result.{ok}
use openassetwatch.Versions.Order.{less}
use openassetwatch.Versions.Order.Tuples.{list_order, list_ordered}
use openassetwatch.Versions.Characters.{is_digit, is_letter, starts, add_first, join_run, tokens}
use openassetwatch.Versions.Schemes.{Part, part_ordered, epoch}
use openassetwatch.Versions.Schemes.Rpm.{
  is_colon, split_epoch, rpm_segment, rpm_segments_from, rpm_segments,
}

abbrev is_tilde : ℕ → Bool
is_tilde c = c == b'~'

abbrev rpm_tokens : Text → List Text
rpm_tokens t = tokens is_tilde t

NonEmpty : List Text → Type 0
NonEmpty [] = ⊥
NonEmpty (t ∷ ts) = Unit

add_first-NonEmpty : (c : ℕ) (ts : List Text) → NonEmpty (add_first c ts)
unfolding add_first NonEmpty
add_first-NonEmpty c [] = tt
add_first-NonEmpty c (t ∷ ts) = tt

join_run-NonEmpty :
    (p : ℕ → Bool) (c : ℕ) (cs : Text) (ts : List Text) → NonEmpty (join_run p c cs ts)
unfolding join_run NonEmpty
join_run-NonEmpty p c cs ts = elim (Bool-cases (starts p cs)) [
  | inl y ↦ rw y (add_first-NonEmpty c ts)
  | inr n ↦ rw n tt
]

tokens-NonEmpty :
    (c : ℕ) (cs : Text) → (is_digit c || is_letter c) ≡ true → NonEmpty (rpm_tokens (c ∷ cs))
unfolding tokens
tokens-NonEmpty c cs h = elim (Bool-cases (is_digit c)) [
  | inl y ↦ rw y (join_run-NonEmpty is_digit c cs (rpm_tokens cs))
  | inr n ↦ rw (n, rw n at h) (join_run-NonEmpty is_letter c cs (rpm_tokens cs))
]

join_run-append :
    (p : ℕ → Bool) (c : ℕ) (cs w : Text) (ts rest : List Text)
    → p b'~' ≡ false
    → (starts p cs ≡ true → NonEmpty ts)
    → join_run p c (cs ++ b'~' ∷ w) (ts ++ rest) ≡ join_run p c cs ts ++ rest
unfolding join_run add_first NonEmpty
join_run-append p c [] w ts rest h k = rw h refl
join_run-append p c (d ∷ cs) w (t ∷ ts) rest h k = ground arith
join_run-append p c (d ∷ cs) w [] rest h k = elim (Bool-cases (p d)) [
  | inl y ↦ absurd (k y)
  | inr n ↦ rw n refl
]

starts-NonEmpty :
    (p : ℕ → Bool) (cs : Text)
    → ((c : ℕ) → p c ≡ true → (is_digit c || is_letter c) ≡ true)
    → starts p cs ≡ true
    → NonEmpty (rpm_tokens cs)
starts-NonEmpty p [] h k = cc
starts-NonEmpty p (c ∷ cs) h k = tokens-NonEmpty c cs (h c k)

digit_is_token : (c : ℕ) → is_digit c ≡ true → (is_digit c || is_letter c) ≡ true
digit_is_token c h = rw h refl

letter_is_token : (c : ℕ) → is_letter c ≡ true → (is_digit c || is_letter c) ≡ true
letter_is_token c h = ground arith

-- A tilde ends the tokens before it and is one itself.
tokens-tilde :
    (v w : Text) → rpm_tokens (v ++ b'~' ∷ w) ≡ rpm_tokens v ++ ((b'~' ∷ []) ∷ rpm_tokens w)
unfolding tokens
tokens-tilde [] w = refl
tokens-tilde (c ∷ v) w = elim (Bool-cases (is_digit c)) [
  | inl y ↦
      rw (y, tokens-tilde v w)
        (join_run-append is_digit c v w (rpm_tokens v) _ refl
          (starts-NonEmpty is_digit v digit_is_token))
  | inr n ↦ elim (Bool-cases (is_letter c)) [
    | inl y ↦
        rw (n, y, tokens-tilde v w)
          (join_run-append is_letter c v w (rpm_tokens v) _ refl
            (starts-NonEmpty is_letter v letter_is_token))
    | inr m ↦ elim (Bool-cases (is_tilde c)) [
      | inl y ↦ rw (n, m, y, tokens-tilde v w) refl
      | inr k ↦ rw (n, m, k, tokens-tilde v w) refl
    ]
  ]
]

-- The loop over few tokens succeeds.
rpm_segments_from-few :
    (n : ℕ) (ts : List Text) → n + length ts ≤ 64 → rpm_segments_from n ts ≡ ok (map rpm_segment ts)
unfolding rpm_segments_from
rpm_segments_from-few n [] h = refl
rpm_segments_from-few n (t ∷ ts) h =
    rw (few n (omega (arith, h)), rpm_segments_from-few (suc n) ts (omega (arith, h))) refl
  where
    few : (n : ℕ) → suc n ≤ 64 → ltb 64 (suc n) ≡ false
    few n h = ground arith

map-append :
    (xs ys : List Text) → map rpm_segment (xs ++ ys) ≡ map rpm_segment xs ++ map rpm_segment ys
map-append [] ys = refl
map-append (x ∷ xs) ys = ap (λ l. rpm_segment x ∷ l) (map-append xs ys)

list_order-extended :
    (xs : List Part) (y : Part) (ys : List Part) → list_order xs (xs ++ y ∷ ys) ≡ less
list_order-extended [] y ys = refl
list_order-extended (x ∷ xs) y ys = rw (part_ordered.self x) (list_order-extended xs y ys)

any-append :
    (v w : Text) → any is_colon v ≡ false → any is_colon w ≡ false → any is_colon (v ++ w) ≡ false
any-append [] w h k = k
any-append (c ∷ v) w h k = ground (arith, any-append v w)

rpm_segments-few :
    (v : Text)
    → any is_colon v ≡ false
    → length (rpm_tokens v) ≤ 63
    → rpm_segments v ≡ ok (epoch 0 ∷ map rpm_segment (rpm_tokens v))
unfolding rpm_segments split_epoch
rpm_segments-few v h k = rw (h, rpm_segments_from-few 1 (rpm_tokens v) (omega (arith, k))) refl

-- If neither a version nor a suffix has a colon, and the version with a tilde and the suffix has at
-- most 63 tokens, then the keys of both versions are read, and that of the version without the tilde
-- and the suffix is the lesser.
pub rpm_segments-tilde :
    (v w : Text)
    → any is_colon v ≡ false
    → any is_colon w ≡ false
    → length (rpm_tokens (v ++ b'~' ∷ w)) ≤ 63
    → (short : List Part) × ((long : List Part) × ((rpm_segments v ≡ ok short)
          × ((rpm_segments (v ++ b'~' ∷ w) ≡ ok long) × (list_order short long ≡ less))))
rpm_segments-tilde v w hv hw n = (
  epoch 0 ∷ map rpm_segment (rpm_tokens v),
  (
    epoch 0 ∷ map rpm_segment (rpm_tokens (v ++ b'~' ∷ w)),
    (
      rpm_segments-few v hv (
          omega (
            arith,
            n,
            ap length (tokens-tilde v w),
            length-append (rpm_tokens v) ((b'~' ∷ []) ∷ rpm_tokens w),
          )),
      (
        rpm_segments-few (v ++ b'~' ∷ w) (any-append v (b'~' ∷ w) hv hw) n,
        rw (tokens-tilde v w, map-append (rpm_tokens v) ((b'~' ∷ []) ∷ rpm_tokens w))
            (list_order-extended (epoch 0 ∷ map rpm_segment (rpm_tokens v)) _ _),
      ),
    ),
  ),
)
