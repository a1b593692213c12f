-- ===== src/Prelude/Permuted.antt =====
-- A test on the elements of a list and its length do not see the order.
use Prim.Native.Nat.{suc}
use mathlib.Core.HLevel.{hedberg}
use mathlib.Core.Logic.{∥∥₁_elim}
use mathlib.Core.Path.{◌≡◌, refl, ap, ◌∙◌}
use mathlib.Core.Bool.{Bool, true, false, ◌||◌}
use mathlib.Core.List.{List, Perm, Permᴰ}
use native.Mathlib.Decide.{ℕ_discrete}
use openassetwatch.Prelude.Lists.{any, length}

swap_or : (a b c : Bool) → (a || (b || c)) ≡ (b || (a || c))
swap_or true true c = refl
swap_or true false c = refl
swap_or false b c = refl

bool_discrete : Discrete Bool
bool_discrete = hlevel

module _ {ℓ} {A : Type ℓ} (f : A → Bool) where
  any-permᴰ : {xs ys : List A} → Permᴰ xs ys → any f xs ≡ any f ys
  any-permᴰ Permᴰ.nil = refl
  any-permᴰ (Permᴰ.cons e p) = cc (any-permᴰ p)
  any-permᴰ (Permᴰ.swap {a} {b} {l = l} e g) = cc (swap_or (f a) (f b) (any f l))
  any-permᴰ (Permᴰ.trans p q) = any-permᴰ p ∙ any-permᴰ q

  pub any-perm : {xs ys : List A} → Perm xs ys → any f xs ≡ any f ys
  any-perm {xs} {ys} p = ∥∥₁_elim p (hedberg bool_discrete (any f xs) (any f ys)) any-permᴰ

module _ {ℓ} {A : Type ℓ} where
  length-permᴰ : {xs ys : List A} → Permᴰ xs ys → length xs ≡ length ys
  length-permᴰ Permᴰ.nil = refl
  length-permᴰ (Permᴰ.cons e p) = ap suc (length-permᴰ p)
  length-permᴰ (Permᴰ.swap e f) = refl
  length-permᴰ (Permᴰ.trans p q) = length-permᴰ p ∙ length-permᴰ q

  pub length-perm : {xs ys : List A} → Perm xs ys → length xs ≡ length ys
  length-perm {xs} {ys} p = ∥∥₁_elim p (hedberg ℕ_discrete (length xs) (length ys)) length-permᴰ
