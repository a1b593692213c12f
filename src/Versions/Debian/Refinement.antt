-- ===== src/Versions/Debian/Refinement.antt =====
-- `_debian_compare` as the order of keys: the epoch, and the sequences of the upstream version and
-- of the revision.
use openassetwatch.Prelude.{ℕ, ◌≤◌, ◌≡◌, refl, Bool, not, List, [], ◌∷◌, arith, length, drop}
use openassetwatch.Text.{Text}
use openassetwatch.Temporal.Result.{Result, ok, err, ◌>>=◌}
use openassetwatch.Versions.Order.{
  Order, less, equal, greater, or_else, ℤ, Ordered, number_order, number_ordered,
}
use openassetwatch.Versions.Order.Tuples.{pair_ordered}
use openassetwatch.Versions.Characters.{after}
use openassetwatch.Versions.Schemes.Rpm.{split_epoch, is_colon}
use openassetwatch.Versions.Debian.{
  order_or, before_last_dash, after_last_dash, upstream_of, revision_of, remainder_compare,
  debian_compare,
}
use openassetwatch.Versions.Debian.Key.{debian_key, padded_order, padded_ordered}
use openassetwatch.Versions.Debian.Agreement.{debian_part_compare-padded_order}

abbrev pub DebianVersion : Type 0
DebianVersion = ℕ × (List ℤ × List ℤ)

abbrev pub debian_ordered : Ordered DebianVersion
debian_ordered =
    pair_ordered ⦃oa = number_ordered⦄
      ⦃ob = pair_ordered ⦃oa = padded_ordered⦄ ⦃ob = padded_ordered⦄⦄

-- What a version means in the order: its epoch, upstream version and revision.
unfoldable pub debian_version : Text → Result DebianVersion
unfolding split_epoch
debian_version t = do
  (number_of_epoch, remainder) ← split_epoch t
  ok (number_of_epoch, (debian_key (upstream_of remainder), debian_key (revision_of remainder)))

length-after_any : (p : ℕ → Bool) (t : Text) → length (after p t) ≤ length t
unfolding after
length-after_any p [] = omega arith
length-after_any p (c ∷ t) = ground (arith, length-after_any p t)

length-drop_one : (t : Text) → length (drop 1 t) ≤ length t
length-drop_one [] = omega arith
length-drop_one (c ∷ t) = omega arith

length-before_last_dash : (t : Text) → length (before_last_dash t) ≤ length t
unfolding before_last_dash
length-before_last_dash [] = omega arith
length-before_last_dash (c ∷ t) = ground (arith, length-before_last_dash t)

length-after_last_dash : (t : Text) → length (after_last_dash t) ≤ length t
unfolding after_last_dash
length-after_last_dash [] = omega arith
length-after_last_dash (c ∷ t) = ground (arith, length-after_last_dash t)

length-upstream_of : (t : Text) → length (upstream_of t) ≤ length t
length-upstream_of t = ground (arith, length-before_last_dash t)

length-revision_of : (t : Text) → length t ≤ 160 → length (revision_of t) ≤ 160
length-revision_of t h = ground (arith, length-after_last_dash t)

split_epoch-length :
    (t : Text) (e : ℕ) (rest : Text) → split_epoch t ≡ ok (e, rest) → length rest ≤ length t
unfolding split_epoch
split_epoch-length t e rest h = ground (
  arith,
  length-drop_one (after (λ c. not (is_colon c)) t),
  length-after_any (λ c. not (is_colon c)) t,
)

order_or-ok_both : (a b : Order) → order_or a (ok b) ≡ ok (or_else a b)
order_or-ok_both less b = refl
order_or-ok_both equal b = refl
order_or-ok_both greater b = refl

remainder_compare-order :
    (l r : Text)
    → length l ≤ 160
    → remainder_compare l r
      ≡ ok (
          or_else
            (padded_order (debian_key (upstream_of l)) (debian_key (upstream_of r)))
            (padded_order (debian_key (revision_of l)) (debian_key (revision_of r))))
unfolding remainder_compare
remainder_compare-order l r h =
    rw
      (
        debian_part_compare-padded_order (upstream_of l) (upstream_of r)
            (omega (arith, length-upstream_of l, h)),
        debian_part_compare-padded_order (revision_of l) (revision_of r)
            (omega (arith, length-revision_of l h)),
      )
      (order_or-ok_both _ _)

-- The comparison behind two epochs that are read.
behind_epochs :
    (left right : Result (ℕ × Text))
    → ((e : ℕ) (rest : Text) → left ≡ ok (e, rest) → length rest ≤ 160)
    → (do (a, l) ← left; (b, r) ← right; order_or (number_order a b) (remainder_compare l r)) ≡ (do
      a ← (do
        (e, rest) ← left
        ok (e, (debian_key (upstream_of rest), debian_key (revision_of rest))))
      b ← (do
        (e, rest) ← right
        ok (e, (debian_key (upstream_of rest), debian_key (revision_of rest))))
      ok (debian_ordered.order a b))
behind_epochs (err x) right h = refl
behind_epochs (ok (a, l)) (err x) h = refl
behind_epochs (ok (a, l)) (ok (b, r)) h =
    rw (remainder_compare-order l r (h a l refl)) (order_or-ok_both _ _)

-- The order of two Debian versions is the order of their keys.
pub debian_compare-debian_version :
    (l r : Text)
    → length l ≤ 160
    → debian_compare l r
      ≡ (debian_version l >>= λ a. debian_version r >>= λ b. ok (debian_ordered.order a b))
unfolding debian_compare debian_version
debian_compare-debian_version l r h =
    behind_epochs (split_epoch l) (split_epoch r)
      (λ e rest p. omega (arith, split_epoch-length l e rest p, h))
