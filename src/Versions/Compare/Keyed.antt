-- ===== src/Versions/Compare/Keyed.antt =====
-- The laws of a comparison by keys.
use openassetwatch.Prelude.{◌≡◌, refl, Option, none, some, String}
use openassetwatch.Text.{Text}
use openassetwatch.Temporal.Result.{Result, ok, err, ◌>>=◌, >>=-eq-ok, same_ok}
use openassetwatch.Versions.Order.{Order, reversed, Ordered}
use openassetwatch.Versions.Compare.{
  VersionComparison, Attempt, in_order, key_attempt, compare_keys, conclude,
}

-- A comparison seen from the other side.
abbrev pub reversed_order : Option Order → Option Order
reversed_order none = none
reversed_order (some o) = some (reversed o)

abbrev pub mirrored : VersionComparison → VersionComparison
mirrored c = record {
  status = c.status;
  order = reversed_order c.order;
  reason = c.reason;
  engine_version = c.engine_version;
}

module _ {K : Type 0} (o : Ordered K) (reason : String) (read : Text → Result (Option K)) where
  attempt_of : Result (Option K) → Result (Option K) → Result Attempt
  unfolding key_attempt
  attempt_of left right = left >>= λ l. right >>= λ r. ok (key_attempt o reason l r)

  mirrored-attempt :
      (left right : Result (Option K))
      → conclude (attempt_of right left) ≡ mirrored (conclude (attempt_of left right))
  unfolding attempt_of
  mirrored-attempt (err a) (err b) = refl
  mirrored-attempt (err a) (ok r) = refl
  mirrored-attempt (ok l) (err b) = refl
  mirrored-attempt (ok none) (ok none) = refl
  mirrored-attempt (ok none) (ok (some r)) = refl
  mirrored-attempt (ok (some l)) (ok none) = refl
  mirrored-attempt (ok (some l)) (ok (some r)) = rw (o.swap l r) refl

  pub mirrored-compare_keys :
      (left right : Text)
      → conclude (compare_keys o reason read right left)
        ≡ mirrored (conclude (compare_keys o reason read left right))
  unfolding compare_keys attempt_of
  mirrored-compare_keys left right = mirrored-attempt (read left) (read right)

  -- An order comes from two keys.
  pub compare_keys-keys :
      (left right : Text) {x : Order}
      → compare_keys o reason read left right ≡ ok (in_order x)
      → (l : K) × ((r : K) × ((read left ≡ ok (some l))
            × ((read right ≡ ok (some r)) × (o.order l r ≡ x))))
  unfolding compare_keys
  compare_keys-keys left right h =
      let (l, p, k) = >>=-eq-ok (read left) _ h in
      let (r, q, e) = >>=-eq-ok (read right) _ k in from_options l r p q (same_ok refl e)
    where
      from_options :
          (l r : Option K) {x : Order}
          → read left ≡ ok l
          → read right ≡ ok r
          → key_attempt o reason l r ≡ in_order x
          → (a : K) × ((b : K) × ((read left ≡ ok (some a))
                × ((read right ≡ ok (some b)) × (o.order a b ≡ x))))
      from_options none r p q e = cc
      from_options (some a) none p q e = cc
      from_options (some a) (some b) p q e = (a, (b, (p, (q, cc))))

  pub compare_keys-of_keys :
      (left right : Text) (l r : K)
      → read left ≡ ok (some l)
      → read right ≡ ok (some r)
      → compare_keys o reason read left right ≡ ok (in_order (o.order l r))
  unfolding compare_keys key_attempt
  compare_keys-of_keys left right l r p q = rw (p, q) refl
