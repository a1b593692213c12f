-- ===== src/Temporal/Contracts/Series/Walk.antt =====
-- What the contracts of a response and of its signals give together: consecutive days up to the end
-- of the window.
use openassetwatch.Prelude.{
  ℕ, ◌+◌, ◌*◌, ◌≤◌, ◌≡◌, refl, false, List, [], ◌∷◌, arith, length, any, ltb, ◌||◌,
}
use openassetwatch.Temporal.Result.{ok, >>=-eq-ok}
use openassetwatch.Temporal.Clock.{day}
use openassetwatch.Temporal.Contracts.Signal.{Signal, AllValid, validate_signal, check_bucket}
use openassetwatch.Temporal.Contracts.Series.{Series, validate_series, check_scope, check_signals}

check_bucket-spans : (s : Signal) → check_bucket s ≡ ok tt → s.bucket_end ≡ s.bucket_start + day
unfolding check_bucket
check_bucket-spans s h = ground arith

validate_signal→check_bucket : (s : Signal) → validate_signal s ≡ ok tt → check_bucket s ≡ ok tt
unfolding validate_signal
validate_signal→check_bucket s h = ground arith

-- An accepted signal spans one day.
pub bucket_end-eq : (s : Signal) → validate_signal s ≡ ok tt → s.bucket_end ≡ s.bucket_start + day
bucket_end-eq s h = check_bucket-spans s (validate_signal→check_bucket s h)

check_scope-start :
    (r : Series) (t : ℕ) (s : Signal) → check_scope r t s ≡ ok tt → s.bucket_start ≡ t
unfolding check_scope
check_scope-start r t s h = ground arith

-- Every signal ends by `stop`.
abbrev pub AllEndBy : ℕ → List Signal → Type 0
AllEndBy stop [] = Unit
AllEndBy stop (s ∷ ss) = (s.bucket_end ≤ stop) × AllEndBy stop ss

check_signals-walk :
    (r : Series) (t stop : ℕ) (ss : List Signal)
    → AllValid ss
    → check_signals r t ss ≡ ok stop
    → (stop ≡ t + length ss * day) × AllEndBy stop ss
unfolding check_signals
check_signals-walk r t stop [] v e = let p : t ≡ stop = ground arith in (omega arith, tt)
check_signals-walk r t stop (s ∷ ss) v e =
    let (_, scope, rest) = >>=-eq-ok (check_scope r t s) _ e in
    let started : s.bucket_start ≡ t = check_scope-start r t s scope in
    let ended : s.bucket_end ≡ s.bucket_start + day = bucket_end-eq s v.0 in
    let (p, q) = check_signals-walk r s.bucket_end stop ss v.1 rest in
    (omega arith, (omega arith, q))

validate_series→check_signals :
    (r : Series)
    → validate_series r ≡ ok tt
    → (check_signals r r.start r.signals ≡ ok r.«end») × (length r.signals ≡ r.bucket_count)
unfolding validate_series
validate_series→check_signals r h = ground arith

-- An accepted response has one signal for each day of its window, and none ends after the window.
pub validate_series-walk :
    (r : Series)
    → validate_series r ≡ ok tt
    → AllValid r.signals
    → (r.«end» ≡ r.start + length r.signals * day) × AllEndBy r.«end» r.signals
validate_series-walk r h v =
    check_signals-walk r r.start r.«end» r.signals v (validate_series→check_signals r h).0

-- No signal ends after a later time either.
pub none_open :
    (a b stop : ℕ) (ss : List Signal)
    → stop ≤ a
    → stop ≤ b
    → AllEndBy stop ss
    → any (λ s. ltb a s.bucket_end || ltb b s.bucket_end) ss ≡ false
none_open a b stop [] p q e = refl
none_open a b stop (s ∷ ss) p q e = ground (arith, none_open a b stop ss p q e.1)
