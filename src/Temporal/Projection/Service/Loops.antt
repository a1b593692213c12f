-- ===== src/Temporal/Projection/Service/Loops.antt =====
-- The loops of `series`: the signals that they build, and the validator's walk over them.
use openassetwatch.Prelude.{
  ℕ, zero, suc, ◌+◌, ◌*◌, ◌≡◌, refl, true, false, String, List, [], ◌∷◌, map, arith, ==-refl,
  eq_refl,
}
use openassetwatch.Temporal.Result.{ok, construct, construct-ok, construct-eq-ok, >>=-eq-ok}
use openassetwatch.Temporal.Clock.{day, off_midnight, off_midnight-plus_days}
use openassetwatch.Temporal.Identity.{Hashing}
use openassetwatch.Temporal.Registry.{MetricDefinition}
use openassetwatch.Temporal.Contracts.Signal.{Signal, AllValid, validate_signal, is_site_id}
use openassetwatch.Temporal.Contracts.Series.{check_scope, check_signals}
use openassetwatch.Temporal.Projection.Windows.{Window, daily_from}
use openassetwatch.Temporal.Projection.Signals.{Aggregate, signal_of}
use openassetwatch.Temporal.Projection.Signals.Validity.{
  IsSourced, IsSourced?, validate_signal-signal_of_iff,
}
use openassetwatch.Temporal.Projection.Service.{find_source, build_signals, response}

-- Every source aggregate is as the source queries give it.
abbrev pub AllSourced : List (ℕ × Aggregate) → Type 0
AllSourced [] = Unit
AllSourced ((t, a) ∷ rest) = IsSourced a × AllSourced rest

find_source-IsSourced? :
    (t : ℕ) (sources : List (ℕ × Aggregate))
    → AllSourced sources
    → IsSourced? (find_source t sources)
unfolding find_source
find_source-IsSourced? t [] s = tt
find_source-IsSourced? t ((u, a) ∷ rest) s = ground (arith, find_source-IsSourced? t rest s.1)

next_aligned : (t : ℕ) → off_midnight t ≡ false → off_midnight (t + day) ≡ false
next_aligned t a = off_midnight-plus_days t 1 a

cons_valid :
    {s s' : Signal} {rest rest' ss : List Signal}
    → s ≡ s'
    → validate_signal s' ≡ ok tt
    → rest ≡ rest'
    → AllValid rest
    → ok (s ∷ rest) ≡ ok ss
    → (ss ≡ s' ∷ rest') × AllValid ss
cons_valid {s} {s'} {rest} {rest'} {ss} p v q vs e =
    let r : ss ≡ s ∷ rest = cc in rw r (cc, (rw p v, vs))

module _ (h : Hashing) (m : MetricDefinition) (site_id : String) (generated_at : ℕ)
    (sources : List (ℕ × Aggregate)) where
  -- The signal of the bucket that starts at `t`.
  abbrev pub signal_at : ℕ → Signal
  signal_at t = signal_of h m site_id t generated_at (find_source t sources)

  pub build_signals-eq-map :
      (n start : ℕ)
      → off_midnight start ≡ false
      → is_site_id site_id ≡ true
      → m.missing_bucket_differs_from_zero ≡ true
      → AllSourced sources
      → build_signals h m site_id generated_at sources (daily_from n start)
        ≡ ok (map signal_at (daily_from n start))
  unfolding build_signals daily_from
  build_signals-eq-map zero start a s d all = refl
  build_signals-eq-map (suc n) start a s d all = rw (
    construct-ok validate_signal (signal_at start) (
        (validate_signal-signal_of_iff h m site_id start generated_at _ a s d).1
          (find_source-IsSourced? start sources all)),
    build_signals-eq-map n (start + day) (next_aligned start a) s d all,
  )

  -- What the loop returns is the signal of each bucket in order, each accepted by its contract.
  pub build_signals-eq-ok :
      (ts : List ℕ) {ss : List Signal}
      → build_signals h m site_id generated_at sources ts ≡ ok ss
      → (ss ≡ map signal_at ts) × AllValid ss
  unfolding build_signals
  build_signals-eq-ok [] {ss} e = let p : ss ≡ [] = cc in rw p (refl, tt)
  build_signals-eq-ok (t ∷ ts) e =
      let (s, es, e1) = >>=-eq-ok (construct validate_signal (signal_at t)) _ e in
      let (rest, er, e2) = >>=-eq-ok (build_signals h m site_id generated_at sources ts) _ e1 in
      let (ps, vs) = construct-eq-ok validate_signal (signal_at t) es in
      let (pr, vr) = build_signals-eq-ok ts er in cons_valid ps vs pr vr e2

  scope_checked :
      (w : Window) (signals : List Signal) (t : ℕ)
      → check_scope (response m site_id w generated_at signals) t (signal_at t) ≡ ok tt
  unfolding check_scope response signal_of
  scope_checked w signals t = simp (eq_refl, ==-refl)

  bucket_end-signal_at : (t : ℕ) → (signal_at t).bucket_end ≡ t + day
  unfolding signal_of
  bucket_end-signal_at t = refl

  -- The validator of the response walks over these signals to the end of the window.
  pub check_signals-map :
      (w : Window) (signals : List Signal) (n t stop : ℕ)
      → stop ≡ t + n * day
      → check_signals (response m site_id w generated_at signals) t (map signal_at (daily_from n t))
        ≡ ok stop
  unfolding check_signals daily_from
  check_signals-map w signals zero t stop e = let p : t ≡ stop = omega arith in rw p
  check_signals-map w signals (suc n) t stop e =
      rw (scope_checked w signals t, bucket_end-signal_at t)
        (check_signals-map w signals n (t + day) stop (omega arith))
