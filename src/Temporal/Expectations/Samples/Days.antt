-- ===== src/Temporal/Expectations/Samples/Days.antt =====
-- Which days of the history the sample of `_method_sample` (backend/app/temporal_expectations.py)
-- holds, and how many.
use openassetwatch.Prelude.{
  ℕ, zero, suc, ◌+◌, ◌-◌, ◌*◌, ◌/◌, ◌%◌, ◌<◌, ◌≤◌, ◌⊎◌, inl, inr, ◌≡◌, refl, ◌∙◌, Bool, true, false,
  ◌&&◌, List, [], ◌∷◌, map, leb, ◌==◌, length, filter, Bool-cases, arith,
}
use openassetwatch.Temporal.Result.{ok}
use openassetwatch.Temporal.Clock.{day, weekday}
use openassetwatch.Temporal.Vocabulary.{rolling_robust_baseline, seasonal_robust_baseline}
use openassetwatch.Temporal.Contracts.Signal.{Signal}
use openassetwatch.Temporal.Projection.Windows.{daily_from}
use openassetwatch.Temporal.Expectations.Samples.{
  PrimaryMethod, Sample, is_usable, usable_signals, seasonal_signals, rolling_signals,
  method_sample, method_sample-eq-ok,
}

-- A usable signal some whole weeks before the target.
abbrev pub is_weekly : ℕ → Signal → Bool
is_weekly target s = is_usable s && ((target - s.bucket_start) % (7 * day) == 0)

-- A usable signal at most 28 days before the target.
abbrev pub is_recent : ℕ → Signal → Bool
is_recent target s = is_usable s && leb target (s.bucket_start + 28 * day)

abbrev pub starts_of : List Signal → List ℕ
starts_of history = map (λ s. s.bucket_start) history

whole_days_apart : (t target k : ℕ) → target ≡ t + k * day → target / day ≡ t / day + k
whole_days_apart t target k e = omega (arith, e)

same_weekday :
    (t target k : ℕ)
    → target ≡ t + k * day
    → (weekday t == weekday target) ≡ ((target - t) % (7 * day) == 0)
unfolding weekday
same_weekday t target k e =
    let q : target / day ≡ t / day + k = whole_days_apart t target k e in ground arith

and_right : (a b : Bool) → (a && b) ≡ true → b ≡ true
and_right true b h = h
and_right false b h = cc

whole_week :
    (t target k : ℕ) → target ≡ t + k * day → ((target - t) % (7 * day) == 0) ≡ true → k % 7 ≡ 0
whole_week t target k e h = ground arith

four_weeks : (t target k : ℕ) → target ≡ t + k * day → leb target (t + 28 * day) ≡ true → k ≤ 28
four_weeks t target k e h = ground arith

cons-start :
    (t n start : ℕ) (ts : List ℕ)
    → t ∷ ts ≡ daily_from (suc n) start
    → (t ≡ start) × (ts ≡ daily_from n (start + day))
unfolding daily_from
cons-start t n start ts e = (cc, cc)

no_day : (n start : ℕ) → [] ≡ daily_from (suc n) start → ⊥
unfolding daily_from
no_day n start e = cc

one_day : (t start : ℕ) (ts : List ℕ) → t ∷ ts ≡ daily_from 0 start → ⊥
unfolding daily_from
one_day t start ts e = cc

-- One turn of a filter behind a filter.
kept :
    (s : Signal) (rest : List Signal) (q r : Signal → Bool)
    → q s ≡ r s
    → filter q (usable_signals rest) ≡ filter (λ x. is_usable x && r x) rest
    → filter q (usable_signals (s ∷ rest)) ≡ filter (λ x. is_usable x && r x) (s ∷ rest)
kept s rest q r same later = elim (Bool-cases (is_usable s)) [
  | inl y ↦ rw (y, same, later) refl
  | inr n ↦ rw (n, later) refl
]

-- The signals of the target's day of the week are those some whole weeks before it.
seasonal_signals-weekly :
    (n start target : ℕ) (history : List Signal)
    → starts_of history ≡ daily_from n start
    → target ≡ start + n * day
    → seasonal_signals target (usable_signals history) ≡ filter (is_weekly target) history
unfolding seasonal_signals
seasonal_signals-weekly zero start target [] d e = refl
seasonal_signals-weekly zero start target (s ∷ rest) d e = absurd (one_day _ _ _ d)
seasonal_signals-weekly (suc n) start target [] d e = absurd (no_day _ _ d)
seasonal_signals-weekly (suc n) start target (s ∷ rest) d e =
    let (b, d') = cons-start s.bucket_start n start (starts_of rest) d in
    let later = seasonal_signals-weekly n (start + day) target rest d' (omega (arith, e)) in
    let same : (weekday s.bucket_start == weekday target)
        ≡ ((target - s.bucket_start) % (7 * day) == 0) =
      same_weekday s.bucket_start target (suc n) (omega (arith, e, b)) in
    kept s rest (λ x. weekday x.bucket_start == weekday target)
      (λ x. (target - x.bucket_start) % (7 * day) == 0) same later

rolling_signals-recent :
    (target : ℕ) (history : List Signal)
    → rolling_signals (target - 28 * day) (usable_signals history)
      ≡ filter (is_recent target) history
unfolding rolling_signals
rolling_signals-recent target [] = refl
rolling_signals-recent target (s ∷ rest) =
    let later = rolling_signals-recent target rest in
    let same : leb (target - 28 * day) s.bucket_start ≡ leb target (s.bucket_start + 28 * day) =
      ground arith in
    kept s rest (λ x. leb (target - 28 * day) x.bucket_start)
      (λ x. leb target (x.bucket_start + 28 * day)) same later

length-weekly :
    (n start target : ℕ) (history : List Signal)
    → starts_of history ≡ daily_from n start
    → target ≡ start + n * day
    → length (filter (is_weekly target) history) * 7 ≤ n
length-weekly zero start target [] d e = omega arith
length-weekly zero start target (s ∷ rest) d e = absurd (one_day _ _ _ d)
length-weekly (suc n) start target [] d e = omega arith
length-weekly (suc n) start target (s ∷ rest) d e =
    let (b, d') = cons-start s.bucket_start n start (starts_of rest) d in
    let later = length-weekly n (start + day) target rest d' (omega (arith, e)) in
    elim (Bool-cases (is_weekly target s)) [
      | inl y ↦
          let week : suc n % 7 ≡ 0 =
            whole_week s.bucket_start target (suc n) (omega (arith, e, b)) (and_right _ _ y) in
          rw y (omega (arith, later, week))
      | inr m ↦ rw m (omega (arith, later))
    ]

length-recent :
    (n start target : ℕ) (history : List Signal)
    → starts_of history ≡ daily_from n start
    → target ≡ start + n * day
    → (length (filter (is_recent target) history) ≤ n)
      × (length (filter (is_recent target) history) ≤ 28)
length-recent zero start target [] d e = (omega arith, omega arith)
length-recent zero start target (s ∷ rest) d e = absurd (one_day _ _ _ d)
length-recent (suc n) start target [] d e = (omega arith, omega arith)
length-recent (suc n) start target (s ∷ rest) d e =
    let (b, d') = cons-start s.bucket_start n start (starts_of rest) d in
    let (all, few) = length-recent n (start + day) target rest d' (omega (arith, e)) in
    elim (Bool-cases (is_recent target s)) [
      | inl y ↦
          let near : suc n ≤ 28 =
            four_weeks s.bucket_start target (suc n) (omega (arith, e, b)) (and_right _ _ y) in
          rw y (omega (arith, all), omega (arith, all, near))
      | inr m ↦ rw m (omega (arith, all), few)
    ]

-- A seasonal sample: the usable signals some whole weeks before the target, 4 to 8 of them.
pub record IsWeeklySample (history : List Signal) (target : ℕ) (s : Sample) : Type 0 where
  pub method : s.method ≡ seasonal_robust_baseline
  pub signals : s.signals ≡ filter (is_weekly target) history
  pub at_least : 4 ≤ length s.signals
  pub at_most : length s.signals ≤ 8

-- A rolling sample: the usable signals at most 28 days before the target, no more than 28 of them.
pub record IsRecentSample (history : List Signal) (target : ℕ) (s : Sample) : Type 0 where
  pub method : s.method ≡ rolling_robust_baseline
  pub signals : s.signals ≡ filter (is_recent target) history
  pub at_most : length s.signals ≤ 28

-- Over a history of one signal for each of the 56 days before the target, a sample under a seasonal
-- policy is of the usable signals some whole weeks before the target, 4 to 8 of them, or, when these
-- are fewer than 4, of the usable signals at most 28 days before it, no more than 28. Under a rolling
-- policy it is always the latter.
pub method_sample-days :
    (p : PrimaryMethod) (history : List Signal) (start target : ℕ) {s : Sample}
    → starts_of history ≡ daily_from 56 start
    → target ≡ start + 56 * day
    → method_sample p (usable_signals history) target ≡ ok s
    → ((p ≡ PrimaryMethod.seasonal) × IsWeeklySample history target s)
      ⊎ (((p ≡ PrimaryMethod.seasonal) → length (filter (is_weekly target) history) < 4)
          × IsRecentSample history target s)
method_sample-days p history start target d e h =
    let weekly = seasonal_signals-weekly 56 start target history d e in
    let recent = rolling_signals-recent target history in
    elim (method_sample-eq-ok p (usable_signals history) target h) [
      | inl (q, v) ↦
          let same = v.signals ∙ weekly in
          inl (
            q,
            record {
              method = v.method;
              signals = same;
              at_least = rw (same, ← weekly) v.enough;
              at_most = rw same (omega (arith, length-weekly 56 start target history d e));
            },
          )
      | inr (few, v) ↦
          let same = v.signals ∙ recent in
          inr (
            λ q. rw (← weekly) (few q),
            record {
              method = v.method;
              signals = same;
              at_most = rw same (length-recent 56 start target history d e).1;
            },
          )
    ]
