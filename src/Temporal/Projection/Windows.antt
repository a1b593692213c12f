-- ===== src/Temporal/Projection/Windows.antt =====
-- The windows of backend/app/temporal_projection.py: buckets of one UTC day, and the validation of a
-- requested window.
use openassetwatch.Prelude.{
  ℕ, zero, suc, ◌+◌, ◌-◌, ◌*◌, ◌/◌, ◌≤◌, ◌<◌, ◌≡◌, ◌↔◌, refl, false, not, ◌||◌, String, List, [],
  ◌∷◌, arith, ltb, leb, ◌=s=◌, if◌then◌else◌, length, ap, ◌∙◌, eq_iff,
}
use openassetwatch.Temporal.Result.{
  Result, ok, ErrorCode, projection, ◌>>=◌, ◌>>◌, raise_if, Error, >>=-eq-ok,
}
use openassetwatch.Temporal.Clock.{Stamp, naive, aware, day, off_midnight, as_utc, floor_day}
use openassetwatch.Temporal.Contracts.Series.{max_temporal_buckets, max_temporal_history_days}

unfoldable pub utc_daily_bucket : Stamp → Result (ℕ × ℕ)
unfolding floor_day as_utc
utc_daily_bucket timestamp = do
  observed ← as_utc timestamp
  ok (floor_day observed, floor_day observed + day)

-- A validated window: the normalised bounds and the number of buckets.
pub record Window : Type 0 where
  pub start : ℕ
  pub stop : ℕ
  pub bucket_count : ℕ

-- `validate_temporal_window` on normalised bounds
unfoldable pub check_window : ℕ → ℕ → Result Window
check_window start stop = do
  raise_if (off_midnight start) (projection ErrorCode.unaligned_window)
  raise_if (off_midnight stop) (projection ErrorCode.unaligned_window)
  raise_if (leb stop start) (projection ErrorCode.invalid_window)
  let count = (stop - start) / day
  raise_if (ltb max_temporal_history_days count || ltb max_temporal_buckets count)
      (projection ErrorCode.window_too_large)
  ok (record { start = start; stop = stop; bucket_count = count })

unfoldable pub validate_temporal_window : Stamp → Stamp → String → Result Window
validate_temporal_window start stop granularity = do
  raise_if (not (granularity =s= "daily")) (projection ErrorCode.unsupported_granularity)
  normalized_start ← as_utc start
  normalized_stop ← as_utc stop
  check_window normalized_start normalized_stop

-- `while cursor < end`, on fuel
unfoldable pub iter_from : ℕ → ℕ → ℕ → List ℕ
iter_from zero cursor stop = []
iter_from (suc f) cursor stop =
    let rest = iter_from f (cursor + day) stop in if ltb cursor stop then cursor ∷ rest else []

unfoldable pub iter_daily_buckets : ℕ → ℕ → List ℕ
unfolding iter_from
iter_daily_buckets start stop = iter_from ((stop - start) / day + 1) start stop

-- The days `start`, `start + 1 day`, ..., `n` of them.
unfoldable pub daily_from : ℕ → ℕ → List ℕ
daily_from zero start = []
daily_from (suc n) start = start ∷ daily_from n (start + day)

iter_from-eq-daily_from :
    (f n start stop : ℕ)
    → n < f
    → stop ≡ start + n * day
    → iter_from f start stop ≡ daily_from n start
unfolding iter_from daily_from
iter_from-eq-daily_from zero n start stop h e = elim h [ ]
iter_from-eq-daily_from (suc f) zero start stop h e = ground arith
iter_from-eq-daily_from (suc f) (suc n) start stop h e =
    ground (arith, iter_from-eq-daily_from f n (start + day) stop)

-- The loop ends by its test and lists every day of an aligned window, in order.
pub iter_daily_buckets-eq-daily_from :
    (n start stop : ℕ) → stop ≡ start + n * day → iter_daily_buckets start stop ≡ daily_from n start
unfolding iter_daily_buckets
iter_daily_buckets-eq-daily_from n start stop e =
    iter_from-eq-daily_from ((stop - start) / day + 1) n start stop (omega arith) e

pub length-daily_from : (n start : ℕ) → length (daily_from n start) ≡ n
unfolding daily_from
length-daily_from zero start = refl
length-daily_from (suc n) start = ap suc (length-daily_from n (start + day))

-- What an accepted window satisfies.
pub record IsWindow (w : Window) : Type 0 where
  pub start_aligned : off_midnight w.start ≡ false
  pub stop_aligned : off_midnight w.stop ≡ false
  pub some_bucket : 1 ≤ w.bucket_count
  pub at_most : w.bucket_count ≤ max_temporal_buckets
  pub spans : w.stop ≡ w.start + w.bucket_count * day

whole_days :
    (a b : ℕ)
    → off_midnight a ≡ false
    → off_midnight b ≡ false
    → a < b
    → (b ≡ a + ((b - a) / day) * day) × (1 ≤ (b - a) / day)
unfolding off_midnight
whole_days a b p q h = ground arith

-- An accepted window is aligned, is not empty, has at most 366 buckets and spans them exactly.
pub check_window-IsWindow :
    (start stop : ℕ) {w : Window} → check_window start stop ≡ ok w → IsWindow w
unfolding check_window
check_window-IsWindow start stop h = ground (arith, whole_days start stop)

-- A request for 1 to 366 whole days that begin at a midnight, and the window of those days.
pub record IsDailyRequest (start stop : Stamp) (granularity : String) (w : Window) : Type 0 where
  pub daily : granularity ≡ "daily"
  pub begun : start ≡ aware w.start
  pub ended : stop ≡ aware w.stop
  pub first_day : ℕ
  pub midnight : w.start ≡ first_day * day
  pub spans : w.stop ≡ w.start + w.bucket_count * day
  pub some_bucket : 1 ≤ w.bucket_count
  pub at_most : w.bucket_count ≤ 366

check_window-accepts :
    (start stop n i : ℕ)
    → start ≡ i * day
    → stop ≡ start + n * day
    → 1 ≤ n
    → n ≤ 366
    → check_window start stop ≡ ok (record { start = start; stop = stop; bucket_count = n })
unfolding check_window off_midnight
check_window-accepts start stop n i e f lo hi = ground arith

check_window-bounds :
    (start stop : ℕ) {w : Window}
    → check_window start stop ≡ ok w
    → (start ≡ w.start) × (stop ≡ w.stop)
unfolding check_window
check_window-bounds start stop h = ground arith

first_day_of : (t : ℕ) → off_midnight t ≡ false → t ≡ (t / day) * day
unfolding off_midnight
first_day_of t h = ground arith

as_utc-aware : (s : Stamp) {t : ℕ} → as_utc s ≡ ok t → s ≡ aware t
unfolding as_utc
as_utc-aware (naive u) h = cc
as_utc-aware (aware u) h = cc

daily_text : (g : String) (e : Error) → raise_if (not (g =s= "daily")) e ≡ ok tt → g ≡ "daily"
daily_text g e h = (eq_iff g "daily").0 (ground arith)

accepted-IsDailyRequest :
    (start stop : Stamp) (g : String) {w : Window}
    → validate_temporal_window start stop g ≡ ok w
    → IsDailyRequest start stop g w
unfolding validate_temporal_window
accepted-IsDailyRequest start stop g {w} h =
    let (checked, e, h) = >>=-eq-ok (raise_if (not (g =s= "daily")) _) _ h in
    let (a, ea, h) = >>=-eq-ok (as_utc start) _ h in
    let (b, eb, h) = >>=-eq-ok (as_utc stop) _ h in
    let v = check_window-IsWindow a b h in
    let (pa, pb) = check_window-bounds a b h in
    record {
      daily = daily_text g _ e;
      begun = as_utc-aware start ea ∙ ap aware pa;
      ended = as_utc-aware stop eb ∙ ap aware pb;
      first_day = w.start / day;
      midnight = first_day_of w.start v.start_aligned;
      spans = v.spans;
      some_bucket = v.some_bucket;
      at_most = v.at_most;
    }

IsDailyRequest-accepted :
    (start stop : Stamp) (g : String) (w : Window)
    → IsDailyRequest start stop g w
    → validate_temporal_window start stop g ≡ ok w
unfolding validate_temporal_window as_utc
IsDailyRequest-accepted start stop g w d =
    rw (d.daily, d.begun, d.ended)
      (check_window-accepts w.start w.stop w.bucket_count d.first_day d.midnight d.spans
        d.some_bucket d.at_most)

-- A window is accepted exactly when it is asked for daily, its bounds have a timezone, it begins at
-- a midnight and it spans 1 to 366 whole days; the result is its bounds and the number of its days.
pub validate_temporal_window-eq-ok_iff :
    (start stop : Stamp) (granularity : String) (w : Window)
    → (validate_temporal_window start stop granularity ≡ ok w)
      ↔ IsDailyRequest start stop granularity w
validate_temporal_window-eq-ok_iff start stop g w =
    (accepted-IsDailyRequest start stop g, IsDailyRequest-accepted start stop g w)
