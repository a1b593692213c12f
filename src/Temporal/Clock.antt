-- ===== src/Temporal/Clock.antt =====
-- Timestamps of backend/app/temporal_*.py. A normalised UTC datetime is the number of microseconds
-- since 0001-01-01T00:00Z, the first instant of Python's calendar; the last year of the calendar is
-- not modelled. A datetime from outside may lack a timezone.
use openassetwatch.Prelude.{
  ℕ, ◌+◌, ◌-◌, ◌*◌, ◌/◌, ◌%◌, ◌≡◌, Bool, not, arith, ltb, ◌==◌, if◌then◌else◌,
}
use openassetwatch.Temporal.Result.{Result, ok, err, overflow, projection, timezone_required}

pub data Stamp : Type 0 where
  naive : ℕ → Stamp
  aware : ℕ → Stamp

abbrev pub second : ℕ
second = 1_000_000

abbrev pub day : ℕ
day = 86_400_000_000

-- `any((value.hour, value.minute, value.second, value.microsecond))`
unfoldable pub off_midnight : ℕ → Bool
off_midnight t = not (t % day == 0)

-- 0001-01-01 was a Monday, `weekday()` 0.
unfoldable pub weekday : ℕ → ℕ
weekday t = (t / day) % 7

-- `t - timedelta(days=n)`
unfoldable pub minus_days : ℕ → ℕ → Result ℕ
minus_days t n = if ltb t (n * day) then err overflow else ok (t - n * day)

-- `value.astimezone(timezone.utc)`, refused without a timezone
unfoldable pub as_utc : Stamp → Result ℕ
as_utc (naive t) = err (projection timezone_required)
as_utc (aware t) = ok t

-- `replace(hour=0, minute=0, second=0, microsecond=0)`
unfoldable pub floor_day : ℕ → ℕ
floor_day t = t - t % day

pub off_midnight-plus_days :
    (t n : ℕ) → off_midnight t ≡ Bool.false → off_midnight (t + n * day) ≡ Bool.false
unfolding off_midnight
off_midnight-plus_days t n h = ground arith

pub minus_days-eq-ok : (t n s : ℕ) → minus_days t n ≡ ok s → s + n * day ≡ t
unfolding minus_days
minus_days-eq-ok t n s h = ground arith

pub off_midnight-before :
    (t n s : ℕ) → off_midnight t ≡ Bool.false → t ≡ s + n * day → off_midnight s ≡ Bool.false
unfolding off_midnight
off_midnight-before t n s h e = ground arith
