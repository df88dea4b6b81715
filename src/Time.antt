-- ===== src/Time.antt =====
-- The conversions between durations and the C types of time.hpp and time.cpp. A duration is a count of
-- nanoseconds, as for the system clock on Posix; the counts are taken to be in the range of int64_t.
pub mod Convert
use rs_io.Base.{if◌then◌else◌, ltb, suc, zero, ℕ, ◌%◌, ◌*◌, ◌+◌, ◌-◌, ◌/◌}

-- An integer, with the library's constructors over the native numbers.
pub data ℤ : Type 0 where
  pos negsuc : ℕ → ℤ

-- Minus a natural number.
abbrev pub neg : ℕ → ℤ
neg zero = pos 0
neg (suc n) = negsuc n

-- `/` and `%` of C++ by a positive number: the quotient is cut off towards zero, and the remainder has
-- the sign of the dividend.
unfoldable pub quot : ℤ → ℕ → ℤ
quot (pos n) k = pos (n / k)
quot (negsuc n) k = neg (suc n / k)

unfoldable pub rem : ℤ → ℕ → ℤ
rem (pos n) k = pos (n % k)
rem (negsuc n) k = neg (suc n % k)

unfoldable pub times : ℤ → ℕ → ℤ
times (pos n) k = pos (n * k)
times (negsuc n) k = neg (suc n * k)

abbrev pub minus : ℕ → ℕ → ℤ
minus m n = if ltb m n then neg (n - m) else pos (m - n)

infixl 6 ◌+ℤ◌
unfoldable pub ◌+ℤ◌ : ℤ → ℤ → ℤ
pos m +ℤ pos n = pos (m + n)
pos m +ℤ negsuc n = minus m (suc n)
negsuc m +ℤ pos n = minus n (suc m)
negsuc m +ℤ negsuc n = neg (suc m + suc n)

-- `timespec`, and `timeval` with microseconds: seconds and a fraction.
pub record Stamp : Type 0 where
  pub sec : ℤ
  pub frac : ℤ

-- The constants G of time.hpp and M of time.cpp, and the nanoseconds in a microsecond.
abbrev pub giga : ℕ
giga = 1_000_000_000

abbrev pub mega : ℕ
mega = 1_000_000

abbrev pub kilo : ℕ
kilo = 1_000

unfoldable pub duration_to_timespec : ℤ → Stamp
duration_to_timespec ns = record { sec = quot ns giga; frac = rem ns giga }

unfoldable pub make_timeval : ℤ → Stamp
make_timeval us = record { sec = quot us mega; frac = rem us mega }

-- `duration_cast` to microseconds cuts off towards zero.
unfoldable pub duration_to_timeval : ℤ → Stamp
unfolding make_timeval
duration_to_timeval d = make_timeval (quot d kilo)

unfoldable pub timespec_to_duration : Stamp → ℤ
timespec_to_duration ts = times ts.sec giga +ℤ ts.frac

unfoldable pub timeval_to_duration : Stamp → ℤ
timeval_to_duration tv = times tv.sec giga +ℤ times tv.frac kilo

-- A time point is its distance to the epoch.
unfoldable pub timepoint_to_timespec : ℤ → Stamp
timepoint_to_timespec tp = duration_to_timespec tp

unfoldable pub timepoint_to_timeval : ℤ → Stamp
timepoint_to_timeval tp = duration_to_timeval tp

unfoldable pub timespec_to_timepoint : Stamp → ℤ
timespec_to_timepoint ts = timespec_to_duration ts

unfoldable pub timeval_to_timepoint : Stamp → ℤ
timeval_to_timepoint tv = timeval_to_duration tv
