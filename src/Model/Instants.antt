-- ===== src/Model/Instants.antt =====
-- Go's `time.Time` and `time.Duration`, as far as conMon uses them. An instant is the number of
-- nanoseconds since the zero time (January 1 of the year 1), a duration is a signed number of them.
use gi_con_mon.Common.{
  ℕ, suc, ◌+◌, ◌-◌, ◌/◌, Bool, ltb, ◌==◌, if◌then◌else◌, ℤ, pos, negsuc, sub_ℕ, saturate,
}

abbrev pub Time : Type 0
Time = ℕ

abbrev pub Duration : Type 0
Duration = ℤ

abbrev pub nanoseconds_per_second : ℕ
nanoseconds_per_second = 1_000_000_000

abbrev pub nanoseconds_per_milli : ℕ
nanoseconds_per_milli = 1_000_000

abbrev pub nanoseconds_per_minute : ℕ
nanoseconds_per_minute = 60_000_000_000

-- `t.IsZero()`
abbrev pub is_zero : Time → Bool
is_zero t = t == 0

-- `t.Before(u)`
abbrev pub before : Time → Time → Bool
before t u = ltb t u

-- `t.After(u)`
abbrev pub after : Time → Time → Bool
after t u = ltb u t

-- `t.Add(d)`. An instant before the zero time is taken to the zero time, which no instant is before.
abbrev pub add : Time → Duration → Time
add t (pos n) = t + n
add t (negsuc n) = t - suc n

-- `t.Add(-d)`
abbrev pub add_neg : Time → Duration → Time
add_neg t (pos n) = t - n
add_neg t (negsuc n) = t + suc n

-- `t.Sub(u)`, which stops at the ends of the 64-bit range.
unfoldable pub sub : Time → Time → Duration
unfolding saturate
sub t u = saturate (sub_ℕ t u)

-- `d.Milliseconds()` and `d.Microseconds()`, which cut off towards zero.
abbrev pub truncated : ℤ → ℕ → ℤ
truncated (pos n) k = pos (n / k)
truncated (negsuc n) k = if ltb (n + 1) k then pos 0 else negsuc ((n + 1) / k - 1)

abbrev pub milliseconds : Duration → ℤ
milliseconds d = truncated d nanoseconds_per_milli

abbrev pub microseconds : Duration → ℤ
microseconds d = truncated d 1_000
