-- ===== src/Domain/Clock.antt =====
-- Go's `time.Time` and `time.Duration`: nanoseconds after the zero time, and nanoseconds. Times before
-- the zero time and negative durations do not occur. `now.Sub(t)` of a later `t` is negative, and
-- stops at 0 here: the code compares such differences only with positive durations.
use ferventio_backend.Base.{ℕ, ◌*◌, Bool, ltb, eqb}

abbrev pub Time : Type 0
Time = ℕ

abbrev pub Duration : Type 0
Duration = ℕ

-- t.IsZero()
abbrev pub is_zero : Time → Bool
is_zero t = eqb t 0

-- s.Before(t)
abbrev pub before : Time → Time → Bool
before s t = ltb s t

-- s.After(t)
abbrev pub after : Time → Time → Bool
after s t = ltb t s

abbrev pub millisecond : Duration
millisecond = 1_000_000

abbrev pub second : Duration
second = 1_000_000_000

abbrev pub minute : Duration
minute = 60 * second

abbrev pub hour : Duration
hour = 60 * minute

-- 7 * 24 * time.Hour
abbrev pub week : Duration
week = 7 * 24 * hour
