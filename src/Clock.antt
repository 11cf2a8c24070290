-- ===== src/Clock.antt =====
-- internal/ports/clock.go and the parts of Go's `time` that the service computes with. A `Time`
-- counts nanoseconds since 1970 (a reading of the system clock); Go's zero `time.Time`, which
-- the code uses for "not set", is `none` of an `Option Time`. A `Duration` is a signed count of
-- nanoseconds.
use wb_trial_task.Common.{ℕ, ◌+◌, ◌-◌, ◌*◌, ◌/◌, suc, ℤ, pos, negsuc}

abbrev pub Time : Type 0
Time = ℕ

abbrev pub Duration : Type 0
Duration = ℤ

-- `t.Unix()`
abbrev pub unix : Time → ℕ
unix t = t / 1000000000

-- `t.UnixMilli()`
abbrev pub unix_milli : Time → ℕ
unix_milli t = t / 1000000

-- `t.Add(d)`. A sum before 1970 is read as 1970: no reading of the clock lies before it.
abbrev pub add_duration : Time → Duration → Time
add_duration t (pos d) = t + d
add_duration t (negsuc d) = t - suc d

-- `t.Add(-d)`
abbrev pub sub_duration : Time → Duration → Time
sub_duration t (pos d) = t - d
sub_duration t (negsuc d) = t + suc d

abbrev pub millisecond : ℕ
millisecond = 1000000

abbrev pub second : ℕ
second = 1000000000

abbrev pub minute : ℕ
minute = 60 * second

abbrev pub hour : ℕ
hour = 60 * minute
