-- ===== src/Time.antt =====
-- The conversions of FFOS/time.h. Numbers are bit patterns: seconds of 64 bits, nanoseconds of 32.
pub mod Convert
pub mod Examples
use ffos.Base.{ℕ, ◌+◌, ◌-◌, ◌*◌, ◌/◌, ◌%◌, ◌^◌, Bool, true, false, ltb, if◌then◌else◌}
use ffos.Base.Int.{u32}

abbrev pub u64 : ℕ
u64 = 2 ^ 64

-- `fftime`
pub record FfTime : Type 0 where
  pub sec : ℕ
  pub nsec : ℕ

-- `struct timeval` and `struct timespec`: the seconds, and the rest in the structure's unit
pub record Timeval : Type 0 where
  pub tv_sec : ℕ
  pub tv_usec : ℕ

pub record Timespec : Type 0 where
  pub tv_sec : ℕ
  pub tv_nsec : ℕ

pub record WinTime : Type 0 where
  pub lo : ℕ
  pub hi : ℕ

unfoldable pub to_msec : FfTime → ℕ
to_msec t = (t.sec * 1000 + t.nsec / 1000000) % u64

unfoldable pub to_usec : FfTime → ℕ
to_usec t = (t.sec * 1000000 + t.nsec / 1000) % u64

unfoldable pub from_timeval : Timeval → FfTime
from_timeval tv = record { sec = tv.tv_sec; nsec = ((tv.tv_usec % u32) * 1000) % u32 }

unfoldable pub to_timeval : FfTime → Timeval
to_timeval t = record { tv_sec = t.sec; tv_usec = t.nsec / 1000 }

unfoldable pub from_timespec : Timespec → FfTime
from_timespec ts = record { sec = ts.tv_sec; nsec = ts.tv_nsec % u32 }

unfoldable pub to_timespec : FfTime → Timespec
to_timespec t = record { tv_sec = t.sec; tv_nsec = t.nsec }

-- FFTIME_100NS
abbrev pub epoch : ℕ
epoch = 116444736000000000

-- `hi << 32 | lo`
abbrev pub intervals : WinTime → ℕ
intervals ft = ft.hi * u32 + ft.lo

unfoldable pub from_winftime : WinTime → FfTime
from_winftime ft =
    let i = intervals ft - epoch in
    if ltb epoch (intervals ft)
    then record { sec = i / 10000000; nsec = (i % 10000000) * 100 }
    else record { sec = 0; nsec = 0 }

unfoldable pub to_winftime : FfTime → WinTime
to_winftime t =
    let d = (t.sec * 1000000 * 10 + t.nsec / 100 + epoch) % u64 in
    record { lo = d % u32; hi = d / u32 }
