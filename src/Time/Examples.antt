-- ===== src/Time/Examples.antt =====
-- Conversions of FFOS/time.h at concrete times.
use ffos.Base.{◌≡◌, refl}
use ffos.Time.{FfTime, WinTime, to_msec, to_usec}

abbrev some_time : FfTime
some_time = record { sec = 1600000000; nsec = 123456789 }

abbrev win : WinTime
win = record { lo = 5; hi = 30000000 }

runs : (to_msec some_time ≡ 1600000000123) × (to_usec some_time ≡ 1600000000123456)
unfolding to_msec to_usec
runs = (refl, refl)
