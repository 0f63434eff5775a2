-- ===== src/Time/Convert.antt =====
-- Round trips between the representations of a time in FFOS/time.h.
use ffos.Base.{
  ℕ, ◌+◌, ◌-◌, ◌*◌, ◌/◌, ◌%◌, ◌≡◌, ◌<◌, ap, ap₂, ◌∙◌, true, ltb, arith, lt→ltb, if_both,
}
use ffos.Base.Int.{u32}
use ffos.Time.{
  u64, FfTime, Timeval, Timespec, WinTime, to_msec, to_usec, from_timeval, to_timeval,
  from_timespec, to_timespec, epoch, intervals, from_winftime, to_winftime,
}

-- A Windows time after 1970 comes back from the conversion to a time and back.
pub to_winftime-from_winftime :
    (ft : WinTime)
    → ft.lo < u32
    → ft.hi < u32
    → epoch < intervals ft
    → to_winftime (from_winftime ft) ≡ ft
unfolding to_winftime from_winftime
to_winftime-from_winftime ft hl hh h =
    let yes : ltb epoch (intervals ft) ≡ true = lt→ltb _ _ h in
    rw yes (ap₂ (λ l h. record { lo = l; hi = h }) (omega arith) (omega arith))

from_intervals :
    (ft : WinTime) (d : ℕ)
    → intervals ft ≡ d + epoch
    → from_winftime ft ≡ record { sec = d / 10000000; nsec = (d % 10000000) * 100 }
unfolding from_winftime
from_intervals ft d e =
    if_both (λ r. r ≡ record { sec = d / 10000000; nsec = (d % 10000000) * 100 })
      (ltb epoch (intervals ft)) _ _
      (λ after. ap₂ (λ s n. record { sec = s; nsec = n }) (omega (arith, e)) (omega (arith, e)))
      (λ not_after.
        let zero_is : d ≡ 0 = ground (arith, e, not_after) in
        ap₂ (λ s n. record { sec = s; nsec = n }) (omega (arith, zero_is)) (omega (arith, zero_is)))

-- A time goes through a Windows time up to the 100 nanoseconds that this counts in: the
-- rest of the nanoseconds is cut off, and nothing else. The seconds may reach the year 30828.
pub from_winftime-to_winftime :
    (t : FfTime)
    → t.sec < 910692730085
    → t.nsec < 1000000000
    → from_winftime (to_winftime t) ≡ record { sec = t.sec; nsec = t.nsec - t.nsec % 100 }
unfolding to_winftime from_winftime
from_winftime-to_winftime t hs hn =
    let d = t.sec * 1000000 * 10 + t.nsec / 100 in
    let whole : intervals (to_winftime t) ≡ d + epoch = omega arith in
    from_intervals (to_winftime t) d whole
    ∙ ap₂ (λ s n. record { sec = s; nsec = n }) (omega arith) (omega arith)

-- A `timeval` with less than a second of microseconds and a `timespec` with 32-bit nanoseconds come
-- back from the conversion to a time and back, and a time from that to a `timespec`.
pub unix_times :
    (tv : Timeval) (ts : Timespec) (t : FfTime)
    → tv.tv_usec < 1000000
    → ts.tv_nsec < u32
    → t.nsec < u32
    → (to_timeval (from_timeval tv) ≡ tv)
      × (to_timespec (from_timespec ts) ≡ ts)
      × (from_timespec (to_timespec t) ≡ t)
unfolding to_timeval from_timeval to_timespec from_timespec
unix_times tv ts t hu hn ht = (
  ap (λ n. record { tv_sec = tv.tv_sec; tv_usec = n }) (omega arith),
  ap (λ n. record { tv_sec = ts.tv_sec; tv_nsec = n }) (omega arith),
  ap (λ n. record { sec = t.sec; nsec = n }) (omega arith),
)

-- While the microseconds fit into 64 bits, the milliseconds are a thousandth of them.
pub to_msec-to_usec :
    (t : FfTime) → t.sec * 1000000 + t.nsec / 1000 < u64 → to_msec t ≡ to_usec t / 1000
unfolding to_msec to_usec
to_msec-to_usec t h = omega arith
