-- ===== src/Perf/Examples.antt =====
-- Runs of the performance counters, and the theorem at two of them.
use ffos.Base.{ℕ, ◌+◌, ◌-◌, ◌*◌, ◌/◌, ◌%◌, ◌≡◌, refl, ap₂, true, false, none, some, arith}
use ffos.Time.{FfTime, from_timeval, u64}
use ffos.Perf.{PerfInfo, Rusage, whole_process, read_perf}
use ffos.Perf.Laws.{IsTime, IsPerf}

abbrev zero_time : FfTime
zero_time = record { sec = 0; nsec = 0 }

-- A sum and a difference of times that carry from the nanoseconds, with seconds modulo 2^64.
abbrev time_add : FfTime → FfTime → FfTime
time_add a b = record {
  sec = (a.sec + b.sec + (a.nsec + b.nsec) / 1000000000) % u64;
  nsec = (a.nsec + b.nsec) % 1000000000;
}

abbrev time_sub : FfTime → FfTime → FfTime
time_sub a b = record {
  sec = (a.sec + 2 * u64 - b.sec - (b.nsec + 999999999 - a.nsec) / 1000000000) % u64;
  nsec = (a.nsec + 1000000000 - b.nsec) % 1000000000;
}

undo : (a b : FfTime) → IsTime a → IsTime b → time_add (time_sub a b) b ≡ a
undo a b (s_in, an) (bs, bn) =
    ap₂ (λ s n. record { sec = s; nsec = n }) (omega (arith, s_in, an, bs, bn))
      (omega (arith, s_in, an, bs, bn))

abbrev start : PerfInfo
start = record {
  realtime = record { sec = 10; nsec = 900000000 };
  cputime = zero_time;
  usertime = zero_time;
  systime = zero_time;
  pagefaults = 4294967290;
  maxrss = 100;
  inblock = 0;
  outblock = 0;
  vctxsw = 5;
  ivctxsw = 6;
}

abbrev stop : PerfInfo
stop = record start { pagefaults = 4; vctxsw = 9 }

abbrev some_usage : Rusage
some_usage = record {
  ru_utime = record { tv_sec = 1; tv_usec = 2 };
  ru_stime = record { tv_sec = 3; tv_usec = 4 };
  ru_minflt = 5;
  ru_majflt = 6;
  ru_maxrss = 7;
  ru_inblock = 8;
  ru_oublock = 9;
  ru_nvcsw = 10;
  ru_nivcsw = 11;
}

-- A reading with a clock that fails and counters that do not.
runs :
    let r =
      read_perf {E = ℕ}
        (λ c e. (none, e))
        (λ w e. (some some_usage, e))
        whole_process
        (record {
          want_realtime = true;
          want_cputime = false;
          want_septime = true;
          want_counters = false;
        })
        start
        0 in
    (r.0 ≡ false)
    × (r.1.0.pagefaults ≡ 11)
    × (r.1.0.systime ≡ record { sec = 3; nsec = 4000 })
    × (r.1.0.realtime ≡ start.realtime)
unfolding read_perf from_timeval
runs = (refl, refl, refl, refl)

start-IsPerf : IsPerf start
start-IsPerf = record {
  realtime_in = (omega arith, omega arith);
  cputime_in = (omega arith, omega arith);
  usertime_in = (omega arith, omega arith);
  systime_in = (omega arith, omega arith);
  pagefaults_in = omega arith;
  maxrss_in = omega arith;
  inblock_in = omega arith;
  outblock_in = omega arith;
  vctxsw_in = omega arith;
  ivctxsw_in = omega arith;
}

stop-IsPerf : IsPerf stop
stop-IsPerf = record {
  realtime_in = (omega arith, omega arith);
  cputime_in = (omega arith, omega arith);
  usertime_in = (omega arith, omega arith);
  systime_in = (omega arith, omega arith);
  pagefaults_in = omega arith;
  maxrss_in = omega arith;
  inblock_in = omega arith;
  outblock_in = omega arith;
  vctxsw_in = omega arith;
  ivctxsw_in = omega arith;
}
