-- ===== src/Perf/Laws.antt =====
-- The sum and the difference of the counters of FFOS/perf.h.
use ffos.Base.{ℕ, ◌≡◌, ◌<◌, arith}
use ffos.Base.Int.{u32, add32, sub32}
use ffos.Time.{FfTime, u64}
use ffos.Perf.{PerfInfo, perf_diff, perf_add}

add32-sub32 : (a b : ℕ) → a < u32 → b < u32 → add32 (sub32 a b) b ≡ a
add32-sub32 a b ha hb = omega arith

abbrev pub IsTime : FfTime → Type 0
IsTime t = (t.sec < u64) × (t.nsec < 1000000000)

-- Times with seconds of 64 bits and less than a second of nanoseconds, and counters of 32 bits.
pub record IsPerf (p : PerfInfo) : Type 0 where
  pub realtime_in : IsTime p.realtime
  pub cputime_in : IsTime p.cputime
  pub usertime_in : IsTime p.usertime
  pub systime_in : IsTime p.systime
  pub pagefaults_in : p.pagefaults < u32
  pub maxrss_in : p.maxrss < u32
  pub inblock_in : p.inblock < u32
  pub outblock_in : p.outblock < u32
  pub vctxsw_in : p.vctxsw < u32
  pub ivctxsw_in : p.ivctxsw < u32

-- Adding the start to the difference gives the end back, also where a counter has wrapped round
-- between them, provided that ffbase's sum of times undoes its difference.
pub perf_add-perf_diff :
    (time_add time_sub : FfTime → FfTime → FfTime)
    (undo : (a b : FfTime) → IsTime a → IsTime b → time_add (time_sub a b) b ≡ a)
    (start stop : PerfInfo)
    → IsPerf start
    → IsPerf stop
    → perf_add time_add time_sub (perf_diff time_add time_sub start stop) start ≡ stop
unfolding perf_add perf_diff
perf_add-perf_diff time_add time_sub undo start stop a b = λ i. record {
  realtime = undo stop.realtime start.realtime b.realtime_in a.realtime_in i;
  cputime = undo stop.cputime start.cputime b.cputime_in a.cputime_in i;
  usertime = undo stop.usertime start.usertime b.usertime_in a.usertime_in i;
  systime = undo stop.systime start.systime b.systime_in a.systime_in i;
  pagefaults = add32-sub32 stop.pagefaults start.pagefaults b.pagefaults_in a.pagefaults_in i;
  maxrss = add32-sub32 stop.maxrss start.maxrss b.maxrss_in a.maxrss_in i;
  inblock = add32-sub32 stop.inblock start.inblock b.inblock_in a.inblock_in i;
  outblock = add32-sub32 stop.outblock start.outblock b.outblock_in a.outblock_in i;
  vctxsw = add32-sub32 stop.vctxsw start.vctxsw b.vctxsw_in a.vctxsw_in i;
  ivctxsw = add32-sub32 stop.ivctxsw start.ivctxsw b.ivctxsw_in a.ivctxsw_in i;
}
