-- ===== src/Perf.antt =====
-- FFOS/perf.h on UNIX: reading a process's counters, their difference and their sum. The system calls
-- and the arithmetic of times (ffbase) are parameters.
pub mod Laws
pub mod Examples
use ffos.Base.{
  ℕ, zero, suc, ◌+◌, ◌%◌, ◌≡◌, ◌<◌, Bool, true, false, ◌&&◌, ◌||◌, Option, none, some,
  if◌then◌else◌, ◌==◌,
}
use ffos.Base.Int.{u32, add32, sub32}
use ffos.Time.{FfTime, Timeval, Timespec, from_timeval, from_timespec}

-- `struct ffps_perf`
pub record PerfInfo : Type 0 where
  pub realtime : FfTime
  pub cputime : FfTime
  pub usertime : FfTime
  pub systime : FfTime
  pub pagefaults : ℕ
  pub maxrss : ℕ
  pub inblock : ℕ
  pub outblock : ℕ
  pub vctxsw : ℕ
  pub ivctxsw : ℕ

-- `enum FFPS_PERF`: the bits 1, 2, 4 and 8 of the flags. FFPS_PERF_RUSAGE is both of the last two.
pub record PerfFlags : Type 0 where
  pub want_realtime : Bool
  pub want_cputime : Bool
  pub want_septime : Bool
  pub want_counters : Bool

-- `flags & FFPS_PERF_RUSAGE`
abbrev pub has_rusage : PerfFlags → Bool
has_rusage f = f.want_septime || f.want_counters

-- `struct rusage`
pub record Rusage : Type 0 where
  pub ru_utime : Timeval
  pub ru_stime : Timeval
  pub ru_minflt : ℕ
  pub ru_majflt : ℕ
  pub ru_maxrss : ℕ
  pub ru_inblock : ℕ
  pub ru_oublock : ℕ
  pub ru_nvcsw : ℕ
  pub ru_nivcsw : ℕ

pub data Clock : Type 0 where
  monotonic process_cputime thread_cputime : Clock

pub data Who : Type 0 where
  whole_process one_thread : Who

abbrev pub cpu_clock : Who → Clock
cpu_clock whole_process = process_cputime
cpu_clock one_thread = thread_cputime

-- clock_gettime and getrusage: `none` stands for -1.
module _ {E : Type 0} (clock_call : Clock → E → Option Timespec × E)
    (rusage_call : Who → E → Option Rusage × E) where
  -- A part of the answer: whether the system call has succeeded.
  abbrev pub set_realtime : PerfInfo → Option Timespec × E → Bool × (PerfInfo × E)
  set_realtime p (none, e) = (false, (p, e))
  set_realtime p (some ts, e) = (true, (record p { realtime = from_timespec ts }, e))

  abbrev pub set_cputime : PerfInfo → Option Timespec × E → Bool × (PerfInfo × E)
  set_cputime p (none, e) = (false, (p, e))
  set_cputime p (some ts, e) = (true, (record p { cputime = from_timespec ts }, e))

  abbrev pub set_rusage : PerfInfo → Option Rusage × E → Bool × (PerfInfo × E)
  set_rusage p (none, e) = (false, (p, e))
  set_rusage p (some u, e) = (
    true,
    (
      record p {
        usertime = from_timeval u.ru_utime;
        systime = from_timeval u.ru_stime;
        pagefaults = (u.ru_minflt + u.ru_majflt) % u32;
        maxrss = u.ru_maxrss % u32;
        inblock = u.ru_inblock % u32;
        outblock = u.ru_oublock % u32;
        vctxsw = u.ru_nvcsw % u32;
        ivctxsw = u.ru_nivcsw % u32;
      },
      e,
    ),
  )

  -- `_ffps_perf`: whether it returns 0, and what it has filled in.
  unfoldable pub read_perf : Who → PerfFlags → PerfInfo → E → Bool × (PerfInfo × E)
  read_perf who f p e =
      let (ok1, (p1, e1)) =
        if f.want_realtime then set_realtime p (clock_call monotonic e) else (true, (p, e)) in
      let (ok2, (p2, e2)) =
        if has_rusage f then set_rusage p1 (rusage_call who e1) else (true, (p1, e1)) in
      let (ok3, (p3, e3)) =
        if f.want_cputime
        then set_cputime p2 (clock_call (cpu_clock who) e2)
        else (true, (p2, e2)) in
      (ok1 && (ok2 && ok3), (p3, e3))

-- fftime_add and fftime_sub
module _ (time_add time_sub : FfTime → FfTime → FfTime) where
  -- `ffps_perf_diff`: what `stop` becomes.
  unfoldable pub perf_diff : PerfInfo → PerfInfo → PerfInfo
  perf_diff start stop = record {
    realtime = time_sub stop.realtime start.realtime;
    cputime = time_sub stop.cputime start.cputime;
    usertime = time_sub stop.usertime start.usertime;
    systime = time_sub stop.systime start.systime;
    pagefaults = sub32 stop.pagefaults start.pagefaults;
    maxrss = sub32 stop.maxrss start.maxrss;
    inblock = sub32 stop.inblock start.inblock;
    outblock = sub32 stop.outblock start.outblock;
    vctxsw = sub32 stop.vctxsw start.vctxsw;
    ivctxsw = sub32 stop.ivctxsw start.ivctxsw;
  }

  -- `ffps_perf_add`: what `dst` becomes.
  unfoldable pub perf_add : PerfInfo → PerfInfo → PerfInfo
  perf_add dst src = record {
    realtime = time_add dst.realtime src.realtime;
    cputime = time_add dst.cputime src.cputime;
    usertime = time_add dst.usertime src.usertime;
    systime = time_add dst.systime src.systime;
    pagefaults = add32 dst.pagefaults src.pagefaults;
    maxrss = add32 dst.maxrss src.maxrss;
    inblock = add32 dst.inblock src.inblock;
    outblock = add32 dst.outblock src.outblock;
    vctxsw = add32 dst.vctxsw src.vctxsw;
    ivctxsw = add32 dst.ivctxsw src.ivctxsw;
  }
