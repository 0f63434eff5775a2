-- ===== src/Semaphore/Wait.antt =====
-- Waiting for a semaphore: FFOS/semaphore.h repeats an interrupted call, and computes a deadline.
use ffos.Base.{
  ℕ, suc, ◌+◌, ◌*◌, ◌%◌, ◌≡◌, ◌≢◌, ◌<◌, ◌≤◌, ap, ◌∙◌, Bool, false, some, ◌==◌, if◌then◌else◌,
  Bool-cases, inl, inr, arith,
}
use ffos.Retry.{eintr, is_interrupted, Interrupted, answer_after, retry-Interrupted}
use ffos.Semaphore.{FfSem, Timespec, SemSys, einval, forever, handle, deadline, wait_linux}

module _ {E : Type 0} (sys : SemSys E) where
  open sys use {last_error, set_error}

  -- The system call of a wait that may block.
  abbrev pub blocking : FfSem → ℕ → E → E → Bool × E
  blocking s ms start =
      if ms == forever
      then sys.wait (handle sys s)
      else sys.timed_wait (handle sys s) (deadline sys (sys.clock start) ms)

  -- A wait that may block repeats its system call, with the same deadline, as long as signals
  -- interrupt it. It returns the first other answer, so that EINTR never reaches the caller, and one
  -- more round than there are interruptions is enough.
  pub wait_linux-Interrupted :
      (s : FfSem) (ms n fuel : ℕ) (e : E)
      → ms ≢ 0
      → n < fuel
      → Interrupted last_error (blocking s ms e) n e
      → (wait_linux sys (some s) ms fuel e ≡ some (answer_after last_error (blocking s ms e) n e))
        × (is_interrupted last_error (answer_after last_error (blocking s ms e) n e) ≡ false)
  unfolding wait_linux
  wait_linux-Interrupted s ms n fuel e nz h i =
      let some_time : (ms == 0) ≡ false = ground arith in
      let (loop, final) = retry-Interrupted last_error (blocking s ms e) n fuel e h i in
      elim (Bool-cases (ms == forever)) [
        | inl y ↦ (rw (some_time, y) (rw y at loop), final)
        | inr m ↦ (rw (some_time, m) (rw m at loop), final)
      ]

  -- The deadline is as far ahead as the caller asks. But if the nanoseconds of the clock and of the
  -- remaining milliseconds add up to a second or more, the nanoseconds of the deadline are a second
  -- or more too.
  pub deadline_lem :
      (ts : Timespec) (ms : ℕ)
      → let d = deadline sys ts ms in
        (d.tv_sec * 1000000000 + d.tv_nsec ≡ ts.tv_sec * 1000000000 + ts.tv_nsec + ms * 1000000)
        × (1000000000 ≤ ts.tv_nsec + (ms % 1000) * 1000000 → 1000000000 ≤ d.tv_nsec)
  unfolding deadline
  deadline_lem ts ms = (omega arith, λ h. omega arith)

  -- If the nanoseconds add up to a second or more, and the system refuses such a time on a semaphore
  -- that would block (with EINVAL, as POSIX has it), then a wait with a limit fails with EINVAL at
  -- once instead of waiting.
  pub wait_linux-deadline :
      (s : FfSem) (ms fuel : ℕ) (e : E)
      (refused : (ts : Timespec)
        → 1000000000 ≤ ts.tv_nsec
        → sys.timed_wait (handle sys s) ts e ≡ (false, set_error einval e))
      → ms ≢ 0
      → ms ≢ forever
      → 1000000000 ≤ (sys.clock e).tv_nsec + (ms % 1000) * 1000000
      → wait_linux sys (some s) ms (suc fuel) e ≡ some (false, set_error einval e)
  wait_linux-deadline s ms fuel e refused nz nf over =
      let limited : (ms == forever) ≡ false = ground arith in
      let r = refused (deadline sys (sys.clock e) ms) ((deadline_lem (sys.clock e) ms).1 over) in
      let call_is : blocking s ms e e ≡ (false, set_error einval e) = rw limited r in
      let errno : (last_error (set_error einval e) == eintr) ≡ false =
        ground (arith, sys.last_error-set_error einval e) in
      let not_interrupted : is_interrupted last_error (blocking s ms e e) ≡ false =
        ap (is_interrupted last_error) call_is ∙ errno in
      (wait_linux-Interrupted s ms 0 (suc fuel) e nz (omega arith) not_interrupted).0
      ∙ ap some call_is
