-- ===== src/Timer.antt =====
-- FFOS/timer.h: timers of a kernel queue, on Linux, BSD and Windows. The system calls are parameters.
pub mod Interval
pub mod Thread
pub mod Turns
pub mod Returns
pub mod Examples
use ffos.Base.{
  ℕ, zero, suc, ◌+◌, ◌-◌, ◌*◌, ◌/◌, ◌%◌, Bool, true, false, Option, none, some, ◌&&◌, not, ◌==◌,
  if◌then◌else◌,
}
use ffos.Base.Int.{ℤ, pos, negsuc, abs}

abbrev pub eexist : ℕ
eexist = 17

-- `struct timespec` and `struct itimerspec`
pub record Spec : Type 0 where
  pub tv_sec : ℕ
  pub tv_nsec : ℕ

pub record TimerSpec : Type 0 where
  pub value : Spec
  pub interval : Spec

abbrev pub zero_spec : Spec
zero_spec = record { tv_sec = 0; tv_nsec = 0 }

abbrev pub is_neg : ℤ → Bool
is_neg (pos n) = false
is_neg (negsuc n) = true

-- `its` for a period other than the least `int`, of which the negation overflows
abbrev pub spec_of : ℤ → TimerSpec
spec_of period =
    let ms = abs period in
    let first : Spec = record { tv_sec = ms / 1000; tv_nsec = (ms % 1000) * 1000000 } in
    record { value = first; interval = if is_neg period then zero_spec else first }

pub record LinuxTimers (E : Type 0) : Type 0 where
  -- epoll_ctl with EPOLL_CTL_ADD, timerfd_settime: whether they succeed
  pub epoll_add : ℕ → ℕ → ℕ → E → Bool × E
  pub settime : ℕ → TimerSpec → E → Bool × E
  pub last_error : E → ℕ

module _ {E : Type 0} (sys : LinuxTimers E) where
  open sys use {epoll_add, settime, last_error}

  abbrev pub added : ℕ → ℤ → Bool × E → Bool × E
  added tmr period (true, e) = settime tmr (spec_of period) e
  added tmr period (false, e) =
      if last_error e == eexist then settime tmr (spec_of period) e else (false, e)

  -- `fftimer_start` on Linux
  unfoldable pub start_linux : ℕ → ℕ → ℕ → ℤ → E → Bool × E
  start_linux tmr kq data_ptr period e = added tmr period (epoll_add kq tmr data_ptr e)

  -- `fftimer_stop` on Linux
  unfoldable pub stop_linux : ℕ → E → Bool × E
  stop_linux tmr e = settime tmr (record { value = zero_spec; interval = zero_spec }) e

-- The change that kevent is asked for: EV_ADD with EV_ONESHOT or not, or EV_DELETE
pub data KeventTimer : Type 0 where
  add_timer : ℕ → Bool → ℕ → KeventTimer
  delete_timer : KeventTimer

-- On BSD a timer is a byte of memory: whether it is in the queue.
pub record BsdTimers (E : Type 0) : Type 0 where
  pub kevent : ℕ → ℕ → KeventTimer → E → Bool × E
  pub alloc : E → Option ℕ × E
  pub free : ℕ → E → E
  pub byte_at : E → ℕ → Bool
  pub set_byte : ℕ → Bool → E → E

module _ {E : Type 0} (sys : BsdTimers E) where
  open sys use {kevent, alloc, free, byte_at, set_byte}

  abbrev pub marked : ℕ → Bool → Bool × E → Bool × E
  marked tmr b (true, e) = (true, set_byte tmr b e)
  marked tmr b (false, e) = (false, e)

  abbrev pub new_timer : Option ℕ × E → Option ℕ × E
  new_timer (none, e) = (none, e)
  new_timer (some tmr, e) = (some tmr, set_byte tmr false e)

  -- `fftimer_create`, `fftimer_start`, `fftimer_stop`, `fftimer_close` on BSD
  unfoldable pub create_bsd : E → Option ℕ × E
  create_bsd e = new_timer (alloc e)

  unfoldable pub start_bsd : ℕ → ℕ → ℕ → ℤ → E → Bool × E
  start_bsd tmr kq data_ptr period e =
      marked tmr true (kevent kq tmr (add_timer (abs period) (is_neg period) data_ptr) e)

  unfoldable pub stop_bsd : ℕ → ℕ → E → Bool × E
  stop_bsd tmr kq e = marked tmr false (kevent kq tmr delete_timer e)

  unfoldable pub close_bsd : Option ℕ → ℕ → E → E
  close_bsd none kq e = e
  close_bsd (some tmr) kq e =
      free tmr (if byte_at e tmr then (kevent kq tmr delete_timer e).1 else e)
