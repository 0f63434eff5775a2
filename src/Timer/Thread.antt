-- ===== src/Timer/Thread.antt =====
-- FFOS/timer.h on Windows: the main thread sends commands to a thread that owns the timer. Each access to
-- what the two share is one step, and the steps of the threads interleave in any order.
use ffos.Base.{ℕ, zero, suc, ◌-◌, ◌*◌, ◌≡◌, ◌≢◌, Bool, true, false, List, [], ◌∷◌}
use ffos.Base.Int.{ℤ, pos, negsuc}

-- _FFTIMER_EXIT, _FFTIMER_START, _FFTIMER_STOP
pub data Command : Type 0 where
  exit_command start_command stop_command : Command

-- `due_ns100`: `period_ms * 1000 * -10`
abbrev pub due : ℤ → ℤ
due (pos zero) = pos 0
due (pos (suc n)) = negsuc (suc n * 10000 - 1)
due (negsuc n) = pos (suc n * 10000)

-- The period that SetWaitableTimer is given
abbrev pub repeat_of : ℤ → ℕ
repeat_of (pos n) = n
repeat_of (negsuc n) = 0

pub record WaitableTimer (W : Type 0) : Type 0 where
  -- SetWaitableTimer and CancelWaitableTimer: zero, or the error code
  pub set_timer : ℤ → ℕ → W → ℕ × W
  pub cancel_timer : W → ℕ × W
  -- `_fftimer_onfire`, which the system calls while the thread waits, and which posts to the queue
  pub on_fire : W → W
  -- `tmr->period_ms`, and `fftimer_start` storing it
  pub period : W → ℤ
  pub set_period : ℤ → W → W

-- Where the main thread is: outside of `_fftimer_cmd`; it has stored the command; it waits for the
-- result; the wait is over; it waits for the thread to end.
pub data MainPc : Type 0 where
  idle : MainPc
  stored waiting answered : Command → MainPc
  joining : MainPc

-- Where the timer thread is: it waits for a command; the wait is over; it has read the command; it has
-- executed it with this result; it has stored the result; it has ended.
pub data ThreadPc : Type 0 where
  sleeping awake : ThreadPc
  has_read : Command → ThreadPc
  executed : ℕ → ThreadPc
  has_stored ended : ThreadPc

-- `tmr->ctl`, `tmr->result` and the two events, which a wait resets
pub record Shared : Type 0 where
  pub ctl : Command
  pub result : ℕ
  pub evt : Bool
  pub evt_result : Bool

-- What was executed with which result, and what the calls returned that did not fail, the last one first;
-- and whether a call of SetEvent or a wait has failed
pub record Log : Type 0 where
  pub done : List (Command × ℕ)
  pub told : List (Command × ℕ)
  pub failed : Bool

module _ {W : Type 0} (sys : WaitableTimer W) where
  open sys use {set_timer, cancel_timer, on_fire, period, set_period}

  -- The command that the thread executes
  unfoldable pub execute : Command → W → ℕ × W
  execute exit_command w = (0, w)
  execute start_command w = set_timer (due (period w)) (repeat_of (period w)) w
  execute stop_command w = cancel_timer w

  pub record State : Type 0 where
    pub main : MainPc
    pub thread : ThreadPc
    pub shared : Shared
    pub world : W
    pub log : Log

  abbrev pub at : MainPc → ThreadPc → Shared → W → Log → State
  at m t s w l = record { main = m; thread = t; shared = s; world = w; log = l }

  abbrev pub behind_signal : Command → MainPc
  behind_signal exit_command = joining
  behind_signal start_command = waiting start_command
  behind_signal stop_command = waiting stop_command

  -- `fftimer_close` waits for the thread all the same.
  abbrev pub behind_failure : Command → MainPc
  behind_failure exit_command = joining
  behind_failure start_command = idle
  behind_failure stop_command = idle

  pub data Step : State → State → Type 0 where
    -- `fftimer_start`, before its command
    store_period :
        (period_ms : ℤ) {t : ThreadPc} {s : Shared} {w : W} {l : Log}
        → Step (at idle t s w l) (at idle t s (set_period period_ms w) l)
    -- `_fftimer_cmd`, with its two failures, which return -1
    store :
        (c : Command) {t : ThreadPc} {s : Shared} {w : W} {l : Log}
        → Step (at idle t s w l) (at (stored c) t (record s { ctl = c }) w l)
    signal :
        {c : Command} {t : ThreadPc} {s : Shared} {w : W} {l : Log}
        → Step (at (stored c) t s w l) (at (behind_signal c) t (record s { evt = true }) w l)
    signal_fails :
        {c : Command} {t : ThreadPc} {s : Shared} {w : W} {l : Log}
        → Step (at (stored c) t s w l) (at (behind_failure c) t s w (record l { failed = true }))
    wait_result :
        {c : Command} {t : ThreadPc} {s : Shared} {w : W} {l : Log}
        → s.evt_result ≡ true
        → Step (at (waiting c) t s w l) (at (answered c) t (record s { evt_result = false }) w l)
    wait_result_fails :
        {c : Command} {t : ThreadPc} {s : Shared} {w : W} {l : Log}
        → Step (at (waiting c) t s w l) (at idle t s w (record l { failed = true }))
    answer :
        {c : Command} {t : ThreadPc} {s : Shared} {w : W} {l : Log}
        → Step
            (at (answered c) t s w l)
            (at idle t s w (record l { told = (c, s.result) ∷ l.told }))
    -- `_fftimer_thread`: if its wait fails it ends; if it cannot wake the main thread it goes on (an
    -- assertion that is compiled out of a release).
    wait_command :
        {m : MainPc} {s : Shared} {w : W} {l : Log}
        → s.evt ≡ true
        → Step (at m sleeping s w l) (at m awake (record s { evt = false }) w l)
    wait_command_fails :
        {m : MainPc} {s : Shared} {w : W} {l : Log}
        → Step (at m sleeping s w l) (at m ended s w (record l { failed = true }))
    fire :
        {m : MainPc} {s : Shared} {w : W} {l : Log}
        → Step (at m sleeping s w l) (at m sleeping s (on_fire w) l)
    read_command :
        {m : MainPc} {s : Shared} {w : W} {l : Log}
        → Step (at m awake s w l) (at m (has_read s.ctl) s w l)
    leave :
        {m : MainPc} {s : Shared} {w : W} {l : Log}
        → Step (at m (has_read exit_command) s w l) (at m ended s w l)
    perform :
        {m : MainPc} {c : Command} {s : Shared} {w : W} {l : Log}
        → c ≢ exit_command
        → Step (at m (has_read c) s w l) (
            at m
              (executed (execute c w).0)
              s
              (execute c w).1
              (record l { done = (c, (execute c w).0) ∷ l.done }))
    store_result :
        {m : MainPc} {r : ℕ} {s : Shared} {w : W} {l : Log}
        → Step (at m (executed r) s w l) (at m has_stored (record s { result = r }) w l)
    signal_result :
        {m : MainPc} {s : Shared} {w : W} {l : Log}
        → Step (at m has_stored s w l) (at m sleeping (record s { evt_result = true }) w l)
    signal_result_fails :
        {m : MainPc} {s : Shared} {w : W} {l : Log}
        → Step (at m has_stored s w l) (at m sleeping s w (record l { failed = true }))

  pub data Reach (s : State) : State → Type 0 where
    here : Reach s s
    next : {t u : State} → Reach s t → Step t u → Reach s u

  -- Behind `fftimer_create`: the memory is zeroed, and the events are not set.
  abbrev pub created : W → State
  created w =
      at idle sleeping (record { ctl = exit_command; result = 0; evt = false; evt_result = false })
        w (record { done = []; told = []; failed = false })
