-- ===== src/Timer/Examples.antt =====
-- Runs of the steps of FFOS/timer.h, and the theorems at concrete inputs.
use ffos.Base.{ℕ, suc, ◌≡◌, refl, true, false, [], ◌∷◌}
use ffos.Base.Int.{pos, negsuc}
use ffos.Timer.Thread.{
  start_command, WaitableTimer, idle, waiting, sleeping, execute, State, at, Reach, created, here,
  next, store, signal, wait_result, answer, wait_command, read_command, perform, store_result,
  signal_result, fire,
}
use ffos.Timer.Turns.{Reach-Told}
use ffos.Timer.Returns.{waiting-Returns}

-- The number of firings; the timer refuses a due time that is not relative.
abbrev clock : WaitableTimer ℕ
clock = record {
  set_timer = λ d p w. ((elim d [ pos n ↦ 87 | negsuc n ↦ 0 ]), w);
  cancel_timer = λ w. (0, w);
  on_fire = λ w. suc w;
  period = λ w. pos 100;
  set_period = λ p w. w;
}

abbrev asked : State clock
asked =
    at clock (waiting start_command) sleeping
      (record { ctl = start_command; result = 0; evt = true; evt_result = false }) 0
      (record { done = []; told = []; failed = false })

abbrev replied : State clock
replied =
    at clock idle sleeping
      (record { ctl = start_command; result = 0; evt = false; evt_result = false }) 1
      (record { done = (start_command, 0) ∷ []; told = (start_command, 0) ∷ []; failed = false })

to_asked : Reach clock (created clock 0) asked
to_asked = next (next here (store start_command)) signal

to_replied : Reach clock (created clock 0) replied
unfolding execute
to_replied =
    next
      (next
        (next
          (next
            (next
              (next (next (next to_asked (wait_command refl)) read_command)
                (perform (λ e. absurd (cc))))
              store_result)
            signal_result)
          fire)
        (wait_result refl))
      answer

Reach-Told_example : replied.log.told ≡ replied.log.done
Reach-Told_example = Reach-Told clock 0 replied to_replied refl refl

waiting-Returns_example :
    (u : State clock) × Reach clock asked u × (u.main ≡ idle) × (u.log.failed ≡ false)
waiting-Returns_example = waiting-Returns clock 0 asked start_command to_asked refl refl
