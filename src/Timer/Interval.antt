-- ===== src/Timer/Interval.antt =====
-- The intervals that the `fftimer_start` of FFOS/timer.h ask the system for.
use ffos.Base.{
  ℕ, zero, suc, ◌+◌, ◌*◌, ◌≡◌, ◌<◌, refl, true, false, arith, ◌==◌, if◌then◌else◌, ap, ◌∙◌,
}
use ffos.Base.Int.{ℤ, pos, negsuc, abs, neg_part, pos_part}
use ffos.Timer.{Spec, zero_spec, spec_of, is_neg, eexist, LinuxTimers, added, start_linux}
use ffos.Timer.Thread.{due}

abbrev pub nanoseconds : Spec → ℕ
nanoseconds s = s.tv_sec * 1000000000 + s.tv_nsec

-- On Linux the first firing is behind as many milliseconds as the period's absolute value, in a valid
-- time, and it repeats at that interval exactly if the period is not negative. On Windows the due
-- time, in units of 100 ns and relative to now if it is negative, is the same for a period that is not
-- negative; but for a negative one it is positive: a date instead of an interval, where Linux waits.
pub spec_of-due :
    (p : ℤ)
    → (nanoseconds (spec_of p).value ≡ abs p * 1000000)
      × ((spec_of p).value.tv_nsec < 1000000000)
      × (is_neg p ≡ false
          → ((spec_of p).interval ≡ (spec_of p).value)
            × (neg_part (due p) * 100 ≡ nanoseconds (spec_of p).value))
      × (is_neg p ≡ true
          → ((spec_of p).interval ≡ zero_spec) × (neg_part (due p) ≡ 0) × (0 < pos_part (due p)))
spec_of-due (pos zero) = (omega arith, omega arith, λ h. (refl, omega arith), λ h. absurd (cc))
spec_of-due (pos (suc n)) = (omega arith, omega arith, λ h. (refl, omega arith), λ h. absurd (cc))
spec_of-due (negsuc n) =
    (omega arith, omega arith, λ h. absurd (cc), λ h. (refl, refl, omega arith))

module _ {E : Type 0} (sys : LinuxTimers E) where
  -- A timer that is in the queue already (EEXIST) is started again, with the new period.
  pub start_linux_again :
      (tmr kq d : ℕ) (p : ℤ) (e e1 : E)
      → sys.epoll_add kq tmr d e ≡ (false, e1)
      → sys.last_error e1 ≡ eexist
      → start_linux sys tmr kq d p e ≡ sys.settime tmr (spec_of p) e1
  unfolding start_linux
  start_linux_again tmr kq d p e e1 add code =
      let there : (sys.last_error e1 == eexist) ≡ true = ground (arith, code) in
      ap (added sys tmr p) add
      ∙ ap (λ t. if t then sys.settime tmr (spec_of p) e1 else (false, e1)) there
