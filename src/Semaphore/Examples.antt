-- ===== src/Semaphore/Examples.antt =====
-- Runs of the semaphores on a system where the first two waits are interrupted, and the theorems there.
use ffos.Base.{ℕ, ◌+◌, ◌≡◌, ◌≤◌, refl, Bool, true, false, none, some, ltb, if◌then◌else◌, arith}
use ffos.Retry.{eintr, retry}
use ffos.Semaphore.{
  unnamed, Timespec, SemSys, einval, forever, deadline, wait_linux, wait_apple, open_sem,
}

-- Outside there are the error code and the number of calls.
abbrev interrupted_twice : ℕ × ℕ → Bool × (ℕ × ℕ)
interrupted_twice (c, n) = if ltb n 2 then (false, (eintr, n + 1)) else (true, (c, n + 1))

abbrev small : SemSys (ℕ × ℕ)
small = record {
  last_error = λ e. e.0;
  set_error = λ c e. (c, e.1);
  last_error-set_error = λ c e. refl;
  try_wait = λ s e. (false, (11, e.1));
  wait = λ s e. interrupted_twice e;
  timed_wait =
      λ s ts e. if ltb ts.tv_nsec 1000000000 then interrupted_twice e else (false, (einval, e.1));
  post = λ s e. (true, e);
  clock = λ e. record { tv_sec = 100; tv_nsec = 700000000 };
  new = λ e. (some 64, e);
  init = λ a v e. (true, e);
  open_named = λ n f v e. (some n, e);
  free = λ e. e;
  close_named = λ p e. e;
  destroy = λ a e. e;
}

runs :
    (wait_linux small (some (unnamed 64)) 0 5 (0, 0) ≡ some (false, (110, 0)))
    × (wait_linux small (some (unnamed 64)) forever 5 (0, 0) ≡ some (true, (4, 3)))
    × (wait_linux small (some (unnamed 64)) 200 5 (0, 0) ≡ some (true, (4, 3)))
    × (wait_linux small (some (unnamed 64)) 300 5 (0, 0) ≡ some (false, (22, 0)))
    × (wait_apple small (some 64) 300 5 (0, 0) ≡ some (false, (22, 0)))
    × ((open_sem small none 0 1 (0, 0)).0 ≡ some (unnamed 64))
unfolding wait_linux wait_apple retry deadline open_sem
runs = (refl, refl, refl, refl, refl, refl)

refused :
    (ts : Timespec) → 1000000000 ≤ ts.tv_nsec → small.timed_wait 64 ts (0, 0) ≡ (false, (einval, 0))
refused ts h = ground (arith, h)
