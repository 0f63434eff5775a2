-- ===== src/Semaphore.antt =====
-- FFOS/semaphore.h on Linux and macOS: opening, waiting with and without a limit, posting, closing.
-- The POSIX semaphores and the clock are the parameter `SemSys`; -1 is `false` or `none`.
pub mod Wait
pub mod Examples
use ffos.Base.{
  ℕ, zero, suc, ◌+◌, ◌*◌, ◌/◌, ◌%◌, ◌-◌, ◌≡◌, Bool, true, false, ◌&&◌, not, Option, none, some,
  ◌==◌, if◌then◌else◌,
}
use ffos.Base.Int.{u32}
use ffos.Retry.{retry}

-- `struct _ffsem`: a named semaphore is the system's, an unnamed one is part of the structure.
pub data FfSem : Type 0 where
  named unnamed : ℕ → FfSem

pub record Timespec : Type 0 where
  pub tv_sec : ℕ
  pub tv_nsec : ℕ

abbrev pub eagain : ℕ
eagain = 11

abbrev pub einval : ℕ
einval = 22

abbrev pub etimedout : ℕ
etimedout = 110

-- `(ffuint)-1`
abbrev pub forever : ℕ
forever = u32 - 1

pub record SemSys (E : Type 0) : Type 0 where
  pub last_error : E → ℕ
  pub set_error : ℕ → E → E
  pub last_error-set_error : (c : ℕ) (e : E) → last_error (set_error c e) ≡ c
  -- sem_trywait, sem_wait, sem_timedwait, sem_post: whether they succeed
  pub try_wait : ℕ → E → Bool × E
  pub wait : ℕ → E → Bool × E
  pub timed_wait : ℕ → Timespec → E → Bool × E
  pub post : ℕ → E → Bool × E
  -- clock_gettime of CLOCK_REALTIME
  pub clock : E → Timespec
  -- the memory of a structure, sem_init, sem_open, and their opposites
  pub new : E → Option ℕ × E
  pub init : ℕ → ℕ → E → Bool × E
  pub open_named : ℕ → ℕ → ℕ → E → Option ℕ × E
  pub free : E → E
  pub close_named : ℕ → E → E
  pub destroy : ℕ → E → E

module _ {E : Type 0} (sys : SemSys E) where
  open sys use {
    last_error, set_error, try_wait, timed_wait, clock, new, init, open_named, free, close_named,
    destroy,
  }

  -- Linux: `psem`, or the address of `sem`
  abbrev pub handle : FfSem → ℕ
  handle (named p) = p
  handle (unnamed a) = a

  abbrev pub no_wait : Bool × E → Bool × E
  no_wait (true, e) = (true, e)
  no_wait (false, e) = if last_error e == eagain then (false, set_error etimedout e) else (false, e)

  -- The absolute time behind so many milliseconds.
  unfoldable pub deadline : Timespec → ℕ → Timespec
  deadline ts ms = record {
    tv_sec = ts.tv_sec + ms / 1000;
    tv_nsec = ts.tv_nsec + (ms % 1000) * 1000 * 1000;
  }

  -- `ffsem_wait` on Linux
  unfoldable pub wait_linux : Option FfSem → ℕ → ℕ → E → Option (Bool × E)
  unfolding deadline
  wait_linux none ms fuel e = some (false, set_error einval e)
  wait_linux (some s) ms fuel e =
      if ms == 0
      then some (no_wait (try_wait (handle s) e))
      else if ms == forever
      then retry last_error (sys.wait (handle s)) fuel e
      else retry last_error (timed_wait (handle s) (deadline (clock e) ms)) fuel e

  -- `ffsem_wait` on macOS, where a semaphore is the system's
  unfoldable pub wait_apple : Option ℕ → ℕ → ℕ → E → Option (Bool × E)
  wait_apple none ms fuel e = some (false, set_error einval e)
  wait_apple (some s) ms fuel e =
      if ms == 0
      then some (no_wait (try_wait s e))
      else if ms == forever
      then retry last_error (sys.wait s) fuel e
      else some (false, set_error einval e)

  -- `ffsem_post` on Linux
  unfoldable pub post : Option FfSem → E → Bool × E
  post none e = (false, set_error einval e)
  post (some s) e = sys.post (handle s) e

  -- `ffsem_close` on Linux
  unfoldable pub close : Option FfSem → E → E
  close none e = e
  close (some (named p)) e = free (close_named p e)
  close (some (unnamed a)) e = free (destroy a e)

  abbrev pub inited : ℕ → Bool × E → Option FfSem × E
  inited a (true, e) = (some (unnamed a), e)
  inited a (false, e) = (none, free e)

  abbrev pub opened : Option ℕ × E → Option FfSem × E
  opened (some p, e) = (some (named p), e)
  opened (none, e) = (none, free e)

  abbrev pub with_memory : Option ℕ × E → (ℕ → E → Option FfSem × E) → Option FfSem × E
  with_memory (none, e) go = (none, e)
  with_memory (some a, e) go = go a e

  -- `ffsem_open` on Linux: no name for an unnamed semaphore
  unfoldable pub open_sem : Option ℕ → ℕ → ℕ → E → Option FfSem × E
  open_sem none flags value e = with_memory (new e) (λ a e'. inited a (init a value e'))
  open_sem (some name) flags value e =
      with_memory (new e) (λ a e'. opened (open_named name flags value e'))
