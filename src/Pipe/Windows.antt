-- ===== src/Pipe/Windows.antt =====
-- FFOS/pipe.h on Windows: accepting a client, reading, and a pipe that does not wait. The system calls are
-- the parameter `WinPipeSys`, the task's flag `active` is passed on explicitly.
use ffos.Base.{
  ℕ, ◌-◌, ◌≡◌, ◌≢◌, refl, Bool, true, false, Option, none, some, [], min, ◌==◌, if◌then◌else◌,
  if_both, arith,
}
use ffos.Base.Int.{u32}
use ffos.Ffbase.{Str}

abbrev pub error_broken_pipe : ℕ
error_broken_pipe = 109

abbrev pub error_no_data : ℕ
error_no_data = 232

abbrev pub error_pipe_connected : ℕ
error_pipe_connected = 535

abbrev pub error_io_incomplete : ℕ
error_io_incomplete = 996

abbrev pub error_io_pending : ℕ
error_io_pending = 997

abbrev pub wsaewouldblock : ℕ
wsaewouldblock = 10035

pub record WinPipeSys (E : Type 0) : Type 0 where
  -- ConnectNamedPipe, with a task or without; GetOverlappedResult: whether they succeed
  pub connect_pipe : ℕ → Bool → E → Bool × E
  pub overlapped_result : E → Bool × E
  pub read_file : ℕ → ℕ → E → Option Str × E
  -- CreatePipe, SetNamedPipeHandleState, CloseHandle
  pub create_pipe : E → Option (ℕ × ℕ) × E
  pub set_nowait : ℕ → E → Bool × E
  pub close : ℕ → E → E
  pub last_error : E → ℕ
  pub set_error : ℕ → E → E
  pub last_error-set_error : (c : ℕ) (e : E) → last_error (set_error c e) ≡ c

module _ {E : Type 0} (sys : WinPipeSys E) where
  open sys use {
    connect_pipe, overlapped_result, read_file, last_error, set_error, set_nowait, close,
  }

  abbrev pub accepted : ℕ → Bool × E → Option ℕ × E
  accepted p (true, e) = (some p, e)
  accepted p (false, e) = if last_error e == error_pipe_connected then (some p, e) else (none, e)

  -- `ffpipe_accept`
  unfoldable pub accept : ℕ → E → Option ℕ × E
  accept p e = accepted p (connect_pipe p false e)

  -- A task that is active: is it done?
  abbrev pub finished : ℕ → Bool × E → Option ℕ × Bool × E
  finished p (true, e) = (some p, false, e)
  finished p (false, e) =
      if last_error e == error_io_incomplete
      then (none, true, set_error error_io_pending e)
      else (none, false, e)

  abbrev pub begun : ℕ → Bool × E → Option ℕ × Bool × E
  begun p (true, e) = (none, true, e)
  begun p (false, e) =
      if last_error e == error_pipe_connected
      then (some p, false, e)
      else (none, last_error e == error_io_pending, e)

  -- `ffpipe_accept_async`: the client's pipe, the flag `active` afterwards
  unfoldable pub accept_async : ℕ → Bool → E → Option ℕ × Bool × E
  accept_async p true e = finished p (overlapped_result e)
  accept_async p false e = begun p (connect_pipe p true e)

  abbrev pub read_back : Option Str × E → Option Str × E
  read_back (some s, e) = (some s, e)
  read_back (none, e) =
      if last_error e == error_broken_pipe
      then (some [], e)
      else if last_error e == error_no_data
      then (none, set_error wsaewouldblock e)
      else (none, e)

  -- `ffpipe_read`
  unfoldable pub read : ℕ → ℕ → E → Option Str × E
  read p size e = read_back (read_file p (min size (u32 - 1)) e)

  abbrev pub or_closed : ℕ × ℕ → Bool × E → Option (ℕ × ℕ) × E
  or_closed (r, w) (true, e) = (some (r, w), e)
  or_closed (r, w) (false, e) = (none, close w (close r e))

  -- The second handle is set only if the first one could be.
  abbrev pub both_nowait : ℕ × ℕ → Bool × E → Option (ℕ × ℕ) × E
  both_nowait (r, w) (true, e) = or_closed (r, w) (set_nowait w e)
  both_nowait (r, w) (false, e) = or_closed (r, w) (false, e)

  abbrev pub created : Bool → Option (ℕ × ℕ) × E → Option (ℕ × ℕ) × E
  created nowait (none, e) = (none, e)
  created nowait (some (r, w), e) =
      if nowait then both_nowait (r, w) (set_nowait r e) else (some (r, w), e)

  -- `ffpipe_create2`, with whether FFPIPE_NONBLOCK is given
  unfoldable pub create2 : Bool → E → Option (ℕ × ℕ) × E
  create2 nowait e = created nowait (sys.create_pipe e)

  -- What a caller is told: the task is active exactly as long as the answer is "pending".
  abbrev pub Told : Option ℕ × Bool × E → Type 0
  Told (some p, active, e) = active ≡ false
  Told (none, active, e) = active ≡ (last_error e == error_io_pending)

  finished-Told :
      (p : ℕ) (r : Bool × E)
      → (r.0 ≡ false → last_error r.1 ≢ error_io_pending)
      → Told (finished p r)
  finished-Told p (true, e) h = refl
  finished-Told p (false, e) h =
      let code = sys.last_error-set_error error_io_pending e in
      if_both Told (last_error e == error_io_incomplete) (none, true, set_error error_io_pending e)
        (none, false, e) (λ y. ground (arith, code))
        (λ n. let other = h refl in ground (arith, other))

  begun-Told : (p : ℕ) (r : Bool × E) → r.0 ≡ false → Told (begun p r)
  begun-Told p (true, e) h = absurd (cc)
  begun-Told p (false, e) h =
      if_both Told (last_error e == error_pipe_connected) (some p, false, e)
        (none, last_error e == error_io_pending, e) (λ y. refl) (λ n. refl)

  -- If ConnectNamedPipe with a task never succeeds at once, and GetOverlappedResult never reports a pending
  -- operation as ERROR_IO_PENDING, as is documented, then a call of ffpipe_accept_async that returns
  -- the pipe leaves the task inactive, and one that does not leaves it active exactly if the error is
  -- FFPIPE_EINPROGRESS, so that the caller can tell whether to call again.
  pub accept_async-Told :
      (p : ℕ) (active : Bool) (e : E)
      → (connect_pipe p true e).0 ≡ false
      → ((overlapped_result e).0 ≡ false → last_error (overlapped_result e).1 ≢ error_io_pending)
      → Told (accept_async p active e)
  unfolding accept_async
  accept_async-Told p true e c o = finished-Told p (overlapped_result e) o
  accept_async-Told p false e c o = begun-Told p (connect_pipe p true e) c
