-- ===== src/Process/Wait.antt =====
-- `ffps_wait` of FFOS/process.h on both systems. The system calls are parameters; what waitid stores in
-- `siginfo_t` is read from the state.
use ffos.Base.{
  ℕ, zero, suc, ◌-◌, ◌≡◌, ◌≢◌, ◌<◌, refl, ap, ◌∙◌, Bool, true, false, not, Option, none, some, ◌==◌,
  if◌then◌else◌, arith,
}
use ffos.Base.Int.{ℤ, pos, negsuc, u32}
use ffos.Retry.{retry, is_interrupted, Interrupted, answer_after, retry-Interrupted}

-- `siginfo_t`
pub record SigInfo : Type 0 where
  pub si_pid : ℕ
  -- si_code == CLD_EXITED
  pub exited : Bool
  pub si_status : ℕ

abbrev pub etimedout : ℕ
etimedout = 110

-- (ffuint)-1
abbrev pub forever : ℕ
forever = u32 - 1

pub record WaitSys (E : Type 0) : Type 0 where
  pub last_error : E → ℕ
  pub set_error : ℕ → E → E
  -- waitid with WEXITED, and with WNOHANG or not
  pub waitid : ℕ → Bool → E → Bool × E
  pub info : E → SigInfo
  -- `s.si_pid = 0`
  pub clear_info : E → E

pub data Waited : Type 0 where
  failed : Waited
  exit_code : ℤ → Waited

abbrev pub negated : ℕ → ℤ
negated zero = pos 0
negated (suc n) = negsuc n

module _ {E : Type 0} (sys : WaitSys E) where
  open sys use {last_error, set_error, waitid, info, clear_info}

  abbrev pub code_of : SigInfo → Waited
  code_of s = if s.exited then exit_code (pos s.si_status) else exit_code (negated s.si_status)

  -- Behind the loop
  abbrev pub waited : Bool × E → Waited × E
  waited (false, e) = (failed, e)
  waited (true, e) =
      if (info e).si_pid == 0 then (failed, set_error etimedout e) else (code_of (info e), e)

  abbrev pub waited_some : Option (Bool × E) → Option (Waited × E)
  waited_some none = none
  waited_some (some r) = some (waited r)

  abbrev pub prepared : ℕ → E → E
  prepared ms e = if ms == forever then e else clear_info e

  -- `ffps_wait` on UNIX
  unfoldable pub wait_unix : ℕ → ℕ → ℕ → E → Option (Waited × E)
  wait_unix ps ms fuel e =
      waited_some (retry last_error (waitid ps (not (ms == forever))) fuel (prepared ms e))

  -- If signals interrupt waitid n times, a wait with more rounds than that returns what the call behind
  -- them says: with no child to report it is a failure with ETIMEDOUT, with a child its exit
  -- code, or its signal as a negative number, and with another failure that failure. EINTR is not
  -- among the failures.
  pub wait_unix-Interrupted :
      (ps ms n fuel : ℕ) (e : E)
      → n < fuel
      → Interrupted last_error (waitid ps (not (ms == forever))) n (prepared ms e)
      → let r = answer_after last_error (waitid ps (not (ms == forever))) n (prepared ms e) in
        (is_interrupted last_error r ≡ false)
        × (r.0 ≡ false → wait_unix ps ms fuel e ≡ some (failed, r.1))
        × (r.0 ≡ true
            → (info r.1).si_pid ≡ 0
            → wait_unix ps ms fuel e ≡ some (failed, set_error etimedout r.1))
        × (r.0 ≡ true
            → (info r.1).si_pid ≢ 0
            → wait_unix ps ms fuel e ≡ some (code_of (info r.1), r.1))
  unfolding wait_unix
  wait_unix-Interrupted ps ms n fuel e h i =
      let call = waitid ps (not (ms == forever)) in
      let (loop, final) = retry-Interrupted last_error call n fuel (prepared ms e) h i in
      let r = answer_after last_error call n (prepared ms e) in
      let goes : wait_unix ps ms fuel e ≡ some (waited (r.0, r.1)) = ap waited_some loop in
      (
        final,
        λ no. goes ∙ ap (λ b. some (waited (b, r.1))) no,
        λ ok z.
            let t : ((info r.1).si_pid == 0) ≡ true = ground arith in
            goes ∙ ap (λ b. some (waited (b, r.1))) ok ∙ rw t refl,
        λ ok z.
            let t : ((info r.1).si_pid == 0) ≡ false = ground arith in
            goes ∙ ap (λ b. some (waited (b, r.1))) ok ∙ rw t refl,
      )

-- Windows: what WaitForSingleObject answers
pub data WaitResult : Type 0 where
  object wait_timeout : WaitResult
  other : ℕ → WaitResult

abbrev pub wsaetimedout : ℕ
wsaetimedout = 10060

pub record WinWaitSys (E : Type 0) : Type 0 where
  pub wait_object : ℕ → ℕ → E → WaitResult × E
  pub get_exit_code : ℕ → E → ℕ
  pub close_handle : ℕ → E → E
  pub set_error : ℕ → E → E

module _ {E : Type 0} (sys : WinWaitSys E) where
  abbrev pub waited_win : ℕ → Bool → WaitResult × E → ℕ × Option ℕ × E
  waited_win ps want (object, e) =
      (0, (if want then some (sys.get_exit_code ps e) else none), sys.close_handle ps e)
  waited_win ps want (wait_timeout, e) = (258, none, sys.set_error wsaetimedout e)
  waited_win ps want (other r, e) = (r, none, e)

  -- `ffps_wait` on Windows: the result, the exit code if it is wanted and stored, the state
  unfoldable pub wait_win : ℕ → ℕ → Bool → E → ℕ × Option ℕ × E
  wait_win ps ms want e = waited_win ps want (sys.wait_object ps ms e)
