-- ===== src/Signal.antt =====
-- FFOS/signal.h: the handlers of signals on UNIX and Windows, and the descriptor of signals on Linux. The
-- system calls are parameters.
pub mod Handlers
pub mod Kqueue
pub mod Highest
pub mod Success
pub mod Descriptor
pub mod Windows
pub mod Examples
use ffos.Base.{
  ℕ, ◌≡◌, Bool, true, false, Option, none, some, List, [], ◌∷◌, ◌&&◌, ◌||◌, ◌==◌, if◌then◌else◌,
}

-- SIGSEGV, and FFSIG_STACK (0x40000000 | SIGSEGV)
abbrev pub sigsegv : ℕ
sigsegv = 11

abbrev pub stack_signal : ℕ
stack_signal = 1073741835

-- SA_SIGINFO | SA_RESETHAND, without SA_ONSTACK and with it
abbrev pub plain_flags : ℕ
plain_flags = 0x80000004

abbrev pub stack_flags : ℕ
stack_flags = 0x88000004

-- What the system does for `ffsig_subscribe`; `flags_of` gives the flags with which a signal leads to
-- `_ffsig_exc_handler`, if it does.
pub record SignalSystem (E : Type 0) : Type 0 where
  pub set_handler : ℕ → E → E
  -- memory of SIGSTKSZ bytes
  pub alloc : E → Option ℕ × E
  pub sigaltstack : ℕ → E → Bool × E
  -- sigaction for a signal with `_ffsig_exc_handler` and flags
  pub sigaction : ℕ → ℕ → E → Bool × E
  pub flags_of : E → ℕ → Option ℕ
  pub flags-handler : (h : ℕ) (e : E) (s : ℕ) → flags_of (set_handler h e) s ≡ flags_of e s
  pub flags-alloc : (e : E) (s : ℕ) → flags_of (alloc e).1 s ≡ flags_of e s
  pub flags-sigaltstack : (p : ℕ) (e : E) (s : ℕ) → flags_of (sigaltstack p e).1 s ≡ flags_of e s
  pub flags-sigaction :
      (s f : ℕ) (e e1 : E) (t : ℕ)
      → sigaction s f e ≡ (true, e1)
      → flags_of e1 t ≡ (if s == t then some f else flags_of e t)

module _ {E : Type 0} (sys : SignalSystem E) where
  open sys use {set_handler, alloc, sigaltstack, sigaction}

  abbrev pub with_handler : Option ℕ → E → E
  with_handler none e = e
  with_handler (some h) e = set_handler h e

  abbrev pub armed : Bool × E → Option Bool × E
  armed (true, e) = (some true, e)
  armed (false, e) = (none, e)

  abbrev pub on_altstack : Bool × E → Option Bool × E
  on_altstack (true, e) = armed (sigaction sigsegv stack_flags e)
  on_altstack (false, e) = (none, e)

  abbrev pub with_stack : Option ℕ × E → Option Bool × E
  with_stack (none, e) = (none, e)
  with_stack (some p, e) = on_altstack (sigaltstack p e)

  -- The first loop: `have_stack_sig`, or none if the function returns
  unfoldable pub arm_stack : List ℕ → E → Option Bool × E
  arm_stack [] e = (some false, e)
  arm_stack (x ∷ xs) e =
      let rest = arm_stack xs e in if x == stack_signal then with_stack (alloc e) else rest

  abbrev pub skipped : Bool → ℕ → Bool
  skipped have_stack x = (x == stack_signal) || ((x == sigsegv) && have_stack)

  abbrev pub continued : (E → Bool × E) → Bool × E → Bool × E
  continued loop (true, e) = loop e
  continued loop (false, e) = (false, e)

  -- The second loop
  unfoldable pub arm_others : Bool → List ℕ → E → Bool × E
  arm_others have_stack [] e = (true, e)
  arm_others have_stack (x ∷ xs) e =
      if skipped have_stack x
      then arm_others have_stack xs e
      else continued (arm_others have_stack xs) (sigaction x plain_flags e)

  abbrev pub second_loop : List ℕ → Option Bool × E → Bool × E
  second_loop sigs (none, e) = (false, e)
  second_loop sigs (some have_stack, e) = arm_others have_stack sigs e

  -- `ffsig_subscribe` on UNIX
  unfoldable pub subscribe : Option ℕ → List ℕ → E → Bool × E
  subscribe handler sigs e = second_loop sigs (arm_stack sigs (with_handler handler e))
