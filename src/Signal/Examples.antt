-- ===== src/Signal/Examples.antt =====
-- Runs of the functions of FFOS/signal.h, and the theorems at concrete inputs.
use ffos.Base.{
  ℕ, ◌+◌, ◌≡◌, refl, ap, sym, Bool, true, Option, none, some, List, [], ◌∷◌, ◌==◌, if◌then◌else◌,
}
use ffos.Signal.{
  sigsegv, stack_signal, plain_flags, stack_flags, SignalSystem, arm_stack, arm_others, subscribe,
}
use ffos.Signal.Handlers.{subscribe-requested}
use ffos.Signal.Windows.{ConsoleSys}

-- The flags of each signal
abbrev obedient : SignalSystem (ℕ → Option ℕ)
obedient = record {
  set_handler = λ h e. e;
  alloc = λ e. (some 4096, e);
  sigaltstack = λ p e. (true, e);
  sigaction = λ s f e. (true, λ t. if s == t then some f else e t);
  flags_of = λ e. e;
  flags-handler = λ h e s. refl;
  flags-alloc = λ e s. refl;
  flags-sigaltstack = λ p e s. refl;
  flags-sigaction = λ s f e e1 t h. ap (λ r. r.1 t) (sym h);
}

abbrev untouched : ℕ → Option ℕ
untouched s = none

-- SIGSEGV, SIGFPE and FFSIG_STACK
abbrev three_signals : List ℕ
three_signals = sigsegv ∷ 8 ∷ stack_signal ∷ []

subscribed :
    ((subscribe obedient (some 1) three_signals untouched).1 sigsegv ≡ some stack_flags)
    × ((subscribe obedient (some 1) three_signals untouched).1 8 ≡ some plain_flags)
    × ((subscribe obedient (some 1) three_signals untouched).1 2 ≡ none)
unfolding subscribe arm_stack arm_others
subscribed = (refl, refl, refl)

subscribe-requested_example :
    (subscribe obedient (some 1) three_signals untouched).1 sigsegv ≡ some stack_flags
unfolding subscribe arm_stack arm_others
subscribe-requested_example =
    subscribe-requested obedient (some 1) three_signals untouched
      (subscribe obedient (some 1) three_signals untouched).1 refl sigsegv

-- The number of console handlers, and whether there is an exception filter
abbrev console : ConsoleSys (ℕ × Bool)
console = record {
  set_handler = λ h e. e;
  add_ctrl_handler = λ e. (e.0 + 1, e.1);
  set_filter = λ b e. (e.0, b);
  call_handler = λ i e. e;
  ctrl_handlers = λ e. e.0;
  filter = λ e. e.1;
  filter-handler = λ h e. refl;
  filter-ctrl = λ e. refl;
  filter-filter = λ b e. refl;
  ctrl-handler = λ h e. refl;
  ctrl-filter = λ b e. refl;
  ctrl-ctrl = λ e. refl;
}
