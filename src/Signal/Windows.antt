-- ===== src/Signal/Windows.antt =====
-- FFOS/signal.h on Windows: subscribing, and what the system calls for Ctrl-C and for an exception.
use ffos.Base.{
  ℕ, zero, suc, ◌+◌, ◌≡◌, refl, ◌∙◌, Bool, true, false, Option, none, some, List, [], ◌∷◌, ◌||◌,
  not, ◌==◌, if◌then◌else◌, if_both, arith,
}

-- CONTROL_C_EXIT and EXCEPTION_ACCESS_VIOLATION
abbrev pub sig_int : ℕ
sig_int = 0xC000013A

abbrev pub sig_segv : ℕ
sig_segv = 0xC0000005

-- `struct ffsig_info`
pub record SigInfo : Type 0 where
  pub sig : ℕ
  pub addr : ℕ
  pub flags : ℕ

-- The system, with how many console handlers and which exception filter it holds, and the calls of the
-- user's handler
pub record ConsoleSys (E : Type 0) : Type 0 where
  pub set_handler : ℕ → E → E
  -- SetConsoleCtrlHandler for `_ffsig_ctrl_handler`; SetUnhandledExceptionFilter for
  -- `_ffsig_exc_handler`, or for none
  pub add_ctrl_handler : E → E
  pub set_filter : Bool → E → E
  pub call_handler : SigInfo → E → E
  pub ctrl_handlers : E → ℕ
  pub filter : E → Bool
  pub filter-handler : (h : ℕ) (e : E) → filter (set_handler h e) ≡ filter e
  pub filter-ctrl : (e : E) → filter (add_ctrl_handler e) ≡ filter e
  pub filter-filter : (b : Bool) (e : E) → filter (set_filter b e) ≡ b
  pub ctrl-handler : (h : ℕ) (e : E) → ctrl_handlers (set_handler h e) ≡ ctrl_handlers e
  pub ctrl-filter : (b : Bool) (e : E) → ctrl_handlers (set_filter b e) ≡ ctrl_handlers e
  pub ctrl-ctrl : (e : E) → ctrl_handlers (add_ctrl_handler e) ≡ ctrl_handlers e + 1

-- The number of Ctrl-C in a list, and whether anything else is in it
abbrev pub interrupts : List ℕ → ℕ
interrupts [] = 0
interrupts (x ∷ xs) = (if x == sig_int then 1 else 0) + interrupts xs

abbrev pub has_exception : List ℕ → Bool
has_exception [] = false
has_exception (x ∷ xs) = not (x == sig_int) || has_exception xs

module _ {E : Type 0} (sys : ConsoleSys E) where
  open sys use {set_handler, add_ctrl_handler, set_filter, call_handler, ctrl_handlers, filter}

  -- The loop of `ffsig_subscribe`, with `exc`
  unfoldable pub subscribe_loop : List ℕ → Bool → E → Bool × E
  subscribe_loop [] exc e = (exc, e)
  subscribe_loop (x ∷ xs) exc e =
      if x == sig_int then subscribe_loop xs exc (add_ctrl_handler e) else subscribe_loop xs true e

  abbrev filtered : Bool × E → E
  filtered (true, e) = set_filter true e
  filtered (false, e) = e

  abbrev handled : Option ℕ → E → E
  handled none e = e
  handled (some h) e = set_handler h e

  -- `ffsig_subscribe`, which always succeeds
  unfoldable pub subscribe_win : Option ℕ → List ℕ → E → E
  subscribe_win handler sigs e = filtered (subscribe_loop sigs false (handled handler e))

  -- `_ffsig_ctrl_handler` for CTRL_C_EVENT (zero) and other events
  unfoldable pub on_ctrl : ℕ → E → Bool × E
  on_ctrl zero e = (true, call_handler (record { sig = sig_int; addr = 0; flags = 0 }) e)
  on_ctrl (suc n) e = (false, e)

  -- The info of an exception's code and its two parameters
  unfoldable pub exception_info : ℕ → ℕ → ℕ → SigInfo
  exception_info code first second =
      if code == sig_segv
      then record { sig = code; addr = second; flags = first }
      else record { sig = code; addr = 0; flags = 0 }

  -- `_ffsig_exc_handler`
  unfoldable pub on_exception : ℕ → ℕ → ℕ → E → E
  on_exception code first second e =
      call_handler (exception_info code first second) (set_filter false e)

  abbrev IsDone : Bool → ℕ → E → Bool × E → Type 0
  IsDone exc n e r =
      (r.0 ≡ exc) × (ctrl_handlers r.1 ≡ ctrl_handlers e + n) × (filter r.1 ≡ filter e)

  loop-IsDone :
      (sigs : List ℕ) (exc : Bool) (e : E)
      → IsDone (has_exception sigs || exc) (interrupts sigs) e (subscribe_loop sigs exc e)
  unfolding subscribe_loop
  loop-IsDone [] exc e = (refl, omega arith, refl)
  loop-IsDone (x ∷ xs) exc e =
      go (x == sig_int) (loop-IsDone xs exc (add_ctrl_handler e)) (loop-IsDone xs true e)
    where
      flag : (b : Bool) → (b || true) ≡ true
      flag true = refl
      flag false = refl

      go :
          (b : Bool)
          → IsDone
              (has_exception xs || exc)
              (interrupts xs)
              (add_ctrl_handler e)
              (subscribe_loop xs exc (add_ctrl_handler e))
          → IsDone (has_exception xs || true) (interrupts xs) e (subscribe_loop xs true e)
          → IsDone
              ((not b || has_exception xs) || exc)
              ((if b then 1 else 0) + interrupts xs)
              e
              (if b then subscribe_loop xs exc (add_ctrl_handler e) else subscribe_loop xs true e)
      go true (p, q, r) f = (p, omega (arith, q, sys.ctrl-ctrl e), r ∙ sys.filter-ctrl e)
      go false f (p, q, r) = (p ∙ flag (has_exception xs), omega (arith, q), r)

  same_handlers :
      (handler : Option ℕ) (e : E)
      → (ctrl_handlers (handled handler e) ≡ ctrl_handlers e)
        × (filter (handled handler e) ≡ filter e)
  same_handlers none e = (refl, refl)
  same_handlers (some h) e = (sys.ctrl-handler h e, sys.filter-handler h e)

  -- ffsig_subscribe sets the console's handler once for each Ctrl-C of the list, and the exception filter
  -- exactly if the list has anything else; a filter that is set stays.
  pub subscribe_win-filter :
      (handler : Option ℕ) (sigs : List ℕ) (e : E)
      → (ctrl_handlers (subscribe_win handler sigs e) ≡ ctrl_handlers e + interrupts sigs)
        × (filter (subscribe_win handler sigs e) ≡ (if has_exception sigs then true else filter e))
  unfolding subscribe_win
  subscribe_win-filter handler sigs e =
      let (c, f) = same_handlers handler e in
      go (has_exception sigs) (handled handler e) (subscribe_loop sigs false (handled handler e)) c
        f (loop-IsDone sigs false (handled handler e))
    where
      go :
          (b : Bool) (e0 : E) (r : Bool × E)
          → ctrl_handlers e0 ≡ ctrl_handlers e
          → filter e0 ≡ filter e
          → IsDone (b || false) (interrupts sigs) e0 r
          → (ctrl_handlers (filtered r) ≡ ctrl_handlers e + interrupts sigs)
            × (filter (filtered r) ≡ (if b then true else filter e))
      go true e0 (true, e1) c f (p, q, s) =
          (omega (arith, sys.ctrl-filter true e1, q, c), sys.filter-filter true e1)
      go true e0 (false, e1) c f (p, q, s) = absurd (cc)
      go false e0 (true, e1) c f (p, q, s) = absurd (cc)
      go false e0 (false, e1) c f (p, q, s) = (omega (arith, q, c), s ∙ f)

  -- An exception takes the filter away before the user's handler is called, so that another one in the
  -- handler goes to the system; the handler is told its code, and the address of an access violation.
  pub on_exception_once :
      (code first second : ℕ) (e : E)
      → ((i : SigInfo) (e1 : E) → filter (call_handler i e1) ≡ filter e1)
      → (filter (on_exception code first second e) ≡ false)
        × ((exception_info code first second).sig ≡ code)
        × (code ≡ sig_segv → (exception_info code first second).addr ≡ second)
  unfolding on_exception exception_info
  on_exception_once code first second e calm = (
    calm (exception_info code first second) (set_filter false e) ∙ sys.filter-filter false e,
    if_both {A = SigInfo} (λ i. i.sig ≡ code) (code == sig_segv)
        (record { sig = code; addr = second; flags = first })
        (record { sig = code; addr = 0; flags = 0 }) (λ y. refl) (λ n. refl),
    λ h.
        if_both {A = SigInfo} (λ i. i.addr ≡ second) (code == sig_segv)
          (record { sig = code; addr = second; flags = first })
          (record { sig = code; addr = 0; flags = 0 }) (λ y. refl)
          (λ n. absurd (ground (arith, n, h))),
  )
