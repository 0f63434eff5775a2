-- ===== src/Signal/Success.antt =====
-- When the `ffsig_subscribe` of FFOS/signal.h succeeds on UNIX.
use ffos.Base.{ℕ, ◌≡◌, refl, Bool, true, false, Option, none, some, List, [], ◌∷◌, ◌==◌, if_both}
use ffos.Signal.{
  sigsegv, stack_signal, plain_flags, stack_flags, SignalSystem, with_handler, armed, on_altstack,
  with_stack, arm_stack, skipped, continued, arm_others, second_loop, subscribe,
}

abbrev is_ready {ℓ} : {A : Type ℓ} → Option A → Bool
is_ready none = false
is_ready (some a) = true

module _ {E : Type 0} (sys : SignalSystem E) (memory : (e : E) → is_ready (sys.alloc e).0 ≡ true)
    (stack : (p : ℕ) (e : E) → (sys.sigaltstack p e).0 ≡ true)
    (action : (s f : ℕ) (e : E) → (sys.sigaction s f e).0 ≡ true) where
  armed_ready : (r : Bool × E) → r.0 ≡ true → is_ready (armed sys r).0 ≡ true
  armed_ready (true, e) h = refl
  armed_ready (false, e) h = absurd (cc)

  on_altstack_ready : (r : Bool × E) → r.0 ≡ true → is_ready (on_altstack sys r).0 ≡ true
  on_altstack_ready (true, e) h =
      armed_ready (sys.sigaction sigsegv stack_flags e) (action sigsegv stack_flags e)
  on_altstack_ready (false, e) h = absurd (cc)

  with_stack_ready : (r : Option ℕ × E) → is_ready r.0 ≡ true → is_ready (with_stack sys r).0 ≡ true
  with_stack_ready (some p, e) h = on_altstack_ready (sys.sigaltstack p e) (stack p e)
  with_stack_ready (none, e) h = absurd (cc)

  arm_stack_ready : (xs : List ℕ) (e : E) → is_ready (arm_stack sys xs e).0 ≡ true
  unfolding arm_stack
  arm_stack_ready [] e = refl
  arm_stack_ready (x ∷ xs) e =
      if_both (λ (r : Option Bool × E). is_ready r.0 ≡ true) (x == stack_signal)
        (with_stack sys (sys.alloc e)) (arm_stack sys xs e)
        (λ y. with_stack_ready (sys.alloc e) (memory e)) (λ n. arm_stack_ready xs e)

  continued_succeeds :
      (loop : E → Bool × E) (r : Bool × E)
      → ((e : E) → (loop e).0 ≡ true)
      → r.0 ≡ true
      → (continued sys loop r).0 ≡ true
  continued_succeeds loop (true, e) f h = f e
  continued_succeeds loop (false, e) f h = absurd (cc)

  arm_others_succeeds : (b : Bool) (xs : List ℕ) (e : E) → (arm_others sys b xs e).0 ≡ true
  unfolding arm_others
  arm_others_succeeds b [] e = refl
  arm_others_succeeds b (x ∷ xs) e =
      if_both (λ (r : Bool × E). r.0 ≡ true) (skipped sys b x) (arm_others sys b xs e)
        (continued sys (arm_others sys b xs) (sys.sigaction x plain_flags e))
        (λ y. arm_others_succeeds b xs e)
        (λ n.
          continued_succeeds (arm_others sys b xs) (sys.sigaction x plain_flags e)
            (λ e2. arm_others_succeeds b xs e2) (action x plain_flags e))

  -- If there is memory and the system refuses nothing, ffsig_subscribe succeeds.
  pub subscribe_succeeds :
      (handler : Option ℕ) (sigs : List ℕ) (e : E) → (subscribe sys handler sigs e).0 ≡ true
  unfolding subscribe
  subscribe_succeeds handler sigs e =
      go (arm_stack sys sigs (with_handler sys handler e))
        (arm_stack_ready sigs (with_handler sys handler e))
    where
      go : (r : Option Bool × E) → is_ready r.0 ≡ true → (second_loop sys sigs r).0 ≡ true
      go (none, e1) h = absurd (cc)
      go (some b, e1) h = arm_others_succeeds b sigs e1
