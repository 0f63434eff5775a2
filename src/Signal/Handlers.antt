-- ===== src/Signal/Handlers.antt =====
-- Which handlers are set behind the `ffsig_subscribe` of FFOS/signal.h on UNIX.
use ffos.Base.{
  ℕ, ◌≡◌, refl, ap, sym, ◌∙◌, Bool, true, false, Option, none, some, List, [], ◌∷◌, ◌&&◌, ◌||◌, not,
  ◌==◌, if◌then◌else◌, if_both, arith,
}
use ffos.Signal.{
  sigsegv, stack_signal, plain_flags, stack_flags, SignalSystem, with_handler, armed, on_altstack,
  with_stack, arm_stack, skipped, continued, arm_others, second_loop, subscribe,
}

abbrev pub member : ℕ → List ℕ → Bool
member s [] = false
member s (x ∷ xs) = (x == s) || member s xs

-- The flags of a signal behind the call, by those before
abbrev pub requested : List ℕ → ℕ → Option ℕ → Option ℕ
requested sigs s old =
    if (s == sigsegv) && member stack_signal sigs
    then some stack_flags
    else (if member s sigs && not (s == stack_signal) then some plain_flags else old)

module _ {E : Type 0} (sys : SignalSystem E) where
  open sys use {
    alloc, sigaltstack, sigaction, flags_of, flags-handler, flags-alloc, flags-sigaltstack,
  }

  flags-with_handler :
      (h : Option ℕ) (e : E) (s : ℕ) → flags_of (with_handler sys h e) s ≡ flags_of e s
  flags-with_handler none e s = refl
  flags-with_handler (some h) e s = flags-handler h e s

  -- What the first loop leaves behind, started in `e`
  abbrev IsArmed : Bool → E → Option Bool × E → Type 0
  IsArmed have_sig e (none, e1) = Unit
  IsArmed have_sig e (some b, e1) =
      (b ≡ have_sig)
      × ((s : ℕ) → flags_of e1 s ≡ (if (sigsegv == s) && b then some stack_flags else flags_of e s))

  armed-IsArmed :
      (e e2 : E) (r : Bool × E)
      → sigaction sigsegv stack_flags e2 ≡ r
      → ((s : ℕ) → flags_of e2 s ≡ flags_of e s)
      → IsArmed true e (armed sys r)
  armed-IsArmed e e2 (false, e3) act same = tt
  armed-IsArmed e e2 (true, e3) act same = (
    refl,
    λ s. sys.flags-sigaction sigsegv stack_flags e2 e3 s act ∙ into s (sigsegv == s) (same s),
  )
    where
      into :
          (s : ℕ) (b : Bool)
          → flags_of e2 s ≡ flags_of e s
          → (if b then some stack_flags else flags_of e2 s)
            ≡ (if b && true then some stack_flags else flags_of e s)
      into s true h = refl
      into s false h = h

  on_altstack-IsArmed :
      (e : E) (r : Bool × E)
      → ((s : ℕ) → flags_of r.1 s ≡ flags_of e s)
      → IsArmed true e (on_altstack sys r)
  on_altstack-IsArmed e (false, e2) same = tt
  on_altstack-IsArmed e (true, e2) same =
      armed-IsArmed e e2 (sigaction sigsegv stack_flags e2) refl same

  with_stack-IsArmed :
      (e : E) (r : Option ℕ × E)
      → ((s : ℕ) → flags_of r.1 s ≡ flags_of e s)
      → IsArmed true e (with_stack sys r)
  with_stack-IsArmed e (none, e1) same = tt
  with_stack-IsArmed e (some p, e1) same =
      on_altstack-IsArmed e (sigaltstack p e1) (λ s. flags-sigaltstack p e1 s ∙ same s)

  arm_stack-IsArmed :
      (xs : List ℕ) (e : E) → IsArmed (member stack_signal xs) e (arm_stack sys xs e)
  unfolding arm_stack
  arm_stack-IsArmed [] e = (refl, λ s. unarmed (sigsegv == s) (flags_of e s))
    where
      unarmed : (b : Bool) (o : Option ℕ) → o ≡ (if b && false then some stack_flags else o)
      unarmed true o = refl
      unarmed false o = refl
  arm_stack-IsArmed (x ∷ xs) e = go (x == stack_signal) (arm_stack-IsArmed xs e)
    where
      go :
          (b : Bool)
          → IsArmed (member stack_signal xs) e (arm_stack sys xs e)
          → IsArmed
              (b || member stack_signal xs)
              e
              (if b then with_stack sys (alloc e) else arm_stack sys xs e)
      go true rest = with_stack-IsArmed e (alloc e) (flags-alloc e)
      go false rest = rest

  -- The second loop
  abbrev IsLeft : Bool → List ℕ → E → ℕ → E → Type 0
  IsLeft b xs e s e1 =
      flags_of e1 s
      ≡ (if member s xs && not (skipped sys b s) then some plain_flags else flags_of e s)

  same_skip :
      (b : Bool) (x s : ℕ) (m : Bool)
      → skipped sys b x ≡ true
      → (m && not (skipped sys b s)) ≡ (((x == s) || m) && not (skipped sys b s))
  same_skip b x s m sk = ground (arith, sk)

  -- The handler that is set for `x` stays to the end.
  merge :
      (t m k : Bool) (new old : Option ℕ)
      → (t ≡ true → k ≡ false)
      → (if m && not k then new else (if t then new else old))
        ≡ (if (t || m) && not k then new else old)
  merge true m true new old f = (let bad : true ≡ false = f refl in absurd (cc))
  merge true true false new old f = refl
  merge true false false new old f = refl
  merge false m k new old f = refl

  continued-IsLeft :
      (b : Bool) (x : ℕ) (xs : List ℕ) (e e1 : E) (s : ℕ) (r : Bool × E)
      → ((e2 : E) → arm_others sys b xs e2 ≡ (true, e1) → IsLeft b xs e2 s e1)
      → sigaction x plain_flags e ≡ r
      → skipped sys b x ≡ false
      → continued sys (arm_others sys b xs) r ≡ (true, e1)
      → IsLeft b (x ∷ xs) e s e1
  continued-IsLeft b x xs e e1 s (false, e2) rest act sk h = absurd (cc)
  continued-IsLeft b x xs e e1 s (true, e2) rest act sk h =
      rest e2 h
      ∙ ap (λ o. if member s xs && not (skipped sys b s) then some plain_flags else o)
          (sys.flags-sigaction x plain_flags e e2 s act)
      ∙ merge (x == s) (member s xs) (skipped sys b s) (some plain_flags) (flags_of e s) same_signal
    where
      same_signal : (x == s) ≡ true → skipped sys b s ≡ false
      same_signal t = ground (arith, t, sk)

  arm_others-IsLeft :
      (b : Bool) (xs : List ℕ) (e e1 : E) (s : ℕ)
      → arm_others sys b xs e ≡ (true, e1)
      → IsLeft b xs e s e1
  unfolding arm_others
  arm_others-IsLeft b [] e e1 s h = ap (λ r. flags_of r.1 s) (sym h)
  arm_others-IsLeft b (x ∷ xs) e e1 s h0 =
      if_both (λ r. r ≡ (true, e1) → IsLeft b (x ∷ xs) e s e1) (skipped sys b x)
        (arm_others sys b xs e) (continued sys (arm_others sys b xs) (sigaction x plain_flags e))
        (λ sk h.
          arm_others-IsLeft b xs e e1 s h
          ∙ ap (λ t. if t then some plain_flags else flags_of e s)
              (same_skip b x s (member s xs) sk))
        (λ sk.
          continued-IsLeft b x xs e e1 s (sigaction x plain_flags e)
            (λ e2. arm_others-IsLeft b xs e2 e1 s) refl sk)
        h0

  -- One flag stands for SIGSEGV on the alternate stack.
  together :
      (m k u : Bool) (plain stack old : Option ℕ)
      → (if m && not (k || u) then plain else (if u then stack else old))
        ≡ (if u then stack else (if m && not k then plain else old))
  together true true true plain stack old = refl
  together true true false plain stack old = refl
  together true false true plain stack old = refl
  together true false false plain stack old = refl
  together false k u plain stack old = refl

  -- If ffsig_subscribe succeeds, every signal of the list leads to the library's handler, on the alternate
  -- stack exactly for SIGSEGV when the list has FFSIG_STACK, wherever in the list they stand; the handlers
  -- of the other signals are as before.
  pub subscribe-requested :
      (handler : Option ℕ) (sigs : List ℕ) (e e1 : E)
      → subscribe sys handler sigs e ≡ (true, e1)
      → (s : ℕ) → flags_of e1 s ≡ requested sigs s (flags_of e s)
  unfolding subscribe
  subscribe-requested handler sigs e e1 h s =
      go (arm_stack sys sigs (with_handler sys handler e))
        (arm_stack-IsArmed sigs (with_handler sys handler e)) h
    where
      segv : (sigsegv == s) ≡ (s == sigsegv)
      segv = ground arith

      go :
          (r : Option Bool × E)
          → IsArmed (member stack_signal sigs) (with_handler sys handler e) r
          → second_loop sys sigs r ≡ (true, e1)
          → flags_of e1 s ≡ requested sigs s (flags_of e s)
      go (none, e2) a eq = absurd (cc)
      go (some b, e2) (b_eq, a) eq =
          arm_others-IsLeft b sigs e2 e1 s eq
          ∙ ap (λ o. if member s sigs && not (skipped sys b s) then some plain_flags else o)
              (a s
                ∙ ap
                    (λ g.
                      if g && b then some stack_flags else flags_of (with_handler sys handler e) s)
                    segv
                ∙ ap (λ o. if (s == sigsegv) && b then some stack_flags else o)
                    (flags-with_handler handler e s))
          ∙ together (member s sigs) (s == stack_signal) ((s == sigsegv) && b) (some plain_flags)
              (some stack_flags) (flags_of e s)
          ∙ ap
              (λ q.
                if (s == sigsegv) && q
                then some stack_flags
                else (if member s sigs && not (s == stack_signal)
                    then some plain_flags
                    else flags_of e s))
              b_eq
