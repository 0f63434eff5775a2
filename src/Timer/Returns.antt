-- ===== src/Timer/Returns.antt =====
-- The calls of the main thread in FFOS/timer.h on Windows return: the steps in Timer/Thread have no deadlock.
use ffos.Base.{ℕ, ◌≡◌, ◌≢◌, inl, inr, refl, sym, subst, ◌∙◌, Bool, true, false, ◌∷◌}
use ffos.Timer.Thread.{
  Command, exit_command, WaitableTimer, idle, waiting, ThreadPc, sleeping, awake, has_read,
  executed, has_stored, ended, Shared, Log, execute, State, at, Step, Reach, created, wait_result,
  answer, wait_command, read_command, perform, store_result, signal_result, here, next,
}
use ffos.Timer.Turns.{InTurn, Turn, Reach-IsAligned, created-IsAligned}

module _ {W : Type 0} (sys : WaitableTimer W) where
  prepend : {s t u : State sys} → Step sys s t → Reach sys t u → Reach sys s u
  prepend st here = next here st
  prepend st (next r st') = next (prepend st r) st'

  -- The call ends, with so much failed, in a state from which it can be reached.
  abbrev Returns : Bool → State sys → Type 0
  Returns b s = (u : State sys) × Reach sys s u × (u.main ≡ idle) × (u.log.failed ≡ b)

  Returns-prepend : {s t : State sys} {b : Bool} → Step sys s t → Returns b t → Returns b s
  Returns-prepend st (u, r, i, f) = (u, prepend st r, i, f)

  signalled-Returns :
      (c : Command) (s : Shared) (w : W) (l : Log)
      → s.evt_result ≡ true
      → Returns l.failed (at sys (waiting c) sleeping s w l)
  signalled-Returns c s w l e = (
    at sys idle sleeping (record s { evt_result = false }) w
        (record l { told = (c, s.result) ∷ l.told }),
    prepend (wait_result e) (prepend answer here),
    refl,
    refl,
  )

  executed-Returns :
      (c : Command) (r : ℕ) (s : Shared) (w : W) (l : Log)
      → Returns l.failed (at sys (waiting c) (executed r) s w l)
  executed-Returns c r s w l = Returns-prepend store_result (
      Returns-prepend signal_result
        (signalled-Returns c (record s { result = r; evt_result = true }) w l refl))

  read-Returns :
      (c d : Command) (s : Shared) (w : W) (l : Log)
      → d ≢ exit_command
      → Returns l.failed (at sys (waiting c) (has_read d) s w l)
  read-Returns c d s w l n = Returns-prepend (perform n) (
      executed-Returns c (execute sys d w).0 s (execute sys d w).1
        (record l { done = (d, (execute sys d w).0) ∷ l.done }))

  awake-Returns :
      (c : Command) (s : Shared) (w : W) (l : Log)
      → c ≢ exit_command
      → s.ctl ≡ c
      → Returns l.failed (at sys (waiting c) awake s w l)
  awake-Returns c s w l n k =
      Returns-prepend read_command (read-Returns c s.ctl s w l (λ x. n (sym k ∙ x)))

  InTurn-Returns :
      (c : Command) (t : ThreadPc) (s : Shared) (w : W) (l : Log)
      → c ≢ exit_command
      → InTurn c t s l
      → Returns l.failed (at sys (waiting c) t s w l)
  InTurn-Returns c sleeping s w l n (inl (k, v, r, told)) =
      Returns-prepend (wait_command v) (awake-Returns c (record s { evt = false }) w l n k)
  InTurn-Returns c sleeping s w l n (inr (v, r, owed)) = signalled-Returns c s w l r
  InTurn-Returns c awake s w l n (k, q, told) = awake-Returns c s w l n k
  InTurn-Returns c (has_read d) s w l n (k, q, told) = read-Returns c d s w l (λ x. n (sym k ∙ x))
  InTurn-Returns c (executed x) s w l n (q, owed) = executed-Returns c x s w l
  InTurn-Returns c has_stored s w l n (q, owed) =
      Returns-prepend signal_result (signalled-Returns c (record s { evt_result = true }) w l refl)
  InTurn-Returns c ended s w l n x = elim x [ ]

  -- No interleaving ends in a deadlock: from every state that can be reached without a failure of SetEvent
  -- or of a wait, in which the main thread waits for the result of a command, steps lead to a state in
  -- which the call has returned.
  pub waiting-Returns :
      (w : W) (s : State sys) (c : Command)
      → Reach sys (created sys w) s
      → s.log.failed ≡ false
      → s.main ≡ waiting c
      → (u : State sys) × Reach sys s u × (u.main ≡ idle) × (u.log.failed ≡ false)
  waiting-Returns w s c r f m =
      let aligned = Reach-IsAligned sys (created-IsAligned sys w) r f in
      let turn : Turn (waiting c) s.thread s.shared s.log =
        subst (λ x. Turn x s.thread s.shared s.log) m aligned in
      let at_wait : Returns s.log.failed (at sys (waiting c) s.thread s.shared s.world s.log) =
        InTurn-Returns c s.thread s.shared s.world s.log turn.0 turn.1 in
      let (u, reach, i, b) =
        subst (λ x. Returns s.log.failed (at sys x s.thread s.shared s.world s.log)) (sym m)
          at_wait in
      (u, reach, i, b ∙ f)
