-- ===== src/Timer/Turns.antt =====
-- The two threads of FFOS/timer.h on Windows take turns: the invariant of the steps in Timer/Thread.
use Prim.{⊥}
use ffos.Base.{ℕ, ◌≡◌, ◌≢◌, ◌⊎◌, inl, inr, refl, sym, ap₂, subst, true, false, List, ◌∷◌}
use ffos.Timer.Thread.{
  Command, exit_command, start_command, stop_command, WaitableTimer, MainPc, idle, stored, waiting,
  answered, joining, ThreadPc, sleeping, awake, has_read, executed, has_stored, ended, Shared, Log,
  execute, State, behind_signal, Step, Reach, created, store, signal, wait_result, answer,
  wait_command, fire, read_command, leave, perform, store_result, signal_result, here, next,
  store_period, signal_fails, wait_result_fails, wait_command_fails, signal_result_fails,
}

-- Neither event is set.
abbrev pub Quiet : Shared → Type 0
Quiet s = (s.evt ≡ false) × (s.evt_result ≡ false)

-- All that was executed was told.
abbrev pub Told : Log → Type 0
Told l = l.done ≡ l.told

-- One execution, of this command with this result, was not told yet.
abbrev pub Owed : Command → ℕ → Log → Type 0
Owed c r l = l.done ≡ (c, r) ∷ l.told

-- What holds while the main thread waits for the result of a command
abbrev pub InTurn : Command → ThreadPc → Shared → Log → Type 0
InTurn c sleeping s l =
    ((s.ctl ≡ c) × (s.evt ≡ true) × (s.evt_result ≡ false) × Told l)
    ⊎ ((s.evt ≡ false) × (s.evt_result ≡ true) × Owed c s.result l)
InTurn c awake s l = (s.ctl ≡ c) × Quiet s × Told l
InTurn c (has_read d) s l = (d ≡ c) × Quiet s × Told l
InTurn c (executed r) s l = Quiet s × Owed c r l
InTurn c has_stored s l = Quiet s × Owed c s.result l
InTurn c ended s l = ⊥

abbrev pub Leaving : ThreadPc → Shared → Type 0
Leaving sleeping s = (s.ctl ≡ exit_command) × (s.evt ≡ true)
Leaving awake s = (s.ctl ≡ exit_command) × (s.evt ≡ false)
Leaving (has_read d) s = d ≡ exit_command
Leaving (executed r) s = ⊥
Leaving has_stored s = ⊥
Leaving ended s = Unit

abbrev pub AtRest : ThreadPc → Shared → Log → Type 0
AtRest t s l = (t ≡ sleeping) × Quiet s × Told l

abbrev pub Behind : Command → ThreadPc → Shared → Log → Type 0
Behind c t s l = (t ≡ sleeping) × Quiet s × Owed c s.result l

abbrev pub Turn : MainPc → ThreadPc → Shared → Log → Type 0
Turn idle t s l = AtRest t s l
Turn (stored c) t s l = (s.ctl ≡ c) × AtRest t s l
Turn (waiting c) t s l = (c ≢ exit_command) × InTurn c t s l
Turn (answered c) t s l = Behind c t s l
Turn joining t s l = Leaving t s × Told l

module _ {W : Type 0} (sys : WaitableTimer W) where
  -- As long as no call of the system has failed
  abbrev pub IsAligned : State sys → Type 0
  IsAligned s = s.log.failed ≡ false → Turn s.main s.thread s.shared s.log

  signal-IsAligned :
      (c : Command) (s : Shared) (w : W) (l : Log)
      → (s.ctl ≡ c) × Quiet s × Told l
      → Turn (behind_signal sys c) sleeping (record s { evt = true }) l
  signal-IsAligned exit_command s w l (k, (e, r), told) = ((k, refl), told)
  signal-IsAligned start_command s w l (k, (e, r), told) =
      (λ x. absurd (cc), inl (k, refl, r, told))
  signal-IsAligned stop_command s w l (k, (e, r), told) = (λ x. absurd (cc), inl (k, refl, r, told))

  wait_result-IsAligned :
      (c : Command) (t : ThreadPc) (s : Shared) (l : Log)
      → s.evt_result ≡ true
      → InTurn c t s l
      → Behind c t (record s { evt_result = false }) l
  wait_result-IsAligned c sleeping s l e (inl (k, v, r, told)) = absurd (cc)
  wait_result-IsAligned c sleeping s l e (inr (v, r, owed)) = (refl, (v, refl), owed)
  wait_result-IsAligned c awake s l e (k, (v, r), told) = absurd (cc)
  wait_result-IsAligned c (has_read d) s l e (k, (v, r), told) = absurd (cc)
  wait_result-IsAligned c (executed x) s l e ((v, r), owed) = absurd (cc)
  wait_result-IsAligned c has_stored s l e ((v, r), owed) = absurd (cc)
  wait_result-IsAligned c ended s l e x = elim x [ ]

  wait_command-IsAligned :
      (m : MainPc) (s : Shared) (l : Log)
      → s.evt ≡ true
      → Turn m sleeping s l
      → Turn m awake (record s { evt = false }) l
  wait_command-IsAligned idle s l e (p, (v, r), told) = absurd (cc)
  wait_command-IsAligned (stored c) s l e (k, (p, (v, r), told)) = absurd (cc)
  wait_command-IsAligned (waiting c) s l e (n, inl (k, v, r, told)) = (n, (k, (refl, r), told))
  wait_command-IsAligned (waiting c) s l e (n, inr (v, r, owed)) = absurd (cc)
  wait_command-IsAligned (answered c) s l e (p, (v, r), owed) = absurd (cc)
  wait_command-IsAligned joining s l e ((k, v), told) = ((k, refl), told)

  read_command-IsAligned :
      (m : MainPc) (s : Shared) (l : Log) → Turn m awake s l → Turn m (has_read s.ctl) s l
  read_command-IsAligned idle s l (p, q, told) = absurd (cc)
  read_command-IsAligned (stored c) s l (k, (p, q, told)) = absurd (cc)
  read_command-IsAligned (waiting c) s l a = a
  read_command-IsAligned (answered c) s l (p, q, told) = absurd (cc)
  read_command-IsAligned joining s l ((k, v), told) = (k, told)

  leave-IsAligned :
      (m : MainPc) (s : Shared) (l : Log) → Turn m (has_read exit_command) s l → Turn m ended s l
  leave-IsAligned idle s l (p, q, told) = absurd (cc)
  leave-IsAligned (stored c) s l (k, (p, q, told)) = absurd (cc)
  leave-IsAligned (waiting c) s l (n, (k, q, told)) = absurd (n (sym k))
  leave-IsAligned (answered c) s l (p, q, told) = absurd (cc)
  leave-IsAligned joining s l (k, told) = (tt, told)

  perform-IsAligned :
      (m : MainPc) (c : Command) (r : ℕ) (s : Shared) (l : Log)
      → c ≢ exit_command
      → Turn m (has_read c) s l
      → Turn m (executed r) s (record l { done = (c, r) ∷ l.done })
  perform-IsAligned idle c r s l n (p, q, told) = absurd (cc)
  perform-IsAligned (stored d) c r s l n (k, (p, q, told)) = absurd (cc)
  perform-IsAligned (waiting d) c r s l n (m, (k, q, told)) =
      (m, (q, ap₂ (λ (x : Command) (xs : List (Command × ℕ)). (x, r) ∷ xs) k told))
  perform-IsAligned (answered d) c r s l n (p, q, told) = absurd (cc)
  perform-IsAligned joining c r s l n (k, told) = absurd (n k)

  store_result-IsAligned :
      (m : MainPc) (r : ℕ) (s : Shared) (l : Log)
      → Turn m (executed r) s l
      → Turn m has_stored (record s { result = r }) l
  store_result-IsAligned idle r s l (p, q, told) = absurd (cc)
  store_result-IsAligned (stored c) r s l (k, (p, q, told)) = absurd (cc)
  store_result-IsAligned (waiting c) r s l a = a
  store_result-IsAligned (answered c) r s l (p, q, told) = absurd (cc)
  store_result-IsAligned joining r s l (x, told) = elim x [ ]

  signal_result-IsAligned :
      (m : MainPc) (s : Shared) (l : Log)
      → Turn m has_stored s l
      → Turn m sleeping (record s { evt_result = true }) l
  signal_result-IsAligned idle s l (p, q, told) = absurd (cc)
  signal_result-IsAligned (stored c) s l (k, (p, q, told)) = absurd (cc)
  signal_result-IsAligned (waiting c) s l (n, ((v, r), owed)) = (n, inr (v, refl, owed))
  signal_result-IsAligned (answered c) s l (p, q, told) = absurd (cc)
  signal_result-IsAligned joining s l (x, told) = elim x [ ]

  Step-IsAligned : {s t : State sys} → Step sys s t → IsAligned s → IsAligned t
  Step-IsAligned (store_period n) a = a
  Step-IsAligned (store c) a = λ f. (refl, a f)
  Step-IsAligned (signal {c = c} {t = t} {s = s} {w = w} {l = l}) a = λ f.
      let (k, (p, q, told)) = a f in
      subst (λ x. Turn (behind_signal sys c) x (record s { evt = true }) l) (sym p)
        (signal-IsAligned c s w l (k, q, told))
  Step-IsAligned signal_fails a = λ f. absurd (cc)
  Step-IsAligned (wait_result {c = c} {t = t} {s = s} {l = l} e) a =
      λ f. wait_result-IsAligned c t s l e (a f).1
  Step-IsAligned wait_result_fails a = λ f. absurd (cc)
  Step-IsAligned answer a = a
  Step-IsAligned (wait_command {m = m} {s = s} {l = l} e) a =
      λ f. wait_command-IsAligned m s l e (a f)
  Step-IsAligned wait_command_fails a = λ f. absurd (cc)
  Step-IsAligned fire a = a
  Step-IsAligned (read_command {m = m} {s = s} {l = l}) a = λ f. read_command-IsAligned m s l (a f)
  Step-IsAligned (leave {m = m} {s = s} {l = l}) a = λ f. leave-IsAligned m s l (a f)
  Step-IsAligned (perform {m = m} {c = c} {s = s} {w = w} {l = l} n) a =
      λ f. perform-IsAligned m c (execute sys c w).0 s l n (a f)
  Step-IsAligned (store_result {m = m} {r = r} {s = s} {l = l}) a =
      λ f. store_result-IsAligned m r s l (a f)
  Step-IsAligned (signal_result {m = m} {s = s} {l = l}) a =
      λ f. signal_result-IsAligned m s l (a f)
  Step-IsAligned signal_result_fails a = λ f. absurd (cc)

  pub Reach-IsAligned : {s t : State sys} → IsAligned s → Reach sys s t → IsAligned t
  Reach-IsAligned a here = a
  Reach-IsAligned a (next r st) = Step-IsAligned st (Reach-IsAligned a r)

  pub created-IsAligned : (w : W) → IsAligned (created sys w)
  created-IsAligned w = λ f. (refl, (refl, refl), refl)

  -- However the steps of the two threads and the firings of the timer interleave, as long as no SetEvent
  -- and no wait has failed: whenever the main thread is outside of _fftimer_cmd its calls have returned
  -- exactly the commands that the timer thread executed, in their order and each with the result of its
  -- own execution.
  pub Reach-Told :
      (w : W) (s : State sys)
      → Reach sys (created sys w) s
      → s.log.failed ≡ false
      → s.main ≡ idle
      → s.log.told ≡ s.log.done
  Reach-Told w s r f i = go s.main i (Reach-IsAligned (created-IsAligned w) r f)
    where
      go : (m : MainPc) → m ≡ idle → Turn m s.thread s.shared s.log → s.log.told ≡ s.log.done
      go idle e (p, q, told) = sym told
      go (stored c) e a = absurd (cc)
      go (waiting c) e a = absurd (cc)
      go (answered c) e a = absurd (cc)
      go joining e a = absurd (cc)
