-- ===== src/Socket/Overlapped.antt =====
-- The steps of the Windows functions, and the same contract: an active task comes with
-- ERROR_IO_PENDING.
use ffos.Base.{
  ℕ, ◌≡◌, refl, ap, Bool, true, false, Option, none, some, List, [], ◌∷◌, ◌==◌, inl, inr,
  Bool-cases, if_both, take, arith,
}
use ffos.Socket.{Addr, Answer}
use ffos.Socket.Windows
use ffos.Socket.Windows.{
  WinSys, io_pending, first_bytes, send_first, overlapped, started, tried, receive, then_receive,
  accept_started, accept_created, accept_tried, accept_done,
}
use ffos.Socket.Pending.{IsTold}

module _ {E : Type 0} (sys : WinSys E) where
  abbrev pub Told : {T : Type 0} → (T → Bool) → Answer (Option ℕ) T E → Type 0
  Told active a = IsTold sys.last_error io_pending (active a.task) a.value a.outside

  abbrev pub WinTold : Answer (Option ℕ) Windows.Task E → Type 0
  WinTold = Told (λ t. t.active)

  overlapped-Told : (t : Windows.Task) (r : Option ℕ × E) → WinTold (overlapped sys t r)
  overlapped-Told t (some n, e) = λ h. cc
  overlapped-Told t (none, e) = elim (Bool-cases (sys.last_error e == Windows.io_incomplete)) [
    | inl y ↦ rw y (λ h. (refl, sys.last_error-set_error io_pending e))
    | inr n ↦ rw n (λ h. cc)
  ]

  -- The steps below start with a task that is not active.
  module _ (t : Windows.Task) (off : t.active ≡ false) where
    idle-Told : (v : Option ℕ) (e : E) → WinTold (record { value = v; task = t; outside = e })
    idle-Told v e = λ h. cc

    started-Told : (r : Bool × E) → WinTold (started sys t r)
    started-Told (true, e) = λ h. (refl, sys.last_error-set_error io_pending e)
    started-Told (false, e) = elim (Bool-cases (sys.last_error e == io_pending)) [
      | inl y ↦ rw y (λ h. (refl, ground (arith, y)))
      | inr n ↦ rw n (idle-Told none e)
    ]

    tried-Told :
        (r : Option ℕ × E) (start : E → Answer (Option ℕ) Windows.Task E)
        → ((e : E) → WinTold (start e))
        → WinTold (tried sys t r start)
    tried-Told (some n, e) start told = idle-Told (some n) e
    tried-Told (none, e) start told = elim (Bool-cases (sys.last_error e == Windows.would_block)) [
      | inl y ↦ rw y (told e)
      | inr n ↦ rw n (idle-Told none e)
    ]

    receive-Told : (sk buf size : ℕ) (e : E) → WinTold (receive sys sk buf size t e)
    receive-Told sk buf size e =
        tried-Told (sys.recv_call sk buf (Windows.at_most size) e) _
          (λ e'. started-Told (sys.read_file sk 0 0 e'))

    received-Told :
        (sk buf size : ℕ) (peer : Addr) (r : Option ℕ × (Addr × E))
        → WinTold (Windows.received sys sk buf size peer t r).0
    received-Told sk buf size peer (some n, (peer', e)) = idle-Told (some n) e
    received-Told sk buf size peer (none, (peer', e)) =
        elim (Bool-cases (sys.last_error e == Windows.would_block)) [
          | inl y ↦ rw y (started-Told _)
          | inr n ↦ rw n (idle-Told none e)
        ]

  send_first-Told :
      (sk : ℕ) (v : List ℕ) (t : Windows.Task) (e : E)
      → t.active ≡ false
      → WinTold (send_first sys sk v t e)
  send_first-Told sk [] t e off = λ h. cc
  send_first-Told sk (b ∷ v) t e off =
      started-Told (record t { buf = b ∷ v }) off (sys.write_file sk (b ∷ v) e)

  bound-Told :
      (sk : ℕ) (addr : Addr) (t : Windows.Task) (r : Bool × E)
      → t.active ≡ false
      → WinTold (Windows.bound sys sk addr t r)
  bound-Told sk addr t (false, e) off = λ h. cc
  bound-Told sk addr t (true, e) off = started-Told _ refl (sys.connect_ex sk addr e)

  zero_value-Told :
      (a : Answer (Option ℕ) Windows.Task E) → WinTold a → WinTold (Windows.zero_value sys a)
  zero_value-Told a told h = (ap (Windows.zero_if sys) (told h).0, (told h).1)

  abbrev pub AcceptTold : Answer (Option ℕ) Windows.AcceptTask E → Type 0
  AcceptTold = Told (λ t. t.active)

  accept_started-Told : (csock : ℕ) (r : Bool × E) → AcceptTold (accept_started sys csock r)
  accept_started-Told csock (true, e) = λ h. (refl, sys.last_error-set_error io_pending e)
  accept_started-Told csock (false, e) = elim (Bool-cases (sys.last_error e == io_pending)) [
    | inl y ↦ rw y (λ h. (refl, ground (arith, y)))
    | inr n ↦ rw n (λ h. cc)
  ]

  accept_created-Told :
      (lsock : ℕ) (t : Windows.AcceptTask) (r : Option ℕ × E)
      → t.active ≡ false
      → AcceptTold (accept_created sys lsock t r)
  accept_created-Told lsock t (none, e) off = λ h. cc
  accept_created-Told lsock t (some c, e) off = accept_started-Told c (sys.accept_ex lsock c e)

  accept_tried-Told :
      (lsock flags domain : ℕ) (t : Windows.AcceptTask) (r : Option ℕ × E)
      → t.active ≡ false
      → AcceptTold (accept_tried sys lsock flags domain t r)
  accept_tried-Told lsock flags domain t (some n, e) off = λ h. cc
  accept_tried-Told lsock flags domain t (none, e) off =
      elim (Bool-cases (sys.last_error e == Windows.would_block)) [
        | inl y ↦ rw y (accept_created-Told lsock t (sys.create_call domain flags e) off)
        | inr n ↦ rw n (λ h. cc)
      ]

  accept_done-Told :
      (domain : ℕ) (peer : Addr) (local : Option Addr) (t : Windows.AcceptTask) (r : Option ℕ × E)
      → AcceptTold (accept_done sys domain peer local t r).0
  accept_done-Told domain peer local t (some n, e) = λ h. cc
  accept_done-Told domain peer local t (none, e) =
      elim (Bool-cases (sys.last_error e == Windows.io_incomplete)) [
        | inl y ↦ rw y (λ h. (refl, sys.last_error-set_error io_pending e))
        | inr n ↦ rw n (λ h. cc)
      ]

  then_receive-Told :
      (sk buf size : ℕ) (v : Option ℕ) (a : Answer (Option ℕ) Windows.Task E)
      → WinTold a
      → (v ≡ a.value)
      → WinTold (then_receive sys sk buf size v a)
  then_receive-Told sk buf size none a told e = told
  then_receive-Told sk buf size (some n) a told e = elim (Bool-cases a.task.active) [
    | inl on ↦ let w = (told on).0 in cc
    | inr off ↦ receive-Told a.task off sk buf size a.outside
  ]

  -- On Windows, a task that any of the asynchronous functions leaves active comes with the value -1
  -- (INVALID_SOCKET) and the error ERROR_IO_PENDING, whatever the system calls answer and whether the
  -- task was active before or not.
  pub windows_async-IsTold :
      (sk a b c : ℕ) (addr : Addr) (local : Option Addr) (bytes : List ℕ) (vs : List (List ℕ))
      (t : Windows.Task) (u : Windows.AcceptTask) (e : E)
      → WinTold (Windows.connect_async sys sk addr t e)
        × AcceptTold (Windows.accept_async sys sk addr a b local u e).0
        × WinTold (Windows.recv_async sys sk a b t e)
        × WinTold (Windows.recv_udp_async sys sk a b t e)
        × WinTold (Windows.recvfrom_async sys sk a b addr t e).0
        × WinTold (Windows.send_async sys sk bytes t e)
        × WinTold (Windows.sendv_async sys sk vs t e)
  unfolding Windows.connect_async Windows.accept_async Windows.recv_async Windows.recv_udp_async
      Windows.recvfrom_async Windows.send_async Windows.sendv_async
  windows_async-IsTold sk a b c addr local bytes vs t u e =
      (connect, accept, recv, recv_udp, recvfrom, send, sendv)
    where
      done : WinTold (overlapped sys t (sys.overlapped_result e))
      done = overlapped-Told t (sys.overlapped_result e)

      connect : WinTold (Windows.connect_async sys sk addr t e)
      connect =
          if_both WinTold t.active _ _
            (λ on. zero_value-Told (overlapped sys t (sys.overlapped_result e)) done)
            (λ off. bound-Told sk addr t (sys.bind_any sk addr e) off)

      accept : AcceptTold (Windows.accept_async sys sk addr a b local u e).0
      accept =
          if_both (λ (r : Windows.Accepted sys). AcceptTold r.0) u.active _ _
            (λ on. accept_done-Told b addr local u (sys.overlapped_result e))
            (λ off. accept_tried-Told sk a b u _ off)

      recv : WinTold (Windows.recv_async sys sk a b t e)
      recv =
          if_both WinTold t.active _ _
            (λ on.
              then_receive-Told sk a b _ (overlapped sys t (sys.overlapped_result e)) done refl)
            (λ off. receive-Told t off sk a b e)

      recv_udp : WinTold (Windows.recv_udp_async sys sk a b t e)
      recv_udp =
          if_both WinTold t.active _ _ (λ on. done)
            (λ off. tried-Told t off _ _ (λ e'. started-Told t off _))

      recvfrom : WinTold (Windows.recvfrom_async sys sk a b addr t e).0
      recvfrom =
          if_both (λ (r : Answer (Option ℕ) Windows.Task E × Addr). WinTold r.0) t.active _ _
            (λ on. done) (λ off. received-Told t off sk a _ addr _)

      send : WinTold (Windows.send_async sys sk bytes t e)
      send =
          if_both WinTold t.active _ _ (λ on. done)
            (λ off.
              tried-Told t off _ _
                (λ e'. started-Told (record t { buf = take Windows.buf_size bytes }) off _))

      sendv : WinTold (Windows.sendv_async sys sk vs t e)
      sendv =
          if_both WinTold t.active _ _ (λ on. done)
            (λ off. tried-Told t off _ _ (λ e'. send_first-Told sk _ t e' off))
