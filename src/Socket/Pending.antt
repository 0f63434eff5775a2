-- ===== src/Socket/Pending.antt =====
-- The contract of the asynchronous functions: whoever finds a task active behind a call has been
-- told that an operation is in progress.
use ffos.Base.{
  ℕ, zero, suc, ◌≡◌, refl, Bool, true, false, Option, none, some, ◌==◌, inl, inr, Bool-cases, arith,
}
use ffos.Socket.{Addr, Answer}
use ffos.Socket.Unix
use ffos.Socket.Unix.{UnixSys}

-- An active task comes with no value and the error `busy`.
abbrev pub IsTold : {E : Type 0} → (E → ℕ) → ℕ → Bool → Option ℕ → E → Type 0
IsTold last_error busy active value e = active ≡ true → (value ≡ none) × (last_error e ≡ busy)

module _ {E : Type 0} (sys : UnixSys E) where
  abbrev pub UnixTold : Answer (Option ℕ) Unix.Task E → Type 0
  UnixTold a = IsTold sys.last_error Unix.einprogress a.task.active a.value a.outside

  again-Told : (t : Unix.Task) (r : Option ℕ × E) → UnixTold (Unix.again sys t r)
  again-Told t (some n, e) = λ h. cc
  again-Told t (none, e) = elim (Bool-cases (sys.last_error e == Unix.eagain)) [
    | inl y ↦ rw y (λ h. (refl, sys.last_error-set_error Unix.einprogress e))
    | inr n ↦ rw n (λ h. cc)
  ]

  begun-Told : (r : Bool × E) → UnixTold (Unix.begun sys r)
  begun-Told (true, e) = λ h. cc
  begun-Told (false, e) = λ h. (refl, ground (arith, h))

  connected-Told :
      (t : Unix.Task) (r : Option ℕ × E) → t.active ≡ false → UnixTold (Unix.connected sys t r)
  connected-Told t (none, e) off = λ h. cc
  connected-Told t (some zero, e) off = λ h. cc
  connected-Told t (some (suc c), e) off = λ h. cc

  -- On UNIX, a task that any of the asynchronous functions leaves active comes with the value -1 and
  -- the error EINPROGRESS, whatever the system calls answer.
  pub unix_async-IsTold :
      (sk a b c : ℕ) (addr : Addr) (local : Option Addr) (t : Unix.Task) (e : E)
      → UnixTold (Unix.connect_async sys sk addr t e)
        × UnixTold (Unix.accept_async sys sk addr c local t e).0
        × UnixTold (Unix.recv_async sys sk a b t e)
        × UnixTold (Unix.recv_udp_async sys sk a b t e)
        × UnixTold (Unix.recvfrom_async sys sk a b addr t e).0
        × UnixTold (Unix.send_async sys sk a b t e)
        × UnixTold (Unix.sendv_async sys sk a b t e)
  unfolding Unix.connect_async Unix.accept_async Unix.recv_async Unix.recv_udp_async
      Unix.recvfrom_async Unix.send_async Unix.sendv_async
  unix_async-IsTold sk a b c addr local t e = (
    connect,
    again-Told t _,
    again-Told t _,
    again-Told t _,
    again-Told t _,
    again-Told t _,
    again-Told t _,
  )
    where
      connect : UnixTold (Unix.connect_async sys sk addr t e)
      connect = elim (Bool-cases t.active) [
        | inl on ↦ rw on (elim (Bool-cases (Unix.has_err t.kev_flags)) [
          | inl x ↦ rw x (connected-Told (record t { active = false }) (sys.socket_error sk e) refl)
          | inr x ↦ rw x (λ h. cc)
        ])
        | inr off ↦ rw off (begun-Told (sys.connect_call sk addr e))
      ]
