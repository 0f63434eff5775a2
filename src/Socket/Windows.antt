-- ===== src/Socket/Windows.antt =====
-- The Windows part of FFOS/socket.h: operations with an OVERLAPPED structure, which the system
-- completes later. The system calls are a parameter; `none` stands for the values -1 and
-- INVALID_SOCKET, and for a failed GetOverlappedResult.
use ffos.Base.{
  ℕ, ◌≡◌, ◌^◌, ◌-◌, Bool, true, false, Option, none, some, List, [], ◌∷◌, ◌==◌, min, if◌then◌else◌,
  take,
}
use ffos.Socket.{Addr, sockaddr_size, Answer}

-- `ffkq_task` and `ffkq_task_accept` of FFOS/kqtask.h; the structure OVERLAPPED is the system's.
pub record Task : Type 0 where
  pub active : Bool
  pub buf : List ℕ

pub record AcceptTask : Type 0 where
  pub active : Bool
  pub csock : ℕ

-- `sizeof(task->buf)`
abbrev pub buf_size : ℕ
buf_size = 1

abbrev pub io_incomplete : ℕ
io_incomplete = 996

abbrev pub io_pending : ℕ
io_pending = 997

abbrev pub would_block : ℕ
would_block = 10035

-- The most that one call transfers.
abbrev pub at_most : ℕ → ℕ
at_most n = min n (2 ^ 32 - 1)

pub record WinSys (E : Type 0) : Type 0 where
  pub last_error : E → ℕ
  pub set_error : ℕ → E → E
  pub last_error-set_error : (c : ℕ) (e : E) → last_error (set_error c e) ≡ c
  -- GetOverlappedResult, without waiting: the number of bytes
  pub overlapped_result : E → Option ℕ × E
  -- bind to the unspecified address of a family, and ConnectEx
  pub bind_any : ℕ → Addr → E → Bool × E
  pub connect_ex : ℕ → Addr → E → Bool × E
  pub recv_call : ℕ → ℕ → ℕ → E → Option ℕ × E
  pub recvfrom_call : ℕ → ℕ → ℕ → Addr → E → Option ℕ × (Addr × E)
  pub send_call : ℕ → List ℕ → E → Option ℕ × E
  pub wsa_send : ℕ → List (List ℕ) → E → Option ℕ × E
  -- ReadFile of so many bytes (0: only wait for data), WSARecvFrom, WriteFile
  pub read_file : ℕ → ℕ → ℕ → E → Bool × E
  pub wsa_recvfrom : ℕ → ℕ → ℕ → Addr → E → Bool × (Addr × E)
  pub write_file : ℕ → List ℕ → E → Bool × E
  -- ffsock_accept, ffsock_create of a TCP socket, closesocket, AcceptEx, and the address family,
  -- peer and local address of GetAcceptExSockaddrs
  pub accept_call : ℕ → Addr → ℕ → E → Option ℕ × (Addr × E)
  pub create_call : ℕ → ℕ → E → Option ℕ × E
  pub close_call : ℕ → E → E
  pub accept_ex : ℕ → ℕ → E → Bool × E
  pub accepted_addrs : E → ℕ × (Addr × Addr)

-- The first bytes of the first vector that is not empty.
unfoldable pub first_bytes : List (List ℕ) → List ℕ
first_bytes [] = []
first_bytes ([] ∷ vs) = first_bytes vs
first_bytes ((b ∷ v) ∷ vs) = take buf_size (b ∷ v)

module _ {E : Type 0} (sys : WinSys E) where
  open sys use {
    last_error, set_error, overlapped_result, bind_any, connect_ex, recv_call, recvfrom_call,
    send_call, wsa_send, read_file, wsa_recvfrom, write_file, accept_call, create_call, close_call,
    accept_ex, accepted_addrs,
  }

  -- The first lines of every function, for an active task: what the operation has come to.
  abbrev pub overlapped : Task → Option ℕ × E → Answer (Option ℕ) Task E
  overlapped t (some n, e) = record {
    value = some n;
    task = record t { active = false };
    outside = e;
  }
  overlapped t (none, e) =
      if last_error e == io_incomplete
      then record { value = none; task = t; outside = set_error io_pending e }
      else record { value = none; task = record t { active = false }; outside = e }

  -- The last lines, when the system has been asked to start an operation.
  abbrev pub started : Task → Bool × E → Answer (Option ℕ) Task E
  started t (true, e) = record {
    value = none;
    task = record t { active = true };
    outside = set_error io_pending e;
  }
  started t (false, e) =
      if last_error e == io_pending
      then record { value = none; task = record t { active = true }; outside = e }
      else record { value = none; task = t; outside = e }

  -- The lines between: a direct call, and an operation only if that would block.
  abbrev pub tried : Task → Option ℕ × E → (E → Answer (Option ℕ) Task E) → Answer (Option ℕ) Task E
  tried t (some n, e) start = record { value = some n; task = t; outside = e }
  tried t (none, e) start =
      if last_error e == would_block
      then start e
      else record { value = none; task = t; outside = e }

  -- A completed connection has the value 0.
  abbrev pub zero_if : Option ℕ → Option ℕ
  zero_if none = none
  zero_if (some n) = some 0

  abbrev pub zero_value : Answer (Option ℕ) Task E → Answer (Option ℕ) Task E
  zero_value a = record a { value = zero_if a.value }

  abbrev pub bound : ℕ → Addr → Task → Bool × E → Answer (Option ℕ) Task E
  bound sk addr t (false, e) = record { value = none; task = t; outside = e }
  bound sk addr t (true, e) =
      started (record { active = false; buf = 0 ∷ [] }) (connect_ex sk addr e)

  unfoldable pub connect_async : ℕ → Addr → Task → E → Answer (Option ℕ) Task E
  connect_async sk addr t e =
      if t.active
      then zero_value (overlapped t (overlapped_result e))
      else bound sk addr t (bind_any sk addr e)

  abbrev pub receive : ℕ → ℕ → ℕ → Task → E → Answer (Option ℕ) Task E
  receive sk buf size t e =
      tried t (recv_call sk buf (at_most size) e) (λ e'. started t (read_file sk 0 0 e'))

  -- Behind a completed wait the data is received.
  abbrev pub then_receive :
      ℕ → ℕ → ℕ → Option ℕ → Answer (Option ℕ) Task E → Answer (Option ℕ) Task E
  then_receive sk buf size none a = a
  then_receive sk buf size (some n) a = receive sk buf size a.task a.outside

  unfoldable pub recv_async : ℕ → ℕ → ℕ → Task → E → Answer (Option ℕ) Task E
  recv_async sk buf size t e =
      let a = overlapped t (overlapped_result e) in
      if t.active then then_receive sk buf size a.value a else receive sk buf size t e

  unfoldable pub recv_udp_async : ℕ → ℕ → ℕ → Task → E → Answer (Option ℕ) Task E
  recv_udp_async sk buf size t e =
      if t.active
      then overlapped t (overlapped_result e)
      else tried t (recv_call sk buf (at_most size) e)
          (λ e'. started t (read_file sk buf (at_most size) e'))

  -- The peer's length is stored unless the direct call would block; then the operation fills it.
  abbrev pub received :
      ℕ → ℕ → ℕ → Addr → Task → Option ℕ × (Addr × E) → Answer (Option ℕ) Task E × Addr
  received sk buf size peer t (some n, (peer', e)) =
      (record { value = some n; task = t; outside = e }, peer')
  received sk buf size peer t (none, (peer', e)) =
      let (ok, (peer'', e')) = wsa_recvfrom sk buf size (record peer' { len = sockaddr_size }) e in
      if last_error e == would_block
      then (started t (ok, e'), peer'')
      else (record { value = none; task = t; outside = e }, peer')

  unfoldable pub recvfrom_async : ℕ → ℕ → ℕ → Addr → Task → E → Answer (Option ℕ) Task E × Addr
  recvfrom_async sk buf size peer t e =
      if t.active
      then (overlapped t (overlapped_result e), peer)
      else received sk buf (at_most size) peer t
          (recvfrom_call sk buf (at_most size) (record peer { len = sockaddr_size }) e)

  -- What an operation sends: the bytes that the task can keep.
  unfoldable pub send_async : ℕ → List ℕ → Task → E → Answer (Option ℕ) Task E
  send_async sk text t e =
      let kept = take buf_size text in
      if t.active
      then overlapped t (overlapped_result e)
      else tried t (send_call sk (take (2 ^ 32 - 1) text) e)
          (λ e'. started (record t { buf = kept }) (write_file sk kept e'))

  abbrev pub send_first : ℕ → List ℕ → Task → E → Answer (Option ℕ) Task E
  send_first sk [] t e = record { value = some 0; task = t; outside = e }
  send_first sk (b ∷ v) t e = started (record t { buf = b ∷ v }) (write_file sk (b ∷ v) e)

  unfoldable pub sendv_async : ℕ → List (List ℕ) → Task → E → Answer (Option ℕ) Task E
  unfolding first_bytes
  sendv_async sk vs t e =
      if t.active
      then overlapped t (overlapped_result e)
      else tried t (wsa_send sk vs e) (λ e'. send_first sk (first_bytes vs) t e')

  -- The addresses of a completed accept; those of another family are not stored.
  abbrev pub ends : ℕ → Addr → Option Addr → ℕ × (Addr × Addr) → Addr × Option Addr
  ends domain peer none (family, (theirs, ours)) =
      (if domain == family then theirs else record peer { len = 0 }, none)
  ends domain peer (some l) (family, (theirs, ours)) =
      if domain == family then (theirs, some ours) else (record peer { len = 0 }, some l)

  abbrev pub Accepted : Type 0
  Accepted = Answer (Option ℕ) AcceptTask E × (Addr × Option Addr)

  abbrev pub accept_done : ℕ → Addr → Option Addr → AcceptTask → Option ℕ × E → Accepted
  accept_done domain peer local t (some n, e) = (
    record { value = some t.csock; task = record t { active = false }; outside = e },
    ends domain peer local (accepted_addrs e),
  )
  accept_done domain peer local t (none, e) = (
    if last_error e == io_incomplete
        then record { value = none; task = t; outside = set_error io_pending e }
        else record { value = none; task = record t { active = false }; outside = e },
    (peer, local),
  )

  -- The task is zeroed before AcceptEx; `csock` is its socket, closed if nothing has started.
  abbrev pub accept_started : ℕ → Bool × E → Answer (Option ℕ) AcceptTask E
  accept_started csock (true, e) = record {
    value = none;
    task = record { active = true; csock = csock };
    outside = set_error io_pending e;
  }
  accept_started csock (false, e) =
      if last_error e == io_pending
      then record { value = none; task = record { active = true; csock = csock }; outside = e }
      else record {
        value = none;
        task = record { active = false; csock = 0 };
        outside = close_call csock e;
      }

  abbrev pub accept_created : ℕ → AcceptTask → Option ℕ × E → Answer (Option ℕ) AcceptTask E
  accept_created lsock t (none, e) = record { value = none; task = t; outside = e }
  accept_created lsock t (some csock, e) = accept_started csock (accept_ex lsock csock e)

  abbrev pub accept_tried : ℕ → ℕ → ℕ → AcceptTask → Option ℕ × E → Answer (Option ℕ) AcceptTask E
  accept_tried lsock flags domain t (some sk, e) = record { value = some sk; task = t; outside = e }
  accept_tried lsock flags domain t (none, e) =
      if last_error e == would_block
      then accept_created lsock t (create_call domain flags e)
      else record { value = none; task = t; outside = e }

  unfoldable pub accept_async : ℕ → Addr → ℕ → ℕ → Option Addr → AcceptTask → E → Accepted
  accept_async lsock peer flags domain local t e =
      let (r, (peer', e')) = accept_call lsock peer flags e in
      if t.active
      then accept_done domain peer local t (overlapped_result e)
      else (accept_tried lsock flags domain t (r, e'), (peer', local))
