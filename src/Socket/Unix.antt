-- ===== src/Socket/Unix.antt =====
-- The UNIX part of FFOS/socket.h, on Linux. The system calls are a parameter: `none` stands for
-- the value -1, and they take and leave the world outside, `errno` included.
use ffos.Base.{
  ℕ, zero, suc, ◌≡◌, ◌/◌, ◌%◌, Bool, true, false, Option, none, some, ◌==◌, if◌then◌else◌,
}
use ffos.Socket.{Addr, sockaddr_size, Answer}

-- `ffkq_task` of FFOS/kqtask.h
pub record Task : Type 0 where
  pub active : Bool
  pub kev_flags : ℕ
  pub kev_errno : ℕ

abbrev pub zero_task : Task
zero_task = record { active = false; kev_flags = 0; kev_errno = 0 }

abbrev pub einprogress : ℕ
einprogress = 115

abbrev pub eagain : ℕ
eagain = 11

-- EPOLLERR in the flags
abbrev pub has_err : ℕ → Bool
has_err flags = ((flags / 8) % 2) == 1

pub record UnixSys (E : Type 0) : Type 0 where
  pub last_error : E → ℕ
  pub set_error : ℕ → E → E
  pub last_error-set_error : (c : ℕ) (e : E) → last_error (set_error c e) ≡ c
  -- connect: whether it returns 0
  pub connect_call : ℕ → Addr → E → Bool × E
  -- getsockopt of SO_ERROR
  pub socket_error : ℕ → E → Option ℕ × E
  -- accept4 fills the address it is given, of which the length is the space
  pub accept_call : ℕ → ℕ → Addr → E → Option ℕ × (Addr × E)
  -- ffsock_localaddr: getsockname
  pub local_addr : ℕ → Addr → E → Addr × E
  pub recv_call : ℕ → ℕ → ℕ → E → Option ℕ × E
  pub recvfrom_call : ℕ → ℕ → ℕ → Addr → E → Option ℕ × (Addr × E)
  pub send_call : ℕ → ℕ → ℕ → E → Option ℕ × E
  pub writev_call : ℕ → ℕ → ℕ → E → Option ℕ × E

module _ {E : Type 0} (sys : UnixSys E) where
  open sys use {
    last_error, set_error, connect_call, socket_error, accept_call, local_addr, recv_call,
    recvfrom_call, send_call, writev_call,
  }

  -- What an event says of a connection that was under way.
  abbrev pub connected : Task → Option ℕ × E → Answer (Option ℕ) Task E
  connected t (none, e) = record { value = none; task = t; outside = e }
  connected t (some zero, e) = record { value = some 0; task = t; outside = e }
  connected t (some (suc c), e) = record { value = none; task = t; outside = set_error (suc c) e }

  abbrev pub begun : Bool × E → Answer (Option ℕ) Task E
  begun (true, e) = record { value = some 0; task = zero_task; outside = e }
  begun (false, e) = record {
    value = none;
    task = record zero_task { active = last_error e == einprogress };
    outside = e;
  }

  unfoldable pub connect_async : ℕ → Addr → Task → E → Answer (Option ℕ) Task E
  connect_async sk addr t e =
      if t.active
      then (let t' = record t { active = false } in
          if has_err t.kev_flags
          then connected t' (socket_error sk e)
          else record { value = some 0; task = t'; outside = e })
      else begun (connect_call sk addr e)

  -- The end of each of the other functions: EAGAIN becomes EINPROGRESS, and the task is active.
  abbrev pub again : Task → Option ℕ × E → Answer (Option ℕ) Task E
  again t (some n, e) = record { value = some n; task = record t { active = false }; outside = e }
  again t (none, e) =
      if last_error e == eagain
      then record {
        value = none;
        task = record t { active = true };
        outside = set_error einprogress e;
      }
      else record { value = none; task = record t { active = false }; outside = e }

  unfoldable pub recv_async : ℕ → ℕ → ℕ → Task → E → Answer (Option ℕ) Task E
  recv_async sk buf size t e = again t (recv_call sk buf size e)

  unfoldable pub recv_udp_async : ℕ → ℕ → ℕ → Task → E → Answer (Option ℕ) Task E
  unfolding recv_async
  recv_udp_async sk buf size t e = recv_async sk buf size t e

  abbrev pub filled : Option ℕ → Addr → Addr → Addr
  filled none old new = record new { len = old.len }
  filled (some n) old new = new

  -- The peer's address is filled by the call; its length is stored if the call succeeds.
  unfoldable pub recvfrom_async : ℕ → ℕ → ℕ → Addr → Task → E → Answer (Option ℕ) Task E × Addr
  recvfrom_async sk buf size peer t e =
      let (r, (peer', e')) = recvfrom_call sk buf size (record peer { len = sockaddr_size }) e in
      (again t (r, e'), filled r peer peer')

  unfoldable pub send_async : ℕ → ℕ → ℕ → Task → E → Answer (Option ℕ) Task E
  send_async sk buf size t e = again t (send_call sk buf size e)

  unfoldable pub sendv_async : ℕ → ℕ → ℕ → Task → E → Answer (Option ℕ) Task E
  sendv_async sk iov n t e = again t (writev_call sk iov n e)

  -- `ffsock_accept`: the length is stored whether the call succeeds or not.
  unfoldable pub accept : ℕ → Addr → ℕ → E → Option ℕ × (Addr × E)
  accept sk peer flags e = accept_call sk flags (record peer { len = sockaddr_size }) e

  abbrev pub local_of : Option ℕ → Option Addr → E → Option Addr × E
  local_of (some sk) (some a) e = let (a', e') = local_addr sk a e in (some a', e')
  local_of r local e = (local, e)

  -- `flags` is FFSOCK_NONBLOCK or 0. The addresses of both ends are the results behind the answer.
  unfoldable pub accept_async :
      ℕ → Addr → ℕ → Option Addr → Task → E → Answer (Option ℕ) Task E × (Addr × Option Addr)
  unfolding accept
  accept_async sk peer flags local t e =
      let (r, (peer', e')) = accept sk peer flags e in
      let (local', e'') = local_of r local e' in (again t (r, e''), (peer', local'))
