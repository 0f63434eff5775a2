-- ===== src/Socket/Examples.antt =====
-- Runs of the asynchronous socket functions on small systems, and the theorems at such inputs.
use ffos.Base.{ℕ, ◌+◌, ◌*◌, ◌/◌, ◌%◌, ◌^◌, ◌≡◌, ◌<◌, refl, true, false, none, some, [], ◌∷◌, arith}
use ffos.Socket.{Addr}
use ffos.Socket.Unix
use ffos.Socket.Windows
use ffos.Socket.Pending.{UnixTold, unix_async-IsTold}
use ffos.Socket.Overlapped.{WinTold, AcceptTold, windows_async-IsTold}
use ffos.Socket.Address.{SockAddr}

abbrev nowhere : Addr
nowhere = record { len = 0; bytes = [] }

-- Outside there is the error code; every call would block.
abbrev blocked : Unix.UnixSys ℕ
blocked = record {
  last_error = λ e. e;
  set_error = λ c e. c;
  last_error-set_error = λ c e. refl;
  connect_call = λ sk a e. (false, Unix.einprogress);
  socket_error = λ sk e. (some 111, e);
  accept_call = λ sk f a e. (none, (a, Unix.eagain));
  local_addr = λ sk a e. (a, e);
  recv_call = λ sk b n e. (none, Unix.eagain);
  recvfrom_call = λ sk b n a e. (none, (a, Unix.eagain));
  send_call = λ sk b n e. (some n, e);
  writev_call = λ sk v n e. (none, Unix.eagain);
}

abbrev slow : Windows.WinSys ℕ
slow = record {
  last_error = λ e. e;
  set_error = λ c e. c;
  last_error-set_error = λ c e. refl;
  overlapped_result = λ e. (none, Windows.io_incomplete);
  bind_any = λ sk a e. (true, e);
  connect_ex = λ sk a e. (false, Windows.io_pending);
  recv_call = λ sk b n e. (none, Windows.would_block);
  recvfrom_call = λ sk b n a e. (none, (a, Windows.would_block));
  send_call = λ sk b e. (none, Windows.would_block);
  wsa_send = λ sk v e. (none, Windows.would_block);
  read_file = λ sk b n e. (true, e);
  wsa_recvfrom = λ sk b n a e. (false, (a, Windows.io_pending));
  write_file = λ sk b e. (true, e);
  accept_call = λ sk a f e. (none, (a, Windows.would_block));
  create_call = λ d f e. (some 9, e);
  close_call = λ sk e. e;
  accept_ex = λ l c e. (true, e);
  accepted_addrs = λ e. (2, (nowhere, nowhere));
}

abbrev idle : Windows.Task
idle = record { active = false; buf = 0 ∷ [] }

abbrev no_socket : Windows.AcceptTask
no_socket = record { active = false; csock = 0 }

runs :
    ((Unix.recv_async blocked 3 64 16 Unix.zero_task 0).task.active ≡ true)
    × ((Unix.recv_async blocked 3 64 16 Unix.zero_task 0).outside ≡ 115)
    × ((Unix.connect_async blocked 3 nowhere
          (record { active = true; kev_flags = 8; kev_errno = 0 })
          0).outside
        ≡ 111)
    × ((Windows.recv_async slow 3 64 16 idle 0).task.active ≡ true)
    × ((Windows.recv_async slow 3 64 16 (record idle { active = true }) 0).outside ≡ 997)
    × ((Windows.sendv_async slow 3 ([] ∷ (65 ∷ 66 ∷ []) ∷ []) idle 0).task.buf ≡ 65 ∷ [])
    × ((Windows.accept_async slow 3 nowhere 0 2 none no_socket 0).0.task.csock ≡ 9)
unfolding Unix.recv_async Unix.connect_async Windows.recv_async Windows.sendv_async
    Windows.first_bytes Windows.accept_async
runs = (refl, refl, refl, refl, refl, refl, refl)

unix_async-IsTold_example :
    UnixTold blocked (Unix.connect_async blocked 3 nowhere Unix.zero_task 0)
    × UnixTold blocked (Unix.accept_async blocked 3 nowhere 0 none Unix.zero_task 0).0
    × UnixTold blocked (Unix.recv_async blocked 3 64 16 Unix.zero_task 0)
    × UnixTold blocked (Unix.recv_udp_async blocked 3 64 16 Unix.zero_task 0)
    × UnixTold blocked (Unix.recvfrom_async blocked 3 64 16 nowhere Unix.zero_task 0).0
    × UnixTold blocked (Unix.send_async blocked 3 64 16 Unix.zero_task 0)
    × UnixTold blocked (Unix.sendv_async blocked 3 64 16 Unix.zero_task 0)
unix_async-IsTold_example = unix_async-IsTold blocked 3 64 16 0 nowhere none Unix.zero_task 0

windows_async-IsTold_example :
    WinTold slow (Windows.connect_async slow 3 nowhere idle 0)
    × AcceptTold slow (Windows.accept_async slow 3 nowhere 64 16 none no_socket 0).0
    × WinTold slow (Windows.recv_async slow 3 64 16 idle 0)
    × WinTold slow (Windows.recv_udp_async slow 3 64 16 idle 0)
    × WinTold slow (Windows.recvfrom_async slow 3 64 16 nowhere idle 0).0
    × WinTold slow (Windows.send_async slow 3 (65 ∷ []) idle 0)
    × WinTold slow (Windows.sendv_async slow 3 ((65 ∷ []) ∷ []) idle 0)
windows_async-IsTold_example =
    windows_async-IsTold slow 3 64 16 0 nowhere none (65 ∷ []) ((65 ∷ []) ∷ []) idle no_socket 0

-- The two bytes of a word in the other order.
abbrev swap16 : ℕ → ℕ
swap16 x = (x % 256) * 256 + (x / 256) % 256

swap16_twice : (x : ℕ) → x < 2 ^ 16 → swap16 (swap16 x) ≡ x
swap16_twice x h = omega arith

abbrev blank : SockAddr
blank = record { len = 0; family = 0; port = 0; at4 = []; at8 = [] }
