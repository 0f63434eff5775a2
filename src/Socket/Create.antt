-- ===== src/Socket/Create.antt =====
-- FFOS/socket.h on Windows: creating sockets, accepting connections, and the functions that are looked up at
-- start. The system calls are the parameter `SocketSys`, with the number of open sockets.
use ffos.Base.{
  ℕ, ◌+◌, ◌-◌, ◌≡◌, ◌∙◌, Bool, true, false, Option, none, some, List, [], ◌∷◌, ◌==◌, if◌then◌else◌,
  if_both, arith,
}
use ffos.Std.{has_bit, without_bit}
use ffos.Queue.{held}

-- FFSOCK_NONBLOCK, FFSOCK_INIT_WSA, FFSOCK_INIT_WSAFUNCS
abbrev pub nonblock_bit : ℕ
nonblock_bit = 0x100

abbrev pub init_wsa : ℕ
init_wsa = 2

abbrev pub init_wsafuncs : ℕ
init_wsafuncs = 4

-- AF_INET and SOCK_STREAM, ERROR_PROC_NOT_FOUND
abbrev af_inet : ℕ
af_inet = 2

abbrev sock_stream : ℕ
sock_stream = 1

abbrev proc_not_found : ℕ
proc_not_found = 127

pub record SocketSys (E : Type 0) : Type 0 where
  pub socket : ℕ → ℕ → ℕ → E → Option ℕ × E
  -- ioctlsocket with FIONBIO
  pub set_nonblock : ℕ → E → Bool × E
  pub accept : ℕ → E → Option ℕ × E
  pub close : ℕ → E → E
  -- WSAIoctl for the function with a number, and the variable that holds it
  pub look_up : ℕ → ℕ → E → Option ℕ × E
  pub store : ℕ → Option ℕ → E → E
  pub startup : E → Bool × E
  pub set_error : ℕ → E → E
  pub open_count : E → ℕ
  pub stored : E → ℕ → Option ℕ
  pub count-socket :
      (d t p : ℕ) (e : E) → open_count (socket d t p e).1 ≡ open_count e + held (socket d t p e).0
  pub count-accept :
      (l : ℕ) (e : E) → open_count (accept l e).1 ≡ open_count e + held (accept l e).0
  pub count-nonblock : (sk : ℕ) (e : E) → open_count (set_nonblock sk e).1 ≡ open_count e
  pub count-close : (sk : ℕ) (e : E) → open_count (close sk e) ≡ open_count e - 1
  pub count-look_up : (sk i : ℕ) (e : E) → open_count (look_up sk i e).1 ≡ open_count e
  pub count-store : (i : ℕ) (f : Option ℕ) (e : E) → open_count (store i f e) ≡ open_count e
  pub count-set_error : (c : ℕ) (e : E) → open_count (set_error c e) ≡ open_count e
  pub stored-look_up : (sk i j : ℕ) (e : E) → stored (look_up sk i e).1 j ≡ stored e j
  pub stored-close : (sk j : ℕ) (e : E) → stored (close sk e) j ≡ stored e j
  pub stored-store :
      (i j : ℕ) (f : Option ℕ) (e : E) → stored (store i f e) j ≡ (if i == j then f else stored e j)

module _ {E : Type 0} (sys : SocketSys E) where
  open sys use {
    socket, set_nonblock, accept, close, look_up, store, startup, set_error, open_count, stored,
  }

  abbrev pub moded : ℕ → Bool × E → Option ℕ × E
  moded sk (true, e) = (some sk, e)
  moded sk (false, e) = (none, close sk e)

  -- The branch on FFSOCK_NONBLOCK
  abbrev pub with_mode : ℕ → Option ℕ × E → Option ℕ × E
  with_mode flags (none, e) = (none, e)
  with_mode flags (some sk, e) =
      if has_bit flags nonblock_bit then moded sk (set_nonblock sk e) else (some sk, e)

  -- `ffsock_create`
  unfoldable pub create : ℕ → ℕ → ℕ → E → Option ℕ × E
  create domain ty protocol e =
      with_mode ty (socket domain (without_bit ty nonblock_bit) protocol e)

  -- `ffsock_accept`, without the address
  unfoldable pub accept_win : ℕ → ℕ → E → Option ℕ × E
  accept_win listen_sk flags e = with_mode flags (accept listen_sk e)

  -- `_ff_wsa_getfunc`
  abbrev pub got_func : Option ℕ × E → Option ℕ × E
  got_func (none, e) = (none, set_error proc_not_found e)
  got_func (some f, e) = (some f, e)

  abbrev pub keep_func : ℕ → (E → Bool × E) → Option ℕ × E → Bool × E
  keep_func i next (none, e) = (false, store i none e)
  keep_func i next (some f, e) = next (store i (some f) e)

  -- The loop of `_ff_wsa_getfuncs`
  unfoldable pub get_each : ℕ → List ℕ → E → Bool × E
  get_each sk [] e = (true, e)
  get_each sk (i ∷ is) e = keep_func i (get_each sk is) (got_func (look_up sk i e))

  abbrev pub closing : ℕ → Bool × E → Bool × E
  closing sk (ok, e) = (ok, close sk e)

  abbrev pub over_socket : Option ℕ × E → Bool × E
  over_socket (none, e) = (false, e)
  over_socket (some sk, e) = closing sk (get_each sk (0 ∷ 1 ∷ 2 ∷ 3 ∷ []) e)

  -- `_ff_wsa_getfuncs`
  unfoldable pub get_funcs : E → Bool × E
  get_funcs e = over_socket (create af_inet sock_stream 0 e)

  abbrev pub with_funcs : ℕ → Bool × E → Bool × E
  with_funcs flags (false, e) = (false, e)
  with_funcs flags (true, e) = if has_bit flags init_wsafuncs then get_funcs e else (true, e)

  -- `ffsock_init`
  unfoldable pub init : ℕ → E → Bool × E
  init flags e = with_funcs flags (if has_bit flags init_wsa then startup e else (true, e))

  abbrev IsAccounted : ℕ → Option ℕ × E → Type 0
  IsAccounted n r = open_count r.1 ≡ n + held r.0

  moded-IsAccounted :
      (n sk : ℕ) (r : Bool × E) → open_count r.1 ≡ n + 1 → IsAccounted n (moded sk r)
  moded-IsAccounted n sk (true, e) h = h
  moded-IsAccounted n sk (false, e) h = omega (arith, sys.count-close sk e, h)

  with_mode-IsAccounted :
      (n flags : ℕ) (r : Option ℕ × E)
      → open_count r.1 ≡ n + held r.0
      → IsAccounted n (with_mode flags r)
  with_mode-IsAccounted n flags (none, e) h = h
  with_mode-IsAccounted n flags (some sk, e) h =
      if_both (IsAccounted n) (has_bit flags nonblock_bit) (moded sk (set_nonblock sk e))
        (some sk, e) (λ y. moded-IsAccounted n sk (set_nonblock sk e) (sys.count-nonblock sk e ∙ h))
        (λ k. h)

  -- Whatever fails, ffsock_create and ffsock_accept leave one socket more open exactly if they return one.
  pub create-IsAccounted :
      (domain ty protocol : ℕ) (e : E)
      → IsAccounted (open_count e) (create domain ty protocol e)
        × IsAccounted (open_count e) (accept_win domain ty e)
  unfolding create accept_win
  create-IsAccounted domain ty protocol e = (
    with_mode-IsAccounted (open_count e) ty (socket domain (without_bit ty nonblock_bit) protocol e)
        (sys.count-socket domain (without_bit ty nonblock_bit) protocol e),
    with_mode-IsAccounted (open_count e) ty (accept domain e) (sys.count-accept domain e),
  )
