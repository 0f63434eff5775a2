-- ===== src/Pipe/Unix.antt =====
-- FFOS/pipe.h on Linux: a named pipe is a socket. The system calls are the parameter `PipeSys`, with the
-- number of open descriptors.
use ffos.Base.{
  ℕ, suc, ◌+◌, ◌-◌, ◌≡◌, ◌∙◌, Bool, true, false, Option, none, some, length, ltb, ◌==◌,
  if◌then◌else◌, if_both, arith,
}
use ffos.Ffbase.{Str}

abbrev pub einval : ℕ
einval = 22

abbrev pub eagain : ℕ
eagain = 11

abbrev pub einprogress : ℕ
einprogress = 115

-- sizeof(a.sun_path)
abbrev pub path_size : ℕ
path_size = 108

abbrev pub one_more : Option ℕ → ℕ → ℕ
one_more none n = n
one_more (some p) n = suc n

pub record PipeSys (E : Type 0) : Type 0 where
  pub socket : E → Option ℕ × E
  -- ioctl of FIONBIO, bind, listen, connect: whether they succeed
  pub nonblock : ℕ → E → Bool × E
  pub bind : ℕ → Str → E → Bool × E
  pub listen : ℕ → E → Bool × E
  pub connect : ℕ → Str → E → Bool × E
  pub accept : ℕ → E → Option ℕ × E
  pub close : ℕ → E → E
  pub last_error : E → ℕ
  pub set_error : ℕ → E → E
  -- The number of open descriptors: only socket and close change it (and accept, of a client).
  pub open_count : E → ℕ
  pub count-socket : (e : E) → open_count (socket e).1 ≡ one_more (socket e).0 (open_count e)
  pub count-close : (p : ℕ) (e : E) → open_count (close p e) ≡ open_count e - 1
  pub count-nonblock : (p : ℕ) (e : E) → open_count (nonblock p e).1 ≡ open_count e
  pub count-bind : (p : ℕ) (s : Str) (e : E) → open_count (bind p s e).1 ≡ open_count e
  pub count-listen : (p : ℕ) (e : E) → open_count (listen p e).1 ≡ open_count e
  pub count-connect : (p : ℕ) (s : Str) (e : E) → open_count (connect p s e).1 ≡ open_count e
  pub count-set_error : (c : ℕ) (e : E) → open_count (set_error c e) ≡ open_count e

module _ {E : Type 0} (sys : PipeSys E) where
  open sys use {
    socket, nonblock, bind, listen, connect, accept, close, last_error, set_error, open_count,
  }

  -- `goto err`, or the descriptor
  abbrev pub or_close : ℕ → Bool × E → Option ℕ × E
  or_close p (true, e) = (some p, e)
  or_close p (false, e) = (none, close p e)

  abbrev pub after_bind : ℕ → Bool × E → Option ℕ × E
  after_bind p (true, e) = or_close p (listen p e)
  after_bind p (false, e) = (none, close p e)

  abbrev pub after_nonblock : ℕ → Str → Bool × E → Option ℕ × E
  after_nonblock p name (true, e) = after_bind p (bind p name e)
  after_nonblock p name (false, e) = (none, close p e)

  abbrev pub named_socket : Str → Bool → Option ℕ × E → Option ℕ × E
  named_socket name waits_not (none, e) = (none, e)
  named_socket name waits_not (some p, e) =
      after_nonblock p name (if waits_not then nonblock p e else (true, e))

  -- `ffpipe_create_named`, with whether FFPIPE_NONBLOCK or FFPIPE_ASYNC is given
  unfoldable pub create_named : Str → Bool → E → Option ℕ × E
  create_named name waits_not e =
      if ltb path_size (length name + 1)
      then (none, set_error einval e)
      else named_socket name waits_not (socket e)

  abbrev pub connected_socket : Str → Option ℕ × E → Option ℕ × E
  connected_socket name (none, e) = (none, e)
  connected_socket name (some p, e) = or_close p (connect p name e)

  -- `ffpipe_connect`
  unfoldable pub connect_named : Str → E → Option ℕ × E
  connect_named name e =
      if ltb path_size (length name + 1)
      then (none, set_error einval e)
      else connected_socket name (socket e)

  abbrev pub pending : Option ℕ × E → Option ℕ × E
  pending (some c, e) = (some c, e)
  pending (none, e) = if last_error e == eagain then (none, set_error einprogress e) else (none, e)

  -- `ffpipe_accept_async`
  unfoldable pub accept_async : ℕ → E → Option ℕ × E
  accept_async p e = pending (accept p e)

  -- A result accounts for the descriptors: one more is open if it is returned.
  abbrev pub Accounted : ℕ → Option ℕ × E → Type 0
  Accounted n r = open_count r.1 ≡ one_more r.0 n

  closed-Accounted : (p n : ℕ) (e : E) → open_count e ≡ suc n → Accounted n (none, close p e)
  closed-Accounted p n e h = omega (arith, sys.count-close p e, h)

  or_close-Accounted :
      (p n : ℕ) (r : Bool × E) → open_count r.1 ≡ suc n → Accounted n (or_close p r)
  or_close-Accounted p n (true, e) h = h
  or_close-Accounted p n (false, e) h = closed-Accounted p n e h

  after_bind-Accounted :
      (p n : ℕ) (r : Bool × E) → open_count r.1 ≡ suc n → Accounted n (after_bind p r)
  after_bind-Accounted p n (true, e) h =
      or_close-Accounted p n (listen p e) (sys.count-listen p e ∙ h)
  after_bind-Accounted p n (false, e) h = closed-Accounted p n e h

  after_nonblock-Accounted :
      (p n : ℕ) (name : Str) (r : Bool × E)
      → open_count r.1 ≡ suc n
      → Accounted n (after_nonblock p name r)
  after_nonblock-Accounted p n name (true, e) h =
      after_bind-Accounted p n (bind p name e) (sys.count-bind p name e ∙ h)
  after_nonblock-Accounted p n name (false, e) h = closed-Accounted p n e h

  named_socket-Accounted :
      (name : Str) (waits_not : Bool) (n : ℕ) (r : Option ℕ × E)
      → Accounted n r
      → Accounted n (named_socket name waits_not r)
  named_socket-Accounted name waits_not n (none, e) h = h
  named_socket-Accounted name waits_not n (some p, e) h =
      after_nonblock-Accounted p n name (if waits_not then nonblock p e else (true, e)) (
        if_both (λ (r : Bool × E). open_count r.1 ≡ suc n) waits_not (nonblock p e) (true, e)
          (λ y. sys.count-nonblock p e ∙ h) (λ m. h))

  connected_socket-Accounted :
      (name : Str) (n : ℕ) (r : Option ℕ × E)
      → Accounted n r
      → Accounted n (connected_socket name r)
  connected_socket-Accounted name n (none, e) h = h
  connected_socket-Accounted name n (some p, e) h =
      or_close-Accounted p n (connect p name e) (sys.count-connect p name e ∙ h)

  -- Whichever of their calls fails, ffpipe_create_named and ffpipe_connect leave one more descriptor open
  -- if they return it, and otherwise as many as before.
  pub named-Accounted :
      (name : Str) (waits_not : Bool) (e : E)
      → Accounted (open_count e) (create_named name waits_not e)
        × Accounted (open_count e) (connect_named name e)
  unfolding create_named connect_named
  named-Accounted name waits_not e =
      let n = open_count e in
      let long = ltb path_size (length name + 1) in
      let refused : Option ℕ × E = (none, set_error einval e) in
      let made = named_socket name waits_not (socket e) in
      let linked = connected_socket name (socket e) in
      (
        if_both (Accounted n) long refused made (λ y. sys.count-set_error einval e)
            (λ m. named_socket-Accounted name waits_not n (socket e) (sys.count-socket e)),
        if_both (Accounted n) long refused linked (λ y. sys.count-set_error einval e)
            (λ m. connected_socket-Accounted name n (socket e) (sys.count-socket e)),
      )
