-- ===== src/Socket/Started.antt =====
-- Runs of the functions of FFOS/socket.h that create sockets and shift vectors, and the theorems at such
-- inputs.
use ffos.Base.{
  ℕ, ◌+◌, ◌-◌, ◌≡◌, refl, true, false, Option, none, some, List, [], ◌∷◌, length, drop, ◌==◌,
  if◌then◌else◌, arith,
}
use ffos.Base.Text.{codes}
use ffos.Ffbase.{Str}
use ffos.Socket.Vectors.{joined}
use ffos.Socket.Iovec.{array_shift, iovec_shift, has_bytes, array_shift-drop}
use ffos.Socket.Create.{SocketSys, create, get_funcs}
use ffos.Socket.Functions.{HasAll, get_funcs-HasAll}

abbrev vectors : List Str
vectors = codes "ab" ∷ [] ∷ codes "cde" ∷ codes "f" ∷ []

shifted : array_shift vectors 3 ≡ (true, [] ∷ [] ∷ codes "de" ∷ codes "f" ∷ [])
unfolding array_shift iovec_shift
shifted = refl

array_shift-drop_example :
    (joined (array_shift vectors 3).1 ≡ drop 3 (joined vectors))
    × ((array_shift vectors 3).0 ≡ has_bytes (joined (array_shift vectors 3).1))
    × (length (array_shift vectors 3).1 ≡ length vectors)
array_shift-drop_example = array_shift-drop vectors 3

-- The number of open sockets, and the functions
abbrev World : Type 0
World = ℕ × (ℕ → Option ℕ)

zero_more : (n : ℕ) → n ≡ n + 0
zero_more n = omega arith

abbrev helpful : SocketSys World
helpful = record {
  socket = λ d t p e. (some 5, (e.0 + 1, e.1));
  set_nonblock = λ sk e. (false, e);
  accept = λ l e. (none, e);
  close = λ sk e. (e.0 - 1, e.1);
  look_up = λ sk i e. (some 64, e);
  store = λ i f e. (e.0, λ j. if i == j then f else e.1 j);
  startup = λ e. (true, e);
  set_error = λ c e. e;
  open_count = λ e. e.0;
  stored = λ e j. e.1 j;
  count-socket = λ d t p e. refl;
  count-accept = λ l e. zero_more e.0;
  count-nonblock = λ sk e. refl;
  count-close = λ sk e. refl;
  count-look_up = λ sk i e. refl;
  count-store = λ i f e. refl;
  count-set_error = λ c e. refl;
  stored-look_up = λ sk i j e. refl;
  stored-close = λ sk j e. refl;
  stored-store = λ i j f e. refl;
}

abbrev start : World
start = (2, λ j. none)

-- A socket that cannot be made non-blocking is closed.
made :
    ((create helpful 2 0x101 0 start).0 ≡ none)
    × ((create helpful 2 0x101 0 start).1.0 ≡ 2)
    × ((create helpful 2 1 0 start).1.0 ≡ 3)
unfolding create
made = (refl, refl, refl)

get_funcs-HasAll_example :
    ((get_funcs helpful start).1.0 ≡ 2)
    × ((get_funcs helpful start).0 ≡ true → HasAll helpful (get_funcs helpful start).1)
get_funcs-HasAll_example = get_funcs-HasAll helpful start
