-- ===== src/Pipe/Examples.antt =====
-- Runs of the functions of FFOS/pipe.h, and the theorems at concrete inputs.
use ffos.Base.{ℕ, suc, ◌-◌, ◌≡◌, refl, true, false, none, some, replicate}
use ffos.Base.Text.{codes}
use ffos.Pipe.Unix.{PipeSys, create_named, connect_named, named-Accounted}
use ffos.Pipe.Windows.{WinPipeSys}

-- The number of open descriptors; nobody listens.
abbrev lonely : PipeSys ℕ
lonely = record {
  socket = λ n. (some 3, suc n);
  nonblock = λ p n. (true, n);
  bind = λ p s n. (true, n);
  listen = λ p n. (true, n);
  connect = λ p s n. (false, n);
  accept = λ p n. (none, n);
  close = λ p n. n - 1;
  last_error = λ n. 0;
  set_error = λ c n. n;
  open_count = λ n. n;
  count-socket = λ n. refl;
  count-close = λ p n. refl;
  count-nonblock = λ p n. refl;
  count-bind = λ p s n. refl;
  count-listen = λ p n. refl;
  count-connect = λ p s n. refl;
  count-set_error = λ c n. refl;
}

pipes :
    (create_named lonely (codes "/tmp/p") true 2 ≡ (some 3, 3))
    × (connect_named lonely (codes "/tmp/p") 2 ≡ (none, 2))
    × (create_named lonely (replicate 108 97) true 2 ≡ (none, 2))
unfolding create_named connect_named
pipes = (refl, refl, refl)

named-Accounted_example :
    ((create_named lonely (codes "/tmp/p") true 2).1 ≡ 3)
    × ((connect_named lonely (codes "/tmp/p") 2).1 ≡ 2)
unfolding create_named connect_named
named-Accounted_example = named-Accounted lonely (codes "/tmp/p") true 2

-- The last error; a client has not come yet.
abbrev waiting : WinPipeSys ℕ
waiting = record {
  connect_pipe = λ p b e. (false, 997);
  overlapped_result = λ e. (false, 996);
  read_file = λ p n e. (none, 109);
  create_pipe = λ e. (none, e);
  set_nowait = λ p e. (true, e);
  close = λ p e. e;
  last_error = λ e. e;
  set_error = λ c e. c;
  last_error-set_error = λ c e. refl;
}
