-- ===== src/Process/Examples.antt =====
-- Runs of the functions of FFOS/process.h, and the theorems at concrete inputs.
use ffos.Base.{
  ℕ, zero, suc, ◌+◌, ◌≡◌, ◌≤◌, ◌<◌, refl, Bool, true, false, Option, none, some, List, [], ◌∷◌,
  ◌++◌, length, map, take, leb, ◌==◌, if◌then◌else◌, arith,
}
use ffos.Base.Text.{codes}
use ffos.Ffbase.{Str}
use ffos.Process.CmdLine.{quote, WideLib, CmdLine, capacity, args_loop, argv_to_cmdln}
use ffos.Process.Quote.{read_args, backslash}
use ffos.Process.Made.{read_args-argv_to_cmdln}
use ffos.Process.Child.{ExecInfo, Forked, ExecSys, streams, streams-asked}
use ffos.Process.Wait.{WaitSys}
use ffos.Process.Filename.{NameSys, named, outside, filename_linux, filename_linux-outside}
use ffos.Process.Inherit.{Streams, HandleSys}

-- Texts of ASCII bytes, each of which is one unit
abbrev ascii : WideLib
ascii = record {
  measure = λ s. some (length s + 1);
  convert = λ n s. if leb (length s + 1) n then some s else none;
  has_memory = λ n. true;
}

lines :
    (argv_to_cmdln ascii (codes "f" ∷ codes "a b" ∷ [])
      ≡ CmdLine.made (codes "f \"a b\"" ++ (0 ∷ [])))
    × (argv_to_cmdln ascii (codes "f" ∷ codes "\"" ∷ []) ≡ CmdLine.refused)
unfolding capacity args_loop argv_to_cmdln
lines = (refl, refl)

-- An empty argument is not read back.
empty_argument :
    (argv_to_cmdln ascii (codes "f" ∷ [] ∷ codes "g" ∷ [])
      ≡ CmdLine.made (codes "f  g" ++ (0 ∷ [])))
    × (read_args false false 0 [] (codes "f  g") ≡ codes "f" ∷ codes "g" ∷ [])
unfolding capacity args_loop argv_to_cmdln read_args
empty_argument = (refl, refl)

-- A blank and a backslash at the end: the backslash and the quote behind it are read as a quote.
escaped_quote :
    read_args false false 0 [] (quote ∷ codes "a b" ++ (backslash ∷ quote ∷ []))
    ≡ (codes "a b" ++ (quote ∷ [])) ∷ []
unfolding read_args
escaped_quote = refl

abbrev words : List Str
words = codes "a b" ∷ []

read_args-argv_to_cmdln_example :
    (l : Str) × (argv_to_cmdln ascii (codes "f" ∷ words) ≡ CmdLine.made (l ++ (0 ∷ [])))
    × (n : ℕ) × (capacity ascii (codes "f" ∷ words) ≡ some n)
    × (length (l ++ (0 ∷ [])) ≤ n)
    × (read_args false false 0 [] l ≡ map (λ s. s) (codes "f" ∷ words))
read_args-argv_to_cmdln_example =
    read_args-argv_to_cmdln ascii (λ s. s) (codes "f") words
      (
        (refl, λ n h. rw (fits 2 n h) refl, refl, refl),
        ((refl, λ n h. rw (fits 4 n h) refl, refl, refl), tt),
      )
      (refl, (refl, tt)) ((refl, (refl, tt), λ e. absurd (cc)), ((refl, refl), tt)) refl
  where
    fits : (m n : ℕ) → m ≤ n → leb m n ≡ true
    fits m n h = ground arith

-- The open files of a process as a function
abbrev files : ExecSys (ℕ → Option ℕ)
files = record {
  vfork = λ e. Forked.child;
  reset_sigpipe = λ e. e;
  dup2 = λ a b e d. if d == b then e a else e d;
  chdir = λ s e. (true, e);
  execve = λ s a v e. (true, e);
  file_of = λ e. e;
  file_of-reset_sigpipe = λ e d. refl;
  file_of-dup2 = λ a b d e h. refl;
  file_of-chdir = λ s e d. refl;
}

abbrev five : ℕ → Option ℕ
five d = if leb d 5 then some (100 + d) else none

abbrev info : Option ℕ → Option ℕ → Option ℕ → ExecInfo
info i o r = record { argv = []; workdir = none; env = []; std_in = i; std_out = o; std_err = r }

streams-asked_example :
    let e = streams files (info none (some 4) (some 5)) five in
    (e 0 ≡ some 100) × (e 1 ≡ some 104) × (e 2 ≡ some 105) × ((d : ℕ) → e (3 + d) ≡ five (3 + d))
streams-asked_example =
    streams-asked files (info none (some 4) (some 5)) five tt (λ e. absurd (cc)) (λ e. absurd (cc))
      (λ e. absurd (omega (arith, e))) (λ e. absurd (omega (arith, e)))
      (λ e. absurd (omega (arith, e)))

-- A child that is reported after so many interruptions; the state is their number and the error.
abbrev child_of : WaitSys (ℕ × ℕ)
child_of = record {
  last_error = λ (n, c). c;
  set_error = λ c (n, c'). (n, c);
  waitid = λ ps b (n, c). elim n [ zero ↦ (true, (0, c)) | suc m ↦ (false, (m, 4)) ];
  info = λ e. record { si_pid = 7; exited = false; si_status = 9 };
  clear_info = λ e. e;
}

abbrev long_link : NameSys
long_link = record { readlink = λ n. some (take n (codes "/bin/sh")); realpath = λ s. some s }

filename_linux-outside_example :
    (7 < 7 → filename_linux long_link 7 [] ≡ named (take 7 (codes "/bin/sh")))
    × (7 ≤ 7 → filename_linux long_link 7 [] ≡ outside)
filename_linux-outside_example = filename_linux-outside long_link 7 [] (codes "/bin/sh") (λ n. refl)

-- The inheritance of handles as a function
abbrev handles : HandleSys (ℕ → Bool)
handles = record {
  set_inherit = λ h b e d. if d == h then b else e d;
  create = λ f l s any e. (some (40, 41), e);
  close = λ h e. e;
  wide_name = λ s. some s;
  inherits = λ e. e;
  inherits-set = λ h d b e. refl;
  inherits-close = λ h d e. refl;
}

abbrev out_only : Streams
out_only = record { std_in = none; std_out = some 8; std_err = none }
