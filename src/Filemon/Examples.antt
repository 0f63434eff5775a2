-- ===== src/Filemon/Examples.antt =====
-- Runs of the functions of FFOS/filemon.h, and the theorems at concrete inputs.
use ffos.Base.{
  ℕ, zero, suc, ◌+◌, ◌-◌, ◌≡◌, ◌<◌, refl, ap, Bool, true, false, none, some, List, [], ◌∷◌, ◌++◌,
  length, drop, replicate, ◌==◌, if◌then◌else◌, arith, All,
}
use ffos.Base.Int.{pos}
use ffos.Base.Text.{codes}
use ffos.Ffbase.{Str}
use ffos.Ffbase.Reference.{reference}
use ffos.Filemon.{Sent, next_linux}
use ffos.Filemon.Encoded.{next_linux-encoded}
use ffos.Filemon.Notify.{NotifyLib, Watch}
use ffos.Filemon.Changes.{Change}
use ffos.Path.{splitpath_win}
use ffos.Filemon.Watch.{WatchSys, add_dir, add_file, close_all}
use ffos.Filemon.Handles.{Request, for_dir, for_file, add_each, close_all-add_each}

-- The text up to the first zero: for a name without zeros the same as without the zeros at its end
abbrev until_zero : Str → Str
until_zero [] = []
until_zero (zero ∷ s) = []
until_zero (suc b ∷ s) = suc b ∷ until_zero s

until_zero-zeros : (s : Str) (n : ℕ) → All (λ b. 0 < b) s → until_zero (s ++ replicate n 0) ≡ s
until_zero-zeros [] zero a = refl
until_zero-zeros [] (suc n) a = refl
until_zero-zeros (zero ∷ s) n (h, a) = elim h [ ]
until_zero-zeros (suc b ∷ s) n (h, a) = ap (λ t. suc b ∷ t) (until_zero-zeros s n a)

abbrev created : Sent
created = record {
  sent_wd = 1;
  sent_mask = 256;
  sent_cookie = 0;
  sent_name = codes "log";
  zeros = 12;
}

next_linux-encoded_example :
    next_linux (λ s c. until_zero s) (ffos.Filemon.encoded created ++ (7 ∷ []))
    ≡ record { result = pos 1; stored = some (codes "log", 256); input = 7 ∷ [] }
next_linux-encoded_example =
    next_linux-encoded (λ s c. until_zero s) until_zero-zeros created (7 ∷ [])
      (
        omega arith,
        omega arith,
        omega arith,
        omega arith,
        (omega arith, (omega arith, (omega arith, tt))),
      )

-- A queue that has overflowed: the descriptor -1, which is the result without an event
overflowed :
    (next_linux
      (λ s c. until_zero s)
      (ffos.Filemon.encoded (record {
        sent_wd = 0xFFFFFFFF;
        sent_mask = 0x4000;
        sent_cookie = 0;
        sent_name = [];
        zeros = 0;
      }))).result
    ≡ (next_linux (λ s c. until_zero s) []).result
unfolding next_linux ffos.Filemon.header_of ffos.Filemon.Bytes.word
overflowed = refl

abbrev same_text : Str → Str → Bool
same_text [] [] = true
same_text [] (b ∷ t) = false
same_text (a ∷ s) [] = false
same_text (a ∷ s) (b ∷ t) = if a == b then same_text s t else false

-- Names of which the conversion changes nothing
abbrev plain : NotifyLib
plain = record {
  wtou_size = λ s. pos (length s);
  wtou = λ s. s;
  has_memory = λ n. true;
  shift = λ s n. drop n s;
  eqz = same_text;
  shift-drop = λ s n h. refl;
}

abbrev change_of : ℕ → Str → Change
change_of a s = record { action = a; units = s; name = s; extra = 3 }

abbrev watch_of : Bool → Str → Watch
watch_of d s = record { handle = 8; events = 1; dir = d; namez = s }

-- The number of open handles and the last error; there is no memory for a copy of a path.
abbrev handles : WatchSys (ℕ × ℕ)
handles = record {
  open_dir = λ p e. (some 4, (e.0 + 1, e.1));
  close = λ d e. (e.0 - 1, e.1);
  alloc_watch = λ e. (some true, e);
  alloc_text = λ s e. (false, e);
  push = λ e. (true, e);
  read_changes = λ d n v e. (true, e);
  overlapped_result = λ e. (none, e);
  last_error = λ e. e.1;
  set_error = λ c e. (e.0, c);
  open_count = λ e. e.0;
  error_set = λ c e. refl;
  count-open = λ p e. refl;
  count-close = λ d e. refl;
  count-alloc = λ e. refl;
  count-text = λ s e. refl;
  count-push = λ e. refl;
}

abbrev requests : List Request
requests = for_dir (codes "C:\\a") 1 ∷ for_file (codes "C:\\b") 1 ∷ for_dir (codes "C:\\c") 1 ∷ []

two_watches : length (add_each handles reference requests [] (5, 0)).0 ≡ 2
unfolding add_dir add_file splitpath_win
two_watches = refl

close_all-add_each_example :
    (close_all handles
      (add_each handles reference requests [] (5, 0)).0
      (add_each handles reference requests [] (5, 0)).1).0
    ≡ 5
close_all-add_each_example = close_all-add_each handles reference requests (5, 0)
