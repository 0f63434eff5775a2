-- ===== src/Filemon/Notify.antt =====
-- FFOS/filemon.h on Windows: reading the events of a directory (FILE_NOTIFY_INFORMATION).
use ffos.Base.{
  ℕ, zero, suc, ◌+◌, ◌≡◌, ◌≤◌, Bool, Option, none, some, List, [], ◌∷◌, length, take, drop, ltb,
  ◌==◌, ◌||◌, if◌then◌else◌,
}
use ffos.Base.Int.{ℤ, pos, negsuc}
use ffos.Ffbase.{Str}
use ffos.Filemon.Bytes.{word}

-- ffbase's functions: the size of a text in UTF-8 and the text, more memory for it, ffstr_shift, and the
-- comparison with a zero-terminated text
pub record NotifyLib : Type 0 where
  pub wtou_size : Str → ℤ
  pub wtou : Str → Str
  pub has_memory : ℕ → Bool
  pub shift : Str → ℕ → Str
  pub eqz : Str → Str → Bool
  pub shift-drop : (s : Str) (n : ℕ) → n ≤ length s → shift s n ≡ drop n s

-- `struct _fffilemon_watch`
pub record Watch : Type 0 where
  pub handle : ℕ
  pub events : ℕ
  pub dir : Bool
  pub namez : Str

-- What `_fffilemon_next1` answers: -1, -2, or the action, with the name and the input that is left
pub data Read : Type 0 where
  ended malformed : Read
  found : ℕ → Str → Str → Read

-- What `fffilemon_next` answers: a watch and its event, or -1 or -2
pub data NextWin : Type 0 where
  at_watch : ℕ → ℕ → Str → Str → NextWin
  no_more failed : NextWin
  -- an action that is a negative `int`
  negative : ℕ → NextWin

module _ (lib : NotifyLib) where
  open lib use {wtou_size, wtou, has_memory, shift, eqz}

  abbrev pub sized : Str → ℤ → Option Str
  sized w (pos zero) = none
  sized w (pos (suc n)) = if has_memory (suc n) then some (wtou w) else none
  sized w (negsuc n) = none

  -- `name`, by FileNameLength and FileName
  abbrev pub name_at : ℕ → Str → Option Str
  name_at zero w = some []
  name_at (suc n) w = sized w (wtou_size w)

  -- The input behind the record, by NextEntryOffset
  abbrev pub behind : ℕ → Str → Str
  behind zero s = []
  behind (suc n) s = shift s (suc n)

  abbrev pub named : ℕ → ℕ → Str → Option Str → Read
  named off action s none = malformed
  named off action s (some name) = found action name (behind off s)

  abbrev pub with_info : ℕ → ℕ → ℕ → Str → Read
  with_info off action n s =
      if ltb (length s) (16 + n)
      then malformed
      else named off action s (name_at n (take n (drop 12 s)))

  -- `_fffilemon_next1`
  unfoldable pub next1 : Str → Read
  next1 s =
      if length s == 0
      then ended
      else (if ltb (length s) 16
          then malformed
          else with_info (word s) (word (drop 4 s)) (word (drop 8 s)) s)

  -- FFSLICE_WALK: the first watch of a directory or of a file with this name, counted from an index
  abbrev pub find_watch : Str → ℕ → List Watch → Option ℕ
  find_watch name i [] = none
  find_watch name i (w ∷ wl) =
      if w.dir || eqz name w.namez then some i else find_watch name (suc i) wl

  abbrev pub chosen : (Str → Option NextWin) → ℕ → Str → Str → Option ℕ → Option NextWin
  chosen loop action name rest none = loop rest
  chosen loop action name rest (some i) = some (at_watch i action name rest)

  abbrev pub round : List Watch → (Str → Option NextWin) → Read → Option NextWin
  round wl loop ended = some no_more
  round wl loop malformed = some failed
  round wl loop (found action name rest) =
      if ltb action 0x80000000
      then chosen loop action name rest (find_watch name 0 wl)
      else some (negative action)

  -- `fffilemon_next`, on fuel
  unfoldable pub next_win : ℕ → List Watch → Str → Option NextWin
  next_win zero wl s = none
  next_win (suc fuel) wl s = round wl (next_win fuel wl) (next1 s)
