-- ===== src/Filemon/Changes.antt =====
-- What the `fffilemon_next` of FFOS/filemon.h on Windows reads of the records of the system.
use ffos.Base.{ℕ, ◌+◌, ◌≡◌, ◌≤◌, ◌<◌, none, some, List, [], ◌∷◌, ◌++◌, length, replicate}
use ffos.Base.Int.{u32}
use ffos.Ffbase.{Str}
use ffos.Filemon.Bytes.{bytes_of}
use ffos.Filemon.Notify.{NotifyLib, Watch, NextWin, at_watch, no_more, name_at, find_watch}

-- A record of the system: its action, the bytes of the name, the name in UTF-8, and how many bytes there are
-- between the name and the next record, which the system aligns to a multiple of 4
pub record Change : Type 0 where
  pub action : ℕ
  pub units : Str
  pub name : Str
  pub extra : ℕ

abbrev pub size_of : Change → ℕ
size_of c = 12 + length c.units + c.extra

abbrev pub record_of : ℕ → Change → Str
record_of off c =
    bytes_of off
    ++ (bytes_of c.action ++ (bytes_of (length c.units) ++ (c.units ++ replicate c.extra 0)))

-- The last record has no offset.
abbrev pub offset_of : Change → List Change → ℕ
offset_of c [] = 0
offset_of c (d ∷ l) = size_of c

-- The buffer from a record on: behind the last one there is what the buffer held before.
abbrev pub written : Str → List Change → Str
written unused [] = unused
written unused (c ∷ l) = record_of (offset_of c l) c ++ written unused l

-- The input: it is over behind the last record.
abbrev pub encoded : Str → List Change → Str
encoded unused [] = []
encoded unused (c ∷ l) = written unused (c ∷ l)

-- The structure of a record has 4 bytes more than its header and its name.
module _ (lib : NotifyLib) (unused : Str) (room : 4 ≤ length unused) where
  abbrev pub IsReadable : Change → Type 0
  IsReadable c =
      (c.action < 0x80000000)
      × (size_of c < u32)
      × (name_at lib (length c.units) c.units ≡ some c.name)

  -- The first change that a watch waits for, with the records behind it
  abbrev pub first_watched : List Watch → List Change → NextWin
  first_watched wl [] = no_more
  first_watched wl (c ∷ l) = elim (find_watch lib c.name 0 wl) [
    | none ↦ first_watched wl l
    | some i ↦ at_watch i c.action c.name (encoded unused l)
  ]
