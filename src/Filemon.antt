-- ===== src/Filemon.antt =====
-- FFOS/filemon.h: reading the events of a file system monitor on Linux. The children have the monitor of
-- Windows and its asynchronous read.
pub mod Bytes
pub mod Encoded
pub mod Changes
pub mod Notify
pub mod Watch
pub mod Handles
pub mod Examples
use ffos.Base.{
  ℕ, zero, suc, ◌+◌, ◌-◌, ◌≡◌, ◌≢◌, ◌<◌, ◌≤◌, refl, sym, ap, ◌∙◌, Bool, true, false, Option, none,
  some, [], ◌∷◌, ◌++◌, length, take, drop, replicate, ltb, ◌==◌, if◌then◌else◌, arith, append_assoc,
  length-append, length-replicate,
}
use ffos.Base.Int.{ℤ, pos, negsuc}
use ffos.Ffbase.{Str}
use ffos.Filemon.Bytes.{word, bytes_of, word-bytes_of, as_int, take-append, drop-append}

-- `struct inotify_event` without the name
pub record InotifyEvent : Type 0 where
  pub wd : ℕ
  pub mask : ℕ
  pub cookie : ℕ
  pub len : ℕ

-- The result of a call: the number returned, the name and the mask if they are stored, and the input
-- that is left
pub record Next : Type 0 where
  pub result : ℤ
  pub stored : Option (Str × ℕ)
  pub input : Str

-- The header that stands at the start of at least 16 bytes
unfoldable pub header_of : Str → InotifyEvent
header_of s = record {
  wd = word s;
  mask = word (drop 4 s);
  cookie = word (drop 8 s);
  len = word (drop 12 s);
}

-- ffstr_rskipchar of ffbase
module _ (rskipchar : Str → ℕ → Str) where
  -- `name`, for the length in the header and the bytes behind it
  unfoldable pub name_of : ℕ → Str → Str
  name_of zero s = []
  name_of (suc n) s = rskipchar (take n s) 0

  abbrev pub with_header : InotifyEvent → Str → Next
  with_header ev s =
      if ltb (length s) 16
      then record { result = negsuc 0; stored = none; input = s }
      else (if ltb (length s) (16 + ev.len)
          then record { result = negsuc 0; stored = none; input = s }
          else record {
            result = as_int ev.wd;
            stored = some (name_of ev.len (drop 16 s), ev.mask);
            input = drop (16 + ev.len) s;
          })

  -- `fffilemon_next`
  unfoldable pub next_linux : Str → Next
  next_linux s = with_header (header_of s) s

-- An event of the system: the name ends with zeros if there is one.
pub record Sent : Type 0 where
  pub sent_wd : ℕ
  pub sent_mask : ℕ
  pub sent_cookie : ℕ
  pub sent_name : Str
  pub zeros : ℕ

abbrev pub padded : Str → ℕ → Str
padded [] n = []
padded (b ∷ s) n = (b ∷ s) ++ replicate (suc n) 0

abbrev pub encoded : Sent → Str
encoded ev =
    bytes_of ev.sent_wd
    ++ (bytes_of ev.sent_mask
        ++ (bytes_of ev.sent_cookie
            ++ (bytes_of (length (padded ev.sent_name ev.zeros)) ++ padded ev.sent_name ev.zeros)))
