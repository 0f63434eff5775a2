-- ===== src/Dirscan.antt =====
-- FFOS/dirscan.h on UNIX: the order of file names, and the scanner of a directory's names. The names
-- stand one behind the other in a buffer, each with a zero byte; their offsets are sorted.
pub mod Order
pub mod Examples
use ffos.Base.{
  ℕ, zero, suc, ◌+◌, ◌≡◌, Bool, true, false, ◌&&◌, ◌||◌, not, Option, none, some, List, [], ◌∷◌,
  ◌++◌, length, drop, get_or, ◌==◌, ltb, leb, if◌then◌else◌,
}
use ffos.Ffbase.{Str, str_eq, single}
use ffos.Path.{dot}

-- The sign of the result: -1, 0, 1.
pub data Sign : Type 0 where
  less same more : Sign

-- A-Z as a-z
abbrev pub fold_case : ℕ → ℕ
fold_case c = if leb 65 c && leb c 90 then c + 32 else c

-- Two bytes that differ: without regard to case first, then small letters before capitals.
abbrev pub cmp_bytes : ℕ → ℕ → Sign
cmp_bytes c d =
    if ltb (fold_case c) (fold_case d)
    then less
    else if ltb (fold_case d) (fold_case c)
    then more
    else if ltb c d
    then more
    else less

-- `_ffdirscan_filename_cmpz`; the texts end with a zero byte.
unfoldable pub filename_cmp : Str → Str → Sign
filename_cmp [] [] = same
filename_cmp [] (d ∷ b) = cmp_bytes 0 d
filename_cmp (c ∷ a) [] = cmp_bytes c 0
filename_cmp (c ∷ a) (d ∷ b) = let rest = filename_cmp a b in if c == d then rest else cmp_bytes c d

-- The text up to the next zero byte.
abbrev pub zero_ended : Str → Str
zero_ended [] = []
zero_ended (b ∷ s) = if b == 0 then [] else b ∷ zero_ended s

-- `ffdirscan` when it is open: the buffer, the offsets behind it, and how many have been read.
pub record Scan : Type 0 where
  pub buf : Str
  pub offsets : List ℕ
  pub cur : ℕ

pub record ScanFlags : Type 0 where
  pub nosort : Bool
  pub with_dot : Bool
  pub wildcard : Bool

-- "." and ".."
abbrev pub is_dots : Str → Bool
is_dots name = str_eq name (single dot) || str_eq name (dot ∷ dot ∷ [])

-- `matches` is ffs_wildcard with the pattern, `sort` is ffsort: the offsets in the order of the names
-- that they lead to.
module _ (matches : Str → Bool) (sort : (ℕ → ℕ → Sign) → List ℕ → List ℕ) where
  abbrev pub keeps : ScanFlags → Str → Bool
  keeps f name = (f.with_dot || not (is_dots name)) && (not f.wildcard || matches name)

  -- The loop of `ffdirscan_open` over the names that readdir gives.
  unfoldable pub scan_loop : ScanFlags → List Str → Scan → Scan
  scan_loop f [] d = d
  scan_loop f (name ∷ names) d = scan_loop f names (
      if keeps f name
      then record d {
        buf = d.buf ++ (name ++ (0 ∷ []));
        offsets = d.offsets ++ (length d.buf ∷ []);
      }
      else d)

  -- `_ffdirscan_cmpname` on UNIX
  abbrev pub cmp_name : Str → ℕ → ℕ → Sign
  cmp_name buf i j = filename_cmp (zero_ended (drop i buf)) (zero_ended (drop j buf))

  abbrev pub sorted : ScanFlags → Scan → Scan
  sorted f d = if f.nosort then d else record d { offsets = sort (cmp_name d.buf) d.offsets }

  -- `ffdirscan_open`, from what opendir and readdir give: nothing if one of them fails.
  unfoldable pub open_scan : ScanFlags → Option (List Str) → Option Scan
  unfolding scan_loop filename_cmp
  open_scan f none = none
  open_scan f (some names) =
      some (sorted f (scan_loop f names (record { buf = []; offsets = []; cur = 0 })))

-- `ffdirscan_next`
unfoldable pub next : Scan → Option Str × Scan
next d =
    if d.cur == length d.offsets
    then (none, d)
    else (some (zero_ended (drop (get_or d.offsets d.cur 0) d.buf)), record d { cur = d.cur + 1 })

-- `ffdirscan_reset`
unfoldable pub reset : Scan → Scan
reset d = record d { cur = 0 }
