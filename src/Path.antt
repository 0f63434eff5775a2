-- ===== src/Path.antt =====
-- FFOS/path.h: path tests, splitting and normalisation. Strings are byte lists.
pub mod Split
mod Examples
pub mod Normalize
use ffos.Base.{
  zero, suc, ℕ, Bool, true, false, ◌||◌, ◌&&◌, Option, none, some, [], ◌∷◌, ltb, leb, ◌==◌,
  if◌then◌else◌, length, get_or,
}
use Prim.Native.Nat.{bit_or}
use ffos.Ffbase.{Str, StrLib}

abbrev pub slash : ℕ
slash = 0x2f

abbrev pub backslash : ℕ
backslash = 0x5c

abbrev pub dot : ℕ
dot = 0x2e

abbrev pub colon : ℕ
colon = 0x3a

-- The file-system rules of the two families of systems (`#ifdef FF_WIN`).
pub data Os : Type 0 where
  windows unix : Os

unfoldable pub slash_win : ℕ → Bool
slash_win c = (c == slash) || (c == backslash)

unfoldable pub slash_unix : ℕ → Bool
slash_unix c = c == slash

-- `path[i]` with `len` checked by the code before each read.
unfoldable pub abs_win : Str → Bool
abs_win path =
    let ch = bit_or (get_or path 0 0) 0x20 in
    if length path == 0
    then false
    else if (get_or path 0 0 == slash) || (get_or path 0 0 == backslash)
    then true
    else leb 2 (length path)
      && leb b'a' ch
      && leb ch b'z'
      && (get_or path 1 0 == colon)
      && ((length path == 2) || (get_or path 2 0 == slash) || (get_or path 2 0 == backslash))

unfoldable pub abs_unix : Str → Bool
abs_unix path = leb 1 (length path) && (get_or path 0 0 == slash)

-- What a split function stores through its two pointers, and the offset that it returns.
pub record Parts : Type 0 where
  pub first : Str
  pub second : Str
  pub at : Option ℕ

module _ (lib : StrLib) where
  open lib use {rfindany, rfindchar, split}

  abbrev split_at : Str → ℕ → Parts
  split_at fn i = let (a, b) = split fn i in record { first = a; second = b; at = some i }

  -- The two branches on `slash < 0`.
  abbrev pub found : Str → Option ℕ → Parts
  found fn none = record { first = []; second = fn; at = none }
  found fn (some i) = split_at fn i

  unfoldable pub splitpath_unix : Str → Parts
  splitpath_unix fn = found fn (rfindchar fn slash)

  unfoldable pub splitpath_win : Str → Parts
  splitpath_win fn = found fn (rfindany fn (slash ∷ backslash ∷ []))

  -- Only `ext->len` is cleared when there is no extension; the return value is 0 then.
  abbrev pub name_found : Str → Option ℕ → Parts
  name_found fn none = record { first = fn; second = []; at = some 0 }
  name_found fn (some zero) = record { first = fn; second = []; at = some 0 }
  name_found fn (some (suc i)) = split_at fn (suc i)

  unfoldable pub splitname : Str → Parts
  splitname fn = name_found fn (rfindchar fn dot)
