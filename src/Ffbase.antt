-- ===== src/Ffbase.antt =====
-- The string functions of ffbase (a library that FFOS includes as <ffbase/string.h>) which
-- FFOS/path.h calls: a record of functions, and what their documentation says of each.
-- A string is the list of its bytes; the terminating zero is not in it.
mod Spec
pub mod Reference
unfoldable pub use Spec.*
use ffos.Base.{ℕ, ◌+◌, ◌≡◌, Bool, true, Option, ◌↔◌, take, drop}

pub record StrLib : Type 0 where
  -- ffs_rfindany, ffs_rfindchar: the offset of the last match, or -1
  pub rfindany : Str → Str → Option ℕ
  pub rfindchar : Str → ℕ → Option ℕ
  -- ffstr_splitbyany: the text before the first match, the text behind it, and its offset or -1
  pub splitbyany : Str → Str → Split
  -- ffstr_eqcz, ffstr_eqz: equality with a zero-terminated string
  pub eqz : Str → Str → Bool
  -- ffs_split: the text before an offset, and the text behind it; the byte there is in neither
  pub split : Str → ℕ → Str × Str
  pub rfindany_lem : (s set : Str) → rfindany s set ≡ last_in set s
  pub rfindchar_lem : (s : Str) (c : ℕ) → rfindchar s c ≡ last_in (single c) s
  pub splitbyany_lem : (s set : Str) → splitbyany s set ≡ split_first set s
  pub eqz_lem : (s t : Str) → (eqz s t ≡ true) ↔ (s ≡ t)
  pub split_lem : (s : Str) (i : ℕ) → split s i ≡ (take i s, drop (i + 1) s)
