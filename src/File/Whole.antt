-- ===== src/File/Whole.antt =====
-- `fffile_readwhole` and `fffile_writewhole` of FFOS/file.h over the functions for an open file, which are
-- the parameter `FileOps`; a negative result of these is a word: of 64 bits for a size, and as an `ffsize` for
-- a read or a write.
use Prim.Native.Nat.{bit_or}
use ffos.Base.{
  ℕ, ◌+◌, ◌%◌, Bool, true, false, not, ◌&&◌, Option, none, some, length, ltb, ◌==◌, if◌then◌else◌,
}
use ffos.Ffbase.{Str}

abbrev pub word64 : ℕ
word64 = 0x10000000000000000

-- The number of the values of an `ffsize`
abbrev pub sizes : Bool → ℕ
sizes wide = if wide then word64 else 0x100000000

-- A size as an `ffsize`
abbrev pub wrapped : Bool → ℕ → ℕ
wrapped wide n = if wide then n % word64 else n % 0x100000000

pub record FileOps (E : Type 0) : Type 0 where
  -- the system's flags of enum FFFILE_OPEN
  pub read_only : ℕ
  pub write_only : ℕ
  pub create_truncate : ℕ
  -- the machine has words of 64 bits
  pub wide : Bool
  pub open_file : Str → ℕ → E → Option ℕ × E
  pub size : ℕ → E → ℕ × E
  -- the result, and the bytes that are stored
  pub read : ℕ → ℕ → E → (ℕ × Str) × E
  pub write : ℕ → Str → E → ℕ × E
  pub close : ℕ → E → Bool × E
  pub remove : Str → E → E
  -- ffvec_reallocT of ffbase for so many bytes
  pub realloc : ℕ → E → Bool × E

module _ {E : Type 0} (sys : FileOps E) where
  open sys use {
    read_only, write_only, create_truncate, wide, open_file, size, read, write, close, remove,
    realloc,
  }

  abbrev pub finished : ℕ → Option (ℕ × Str) → E → Option (ℕ × Str) × E
  finished f r e = (r, (close f e).1)

  abbrev pub whole_read : ℕ → ℕ → (ℕ × Str) × E → Option (ℕ × Str) × E
  whole_read f sz ((n, s), e) = finished f (if sz == n then some (sz, s) else none) e

  abbrev pub with_room : ℕ → ℕ → Bool × E → Option (ℕ × Str) × E
  with_room f sz (false, e) = finished f none e
  with_room f sz (true, e) = whole_read f sz (read f sz e)

  abbrev pub sized : ℕ → ℕ → ℕ × E → Option (ℕ × Str) × E
  sized limit f (sz, e) =
      if ltb limit sz
      then finished f none e
      else (if not wide && ltb 0xffffffff sz
          then finished f none e
          else with_room f sz (realloc (wrapped wide (sz + 1)) e))

  abbrev pub opened_read : ℕ → Option ℕ × E → Option (ℕ × Str) × E
  opened_read limit (none, e) = (none, e)
  opened_read limit (some f, e) = sized limit f (size f e)

  -- `fffile_readwhole`: the length and the bytes of the buffer
  unfoldable pub readwhole : Str → ℕ → E → Option (ℕ × Str) × E
  readwhole fn limit e = opened_read limit (open_file fn read_only e)

  abbrev pub write_closed : Str → Bool → Bool × E → Bool × E
  write_closed fn ok (c, e) = if ok && c then (true, e) else (false, remove fn e)

  abbrev pub whole_written : Str → ℕ → ℕ → ℕ × E → Bool × E
  whole_written fn len f (n, e) = write_closed fn (len == n) (close f e)

  abbrev pub opened_write : Str → Str → Option ℕ × E → Bool × E
  opened_write fn d (none, e) = (false, e)
  opened_write fn d (some f, e) = whole_written fn (length d) f (write f d e)

  -- `fffile_writewhole`
  unfoldable pub writewhole : Str → Str → ℕ → E → Bool × E
  writewhole fn d flags e =
      let used = if flags == 0 then create_truncate else flags in
      opened_write fn d (open_file fn (bit_or used write_only) e)
