-- ===== src/Std/Transfer.antt =====
-- FFOS/std.h on Windows: ffstdin_read and _ffstd_write, which convert the text of a console between
-- UTF-8 and UTF-16. The handle, the memory and the conversions of ffbase are the parameter `TextSys`.
use ffos.Base.{
  ℕ, ◌-◌, ◌*◌, ◌/◌, ◌≡◌, ◌≤◌, refl, Bool, true, false, Option, none, some, List, length, min, ltb,
  if◌then◌else◌, arith,
}
use ffos.Base.Int.{u32}
use ffos.Ffbase.{Str}

pub record TextSys (E : Type 0) : Type 0 where
  -- GetConsoleMode: whether the handle is a console
  pub is_console : E → Bool
  -- ffmem_alloc: whether there is memory
  pub alloc : ℕ → E → Bool × E
  -- ReadConsoleW: at most so many units of UTF-16
  pub read_console : ℕ → E → Option (List ℕ) × E
  pub read_file : ℕ → E → Option Str × E
  -- ffs_wtou into a buffer of so many bytes
  pub to_utf8 : ℕ → List ℕ → Option Str
  -- ffs_alloc_buf_utow: nothing if there is no memory
  pub to_utf16 : ℕ → Str → Option (List ℕ)
  -- WriteConsoleW of a text, or of a null pointer and a length
  pub write_console : Option (List ℕ) → ℕ → E → Bool × E
  pub write_file : Str → E → Option ℕ × E

module _ {E : Type 0} (sys : TextSys E) where
  open sys use {
    is_console, alloc, read_console, read_file, to_utf8, to_utf16, write_console, write_file,
  }

  -- FF_COUNT(ws)
  abbrev stack_units : ℕ
  stack_units = 1024

  abbrev converted : ℕ → Option (List ℕ) × E → Option Str × E
  converted size (none, e) = (none, e)
  converted size (some w, e) = (to_utf8 size w, e)

  abbrev read_units : ℕ → Bool × E → Option Str × E
  read_units size (false, e) = (none, e)
  read_units size (true, e) = converted size (read_console (min (size / 4) (u32 - 1)) e)

  -- The buffer of the units: on the stack, or allocated
  abbrev unit_buffer : ℕ → E → Bool × E
  unit_buffer size e = if ltb stack_units (size / 4) then alloc (size / 2) e else (true, e)

  -- `ffstdin_read`; nothing is -1.
  unfoldable pub stdin_read : ℕ → E → Option Str × E
  stdin_read size e =
      if is_console e
      then read_units size (unit_buffer size e)
      else read_file (min size (u32 - 1)) e

  abbrev answer : ℕ → Bool × E → Option ℕ × E
  answer n (true, e) = (some n, e)
  answer n (false, e) = (none, e)

  -- The number of units is the capacity of the buffer if the conversion has failed.
  abbrev unit_count : Option (List ℕ) → ℕ
  unit_count none = stack_units
  unit_count (some w) = length w

  -- `_ffstd_write`
  unfoldable pub std_write : Str → E → Option ℕ × E
  std_write s e =
      let w = to_utf16 stack_units s in
      if is_console e then answer (length s) (write_console w (unit_count w) e) else write_file s e

  -- If ReadConsoleW gives no more units than it is asked for, and the conversion to UTF-8 succeeds when
  -- there is room for three bytes of each unit, then a read of a console into a small buffer fails
  -- only if ReadConsoleW fails: the number of units asked for is small enough for the buffer, and the
  -- text read is never lost.
  pub stdin_read-console :
      (size : ℕ) (w : List ℕ) (e e' : E)
      (bounded : (n : ℕ) (e : E) (w : List ℕ) (e' : E)
        → read_console n e ≡ (some w, e')
        → length w ≤ n)
      (fits : (n : ℕ) (w : List ℕ) → 3 * length w ≤ n → (s : Str) × (to_utf8 n w ≡ some s))
      → is_console e ≡ true
      → size / 4 ≤ stack_units
      → read_console (size / 4) e ≡ (some w, e')
      → (s : Str) × (stdin_read size e ≡ (some s, e'))
  unfolding stdin_read
  stdin_read-console size w e e' bounded fits console small got =
      let in_stack : ltb stack_units (size / 4) ≡ false = ground arith in
      let asked : min (size / 4) (u32 - 1) ≡ size / 4 = omega arith in
      let few = bounded (size / 4) e w e' got in
      let (s, y) = fits size w (omega (arith, few)) in (s, goes s y in_stack asked)
    where
      goes :
          (s : Str)
          → to_utf8 size w ≡ some s
          → ltb stack_units (size / 4) ≡ false
          → min (size / 4) (u32 - 1) ≡ size / 4
          → stdin_read size e ≡ (some s, e')
      goes s y in_stack asked = rw (console, unit_buffer, in_stack, asked, got, y) refl

  -- If the conversion for a console fails, the console is nevertheless called, with a null pointer in
  -- place of the text and 1024 units; the answer is its answer.
  pub std_write_failed :
      (s : Str) (e : E)
      → is_console e ≡ true
      → to_utf16 stack_units s ≡ none
      → std_write s e ≡ answer (length s) (write_console none stack_units e)
  unfolding std_write
  std_write_failed s e console lost = rw (console, lost) refl
