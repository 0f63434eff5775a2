-- ===== src/Winreg/Value.antt =====
-- `ffwinreg_read` and `ffwinreg_write` of FFOS/winreg.h. The registry is the parameter `RegSys`, with the
-- conversions of ffbase. A buffer is known by its size; the code's conversion of `char *` to
-- `wchar_t *` is `units_of`.
use ffos.Base.{
  ℕ, zero, suc, ◌+◌, ◌*◌, ◌/◌, ◌%◌, Bool, true, false, ◌||◌, Option, none, some, List, [], ◌∷◌,
  ◌++◌, length, ltb, ◌==◌, if◌then◌else◌,
}
use ffos.Ffbase.{Str}

-- REG_SZ, REG_EXPAND_SZ, REG_DWORD
abbrev pub reg_sz : ℕ
reg_sz = 1

abbrev pub reg_expand_sz : ℕ
reg_expand_sz = 2

-- `ffwinreg_isstr`
abbrev pub is_str : ℕ → Bool
is_str ty = (ty == reg_sz) || (ty == reg_expand_sz)

-- The bytes of units of UTF-16, and back
abbrev pub units_of : Str → List ℕ
units_of [] = []
units_of (a ∷ []) = []
units_of (a ∷ b ∷ s) = (a + 256 * b) ∷ units_of s

abbrev pub bytes_of : List ℕ → Str
bytes_of [] = []
bytes_of (u ∷ w) = (u % 256) ∷ (u / 256) ∷ bytes_of w

-- What RegQueryValueExW answers: the value, its size if the buffer is too small, or an error.
pub data Query : Type 0 where
  got : ℕ → Str → Query
  more : ℕ → ℕ → Query
  query_failed : Query

-- What `ffwinreg_read` answers, and what the caller then finds in `val`.
pub data Read : Type 0 where
  -- 1, with the type and the data
  value : ℕ → Str → Read
  -- 1, with the type and the size, but the data is not in the caller's buffer
  misplaced : ℕ → ℕ → Read
  -- 0, with the type and the size needed
  need : ℕ → ℕ → Read
  -- 0, with a type that was never set
  no_name : Read
  -- -1
  failed : Read

pub record RegSys (E : Type 0) : Type 0 where
  pub query : Str → ℕ → E → Query
  -- RegSetValueExW: whether it succeeds
  pub set_value : Str → ℕ → Str → E → Bool × E
  -- ffmem_alloc: whether there is memory for so many bytes
  pub has_memory : ℕ → Bool
  -- ffs_utow, ffsz_alloc_buf_utow of a name
  pub wide_name : Str → Option Str
  -- ffs_wtou: the number of bytes, and the conversion into a buffer of so many bytes
  pub measure : List ℕ → ℕ
  pub to_utf8 : ℕ → List ℕ → Option Str
  -- ffs_alloc_buf_utow, without a terminating zero
  pub to_utf16 : Str → Option (List ℕ)

module _ {E : Type 0} (sys : RegSys E) where
  open sys use {query, set_value, has_memory, wide_name, measure, to_utf8, to_utf16}

  -- `if (n != 0 && valptr[n - 1] == '\\0') n--;`
  abbrev pub without_zero : List ℕ → List ℕ
  without_zero [] = []
  without_zero (u ∷ []) = if u == 0 then [] else u ∷ []
  without_zero (u ∷ v ∷ w) = u ∷ without_zero (v ∷ w)

  abbrev pub text_in : ℕ → ℕ → Option Str → Read
  text_in ty size none = need ty (size / 2 * 4)
  text_in ty size (some s) = value ty s

  -- The text was read: into an own buffer of the right size, or into the caller's of `n` bytes. If the
  -- units are in the caller's buffer, they are copied first.
  abbrev pub got_text : Bool → Option ℕ → ℕ → Str → Read
  got_text temp none ty data_read =
      let w = without_zero (units_of data_read) in
      if has_memory (measure w)
      then text_in ty (length data_read) (to_utf8 (measure w) w)
      else failed
  got_text temp (some n) ty data_read =
      let w = without_zero (units_of data_read) in
      if temp || has_memory (length data_read)
      then text_in ty (length data_read) (to_utf8 n w)
      else failed

  -- Data that is no text was read.
  abbrev pub got_data : Bool → Option ℕ → ℕ → Str → Read
  got_data temp none ty data_read =
      if temp || has_memory (length data_read) then value ty data_read else failed
  got_data true (some n) ty data_read = misplaced ty (length data_read)
  got_data false (some n) ty data_read = value ty data_read

  abbrev pub is_some : Option ℕ → Bool
  is_some none = false
  is_some (some n) = true

  -- A round of the loop: `temp` is whether there is a temporary buffer, `user` the size of the
  -- caller's, and `again` what another round with a buffer of the given size gives.
  abbrev pub round : Bool → Option ℕ → (ℕ → Option Read) → Query → Option Read
  round temp user again query_failed = some failed
  round temp user again (got ty data_read) =
      some (if is_str ty then got_text temp user ty data_read else got_data temp user ty data_read)
  round temp user again (more ty size) =
      if is_str ty
      then (if temp
          then some (need ty (size / 2 * 4))
          else if has_memory size
          then again size
          else some failed)
      else if is_some user || temp
      then some (need ty size)
      else if has_memory size
      then again size
      else some failed

  -- The loop; nothing if the model's fuel is used up.
  unfoldable pub read_loop : ℕ → Str → Bool → Option ℕ → ℕ → E → Option Read
  read_loop zero name temp user size e = none
  read_loop (suc fuel) name temp user size e =
      round temp user (λ n. read_loop fuel name true user n e) (query name size e)

  -- The size of the first buffer: the caller's, or the one on the stack
  abbrev pub first_size : Option ℕ → ℕ
  first_size none = 256
  first_size (some n) = n

  abbrev pub read_named : ℕ → Option ℕ → E → Option Str → Option Read
  read_named fuel user e none = some no_name
  read_named fuel user e (some name) = read_loop fuel name false user (first_size user) e

  -- `ffwinreg_read`
  unfoldable pub read : ℕ → Str → Option ℕ → E → Option Read
  read fuel name user e = read_named fuel user e (wide_name name)

  -- What `ffwinreg_write` does: it stores the data or fails, or it writes behind a buffer.
  pub data Written : Type 0 where
    stored refused : Written
    outside : Written

  abbrev pub told : Bool × E → Written × E
  told (true, e) = (stored, e)
  told (false, e) = (refused, e)

  -- `wval[n++] = '\\0'`: the buffer is the one on the stack with 256 units or one for the units only.
  abbrev pub write_text : Str → ℕ → Option (List ℕ) → E → Written × E
  write_text name ty none e = (refused, e)
  write_text name ty (some w) e =
      if ltb (length w) 256
      then told (set_value name ty (bytes_of (w ++ (0 ∷ []))) e)
      else (outside, e)

  abbrev pub write_named : ℕ → Str → E → Option Str → Written × E
  write_named ty data_given e none = (refused, e)
  write_named ty data_given e (some name) =
      if is_str ty
      then write_text name ty (to_utf16 data_given) e
      else told (set_value name ty data_given e)

  -- `ffwinreg_write`
  unfoldable pub write : Str → ℕ → Str → E → Written × E
  write name ty data_given e = write_named ty data_given e (wide_name name)

  -- `ffwinreg_writestr`
  unfoldable pub writestr : Str → Str → E → Written × E
  writestr name s e = write name reg_sz s e
