-- ===== src/File/Open.antt =====
-- `fffile_open` and `fffile_createtemp` of FFOS/file.h on Windows. The system calls are the parameter
-- `OpenSys`, with the contents of files (`content`) and what CreateFileW is documented to do.
use Prim.Native.Nat.{bit_or}
use ffos.Base.{
  ℕ, ◌*◌, ◌/◌, ◌%◌, ◌^◌, Bool, true, false, ◌&&◌, not, Option, none, some, [], ltb, ◌==◌,
  if◌then◌else◌,
}
use ffos.Ffbase.{Str}

-- CREATE_NEW, OPEN_EXISTING, OPEN_ALWAYS, TRUNCATE_EXISTING
abbrev pub create_new : ℕ
create_new = 1

abbrev pub open_existing : ℕ
open_existing = 3

abbrev pub open_always : ℕ
open_always = 4

abbrev pub truncate_existing : ℕ
truncate_existing = 5

-- FFFILE_CREATENEW: CREATE_NEW << 4
abbrev pub createnew_flag : ℕ
createnew_flag = 0x10

-- The bits of `enum FFFILE_OPEN`
abbrev pub creation_of : ℕ → ℕ
creation_of flags = flags / 16 % 16

abbrev pub truncates : ℕ → Bool
truncates flags = flags / 0x1000 % 2 == 1

abbrev pub no_dos_name : ℕ → Bool
no_dos_name flags = flags / 0x2000 % 2 == 1

abbrev pub appends : ℕ → Bool
appends flags = flags / 0x4000 % 2 == 1

-- `creation`: the value that is shifted already is compared with the flag that is not.
abbrev pub creation : ℕ → ℕ
creation flags =
    let c = creation_of flags in
    if truncates flags && not (c == createnew_flag)
    then truncate_existing
    else if c == 0
    then open_existing
    else c

abbrev or_if : Bool → ℕ → ℕ → ℕ
or_if b bits x = if b then bit_or x bits else x

-- FILE_GENERIC_READ, and FILE_GENERIC_WRITE without FILE_WRITE_DATA
abbrev pub access : ℕ → ℕ
access flags =
    if appends flags
    then or_if (flags / 0x400 % 2 == 1) 0x120114 (or_if (flags / 0x800 % 2 == 1) 0x120089 0)
    else (flags / 256 % 16) * 2 ^ 28

-- FILE_ATTRIBUTE_NORMAL, FILE_FLAG_BACKUP_SEMANTICS
abbrev pub attributes : ℕ → ℕ
attributes flags = bit_or (bit_or (bit_or 0x80 (flags % 16)) (flags / 2 ^ 16 * 2 ^ 16)) 0x02000000

abbrev pub error_file_not_found : ℕ
error_file_not_found = 2

abbrev pub error_file_exists : ℕ
error_file_exists = 80

abbrev pub error_invalid_name : ℕ
error_invalid_name = 123

-- What CreateFileW does with the content of a file, if access is granted
abbrev pub disposed : ℕ → Option Str → Option Str
disposed d none = if d == create_new then some [] else if d == open_always then some [] else none
disposed d (some s) = if d == truncate_existing then some [] else some s

-- Whether it succeeds
abbrev pub succeeds : ℕ → Option Str → Bool
succeeds d none = if d == create_new then true else if d == open_always then true else false
succeeds d (some s) = not (d == create_new)

pub record OpenSys (E : Type 0) : Type 0 where
  -- ffsz_alloc_buf_utow
  pub wide_name : Str → Option Str
  -- GetLongPathNameW: the number of units, zero on an error, and the long name
  pub long_name_size : Str → ℕ
  pub long_name : Str → ℕ → ℕ × Str
  -- _wcsicmp of the array `longname` (what is in it, if anything was written) and a name
  pub same_name : Option Str → Str → Bool
  pub last_error : E → ℕ
  pub set_error : ℕ → E → E
  -- CreateFileW with access, creation and attributes: the handle
  pub create_file : Str → ℕ → ℕ → ℕ → E → Option ℕ × E
  pub content : E → Str → Option Str

abbrev pub is_some : Option ℕ → Bool
is_some none = false
is_some (some n) = true

module _ {E : Type 0} (sys : OpenSys E) where
  open sys use {last_error, set_error, create_file, same_name, long_name, long_name_size}

  -- FFFILE_NODOSNAME: whether the check passes. A name of more than 256 units is in `wlong`, and
  -- `longname`, which is compared, was never written.
  abbrev pub compared : Str → ℕ → ℕ × Str → Bool × Bool
  compared w n (size, long) =
      if size == 0
      then (false, false)
      else (true, same_name (if ltb 256 n then none else some long) w)

  abbrev pub check_name : Str → Bool × Bool
  check_name w = let n = long_name_size w in compared w n (long_name w n)

  abbrev pub again : Str → ℕ → Option ℕ × E → Option ℕ × E
  again w flags (fd, e) =
      if not (is_some fd)
        && ((last_error e == error_file_not_found)
            && (truncates flags && (creation_of flags == open_always)))
      then create_file w (access flags) create_new (attributes flags) e
      else (fd, e)

  abbrev pub opened : Str → ℕ → E → Option ℕ × E
  opened w flags e =
      again w flags (create_file w (access flags) (creation flags) (attributes flags) e)

  abbrev pub checked : Bool × Bool → (E → Option ℕ × E) → E → Option ℕ × E
  checked (false, same) go e = (none, e)
  checked (true, false) go e = (none, set_error error_invalid_name e)
  checked (true, true) go e = go e

  abbrev pub open_wide : ℕ → E → Option Str → Option ℕ × E
  open_wide flags e none = (none, e)
  open_wide flags e (some w) =
      if no_dos_name flags then checked (check_name w) (opened w flags) e else opened w flags e

  -- `fffile_open`
  unfoldable pub open_file : Str → ℕ → E → Option ℕ × E
  open_file name flags e = open_wide flags e (sys.wide_name name)

  -- `fffile_createtemp`, with FFFILE_CREATENEW and FILE_FLAG_DELETE_ON_CLOSE
  unfoldable pub createtemp : Str → ℕ → E → Option ℕ × E
  createtemp name flags e = open_file name (bit_or (bit_or 0x10 0x04000000) (flags / 16 * 16)) e
