-- ===== src/Process/Filename.antt =====
-- `ffps_filename`, `_ffpath_real` and `ffps_curdir` of FFOS/process.h. The file system is the parameter
-- `NameSys`, the conversion from UTF-16 `to_utf8`.
use ffos.Base.{
  ℕ, ◌+◌, ◌*◌, ◌≡◌, ◌≤◌, ◌<◌, refl, Bool, true, false, Option, none, some, length, take, ltb, ◌==◌,
  if◌then◌else◌, length-take, arith,
}
use ffos.Ffbase.{Str}

pub data Name : Type 0 where
  named : Str → Name
  failed : Name
  -- a byte was written behind the end of the buffer
  outside : Name

pub record NameSys : Type 0 where
  -- readlink of /proc/self/exe into so many bytes
  pub readlink : ℕ → Option Str
  -- realpath
  pub realpath : Str → Option Str

module _ (sys : NameSys) where
  -- `_ffpath_real`
  unfoldable pub path_real : ℕ → Str → Name
  path_real size argv0 = elim (sys.realpath argv0) [
    | none ↦ failed
    | some real ↦ if ltb size (length real + 1) then failed else named real
  ]

  -- `name[n] = '\\0'`
  abbrev pub ended : ℕ → Str → Name
  ended size s = if ltb (length s) size then named s else outside

  abbrev pub linked : ℕ → Str → Option Str → Name
  linked size argv0 (some s) = ended size s
  linked size argv0 none = path_real size argv0

  -- `ffps_filename` on Linux, with a buffer of so many bytes
  unfoldable pub filename_linux : ℕ → Str → Name
  filename_linux size argv0 = linked size argv0 (sys.readlink size)

  -- readlink cuts the name of the link off at the size of the buffer. With that, ffps_filename returns
  -- the name if it is shorter than the buffer, and otherwise writes its terminating zero behind
  -- the end of the buffer.
  pub filename_linux-outside :
      (size : ℕ) (argv0 s : Str)
      → ((n : ℕ) → sys.readlink n ≡ some (take n s))
      → (length s < size → filename_linux size argv0 ≡ named (take size s))
        × (size ≤ length s → filename_linux size argv0 ≡ outside)
  unfolding filename_linux
  filename_linux-outside size argv0 s cut =
      let n = length-take size s in
      (
        λ fits.
            let t : ltb (length (take size s)) size ≡ true = ground (arith, n, fits) in
            rw (cut size) (rw t refl),
        λ long.
            let t : ltb (length (take size s)) size ≡ false = ground (arith, n, long) in
            rw (cut size) (rw t refl),
      )

pub record WinNameSys (E : Type 0) : Type 0 where
  -- GetModuleFileNameW: the number of units, which is the size if the name is cut off, and the units
  pub module_name : ℕ → E → ℕ × Str
  -- GetCurrentDirectoryW: the number of units, or the size that is needed
  pub current_directory : ℕ → E → ℕ × Str
  -- ffmem_alloc: whether there is memory
  pub alloc : ℕ → E → Bool × E
  pub free : E → E
  -- ffsz_wtou into so many bytes
  pub to_utf8 : ℕ → Str → Option Str

module _ {E : Type 0} (sys : WinNameSys E) where
  open sys use {module_name, current_directory, alloc, free, to_utf8}

  abbrev pub converted : ℕ → ℕ × Str → Option Str
  converted size (n, w) = if n == 0 then none else to_utf8 size w

  abbrev pub large_name : ℕ → Bool × E → Option Str × E
  large_name size (false, e) = (none, e)
  large_name size (true, e) = (converted size (module_name 4096 e), free e)

  abbrev pub name_from : ℕ → ℕ × Str → E → Option Str × E
  name_from size (n, w) e =
      if n == 0
      then (none, e)
      else if n == 256
      then large_name size (alloc (4096 * 4) e)
      else (to_utf8 size w, e)

  -- `ffps_filename` on Windows
  unfoldable pub filename_win : ℕ → E → Option Str × E
  filename_win size e = name_from size (module_name 256 e) e

  abbrev pub large_directory : ℕ → ℕ → Bool × E → Option Str × E
  large_directory size n (false, e) = (none, e)
  large_directory size n (true, e) = (converted size (current_directory n e), free e)

  abbrev pub directory_from : ℕ → ℕ × Str → E → Option Str × E
  directory_from size (n, w) e =
      if n == 0
      then (none, e)
      else if ltb 256 n
      then large_directory size n (alloc (n * 4) e)
      else (to_utf8 size w, e)

  -- `ffps_curdir` on Windows
  unfoldable pub curdir_win : ℕ → E → Option Str × E
  curdir_win size e = directory_from size (current_directory 256 e) e
