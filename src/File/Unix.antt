-- ===== src/File/Unix.antt =====
-- `fffile_open`, `fffile_createtemp` and `fffile_readahead` of FFOS/file.h on Linux. The system calls are
-- the parameter `LinuxSys`; O_LARGEFILE is the machine's.
use Prim.Native.Nat.{bit_or}
use ffos.Base.{
  ℕ, zero, suc, ◌^◌, ◌≡◌, ap, ◌∙◌, Bool, true, false, ◌&&◌, Option, none, some, ◌==◌, if◌then◌else◌,
  arith,
}
use ffos.Base.Int.{ℤ, pos, negsuc}
use ffos.Ffbase.{Str}
use ffos.Std.{has_bit, without_bit}

abbrev pub eperm : ℕ
eperm = 1

-- O_NOATIME; O_CREAT | O_EXCL
abbrev pub o_noatime : ℕ
o_noatime = 2 ^ 18

abbrev pub o_create_new : ℕ
o_create_new = 0xc0

-- POSIX_FADV_NORMAL, POSIX_FADV_SEQUENTIAL
abbrev pub fadv_normal : ℕ
fadv_normal = 0

abbrev pub fadv_sequential : ℕ
fadv_sequential = 2

pub record LinuxSys (E : Type 0) : Type 0 where
  -- open: the descriptor
  pub open_path : Str → ℕ → E → Option ℕ × E
  pub last_error : E → ℕ
  pub set_error : ℕ → E → E
  pub unlink : Str → E → E
  -- posix_fadvise: zero or an error
  pub fadvise : ℕ → ℤ → ℕ → E → ℕ × E
  pub o_largefile : ℕ

module _ {E : Type 0} (sys : LinuxSys E) where
  open sys use {open_path, last_error, set_error, unlink, fadvise, o_largefile}

  abbrev pub retried : Str → ℕ → Option ℕ × E → Option ℕ × E
  retried name flags (some fd, e) = (some fd, e)
  retried name flags (none, e) =
      if (last_error e == eperm) && has_bit flags o_noatime
      then open_path name (without_bit flags o_noatime) e
      else (none, e)

  -- `fffile_open`
  unfoldable pub open_linux : Str → ℕ → E → Option ℕ × E
  open_linux name flags e =
      let all = bit_or flags o_largefile in retried name all (open_path name all e)

  abbrev pub unlinked : Str → Option ℕ × E → Option ℕ × E
  unlinked name (none, e) = (none, e)
  unlinked name (some fd, e) = (some fd, unlink name e)

  -- `fffile_createtemp`
  unfoldable pub createtemp_linux : Str → ℕ → E → Option ℕ × E
  createtemp_linux name flags e = unlinked name (open_linux name (bit_or o_create_new flags) e)

  abbrev pub advised : ℕ × E → Bool × E
  advised (r, e) = if r == 0 then (true, e) else (false, set_error r e)

  -- `fffile_readahead`: whether it succeeds; -1 turns the reading ahead off.
  unfoldable pub readahead : ℕ → ℤ → E → Bool × E
  readahead fd (negsuc zero) e = advised (fadvise fd (pos 0) fadv_normal e)
  readahead fd (negsuc (suc n)) e = advised (fadvise fd (negsuc (suc n)) fadv_sequential e)
  readahead fd (pos n) e = advised (fadvise fd (pos n) fadv_sequential e)

  -- If a file may be opened without O_NOATIME but, not being the caller's, is refused with EPERM with it,
  -- then fffile_open opens it nevertheless.
  pub open_linux-noatime :
      (name : Str) (flags fd : ℕ) (e e1 e2 : E)
      → let all = bit_or flags o_largefile in
        has_bit all o_noatime ≡ true
        → open_path name all e ≡ (none, e1)
        → last_error e1 ≡ eperm
        → open_path name (without_bit all o_noatime) e1 ≡ (some fd, e2)
        → open_linux name flags e ≡ (some fd, e2)
  unfolding open_linux
  open_linux-noatime name flags fd e e1 e2 has first code second =
      let all = bit_or flags o_largefile in
      let refused : (last_error e1 == eperm) ≡ true = ground (arith, code) in
      ap (retried name all) first
      ∙ ap (λ t. if t then open_path name (without_bit all o_noatime) e1 else (none, e1))
          (ap (λ b. b && has_bit all o_noatime) refused ∙ has)
      ∙ second
