-- ===== src/Dir.antt =====
-- FFOS/dir.h: the creation of the directories on a path, and the full name of a directory's entry.
-- Paths are lists of characters; mkdir or CreateDirectoryW is the parameter `DirSys`.
pub mod Make
pub mod Examples
use ffos.Base.{
  ℕ, zero, suc, ◌+◌, ◌≡◌, ◌≤◌, Bool, true, false, ◌&&◌, ◌||◌, not, Option, none, some, List, [],
  ◌∷◌, ◌++◌, length, take, drop, get_or, ◌==◌, leb, if◌then◌else◌,
}
use ffos.Ffbase.{Str, StrLib, single}
use ffos.Path.{slash, slash_unix, slash_win, colon}

pub record DirSys (E : Type 0) : Type 1 where
  pub last_error : E → ℕ
  pub set_error : ℕ → E → E
  -- whether the directory has been created
  pub mkdir : Str → E → Bool × E
  -- the error code for a path that is there: EEXIST or ERROR_ALREADY_EXISTS
  pub direxists : ℕ
  -- something is at a path: a directory, or a file
  pub Exists : Str → E → Type 0
  pub mkdir-Exists : (p : Str) (e : E) → (mkdir p e).0 ≡ true → Exists p (mkdir p e).1
  pub mkdir_there :
      (p : Str) (e : E)
      → (mkdir p e).0 ≡ false
      → last_error (mkdir p e).1 ≡ direxists
      → Exists p (mkdir p e).1
  pub mkdir_existing :
      (p : Str) (e : E)
      → Exists p e
      → ((mkdir p e).0 ≡ false) × (last_error (mkdir p e).1 ≡ direxists)
  pub mkdir_keeps : (p q : Str) (e : E) → Exists q e → Exists q (mkdir p e).1

module _ {E : Type 0} (sys : DirSys E) where
  open sys use {last_error, set_error, mkdir, direxists}

  -- One directory: whether the path may go on, and whether the call itself has succeeded.
  abbrev pub make_one : Str → E → Bool × (Bool × E)
  make_one p e = let (ok, e') = mkdir p e in (ok || (last_error e' == direxists), (ok, e'))

  -- The loop of `ffdir_make_all`: `pre` is the path up to `off`.
  unfoldable pub make_loop : (ℕ → Bool) → Str → Str → E → Bool × (Bool × E)
  make_loop sep pre [] e = make_one pre e
  make_loop sep pre (c ∷ rest) e =
      let one = make_one pre e in
      let next = make_loop sep (pre ++ (c ∷ [])) rest (if sep c then one.1.1 else e) in
      if sep c && not one.0 then one else next

  -- No directory is made of a leading slash.
  abbrev pub skip_slash : (ℕ → Bool) → Str → ℕ → ℕ
  skip_slash sep path off = if sep (get_or path off 0) then off + 1 else off

  -- `ffdir_make_all` on UNIX: whether it returns 0.
  unfoldable pub make_all : Str → ℕ → E → Bool × E
  unfolding slash_unix
  make_all path off e =
      let o = skip_slash slash_unix path off in
      let r = make_loop slash_unix (take o path) (drop o path) e in (r.0, r.1.1)

  abbrev pub is_letter : ℕ → Bool
  is_letter c = (leb 97 c && leb c 122) || (leb 65 c && leb c 90)

  -- ... nor of "c:"
  abbrev pub skip_drive : Str → ℕ → ℕ
  skip_drive path off =
      if (off == 0) && is_letter (get_or path 0 0) && (get_or path 1 0 == colon) then 2 else off

  -- What follows the conversion of the path
  abbrev pub make_wide : ℕ → E → Option Str → Bool × E
  make_wide off e none = (false, e)
  make_wide off e (some w) =
      let o = skip_slash slash_win w (skip_drive w off) in
      let r = make_loop slash_win (take o w) (drop o w) e in (r.0 && r.1.0, r.1.1)

  -- `ffdir_make_all` on Windows, over ffsz_alloc_buf_utow: it returns what the last call has returned.
  unfoldable pub make_all_win : (Str → Option Str) → Str → ℕ → E → Bool × E
  make_all_win to_wide path off e = make_wide off e (to_wide path)

  -- `ffdir_make_path` on UNIX: the directory of a file's name.
  unfoldable pub make_path : StrLib → Str → ℕ → E → Bool × E
  unfolding make_all
  make_path lib name off e = elim (lib.rfindchar name slash) [
    | none ↦ (true, e)
    | some zero ↦ (true, e)
    | some (suc i) ↦ make_all (take (suc i) name) off e
  ]

-- `_ffdir_entry_fullpath`, into a buffer of `size` bytes: the text without its terminating zero.
-- `none` with the error EOVERFLOW
unfoldable pub entry_fullpath : Str → ℕ → Str → Option Str
entry_fullpath path size name =
    if leb size (length path + length name + 1) then none else some (path ++ (slash ∷ name))
