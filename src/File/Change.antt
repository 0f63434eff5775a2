-- ===== src/File/Change.antt =====
-- `fffile_remove`, `fffile_rename` and `fffile_hardlink` of FFOS/file.h on Windows. The system calls are
-- parameters; `attributes` are those of the files that exist, `blocks` is the number of allocated
-- blocks of memory.
use ffos.Base.{
  ℕ, suc, ◌-◌, ◌≡◌, refl, ap, ◌∙◌, Bool, true, false, Option, none, some, ◌==◌, if◌then◌else◌,
  Bool-cases, inl, inr, arith,
}
use ffos.Ffbase.{Str}
use ffos.Std.{has_bit, without_bit}

abbrev pub error_access_denied : ℕ
error_access_denied = 5

-- FFFILE_WIN_READONLY
abbrev pub win_readonly : ℕ
win_readonly = 1

pub record RemoveSys (E : Type 0) : Type 0 where
  pub wide_name : Str → Option Str
  -- DeleteFileW, GetFileAttributesW, SetFileAttributesW
  pub delete : Str → E → Bool × E
  pub get_attributes : Str → E → Option ℕ
  pub set_attributes : Str → ℕ → E → Bool × E
  pub last_error : E → ℕ

module _ {E : Type 0} (sys : RemoveSys E) where
  open sys use {wide_name, delete, get_attributes, set_attributes, last_error}

  abbrev pub delete_again : Str → Bool × E → Bool × E
  delete_again w (false, e) = (false, e)
  delete_again w (true, e) = delete w e

  -- The file is deleted again without the read-only attribute, if it has it.
  abbrev pub writable : Str → Option ℕ → E → Bool × E
  writable w none e = (false, e)
  writable w (some a) e =
      if has_bit a win_readonly
      then delete_again w (set_attributes w (without_bit a win_readonly) e)
      else (false, e)

  abbrev pub deleted : Str → Bool × E → Bool × E
  deleted w (true, e) = (true, e)
  deleted w (false, e) =
      if last_error e == error_access_denied then writable w (get_attributes w e) e else (false, e)

  abbrev pub remove_wide : E → Option Str → Bool × E
  remove_wide e none = (false, e)
  remove_wide e (some w) = deleted w (delete w e)

  -- `fffile_remove`: whether it succeeds
  unfoldable pub remove : Str → E → Bool × E
  remove name e = remove_wide e (wide_name name)

  -- What the calls are documented to do to a file: a read-only file is not deleted but refused with
  -- ERROR_ACCESS_DENIED, another one is deleted.
  pub record Deletes (attributes : E → Str → Option ℕ) (w : Str) : Type 0 where
    pub get_is : (e : E) → get_attributes w e ≡ attributes e w
    pub delete_readonly :
        (a : ℕ) (e : E)
        → attributes e w ≡ some a
        → has_bit a win_readonly ≡ true
        → ((delete w e).0 ≡ false)
          × (last_error (delete w e).1 ≡ error_access_denied)
          × (attributes (delete w e).1 w ≡ some a)
    pub delete_plain :
        (a : ℕ) (e : E)
        → attributes e w ≡ some a
        → has_bit a win_readonly ≡ false
        → ((delete w e).0 ≡ true) × (attributes (delete w e).1 w ≡ none)
    pub set_is :
        (a : ℕ) (e : E)
        → ((set_attributes w a e).0 ≡ true) × (attributes (set_attributes w a e).1 w ≡ some a)

  deleted-true : (w : Str) (r : Bool × E) → r.0 ≡ true → deleted w r ≡ r
  deleted-true w (b, e) h = rw h refl

  deleted-denied :
      (w : Str) (r : Bool × E)
      → r.0 ≡ false
      → last_error r.1 ≡ error_access_denied
      → deleted w r ≡ writable w (get_attributes w r.1) r.1
  deleted-denied w (b, e) h d =
      let denied : (last_error e == error_access_denied) ≡ true = ground (arith, d) in
      rw (h, denied) refl

  delete_again-true : (w : Str) (r : Bool × E) → r.0 ≡ true → delete_again w r ≡ delete w r.1
  delete_again-true w (b, e) h = rw h refl

  -- A file that exists is removed by fffile_remove, also if it is read-only, and whatever its other
  -- attributes are.
  pub remove-Deletes :
      (attributes : E → Str → Option ℕ) (name w : Str) (a : ℕ) (e : E)
      → Deletes attributes w
      → wide_name name ≡ some w
      → attributes e w ≡ some a
      → ((remove name e).0 ≡ true) × (attributes (remove name e).1 w ≡ none)
  unfolding remove
  remove-Deletes attributes name w a e d named there = elim (Bool-cases (has_bit a win_readonly)) [
    | inl y ↦
        let (fails, denied, kept) = d.delete_readonly a e there y in
        let e1 = (delete w e).1 in
        let b = without_bit a win_readonly in
        let (set, now) = d.set_is b e1 in
        let e2 = (set_attributes w b e1).1 in
        let clear : has_bit b win_readonly ≡ false = ground arith in
        let (gone, nothing) = d.delete_plain b e2 now clear in
        let goes : deleted w (delete w e) ≡ delete w e2 =
          deleted-denied w (delete w e) fails denied
          ∙ ap (λ o. writable w o e1) (d.get_is e1 ∙ kept)
          ∙ ap (λ t. if t then delete_again w (set_attributes w b e1) else (false, e1)) y
          ∙ delete_again-true w (set_attributes w b e1) set in
        rw named (
          ap (λ (r : Bool × E). r.0) goes ∙ gone,
          ap (λ (r : Bool × E). attributes r.1 w) goes ∙ nothing,
        )
    | inr n ↦
        let (gone, nothing) = d.delete_plain a e there n in
        let goes = deleted-true w (delete w e) gone in
        rw named (
          ap (λ (r : Bool × E). r.0) goes ∙ gone,
          ap (λ (r : Bool × E). attributes r.1 w) goes ∙ nothing,
        )
  ]

-- A name in a buffer on the stack or in an allocated one (`true`)
abbrev pub WideName : Type 0
WideName = Str × Bool

pub record NamesSys (E : Type 0) : Type 0 where
  -- ffsz_alloc_buf_utow, ffmem_free
  pub alloc_name : Str → E → Option WideName × E
  pub free : E → E
  pub blocks : E → ℕ
  pub blocks-free : (e : E) → blocks (free e) ≡ blocks e - 1

module _ {E : Type 0} (sys : NamesSys E) (call : Str → Str → E → Bool × E) where
  open sys use {alloc_name, free, blocks}

  abbrev pub free_name : WideName → E → E
  free_name (w, true) e = free e
  free_name (w, false) e = e

  abbrev pub called : WideName → WideName → Bool × E → Bool × E
  called old new (ok, e) = (ok, free_name new (free_name old e))

  abbrev pub with_new : WideName → Option WideName × E → Bool × E
  with_new old (none, e) = (false, e)
  with_new old (some new, e) = called old new (call old.0 new.0 e)

  abbrev pub with_old : Str → Option WideName × E → Bool × E
  with_old newpath (none, e) = (false, e)
  with_old newpath (some old, e) = with_new old (alloc_name newpath e)

  -- What `fffile_rename` and `fffile_hardlink` have in common, around the call: whether it succeeds
  unfoldable pub two_names : Str → Str → E → Bool × E
  two_names oldpath newpath e = with_old newpath (alloc_name oldpath e)

  -- If the old name is in an allocated buffer and the conversion of the new name fails, the call fails
  -- and the buffer is not freed.
  pub two_names_lost :
      (oldpath newpath w : Str) (e e1 e2 : E)
      → alloc_name oldpath e ≡ (some (w, true), e1)
      → blocks e1 ≡ suc (blocks e)
      → alloc_name newpath e1 ≡ (none, e2)
      → blocks e2 ≡ blocks e1
      → ((two_names oldpath newpath e).0 ≡ false)
        × (blocks (two_names oldpath newpath e).1 ≡ suc (blocks e))
  unfolding two_names
  two_names_lost oldpath newpath w e e1 e2 first b1 second b2 = rw (first, second) (refl, b2 ∙ b1)

module _ {E : Type 0} (sys : NamesSys E) where
  -- `fffile_rename`, with MoveFileExW (from, to)
  unfoldable pub rename : (Str → Str → E → Bool × E) → Str → Str → E → Bool × E
  rename move_file oldpath newpath e = two_names sys move_file oldpath newpath e

  -- `fffile_hardlink`, with CreateHardLinkW (link, target)
  unfoldable pub hardlink : (Str → Str → E → Bool × E) → Str → Str → E → Bool × E
  hardlink create_link oldpath newpath e =
      two_names sys (λ old new. create_link new old) oldpath newpath e
