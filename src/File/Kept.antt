-- ===== src/File/Kept.antt =====
-- What fffile_readwhole of FFOS/file.h reads of what fffile_writewhole has written.

use ffos.Base.{
  ℕ, ◌+◌, ◌≡◌, ◌≤◌, ◌<◌, refl, ap, ap₂, ◌∙◌, Bool, true, false, not, ◌&&◌, Option, none, some,
  length, ltb, ◌==◌, if◌then◌else◌, arith,
}
use ffos.Ffbase.{Str}
use ffos.File.Whole.{
  FileOps, sizes, wrapped, finished, whole_read, with_room, sized, opened_read, readwhole,
  writewhole,
}
use ffos.File.Written.{Disk, writewhole-IsWritten}

if_wide {ℓ} :
    {A : Type ℓ} (w large : Bool) (x y : A) → large ≡ false → (if not w && large then x else y) ≡ y
if_wide true large x y h = refl
if_wide false true x y h = absurd (cc)
if_wide false false x y h = refl

narrow_sizes : (n : ℕ) (w : Bool) → n < 0xffffffff → n + 1 < sizes w
narrow_sizes n true h = omega arith
narrow_sizes n false h = omega arith

abbrev whole_if : Bool → ℕ → Str → Option (ℕ × Str)
whole_if b n s = if b then some (n, s) else none

the_same : (n : ℕ) (s : Str) → whole_if (n == n) n s ≡ some (n, s)
the_same n s = let b : (n == n) ≡ true = ground arith in ap (λ t. whole_if t n s) b

module _ {E : Type 0} (sys : FileOps E) {content : E → Str → Option Str}
    {start_of : E → ℕ → Option Str} (disk : Disk sys content start_of) where
  open sys use {open_file, size, read, write, close, realloc, wide}

  -- What a call may return for these contents, if it succeeds
  abbrev IsExact : Str → Option (ℕ × Str) × E → Type 0
  IsExact s r = (x : ℕ × Str) → r.0 ≡ some x → x ≡ (length s, s)

  -- Memory is granted and a read gives all bytes.
  module _ (memory : (n : ℕ) (e : E) → (realloc n e).0 ≡ true)
      (full : (fn s : Str) (f : ℕ) (e : E)
        → start_of e f ≡ some fn
        → content e fn ≡ some s
        → (read f (length s) e).0.0 ≡ length s) where
    -- If memory is never refused and a read from the start always gives all bytes of the file, then
    -- fffile_readwhole reads back what a successful fffile_writewhole with the default flags has written, if
    -- the file can be opened and its length is within the limit and less than 2^32 - 1.
    pub readwhole-writewhole :
        (fn d : Str) (limit g : ℕ) (e e2 : E)
        → (writewhole sys fn d 0 e).0 ≡ true
        → open_file fn sys.read_only (writewhole sys fn d 0 e).1 ≡ (some g, e2)
        → length d ≤ limit
        → length d < 0xffffffff
        → (readwhole sys fn limit (writewhole sys fn d 0 e).1).0 ≡ some (length d, d)
    unfolding readwhole
    readwhole-writewhole fn d limit g e e2 w o l n =
        let there = writewhole-IsWritten sys disk fn d e below w in
        let (c1, p1) = disk.open_old fn d (writewhole sys fn d 0 e).1 e2 g there o in
        let (z2, p2, c2) = disk.size_of fn d g e2 p1 c1 in
        ap (λ t. (opened_read sys limit t).0) o ∙ of_size (size g e2) z2 p2 c2
      where
        below : length d + 1 < sizes wide
        below = narrow_sizes (length d) wide n

        of_read :
            (r : (ℕ × Str) × E)
            → r.0.0 ≡ length d
            → r.0.1 ≡ d
            → (whole_read sys g (length d) r).0 ≡ some (length d, d)
        of_read ((k, t), e4) a b =
            ap₂ (λ m u. whole_if (length d == m) (length d) u) a b ∙ the_same (length d) d

        of_room :
            (r : Bool × E)
            → r.0 ≡ true
            → start_of r.1 g ≡ some fn
            → content r.1 fn ≡ some d
            → (with_room sys g (length d) r).0 ≡ some (length d, d)
        of_room (false, e3) h p c = absurd (cc)
        of_room (true, e3) h p c =
            let all = full fn d g e3 p c in
            of_read (read g (length d) e3) all (disk.read_all fn d g e3 below p c all)

        of_size :
            (r : ℕ × E)
            → r.0 ≡ length d
            → start_of r.1 g ≡ some fn
            → content r.1 fn ≡ some d
            → (sized sys limit g r).0 ≡ some (length d, d)
        of_size (k, e3) z p c =
            let within : ltb limit (length d) ≡ false = ground (arith, l) in
            let narrow : ltb 0xffffffff (length d) ≡ false = ground (arith, n) in
            let room = wrapped wide (length d + 1) in
            let (p3, c3) = disk.room_keeps room g fn e3 in
            let next = with_room sys g (length d) (realloc room e3) in
            ap (λ m. (sized sys limit g (m, e3)).0) z
            ∙ ap
                (λ b.
                  (if b
                    then finished sys g none e3
                    else (if not wide && ltb 0xffffffff (length d)
                        then finished sys g none e3
                        else next)).0)
                within
            ∙ ap (λ r. r.0)
                (if_wide wide (ltb 0xffffffff (length d)) (finished sys g none e3) next narrow)
            ∙ of_room (realloc room e3) (memory room e3) (p3 ∙ p) (c3 ∙ c)
