-- ===== src/File/Written.antt =====
-- What the functions for an open file of FFOS/file.h promise about the contents of files, and with them
-- fffile_writewhole.
use Prim.Native.Nat.{bit_or}
use ffos.Base.{
  ℕ, ◌+◌, ◌≡◌, ◌<◌, refl, ◌∙◌, Bool, true, false, Option, none, some, length, [], ◌==◌, arith,
}
use ffos.Ffbase.{Str}
use ffos.File.Whole.{FileOps, sizes, write_closed, whole_written, opened_write, writewhole}

-- The contents of the file at a path, and the path of which a descriptor is at the start
pub record Disk {E : Type 0} (sys : FileOps E) (content : E → Str → Option Str)
    (start_of : E → ℕ → Option Str) : Type 0 where
  pub open_old :
      (fn s : Str) (e e1 : E) (f : ℕ)
      → content e fn ≡ some s
      → sys.open_file fn sys.read_only e ≡ (some f, e1)
      → (content e1 fn ≡ some s) × (start_of e1 f ≡ some fn)
  pub open_new :
      (fn : Str) (e e1 : E) (f : ℕ)
      → sys.open_file fn (bit_or sys.create_truncate sys.write_only) e ≡ (some f, e1)
      → (content e1 fn ≡ some []) × (start_of e1 f ≡ some fn)
  pub size_of :
      (fn s : Str) (f : ℕ) (e : E)
      → start_of e f ≡ some fn
      → content e fn ≡ some s
      → ((sys.size f e).0 ≡ length s)
        × (start_of (sys.size f e).1 f ≡ some fn)
        × (content (sys.size f e).1 fn ≡ some s)
  pub room_keeps :
      (n f : ℕ) (fn : Str) (e : E)
      → (start_of (sys.realloc n e).1 f ≡ start_of e f)
        × (content (sys.realloc n e).1 fn ≡ content e fn)
  -- A read that gives all bytes; it may give fewer, or fail: its -1 is the last `ffsize`, so nothing is said
  -- of a length that is as large.
  pub read_all :
      (fn s : Str) (f : ℕ) (e : E)
      → length s + 1 < sizes sys.wide
      → start_of e f ≡ some fn
      → content e fn ≡ some s
      → (sys.read f (length s) e).0.0 ≡ length s
      → (sys.read f (length s) e).0.1 ≡ s
  -- A write that takes all bytes; it may take fewer, or fail.
  pub write_all :
      (fn d : Str) (f : ℕ) (e : E)
      → length d + 1 < sizes sys.wide
      → start_of e f ≡ some fn
      → content e fn ≡ some []
      → (sys.write f d e).0 ≡ length d
      → content (sys.write f d e).1 fn ≡ some d
  pub close_keeps : (fn : Str) (f : ℕ) (e : E) → content (sys.close f e).1 fn ≡ content e fn

module _ {E : Type 0} (sys : FileOps E) {content : E → Str → Option Str}
    {start_of : E → ℕ → Option Str} (disk : Disk sys content start_of) where
  open sys use {open_file, size, read, write, close, realloc, wide}

  abbrev IsWritten : Str → Str → Bool × E → Type 0
  IsWritten fn d r = r.0 ≡ true → content r.1 fn ≡ some d

  write_closed-IsWritten :
      (fn d : Str) (ok : Bool) (r : Bool × E)
      → (ok ≡ true → content r.1 fn ≡ some d)
      → IsWritten fn d (write_closed sys fn ok r)
  write_closed-IsWritten fn d true (true, e) h k = h refl
  write_closed-IsWritten fn d true (false, e) h k = absurd (cc)
  write_closed-IsWritten fn d false (c, e) h k = absurd (cc)

  whole_written-IsWritten :
      (fn d : Str) (f : ℕ) (r : ℕ × E)
      → (r.0 ≡ length d → content r.1 fn ≡ some d)
      → IsWritten fn d (whole_written sys fn (length d) f r)
  whole_written-IsWritten fn d f (n, e) h =
      write_closed-IsWritten fn d (length d == n) (close f e)
        (λ t. disk.close_keeps fn f e ∙ h (ground (arith, t)))

  opened_write-IsWritten :
      (fn d : Str) (e : E) (r : Option ℕ × E)
      → length d + 1 < sizes wide
      → open_file fn (bit_or sys.create_truncate sys.write_only) e ≡ r
      → IsWritten fn d (opened_write sys fn d r)
  opened_write-IsWritten fn d e (none, e1) b o k = absurd (cc)
  opened_write-IsWritten fn d e (some f, e1) b o k =
      let (c, p) = disk.open_new fn e e1 f o in
      whole_written-IsWritten fn d f (write f d e1) (disk.write_all fn d f e1 b p c) k

  -- If fffile_writewhole with the default flags succeeds, the file has exactly these bytes.
  pub writewhole-IsWritten :
      (fn d : Str) (e : E)
      → length d + 1 < sizes wide
      → (writewhole sys fn d 0 e).0 ≡ true
      → content (writewhole sys fn d 0 e).1 fn ≡ some d
  unfolding writewhole
  writewhole-IsWritten fn d e b k =
      opened_write-IsWritten fn d e (open_file fn (bit_or sys.create_truncate sys.write_only) e) b
        refl k
