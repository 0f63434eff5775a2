-- ===== src/File/WholeExamples.antt =====
-- Runs of the functions for whole files of FFOS/file.h, and the theorems at concrete inputs.
use ffos.Base.{
  ℕ, ◌≡◌, refl, sym, ap, ◌∙◌, Bool, true, false, Option, none, some, [], length, ◌==◌, arith,
}
use ffos.Base.Text.{codes}
use ffos.Ffbase.{Str}
use ffos.File.Whole.{FileOps, readwhole, writewhole}
use ffos.File.Written.{Disk}
use ffos.File.Kept.{readwhole-writewhole}

-- One file, and the path at the start of which the one descriptor is
abbrev World : Type 0
World = Option Str × Str

abbrev opening : Bool → Str → World → Option ℕ × World
opening true fn (none, p) = (none, (none, p))
opening true fn (some s, p) = (some 3, (some s, fn))
opening false fn (o, p) = (some 3, (some [], fn))

abbrev reading : World → (ℕ × Str) × World
reading (none, p) = ((0, []), (none, p))
reading (some s, p) = ((length s, s), (some s, p))

abbrev size_now : World → ℕ × World
size_now (none, p) = (0, (none, p))
size_now (some s, p) = (length s, (some s, p))

abbrev one_file : FileOps World
one_file = record {
  read_only = 0;
  write_only = 1;
  create_truncate = 0x240;
  wide = true;
  open_file = λ fn flags e. opening (flags == 0) fn e;
  size = λ f e. size_now e;
  read = λ f n e. reading e;
  write = λ f d e. (length d, (some d, e.1));
  close = λ f e. (true, e);
  remove = λ fn e. (none, e.1);
  realloc = λ n e. (true, e);
}

abbrev content_now : World → Str → Option Str
content_now e fn = e.0

abbrev start_now : World → ℕ → Option Str
start_now e f = some e.1

opening_old :
    (fn s : Str) (e e1 : World) (f : ℕ)
    → e.0 ≡ some s
    → opening true fn e ≡ (some f, e1)
    → (e1.0 ≡ some s) × (some e1.1 ≡ some fn)
opening_old fn s (none, p) e1 f h o = absurd (cc)
opening_old fn s (some t, p) e1 f h o =
    let moved : (some t, fn) ≡ e1 = ap (λ (r : Option ℕ × World). r.1) o in
    (ap (λ (r : World). r.0) (sym moved) ∙ h, ap (λ (r : World). some r.1) (sym moved))

opening_new :
    (fn : Str) (e e1 : World) (f : ℕ)
    → opening false fn e ≡ (some f, e1)
    → (e1.0 ≡ some []) × (some e1.1 ≡ some fn)
opening_new fn (t, p) e1 f o =
    let moved : (some [], fn) ≡ e1 = ap (λ (r : Option ℕ × World). r.1) o in
    (ap (λ (r : World). r.0) (sym moved), ap (λ (r : World). some r.1) (sym moved))

sizing :
    (fn s : Str) (e : World)
    → some e.1 ≡ some fn
    → e.0 ≡ some s
    → ((size_now e).0 ≡ length s) × (some (size_now e).1.1 ≡ some fn) × ((size_now e).1.0 ≡ some s)
sizing fn s (none, p) a c = absurd (cc)
sizing fn s (some t, p) a c = (ap size_or c, a, c)
  where
    size_or : Option Str → ℕ
    size_or none = 0
    size_or (some u) = length u

reading_all :
    (fn s : Str) (e : World)
    → e.0 ≡ some s
    → ((reading e).0 ≡ (length s, s)) × ((reading e).1.0 ≡ some s)
reading_all fn s (none, p) c = absurd (cc)
reading_all fn s (some t, p) c = (ap read_or c, c)
  where
    read_or : Option Str → ℕ × Str
    read_or none = (0, [])
    read_or (some u) = (length u, u)

one_disk : Disk one_file content_now start_now
one_disk = record {
  open_old = opening_old;
  open_new = opening_new;
  size_of = λ fn s f e. sizing fn s e;
  room_keeps = λ n f fn e. (refl, refl);
  read_all = λ fn s f e b a c k. ap (λ r. r.1) (reading_all fn s e c).0;
  write_all = λ fn d f e b a c w. refl;
  close_keeps = λ fn f e. refl;
}

-- Writes over an older file
readwhole-writewhole_example :
    (readwhole one_file
      (codes "f")
      100
      (writewhole one_file (codes "f") (codes "new") 0 (some (codes "older"), [])).1).0
    ≡ some (3, codes "new")
unfolding writewhole
readwhole-writewhole_example =
    readwhole-writewhole one_file one_disk (λ n e. refl)
      (λ fn s f e a c. ap (λ r. r.0) (reading_all fn s e c).0) (codes "f") (codes "new") 100 3
      (some (codes "older"), []) (some (codes "new"), codes "f") refl refl (omega arith)
      (omega arith)

abbrev text_read : ℕ × Str
text_read = (3, codes "new")
