-- ===== src/File/Examples.antt =====
-- Runs of the functions of FFOS/file.h, and the theorems at concrete inputs.
use ffos.Base.{
  ℕ, suc, ◌+◌, ◌-◌, ◌*◌, ◌≡◌, ◌≤◌, ◌<◌, refl, ap, ◌∙◌, Bool, true, false, Option, none, some, [],
  ◌∷◌, length, take, drop, min, ltb, if◌then◌else◌, arith,
}
use ffos.Base.Int.{u32}
use ffos.Base.Text.{codes}
use ffos.Ffbase.{Str}
use ffos.Std.{has_bit}
use ffos.File.Open.{OpenSys, is_some, disposed, succeeds, access, attributes, open_file}
use ffos.File.Disposition.{Creation, Granted, open_file-expected}
use ffos.File.Change.{RemoveSys, Deletes, NamesSys}
use ffos.File.Position.{
  SeekMethod, SeekSys, Seeks, max_offset, ReadSys, Contains, readat, readat-Contains,
}

-- One file, or none, and the last error
abbrev Disk : Type 0
Disk = Option Str × ℕ

abbrev answer : Bool → Option Str → Option ℕ × Disk
answer true s = (some 7, (s, 0))
answer false s = (none, (s, 2))

abbrev disk : OpenSys Disk
disk = record {
  wide_name = λ s. some s;
  long_name_size = λ s. length s;
  long_name = λ s n. (length s, s);
  same_name = λ o s. true;
  last_error = λ (s, c). c;
  set_error = λ c (s, c'). (s, c);
  create_file = λ w a d f (s, c). answer (succeeds d s) (disposed d s);
  content = λ (s, c) w. s;
}

answer-ok :
    (b : Bool) (s : Option Str)
    → (is_some (answer b s).0 ≡ b) × ((answer b s).1.0 ≡ s) × (b ≡ false → (answer b s).1.1 ≡ 2)
answer-ok true s = (refl, refl, λ e. absurd (cc))
answer-ok false s = (refl, refl, λ e. refl)

disk-Granted : (w : Str) (a f : ℕ) → Granted disk w a f
disk-Granted w a f = record {
  succeeds_by = λ d (s, c). (answer-ok (succeeds d s) (disposed d s)).0;
  content_by = λ d (s, c). (answer-ok (succeeds d s) (disposed d s)).1;
  missing_is = λ d (s, c) m r. (answer-ok (succeeds d s) (disposed d s)).2 (ap (succeeds d) m ∙ r);
}

-- FFFILE_CREATE | FFFILE_TRUNCATE | FFFILE_WRITEONLY of a file that is missing
open_file-expected_example :
    (is_some (open_file disk (codes "f") 0x1440 (none, 0)).0 ≡ true)
    × ((open_file disk (codes "f") 0x1440 (none, 0)).1.0 ≡ some [])
open_file-expected_example =
    open_file-expected disk (codes "f") (codes "f") 0x1440 (none, 0) Creation.create_or_open true
      (disk-Granted (codes "f") (access 0x1440) (attributes 0x1440)) refl refl refl refl

-- The attributes of one file, or none, and the last error
abbrev delete_one : Option ℕ × ℕ → Bool × (Option ℕ × ℕ)
delete_one (none, c) = (false, (none, 2))
delete_one (some a, c) = if has_bit a 1 then (false, (some a, 5)) else (true, (none, c))

abbrev folder : RemoveSys (Option ℕ × ℕ)
folder = record {
  wide_name = λ s. some s;
  delete = λ w e. delete_one e;
  get_attributes = λ w (a, c). a;
  set_attributes = λ w a (b, c). (true, (some a, c));
  last_error = λ (a, c). c;
}

folder-Deletes : (w : Str) → Deletes folder (λ e w. e.0) w
folder-Deletes w = record {
  get_is = λ e. refl;
  delete_readonly = λ a (b, c) there y. rw (there, y) (refl, refl, refl);
  delete_plain = λ a (b, c) there n. rw (there, n) (refl, refl);
  set_is = λ a e. (refl, refl);
}

-- The number of blocks; a name of three bytes is in an allocated buffer, an empty one is refused.
abbrev names : NamesSys ℕ
names = record {
  alloc_name = λ s n. elim s [ [] ↦ (none, n) | b ∷ l ↦ (some (b ∷ l, true), suc n) ];
  free = λ n. n - 1;
  blocks = λ n. n;
  blocks-free = λ n. refl;
}

-- A position and a size
abbrev seek_to : ℕ → SeekMethod → ℕ × ℕ → Option ℕ × (ℕ × ℕ)
seek_to n SeekMethod.from_current (p, s) = (some p, (p, s))
seek_to n SeekMethod.from_begin (p, s) =
    if ltb n max_offset then (some n, (n, s)) else (none, (p, s))

abbrev seeker : SeekSys (ℕ × ℕ)
seeker = record { seek = seek_to; set_end = λ (p, s). (true, (p, p)) }

seeker-Seeks : Seeks seeker (λ e. e.0) (λ e. e.1)
seeker-Seeks = record {
  current = λ e. (e, refl, refl, refl);
  begin_at = λ n (p, s) h. ((n, s), in_range n p s h, refl, refl);
  begin_beyond = λ n (p, s) h. ((p, s), out_of_range n p s h, refl, refl);
  end_set = λ (p, s). (true, (p, p), refl, refl, refl);
}
  where
    in_range :
        (n p s : ℕ) → n < max_offset → seek_to n SeekMethod.from_begin (p, s) ≡ (some n, (n, s))
    in_range n p s h = let t : ltb n max_offset ≡ true = ground arith in rw t refl

    out_of_range :
        (n p s : ℕ) → max_offset ≤ n → seek_to n SeekMethod.from_begin (p, s) ≡ (none, (p, s))
    out_of_range n p s h = let t : ltb n max_offset ≡ false = ground arith in rw t refl

-- The content of a file and the last error
abbrev reader : ReadSys (Str × ℕ)
reader = record {
  read_file = λ n (lo, hi) (s, c).
      if ltb (lo + u32 * hi) (length s)
      then (some (take n (drop (lo + u32 * hi) s)), (s, c))
      else (none, (s, 38));
  write_file = λ s o e. (some (length s), e);
  last_error = λ (s, c). c;
}

reader-Contains : (s : Str) → Contains reader (s, 0) s
reader-Contains s = record {
  within = λ n lo hi h. let t : ltb (lo + u32 * hi) (length s) ≡ true = ground arith in rw t refl;
  behind = λ n lo hi h.
      let t : ltb (lo + u32 * hi) (length s) ≡ false = ground arith in rw t (refl, refl);
}

readat-Contains_example :
    (readat reader 3 2 (codes "abcdefg", 0)).0
    ≡ some (take (min 3 (u32 - 1)) (drop 2 (codes "abcdefg")))
readat-Contains_example =
    readat-Contains reader (codes "abcdefg") 3 2 (codes "abcdefg", 0)
      (reader-Contains (codes "abcdefg"))
