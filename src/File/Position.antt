-- ===== src/File/Position.antt =====
-- `fffile_trunc`, `fffile_readat` and `fffile_writeat` of FFOS/file.h on Windows: the position in a file
-- and offsets of 64 bits. The system calls are parameters.
use ffos.Base.{
  ℕ, zero, suc, ◌+◌, ◌-◌, ◌*◌, ◌/◌, ◌%◌, ◌^◌, ◌≡◌, ◌<◌, ◌≤◌, refl, sym, ap, ◌∙◌, Bool, true, false,
  Option, none, some, [], ◌∷◌, length, take, drop, min, ltb, ◌==◌, if◌then◌else◌, Bool-cases, inl,
  inr, arith,
}
use ffos.Base.Int.{u32}
use ffos.Ffbase.{Str}

-- FILE_CURRENT, FILE_BEGIN
pub data SeekMethod : Type 0 where
  from_current from_begin : SeekMethod

pub record SeekSys (E : Type 0) : Type 0 where
  -- SetFilePointerEx: the new position
  pub seek : ℕ → SeekMethod → E → Option ℕ × E
  -- SetEndOfFile
  pub set_end : E → Bool × E

abbrev pub max_offset : ℕ
max_offset = 2 ^ 63

module _ {E : Type 0} (sys : SeekSys E) where
  open sys use {seek, set_end}

  abbrev pub restored : Bool → Option ℕ × E → Bool × E
  restored ok (none, e) = (false, e)
  restored ok (some p, e) = (ok, e)

  abbrev pub ended : ℕ → Bool × E → Bool × E
  ended p (ok, e) = restored ok (seek p from_begin e)

  abbrev pub moved : ℕ → Option ℕ × E → Bool × E
  moved p (none, e) = (false, e)
  moved p (some n, e) = ended p (set_end e)

  abbrev pub asked : ℕ → Option ℕ × E → Bool × E
  asked len (none, e) = (false, e)
  asked len (some p, e) = moved p (seek len from_begin e)

  -- `fffile_trunc`: whether it succeeds
  unfoldable pub trunc : ℕ → E → Bool × E
  trunc len e = asked len (seek 0 from_current e)

  -- What the calls are documented to do to the position and the size of the file: offsets are
  -- signed numbers of 64 bits, and the end is set to the position.
  pub record Seeks (position size : E → ℕ) : Type 0 where
    pub current :
        (e : E)
        → (e' : E) × (seek 0 from_current e ≡ (some (position e), e'))
          × (position e' ≡ position e)
          × (size e' ≡ size e)
    pub begin_at :
        (n : ℕ) (e : E)
        → n < max_offset
        → (e' : E) × (seek n from_begin e ≡ (some n, e')) × (position e' ≡ n) × (size e' ≡ size e)
    pub begin_beyond :
        (n : ℕ) (e : E)
        → max_offset ≤ n
        → (e' : E) × (seek n from_begin e ≡ (none, e'))
          × (position e' ≡ position e)
          × (size e' ≡ size e)
    pub end_set :
        (e : E)
        → (ok : Bool) × (e' : E) × (set_end e ≡ (ok, e'))
          × (position e' ≡ position e)
          × (size e' ≡ (if ok then position e else size e))

  -- fffile_trunc keeps the position, whether it succeeds or not. If it succeeds the size is the one
  -- asked for, and otherwise it is what it was; a size of 2^63 or more is refused.
  pub trunc-position :
      (position size : E → ℕ) (len : ℕ) (e : E)
      → Seeks position size
      → position e < max_offset
      → let r = trunc len e in
        (position r.1 ≡ position e)
        × (size r.1 ≡ (if r.0 then len else size e))
        × (max_offset ≤ len → r.0 ≡ false)
  unfolding trunc
  trunc-position position size len e s h =
      let (e1, now, p1, s1) = s.current e in
      elim (Bool-cases (ltb len max_offset)) [
        | inl y ↦
            let small : len < max_offset = ground (arith, y) in
            let (e2, there, p2, s2) = s.begin_at len e1 small in
            let (ok, e3, set, p3, s3) = s.end_set e2 in
            let (e4, back, p4, s4) = s.begin_at (position e) e3 h in
            rw (now, there, set, back)
              (p4, s4 ∙ s3 ∙ chosen ok p2 (s2 ∙ s1), λ large. absurd (omega (arith, small, large)))
        | inr n ↦
            let large : max_offset ≤ len = ground (arith, n) in
            let (e2, there, p2, s2) = s.begin_beyond len e1 large in
            rw (now, there) (p2 ∙ p1, s2 ∙ s1, λ l. refl)
      ]
    where
      chosen :
          {a b c d : ℕ} (ok : Bool) → a ≡ b → c ≡ d → (if ok then a else c) ≡ (if ok then b else d)
      chosen true p q = p
      chosen false p q = q

abbrev pub error_handle_eof : ℕ
error_handle_eof = 38

-- `OVERLAPPED`: the low and the high 32 bits of the offset
pub record ReadSys (E : Type 0) : Type 0 where
  -- ReadFile of at most so many bytes at an offset
  pub read_file : ℕ → ℕ × ℕ → E → Option Str × E
  -- WriteFile: the number of bytes written
  pub write_file : Str → ℕ × ℕ → E → Option ℕ × E
  pub last_error : E → ℕ

-- `ovl.Offset`, `ovl.OffsetHigh`
abbrev pub overlapped : ℕ → ℕ × ℕ
overlapped off = (off % u32, off / u32)

module _ {E : Type 0} (sys : ReadSys E) where
  open sys use {read_file, write_file, last_error}

  abbrev pub read_back : Option Str × E → Option Str × E
  read_back (some s, e) = (some s, e)
  read_back (none, e) = if last_error e == error_handle_eof then (some [], e) else (none, e)

  -- `fffile_readat`
  unfoldable pub readat : ℕ → ℕ → E → Option Str × E
  readat size off e = read_back (read_file (min size (u32 - 1)) (overlapped off) e)

  -- `fffile_writeat`
  unfoldable pub writeat : Str → ℕ → E → Option ℕ × E
  writeat s off e = write_file (take (u32 - 1) s) (overlapped off) e

  -- A file has this content: a read within it gives its bytes, and one behind its end fails with
  -- ERROR_HANDLE_EOF.
  pub record Contains (e : E) (s : Str) : Type 0 where
    pub within :
        (n lo hi : ℕ)
        → lo + u32 * hi < length s
        → read_file n (lo, hi) e ≡ (some (take n (drop (lo + u32 * hi) s)), e)
    pub behind :
        (n lo hi : ℕ)
        → length s ≤ lo + u32 * hi
        → ((read_file n (lo, hi) e).0 ≡ none)
          × (last_error (read_file n (lo, hi) e).1 ≡ error_handle_eof)

  drop_all : (n : ℕ) (s : Str) → length s ≤ n → drop n s ≡ []
  drop_all zero [] h = refl
  drop_all zero (b ∷ s) h = absurd (omega arith)
  drop_all (suc n) [] h = refl
  drop_all (suc n) (b ∷ s) h = drop_all n s (omega arith)

  take_none : (n : ℕ) → take {A = ℕ} n [] ≡ []
  take_none zero = refl
  take_none (suc n) = refl

  read_back-eof :
      (r : Option Str × E)
      → r.0 ≡ none
      → last_error r.1 ≡ error_handle_eof
      → (read_back r).0 ≡ some []
  read_back-eof (o, e) h c =
      let code : (last_error e == error_handle_eof) ≡ true = ground (arith, c) in rw (h, code) refl

  -- fffile_readat reads the bytes of the file at the offset, at any offset of 64 bits, at most 2^32 - 1
  -- at a time; at the end of the file and behind it, where ReadFile fails, it reads nothing and
  -- succeeds.
  pub readat-Contains :
      (s : Str) (size off : ℕ) (e : E)
      → Contains e s
      → (readat size off e).0 ≡ some (take (min size (u32 - 1)) (drop off s))
  unfolding readat
  readat-Contains s size off e c =
      let n = min size (u32 - 1) in
      let whole : off % u32 + u32 * (off / u32) ≡ off = omega arith in
      elim (Bool-cases (ltb off (length s))) [
        | inl y ↦
            let inside : off % u32 + u32 * (off / u32) < length s = ground (arith, y, whole) in
            ap (λ r. (read_back r).0) (c.within n (off % u32) (off / u32) inside)
            ∙ ap (λ i. some (take n (drop i s))) whole
        | inr m ↦
            let over : length s ≤ off = ground (arith, m) in
            let (fails, code) = c.behind n (off % u32) (off / u32) (omega (arith, over, whole)) in
            read_back-eof (read_file n (overlapped off) e) fails code
            ∙ sym (ap (λ l. some (take n l)) (drop_all off s over) ∙ ap some (take_none n))
      ]
