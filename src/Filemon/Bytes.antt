-- ===== src/Filemon/Bytes.antt =====
-- Words of 32 bits in the memory of a little-endian machine.
use ffos.Base.{
  ℕ, ◌+◌, ◌-◌, ◌*◌, ◌/◌, ◌%◌, ◌≡◌, ◌<◌, refl, ap, [], ◌∷◌, ◌++◌, length, take, drop, ltb,
  if◌then◌else◌, arith,
}
use ffos.Base.Int.{ℤ, pos, negsuc, u32}
use ffos.Ffbase.{Str}

-- The word at the start of at least four bytes
unfoldable pub word : Str → ℕ
word (a ∷ b ∷ c ∷ d ∷ s) = a + b * 256 + c * 65536 + d * 16777216
word s = 0

abbrev pub bytes_of : ℕ → Str
bytes_of w = w % 256 ∷ (w / 256) % 256 ∷ (w / 65536) % 256 ∷ (w / 16777216) % 256 ∷ []

-- A word as an `int`
abbrev pub as_int : ℕ → ℤ
as_int w = if ltb w 0x80000000 then pos w else negsuc (u32 - 1 - w)

pub word-bytes_of : (w : ℕ) (s : Str) → w < u32 → word (bytes_of w ++ s) ≡ w
unfolding word
word-bytes_of w s h = omega (arith, h)

pub take-append : (s t : Str) → take (length s) (s ++ t) ≡ s
take-append [] t = refl
take-append (b ∷ s) t = ap (λ r. b ∷ r) (take-append s t)

pub drop-append : (s t : Str) → drop (length s) (s ++ t) ≡ t
drop-append [] t = refl
drop-append (b ∷ s) t = drop-append s t
