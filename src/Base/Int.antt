-- ===== src/Base/Int.antt =====
-- Signed integers over the native numbers, under the library's names (its ℤ stands on the unary ℕ),
-- and the 32-bit words of C.
use ffos.Base.{ℕ, suc, ◌+◌, ◌-◌, ◌%◌, ◌^◌, Bool, ltb, leb, ◌&&◌}

-- `negsuc n` is -(n + 1).
pub data ℤ : Type 0 where
  pos : ℕ → ℤ
  negsuc : ℕ → ℤ

abbrev pub pos_part : ℤ → ℕ
pos_part (pos n) = n
pos_part (negsuc n) = 0

abbrev pub neg_part : ℤ → ℕ
neg_part (pos n) = 0
neg_part (negsuc n) = suc n

-- ffint_abs
abbrev pub abs : ℤ → ℕ
abs (pos n) = n
abs (negsuc n) = suc n

abbrev pub u32 : ℕ
u32 = 2 ^ 32

abbrev pub i32_max : ℕ
i32_max = 2 ^ 31

abbrev pub add32 : ℕ → ℕ → ℕ
add32 a b = (a + b) % u32

abbrev pub sub32 : ℕ → ℕ → ℕ
sub32 a b = (a + u32 - b) % u32

-- `(int)x < 0` and `(int)x > 0` of a 32-bit word.
abbrev pub is_neg32 : ℕ → Bool
is_neg32 x = leb i32_max x

abbrev pub is_pos32 : ℕ → Bool
is_pos32 x = ltb 0 x && ltb x i32_max
