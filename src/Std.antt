-- ===== src/Std.antt =====
-- FFOS/std.h: the codes of keys, the modes of a terminal, and reading and writing in UTF-8.
pub mod Unix
pub mod Console
pub mod Decode
pub mod Progress
pub mod Modes
pub mod Events
pub mod Transfer
pub mod Examples
use ffos.Base.{ℕ, ◌+◌, ◌-◌, ◌*◌, ◌/◌, ◌%◌, ◌^◌, Bool, ◌==◌, ltb, if◌then◌else◌}
use ffos.Base.Int.{u32}

-- `enum FFKEY`
abbrev pub key_virt : ℕ
key_virt = 2 ^ 31

abbrev pub key_up : ℕ
key_up = key_virt + 1

abbrev pub key_ctrl : ℕ
key_ctrl = 2 ^ 24

abbrev pub key_shift : ℕ
key_shift = 2 * 2 ^ 24

abbrev pub key_alt : ℕ
key_alt = 4 * 2 ^ 24

-- `enum FFSTD_ATTR`
abbrev pub attr_echo : ℕ
attr_echo = 1

abbrev pub attr_line_input : ℕ
attr_line_input = 2

abbrev pub attr_vterm : ℕ
attr_vterm = 4

-- -1 as a 32-bit word
abbrev pub minus_one : ℕ
minus_one = u32 - 1

-- A `char` that becomes an `int`: a byte from 128 on is negative.
abbrev pub char_word : ℕ → ℕ
char_word b = if ltb b 128 then b else u32 - 256 + b

-- `w & bit`, `w | bit` and `w & ~bit` for a power of two
abbrev pub has_bit : ℕ → ℕ → Bool
has_bit w bit = w / bit % 2 == 1

abbrev pub with_bit : ℕ → ℕ → ℕ
with_bit w bit = if has_bit w bit then w else w + bit

abbrev pub without_bit : ℕ → ℕ → ℕ
without_bit w bit = if has_bit w bit then w - bit else w

-- The bit after an attribute is set to a value.
abbrev pub put_bit : Bool → ℕ → ℕ → ℕ
put_bit on w bit = if on then with_bit w bit else without_bit w bit
