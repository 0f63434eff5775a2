-- ===== src/Std/Unix.antt =====
-- FFOS/std.h on UNIX: ffstd_keyread, ffstd_keyparse and ffstd_attr. The descriptor's functions are the
-- parameter `TermSys`.
use Prim.Native.Nat.{bit_or}
use mathlib.Core.Option
use ffos.Base.{
  ℕ, zero, suc, ◌+◌, ◌-◌, Bool, true, false, Option, none, some, List, [], ◌∷◌, get_elem?, drop,
  ◌==◌, leb, ◌&&◌, if◌then◌else◌,
}
use ffos.Base.Int.{sub32}
use ffos.Ffbase.{Str}
use ffos.Std.{
  key_up, key_ctrl, key_shift, key_alt, attr_echo, attr_line_input, attr_vterm, minus_one,
  char_word, has_bit, put_bit,
}

-- `data->len >= n`
abbrev pub at_least : ℕ → Str → Bool
at_least zero d = true
at_least (suc n) [] = false
at_least (suc n) (b ∷ d) = at_least n d

-- `d[i] == c`; nothing if the byte is outside.
abbrev pub is_at : Str → ℕ → ℕ → Option Bool
is_at d i c = Option.map (λ b. b == c) (get_elem? d i)

-- `a && b`, where `b` is not computed if `a` is false
abbrev pub both : Option Bool → Option Bool → Option Bool
both none b = none
both (some false) b = some false
both (some true) b = b

-- `key_esc1`
abbrev pub key_esc1 : List ℕ
key_esc1 =
    key_shift
    ∷ key_alt
    ∷ bit_or key_shift key_alt
    ∷ key_ctrl
    ∷ bit_or key_ctrl key_shift
    ∷ bit_or key_ctrl key_alt
    ∷ bit_or (bit_or key_ctrl key_shift) key_alt
    ∷ []

-- `-1` and the input as it was
abbrev pub refused : Str → Option (ℕ × Str)
refused d = some (minus_one, d)

-- The end of a sequence: the letter of an arrow at `d[i]`
abbrev pub arrow_key : ℕ → ℕ → Str → ℕ → Option (ℕ × Str)
arrow_key r i d c =
    if leb 65 c && leb c 68 then some (bit_or r (key_up + c - 65), drop (i + 1) d) else refused d

abbrev pub bind_byte : Option ℕ → (ℕ → Option (ℕ × Str)) → Option (ℕ × Str)
bind_byte none go = none
bind_byte (some c) go = go c

abbrev pub branch : Option Bool → Option (ℕ × Str) → Option (ℕ × Str) → Option (ℕ × Str)
branch none x y = none
branch (some true) x y = x
branch (some false) x y = y

-- ESC [ 1;N with the modifiers
abbrev pub modified_key : Str → ℕ → Option (ℕ × Str)
modified_key d m = elim (get_elem? key_esc1 (sub32 m 50)) [
  | none ↦ refused d
  | some r ↦ bind_byte (get_elem? d 5) (arrow_key r 5 d)
]

abbrev pub escape_key : Str → Option (ℕ × Str)
escape_key d =
    branch (both (is_at d 2 49) (both (some (at_least 6 d)) (is_at d 3 59)))
      (bind_byte (get_elem? d 4) (modified_key d)) (bind_byte (get_elem? d 2) (arrow_key 0 2 d))

-- `ffstd_keyparse`: the code and the rest of the input; nothing if it read outside the input.
unfoldable pub keyparse : Str → Option (ℕ × Str)
keyparse d =
    if at_least 1 d
    then branch (both (is_at d 0 27) (both (some (at_least 3 d)) (is_at d 1 91))) (escape_key d)
        (bind_byte (get_elem? d 0) (λ c. some (char_word c, drop 1 d)))
    else refused d

abbrev pub einval : ℕ
einval = 22

pub record TermSys (E : Type 0) : Type 0 where
  -- read: the bytes, or nothing on an error
  pub read : ℕ → E → Option Str × E
  -- fferr_again(errno)
  pub again : E → Bool
  pub set_error : ℕ → E → E
  -- fstat: whether it succeeds on a character device
  pub is_char_device : E → Bool
  -- tcgetattr: c_lflag, c_cc[VTIME] and c_cc[VMIN]
  pub get_attr : E → Option (ℕ × ℕ × ℕ)
  -- tcsetattr, of which the result is not used
  pub set_attr : ℕ × ℕ × ℕ → E → E

-- What `ffstd_keyread` answers: the bytes, "nothing yet" (0), or an error (-1).
pub data KeyInput : Type 0 where
  bytes : Str → KeyInput
  nothing_yet failed : KeyInput

-- ECHO and ICANON of c_lflag
abbrev pub lflag_echo : ℕ
lflag_echo = 8

abbrev pub lflag_icanon : ℕ
lflag_icanon = 2

abbrev pub put_echo : ℕ → ℕ → ℕ × ℕ × ℕ → ℕ × ℕ × ℕ
put_echo attr val (l, vtime, vmin) =
    if has_bit attr attr_echo
    then (put_bit (has_bit val attr_echo) l lflag_echo, vtime, vmin)
    else (l, vtime, vmin)

abbrev pub put_line_input : ℕ → ℕ → ℕ × ℕ × ℕ → ℕ × ℕ × ℕ
put_line_input attr val (l, vtime, vmin) =
    if has_bit attr attr_line_input
    then (if has_bit val attr_line_input
        then (put_bit true l lflag_icanon, vtime, vmin)
        else (put_bit false l lflag_icanon, 0, 1))
    else (l, vtime, vmin)

module _ {E : Type 0} (sys : TermSys E) where
  open sys use {again, set_error, is_char_device, get_attr, set_attr}

  abbrev pub key_input : Option Str × E → KeyInput × E
  key_input (none, e) = if again e then (nothing_yet, e) else (failed, e)
  key_input (some [], e) = (failed, set_error einval e)
  key_input (some (b ∷ s), e) = (bytes (b ∷ s), e)

  -- `ffstd_keyread`
  unfoldable pub keyread : E → KeyInput × E
  keyread e = key_input (sys.read 8 e)

  -- `ffstd_attr`: whether it succeeds
  unfoldable pub attr : ℕ → ℕ → E → Bool × E
  attr a val e = if a == attr_vterm then (is_char_device e, e) else elim (get_attr e) [
    | none ↦ (false, e)
    | some t ↦ (true, set_attr (put_line_input a val (put_echo a val t)) e)
  ]
