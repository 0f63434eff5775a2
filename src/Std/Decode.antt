-- ===== src/Std/Decode.antt =====
-- The codes of keys: what the two `ffstd_keyparse` of FFOS/std.h answer for a key.

use ffos.Base.{
  ℕ, ◌+◌, ◌≡◌, refl, Bool, true, false, Option, some, List, [], ◌∷◌, ◌++◌, if◌then◌else◌,
}
use ffos.Ffbase.{Str}
use ffos.Std.{key_up, key_ctrl, key_shift, key_alt}
use ffos.Std.Console.{KeyEvent, vkeys, index_in}
use ffos.Std.Unix
use ffos.Std.Console

pub data Arrow : Type 0 where
  up down right left : Arrow

-- The modifiers Shift, Alt and Ctrl
abbrev pub Modifiers : Type 0
Modifiers = Bool × Bool × Bool

abbrev value : Bool → ℕ → ℕ
value b n = if b then n else 0

abbrev arrow_code : Arrow → ℕ
arrow_code up = 0
arrow_code down = 1
arrow_code right = 2
arrow_code left = 3

-- The code of a key: the bits of its modifiers beside the arrow
abbrev pub code_of : Arrow → Modifiers → ℕ
code_of a (s, l, c) = key_up + arrow_code a + value s key_shift + value l key_alt + value c key_ctrl

-- What a terminal sends for a key: ESC [ A, or ESC [ 1 ; N A, where N - 1 has the bits of the
-- modifiers.
abbrev pub sent : Arrow → Modifiers → Str
sent a (false, false, false) = 27 ∷ 91 ∷ (65 + arrow_code a) ∷ []
sent a (s, l, c) =
    27 ∷ 91 ∷ 49 ∷ 59 ∷ (49 + value s 1 + value l 2 + value c 4) ∷ (65 + arrow_code a) ∷ []

-- What the Windows console reports for a key
abbrev virtual_key : Arrow → ℕ
virtual_key up = 0x26
virtual_key down = 0x28
virtual_key right = 0x27
virtual_key left = 0x25

abbrev pub event_of : Arrow → Modifiers → KeyEvent
event_of a (s, l, c) = record {
  key_down = true;
  virtual_key = virtual_key a;
  ascii_char = 0;
  control_state = value s 16 + value l 2 + value c 8;
}

-- On UNIX the bytes that a terminal sends for an arrow with modifiers are decoded to the code of that
-- key, and exactly these bytes are taken off the input, whatever follows them.
pub keyparse-sent :
    (a : Arrow) (m : Modifiers) (rest : Str)
    → Unix.keyparse (sent a m ++ rest) ≡ some (code_of a m, rest)
unfolding Unix.keyparse
keyparse-sent up (true, true, true) rest = refl
keyparse-sent up (true, true, false) rest = refl
keyparse-sent up (true, false, true) rest = refl
keyparse-sent up (true, false, false) rest = refl
keyparse-sent up (false, true, true) rest = refl
keyparse-sent up (false, true, false) rest = refl
keyparse-sent up (false, false, true) rest = refl
keyparse-sent up (false, false, false) rest = refl
keyparse-sent down (true, true, true) rest = refl
keyparse-sent down (true, true, false) rest = refl
keyparse-sent down (true, false, true) rest = refl
keyparse-sent down (true, false, false) rest = refl
keyparse-sent down (false, true, true) rest = refl
keyparse-sent down (false, true, false) rest = refl
keyparse-sent down (false, false, true) rest = refl
keyparse-sent down (false, false, false) rest = refl
keyparse-sent right (true, true, true) rest = refl
keyparse-sent right (true, true, false) rest = refl
keyparse-sent right (true, false, true) rest = refl
keyparse-sent right (true, false, false) rest = refl
keyparse-sent right (false, true, true) rest = refl
keyparse-sent right (false, true, false) rest = refl
keyparse-sent right (false, false, true) rest = refl
keyparse-sent right (false, false, false) rest = refl
keyparse-sent left (true, true, true) rest = refl
keyparse-sent left (true, true, false) rest = refl
keyparse-sent left (true, false, true) rest = refl
keyparse-sent left (true, false, false) rest = refl
keyparse-sent left (false, true, true) rest = refl
keyparse-sent left (false, true, false) rest = refl
keyparse-sent left (false, false, true) rest = refl
keyparse-sent left (false, false, false) rest = refl

-- Both systems have one code for a key: what the Windows console reports for an arrow with modifiers
-- gives the same code as what a UNIX terminal sends for it. `find` is the search of ffbase.
pub keyparse-event_of :
    (find : List ℕ → ℕ → Option ℕ)
    → ((l : List ℕ) (x : ℕ) → find l x ≡ index_in l x)
    → (a : Arrow) (m : Modifiers)
    → Unix.keyparse (sent a m) ≡ some (Console.keyparse find (event_of a m), [])
unfolding Unix.keyparse Console.keyparse
keyparse-event_of find h up (true, true, true) = rw (h vkeys (virtual_key up)) refl
keyparse-event_of find h up (true, true, false) = rw (h vkeys (virtual_key up)) refl
keyparse-event_of find h up (true, false, true) = rw (h vkeys (virtual_key up)) refl
keyparse-event_of find h up (true, false, false) = rw (h vkeys (virtual_key up)) refl
keyparse-event_of find h up (false, true, true) = rw (h vkeys (virtual_key up)) refl
keyparse-event_of find h up (false, true, false) = rw (h vkeys (virtual_key up)) refl
keyparse-event_of find h up (false, false, true) = rw (h vkeys (virtual_key up)) refl
keyparse-event_of find h up (false, false, false) = rw (h vkeys (virtual_key up)) refl
keyparse-event_of find h down (true, true, true) = rw (h vkeys (virtual_key down)) refl
keyparse-event_of find h down (true, true, false) = rw (h vkeys (virtual_key down)) refl
keyparse-event_of find h down (true, false, true) = rw (h vkeys (virtual_key down)) refl
keyparse-event_of find h down (true, false, false) = rw (h vkeys (virtual_key down)) refl
keyparse-event_of find h down (false, true, true) = rw (h vkeys (virtual_key down)) refl
keyparse-event_of find h down (false, true, false) = rw (h vkeys (virtual_key down)) refl
keyparse-event_of find h down (false, false, true) = rw (h vkeys (virtual_key down)) refl
keyparse-event_of find h down (false, false, false) = rw (h vkeys (virtual_key down)) refl
keyparse-event_of find h right (true, true, true) = rw (h vkeys (virtual_key right)) refl
keyparse-event_of find h right (true, true, false) = rw (h vkeys (virtual_key right)) refl
keyparse-event_of find h right (true, false, true) = rw (h vkeys (virtual_key right)) refl
keyparse-event_of find h right (true, false, false) = rw (h vkeys (virtual_key right)) refl
keyparse-event_of find h right (false, true, true) = rw (h vkeys (virtual_key right)) refl
keyparse-event_of find h right (false, true, false) = rw (h vkeys (virtual_key right)) refl
keyparse-event_of find h right (false, false, true) = rw (h vkeys (virtual_key right)) refl
keyparse-event_of find h right (false, false, false) = rw (h vkeys (virtual_key right)) refl
keyparse-event_of find h left (true, true, true) = rw (h vkeys (virtual_key left)) refl
keyparse-event_of find h left (true, true, false) = rw (h vkeys (virtual_key left)) refl
keyparse-event_of find h left (true, false, true) = rw (h vkeys (virtual_key left)) refl
keyparse-event_of find h left (true, false, false) = rw (h vkeys (virtual_key left)) refl
keyparse-event_of find h left (false, true, true) = rw (h vkeys (virtual_key left)) refl
keyparse-event_of find h left (false, true, false) = rw (h vkeys (virtual_key left)) refl
keyparse-event_of find h left (false, false, true) = rw (h vkeys (virtual_key left)) refl
keyparse-event_of find h left (false, false, false) = rw (h vkeys (virtual_key left)) refl
