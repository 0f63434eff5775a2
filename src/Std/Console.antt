-- ===== src/Std/Console.antt =====
-- FFOS/std.h on Windows: ffstd_keyread, ffstd_keyparse and ffstd_attr. The console's functions are the
-- parameter `ConsoleSys`.
use Prim.Native.Nat.{bit_or}
use mathlib.Core.Option
use ffos.Base.{
  ℕ, zero, suc, Bool, true, false, Option, none, some, List, [], ◌∷◌, length, get_elem?, min, ◌==◌,
  ◌&&◌, ◌||◌, if◌then◌else◌,
}
use ffos.Std.{
  key_virt, key_ctrl, key_shift, key_alt, attr_echo, attr_line_input, attr_vterm, minus_one,
  char_word, has_bit, put_bit,
}

-- `KEY_EVENT_RECORD`
pub record KeyEvent : Type 0 where
  pub key_down : Bool
  pub virtual_key : ℕ
  pub ascii_char : ℕ
  pub control_state : ℕ

-- `INPUT_RECORD`
pub data InputRecord : Type 0 where
  key : KeyEvent → InputRecord
  other : InputRecord

-- The state of `ffstd_ev`
pub data EvState : Type 0 where
  empty filled : EvState

-- `struct ffstd_ev`: `nrec` is the length of `records`.
pub record StdEv : Type 0 where
  pub state : EvState
  pub records : List InputRecord
  pub irec : ℕ

-- What `ffstd_keyread` answers: a key, "nothing yet" (0), or an error (-1).
pub data KeyRead : Type 0 where
  pressed : KeyEvent → KeyRead
  nothing_yet failed : KeyRead

-- A record that is a key pressed down
abbrev pub key_of : Option InputRecord → Option KeyEvent
key_of none = none
key_of (some other) = none
key_of (some (key k)) = if k.key_down then some k else none

pub record ConsoleSys (E : Type 0) : Type 0 where
  -- GetNumberOfConsoleInputEvents
  pub count_events : E → Option ℕ × E
  -- ReadConsoleInput of at most so many records
  pub read_input : ℕ → E → Option (List InputRecord) × E
  -- GetConsoleMode, SetConsoleMode
  pub get_mode : E → Option ℕ
  pub set_mode : ℕ → E → Bool × E

abbrev pub changed : ℕ → ℕ → ℕ → ℕ → ℕ → ℕ
changed a val flag bit mode = if has_bit a flag then put_bit (has_bit val flag) mode bit else mode

-- ENABLE_PROCESSED_OUTPUT, ENABLE_VIRTUAL_TERMINAL_PROCESSING
abbrev pub put_vterm : ℕ → ℕ → ℕ → ℕ
put_vterm a val mode =
    if has_bit a attr_vterm && has_bit val attr_vterm
    then put_bit true (put_bit true mode 1) 4
    else mode

module _ {E : Type 0} (sys : ConsoleSys E) where
  open sys use {count_events, read_input, get_mode, set_mode}

  -- What is left of a round: the answer, or another round.
  pub data Round : Type 0 where
    answer : KeyRead → Round
    again : Round

  abbrev pub with_events : StdEv → List InputRecord → StdEv
  with_events ev l = record { state = filled; records = l; irec = 0 }

  -- State 1
  abbrev pub step_filled : StdEv → E → Round × StdEv × E
  step_filled ev e =
      if ev.irec == length ev.records
      then (again, record ev { state = empty }, e)
      else elim (key_of (get_elem? ev.records ev.irec)) [
        | none ↦ (again, record ev { irec = suc ev.irec }, e)
        | some k ↦ (answer (pressed k), record ev { irec = suc ev.irec }, e)
      ]

  abbrev pub loaded : StdEv → Option (List InputRecord) × E → Round × StdEv × E
  loaded ev (none, e) = (answer failed, ev, e)
  loaded ev (some [], e) = (answer nothing_yet, ev, e)
  loaded ev (some (r ∷ l), e) = step_filled (with_events ev (r ∷ l)) e

  -- State 0
  abbrev pub step_empty : StdEv → Option ℕ × E → Round × StdEv × E
  step_empty ev (none, e) = (answer failed, ev, e)
  step_empty ev (some zero, e) = (answer nothing_yet, ev, e)
  step_empty ev (some (suc n), e) = loaded ev (read_input (min (suc n) 8) e)

  -- A round of the loop
  unfoldable pub round : StdEv → E → Round × StdEv × E
  round ev e = elim ev.state [ empty ↦ step_empty ev (count_events e) | filled ↦ step_filled ev e ]

  abbrev pub next_round :
      Round × StdEv × E → (StdEv → E → Option (KeyRead × StdEv × E)) → Option (KeyRead × StdEv × E)
  next_round (answer a, ev, e) rest = some (a, ev, e)
  next_round (again, ev, e) rest = rest ev e

  -- `ffstd_keyread`; nothing if the model's fuel is used up.
  unfoldable pub keyread : ℕ → StdEv → E → Option (KeyRead × StdEv × E)
  keyread zero ev e = none
  keyread (suc fuel) ev e = next_round (round ev e) (keyread fuel)

  abbrev pub change_mode : ℕ → ℕ → E → Option ℕ → Bool × E
  change_mode a val e none = (false, e)
  change_mode a val e (some mode) =
      set_mode (changed a val attr_line_input 2 (changed a val attr_echo 4 (put_vterm a val mode)))
        e

  -- `ffstd_attr` with ENABLE_ECHO_INPUT and ENABLE_LINE_INPUT: whether it succeeds
  unfoldable pub attr : ℕ → ℕ → E → Bool × E
  attr a val e = change_mode a val e (get_mode e)

-- VK_LEFT, VK_UP, VK_RIGHT, VK_DOWN and the keys at the same places; ffarrint8_binfind of ffbase is
-- the parameter `find`.
abbrev pub vkeys : List ℕ
vkeys = 0x25 ∷ 0x26 ∷ 0x27 ∷ 0x28 ∷ []

abbrev pub ffkeys : List ℕ
ffkeys = 4 ∷ 1 ∷ 3 ∷ 2 ∷ []

abbrev pub index_in : List ℕ → ℕ → Option ℕ
index_in [] x = none
index_in (y ∷ l) x = if y == x then some 0 else Option.map suc (index_in l x)

abbrev pub arrow_word : Option ℕ → Option ℕ
arrow_word none = none
arrow_word (some i) = Option.map (bit_or key_virt) (get_elem? ffkeys i)

abbrev pub or_if : Bool → ℕ → ℕ → ℕ
or_if true flag r = bit_or r flag
or_if false flag r = r

-- RIGHT_ALT_PRESSED, LEFT_ALT_PRESSED, RIGHT_CTRL_PRESSED, LEFT_CTRL_PRESSED, SHIFT_PRESSED
abbrev pub with_modifiers : ℕ → ℕ → ℕ
with_modifiers ctl r = or_if (has_bit ctl 16) key_shift (
    or_if (has_bit ctl 4 || has_bit ctl 8) key_ctrl
      (or_if (has_bit ctl 1 || has_bit ctl 2) key_alt r))

-- `ffstd_keyparse` of a whole record; -1 as a 32-bit word is an error.
unfoldable pub keyparse : (List ℕ → ℕ → Option ℕ) → KeyEvent → ℕ
keyparse find k =
    if char_word k.ascii_char == 0
    then elim (arrow_word (find vkeys k.virtual_key)) [
      | none ↦ minus_one
      | some r ↦ with_modifiers k.control_state r
    ]
    else with_modifiers k.control_state (char_word k.ascii_char)
