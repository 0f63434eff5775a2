-- ===== src/Std/Examples.antt =====
-- Runs of the functions of FFOS/std.h, and the theorems at concrete inputs.
use ffos.Base.{ℕ, ◌+◌, ◌≡◌, refl, Bool, true, false, some, List, [], ◌∷◌, ◌++◌, arith}
use ffos.Base.Text.{codes}
use ffos.Std.{minus_one, key_up, key_shift}
use ffos.Std.Unix.{TermSys}
use ffos.Std.Console.{KeyEvent, InputRecord, EvState, StdEv, KeyRead, ConsoleSys, keyread}
use ffos.Std.Unix
use ffos.Std.Decode.{Arrow, sent, code_of, keyparse-sent}
use ffos.Std.Events.{pending, keyread-loads}

keys :
    (Unix.keyparse (27 ∷ 91 ∷ 66 ∷ codes "x") ≡ some (key_up + 1, codes "x"))
    × (Unix.keyparse (27 ∷ 91 ∷ 49 ∷ 59 ∷ 50 ∷ 65 ∷ []) ≡ some (key_up + key_shift, []))
    × (Unix.keyparse (codes "ab") ≡ some (97, codes "b"))
    × (Unix.keyparse (27 ∷ 91 ∷ 49 ∷ []) ≡ some (minus_one, 27 ∷ 91 ∷ 49 ∷ []))
unfolding Unix.keyparse
keys = (refl, refl, refl, refl)

-- The last byte of a text may be 255, which is returned as an error is.
last_byte : Unix.keyparse (255 ∷ []) ≡ some (minus_one, [])
unfolding Unix.keyparse
last_byte = refl

keyparse-sent_example :
    Unix.keyparse (sent Arrow.left (true, false, true) ++ codes "y")
    ≡ some (code_of Arrow.left (true, false, true), codes "y")
keyparse-sent_example = keyparse-sent Arrow.left (true, false, true) (codes "y")

abbrev press : ℕ → KeyEvent
press c = record { key_down = true; virtual_key = 0; ascii_char = c; control_state = 0 }

-- A console with one batch of records; the state is whether it has been read.
abbrev batch : List InputRecord
batch = InputRecord.other ∷ InputRecord.key (press 97) ∷ InputRecord.key (press 98) ∷ []

abbrev console : ConsoleSys Bool
console = record {
  count_events = λ b. (some (elim b [ true ↦ 0 | false ↦ 3 ]), b);
  read_input = λ n b. (some batch, true);
  get_mode = λ b. some 7;
  set_mode = λ m b. (true, b);
}

abbrev fresh : StdEv
fresh = record { state = EvState.empty; records = []; irec = 0 }

keyread-loads_example :
    (n : ℕ) × (ev' : StdEv) × (keyread console n fresh false
      ≡ some (KeyRead.pressed (press 97), ev', true))
    × (pending ev' ≡ InputRecord.key (press 98) ∷ [])
keyread-loads_example =
    keyread-loads console fresh 2 InputRecord.other
      (InputRecord.key (press 97) ∷ InputRecord.key (press 98) ∷ [])
      (InputRecord.key (press 98) ∷ []) (press 97) false false true (omega arith) refl refl refl
      refl

abbrev terminal : TermSys (ℕ × ℕ × ℕ)
terminal = record {
  read = λ n e. (some [], e);
  again = λ e. false;
  set_error = λ c e. e;
  is_char_device = λ e. true;
  get_attr = λ e. some e;
  set_attr = λ t e. t;
}
