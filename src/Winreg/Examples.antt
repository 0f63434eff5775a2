-- ===== src/Winreg/Examples.antt =====
-- Runs of the functions of FFOS/winreg.h, and the theorems at concrete inputs.
use ffos.Base.{
  ℕ, ◌≡◌, refl, Bool, true, false, none, some, List, [], ◌∷◌, ◌++◌, length, ltb, leb, if◌then◌else◌,
  arith,
}
use ffos.Base.Text.{codes}
use ffos.Ffbase.{Str}
use ffos.Winreg.Open.{key, KeySys}
use ffos.Winreg.Value.{
  reg_sz, bytes_of, got, more, value, need, RegSys, stored, read_loop, read, writestr,
}
use ffos.Winreg.Stored.{read-writestr}
use ffos.Winreg.Enum.{EnumSys, listed, enum_begin, list_keys, list_keys-enum_begin}

-- A registry where every key exists; the state is the list of open handles.
abbrev existing : KeySys (List ℕ)
existing = record {
  wide_path = λ s. some s;
  create_key = λ h p a e. (key 5 false, 5 ∷ e);
  open_key = λ h p a e. (key 5 false, 5 ∷ e);
  set_error = λ c e. e;
  handles = λ e. e;
  handles-set_error = λ c e. refl;
  handles-create_key = λ h p a e. refl;
  handles-open_key = λ h p a e. refl;
}

-- A registry of one value, the state: its type and its bytes
abbrev one_value : RegSys (ℕ × Str)
one_value = record {
  query = λ w n (ty, s). if ltb n (length s) then more ty (length s) else got ty s;
  set_value = λ w ty s e. (true, (ty, s));
  has_memory = λ n. true;
  wide_name = λ s. some s;
  measure = λ w. length w;
  to_utf8 = λ n w. if leb (length w) n then some w else none;
  to_utf16 = λ s. some s;
}

reads :
    (read one_value 2 (codes "n") none (3, codes "abc") ≡ some (value 3 (codes "abc")))
    × (read one_value 2 (codes "n") (some 2) (3, codes "abc") ≡ some (need 3 3))
    × (read one_value 2 (codes "n") (some 8) (1, bytes_of (codes "abc"))
        ≡ some (value 1 (codes "abc")))
unfolding read read_loop
reads = (refl, refl, refl)

read-writestr_example :
    (writestr one_value (codes "n") (codes "hi") (0, [])
      ≡ (stored, (1, bytes_of (codes "hi" ++ (0 ∷ [])))))
    × (read one_value 2 (codes "n") none (1, bytes_of (codes "hi" ++ (0 ∷ [])))
        ≡ some (value reg_sz (codes "hi")))
read-writestr_example =
    read-writestr one_value (codes "n") (codes "n") (codes "hi") (codes "hi") (0, [])
      (1, bytes_of (codes "hi" ++ (0 ∷ []))) refl refl refl (omega arith, (omega arith, tt))
      (omega arith) refl (λ n. refl) (λ n. refl)

abbrev subkeys : List (List ℕ)
subkeys = codes "one" ∷ codes "three" ∷ []

abbrev two_keys : EnumSys Bool
two_keys = record {
  enum_key = λ k i c e. listed subkeys i c;
  longest = λ k e. some 5;
  has_memory = λ n. true;
  set_error = λ c e. e;
  to_utf8 = λ n w. some w;
}

list_keys-enum_begin_example :
    list_keys two_keys 3 (enum_begin 4 (record { reg_key = 0; index = 9; name_cap = 4 })) true
    ≡ some subkeys
list_keys-enum_begin_example =
    list_keys-enum_begin two_keys 4 5 subkeys (λ w. w)
      (record { reg_key = 0; index = 9; name_cap = 4 }) true
      (record { enumerates = λ i c. refl; longest_is = refl; memory = λ m. refl })
      ((omega arith, refl), ((omega arith, refl), tt))
