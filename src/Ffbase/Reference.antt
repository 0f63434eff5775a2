-- ===== src/Ffbase/Reference.antt =====
-- A string library that meets its documentation, for tests and witnesses.
use ffos.Base.{◌+◌, ◌≡◌, refl, true, [], ◌∷◌, ◌↔◌, take, drop, arith}
use ffos.Ffbase.{Str, StrLib, last_in, split_first, single, str_eq}

str_eq→≡ : (s t : Str) → str_eq s t ≡ true → s ≡ t
str_eq→≡ [] [] h = refl
str_eq→≡ [] (b ∷ t) h = cc
str_eq→≡ (a ∷ s) [] h = cc
str_eq→≡ (a ∷ s) (b ∷ t) h = ground (arith, str_eq→≡ s t)

str_eq_refl : (s : Str) → str_eq s s ≡ true
str_eq_refl [] = refl
str_eq_refl (a ∷ s) = ground (arith, str_eq_refl s)

pub str_eq_iff : (s t : Str) → (str_eq s t ≡ true) ↔ (s ≡ t)
str_eq_iff s t = (str_eq→≡ s t, λ e. rw e (str_eq_refl t))

abbrev pub reference : StrLib
reference = record {
  rfindany = λ s set. last_in set s;
  rfindchar = λ s c. last_in (single c) s;
  splitbyany = λ s set. split_first set s;
  eqz = str_eq;
  split = λ s i. (take i s, drop (i + 1) s);
  rfindany_lem = λ s set. refl;
  rfindchar_lem = λ s c. refl;
  splitbyany_lem = λ s set. refl;
  eqz_lem = str_eq_iff;
  split_lem = λ s i. refl;
}
