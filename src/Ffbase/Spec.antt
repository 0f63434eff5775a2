-- ===== src/Ffbase/Spec.antt =====
-- Reference functions in which the documentation of ffbase's string functions is stated.
use ffos.Base.{
  All, ◌≡◌, ℕ, suc, Bool, true, false, ◌||◌, ◌&&◌, Option, none, some, List, [], ◌∷◌, ◌==◌,
  if◌then◌else◌,
}
use mathlib.Core.Option

abbrev pub Str : Type 0
Str = List ℕ

abbrev pub single : ℕ → Str
single c = c ∷ []

abbrev pub is_empty : Str → Bool
is_empty [] = true
is_empty (_ ∷ _) = false

-- Whether a byte is one of a set.
abbrev pub one_of : Str → ℕ → Bool
one_of [] c = false
one_of (d ∷ ds) c = (c == d) || one_of ds c

abbrev pub str_eq : Str → Str → Bool
str_eq [] [] = true
str_eq (a ∷ s) (b ∷ t) = (a == b) && str_eq s t
str_eq _ _ = false

-- The last byte, and all but the last.
abbrev pub last_of : Str → ℕ
last_of [] = 0
last_of (c ∷ []) = c
last_of (_ ∷ d ∷ s) = last_of (d ∷ s)

abbrev pub but_last : Str → Str
but_last [] = []
but_last (c ∷ []) = []
but_last (c ∷ d ∷ s) = c ∷ but_last (d ∷ s)

abbrev pub later : Bool → Option ℕ → Option ℕ
later here (some i) = some (suc i)
later true none = some 0
later false none = none

-- The offset of the last byte that is in the set.
abbrev pub last_in : Str → Str → Option ℕ
last_in set [] = none
last_in set (c ∷ s) = later (one_of set c) (last_in set s)

pub record Split : Type 0 where
  pub part : Str
  pub pos : Option ℕ
  pub rest : Str

abbrev pub push_part : ℕ → Split → Split
push_part c r = record { part = c ∷ r.part; pos = Option.map suc r.pos; rest = r.rest }

-- The text before the first byte of the set, that byte's offset, and the text behind it.
unfoldable pub split_first : Str → Str → Split
split_first set [] = record { part = []; pos = none; rest = [] }
split_first set (c ∷ s) =
    if one_of set c
    then record { part = []; pos = some 0; rest = s }
    else push_part c (split_first set s)

-- No byte of a text is in the set.
abbrev pub Free : Str → Str → Type 0
Free set s = All (λ b. one_of set b ≡ false) s
