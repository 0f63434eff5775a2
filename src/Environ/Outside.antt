-- ===== src/Environ/Outside.antt =====
-- What FFOS/environ.h calls of ffbase.
use ffos.Base.{
  ℕ, suc, ◌-◌, ◌≡◌, Bool, true, false, not, Option, none, some, [], ◌∷◌, ◌++◌, length, take, ◌==◌,
  if◌then◌else◌,
}
use ffos.Ffbase.{Str, str_eq}

-- The longest beginning of which all bytes pass a test, and the rest.
abbrev pub split_while : (ℕ → Bool) → Str → Str × Str
split_while p [] = ([], [])
split_while p (b ∷ s) = let (l, r) = split_while p s in if p b then (b ∷ l, r) else ([], b ∷ s)

abbrev pub first : Bool → Option ℕ → Option ℕ
first true o = some 0
first false none = none
first false (some i) = some (suc i)

-- The offset of the first byte that is `c`.
abbrev pub index_of : Str → ℕ → Option ℕ
index_of [] c = none
index_of (b ∷ s) c = first (b == c) (index_of s c)

pub record EnvLib : Type 0 where
  -- ffstr_findchar
  pub find_char : Str → ℕ → Option ℕ
  -- ffsz_match: whether a text begins with a key
  pub match_start : Str → Str → Bool
  -- ffstr_add2, ffstr_addchar: appends what fits into a buffer of so many bytes
  pub add2 : Str → ℕ → Str → Str
  -- ffstr_splitby: the part before the first dot
  pub split_dot : Str → Str
  pub find_char_lem : (s : Str) (c : ℕ) → find_char s c ≡ index_of s c
  pub match_start_lem : (s k : Str) → match_start s k ≡ str_eq (take (length k) s) k
  pub add2_lem : (out s : Str) (n : ℕ) → add2 out n s ≡ out ++ take (n - length out) s
  pub split_dot_lem : (s : Str) → split_dot s ≡ (split_while (λ b. not (b == 46)) s).0
