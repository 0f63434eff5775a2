-- ===== src/Environ.antt =====
-- The UNIX part of FFOS/environ.h: variables of the environment and their expansion in a text.
-- Texts hold no zero byte; the environment is the list of its entries, "NAME=value". The functions
-- of ffbase are the parameter `EnvLib`.
pub mod Outside
pub mod Lookup
pub mod Expand
pub mod Examples
use ffos.Base.{
  ℕ, zero, suc, ◌+◌, ◌≡◌, Bool, true, false, ◌&&◌, ◌||◌, Option, none, some, List, [], ◌∷◌, ◌++◌,
  length, take, drop, leb, ◌==◌, if◌then◌else◌, min,
}
use ffos.Ffbase.{Str, Split}
use Outside.{EnvLib, split_while}

abbrev pub dollar : ℕ
dollar = 36

abbrev pub equals : ℕ
equals = 61

-- The bytes of a name: a-z, A-Z, 0-9 and _
abbrev pub is_name : ℕ → Bool
is_name b = (leb 97 b && leb b 122) || (leb 65 b && leb b 90) || (leb 48 b && leb b 57) || (b == 95)

abbrev pub text_part : Str → Option ℕ → Str × Str
text_part s none = (s, [])
text_part s (some i) = (take i s, drop i s)

abbrev pub or_empty : Option Str → Str
or_empty none = []
or_empty (some v) = v

module _ (lib : EnvLib) where
  open lib use {find_char, match_start, add2, split_dot}

  -- `_ffsvar_next`: the next chunk of text, or `$` with the name behind it; and what is left.
  unfoldable pub svar_next : Str → Str × Str
  svar_next [] = ([], [])
  svar_next (b ∷ s) =
      let (name, rest) = split_while is_name s in
      if b == dollar then (b ∷ name, rest) else text_part (b ∷ s) (find_char (b ∷ s) dollar)

  -- An entry's value, if its name is the key: what stands behind the length of the key begins with `=`.
  abbrev pub entry_value : Str → Str → Str → Option Str → Option Str
  entry_value e key [] rest = rest
  entry_value e key (b ∷ v) rest = if match_start e key && (b == equals) then some v else rest

  -- `_ffenv_val`: the value of the first entry of that name.
  unfoldable pub env_val : List Str → Str → Option Str
  env_val [] key = none
  env_val (e ∷ env) key = entry_value e key (drop (length key) e) (env_val env key)

  -- What a chunk is replaced by.
  unfoldable pub value_of : List Str → Str → Str
  value_of env [] = []
  value_of env (b ∷ name) = if b == dollar then value_of_name name else b ∷ name
    where
      value_of_name : Str → Str
      value_of_name [] = []
      value_of_name (c ∷ cs) = or_empty (env_val env (c ∷ cs))

  -- The loop of `ffenv_expand` into a buffer of `size` bytes; `none` if the model's fuel is used up.
  unfoldable pub expand_loop : List Str → ℕ → ℕ → Str → Str → Option Str
  expand_loop env size fuel [] out = some out
  expand_loop env size zero (b ∷ s) out = none
  expand_loop env size (suc fuel) (b ∷ s) out =
      let (chunk, rest) = svar_next (b ∷ s) in
      expand_loop env size fuel rest (add2 out size (value_of env chunk))

  -- `ffenv_expand` with a buffer that the caller gives: the bytes written.
  unfoldable pub expand : List Str → ℕ → Str → Option Str
  expand env size src = elim (expand_loop env size (length src) src []) [
    | none ↦ none
    | some out ↦ some (add2 out size (0 ∷ []))
  ]

  -- `ffenv_locale` of FFENV_LANGUAGE with a buffer.
  unfoldable pub locale : List Str → ℕ → Option Str
  locale env size = elim (env_val env (76 ∷ 65 ∷ 78 ∷ 71 ∷ [])) [
    | none ↦ none
    | some v ↦ some (take (min (length (split_dot v)) size) (split_dot v))
  ]
