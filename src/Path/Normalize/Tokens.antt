-- ===== src/Path/Normalize/Tokens.antt =====
-- The input of `ffpath_normalize` as a list of tokens: a part, and the separator behind it, if any.
-- The loop is one pass over them, so what follows is proved by recursion on the tokens.
use mathlib.Core.Option
use mathlib.Core.Path.{fun_ext}
use ffos.Base.{
  ℕ, zero, suc, ◌≤◌, ◌≡◌, refl, ap, ◌≡⟨◌⟩◌, ◌∎, inl, inr, Option, none, some, List, [], ◌∷◌,
  if◌then◌else◌, length, Bool-cases, arith,
}
use ffos.Ffbase.{Str, StrLib, one_of, split_first}
use ffos.Path.Normalize.{Config, Norm, Outcome, ok, after, sep_at, round, loop}

pub record Token : Type 0 where
  pub part : Str
  pub sep : Option ℕ

abbrev pub push_token : ℕ → List Token → List Token
push_token b [] = record { part = b ∷ []; sep = none } ∷ []
push_token b (t ∷ ts) = record { part = b ∷ t.part; sep = t.sep } ∷ ts

abbrev pub tokens : Str → Str → List Token
tokens set [] = []
tokens set (b ∷ s) =
    if one_of set b
    then record { part = []; sep = some b } ∷ tokens set s
    else push_token b (tokens set s)

-- The token and the rest that one call of the splitter gives.
split_token : Str → Str → Token
split_token set s = record {
  part = (split_first set s).part;
  sep = sep_at s (split_first set s).pos;
}

sep_at-suc : (b : ℕ) (s : Str) (p : Option ℕ) → sep_at (b ∷ s) (Option.map suc p) ≡ sep_at s p
sep_at-suc b s none = refl
sep_at-suc b s (some i) = refl

tokens-split :
    (set s : Str) (b : ℕ)
    → tokens set (b ∷ s) ≡ split_token set (b ∷ s) ∷ tokens set (split_first set (b ∷ s)).rest
unfolding split_token split_first
tokens-split set [] b = elim (Bool-cases (one_of set b)) [ inl e ↦ rw e | inr e ↦ rw e ]
tokens-split set (d ∷ s) b = elim (Bool-cases (one_of set b)) [
  | inl e ↦ rw e
  | inr e ↦ rw (e, tokens-split set s d, sep_at-suc b (d ∷ s))
]

-- Each call of the splitter takes at least one byte.
length-rest : (set s : Str) (b : ℕ) → length (split_first set (b ∷ s)).rest ≤ length s
unfolding split_first
length-rest set [] b = elim (Bool-cases (one_of set b)) [
  | inl e ↦ rw e (omega arith)
  | inr e ↦ rw e (omega arith)
]
length-rest set (d ∷ s) b = elim (Bool-cases (one_of set b)) [
  | inl e ↦ rw e (omega arith)
  | inr e ↦ rw e (omega (arith, length-rest set s d))
]

module _ (lib : StrLib) where
  open lib use {splitbyany, splitbyany_lem}

  -- The loop over tokens.
  unfoldable pub run : Config → ℕ → List Token → Norm → Outcome
  run c size [] n = ok n.out
  run c size (t ∷ ts) n = after (round lib c size t.part t.sep n) (run c size ts)

  -- With the input's length for fuel the loop is the pass over the tokens.
  pub loop-eq-run :
      (c : Config) (size fuel : ℕ) (s : Str) (n : Norm)
      → length s ≤ fuel
      → loop lib c size fuel s n ≡ run c size (tokens c.slashes s) n
  unfolding loop run split_token
  loop-eq-run c size fuel [] n h = refl
  loop-eq-run c size zero (b ∷ s) n h = absurd (omega arith)
  loop-eq-run c size (suc fuel) (b ∷ s) n h =
      let t = split_first c.slashes (b ∷ s) in
      let fits : length t.rest ≤ fuel = omega (arith, length-rest c.slashes s b) in
      loop lib c size (suc fuel) (b ∷ s) n
      ≡⟨ (rw (splitbyany_lem (b ∷ s) c.slashes)) ⟩
        after (round lib c size t.part (sep_at (b ∷ s) t.pos) n) (loop lib c size fuel t.rest)
      ≡⟨ ap (after (round lib c size t.part (sep_at (b ∷ s) t.pos) n))
          (fun_ext (λ n'. loop-eq-run c size fuel t.rest n' fits)) ⟩
        after (round lib c size t.part (sep_at (b ∷ s) t.pos) n)
          (run c size (tokens c.slashes t.rest))
      ≡⟨ (rw tokens-split) ⟩ run c size (tokens c.slashes (b ∷ s)) n ∎
