-- ===== src/Environ/Lookup.antt =====
-- What `_ffenv_val` of FFOS/environ.h finds: the value of a name in an environment, by its entries.
use ffos.Base.{
  ℕ, ◌≡◌, refl, sym, ap, ◌∙◌, true, false, Option, none, some, List, [], ◌∷◌, ◌++◌, length, take,
  drop, take-append-drop, ◌==◌, ◌⊎◌, inl, inr, Bool-cases, arith,
}
use Prim.{⊥}
use ffos.Ffbase.{Str}
use ffos.Ffbase.Reference.{str_eq_iff}
use ffos.Environ.{equals, entry_value, env_val}
use ffos.Environ.Outside.{EnvLib}

-- An entry that gives a key this value
abbrev pub Gives : Str → Str → Str → Type 0
Gives key e v = e ≡ key ++ (equals ∷ v)

-- The value of a key is that of the first entry that gives it one, or none.
abbrev pub IsValue : List Str → Str → Option Str → Type 0
IsValue [] key o = o ≡ none
IsValue (e ∷ env) key o =
    ((v : Str) × Gives key e v × (o ≡ some v))
    ⊎ (((v : Str) → Gives key e v → ⊥) × IsValue env key o)

abbrev first_byte : Str → ℕ
first_byte [] = 0
first_byte (b ∷ s) = b

take-key : (k t : Str) → take (length k) (k ++ t) ≡ k
take-key [] t = refl
take-key (b ∷ k) t = ap (λ s. b ∷ s) (take-key k t)

drop-key : (k t : Str) → drop (length k) (k ++ t) ≡ t
drop-key [] t = refl
drop-key (b ∷ k) t = drop-key k t

module _ (lib : EnvLib) where
  open lib use {match_start, match_start_lem}

  -- An entry that passes the test gives the value.
  match_start-Gives :
      (e key v : Str) → drop (length key) e ≡ equals ∷ v → match_start e key ≡ true → Gives key e v
  match_start-Gives e key v h y =
      let same : take (length key) e ≡ key =
        (str_eq_iff (take (length key) e) key).0 (sym (match_start_lem e key) ∙ y) in
      sym (take-append-drop (length key) e)
      ∙ ap (λ l. l ++ drop (length key) e) same
      ∙ ap (λ l. key ++ l) h

  -- An entry that gives a value passes the test.
  Gives-match_start : (e key v : Str) → Gives key e v → match_start e key ≡ true
  Gives-match_start e key v g =
      match_start_lem e key
      ∙ (str_eq_iff (take (length key) e) key).1
          (ap (λ l. take (length key) l) g ∙ take-key key (equals ∷ v))

  Gives-drop : (e key v : Str) → Gives key e v → drop (length key) e ≡ equals ∷ v
  Gives-drop e key v g = ap (λ l. drop (length key) l) g ∙ drop-key key (equals ∷ v)

  entry_value-IsValue :
      (e key d : Str) (env : List Str) (rest : Option Str)
      → drop (length key) e ≡ d
      → IsValue env key rest
      → IsValue (e ∷ env) key (entry_value lib e key d rest)
  entry_value-IsValue e key [] env rest h i =
      inr (λ v g. absurd (cc (sym h ∙ Gives-drop e key v g)), i)
  entry_value-IsValue e key (b ∷ v) env rest h i = elim (Bool-cases (b == equals)) [
    | inl y ↦ elim (Bool-cases (match_start e key)) [
      | inl z ↦
          let is : b ≡ equals = ground (arith, y) in
          rw (y, z) (inl (v, match_start-Gives e key v (h ∙ ap (λ c. c ∷ v) is) z, refl))
      | inr z ↦ rw (y, z) (inr (λ u g. absurd (cc (z, Gives-match_start e key u g)), i))
    ]
    | inr n ↦ elim (Bool-cases (match_start e key)) [
      | inl z ↦ rw (n, z) (inr (λ u g. not_equals n (sym h ∙ Gives-drop e key u g), i))
      | inr z ↦ rw (n, z) (inr (λ u g. absurd (cc (z, Gives-match_start e key u g)), i))
    ]
  ]
    where
      not_equals : {u : Str} → (b == equals) ≡ false → b ∷ v ≡ equals ∷ u → ⊥
      not_equals {u} n g = let is : b ≡ equals = ap first_byte g in absurd (ground (arith, n, is))

  -- `_ffenv_val` finds the value of a key, and none only where no entry gives it one.
  pub env_val-IsValue : (env : List Str) (key : Str) → IsValue env key (env_val lib env key)
  unfolding env_val
  env_val-IsValue [] key = refl
  env_val-IsValue (e ∷ env) key =
      entry_value-IsValue e key (drop (length key) e) env (env_val lib env key) refl
        (env_val-IsValue env key)
