-- ===== src/Environ/Expand.antt =====
-- `ffenv_expand` of FFOS/environ.h against the rule for variables in a text.
use ffos.Base.{
  ℕ, zero, suc, ◌-◌, ◌≡◌, ◌≤◌, refl, ap, sym, ◌∙◌, subst, Bool, true, false, Option, none, some,
  List, [], ◌∷◌, ◌++◌, length, take, ◌==◌, All, arith, length-append, length-take, append_assoc,
  append-nil, inl, inr, Bool-cases,
}
use ffos.Ffbase.{Str}
use ffos.Environ.{
  dollar, is_name, svar_next, text_part, or_empty, env_val, value_of, expand_loop, expand,
}
use ffos.Environ.Lookup.{IsValue, env_val-IsValue}
use ffos.Environ.Outside.{EnvLib, split_while, index_of, first}

-- No name goes on here.
abbrev pub IsEnd : Str → Type 0
IsEnd [] = Unit
IsEnd (b ∷ s) = is_name b ≡ false

-- What a name stands for: its value in the environment; a `$` without a name stands for nothing.
abbrev pub IsMeant : List Str → Str → Option Str → Type 0
IsMeant env [] o = o ≡ none
IsMeant env (b ∷ name) o = IsValue env (b ∷ name) o

-- What a text is expanded to: each byte but `$` to itself, `$` and the longest name behind it to the
-- value of that name, or to nothing.
pub data Expands (env : List Str) : Str → Str → Type 0 where
  ends : Expands env [] []
  byte : (b : ℕ) {s r : Str} → (b == dollar) ≡ false → Expands env s r → Expands env (b ∷ s) (b ∷ r)
  variable :
      (b : ℕ) (name : Str) (o : Option Str) {s r : Str}
      → (b == dollar) ≡ true
      → All (λ c. is_name c ≡ true) name
      → IsEnd s
      → IsMeant env name o
      → Expands env s r
      → Expands env (b ∷ (name ++ s)) (or_empty o ++ r)

bytes :
    {env : List Str} (c : Str) {s r : Str}
    → All (λ b. (b == dollar) ≡ false) c
    → Expands env s r
    → Expands env (c ++ s) (c ++ r)
bytes [] all x = x
bytes (b ∷ c) (n, all) x = byte b n (bytes c all x)

take-append : (n : ℕ) (xs ys : Str) → take n (xs ++ ys) ≡ take n xs ++ take (n - length xs) ys
take-append zero xs ys =
    let none_left : 0 - length xs ≡ 0 = omega arith in ap (λ m. take m ys) (sym none_left)
take-append (suc n) [] ys =
    let all_left : suc n - 0 ≡ suc n = omega arith in ap (λ m. take m ys) (sym all_left)
take-append (suc n) (x ∷ xs) ys =
    let same : n - length xs ≡ suc n - suc (length xs) = omega arith in
    ap (λ l. x ∷ l) (take-append n xs ys) ∙ ap (λ m. x ∷ (take n xs ++ take m ys)) same

take-nil : (n : ℕ) → take {A = ℕ} n [] ≡ []
take-nil zero = refl
take-nil (suc n) = refl

-- What does not fit is cut off once and for all.
take_more :
    (n : ℕ) (acc v : Str) → take n acc ++ take (n - length (take n acc)) v ≡ take n (acc ++ v)
take_more n acc v =
    let same : n - length (take n acc) ≡ n - length acc = omega (arith, length-take n acc) in
    ap (λ m. take n acc ++ take m v) same ∙ sym (take-append n acc v)

split_while_lem :
    (s : Str)
    → ((split_while is_name s).0 ++ (split_while is_name s).1 ≡ s)
      × All (λ b. is_name b ≡ true) (split_while is_name s).0
      × IsEnd (split_while is_name s).1
split_while_lem [] = (refl, tt, tt)
split_while_lem (b ∷ s) =
    let (e, all, end) = split_while_lem s in
    elim (Bool-cases (is_name b)) [
      | inl y ↦ rw y (ap (λ l. b ∷ l) e, (y, all), end)
      | inr n ↦ rw n (refl, tt, n)
    ]

-- A cut before the first `c`, if there is one.
cut :
    (s : Str) (c : ℕ)
    → ((text_part s (index_of s c)).0 ++ (text_part s (index_of s c)).1 ≡ s)
      × All (λ b. (b == c) ≡ false) (text_part s (index_of s c)).0
cut [] c = (refl, tt)
cut (b ∷ s) c = go (b == c) refl (index_of s c) (cut s c)
  where
    go :
        (here : Bool)
        → (b == c) ≡ here
        → (o : Option ℕ)
        → ((text_part s o).0 ++ (text_part s o).1 ≡ s)
          × All (λ b. (b == c) ≡ false) (text_part s o).0
        → ((text_part (b ∷ s) (first here o)).0 ++ (text_part (b ∷ s) (first here o)).1 ≡ b ∷ s)
          × All (λ b. (b == c) ≡ false) (text_part (b ∷ s) (first here o)).0
    go true e o ih = (refl, tt)
    go false e none (ih, all) = (ap (λ l. b ∷ l) ih, (e, all))
    go false e (some i) (ih, all) = (ap (λ l. b ∷ l) ih, (e, all))

cut_head :
    (b : ℕ) (s : Str) (o : Option ℕ) → (c : Str) × ((text_part (b ∷ s) (first false o)).0 ≡ b ∷ c)
cut_head b s none = (s, refl)
cut_head b s (some i) = (take i s, refl)

module _ (lib : EnvLib) where
  abbrev meant : List Str → Str → Option Str
  meant env [] = none
  meant env (c ∷ cs) = env_val lib env (c ∷ cs)

  meant-IsMeant : (env : List Str) (name : Str) → IsMeant env name (meant env name)
  meant-IsMeant env [] = refl
  meant-IsMeant env (c ∷ cs) = env_val-IsValue lib env (c ∷ cs)

  value_of-meant :
      (env : List Str) (b : ℕ) (name : Str)
      → (b == dollar) ≡ true
      → value_of lib env (b ∷ name) ≡ or_empty (meant env name)
  unfolding value_of
  value_of-meant env b [] y = rw y refl
  value_of-meant env b (c ∷ cs) y = rw y refl

  value_of-text :
      (env : List Str) (b : ℕ) (s : Str) → (b == dollar) ≡ false → value_of lib env (b ∷ s) ≡ b ∷ s
  unfolding value_of
  value_of-text env b s n = rw n refl

  -- What a round takes off is replaced by what it is expanded to.
  abbrev IsRound : List Str → Str → Str → Str → Type 0
  IsRound env s c rest = (r : Str) → Expands env rest r → Expands env s (value_of lib env c ++ r)

  variable-IsRound :
      (env : List Str) (b : ℕ) (s : Str)
      → (b == dollar) ≡ true
      → IsRound env (b ∷ s) (b ∷ (split_while is_name s).0) (split_while is_name s).1
  variable-IsRound env b s y r x =
      let name = (split_while is_name s).0 in
      let (e, all, end) = split_while_lem s in
      subst (λ v. Expands env (b ∷ s) (v ++ r)) (sym (value_of-meant env b name y))
        (subst (λ t. Expands env (b ∷ t) (or_empty (meant env name) ++ r)) e
          (variable b name (meant env name) y all end (meant-IsMeant env name) x))

  text-IsRound :
      (env : List Str) (s c rest : Str) (b : ℕ) (t : Str)
      → (b == dollar) ≡ false
      → c ≡ b ∷ t
      → c ++ rest ≡ s
      → All (λ b. (b == dollar) ≡ false) c
      → IsRound env s c rest
  text-IsRound env s c rest b t n head e all r x =
      let same : value_of lib env c ≡ c =
        ap (value_of lib env) head ∙ value_of-text env b t n ∙ sym head in
      subst (λ v. Expands env s (v ++ r)) (sym same)
        (subst (λ l. Expands env l (c ++ r)) e (bytes c all x))

  -- A round takes a chunk off, which is not empty.
  svar_next_lem :
      (env : List Str) (b : ℕ) (s : Str)
      → ((svar_next lib (b ∷ s)).0 ++ (svar_next lib (b ∷ s)).1 ≡ b ∷ s)
        × ((c : Str) × ((svar_next lib (b ∷ s)).0 ≡ b ∷ c))
        × IsRound env (b ∷ s) (svar_next lib (b ∷ s)).0 (svar_next lib (b ∷ s)).1
  unfolding svar_next
  svar_next_lem env b s = elim (Bool-cases (b == dollar)) [
    | inl y ↦
        let (e, _, _) = split_while_lem s in
        let name = (split_while is_name s).0 in
        let step = variable-IsRound env b s y in rw y (ap (λ l. b ∷ l) e, (name, refl), step)
    | inr n ↦
        let (e, all) = cut (b ∷ s) dollar in
        let at : index_of (b ∷ s) dollar ≡ first false (index_of s dollar) =
          ap (λ t. first t (index_of s dollar)) n in
        let (t, h) : (c : Str) × ((text_part (b ∷ s) (index_of (b ∷ s) dollar)).0 ≡ b ∷ c) =
          subst (λ o. (c : Str) × ((text_part (b ∷ s) o).0 ≡ b ∷ c)) (sym at)
            (cut_head b s (index_of s dollar)) in
        let step = text-IsRound env (b ∷ s) _ _ b t n h e all in
        rw (n, lib.find_char_lem (b ∷ s) dollar) (e, (t, h), step)
  ]

  svar_next-shorter : (b : ℕ) (s : Str) → length (svar_next lib (b ∷ s)).1 ≤ length s
  svar_next-shorter b s =
      let (e, (c, head), _) = svar_next_lem [] b s in
      let whole : length ((svar_next lib (b ∷ s)).0 ++ (svar_next lib (b ∷ s)).1) ≡ suc (length s) =
        ap length e in
      let part : length (svar_next lib (b ∷ s)).0 ≡ suc (length c) = ap length head in
      omega (arith, length-append (svar_next lib (b ∷ s)).0 (svar_next lib (b ∷ s)).1, whole, part)

  module _ (env : List Str) (size : ℕ) where
    -- The rounds append to what the buffer took so far the expansion of the rest of the text.
    expand_loop-Expands :
        (fuel : ℕ) (s acc : Str)
        → length s ≤ fuel
        → (r : Str) × Expands env s r
          × (expand_loop lib env size fuel s (take size acc) ≡ some (take size (acc ++ r)))
    unfolding expand_loop
    expand_loop-Expands fuel [] acc h =
        ([], ends, ap (λ l. some (take size l)) (sym (append-nil acc)))
    expand_loop-Expands zero (b ∷ s) acc h = absurd (omega arith)
    expand_loop-Expands (suc fuel) (b ∷ s) acc h =
        let rest = (svar_next lib (b ∷ s)).1 in
        let v = value_of lib env (svar_next lib (b ∷ s)).0 in
        let (_, _, step) = svar_next_lem env b s in
        let (r, x, e) =
          expand_loop-Expands fuel rest (acc ++ v) (omega (arith, svar_next-shorter b s)) in
        (
          v ++ r,
          step r x,
          ap (expand_loop lib env size fuel rest)
                (lib.add2_lem (take size acc) v size ∙ take_more size acc v)
              ∙ e
              ∙ ap (λ l. some (take size l)) (append_assoc acc v r),
        )

    -- `ffenv_expand` returns: of the expansion of the text, with a terminating zero behind it, there
    -- is in the buffer as much as it holds. In the expansion each byte but `$` stands for itself, and
    -- `$` with the longest name behind it for what the first entry of that name gives, or for nothing
    -- if there is no such entry or no name.
    pub expand-Expands :
        (src : Str)
        → (r : Str) × Expands env src r
          × (expand lib env size src ≡ some (take size (r ++ (0 ∷ []))))
    unfolding expand
    expand-Expands src =
        let (r, x, e) = expand_loop-Expands (length src) src [] (omega arith) in
        let loop : expand_loop lib env size (length src) src [] ≡ some (take size r) =
          ap (expand_loop lib env size (length src) src) (sym (take-nil size)) ∙ e in
        (
          r,
          x,
          rw (expand, loop)
              (ap some (lib.add2_lem (take size r) (0 ∷ []) size ∙ take_more size r (0 ∷ []))),
        )
