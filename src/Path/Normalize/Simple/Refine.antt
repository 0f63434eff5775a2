-- ===== src/Path/Normalize/Simple/Refine.antt =====
-- `ffpath_normalize` with FFPATH_SIMPLE computes the stack of names of `Simple`.
use native.Mathlib.Nat.{le_refl}
use ffos.Base.{
  All, ℕ, ◌+◌, ◌≤◌, ◌≡◌, refl, ap, sym, ◌≡⟨◌⟩◌, ◌∎, true, ◌&&◌, inl, inr, List, [], ◌∷◌, ◌++◌,
  length, Bool-cases, Option-cases, arith, ◌==◌, append_assoc,
}
use ffos.Ffbase.{Str, StrLib, one_of, last_of, single}
use ffos.Path.{Os, colon}
use ffos.Path.Normalize.{
  NormFlags, Config, config, initial, Norm, settled, next, ok, one_dot, two_dots, after, entry,
  parent, emit, body, round, normalize,
}
use ffos.Path.Normalize.Tokens.{Token, tokens, run, loop-eq-run}
use ffos.Path.Normalize.Bounds.{
  sep_length, weight, weight-tokens, length-sep_byte, Leaves, round-Leaves,
}
use ffos.Path.Normalize.Simple.{Name, render, pop, Stack, simple_step, simple_names}
use ffos.Path.Normalize.Simple.Buffer.{eqz-eq-str_eq, parent-nil, parent_bottom, parent_above}
use ffos.Path.Normalize.Simple.Names.{
  IsName, Good, Good-tokens, SeesOwn, HasSlash, config-HasSlash, names_step, names_in, IsSafe,
  simple_names-IsSafe,
}

-- The loop's variables that stand for a stack.
abbrev pub norm_of : Stack → Norm
norm_of st = record { out = render st.names; simplify = true; skip_disk = st.first }

module _ (lib : StrLib) (c : Config) (simple : c.simple ≡ true) where
  -- `..` in the buffer is `pop` on the stack.
  parent-render :
      (ms : List Name) → All (IsName c) ms → parent lib c (render ms) ≡ settled (render (pop c ms))
  parent-render [] h = parent-nil lib c simple
  parent-render (m ∷ []) h =
      rw
        (
          h.0.sep_is,
          parent_bottom lib c m.text h.0.byte h.0.free h.0.plain.not_empty h.0.plain.not_dot
              h.0.plain.not_dots,
        )
        (elim (Bool-cases (c.disk && (last_of m.text == colon))) [ inl e ↦ rw e | inr e ↦ rw e ])
  parent-render (m ∷ m' ∷ ms) (h, (h', hs)) =
      rw (h.sep_is, h'.sep_is)
        (parent lib c ((render ms ++ (m'.text ++ single h'.byte)) ++ (m.text ++ single h.byte))
          ≡⟨ ap (λ s. parent lib c (s ++ (m.text ++ single h.byte))) (sym assoc) ⟩
            parent lib c ((xs ++ single h'.byte) ++ (m.text ++ single h.byte))
          ≡⟨ ap (parent lib c) (append_assoc xs (single h'.byte) (m.text ++ single h.byte)) ⟩
            parent lib c (xs ++ (h'.byte ∷ (m.text ++ single h.byte)))
          ≡⟨ parent_above lib c xs h'.byte m.text h.byte h'.sep_in h.free h.plain.not_dots ⟩
            settled (xs ++ single h'.byte)
          ≡⟨ ap settled assoc ⟩ settled (render ms ++ (m'.text ++ single h'.byte)) ∎)
    where
      xs : Str
      xs = render ms ++ m'.text

      assoc : xs ++ single h'.byte ≡ render ms ++ (m'.text ++ single h'.byte)
      assoc = append_assoc (render ms) m'.text (single h'.byte)

  -- One round of the loop is one step on the stack.
  round-norm_of :
      (size : ℕ) (t : Token) (st : Stack)
      → All (IsName c) st.names
      → length (render st.names) + length t.part + sep_length t.sep ≤ size
      → round lib c size t.part t.sep (norm_of st) ≡ next (norm_of (simple_step c st t))
  unfolding round entry body emit simple_step
  round-norm_of size t st names room = ground (
    arith,
    eqz-eq-str_eq lib t.part one_dot,
    eqz-eq-str_eq lib t.part two_dots,
    parent-render st.names names,
    length-sep_byte c t.sep,
  )

module _ (lib : StrLib) (c : Config) (size : ℕ) (simple : c.simple ≡ true) (sees : SeesOwn c)
    (has : HasSlash c) where
  step_room :
      (t : Token) (st : Stack)
      → All (IsName c) st.names
      → (w : ℕ) → length (render st.names) + (length t.part + sep_length t.sep + w) ≤ size
      → length (render (simple_step c st t).names) + w ≤ size
  step_room t st names w room =
      let moved : Leaves size (length (render st.names) + length t.part + sep_length t.sep)
          (next (norm_of (simple_step c st t))) =
        rw (round-norm_of lib c simple size t st names (omega arith)) at (
          round-Leaves lib c size t.part t.sep (norm_of st)
            (length (render st.names) + length t.part + sep_length t.sep) (omega arith)
            (omega arith)) in
      omega (arith, moved.0)

  run-simple_names :
      (ts : List Token) (st : Stack)
      → All (IsName c) st.names
      → Good c.slashes ts
      → length (render st.names) + weight ts ≤ size
      → run lib c size ts (norm_of st) ≡ ok (render (simple_names c st ts))
  unfolding run simple_names after
  run-simple_names [] st names good room = refl
  run-simple_names (t ∷ ts) st names good room =
      rw (round-norm_of lib c simple size t st names (omega arith)) (elim (Option-cases t.sep) [
        | inl e ↦ let last : ts ≡ [] = rw e at good.1 in rw last refl
        | inr (b, e) ↦
            let here : one_of c.slashes b ≡ true = rw e at good.1 in
            run-simple_names ts (simple_step c st t)
              (names_step c sees has t b st good.0 e here names) good.2
              (step_room t st names (weight ts) (omega arith))
      ])

module _ (lib : StrLib) (os : Os) (size : ℕ) (src : Str) (f : NormFlags) where
  -- With FFPATH_SIMPLE, enough room, and separators that the function looks for itself, the result
  -- is the stack of names that the path stands for.
  pub normalize_simple :
      f.simple ≡ true
      → SeesOwn (config os f)
      → length src ≤ size
      → normalize lib os size src f ≡ ok (render (names_in os f src))
  unfolding normalize names_in config
  normalize_simple simple sees room =
      normalize lib os size src f
      ≡⟨ loop-eq-run lib c size (length src) src (initial c) (le_refl _) ⟩
        run lib c size (tokens c.slashes src) (initial c)
      ≡⟨ ap (run lib c size (tokens c.slashes src)) start ⟩
        run lib c size (tokens c.slashes src) (norm_of (record { first = c.disk; names = [] }))
      ≡⟨ run-simple_names lib c size simple sees (config-HasSlash os f) (tokens c.slashes src) _ tt
          (Good-tokens c.slashes src) (omega (arith, weight-tokens c.slashes src)) ⟩
        ok (render (names_in os f src)) ∎
    where
      c : Config
      c = config os f

      start : initial c ≡ norm_of (record { first = c.disk; names = [] })
      start = ground arith

  -- With FFPATH_SIMPLE, enough room, and separators that the function looks for itself, the result
  -- is made of names that are not empty, not "." and not "..", and that hold no separator, with exactly
  -- one separator behind each but the last, which may have none.
  pub normalize-IsSafe :
      f.simple ≡ true
      → SeesOwn (config os f)
      → length src ≤ size
      → (ms : List Name) × (normalize lib os size src f ≡ ok (render ms)) × IsSafe (config os f) ms
  normalize-IsSafe simple sees room = (
    names_in os f src,
    normalize_simple simple sees room,
    unfold names_in in
        simple_names-IsSafe (config os f) sees (config-HasSlash os f)
          (tokens (config os f).slashes src) _ (Good-tokens _ src) tt,
  )
