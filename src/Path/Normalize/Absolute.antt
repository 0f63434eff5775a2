-- ===== src/Path/Normalize/Absolute.antt =====
-- Without FFPATH_SIMPLE an absolute path stays absolute: no ".." goes above the root.
use native.Mathlib.Nat.{le_refl}
use native.Mathlib.Numerals.{add-one}
use ffos.Base.{
  ℕ, suc, ◌+◌, ◌≡◌, refl, sym, subst, ◌∙◌, true, false, inl, inr, Option, none, some, List, [], ◌∷◌,
  ◌++◌, if◌then◌else◌, length, take, drop, Bool-cases, arith, ltb,
}
use ffos.Ffbase.{Str, StrLib, one_of, but_last, last_in, later}
use ffos.Path.{Os}
use ffos.Path.Normalize.{
  NormFlags, Config, config, initial, Norm, Entry, skipped, kept, Parent, settled, written, Round,
  next, full, Outcome, ok, sep_byte, sep_of, one_dot, two_dots, after, entry, parent, parent_of,
  emit, body, round, normalize,
}
use ffos.Path.Normalize.Simple.Buffer.{eqz-false}
use ffos.Path.Normalize.Simple.Names.{SeesOwn, config-HasSlash, sep_of-in}
use ffos.Path.Normalize.Tokens.{Token, tokens, run, loop-eq-run}

-- The text begins with the byte `a`.
abbrev pub Starts : ℕ → Str → Type 0
Starts a [] = ⊥
Starts a (b ∷ s) = b ≡ a

abbrev RoundStarts : ℕ → Round → Type 0
RoundStarts a (next n) = Starts a n.out
RoundStarts a full = Unit

abbrev ParentStarts : ℕ → Parent → Type 0
ParentStarts a (settled out) = Starts a out
ParentStarts a (written out) = Starts a out

Starts-append : (a : ℕ) (s t : Str) → Starts a s → Starts a (s ++ t)
Starts-append a [] t h = absurd h
Starts-append a (b ∷ s) t h = h

later-some : (o : Option ℕ) → (i : ℕ) × (later true o ≡ some i)
later-some none = (0, refl)
later-some (some i) = (suc i, refl)

entry_out : Entry → Str
entry_out (skipped n) = n.out
entry_out (kept n) = n.out

entry_out-entry : (lib : StrLib) (part : Str) (n : Norm) → entry_out (entry lib part n) ≡ n.out
unfolding entry_out entry
entry_out-entry lib part n = ground arith

module _ (lib : StrLib) (c : Config) (a : ℕ) (here : one_of c.slashes a ≡ true) where
  lone : (x : ℕ) → parent_of lib c (x ∷ []) ≡ settled (x ∷ [])
  unfolding parent_of
  lone x = rw (
    parent_of,
    lib.rfindany_lem [] c.slashes,
    eqz-false lib [] one_dot (λ e. cc),
    eqz-false lib [] two_dots (λ e. cc),
  )

  longer :
      (x y : ℕ) (s : Str)
      → x ≡ a
      → (i : ℕ) × (parent_of lib c (x ∷ y ∷ s) ≡ (
          if lib.eqz (drop i (but_last (y ∷ s))) two_dots
          then written (x ∷ y ∷ s)
          else settled (x ∷ take i (y ∷ s))))
  unfolding parent_of
  longer x y s h =
      let (i, e) = later-some (last_in c.slashes (but_last (y ∷ s))) in
      let at : last_in c.slashes (x ∷ but_last (y ∷ s)) ≡ some i = rw (h, here) e in
      (i, rw (parent_of, lib.rfindany_lem (x ∷ but_last (y ∷ s)) c.slashes, at, add-one i))

  parent_of-Starts : (out : Str) → Starts a out → ParentStarts a (parent_of lib c out)
  parent_of-Starts [] h = absurd h
  parent_of-Starts (x ∷ []) h = rw (lone x) h
  parent_of-Starts (x ∷ y ∷ s) h =
      let (i, e) = longer x y s h in
      rw e (elim (Bool-cases (lib.eqz (drop i (but_last (y ∷ s))) two_dots)) [
        | inl d ↦ rw d h
        | inr d ↦ rw d h
      ])

  parent-Starts : (out : Str) → Starts a out → ParentStarts a (parent lib c out)
  unfolding parent
  parent-Starts [] h = absurd h
  parent-Starts (x ∷ s) h = parent_of-Starts (x ∷ s) h

  module _ (size : ℕ) (part : Str) (sep : Option ℕ) where
    emit-Starts : (n : Norm) → Starts a n.out → RoundStarts a (emit lib c size part sep n)
    unfolding emit
    emit-Starts n h =
        elim (Bool-cases (ltb size (length n.out + length part + length (sep_byte c sep)))) [
          | inl d ↦ rw d tt
          | inr d ↦ rw d (Starts-append a n.out _ h)
        ]

    follow : Norm → Parent → Round
    follow n p = elim p [
      | settled out ↦ next (record n { out = out })
      | written out ↦ emit lib c size part sep (record n { out = out })
    ]

    follow-Starts : (n : Norm) (p : Parent) → ParentStarts a p → RoundStarts a (follow n p)
    unfolding follow
    follow-Starts n (settled out) h = h
    follow-Starts n (written out) h = emit-Starts (record n { out = out }) h

    body-Starts : (n : Norm) → Starts a n.out → RoundStarts a (body lib c size part sep n)
    unfolding body follow
    body-Starts n h = elim (Bool-cases (lib.eqz part two_dots)) [
      | inl d ↦ rw d (follow-Starts n (parent lib c n.out) (parent-Starts n.out h))
      | inr d ↦ rw d (emit-Starts n h)
    ]

    resume : Entry → Round
    resume e = elim e [ skipped n' ↦ next n' | kept n' ↦ body lib c size part sep n' ]

    resume-Starts :
        (e : Entry) (out : Str) → Starts a out → entry_out e ≡ out → RoundStarts a (resume e)
    unfolding resume entry_out
    resume-Starts (skipped n') out h k = rw k h
    resume-Starts (kept n') out h k = body-Starts n' (rw k h)

    round-Starts : (n : Norm) → Starts a n.out → RoundStarts a (round lib c size part sep n)
    unfolding round resume
    round-Starts n h = resume-Starts (entry lib part n) n.out h (entry_out-entry lib part n)

-- What a run gives from a buffer that begins with `a`.
OutcomeStarts : ℕ → Outcome → Type 0
OutcomeStarts a (ok out) = Starts a out
OutcomeStarts a _ = Unit

module _ (lib : StrLib) (c : Config) (a : ℕ) (here : one_of c.slashes a ≡ true) (size : ℕ) where
  after-Starts :
      (ts : List Token) (r : Round)
      → RoundStarts a r
      → ((n : Norm) → Starts a n.out → OutcomeStarts a (run lib c size ts n))
      → OutcomeStarts a (after r (run lib c size ts))
  unfolding after OutcomeStarts
  after-Starts ts (next n) h rest = rest n h
  after-Starts ts full h rest = tt

  run-Starts : (ts : List Token) (n : Norm) → Starts a n.out → OutcomeStarts a (run lib c size ts n)
  unfolding run OutcomeStarts
  run-Starts [] n h = h
  run-Starts (t ∷ ts) n h =
      after-Starts ts (round lib c size t.part t.sep n)
        (round-Starts lib c a here size t.part t.sep n h) (run-Starts ts)

  -- The first round writes the separator and nothing else.
  first_round :
      (b : ℕ)
      → c.simple ≡ false
      → sep_of c b ≡ a
      → RoundStarts a (round lib c size [] (some b) (initial c))
  unfolding round entry body emit
  first_round b simple e =
      rw (simple, eqz-false lib [] two_dots (λ e. cc))
        (elim (Bool-cases (ltb size 1)) [ inl d ↦ rw d tt | inr d ↦ rw d e ])

module _ (lib : StrLib) (os : Os) (size : ℕ) (b : ℕ) (rest : Str) (f : NormFlags) where
  -- A path that begins with a separator is normalised to one that begins with a separator, if
  -- FFPATH_SIMPLE is not given and the function looks for the separators that it writes.
  pub normalize_absolute :
      (out : Str)
      → f.simple ≡ false
      → SeesOwn (config os f)
      → one_of (config os f).slashes b ≡ true
      → normalize lib os size (b ∷ rest) f ≡ ok out
      → Starts (sep_of (config os f) b) out
  unfolding normalize run OutcomeStarts
  normalize_absolute out simple sees lead e = subst (OutcomeStarts (sep_of c b)) (sym passes ∙ e) (
      rw lead (
        after-Starts lib c (sep_of c b) sep_in size (tokens c.slashes rest)
          (round lib c size [] (some b) (initial c))
          (first_round lib c (sep_of c b) sep_in size b simple refl)
          (run-Starts lib c (sep_of c b) sep_in size (tokens c.slashes rest))))
    where
      c : Config
      c = config os f

      sep_in : one_of c.slashes (sep_of c b) ≡ true
      sep_in = sep_of-in c sees (config-HasSlash os f) b lead

      passes :
          normalize lib os size (b ∷ rest) f
          ≡ run lib c size (tokens c.slashes (b ∷ rest)) (initial c)
      passes = loop-eq-run lib c size (length (b ∷ rest)) (b ∷ rest) (initial c) (le_refl _)
