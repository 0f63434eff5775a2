-- ===== src/Path/Normalize/Backslash.antt =====
-- FFPATH_FORCE_BACKSLASH of `ffpath_normalize` without FFPATH_SLASH_BACKSLASH on UNIX: the function
-- writes backslashes and then looks for slashes only, so a ".." takes off everything before it.
use native.Mathlib.Nat.{le_refl}
use ffos.Base.{
  ℕ, ◌+◌, ◌≤◌, ◌<◌, ◌≡◌, ◌≢◌, refl, ap, sym, ◌≡⟨◌⟩◌, ◌∎, Bool, true, false, none, some, [], ◌∷◌,
  ◌++◌, length, arith, length-append, append_assoc,
}
use ffos.Ffbase.{Str, StrLib, Free, one_of, single}
use ffos.Path.{unix, slash, backslash}
use ffos.Path.Normalize.{
  NormFlags, Config, config, Norm, settled, next, ok, one_dot, two_dots, after, entry, parent, emit,
  body, round, normalize,
}
use ffos.Path.Normalize.Tokens.{tokens, run, loop-eq-run}
use ffos.Path.Normalize.Simple.Buffer.{eqz-false, parent_bottom}

tokens-append :
    (set x : Str) (b : ℕ) (s : Str)
    → Free set x
    → one_of set b ≡ true
    → tokens set (x ++ (b ∷ s)) ≡ record { part = x; sep = some b } ∷ tokens set s
tokens-append set [] b s free e = rw e
tokens-append set (a ∷ x) b s free e = rw (free.0, tokens-append set x b s free.1 e)

abbrev pub forced : Bool → NormFlags
forced is_simple = record {
  slash_only = false;
  slash_backslash = false;
  force_slash = false;
  force_backslash = true;
  simple = is_simple;
  disk_letter = false;
  no_disk_letter = false;
}

-- A directory name.
abbrev pub IsDir : Str → Type 0
IsDir x = Free (single slash) x × (x ≢ []) × (x ≢ one_dot) × (x ≢ two_dots)

abbrev at : Bool → Str → Norm
at begun out = record { out = out; simplify = begun; skip_disk = false }

abbrev c : Bool → Config
c is_simple = record {
  slashes = single slash;
  simple = is_simple;
  disk = false;
  force_slash = false;
  force_backslash = true;
}

filled : (x : Str) → x ≢ [] → 1 ≤ length x
filled [] h = absurd (h refl)
filled (a ∷ x) h = omega arith

module _ (lib : StrLib) (size : ℕ) (is_simple : Bool) where
  name_round :
      (begun : Bool) (x out : Str)
      → IsDir x
      → length out + length x + 1 ≤ size
      → round lib (c is_simple) size x (some slash) (at begun out)
        ≡ next (at true (out ++ (x ++ single backslash)))
  unfolding round entry body emit
  name_round begun x out dir room =
      ground (arith, eqz-false lib x one_dot dir.2, eqz-false lib x two_dots dir.3, dir.1)

  Free-append :
      (x y : Str)
      → Free (single slash) x
      → Free (single slash) y
      → Free (single slash) (x ++ (backslash ∷ y))
  Free-append [] y hx hy = (refl, hy)
  Free-append (a ∷ x) y hx hy = (hx.0, Free-append x y hx.1 hy)

  -- The two names look like one, since the backslash between them is no separator.
  parent_joined :
      (x y : Str)
      → IsDir x
      → IsDir y
      → parent lib (c is_simple) ((x ++ single backslash) ++ (y ++ single backslash)) ≡ settled []
  parent_joined x y dx dy =
      let joined : Str = x ++ (backslash ∷ y) in
      let long : 2 < length joined =
        omega (arith, length-append x (backslash ∷ y), filled x dx.1, filled y dy.1) in
      parent lib (c is_simple) ((x ++ single backslash) ++ (y ++ single backslash))
      ≡⟨ ap (parent lib (c is_simple)) (append_assoc x (single backslash) (y ++ single backslash)) ⟩
        parent lib (c is_simple) (x ++ (backslash ∷ (y ++ single backslash)))
      ≡⟨ ap (parent lib (c is_simple)) (sym (append_assoc x (backslash ∷ y) (single backslash))) ⟩
        parent lib (c is_simple) (joined ++ single backslash)
      ≡⟨ parent_bottom lib (c is_simple) joined backslash (Free-append x y dx.0 dy.0)
          (λ e. absurd (omega (arith, long, ap length e)))
          (λ e. absurd (omega (arith, long, ap length e)))
          (λ e. absurd (omega (arith, long, ap length e))) ⟩
        settled [] ∎

  dots_round :
      (out : Str)
      → parent lib (c is_simple) out ≡ settled []
      → round lib (c is_simple) size two_dots none (at true out) ≡ next (at true [])
  unfolding round entry body
  dots_round out e =
      ground
        (arith, e, eqz-false lib two_dots one_dot (λ e. cc), (lib.eqz_lem two_dots two_dots).1 refl)

  run_forced :
      (x y : Str)
      → IsDir x
      → IsDir y
      → length x + length y + 4 ≤ size
      → run lib
          (c is_simple)
          size
          (record { part = x; sep = some slash }
            ∷ record { part = y; sep = some slash }
            ∷ record { part = two_dots; sep = none }
            ∷ [])
          (at is_simple [])
        ≡ ok []
  unfolding run after
  run_forced x y dx dy room = rw (
    name_round is_simple x [] dx (omega arith),
    name_round true y (x ++ single backslash) dy
        (omega (arith, length-append x (single backslash))),
    dots_round ((x ++ single backslash) ++ (y ++ single backslash)) (parent_joined x y dx dy),
  )

  -- With FFPATH_FORCE_BACKSLASH as the only flag on UNIX, or with FFPATH_SIMPLE also, for two directory
  -- names x and y and enough room "x/y/.." comes out empty, not as the directory "x".
  pub normalize-forced :
      (x y : Str)
      → IsDir x
      → IsDir y
      → length x + length y + 4 ≤ size
      → normalize lib unix size (x ++ (slash ∷ (y ++ (slash ∷ two_dots)))) (forced is_simple)
        ≡ ok []
  unfolding normalize config
  normalize-forced x y dx dy room =
      normalize lib unix size src (forced is_simple)
      ≡⟨ loop-eq-run lib (c is_simple) size (length src) src (at is_simple []) (le_refl _) ⟩
        run lib (c is_simple) size (tokens (single slash) src) (at is_simple [])
      ≡⟨ ap (λ ts. run lib (c is_simple) size ts (at is_simple []))
          (rw (
            tokens-append (single slash) x slash _ dx.0 refl,
            tokens-append (single slash) y slash two_dots dy.0 refl,
          )) ⟩
        run lib (c is_simple) size
          (record { part = x; sep = some slash }
            ∷ record { part = y; sep = some slash }
            ∷ record { part = two_dots; sep = none }
            ∷ [])
          (at is_simple [])
      ≡⟨ run_forced x y dx dy room ⟩ ok [] ∎
    where
      src : Str
      src = x ++ (slash ∷ (y ++ (slash ∷ two_dots)))
