-- ===== src/Path/Normalize/Bounds.antt =====
-- `ffpath_normalize` writes inside its buffer, ends, and needs no more room than its input takes.
use native.Mathlib.Nat.{le_refl}
use ffos.Base.{
  ℕ, suc, ◌+◌, ◌≤◌, ◌<◌, ◌≡◌, refl, true, false, inl, inr, Option, none, some, List, [], ◌∷◌, ◌++◌,
  length, Bool-cases, arith, length-append, length-take,
}
use ffos.Ffbase.{Str, StrLib, one_of}
use ffos.Path.{Os}
use ffos.Path.Normalize.{
  NormFlags, two_dots, Config, config, initial, Norm, Parent, settled, written, Round, next, full,
  Outcome, ok, too_small, sep_byte, after, entry, parent, parent_of, emit, body, round, normalize,
}
use ffos.Path.Normalize.Tokens.{Token, push_token, tokens, run, loop-eq-run}

abbrev pub sep_length : Option ℕ → ℕ
sep_length none = 0
sep_length (some _) = 1

abbrev pub weight : List Token → ℕ
weight [] = 0
weight (t ∷ ts) = length t.part + sep_length t.sep + weight ts

weight-push_token : (b : ℕ) (ts : List Token) → weight (push_token b ts) ≡ suc (weight ts)
weight-push_token b [] = omega arith
weight-push_token b (t ∷ ts) = omega arith

-- The tokens are as long together as the input.
pub weight-tokens : (set s : Str) → weight (tokens set s) ≡ length s
weight-tokens set [] = refl
weight-tokens set (b ∷ s) = elim (Bool-cases (one_of set b)) [
  | inl e ↦ rw e (omega (arith, weight-tokens set s))
  | inr e ↦ rw e (omega (arith, weight-push_token b (tokens set s), weight-tokens set s))
]

pub length-sep_byte : (c : Config) (sep : Option ℕ) → length (sep_byte c sep) ≡ sep_length sep
length-sep_byte c none = refl
length-sep_byte c (some b) = refl

-- A round that goes on leaves at most `m` bytes, inside the buffer; one that ends the loop had no
-- room for them.
abbrev pub Leaves : ℕ → ℕ → Round → Type 0
Leaves size m (next n) = (length n.out ≤ m) × (length n.out ≤ size)
Leaves size m full = size < m

abbrev kept_of : Parent → Str
kept_of (settled out) = out
kept_of (written out) = out

module _ (lib : StrLib) (c : Config) (size : ℕ) where
  parent-le : (out : Str) → length (kept_of (parent lib c out)) ≤ length out
  unfolding parent parent_of
  parent-le out = grind (arith, length-take)

  emit-Leaves :
      (part : Str) (sep : Option ℕ) (n : Norm) (m : ℕ)
      → length n.out + length part + sep_length sep ≤ m
      → Leaves size m (emit lib c size part sep n)
  unfolding emit
  emit-Leaves part sep n m h = ground (
    arith,
    length-sep_byte c sep,
    length-append n.out (part ++ sep_byte c sep),
    length-append part (sep_byte c sep),
  )

  module _ (part : Str) (sep : Option ℕ) where
    abbrev after_parent : Norm → Parent → Round
    after_parent n p = elim p [
      | settled out ↦ next (record n { out = out })
      | written out ↦ emit lib c size part sep (record n { out = out })
    ]

    after_parent-Leaves :
        (n : Norm) (p : Parent) (m : ℕ)
        → length n.out + length part + sep_length sep ≤ m
        → length (kept_of p) ≤ length n.out
        → length n.out ≤ size
        → Leaves size m (after_parent n p)
    after_parent-Leaves n (settled out) m h k b = (omega arith, omega arith)
    after_parent-Leaves n (written out) m h k b =
        emit-Leaves part sep (record n { out = out }) m (omega arith)

    body-Leaves :
        (n : Norm) (m : ℕ)
        → length n.out + length part + sep_length sep ≤ m
        → length n.out ≤ size
        → Leaves size m (body lib c size part sep n)
    unfolding body
    body-Leaves n m h b = elim (Bool-cases (lib.eqz part two_dots)) [
      | inl e ↦ rw e (after_parent-Leaves n (parent lib c n.out) m h (parent-le n.out) b)
      | inr e ↦ rw e (emit-Leaves part sep n m h)
    ]

    pub round-Leaves :
        (n : Norm) (m : ℕ)
        → length n.out + length part + sep_length sep ≤ m
        → length n.out ≤ size
        → Leaves size m (round lib c size part sep n)
    unfolding round entry
    round-Leaves n m h b = ground (
      arith,
      body-Leaves n m,
      body-Leaves (record n { simplify = true }) m,
      body-Leaves (record n { skip_disk = false }) m,
    )

-- What a run gives from a buffer of `k` bytes, with `w` bytes of input left.
data Fits (size k w : ℕ) : Outcome → Type 0 where
  done : (out : Str) → length out ≤ k + w → length out ≤ size → Fits size k w (ok out)
  no_room : size < k + w → Fits size k w too_small

module _ (lib : StrLib) (c : Config) (size : ℕ) where
  after-Fits :
      (ts : List Token) (k w : ℕ) (r : Round)
      → Leaves size (k + w) r
      → ((n : Norm)
          → length n.out ≤ size
          → Fits size (length n.out) (weight ts) (run lib c size ts n))
      → Fits size k (w + weight ts) (after r (run lib c size ts))
  unfolding after
  after-Fits ts k w (next n) h rest = widen (rest n h.1)
    where
      widen : {o : Outcome} → Fits size (length n.out) (weight ts) o → Fits size k (w + weight ts) o
      widen (done out a b) = done out (omega arith) b
      widen (no_room a) = no_room (omega arith)
  after-Fits ts k w full h rest = no_room (omega arith)

  run-Fits :
      (ts : List Token) (n : Norm)
      → length n.out ≤ size
      → Fits size (length n.out) (weight ts) (run lib c size ts n)
  unfolding run
  run-Fits [] n b = done n.out (omega arith) b
  run-Fits (t ∷ ts) n b =
      after-Fits ts (length n.out) (length t.part + sep_length t.sep)
        (round lib c size t.part t.sep n) (round-Leaves lib c size t.part t.sep n _ (omega arith) b)
        (run-Fits ts)

  run_initial-Fits :
      (s : Str) → Fits size 0 (length s) (run lib c size (tokens c.slashes s) (initial c))
  run_initial-Fits s =
      rw (weight-tokens c.slashes s) at (run-Fits (tokens c.slashes s) (initial c) (omega arith))

normalize-Fits :
    (lib : StrLib) (os : Os) (size : ℕ) (src : Str) (f : NormFlags)
    → Fits size 0 (length src) (normalize lib os size src f)
unfolding normalize
normalize-Fits lib os size src f =
    rw (loop-eq-run lib (config os f) size (length src) src (initial (config os f)) (le_refl _))
      (run_initial-Fits lib (config os f) size src)

Fits-ok :
    (size w : ℕ) {o : Outcome} (out : Str)
    → Fits size 0 w o
    → o ≡ ok out
    → (length out ≤ size) × (length out ≤ w)
Fits-ok size w out (done out' a b) e = ground arith
Fits-ok size w out (no_room a) e = cc

Fits-returns :
    (size w : ℕ) {o : Outcome}
    → w ≤ size
    → Fits size 0 w o
    → (out : Str) × (o ≡ ok out) × (length out ≤ w)
Fits-returns size w h (done out a b) = (out, refl, omega arith)
Fits-returns size w h (no_room a) = absurd (omega arith)

module _ (lib : StrLib) (os : Os) (size : ℕ) (src : Str) (f : NormFlags) where
  -- A successful call writes at most `size` bytes, and no more than the input has.
  pub normalize_bounds :
      (out : Str)
      → normalize lib os size src f ≡ ok out
      → (length out ≤ size) × (length out ≤ length src)
  normalize_bounds out e = Fits-ok size (length src) out (normalize-Fits lib os size src f) e

  -- With a buffer as long as the input the call succeeds, whatever the flags.
  pub normalize_returns :
      length src ≤ size
      → (out : Str) × (normalize lib os size src f ≡ ok out) × (length out ≤ length src)
  normalize_returns h = Fits-returns size (length src) h (normalize-Fits lib os size src f)
