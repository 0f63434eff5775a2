-- ===== src/Path/Split.antt =====
-- What `ffpath_splitpath_unix`, `ffpath_splitpath_win` and `ffpath_splitname` of FFOS/path.h store,
-- on every branch, and what `ffpath_abs` accepts.
use native.Mathlib.Numerals.{add-one}
use ffos.Base.{
  zero, ℕ, suc, ◌≡◌, ◌≢◌, refl, ap, sym, subst, true, inl, inr, ◌⊎◌, Option, none, some, [], ◌∷◌,
  ◌++◌, length, take, drop, Bool-cases, arith,
}
use ffos.Ffbase.{Str, StrLib, one_of, last_in, later, single, Free}
use ffos.Path.{
  slash, backslash, dot, Parts, splitpath_unix, splitpath_win, splitname, found, name_found,
}

-- The text is cut at its last byte of the set, at offset `i`.
pub record CutAt (set s : Str) (i : ℕ) : Type 0 where
  pub byte : ℕ
  pub in_set : one_of set byte ≡ true
  pub joined : s ≡ take i s ++ (byte ∷ drop (suc i) s)
  pub last : Free set (drop (suc i) s)
  pub offset : length (take i s) ≡ i

data Last (set s : Str) : Option ℕ → Type 0 where
  nowhere : Free set s → Last set s none
  at : (i : ℕ) → CutAt set s i → Last set s (some i)

last_in-Last : (set s : Str) → Last set s (last_in set s)
last_in-Last set [] = nowhere tt
last_in-Last set (c ∷ s) = go (last_in set s) (last_in-Last set s)
  where
    go : (o : Option ℕ) → Last set s o → Last set (c ∷ s) (later (one_of set c) o)
    go none (nowhere f) = elim (Bool-cases (one_of set c)) [
      | inl e ↦
          rw e (at 0 (record { byte = c; in_set = e; joined = refl; last = f; offset = refl }))
      | inr e ↦ rw e (nowhere (e, f))
    ]
    go (some i) (at _ k) = at (suc i) (record {
      byte = k.byte;
      in_set = k.in_set;
      joined = ap (λ r. c ∷ r) k.joined;
      last = k.last;
      offset = ap suc k.offset;
    })

-- What a split at the last byte of a set stores. Without such a byte the whole text is the name, and
-- the offset is -1.
abbrev pub IsPathSplit : Str → Str → Parts → Type 0
IsPathSplit set fn r = elim r.at [
  | none ↦ (r.first ≡ []) × (r.second ≡ fn) × Free set fn
  | some i ↦
      (b : ℕ) × (one_of set b ≡ true)
      × (fn ≡ r.first ++ (b ∷ r.second))
      × Free set r.second
      × (length r.first ≡ i)
]

module _ (lib : StrLib) (fn : Str) where
  split_parts : (set : Str) (o : Option ℕ) → Last set fn o → IsPathSplit set fn (found lib fn o)
  split_parts set none (nowhere f) = (refl, refl, f)
  split_parts set (some i) (at _ k) =
      rw (lib.split_lem fn i, add-one i) (k.byte, k.in_set, k.joined, k.last, k.offset)

  split_last : (set : Str) (o : Option ℕ) → o ≡ last_in set fn → IsPathSplit set fn (found lib fn o)
  split_last set o e =
      subst (λ o. IsPathSplit set fn (found lib fn o)) (sym e)
        (split_parts set (last_in set fn) (last_in-Last set fn))

  -- `splitpath_unix` cuts at the last slash: the name behind it holds none. Without a slash the
  -- whole text is the name.
  pub splitpath_unix-IsPathSplit : IsPathSplit (single slash) fn (splitpath_unix lib fn)
  unfolding splitpath_unix
  splitpath_unix-IsPathSplit = split_last (single slash) _ (lib.rfindchar_lem fn slash)

  -- `splitpath_win` does so for both slashes.
  pub splitpath_win-IsPathSplit : IsPathSplit (slash ∷ backslash ∷ []) fn (splitpath_win lib fn)
  unfolding splitpath_win
  splitpath_win-IsPathSplit =
      split_last (slash ∷ backslash ∷ []) _ (lib.rfindany_lem fn (slash ∷ backslash ∷ []))

-- What a split into name and extension stores. A first or missing dot starts no extension.
abbrev pub IsNameSplit : Str → Parts → Type 0
IsNameSplit fn r =
    ((r.first ≡ fn)
      × (r.second ≡ [])
      × (Free (single dot) fn ⊎ ((ext : Str) × (fn ≡ dot ∷ ext) × Free (single dot) ext)))
    ⊎ ((r.first ≢ []) × (fn ≡ r.first ++ (dot ∷ r.second)) × Free (single dot) r.second)

module _ (lib : StrLib) (fn : Str) where
  named : (o : Option ℕ) → Last (single dot) fn o → IsNameSplit fn (name_found lib fn o)
  named none (nowhere f) = inl (refl, refl, inl f)
  named (some zero) (at _ k) =
      let is_dot : k.byte ≡ dot = ground (arith, k.in_set) in
      inl (refl, refl, inr (drop 1 fn, rw is_dot at k.joined, k.last))
  named (some (suc i)) (at _ k) =
      let is_dot : k.byte ≡ dot = ground (arith, k.in_set) in
      rw (lib.split_lem fn (suc i), add-one (suc i))
        (inr (λ e. absurd (omega (arith, k.offset, ap length e)), rw is_dot at k.joined, k.last))

  -- `splitname` cuts at the last dot, but not at a leading one: the name is never empty because of
  -- the cut, and the extension holds no dot.
  pub splitname-IsNameSplit : IsNameSplit fn (splitname lib fn)
  unfolding splitname
  splitname-IsNameSplit =
      subst (λ o. IsNameSplit fn (name_found lib fn o)) (sym (lib.rfindchar_lem fn dot))
        (named (last_in (single dot) fn) (last_in-Last (single dot) fn))
