-- ===== src/Dir/Make.antt =====
-- What `ffdir_make_all` of FFOS/dir.h creates, and the room that a full name needs.
use ffos.Base.{
  ℕ, ◌+◌, ◌≡◌, ◌≤◌, ◌<◌, refl, ap, sym, ◌∙◌, subst, Bool, true, false, ◌&&◌, not, Option, none,
  some, List, [], ◌∷◌, ◌++◌, length, take, drop, leb, All, if◌then◌else◌, Bool-cases, if_both,
  arith, length-append, inl, inr,
}
use ffos.Ffbase.{Str}
use ffos.Path.{slash, slash_unix, slash_win}
use ffos.Dir.{
  DirSys, make_one, make_loop, skip_slash, make_all, make_wide, make_all_win, skip_drive,
  entry_fullpath,
}

-- The paths that end where a separator follows, and the whole path.
abbrev pub directories : (ℕ → Bool) → Str → Str → List Str
directories sep pre [] = pre ∷ []
directories sep pre (c ∷ rest) =
    let more = directories sep (pre ++ (c ∷ [])) rest in if sep c then pre ∷ more else more

module _ {E : Type 0} (sys : DirSys E) where
  open sys use {last_error, mkdir, direxists, Exists}

  make_one-Exists :
      (p : Str) (e : E) → (make_one sys p e).0 ≡ true → Exists p (make_one sys p e).1.1
  make_one-Exists p e h = elim (Bool-cases (mkdir p e).0) [
    | inl ok ↦ sys.mkdir-Exists p e ok
    | inr failed ↦ sys.mkdir_there p e failed (ground (arith, h, failed))
  ]

  make_loop_keeps :
      (sep : ℕ → Bool) (pre rest q : Str) (e : E)
      → Exists q e
      → Exists q (make_loop sys sep pre rest e).1.1
  unfolding make_loop
  make_loop_keeps sep pre [] q e h = sys.mkdir_keeps pre q e h
  make_loop_keeps sep pre (c ∷ rest) q e h =
      let one = sys.mkdir_keeps pre q e h in
      if_both (λ (r : Bool × (Bool × E)). Exists q r.1.1) (sep c && not (make_one sys pre e).0) _ _
        (λ stop. one)
        (λ go.
          make_loop_keeps sep (pre ++ (c ∷ [])) rest q _
            (if_both (Exists q) (sep c) _ _ (λ y. one) (λ n. h)))

  make_loop-Exists :
      (sep : ℕ → Bool) (pre rest : Str) (e : E)
      → (make_loop sys sep pre rest e).0 ≡ true
      → All (λ p. Exists p (make_loop sys sep pre rest e).1.1) (directories sep pre rest)
  unfolding make_loop
  make_loop-Exists sep pre [] e h = (make_one-Exists pre e h, tt)
  make_loop-Exists sep pre (c ∷ rest) e h = elim (Bool-cases (sep c)) [
    | inl y ↦ elim (Bool-cases (make_one sys pre e).0) [
      | inl good ↦
          let e' = (make_one sys pre e).1.1 in
          let goes : make_loop sys sep pre (c ∷ rest) e
              ≡ make_loop sys sep (pre ++ (c ∷ [])) rest e' =
            rw (y, good) refl in
          let list : directories sep pre (c ∷ rest) ≡ pre ∷ directories sep (pre ++ (c ∷ [])) rest =
            rw y refl in
          subst
            (λ (r : Bool × (Bool × E)). All (λ p. Exists p r.1.1) (directories sep pre (c ∷ rest)))
            (sym goes)
            (subst (All (λ p. Exists p (make_loop sys sep (pre ++ (c ∷ [])) rest e').1.1))
              (sym list)
              (
                make_loop_keeps sep (pre ++ (c ∷ [])) rest pre e' (make_one-Exists pre e good),
                make_loop-Exists sep (pre ++ (c ∷ [])) rest e' (ap (λ r. r.0) (sym goes) ∙ h),
              ))
      | inr bad ↦ let stopped : false ≡ true = rw (y, bad) at h in absurd (cc)
    ]
    | inr n ↦ rw n (make_loop-Exists sep (pre ++ (c ∷ [])) rest e (rw n at h))
  ]

  -- If `ffdir_make_all` succeeds on UNIX, there is something at every path that ends before a separator
  -- behind `off`, and at the whole path: a directory that was created, or what was there before, which
  -- may be a file.
  pub make_all-Exists :
      (path : Str) (off : ℕ) (e : E)
      → (make_all sys path off e).0 ≡ true
      → let o = skip_slash sys slash_unix path off in
        All
          (λ p. Exists p (make_all sys path off e).1)
          (directories slash_unix (take o path) (drop o path))
  unfolding make_all
  make_all-Exists path off e h =
      let o = skip_slash sys slash_unix path off in
      make_loop-Exists slash_unix (take o path) (drop o path) e h

  All-keeps :
      (p : Str) (e : E) (l : List Str)
      → All (λ q. Exists q e) l
      → All (λ q. Exists q (mkdir p e).1) l
  All-keeps p e [] a = tt
  All-keeps p e (q ∷ l) (h, a) = (sys.mkdir_keeps p q e h, All-keeps p e l a)

  -- Nothing is created of a path on which everything is there.
  there_loop :
      (sep : ℕ → Bool) (pre rest : Str) (e : E)
      → All (λ p. Exists p e) (directories sep pre rest)
      → ((make_loop sys sep pre rest e).0 ≡ true) × ((make_loop sys sep pre rest e).1.0 ≡ false)
  unfolding make_loop
  there_loop sep pre [] e (h, a) =
      let (failed, code) = sys.mkdir_existing pre e h in (ground (arith, failed, code), failed)
  there_loop sep pre (c ∷ rest) e a = elim (Bool-cases (sep c)) [
    | inl y ↦
        let (h, later) : Exists pre e
            × All (λ p. Exists p e) (directories sep (pre ++ (c ∷ [])) rest) =
          rw y at a in
        let (failed, code) = sys.mkdir_existing pre e h in
        let good : (make_one sys pre e).0 ≡ true = ground (arith, failed, code) in
        rw (y, good)
          (there_loop sep (pre ++ (c ∷ [])) rest (mkdir pre e).1 (All-keeps pre e _ later))
    | inr n ↦ rw n (there_loop sep (pre ++ (c ∷ [])) rest e (rw n at a))
  ]

  -- Where there is something at every path that the call would create already, `ffdir_make_all` succeeds on
  -- UNIX and fails on Windows.
  pub make_all_there :
      (to_wide : Str → Option Str) (path w : Str) (off : ℕ) (e : E)
      → to_wide path ≡ some w
      → (let o = skip_slash sys slash_unix path off in
          All (λ p. Exists p e) (directories slash_unix (take o path) (drop o path)))
      → (let o = skip_slash sys slash_win w (skip_drive sys w off) in
          All (λ p. Exists p e) (directories slash_win (take o w) (drop o w)))
      → ((make_all sys path off e).0 ≡ true) × ((make_all_win sys to_wide path off e).0 ≡ false)
  unfolding make_all make_all_win
  make_all_there to_wide path w off e named a b =
      let o = skip_slash sys slash_unix path off in
      let k = skip_slash sys slash_win w (skip_drive sys w off) in
      let (u, _) = there_loop slash_unix (take o path) (drop o path) e a in
      let (v, last) = there_loop slash_win (take k w) (drop k w) e b in
      let fails : (make_wide sys off e (some w)).0 ≡ false = rw (v, last) refl in
      (u, ap (λ o. (make_wide sys off e o).0) named ∙ fails)

abbrev length_of : ℕ → Option Str → ℕ
length_of d none = d
length_of d (some s) = length s

-- The full name of an entry is the path, a slash and the name, if the buffer has room for that and a
-- terminating zero; and what is given always fits with its zero.
pub entry_fullpath_lem :
    (path name : Str) (size : ℕ)
    → (length path + length name + 1 < size
        → entry_fullpath path size name ≡ some (path ++ (slash ∷ name)))
      × ((full : Str) → entry_fullpath path size name ≡ some full → length full + 1 ≤ size)
unfolding entry_fullpath
entry_fullpath_lem path name size = (
  λ h. (let no : leb size (length path + length name + 1) ≡ false = ground arith in rw no refl),
  λ full e. elim (Bool-cases (leb size (length path + length name + 1))) [
    | inl y ↦ let impossible : none ≡ some full = rw y at e in absurd (cc)
    | inr n ↦
        let given : some (path ++ (slash ∷ name)) ≡ some full = rw n at e in
        let same : length (path ++ (slash ∷ name)) ≡ length full = ap (length_of 0) given in
        ground (arith, same, n, length-append path (slash ∷ name))
  ],
)
