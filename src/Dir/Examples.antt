-- ===== src/Dir/Examples.antt =====
-- Runs of `ffdir_make_all` on a file system that is a list of directories, and the theorems there.
use ffos.Base.{
  ◌≡◌, refl, some, Bool, true, false, ◌||◌, List, [], ◌∷◌, take, drop, if◌then◌else◌, Bool-cases,
  if_both, All, inl, inr, arith,
}
use ffos.Base.Text.{codes}
use ffos.Ffbase.{Str, str_eq}
use ffos.Ffbase.Reference.{str_eq_iff}
use ffos.Path.{slash_unix, slash_win}
use ffos.Dir.{DirSys, make_loop, make_all, make_all_win, entry_fullpath}
use ffos.Dir.Make.{directories, make_all-Exists, make_all_there}

abbrev known : Str → List Str → Bool
known p [] = false
known p (q ∷ e) = str_eq p q || known p e

abbrev mkdir : Str → List Str → Bool × List Str
mkdir p e = if known p e then (false, e) else (true, p ∷ e)

known_new : (p : Str) (e : List Str) → known p (p ∷ e) ≡ true
known_new p e = let same : str_eq p p ≡ true = (str_eq_iff p p).1 refl in rw same refl

known_more : (q p : Str) (e : List Str) → known q e ≡ true → known q (p ∷ e) ≡ true
known_more q p e h = ground (arith, h)

created : (p : Str) (e : List Str) → (mkdir p e).0 ≡ true → known p (mkdir p e).1 ≡ true
created p e h = elim (Bool-cases (known p e)) [
  | inl y ↦ let wrong : false ≡ true = rw y at h in absurd (cc)
  | inr n ↦ rw n (known_new p e)
]

there : (p : Str) (e : List Str) → (mkdir p e).0 ≡ false → known p (mkdir p e).1 ≡ true
there p e h = elim (Bool-cases (known p e)) [
  | inl y ↦ rw y y
  | inr n ↦ let wrong : true ≡ false = rw n at h in absurd (cc)
]

existing : (p : Str) (e : List Str) → known p e ≡ true → (mkdir p e).0 ≡ false
existing p e h = rw h refl

keeps : (p q : Str) (e : List Str) → known q e ≡ true → known q (mkdir p e).1 ≡ true
keeps p q e h =
    if_both (λ (r : Bool × List Str). known q r.1 ≡ true) (known p e) _ _ (λ y. h)
      (λ n. known_more q p e h)

abbrev listed : DirSys (List Str)
listed = record {
  last_error = λ e. 17;
  set_error = λ c e. e;
  mkdir = mkdir;
  direxists = 17;
  Exists = λ p e. known p e ≡ true;
  mkdir-Exists = created;
  mkdir_there = λ p e h c. there p e h;
  mkdir_existing = λ p e h. (existing p e h, refl);
  mkdir_keeps = keeps;
}

functions : Unit {0}
unfolding make_loop make_all make_all_win entry_fullpath
functions = tt

runs :
    (make_all listed (codes "/a/b") 0 [] ≡ (true, codes "/a/b" ∷ codes "/a" ∷ []))
    × (make_all listed (codes "/a/b/c") 2 (codes "/a" ∷ [])
        ≡ (true, codes "/a/b/c" ∷ codes "/a/b" ∷ codes "/a" ∷ []))
    × (make_all_win listed (λ s. some s) (codes "c:/a") 0 [] ≡ (true, codes "c:/a" ∷ []))
    × ((make_all_win listed (λ s. some s) (codes "c:/a") 0 (codes "c:/a" ∷ [])).0 ≡ false)
unfolding functions slash_win
runs = (refl, refl, refl, refl)

make_all-Exists_example :
    All
      (λ p. known p (make_all listed (codes "/a/b") 0 []).1 ≡ true)
      (directories slash_unix (take 1 (codes "/a/b")) (drop 1 (codes "/a/b")))
unfolding functions slash_unix
make_all-Exists_example = make_all-Exists listed (codes "/a/b") 0 [] refl

abbrev both_there : List Str
both_there = codes "/a" ∷ codes "/a/b" ∷ []

make_all_there_example :
    ((make_all listed (codes "/a/b") 0 both_there).0 ≡ true)
    × ((make_all_win listed (λ s. some s) (codes "/a/b") 0 both_there).0 ≡ false)
unfolding slash_unix slash_win
make_all_there_example =
    make_all_there listed (λ s. some s) (codes "/a/b") (codes "/a/b") 0 both_there refl
      (refl, (refl, tt)) (refl, (refl, tt))
