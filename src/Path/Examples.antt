-- ===== src/Path/Examples.antt =====
-- Runs of the path functions, those of test/path.c among them, and the theorems at such inputs.
use ffos.Base.{List, Bool, ◌==◌, ◌≢◌, ℕ, ◌≡◌, ◌≤◌, refl, true, false, none, some, [], length, arith}
use ffos.Base.Text.{codes}
use ffos.Ffbase.{Str, single, split_first}
use ffos.Ffbase.Reference.{reference}
use ffos.Path.{windows, unix, slash, dot, splitpath_unix, splitname}
use ffos.Path.Normalize.{
  NormFlags, config, after, entry, parent_of, parent, emit, body, round, loop, normalize, ok,
  too_small,
}
use ffos.Path.Normalize.Bounds.{normalize_bounds, normalize_returns}
use ffos.Path.Normalize.Simple.{Name, render}
use ffos.Path.Normalize.Simple.Names.{names_in, IsSafe, SeesOwn}
use ffos.Path.Normalize.Simple.Refine.{normalize_simple, normalize-IsSafe}
use ffos.Path.Normalize.Absolute.{Starts, normalize_absolute}
use ffos.Path.Normalize.Backslash.{forced, IsDir, normalize-forced}

functions : Unit {0}
unfolding split_first after entry parent_of parent emit body round loop normalize config
functions = tt

abbrev plain : NormFlags
plain = record {
  slash_only = false;
  slash_backslash = false;
  force_slash = false;
  force_backslash = false;
  simple = false;
  disk_letter = false;
  no_disk_letter = false;
}

abbrev simple : NormFlags
simple = record plain { simple = true }

runs :
    (normalize reference unix 32 (codes "a//b//") plain ≡ ok (codes "a/b/"))
    × (normalize reference unix 32 (codes "./a/./b") plain ≡ ok (codes "./a/b"))
    × (normalize reference unix 32 (codes "./a/../../b") plain ≡ ok (codes "../b"))
    × (normalize reference unix 32 (codes "../a/../../b") plain ≡ ok (codes "../../b"))
    × (normalize reference unix 32 (codes "/a/../../b") plain ≡ ok (codes "/b"))
    × (normalize reference unix 32 (codes "c:/../../b") plain ≡ ok (codes "../b"))
    × (normalize reference windows 32 (codes "c:/../../b") plain ≡ ok (codes "c:/b"))
    × (normalize reference unix 32 (codes "/a/../../b") simple ≡ ok (codes "b"))
    × (normalize reference windows 32 (codes "c:/a/b") simple ≡ ok (codes "a/b"))
    × (normalize reference unix 2 (codes "a/b") plain ≡ too_small)
unfolding functions
runs = (refl, refl, refl, refl, refl, refl, refl, refl, refl, refl)

forced_both :
    normalize reference unix 32 (codes "x/y/..") (record (forced true) { slash_backslash = true })
    ≡ ok (codes "x\\")
unfolding functions
forced_both = refl

normalize_bounds_example : (3 ≤ 32) × (3 ≤ 4)
unfolding functions
normalize_bounds_example =
    normalize_bounds reference unix 32 (codes "a//b") plain (codes "a/b") refl

normalize_returns_example :
    (out : Str) × (normalize reference unix 4 (codes "a//b") plain ≡ ok out) × (length out ≤ 4)
normalize_returns_example = normalize_returns reference unix 4 (codes "a//b") plain (omega arith)

sees : (s : Bool) → SeesOwn (config unix (record plain { simple = s }))
unfolding config
sees s h k = cc

normalize_simple_example :
    normalize reference unix 32 (codes "/a/../../b") simple
    ≡ ok (render (names_in unix simple (codes "/a/../../b")))
normalize_simple_example =
    normalize_simple reference unix 32 (codes "/a/../../b") simple refl (sees true) (omega arith)

normalize-IsSafe_example :
    (ms : List Name) × (normalize reference unix 32 (codes "../../b") simple ≡ ok (render ms))
    × IsSafe (config unix simple) ms
normalize-IsSafe_example =
    normalize-IsSafe reference unix 32 (codes "../../b") simple refl (sees true) (omega arith)

normalize_absolute_example : Starts slash (codes "/b")
unfolding functions
normalize_absolute_example =
    normalize_absolute reference unix 32 slash (codes "a/../../b") plain (codes "/b") refl
      (sees false) refl refl

dir : (b : ℕ) → (b == slash) ≡ false → b ≢ dot → IsDir (single b)
dir b h k = ((ground (arith, h), tt), λ e. cc, λ e. k (ground (arith, e)), λ e. cc)

normalize-forced_example : normalize reference unix 32 (codes "x/y/..") (forced false) ≡ ok []
normalize-forced_example =
    normalize-forced reference 32 false (codes "x") (codes "y")
      (dir b'x' refl (λ e. absurd (omega arith))) (dir b'y' refl (λ e. absurd (omega arith)))
      (omega arith)

splits :
    (splitname reference (codes "file.txt")
      ≡ record { first = codes "file"; second = codes "txt"; at = some 4 })
    × (splitname reference (codes ".qwer")
        ≡ record { first = codes ".qwer"; second = []; at = some 0 })
    × (splitpath_unix reference (codes "file")
        ≡ record { first = []; second = codes "file"; at = none })
unfolding splitname splitpath_unix
splits = (refl, refl, refl)
