-- ===== src/Dirscan/Examples.antt =====
-- Runs of the directory scanner, and the theorem at two names.
use ffos.Base.{ℕ, ◌≡◌, refl, Bool, true, false, Option, none, some, List, [], ◌∷◌, if◌then◌else◌}
use ffos.Base.Text.{codes}
use ffos.Ffbase.{Str}
use ffos.Dirscan.{
  Sign, less, more, filename_cmp, Scan, ScanFlags, scan_loop, open_scan, next, reset,
}

-- A sort by insertion.
abbrev not_more : Sign → Bool
not_more more = false
not_more s = true

abbrev insert : (ℕ → ℕ → Sign) → ℕ → List ℕ → List ℕ
insert cmp i [] = i ∷ []
insert cmp i (j ∷ l) =
    let rest = insert cmp i l in if not_more (cmp i j) then i ∷ j ∷ l else j ∷ rest

abbrev insertion : (ℕ → ℕ → Sign) → List ℕ → List ℕ
insertion cmp [] = []
insertion cmp (i ∷ l) = insert cmp i (insertion cmp l)

abbrev all_flags : ScanFlags
all_flags = record { nosort = false; with_dot = false; wildcard = false }

abbrev scanned : Option Scan
scanned =
    open_scan (λ name. true) insertion all_flags
      (some (codes "." ∷ codes "b" ∷ codes "B" ∷ codes "a" ∷ []))

abbrev first_two : Option Scan → Option Str × Option Str
first_two none = (none, none)
first_two (some d) = ((next d).0, (next (next d).1).0)

abbrev again : Option Scan → Option Str
again none = none
again (some d) = (next (reset (next (next d).1).1)).0

runs :
    (filename_cmp (codes "a") (codes "B") ≡ less)
    × (filename_cmp (codes "a") (codes "A") ≡ less)
    × (filename_cmp (codes "ab") (codes "a") ≡ more)
    × (first_two scanned ≡ (some (codes "a"), some (codes "b")))
    × (again scanned ≡ some (codes "a"))
unfolding filename_cmp scan_loop open_scan next reset
runs = (refl, refl, refl, refl, refl)
