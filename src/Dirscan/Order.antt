-- ===== src/Dirscan/Order.antt =====
-- The order of `_ffdirscan_filename_cmpz` of FFOS/dirscan.h.
use ffos.Base.{
  ℕ, ◌≡◌, ◌≢◌, ◌<◌, refl, ap₂, true, false, [], ◌∷◌, ◌==◌, All, Bool-cases, inl, inr, arith,
}
use ffos.Ffbase.{Str}
use ffos.Dirscan.{Sign, less, same, more, cmp_bytes, filename_cmp}

abbrev pub flip : Sign → Sign
flip less = more
flip same = same
flip more = less

abbrev pub IsText : Str → Type 0
IsText s = All (λ b. 0 < b) s

cmp_bytes-flip : (c d : ℕ) → c ≢ d → (cmp_bytes d c ≡ flip (cmp_bytes c d)) × (cmp_bytes c d ≢ same)
cmp_bytes-flip c d ne = (ground (arith, ne), ground (arith, ne))

-- Of texts without zero bytes the order is the opposite one when they are exchanged, and it
-- calls two names the same only if they are equal, case included.
pub filename_cmp-flip :
    (a b : Str)
    → IsText a
    → IsText b
    → (filename_cmp b a ≡ flip (filename_cmp a b)) × (filename_cmp a b ≡ same → a ≡ b)
unfolding filename_cmp
filename_cmp-flip [] [] ha hb = (refl, λ e. refl)
filename_cmp-flip [] (d ∷ b) ha (hd, hb) =
    let (f, n) = cmp_bytes-flip 0 d (λ e. absurd (omega (arith, e, hd))) in (f, λ e. absurd (n e))
filename_cmp-flip (c ∷ a) [] (hc, ha) hb =
    let (f, n) = cmp_bytes-flip c 0 (λ e. absurd (omega (arith, e, hc))) in (f, λ e. absurd (n e))
filename_cmp-flip (c ∷ a) (d ∷ b) (hc, ha) (hd, hb) =
    let (f, only) = filename_cmp-flip a b ha hb in
    elim (Bool-cases (c == d)) [
      | inl y ↦
          let eq : c ≡ d = ground (arith, y) in
          let y' : (d == c) ≡ true = ground (arith, y) in
          rw (y, y') (f, λ e. ap₂ (λ x l. x ∷ l) eq (only e))
      | inr n ↦
          let n' : (d == c) ≡ false = ground (arith, n) in
          let (g, differ) = cmp_bytes-flip c d (λ e. absurd (ground (arith, n, e))) in
          rw (n, n') (g, λ e. absurd (differ e))
    ]
