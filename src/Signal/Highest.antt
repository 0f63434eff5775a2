-- ===== src/Signal/Highest.antt =====
-- The loop over the mask of FFOS/signal.h, with a concrete search for the highest bit.
use native.Mathlib.Nat.{pow-zero}
use native.Mathlib.Omega.{pow_step}
use ffos.Base.{
  ℕ, zero, suc, ◌/◌, ◌^◌, ◌≡◌, ◌≤◌, ◌<◌, refl, ap, ◌∙◌, true, some, List, [], ◌∷◌, length, ltb,
  if◌then◌else◌, arith, Bool-cases, inl, inr,
}
use ffos.Signal.Kqueue.{KqueueSys, listed, mask_sum, IsFalling, listed-mask_sum}

-- The number of bits of a number, on fuel
abbrev bit_count : ℕ → ℕ → ℕ
bit_count zero m = 1
bit_count (suc f) m = let rest = bit_count f (m / 2) in if ltb m 2 then 1 else suc rest

abbrev highest : ℕ → ℕ
highest zero = 0
highest (suc n) = bit_count n (suc n)

bit_count_lem :
    (f m : ℕ)
    → 0 < m
    → m ≤ suc f
    → (r : ℕ) × (bit_count f m ≡ suc r) × (2 ^ r ≤ m) × (m < 2 ^ suc r)
bit_count_lem zero m p h =
    (0, refl, omega (arith, pow-zero 2, p), omega (arith, pow-zero 2, pow_step 2 0, h))
bit_count_lem (suc f) m p h = elim (Bool-cases (ltb m 2)) [
  | inl y ↦
      let low : m < 2 = ground (arith, y) in
      (
        0,
        ap (λ b. if b then 1 else suc (bit_count f (m / 2))) y,
        omega (arith, pow-zero 2, p),
        omega (arith, pow-zero 2, pow_step 2 0, low),
      )
  | inr n ↦
      let big : 2 ≤ m = ground (arith, n) in
      let (r, e, a, b) = bit_count_lem f (m / 2) (omega (arith, big)) (omega (arith, h, big)) in
      (
        suc r,
        ap (λ t. if t then 1 else suc (bit_count f (m / 2))) n ∙ ap suc e,
        omega (arith, a, pow_step 2 r),
        omega (arith, b, pow_step 2 (suc r)),
      )
]

highest_lem : (m : ℕ) → 0 < m → (r : ℕ) × (highest m ≡ suc r) × (2 ^ r ≤ m) × (m < 2 ^ suc r)
highest_lem zero h = elim h [ ]
highest_lem (suc n) h = bit_count_lem n (suc n) h (omega arith)

abbrev kqueue : KqueueSys ℕ
kqueue = record {
  has_memory = λ n e. (true, e);
  add_signals = λ kq sigs d e. (true, e);
  delete_signals = λ kq sigs e. (true, e);
  rfind = highest;
}

listed_run : listed kqueue 33 10 ≡ some (3 ∷ 1 ∷ [])
unfolding listed
listed_run = refl

listed-mask_sum_example :
    (l : List ℕ) × (listed kqueue 33 10 ≡ some l)
    × (mask_sum kqueue l ≡ 10)
    × (length l ≤ 32)
    × IsFalling kqueue 32 l
listed-mask_sum_example = listed-mask_sum kqueue refl highest_lem 32 10 (omega arith)
