-- ===== src/Signal/Kqueue.antt =====
-- FFOS/signal.h on BSD and macOS: the signals of a kqueue as a mask of 32 bits. kevent, the memory and
-- ffbit_rfind32 of ffbase are parameters.
use native.Mathlib.Nat.{div-eq_of_lt-le, pow-le-pow_right, pow-zero}
use native.Mathlib.Omega.{pow_step}
use ffos.Base.{
  ℕ, zero, suc, ◌+◌, ◌-◌, ◌/◌, ◌%◌, ◌^◌, ◌≡◌, ◌≤◌, ◌<◌, refl, ap, subst, ◌∙◌, Bool, true, false,
  Option, none, some, List, [], ◌∷◌, length, ◌==◌, ltb, if◌then◌else◌, arith, Bool-cases, inl, inr,
}
use ffos.Base.Int.{u32}
use ffos.Std.{with_bit, without_bit, has_bit}

pub record KqueueSys (E : Type 0) : Type 0 where
  pub has_memory : ℕ → E → Bool × E
  -- kevent that adds or deletes these signals: whether it succeeds
  pub add_signals : ℕ → List ℕ → ℕ → E → Bool × E
  pub delete_signals : ℕ → List ℕ → E → Bool × E
  pub rfind : ℕ → ℕ

-- The loop of `ffkqsig_attach` over the mask
unfoldable pub mask_of : ℕ → List ℕ → ℕ
mask_of mask [] = mask
mask_of mask (s ∷ sigs) = mask_of (with_bit mask (2 ^ s)) sigs

module _ {E : Type 0} (sys : KqueueSys E) where
  open sys use {has_memory, add_signals, delete_signals, rfind}

  abbrev masked : ℕ → Bool × E → ℕ × E
  masked mask (true, e) = (mask, e)
  masked mask (false, e) = (u32 - 1, e)

  abbrev adding : ℕ → List ℕ → ℕ → Bool × E → ℕ × E
  adding kq sigs d (false, e) = (u32 - 1, e)
  adding kq sigs d (true, e) = masked (mask_of 0 sigs) (add_signals kq sigs d e)

  -- `ffkqsig_attach`: the mask as a word, of which the one with all bits is -1
  unfoldable pub attach_mask : ℕ → List ℕ → ℕ → E → ℕ × E
  attach_mask kq sigs d e = adding kq sigs d (has_memory (length sigs) e)

  abbrev pub with_signal : ℕ → Option (List ℕ) → Option (List ℕ)
  with_signal r none = none
  with_signal r (some l) = some (r ∷ l)

  -- A round of the loop of `ffkqsig_detach`, by the result of ffbit_rfind32
  abbrev pub by_highest : (ℕ → Option (List ℕ)) → ℕ → ℕ → Option (List ℕ)
  by_highest loop mask zero = some []
  by_highest loop mask (suc r) = with_signal r (loop (without_bit mask (2 ^ r)))

  -- The signals that the loop lists, on fuel
  unfoldable pub listed : ℕ → ℕ → Option (List ℕ)
  listed zero mask = none
  listed (suc fuel) mask = by_highest (listed fuel) mask (rfind mask)

  abbrev delete_listed : ℕ → E → Option (List ℕ) → Option (Bool × E)
  delete_listed kq e none = none
  delete_listed kq e (some l) = some (delete_signals kq l e)

  abbrev deleting : ℕ → ℕ → Bool × E → Option (Bool × E)
  deleting mask kq (false, e) = some (false, e)
  deleting mask kq (true, e) = delete_listed kq e (listed 33 mask)

  -- `ffkqsig_detach`: whether it succeeds
  unfoldable pub detach_mask : ℕ → ℕ → E → Option (Bool × E)
  detach_mask mask kq e =
      if mask == u32 - 1 then some (true, e) else deleting mask kq (has_memory 32 e)

  abbrev pub mask_sum : List ℕ → ℕ
  mask_sum [] = 0
  mask_sum (r ∷ l) = 2 ^ r + mask_sum l

  without_highest : (m r : ℕ) → 2 ^ r ≤ m → m < 2 ^ suc r → without_bit m (2 ^ r) ≡ m - 2 ^ r
  without_highest m r low high =
      let one : m / 2 ^ r ≡ 1 =
        div-eq_of_lt-le (2 ^ r) (omega (arith, low)) (omega (arith, high, pow_step 2 r)) in
      let set : has_bit m (2 ^ r) ≡ true = ap (λ q. q % 2 == 1) one in
      ap (λ b. if b then m - 2 ^ r else m) set

  -- Strictly falling, from below a bound
  abbrev pub IsFalling : ℕ → List ℕ → Type 0
  IsFalling n [] = Unit
  IsFalling n (r ∷ l) = (r < n) × IsFalling r l

  within_bits : (m r n : ℕ) → 2 ^ r ≤ m → m < 2 ^ n → r < n
  within_bits m r n low fits = elim (Bool-cases (ltb r n)) [
    | inl y ↦ ground (arith, y)
    | inr k ↦
        let more : n ≤ r = ground (arith, k) in
        let two : 0 < 2 = omega arith in
        let large = pow-le-pow_right two more in absurd (omega (arith, low, fits, large))
  ]

  module _ (rfind-zero : rfind 0 ≡ 0)
      (rfind-highest : (m : ℕ)
        → 0 < m
        → (r : ℕ) × (rfind m ≡ suc r) × (2 ^ r ≤ m) × (m < 2 ^ suc r)) where
    listed-zero : (n : ℕ) → listed (suc n) 0 ≡ some []
    unfolding listed
    listed-zero n = ap (by_highest (listed n) 0) rfind-zero

    abbrev IsDigits : ℕ → ℕ → ℕ → Type 0
    IsDigits fuel n m =
        (l : List ℕ) × (listed (suc fuel) m ≡ some l)
        × (mask_sum l ≡ m)
        × (length l ≤ n)
        × IsFalling n l

    listed-IsFalling : (fuel n m : ℕ) → m < 2 ^ n → n ≤ fuel → IsDigits fuel n m
    unfolding listed
    listed-IsFalling fuel n zero h le = ([], listed-zero fuel, refl, omega arith, tt)
    listed-IsFalling zero n (suc k) h le =
        let none_left : n ≡ 0 = omega (arith, le) in
        let one : suc k < 2 ^ 0 = subst (λ b. suc k < 2 ^ b) none_left h in
        absurd (omega (arith, one, pow-zero 2))
    listed-IsFalling (suc fuel) n (suc k) h le =
        let m = suc k in
        let (r, found, low, high) = rfind-highest m (omega arith) in
        let bit = within_bits m r n low h in
        let (l, ends, total, few, falls) =
          listed-IsFalling fuel r (m - 2 ^ r) (omega (arith, high, pow_step 2 r, low))
            (omega (arith, bit, le)) in
        (
          r ∷ l,
          ap (by_highest (listed (suc fuel)) m) found
              ∙ ap (λ t. with_signal r (listed (suc fuel) t)) (without_highest m r low high)
              ∙ ap (with_signal r) ends,
          omega (arith, total, low),
          omega (arith, few, bit),
          (bit, falls),
        )

    -- If ffbit_rfind32 gives the highest bit, then for a mask of n bits the loop of ffkqsig_detach ends within
    -- n + 1 rounds, and lists at most n signals, strictly falling and less than n, the powers of two of which
    -- have the mask as their sum: its binary digits. So 32 events have room for those of a word.
    pub listed-mask_sum : (n m : ℕ) → m < 2 ^ n → IsDigits n n m
    listed-mask_sum n m h = listed-IsFalling n n m h (omega arith)
