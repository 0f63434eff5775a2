-- ===== src/TimerQueue/Order.antt =====
-- The order of the tree. Expiry times wrap round at 2^32, so they are compared by their distance
-- from a base: within half of the range `_fftmrq_node_insert` keeps the nodes sorted.

use ffos.Base.{
  ℕ, ◌≡◌, ◌≤◌, ◌<◌, refl, ap, Bool, true, false, inl, inr, List, [], ◌∷◌, ◌++◌, ltb, if◌then◌else◌,
  Bool-cases, arith, All, map,
}
use ffos.Base.Int.{u32, i32_max, sub32, is_pos32}
use ffos.TimerQueue.{Node, before}

-- How far a time is behind the base.
abbrev pub rank : ℕ → ℕ → ℕ
rank base key = sub32 key base

-- A time within 2^31 ms (24 days) behind the base.
abbrev pub InWindow : ℕ → ℕ → Type 0
InWindow base key = (key < u32) × (rank base key < i32_max)

-- Within a window the signed comparison of the code is the order of the ranks.
pub before-rank :
    (base a b : ℕ)
    → base < u32
    → InWindow base a
    → InWindow base b
    → before a b ≡ ltb (rank base a) (rank base b)
before-rank base a b hb ha hb' = ground arith

-- Within a window the signed test of `fftimerqueue_process` holds exactly for the times after `now`.
pub waits-rank :
    (base key now : ℕ)
    → base < u32
    → InWindow base key
    → InWindow base now
    → is_pos32 (sub32 key now) ≡ ltb (rank base now) (rank base key)
waits-rank base key now hb ha hb' = ground arith

-- The queue as its timers in order: each node's address and time.
pub record Timer : Type 0 where
  pub id : ℕ
  pub key : ℕ

abbrev pub timer : (ℕ → Node) → ℕ → Timer
timer nodes i = record { id = i; key = (nodes i).key }

abbrev pub timers : (ℕ → Node) → List ℕ → List Timer
timers nodes l = map (timer nodes) l

module _ (base : ℕ) where
  abbrev pub sooner : Timer → Timer → Bool
  sooner a b = ltb (rank base a.key) (rank base b.key)

  -- Behind all timers that are not later.
  abbrev pub place : Timer → List Timer → List Timer
  place a [] = a ∷ []
  place a (b ∷ l) = if sooner a b then a ∷ b ∷ l else b ∷ place a l

  abbrev pub IsSorted : List Timer → Type 0
  IsSorted [] = Unit
  IsSorted (a ∷ l) = All (λ b. rank base a.key ≤ rank base b.key) l × IsSorted l

  abbrev pub Within : List Timer → Type 0
  Within l = All (λ a. InWindow base a.key) l

  pub place-append_lt :
      (a b : Timer) (l r : List Timer)
      → sooner a b ≡ true
      → place a (l ++ (b ∷ r)) ≡ place a l ++ (b ∷ r)
  place-append_lt a b [] r h = rw h
  place-append_lt a b (c ∷ l) r h = elim (Bool-cases (sooner a c)) [
    | inl e ↦ rw e
    | inr e ↦ rw e (ap (λ l. c ∷ l) (place-append_lt a b l r h))
  ]

  -- A timer goes behind a part whose timers are not later.
  pub place-append_ge :
      (a : Timer) (l r : List Timer)
      → All (λ c. sooner a c ≡ false) l
      → place a (l ++ r) ≡ l ++ place a r
  place-append_ge a [] r h = refl
  place-append_ge a (c ∷ l) r h = rw h.0 (ap (λ l. c ∷ l) (place-append_ge a l r h.1))

  pub All-append {κ} : (P : Timer → Type κ) (l r : List Timer) → All P (l ++ r) → All P l × All P r
  All-append P [] r h = (tt, h)
  All-append P (a ∷ l) r h = let (hl, hr) = All-append P l r h.1 in ((h.0, hl), hr)

  pub All-place {κ} :
      (P : Timer → Type κ) (a : Timer) (l : List Timer) → P a → All P l → All P (place a l)
  All-place P a [] h hs = (h, tt)
  All-place P a (b ∷ l) h hs = elim (Bool-cases (sooner a b)) [
    | inl e ↦ rw e (h, hs)
    | inr e ↦ rw e (hs.0, All-place P a l h hs.1)
  ]

  All-le :
      (a b : Timer) (l : List Timer)
      → rank base a.key ≤ rank base b.key
      → All (λ c. rank base b.key ≤ rank base c.key) l
      → All (λ c. rank base a.key ≤ rank base c.key) l
  All-le a b [] h hs = tt
  All-le a b (c ∷ l) h hs = (omega arith, All-le a b l h hs.1)

  pub IsSorted-place : (a : Timer) (l : List Timer) → IsSorted l → IsSorted (place a l)
  IsSorted-place a [] h = (tt, tt)
  IsSorted-place a (b ∷ l) h = elim (Bool-cases (sooner a b)) [
    | inl e ↦
        let lt : rank base a.key ≤ rank base b.key = ground (arith, e) in
        rw e ((lt, All-le a b l lt h.0), h)
    | inr e ↦
        let ge : rank base b.key ≤ rank base a.key = ground (arith, e) in
        rw e (All-place (λ c. rank base b.key ≤ rank base c.key) a l ge h.0, IsSorted-place a l h.1)
  ]

  -- Of a sorted list cut at a timer: both parts are sorted, and no timer of the first is later.
  pub IsSorted-append :
      (b : Timer) (l r : List Timer)
      → IsSorted (l ++ (b ∷ r))
      → IsSorted l × All (λ c. rank base c.key ≤ rank base b.key) l × IsSorted r
  IsSorted-append b [] r h = (tt, tt, h.1)
  IsSorted-append b (a ∷ l) r h =
      let (hl, le, hr) = IsSorted-append b l r h.1 in
      let (before_b, after_b) = All-append (λ c. rank base a.key ≤ rank base c.key) l (b ∷ r) h.0 in
      ((before_b, hl), (after_b.0, le), hr)

  pub All-not_sooner :
      (a b : Timer) (l : List Timer)
      → sooner a b ≡ false
      → All (λ c. rank base c.key ≤ rank base b.key) l
      → All (λ c. sooner a c ≡ false) (l ++ (b ∷ []))
  All-not_sooner a b [] h hs = (h, tt)
  All-not_sooner a b (c ∷ l) h hs = (ground (arith, hs.0), All-not_sooner a b l h hs.1)
