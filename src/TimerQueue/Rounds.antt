-- ===== src/TimerQueue/Rounds.antt =====
-- The three ways a round of `fftimerqueue_process` can go, and the flags across all rounds.
use ffos.Base.{
  ℕ, zero, suc, ◌+◌, ◌≡◌, true, false, inl, inr, Option, none, some, Bool-cases, Option-cases,
}
use ffos.Base.Int.{sub32, is_pos32}
use ffos.TimerQueue.{Queue, expire, process_loop}
use ffos.TimerQueue.RbTree.{RbLib}
use ffos.TimerQueue.Valid.{IsValid, expire-IsValid}

module _ (lib : RbLib) {W : Type 0} (call : ℕ → ℕ → W × Queue → W × Queue) (fuel now n : ℕ) (w : W)
    (q : Queue) where
  abbrev after_call : ℕ → W × Queue
  after_call i = call (q.nodes i).func (q.nodes i).param (w, expire lib q i now)

  pub round_empty :
      lib.min_node q.tree ≡ none → process_loop lib call (suc fuel) now n (w, q) ≡ some (n, (w, q))
  unfolding process_loop
  round_empty e = rw (e, process_loop)

  pub round_waits :
      (i : ℕ)
      → lib.min_node q.tree ≡ some i
      → is_pos32 (sub32 (q.nodes i).key now) ≡ true
      → process_loop lib call (suc fuel) now n (w, q) ≡ some (n, (w, q))
  unfolding process_loop
  round_waits i e later = rw (e, process_loop) (rw later)

  pub round_expires :
      (i : ℕ)
      → lib.min_node q.tree ≡ some i
      → is_pos32 (sub32 (q.nodes i).key now) ≡ false
      → process_loop lib call (suc fuel) now n (w, q)
        ≡ process_loop lib call fuel now (n + 1) (after_call i)
  unfolding process_loop
  round_expires i e due = rw (e, process_loop) (rw due)

-- The queue that a run leaves is valid, if it ends.
abbrev pub LeavesValid : {W : Type 0} → Option (ℕ × (W × Queue)) → Type 0
LeavesValid none = Unit
LeavesValid (some (n, (w, q))) = IsValid q

module _ (lib : RbLib) {W : Type 0} (call : ℕ → ℕ → W × Queue → W × Queue)
    (keep : (f p : ℕ) (w : W) (q : Queue) → IsValid q → IsValid (call f p (w, q)).1) where
  -- If `fftimerqueue_process` ends, the flags of the queue are right, whatever the timer functions
  -- do to the queue, provided that they keep the flags right too.
  pub process-IsValid :
      (fuel now n : ℕ) (w : W) (q : Queue)
      → IsValid q
      → LeavesValid (process_loop lib call fuel now n (w, q))
  process-IsValid zero now n w q v = unfold process_loop in tt
  process-IsValid (suc fuel) now n w q v = elim (Option-cases (lib.min_node q.tree)) [
    | inl e ↦ rw (round_empty lib call fuel now n w q e) v
    | inr (i, e) ↦ elim (Bool-cases (is_pos32 (sub32 (q.nodes i).key now))) [
      | inl later ↦ rw (round_waits lib call fuel now n w q i e later) v
      | inr due ↦
          rw (round_expires lib call fuel now n w q i e due)
            (process-IsValid fuel now (n + 1) _ _ (keep _ _ w _ (expire-IsValid lib q i now v)))
    ]
  ]
