-- ===== src/TimerQueue/Process.antt =====
-- `fftimerqueue_process` as a whole, for timer functions that leave the queue alone: it ends, calls
-- the functions of the due timers and of no other, each once and in the order of their times, and
-- leaves the waiting timers and the periodic ones in order.
use mathlib.Core.List.{head?}
use ffos.Base.{
  ℕ, zero, suc, ◌+◌, ◌≡◌, ◌≤◌, ◌<◌, refl, ap, sym, ◌∙◌, false, inl, inr, Option, some, List, [],
  ◌∷◌, ◌++◌, ltb, Bool-cases, arith, All, length, ltb→lt, lt→ltb, subst,
}
use ffos.Base.Int.{ℤ, pos_part, u32, sub32, is_pos32}
use ffos.TimerQueue.{Node, Queue, take_out, put_in, expire, next_key, process_loop}
use ffos.TimerQueue.RbTree.{inorder, RbLib}
use ffos.TimerQueue.Valid.{count, IsValid, expire-IsValid}
use ffos.TimerQueue.Rounds.{round_empty, round_waits, round_expires}
use ffos.TimerQueue.Order.{
  rank, InWindow, waits-rank, Timer, timer, timers, sooner, IsSorted, Within, place-append_ge,
  All-place, IsSorted-place,
}
use ffos.TimerQueue.Insert.{queued, again, queued-expire}

-- What the user's functions and intervals are, by node.
pub record Program (W : Type 0) : Type 0 where
  pub interval : ℕ → ℤ
  pub func : ℕ → ℕ
  pub param : ℕ → ℕ
  pub act : ℕ → ℕ → W → W

-- The nodes hold what the program says.
pub record Runs {W : Type 0} (p : Program W) (q : Queue) : Type 0 where
  pub interval_is : (j : ℕ) → (q.nodes j).interval_msec ≡ p.interval j
  pub func_is : (j : ℕ) → (q.nodes j).func ≡ p.func j
  pub param_is : (j : ℕ) → (q.nodes j).param ≡ p.param j

abbrev pub calling : {W : Type 0} → Program W → ℕ → ℕ → W × Queue → W × Queue
calling p f x (w, q) = (p.act f x w, q)

-- The calls of the timers of a list, in order.
abbrev pub calls : {W : Type 0} → Program W → List Timer → W → W
calls p [] w = w
calls p (a ∷ l) w = calls p l (p.act (p.func a.id) (p.param a.id) w)

-- What is left of the queue once the due timers have come back or gone.
abbrev pub drain : {W : Type 0} → Program W → ℕ → ℕ → List Timer → List Timer → List Timer
drain p base now [] rest = rest
drain p base now (a ∷ l) rest = drain p base now l (again base (p.interval a.id) now a rest)

timers-cons :
    (ns : ℕ → Node) (l : List ℕ) (a : Timer) (r : List Timer)
    → timers ns l ≡ a ∷ r
    → (l' : List ℕ) × (l ≡ a.id ∷ l') × (timers ns l' ≡ r) × (timer ns a.id ≡ a)
timers-cons ns [] a r e = cc
timers-cons ns (j ∷ l) a r e = let id : j ≡ a.id = cc in (l, ap (λ i. i ∷ l) id, cc, rw (← id) cc)

timers-nil : (ns : ℕ → Node) (l : List ℕ) → timers ns l ≡ [] → l ≡ []
timers-nil ns [] e = refl
timers-nil ns (j ∷ l) e = cc

module _ {W : Type 0} (lib : RbLib) (p : Program W) where
  expire-Runs : (q : Queue) (i now : ℕ) → Runs p q → Runs p (expire lib q i now)
  unfolding expire take_out put_in
  expire-Runs q i now r = record {
    interval_is = λ j. ground (arith, r.interval_is i, r.interval_is j);
    func_is = λ j. ground (arith, r.func_is i, r.func_is j);
    param_is = λ j. ground (arith, r.param_is i, r.param_is j);
  }

-- A periodic timer that has run comes back after `now`, within the window.
abbrev pub ComesBack : {W : Type 0} → Program W → ℕ → ℕ → Timer → Type 0
ComesBack p base now a =
    0 < pos_part (p.interval a.id)
    → InWindow base (next_key a.key (pos_part (p.interval a.id)) now)
      × (rank base now < rank base (next_key a.key (pos_part (p.interval a.id)) now))

-- The queue is in order and within the window, and is cut into due and waiting timers.
pub record Ready {W : Type 0} (p : Program W) (base now : ℕ) (q : Queue) (due waiting : List Timer)
    : Type 0 where
  pub valid : IsValid q
  pub runs : Runs p q
  pub order : queued q ≡ due ++ waiting
  pub sorted : IsSorted base (queued q)
  pub within : Within base (queued q)
  pub are_due : All (λ a. rank base a.key ≤ rank base now) due
  pub wait : All (λ a. rank base now < rank base a.key) waiting
  pub come_back : All (ComesBack p base now) due

-- A run has ended after `n` calls in the state `w`, and left the timers `rest`.
pub record Ended {W : Type 0} (o : Option (ℕ × (W × Queue))) (n : ℕ) (w : W) (rest : List Timer)
    : Type 0 where
  pub left : Queue
  pub ends : o ≡ some (n, (w, left))
  pub valid : IsValid left
  pub order : queued left ≡ rest

module _ {W : Type 0} (lib : RbLib) (p : Program W) (base now : ℕ) (base_in : base < u32)
    (now_in : InWindow base now) where
  All-not_sooner_due :
      (b : Timer) (l : List Timer)
      → rank base now < rank base b.key
      → All (λ a. rank base a.key ≤ rank base now) l
      → All (λ a. sooner base b a ≡ false) l
  All-not_sooner_due b [] h hs = tt
  All-not_sooner_due b (a ∷ l) h hs = (ground (arith, hs.0), All-not_sooner_due b l h hs.1)

  abbrev returned : Timer → Timer
  returned a = record { id = a.id; key = next_key a.key (pos_part (p.interval a.id)) now }

  -- Due timers stay in front of one that comes back.
  again-append :
      (a : Timer) (l r : List Timer)
      → ComesBack p base now a
      → All (λ a. rank base a.key ≤ rank base now) l
      → again base (p.interval a.id) now a (l ++ r) ≡ l ++ again base (p.interval a.id) now a r
  again-append a l r back due = elim (Bool-cases (ltb 0 (pos_part (p.interval a.id)))) [
    | inl e ↦ rw e (
        place-append_ge base (returned a) l r
          (All-not_sooner_due (returned a) l (back (ltb→lt _ _ e)).1 due))
    | inr e ↦ rw e
  ]

  All-again {κ} :
      (P : Timer → Type κ) (a : Timer) (r : List Timer)
      → (0 < pos_part (p.interval a.id)
          → P (record { id = a.id; key = next_key a.key (pos_part (p.interval a.id)) now }))
      → All P r
      → All P (again base (p.interval a.id) now a r)
  All-again P a r h hs = elim (Bool-cases (ltb 0 (pos_part (p.interval a.id)))) [
    | inl e ↦ rw e (All-place base P _ r (h (ltb→lt _ _ e)) hs)
    | inr e ↦ rw e hs
  ]

  IsSorted-again :
      (a : Timer) (r : List Timer)
      → IsSorted base r
      → IsSorted base (again base (p.interval a.id) now a r)
  IsSorted-again a r s = elim (Bool-cases (ltb 0 (pos_part (p.interval a.id)))) [
    | inl e ↦ rw e (IsSorted-place base _ r s)
    | inr e ↦ rw e s
  ]

  once : (q : Queue) (i : ℕ) (l : List ℕ) → IsValid q → inorder q.tree ≡ i ∷ l → count i l ≡ 0
  once q i l v e = ground (arith, v i, ap (count i) e)

  -- The first due timer expires: what is left is ready again.
  step-Ready :
      (q : Queue) (a : Timer) (due waiting : List Timer)
      → Ready p base now q (a ∷ due) waiting
      → Ready p base now (expire lib q a.id now) due (again base (p.interval a.id) now a waiting)
  step-Ready q a due waiting h =
      let (l, nodes_are, rest_is, first) =
        timers-cons q.nodes (inorder q.tree) a (due ++ waiting) h.order in
      let sorted_rest : All (λ b. rank base a.key ≤ rank base b.key) (due ++ waiting)
          × IsSorted base (due ++ waiting) =
        rw h.order at h.sorted in
      let within_rest : InWindow base a.key × Within base (due ++ waiting) =
        rw h.order at h.within in
      let key_is : (q.nodes a.id).key ≡ a.key = λ i. (first i).key in
      let iv_is : (q.nodes a.id).interval_msec ≡ p.interval a.id = h.runs.interval_is a.id in
      let comes : queued (expire lib q a.id now)
          ≡ again base (p.interval a.id) now a (due ++ waiting) =
        queued-expire lib base q now a.id l base_in nodes_are (once q a.id l h.valid nodes_are)
          (subst (Within base) (sym rest_is) within_rest.1)
          (subst (IsSorted base) (sym rest_is) sorted_rest.1)
          (rw (key_is, iv_is) (λ k. (h.come_back.0 k).0))
        ∙ (λ i. again base (iv_is i) now (first i) (rest_is i)) in
      let moved : queued (expire lib q a.id now)
          ≡ due ++ again base (p.interval a.id) now a waiting =
        comes ∙ again-append a due waiting h.come_back.0 h.are_due.1 in
      record {
        valid = expire-IsValid lib q a.id now h.valid;
        runs = expire-Runs lib p q a.id now h.runs;
        order = moved;
        sorted =
            subst (IsSorted base) (sym comes) (IsSorted-again a (due ++ waiting) sorted_rest.1);
        within = subst (Within base) (sym comes) (
            All-again (λ b. InWindow base b.key) a (due ++ waiting) (λ k. (h.come_back.0 k).0)
              within_rest.1);
        are_due = h.are_due.1;
        wait =
            All-again (λ b. rank base now < rank base b.key) a waiting (λ k. (h.come_back.0 k).1)
              h.wait;
        come_back = h.come_back.1;
      }

  min_node-cons :
      (q : Queue) (i : ℕ) (l : List ℕ) → inorder q.tree ≡ i ∷ l → lib.min_node q.tree ≡ some i
  min_node-cons q i l e = lib.min_node_lem q.tree ∙ ap head? e

  waits :
      (q : Queue) (a : Timer)
      → timer q.nodes a.id ≡ a
      → InWindow base a.key
      → is_pos32 (sub32 (q.nodes a.id).key now) ≡ ltb (rank base now) (rank base a.key)
  waits q a e w = rw (ap (λ b. b.key) e) (waits-rank base a.key now base_in w now_in)

  -- No timer is due: the loop stops and changes nothing.
  stop :
      (waiting : List Timer) (fuel n : ℕ) (w : W) (q : Queue)
      → Ready p base now q [] waiting
      → process_loop lib (calling p) (suc fuel) now n (w, q) ≡ some (n, (w, q))
  stop [] fuel n w q r =
      round_empty lib (calling p) fuel now n w q
        (lib.min_node_lem q.tree ∙ ap head? (timers-nil q.nodes (inorder q.tree) r.order))
  stop (a ∷ waiting) fuel n w q r =
      let (l, nodes_are, _, first) = timers-cons q.nodes (inorder q.tree) a waiting r.order in
      let within_first : InWindow base a.key × Within base waiting = rw r.order at r.within in
      round_waits lib (calling p) fuel now n w q a.id (min_node-cons q a.id l nodes_are)
        (waits q a first within_first.0 ∙ lt→ltb _ _ r.wait.0)

  -- The first due timer expires and its function is called.
  go_on :
      (a : Timer) (due waiting : List Timer) (fuel n : ℕ) (w : W) (q : Queue)
      → Ready p base now q (a ∷ due) waiting
      → process_loop lib (calling p) (suc fuel) now n (w, q)
        ≡ process_loop lib
            (calling p)
            fuel
            now
            (n + 1)
            (p.act (p.func a.id) (p.param a.id) w, expire lib q a.id now)
  go_on a due waiting fuel n w q r =
      let (l, nodes_are, _, first) =
        timers-cons q.nodes (inorder q.tree) a (due ++ waiting) r.order in
      let within_first : InWindow base a.key × Within base (due ++ waiting) =
        rw r.order at r.within in
      let is_due : ltb (rank base now) (rank base a.key) ≡ false = ground (arith, r.are_due.0) in
      round_expires lib (calling p) fuel now n w q a.id (min_node-cons q a.id l nodes_are)
        (waits q a first within_first.0 ∙ is_due)
      ∙ (λ i.
          process_loop lib (calling p) fuel now (n + 1)
            (p.act (r.runs.func_is a.id i) (r.runs.param_is a.id i) w, expire lib q a.id now))

  -- On a valid queue in order, of which the first timers are due and come back later if they are
  -- periodic, and with timer functions that leave the queue alone, `fftimerqueue_process` ends: it
  -- has called the functions of the due timers, each once and in order, and has counted them. The
  -- waiting timers and the periodic ones are left, in order, and the flags are right.
  pub process_loop-Ended :
      (due waiting : List Timer) (fuel n : ℕ) (w : W) (q : Queue)
      → length due < fuel
      → Ready p base now q due waiting
      → Ended
          (process_loop lib (calling p) fuel now n (w, q))
          (n + length due)
          (calls p due w)
          (drain p base now due waiting)
  process_loop-Ended due waiting zero n w q h r = absurd (omega arith)
  process_loop-Ended [] waiting (suc fuel) n w q h r = record {
    left = q;
    ends = stop waiting fuel n w q r ∙ ap (λ m. some (m, (w, q))) (omega arith);
    valid = r.valid;
    order = r.order;
  }
  process_loop-Ended (a ∷ due) waiting (suc fuel) n w q h r =
      let rest =
        process_loop-Ended due (again base (p.interval a.id) now a waiting) fuel (n + 1)
          (p.act (p.func a.id) (p.param a.id) w) (expire lib q a.id now) (omega arith)
          (step-Ready q a due waiting r) in
      record {
        left = rest.left;
        ends =
            go_on a due waiting fuel n w q r
            ∙ rest.ends
            ∙ ap (λ m. some (m, (calls p (a ∷ due) w, rest.left))) (omega arith);
        valid = rest.valid;
        order = rest.order;
      }
