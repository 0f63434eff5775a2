-- ===== src/TimerQueue/Insert.antt =====
-- `_fftmrq_node_insert` puts a node behind the nodes that are not later, and the queue's functions
-- in terms of the list of its timers.
use mathlib.Core.List.{map-append}
use ffos.Base.{
  ℕ, ◌≡◌, ◌≤◌, ◌<◌, refl, ap, ap₂, sym, ◌∙◌, ◌≡⟨◌⟩◌, ◌∎, Bool, true, false, inl, inr, List, [], ◌∷◌,
  ◌++◌, ltb, if◌then◌else◌, Bool-cases, arith, ltb→lt, All, append_assoc,
}
use ffos.Base.Int.{ℤ, pos_part, u32}
use ffos.TimerQueue.{
  Node, Queue, update, set_node, before, node_insert, take_out, put_in, expire, next_key,
}
use ffos.TimerQueue.RbTree.{Tree, leaf, branch, inorder, erase, RbLib}
use ffos.TimerQueue.Valid.{node_insert_left, node_insert_right, count}
use ffos.TimerQueue.Order.{
  rank, InWindow, before-rank, Timer, timer, timers, sooner, place, IsSorted, Within,
  place-append_lt, place-append_ge, All-append, IsSorted-append, All-not_sooner,
}

-- A timer that is not sooner than `b` goes behind it and what is not later than it.
place_behind :
    (base : ℕ) (a b : Timer) (l r : List Timer)
    → All (λ c. rank base c.key ≤ rank base b.key) l
    → sooner base a b ≡ false
    → place base a (l ++ (b ∷ r)) ≡ l ++ (b ∷ place base a r)
place_behind base a b l r le ge =
    place base a (l ++ (b ∷ r))
    ≡⟨ ap (place base a) (sym (append_assoc l (b ∷ []) r)) ⟩ place base a ((l ++ (b ∷ [])) ++ r)
    ≡⟨ place-append_ge base a (l ++ (b ∷ [])) r (All-not_sooner base a b l ge le) ⟩
      (l ++ (b ∷ [])) ++ place base a r
    ≡⟨ append_assoc l (b ∷ []) (place base a r) ⟩ l ++ (b ∷ place base a r) ∎

module _ (base : ℕ) (in_range : base < u32) (nodes : ℕ → Node) (i : ℕ) where
  -- Into a tree in order within a window of half the range, `_fftmrq_node_insert` puts a node behind
  -- the nodes that are not later and before the others.
  pub node_insert-place :
      (t : Tree)
      → InWindow base (nodes i).key
      → Within base (timers nodes (inorder t))
      → IsSorted base (timers nodes (inorder t))
      → timers nodes (inorder (node_insert nodes i t))
        ≡ place base (timer nodes i) (timers nodes (inorder t))
  node_insert-place leaf w ws s = unfold node_insert in refl
  node_insert-place (branch l p r) w ws s =
      go (node_insert-place l w inside.0 parts.0) (node_insert-place r w inside.1.1 parts.2)
        (before (nodes i).key (nodes p).key) refl
    where
      a : Timer
      a = timer nodes i

      cut :
          timers nodes (inorder (branch l p r))
          ≡ timers nodes (inorder l) ++ (timer nodes p ∷ timers nodes (inorder r))
      cut = map-append (timer nodes) (inorder l) (p ∷ inorder r)

      parts :
          IsSorted base (timers nodes (inorder l))
          × All (λ c. rank base c.key ≤ rank base (nodes p).key) (timers nodes (inorder l))
          × IsSorted base (timers nodes (inorder r))
      parts = IsSorted-append base (timer nodes p) _ _ (rw cut at s)

      inside :
          Within base (timers nodes (inorder l))
          × Within base (timer nodes p ∷ timers nodes (inorder r))
      inside = All-append base (λ a. InWindow base a.key) _ _ (rw cut at ws)

      order :
          before (nodes i).key (nodes p).key
          ≡ ltb (rank base (nodes i).key) (rank base (nodes p).key)
      order = before-rank base (nodes i).key (nodes p).key in_range w inside.1.0

      go :
          timers nodes (inorder (node_insert nodes i l)) ≡ place base a (timers nodes (inorder l))
          → timers nodes (inorder (node_insert nodes i r)) ≡ place base a (timers nodes (inorder r))
          → (b : Bool) → before (nodes i).key (nodes p).key ≡ b
          → timers nodes (inorder (node_insert nodes i (branch l p r)))
            ≡ place base a (timers nodes (inorder (branch l p r)))
      go left right true e =
          timers nodes (inorder (node_insert nodes i (branch l p r)))
          ≡⟨ ap (λ t. timers nodes (inorder t)) (node_insert_left nodes i l p r e) ⟩
            timers nodes (inorder (node_insert nodes i l) ++ (p ∷ inorder r))
          ≡⟨ map-append (timer nodes) (inorder (node_insert nodes i l)) (p ∷ inorder r) ⟩
            timers nodes (inorder (node_insert nodes i l)) ++ timers nodes (p ∷ inorder r)
          ≡⟨ ap (λ s. s ++ timers nodes (p ∷ inorder r)) left ⟩
            place base a (timers nodes (inorder l)) ++ timers nodes (p ∷ inorder r)
          ≡⟨ sym (place-append_lt base a (timer nodes p) _ _ (sym order ∙ e)) ⟩
            place base a (timers nodes (inorder l) ++ timers nodes (p ∷ inorder r))
          ≡⟨ ap (place base a) (sym cut) ⟩ place base a (timers nodes (inorder (branch l p r))) ∎
      go left right false e =
          timers nodes (inorder (node_insert nodes i (branch l p r)))
          ≡⟨ ap (λ t. timers nodes (inorder t)) (node_insert_right nodes i l p r e) ⟩
            timers nodes (inorder l ++ (p ∷ inorder (node_insert nodes i r)))
          ≡⟨ map-append (timer nodes) (inorder l) (p ∷ inorder (node_insert nodes i r)) ⟩
            timers nodes (inorder l)
            ++ (timer nodes p ∷ timers nodes (inorder (node_insert nodes i r)))
          ≡⟨ ap (λ s. timers nodes (inorder l) ++ (timer nodes p ∷ s)) right ⟩
            timers nodes (inorder l) ++ (timer nodes p ∷ place base a (timers nodes (inorder r)))
          ≡⟨ sym (place_behind base a (timer nodes p) _ _ parts.1 (sym order ∙ e)) ⟩
            place base a (timers nodes (inorder l) ++ timers nodes (p ∷ inorder r))
          ≡⟨ ap (place base a) (sym cut) ⟩ place base a (timers nodes (inorder (branch l p r))) ∎

-- What becomes of a timer that has run: it comes back if it is periodic.
abbrev pub again : ℕ → ℤ → ℕ → Timer → List Timer → List Timer
again base interval now a l =
    if ltb 0 (pos_part interval)
    then place base (record { id = a.id; key = next_key a.key (pos_part interval) now }) l
    else l

abbrev pub queued : Queue → List Timer
queued q = timers q.nodes (inorder q.tree)

-- Stores that agree on the times give the same timers.
pub timers-keys :
    (ns ms : ℕ → Node) (l : List ℕ)
    → ((j : ℕ) → (ns j).key ≡ (ms j).key)
    → timers ns l ≡ timers ms l
timers-keys ns ms [] h = refl
timers-keys ns ms (j ∷ l) h = rw (h j, timers-keys ns ms l h)

-- A write to a node that is not in the list changes none of its timers.
pub timers-update :
    (ns : ℕ → Node) (i : ℕ) (v : Node) (l : List ℕ)
    → count i l ≡ 0
    → timers (update ns i v) l ≡ timers ns l
timers-update ns i v [] h = refl
timers-update ns i v (j ∷ l) h = ground (arith, timers-update ns i v l)

erase-cons : (i : ℕ) (l : List ℕ) → erase i (i ∷ l) ≡ l
erase-cons i l = ground arith

module _ (lib : RbLib) where
  inorder-take_out :
      (q : Queue) (i : ℕ) (l : List ℕ)
      → inorder q.tree ≡ i ∷ l
      → inorder (take_out lib q i).tree ≡ l
  unfolding take_out
  inorder-take_out q i l e = lib.inorder-rm q.tree i ∙ ap (erase i) e ∙ erase-cons i l

  -- Taking the first node out leaves the rest in order.
  pub queued-take_out :
      (q : Queue) (i : ℕ) (l : List ℕ)
      → inorder q.tree ≡ i ∷ l
      → queued (take_out lib q i) ≡ timers q.nodes l
  unfolding take_out
  queued-take_out q i l e =
      timers (take_out lib q i).nodes (inorder (take_out lib q i).tree)
      ≡⟨ timers-keys (take_out lib q i).nodes q.nodes _ (λ j. ground arith) ⟩
        timers q.nodes (inorder (take_out lib q i).tree)
      ≡⟨ ap (timers q.nodes) (inorder-take_out q i l e) ⟩ timers q.nodes l ∎

  -- Putting a node in places it by its time.
  pub queued-put_in :
      (base : ℕ) (q : Queue) (i : ℕ)
      → base < u32
      → InWindow base (q.nodes i).key
      → Within base (queued q)
      → IsSorted base (queued q)
      → queued (put_in lib q i) ≡ place base (timer q.nodes i) (queued q)
  unfolding put_in
  queued-put_in base q i hb w ws s =
      timers (put_in lib q i).nodes (inorder (put_in lib q i).tree)
      ≡⟨ timers-keys (put_in lib q i).nodes q.nodes _ (λ j. ground arith) ⟩
        timers q.nodes (inorder (put_in lib q i).tree)
      ≡⟨ ap (timers q.nodes) (lib.inorder-balance _) ⟩
        timers q.nodes (inorder (node_insert q.nodes i q.tree))
      ≡⟨ node_insert-place base hb q.nodes i q.tree w ws s ⟩
        place base (timer q.nodes i) (queued q) ∎

  -- A round of `fftimerqueue_process` takes the first timer off, and places it anew if it is
  -- periodic, provided that its next time is within the window.
  pub queued-expire :
      (base : ℕ) (q : Queue) (now i : ℕ) (l : List ℕ)
      → base < u32
      → inorder q.tree ≡ i ∷ l
      → count i l ≡ 0
      → Within base (timers q.nodes l)
      → IsSorted base (timers q.nodes l)
      → (0 < pos_part (q.nodes i).interval_msec
          → InWindow base (next_key (q.nodes i).key (pos_part (q.nodes i).interval_msec) now))
      → queued (expire lib q i now)
        ≡ again base (q.nodes i).interval_msec now (timer q.nodes i) (timers q.nodes l)
  unfolding expire
  queued-expire base q now i l hb e once ws s ahead =
      elim (Bool-cases (ltb 0 (pos_part (q.nodes i).interval_msec))) [
        | inl p ↦ rw p (
            queued-put_in base ready i hb (rw ready-key (ahead (ltb→lt _ _ p))) (rw ready-queued ws)
              (rw ready-queued s)
            ∙ ap₂ (place base) (ap (λ k. record { id = i; key = k }) ready-key) ready-queued)
        | inr p ↦ rw p (queued-take_out q i l e)
      ]
    where
      key' : ℕ
      key' = next_key (q.nodes i).key (pos_part (q.nodes i).interval_msec) now

      out : Queue
      out = take_out lib q i

      ready : Queue
      ready = set_node out i (record (out.nodes i) { key = key' })

      ready-key : (ready.nodes i).key ≡ key'
      ready-key = ground arith

      gone : count i (inorder out.tree) ≡ 0
      gone = ap (count i) (inorder-take_out q i l e) ∙ once

      ready-queued : queued ready ≡ timers q.nodes l
      ready-queued = timers-update out.nodes i _ (inorder out.tree) gone ∙ queued-take_out q i l e
