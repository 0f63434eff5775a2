-- ===== src/TimerQueue/Add.antt =====
-- `fftimerqueue_add` by the list of timers, and the time at which a periodic timer comes back.
use ffos.Base.{ℕ, ◌+◌, ◌≡◌, ◌≤◌, ◌<◌, ap₂, sym, ◌∙◌, true, false, arith, max, subst}
use ffos.Base.Int.{ℤ, abs, u32, i32_max, add32, sub32, is_pos32}
use ffos.TimerQueue.{Node, Queue, set_node, remove, add_node, add, next_key}
use ffos.TimerQueue.RbTree.{inorder, RbLib}
use ffos.TimerQueue.Valid.{IsValid}
use ffos.TimerQueue.Order.{rank, InWindow, timer, place, IsSorted, Within, IsSorted-place}
use ffos.TimerQueue.Insert.{queued, queued-put_in, timers-update}

module _ (lib : RbLib) (base : ℕ) (base_in : base < u32) where
  -- A node that is not in the queue is placed at `now` plus its interval, be it periodic or not, and
  -- the queue stays in order.
  pub queued-add :
      (q : Queue) (i now : ℕ) (interval : ℤ) (func param : ℕ)
      → IsValid q
      → (q.nodes i).active ≡ false
      → InWindow base (add32 now (abs interval))
      → Within base (queued q)
      → IsSorted base (queued q)
      → (queued (add lib q i now interval func param)
          ≡ place base (record { id = i; key = add32 now (abs interval) }) (queued q))
        × IsSorted base (queued (add lib q i now interval func param))
  unfolding add add_node remove
  queued-add q i now interval func param v off w ws s =
      (placed, subst (IsSorted base) (sym placed) (IsSorted-place base _ (queued q) s))
    where
      node : Node
      node = record (q.nodes i) {
        interval_msec = interval;
        key = add32 now (abs interval);
        func = func;
        param = param;
      }

      ready : Queue
      ready = set_node q i node

      new : timer ready.nodes i ≡ record { id = i; key = add32 now (abs interval) }
      new = ground arith

      same : queued ready ≡ queued q
      same = timers-update q.nodes i node (inorder q.tree) (rw off at (v i))

      unmarked : (ready.nodes i).active ≡ false
      unmarked = ground (arith, off)

      placed :
          queued (add lib q i now interval func param)
          ≡ place base (record { id = i; key = add32 now (abs interval) }) (queued q)
      placed = rw unmarked (
          queued-put_in lib base ready i base_in (subst (λ a. InWindow base a.key) (sym new) w)
            (subst (Within base) (sym same) ws) (subst (IsSorted base) (sym same) s)
          ∙ ap₂ (place base) new same)

-- While no time wraps round, a periodic timer comes back at its next period, or one millisecond
-- after `now` if that is past: after `now` in any case, and within the window.
pub next_key-no_wrap :
    (base key interval now : ℕ)
    → base + i32_max ≤ u32
    → base ≤ key
    → key + interval < base + i32_max
    → base ≤ now
    → now + 1 < base + i32_max
    → (next_key key interval now ≡ max (key + interval) (now + 1))
      × InWindow base (next_key key interval now)
      × (rank base now < rank base (next_key key interval now))
next_key-no_wrap base key interval now b k ki n m = ground arith

-- Where the next period wraps round 2^32 and `now` does not, the larger of the two unsigned numbers
-- is `now + 1`, although the next period is still ahead: the timer runs again at once.
pub next_key-wrap :
    (key interval now : ℕ)
    → key ≤ now
    → now + 1 < u32
    → u32 ≤ key + interval
    → interval < i32_max
    → (next_key key interval now ≡ now + 1) × (is_pos32 (sub32 (add32 key interval) now) ≡ true)
next_key-wrap key interval now k n ki iv = ground arith
