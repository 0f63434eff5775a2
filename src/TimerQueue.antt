-- ===== src/TimerQueue.antt =====
-- FFOS/timerqueue.h: timers in a tree ordered by 32-bit expiry times that wrap round.
-- A `fftimerqueue_node` is known by its address, a number; the nodes are a store from addresses, and
-- the tree holds addresses. The red-black tree itself is ffbase's: `RbLib` in `RbTree`.
pub mod RbTree
pub mod Valid
pub mod Rounds
pub mod Order
pub mod Insert
pub mod Process
pub mod Add
pub mod Examples
use ffos.Base.{
  ℕ, zero, suc, ◌+◌, ◌≡◌, Bool, true, false, not, Option, none, some, List, [], ◌∷◌, ◌==◌, ltb, max,
  if◌then◌else◌,
}
use ffos.Base.Int.{ℤ, pos, negsuc, pos_part, abs, u32, add32, sub32, is_neg32, is_pos32}
use RbTree.{Tree, leaf, branch, RbLib}

pub record Node : Type 0 where
  pub key : ℕ
  pub interval_msec : ℤ
  pub active : Bool
  pub func : ℕ
  pub param : ℕ

pub record Queue : Type 0 where
  pub tree : Tree
  pub nodes : ℕ → Node

abbrev pub update : (ℕ → Node) → ℕ → Node → ℕ → Node
update nodes i v j = if j == i then v else nodes j

abbrev pub set_node : Queue → ℕ → Node → Queue
set_node q i v = record q { nodes = update q.nodes i v }

-- `(int)(a - b) < 0`
abbrev pub before : ℕ → ℕ → Bool
before a b = is_neg32 (sub32 a b)

-- `_fftmrq_node_insert`: down to the empty place that the comparisons lead to.
unfoldable pub node_insert : (ℕ → Node) → ℕ → Tree → Tree
node_insert nodes i leaf = branch leaf i leaf
node_insert nodes i (branch l p r) = elim (before (nodes i).key (nodes p).key) [
  | true ↦ branch (node_insert nodes i l) p r
  | false ↦ branch l p (node_insert nodes i r)
]

unfoldable pub init : (ℕ → Node) → Queue
init nodes = record { tree = leaf; nodes = nodes }

-- `ffmax(key + interval_msec, now_msec + 1)`, of unsigned numbers
abbrev pub next_key : ℕ → ℕ → ℕ → ℕ
next_key key interval now = max (add32 key interval) (add32 now 1)

module _ (lib : RbLib) where
  open lib use {rm, min_node, balance}

  -- `ffrbt_rm` and `active = 0`
  unfoldable pub take_out : Queue → ℕ → Queue
  take_out q i = record {
    tree = rm q.tree i;
    nodes = update q.nodes i (record (q.nodes i) { active = false });
  }

  -- `ffrbt_insert` with the tree's `insert` function, and `active = 1`
  unfoldable pub put_in : Queue → ℕ → Queue
  put_in q i = record {
    tree = balance (node_insert q.nodes i q.tree);
    nodes = update q.nodes i (record (q.nodes i) { active = true });
  }

  unfoldable pub remove : Queue → ℕ → Queue × Bool
  remove q i = if (q.nodes i).active then (take_out q i, true) else (q, false)

  unfoldable pub add_node : Queue → ℕ → Queue
  add_node q i = put_in (remove q i).0 i

  unfoldable pub add : Queue → ℕ → ℕ → ℤ → ℕ → ℕ → Queue
  add q i now interval func param =
      add_node
        (set_node q i (record (q.nodes i) {
          interval_msec = interval;
          key = add32 now (abs interval);
          func = func;
          param = param;
        }))
        i

  -- The body of the loop of `fftimerqueue_process` up to the call of the node's function.
  unfoldable pub expire : Queue → ℕ → ℕ → Queue
  expire q i now =
      let iv = pos_part (q.nodes i).interval_msec in
      let q' = take_out q i in
      if ltb 0 iv
      then put_in (set_node q' i (record (q'.nodes i) { key = next_key (q.nodes i).key iv now })) i
      else q'

  -- The timer functions act on the rest of the program, `W`, and may call the queue's functions.
  module _ {W : Type 0} (call : ℕ → ℕ → W × Queue → W × Queue) where
    -- `n` counts the calls. `none` stands for a loop that has used up the model's fuel.
    unfoldable pub process_loop : ℕ → ℕ → ℕ → W × Queue → Option (ℕ × (W × Queue))
    process_loop zero now n s = none
    process_loop (suc fuel) now n (w, q) = elim (min_node q.tree) [
      | none ↦ some (n, (w, q))
      | some i ↦
          let rest =
            process_loop fuel now (n + 1)
              (call (q.nodes i).func (q.nodes i).param (w, expire q i now)) in
          if is_pos32 (sub32 (q.nodes i).key now) then some (n, (w, q)) else rest
    ]
