-- ===== src/TimerQueue/RbTree.antt =====
-- The tree of ffbase/rbtree.h as far as FFOS/timerqueue.h relies on it: its shape without colours,
-- and three functions of which the order of the nodes is documented.
use ffos.Base.{ℕ, ◌≡◌, Bool, false, ◌||◌, Option, List, [], ◌∷◌, ◌++◌, ◌==◌, if◌then◌else◌}
use mathlib.Core.List.{head?}

pub data Tree : Type 0 where
  leaf : Tree
  branch : Tree → ℕ → Tree → Tree

-- The nodes from left to right.
abbrev pub inorder : Tree → List ℕ
inorder leaf = []
inorder (branch l i r) = inorder l ++ (i ∷ inorder r)

abbrev pub has : ℕ → List ℕ → Bool
has i [] = false
has i (j ∷ l) = (i == j) || has i l

abbrev pub erase : ℕ → List ℕ → List ℕ
erase i [] = []
erase i (j ∷ l) = if i == j then l else j ∷ erase i l

pub record RbLib : Type 0 where
  -- what ffrbt_insert does behind the tree's `insert` function: rotations keep the order
  pub balance : Tree → Tree
  -- ffrbt_rm: takes one node out and keeps the order of the others
  pub rm : Tree → ℕ → Tree
  -- ffrbt_node_min: the leftmost node, or the sentinel
  pub min_node : Tree → Option ℕ
  pub inorder-balance : (t : Tree) → inorder (balance t) ≡ inorder t
  pub inorder-rm : (t : Tree) (i : ℕ) → inorder (rm t i) ≡ erase i (inorder t)
  pub min_node_lem : (t : Tree) → min_node t ≡ head? (inorder t)
