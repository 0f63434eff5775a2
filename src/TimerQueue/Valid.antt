-- ===== src/TimerQueue/Valid.antt =====
-- The `active` flags: a node is marked active exactly while it is in the tree, and then once.
use ffos.Base.{
  ℕ, ◌+◌, ◌-◌, ◌≡◌, refl, ap, ◌∙◌, Bool, true, false, inl, inr, List, [], ◌∷◌, ◌++◌, ◌==◌, ltb,
  Bool-cases, arith,
}
use ffos.Base.Int.{ℤ, pos_part}
use ffos.TimerQueue.{
  Node, Queue, set_node, before, node_insert, init, take_out, put_in, remove, add_node, add, expire,
}
use ffos.TimerQueue.RbTree.{Tree, leaf, branch, inorder, erase, RbLib}

abbrev pub one_if : Bool → ℕ
one_if true = 1
one_if false = 0

-- How often a node is in a list.
abbrev pub count : ℕ → List ℕ → ℕ
count i [] = 0
count i (j ∷ l) = one_if (i == j) + count i l

count-append : (i : ℕ) (xs ys : List ℕ) → count i (xs ++ ys) ≡ count i xs + count i ys
count-append i [] ys = omega arith
count-append i (x ∷ xs) ys = omega (arith, count-append i xs ys)

count-erase : (i j : ℕ) (l : List ℕ) → count j (erase i l) ≡ count j l - one_if (j == i)
count-erase i j [] = omega arith
count-erase i j (x ∷ l) = ground (arith, count-erase i j l)

-- The two ways down.
module _ (nodes : ℕ → Node) (i : ℕ) (l : Tree) (p : ℕ) (r : Tree) where
  pub node_insert_left :
      before (nodes i).key (nodes p).key ≡ true
      → node_insert nodes i (branch l p r) ≡ branch (node_insert nodes i l) p r
  unfolding node_insert
  node_insert_left e = rw (e, node_insert)

  pub node_insert_right :
      before (nodes i).key (nodes p).key ≡ false
      → node_insert nodes i (branch l p r) ≡ branch l p (node_insert nodes i r)
  unfolding node_insert
  node_insert_right e = rw (e, node_insert)

count-node_insert :
    (nodes : ℕ → Node) (i j : ℕ) (t : Tree)
    → count j (inorder (node_insert nodes i t)) ≡ count j (inorder t) + one_if (j == i)
count-node_insert nodes i j leaf = unfold node_insert in omega arith
count-node_insert nodes i j (branch l p r) =
    elim (Bool-cases (before (nodes i).key (nodes p).key)) [
      | inl e ↦ rw (node_insert_left nodes i l p r e) (
          omega (
            arith,
            count-append j (inorder (node_insert nodes i l)) (p ∷ inorder r),
            count-append j (inorder l) (p ∷ inorder r),
            count-node_insert nodes i j l,
          ))
      | inr e ↦ rw (node_insert_right nodes i l p r e) (
          omega (
            arith,
            count-append j (inorder l) (p ∷ inorder (node_insert nodes i r)),
            count-append j (inorder l) (p ∷ inorder r),
            count-node_insert nodes i j r,
          ))
    ]

abbrev pub IsValid : Queue → Type 0
IsValid q = (j : ℕ) → count j (inorder q.tree) ≡ one_if (q.nodes j).active

-- A new queue is valid, if no node is marked.
pub init-IsValid : (nodes : ℕ → Node) → ((j : ℕ) → (nodes j).active ≡ false) → IsValid (init nodes)
unfolding init
init-IsValid nodes h j = rw (h j)

module _ (lib : RbLib) where
  open lib use {rm, balance, inorder-rm, inorder-balance}

  take_out-IsValid : (q : Queue) (i : ℕ) → IsValid q → IsValid (take_out lib q i)
  unfolding take_out
  take_out-IsValid q i v j =
      rw (inorder-rm q.tree i) (ground (arith, count-erase i j (inorder q.tree), v j))

  put_in-IsValid :
      (q : Queue) (i : ℕ) → IsValid q → (q.nodes i).active ≡ false → IsValid (put_in lib q i)
  unfolding put_in
  put_in-IsValid q i v off j =
      rw (inorder-balance (node_insert q.nodes i q.tree))
        (ground (arith, count-node_insert q.nodes i j q.tree, v j, v i))

  take_out-off : (q : Queue) (i : ℕ) → ((take_out lib q i).nodes i).active ≡ false
  unfolding take_out
  take_out-off q i = ground arith

  put_in-on : (q : Queue) (i : ℕ) → ((put_in lib q i).nodes i).active ≡ true
  unfolding put_in
  put_in-on q i = ground arith

  -- `fftimerqueue_remove` keeps the flags right, and leaves the node out of the queue.
  pub remove-IsValid :
      (q : Queue) (i : ℕ)
      → IsValid q
      → IsValid (remove lib q i).0
        × (((remove lib q i).0.nodes i).active ≡ false)
        × ((remove lib q i).1 ≡ (q.nodes i).active)
  unfolding remove
  remove-IsValid q i v = elim (Bool-cases (q.nodes i).active) [
    | inl on ↦ rw on (take_out-IsValid q i v, take_out-off q i, refl)
    | inr off ↦ rw off (v, off, refl)
  ]

  -- `fftimerqueue_addnode` keeps the flags right, and leaves the node in the queue once.
  pub add_node-IsValid :
      (q : Queue) (i : ℕ)
      → IsValid q
      → IsValid (add_node lib q i) × (count i (inorder (add_node lib q i).tree) ≡ 1)
  unfolding add_node
  add_node-IsValid q i v =
      let (v', off, _) = remove-IsValid q i v in
      let w : IsValid (put_in lib (remove lib q i).0 i) =
        put_in-IsValid (remove lib q i).0 i v' off in
      (w, w i ∙ ap one_if (put_in-on (remove lib q i).0 i))

  set_node-IsValid :
      (q : Queue) (i : ℕ) (n : Node)
      → n.active ≡ (q.nodes i).active
      → IsValid q
      → IsValid (set_node q i n)
  set_node-IsValid q i n same v j = ground (arith, v j, same)

  -- `fftimerqueue_add` keeps the flags right, and leaves the node in the queue once, be it there
  -- before or not.
  pub add-IsValid :
      (q : Queue) (i now : ℕ) (interval : ℤ) (func param : ℕ)
      → IsValid q
      → IsValid (add lib q i now interval func param)
        × (count i (inorder (add lib q i now interval func param).tree) ≡ 1)
  unfolding add
  add-IsValid q i now interval func param v = add_node-IsValid _ i (set_node-IsValid q i _ refl v)

  -- A round of `fftimerqueue_process` keeps the flags right.
  pub expire-IsValid : (q : Queue) (i now : ℕ) → IsValid q → IsValid (expire lib q i now)
  unfolding expire
  expire-IsValid q i now v = elim (Bool-cases (ltb 0 (pos_part (q.nodes i).interval_msec))) [
    | inl again ↦ rw again (
        put_in-IsValid _ i (set_node-IsValid (take_out lib q i) i _ refl (take_out-IsValid q i v))
          (ground (arith, take_out-off q i)))
    | inr once ↦ rw once (take_out-IsValid q i v)
  ]
