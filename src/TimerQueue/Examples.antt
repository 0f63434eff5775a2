-- ===== src/TimerQueue/Examples.antt =====
-- Runs of the timer queue on a tree that keeps its order and no balance, and the theorems at a queue
-- of two timers.
use ffos.Base.{
  ℕ, ◌+◌, ◌≡◌, refl, ap, ◌||◌, Option, none, some, List, [], ◌∷◌, ◌==◌, if◌then◌else◌, arith,
}
use ffos.Base.Int.{pos, negsuc}
use mathlib.Core.List.{head?}
use ffos.TimerQueue.{
  Node, Queue, node_insert, init, take_out, put_in, remove, add_node, add, expire, process_loop,
}
use ffos.TimerQueue.RbTree.{Tree, leaf, branch, inorder, erase, RbLib}
use ffos.TimerQueue.Valid.{IsValid}
use ffos.TimerQueue.Rounds.{LeavesValid, process-IsValid}
use ffos.TimerQueue.Order.{Timer, place, IsSorted}
use ffos.TimerQueue.Insert.{queued}
use ffos.TimerQueue.Process.{Program, calling, Ended, process_loop-Ended}
use ffos.TimerQueue.Add.{queued-add}

abbrev of_list : List ℕ → Tree
of_list [] = leaf
of_list (i ∷ l) = branch leaf i (of_list l)

inorder-of_list : (l : List ℕ) → inorder (of_list l) ≡ l
inorder-of_list [] = refl
inorder-of_list (i ∷ l) = ap (λ m. i ∷ m) (inorder-of_list l)

abbrev plain : RbLib
plain = record {
  balance = λ t. t;
  rm = λ t i. of_list (erase i (inorder t));
  min_node = λ t. head? (inorder t);
  inorder-balance = λ t. refl;
  inorder-rm = λ t i. inorder-of_list (erase i (inorder t));
  min_node_lem = λ t. refl;
}

-- Nodes 1 and 2 are in the queue, for the times 100 and 200, every 50 ms.
abbrev nodes : ℕ → Node
nodes j = record {
  key = if j == 1 then 100 else 200;
  interval_msec = pos 50;
  active = (j == 1) || (j == 2);
  func = 7;
  param = j;
}

abbrev two : Queue
two = record { tree = branch leaf 1 (branch leaf 2 leaf); nodes = nodes }

two-IsValid : IsValid two
two-IsValid j = ground arith

abbrev program : Program ℕ
program = record { interval = λ j. pos 50; func = λ j. 7; param = λ j. j; act = λ f x w. w + f + x }

functions : Unit {0}
unfolding node_insert init take_out put_in remove add_node add expire process_loop
functions = tt

abbrev times : Option (ℕ × (ℕ × Queue)) → List Timer
times none = []
times (some (n, (w, q))) = queued q

runs :
    (times (process_loop plain (calling program) 5 120 0 (0, two))
      ≡ record { id = 1; key = 150 } ∷ record { id = 2; key = 200 } ∷ [])
    × (queued (add plain two 3 130 (negsuc 19) 7 3)
        ≡ record { id = 1; key = 100 }
          ∷ record { id = 3; key = 150 }
          ∷ record { id = 2; key = 200 }
          ∷ [])
    × (inorder (remove plain two 1).0.tree ≡ 2 ∷ [])
unfolding functions
runs = (refl, refl, refl)

process_loop-Ended_example :
    Ended
      (process_loop plain (calling program) 5 120 0 (0, two))
      1
      8
      (record { id = 1; key = 150 } ∷ record { id = 2; key = 200 } ∷ [])
process_loop-Ended_example =
    process_loop-Ended plain program 50 120 (omega arith) (omega arith)
      (record { id = 1; key = 100 } ∷ []) (record { id = 2; key = 200 } ∷ []) 5 0 0 two
      (omega arith)
      (record {
        valid = two-IsValid;
        runs = record { interval_is = λ j. refl; func_is = λ j. refl; param_is = λ j. refl };
        order = refl;
        sorted = ((omega arith, tt), (tt, tt));
        within = (omega arith, (omega arith, tt));
        are_due = (omega arith, tt);
        wait = (omega arith, tt);
        come_back = (λ h. (omega arith, omega arith), tt);
      })

process-IsValid_example : LeavesValid (process_loop plain (calling program) 5 120 0 (0, two))
process-IsValid_example =
    process-IsValid plain (calling program) (λ f p w q v. v) 5 120 0 0 two two-IsValid

queued-add_example :
    (queued (add plain two 3 130 (pos 20) 7 3)
      ≡ place 50 (record { id = 3; key = 150 }) (queued two))
    × IsSorted 50 (queued (add plain two 3 130 (pos 20) 7 3))
queued-add_example =
    queued-add plain 50 (omega arith) two 3 130 (pos 20) 7 3 two-IsValid refl (omega arith)
      (omega arith, (omega arith, tt)) ((omega arith, tt), (tt, tt))
