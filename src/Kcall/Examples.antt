-- ===== src/Kcall/Examples.antt =====
-- Runs of the kernel calls on queues that are bounded lists and on a system that answers every call
-- with 10 and no error, and the theorems at such inputs.
use ffos.Base.{
  ℕ, ◌≡◌, ◌≤◌, refl, true, Option, none, some, List, [], ◌∷◌, ◌++◌, length, ltb, if◌then◌else◌,
  lt→ltb, arith,
}
use ffos.Kcall.{
  idle, op_open, Kcall, State, Run, returned, linux, int_of, int_minus_one, async, add_call,
  open_async, info_async, read_async, write_async, resolve_async, exec, submit_one, process_sq,
  complete_one, process_cq,
}
use ffos.Kcall.Outside.{RingLib, Sys}
use ffos.Kcall.Async.{open_async_twice}

abbrev put : List ℕ × ℕ → ℕ → Option (ℕ × (List ℕ × ℕ))
put (l, n) x = if ltb (length l) n then some (length l, (l ++ (x ∷ []), n)) else none

abbrev take : List ℕ × ℕ → Option (ℕ × (List ℕ × ℕ))
take ([], n) = none
take (x ∷ l, n) = some (x, (l, n))

take_empty : (r : List ℕ × ℕ) → r.0 ≡ [] → take r ≡ none
take_empty ([], n) e = refl
take_empty (x ∷ l, n) e = cc

take_item :
    (r : List ℕ × ℕ) (x : ℕ) (l : List ℕ)
    → r.0 ≡ x ∷ l
    → (r' : List ℕ × ℕ) × (take r ≡ some (x, r')) × (r'.0 ≡ l) × (r'.1 ≡ r.1)
take_item ([], n) x l e = cc
take_item (y ∷ m, n) x l e = ((m, n), cc, cc, refl)

put_full : (r : List ℕ × ℕ) (x : ℕ) → r.1 ≤ length r.0 → put r x ≡ none
put_full r x h = ground (arith, h)

abbrev bounded : RingLib
bounded = record {
  Ring = List ℕ × ℕ;
  add = put;
  fetch = take;
  items = λ r. r.0;
  capacity = λ r. r.1;
  add_room = λ r x h. ((r.0 ++ (x ∷ []), r.1), rw (lt→ltb _ _ h) refl, refl, refl);
  add_full = λ r x h. put_full r x h;
  fetch_empty = take_empty;
  fetch_item = take_item;
}

-- Outside there is the error code.
abbrev ten : Sys ℕ
ten = record {
  last_error = λ e. e;
  set_error = λ c e. c;
  perform = λ r e. (10, 0);
  post_sem = λ e. e;
  post_event = λ e. (true, e);
  last_error-set_error = λ c e. refl;
}

abbrev rest : Kcall
rest = record {
  has_queue = true;
  op = idle;
  state = 0;
  word0 = 0;
  word1 = 0;
  word2 = 0;
  handler = 0;
  param = 0;
}

abbrev start : State bounded ten
start = record {
  sq = ([], 1);
  cq = ([], 1);
  has_sem = true;
  has_post = true;
  calls = λ k. rest;
  outside = 0;
}

functions : Unit {0}
unfolding async add_call open_async info_async read_async write_async resolve_async exec submit_one
    process_sq complete_one process_cq
functions = tt

-- The whole way of a read: submitted, performed, completed and collected.
abbrev state_of : State bounded ten → Run bounded ten → State bounded ten
state_of d (returned s) = s
state_of d _ = d

abbrev quiet : ℕ → ℕ → State bounded ten → State bounded ten
quiet h p s = s

runs :
    let s1 = (read_async bounded ten linux 3 64 16 5 start).1 in
    let s2 = state_of start (process_sq bounded ten 2 s1) in
    let s3 = state_of start (process_cq bounded ten quiet 2 s2) in
    (s1.sq ≡ (5 ∷ [], 1))
    × (s1.outside ≡ 115)
    × (s2.cq ≡ (5 ∷ [], 1))
    × ((read_async bounded ten linux 3 64 16 5 s2).1.outside ≡ 16)
    × ((read_async bounded ten linux 3 64 16 5 s3).0 ≡ 10)
unfolding functions
runs = (refl, refl, refl, refl, refl)

abbrev fill_name : Kcall → Kcall
fill_name c = record c { word1 = 64; word0 = 2 }

abbrev full : State bounded ten
full = record start { sq = (8 ∷ [], 1) }

-- Call 5 has been performed and completed, with the result 10 and the error code 4.
abbrev done : State bounded ten
done = record start { calls = λ k. record rest { op = op_open; word1 = 10; word0 = 4 } }

open_async_twice_example :
    let t = (open_async bounded ten linux 64 2 5 start).1 in
    ((open_async bounded ten linux 64 2 5 start).0 ≡ int_minus_one)
    × (t.outside ≡ 115)
    × ((open_async bounded ten linux 64 2 5 t).0 ≡ int_of 64)
    × ((open_async bounded ten linux 64 2 5 t).1.outside ≡ 2)
    × ((open_async bounded ten linux 64 2 5 t).1.sq.0 ≡ 5 ∷ [])
open_async_twice_example =
    open_async_twice bounded ten linux start 5 64 2 refl refl refl (omega arith)
