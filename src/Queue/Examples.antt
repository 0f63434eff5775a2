-- ===== src/Queue/Examples.antt =====
-- Runs of the functions of FFOS/queue.h, and the theorems at concrete inputs.
use ffos.Base.{ℕ, zero, suc, ◌+◌, ◌-◌, ◌≡◌, refl, true, false, none, some, arith}
use ffos.Base.Int.{ℤ, pos, negsuc}
use ffos.Queue.{EpollSys, ffkq_readwrite, event_flags, edge_event, post, post_consume}
use ffos.Queue.Post.{post_consume-post}
use ffos.Queue.Bsd.{attach_changes, attach_changes-flags, flags_sum, HasData}
use ffos.Queue.Windows.{CompletionPort}

-- The number of open descriptors, and the counter of the one event
abbrev read_counter : ℕ × ℕ → ℤ × (ℕ × ℕ)
read_counter (n, zero) = (negsuc 0, (n, zero))
read_counter (n, suc c) = (pos 8, (n, zero))

read_counter-zero : (e : ℕ × ℕ) → (read_counter e).1.1 ≡ 0
read_counter-zero (n, zero) = refl
read_counter-zero (n, suc c) = refl

read_counter-empty : (e : ℕ × ℕ) → e.1 ≡ 0 → (read_counter e).0 ≡ negsuc 0
read_counter-empty (n, zero) h = refl
read_counter-empty (n, suc c) h = absurd (omega (arith, h))

-- The queue takes no descriptors.
abbrev full_queue : EpollSys (ℕ × ℕ)
full_queue = record {
  epoll_add = λ kq fd v e. (false, e);
  eventfd = λ e. (some 7, (e.0 + 1, 0));
  close = λ fd e. (e.0 - 1, e.1);
  write_one = λ fd e. (pos 8, (e.0, e.1 + 1));
  read_value = λ fd e. read_counter e;
  open_count = λ e. e.0;
  counter = λ fd e. e.1;
  count-add = λ kq fd v e. refl;
  count-close = λ fd e. refl;
  count-eventfd = λ e. refl;
  read-counter = λ fd e. read_counter-zero e;
  read-zero = λ fd e. read_counter-empty e;
  write-counter = λ fd e h. refl;
}

-- EPOLLIN | EPOLLERR is readable and writable.
event_runs :
    (event_flags (record { events = 9; data_ptr = 1 }) ≡ ffkq_readwrite)
    × (event_flags (record { events = 4; data_ptr = 1 }) ≡ 4)
    × ((edge_event 1 5).events ≡ 0x80000001)
unfolding event_flags
event_runs = (refl, refl, refl)

post_consume-post_example :
    (e1 : ℕ × ℕ) × (post_consume full_queue 2 7 (3, 4) ≡ some e1)
    × (e1.1 ≡ 0)
    × ((post full_queue 7 e1).0 ≡ true → (post full_queue 7 e1).1.1 ≡ 1)
post_consume-post_example = post_consume-post full_queue 2 7 (3, 4) (omega arith)

attach_changes-flags_example :
    (flags_sum (attach_changes 4 9 3) ≡ 3) × HasData 4 9 (attach_changes 4 9 3)
attach_changes-flags_example = attach_changes-flags 4 9 3 (omega arith)

-- No completion comes.
abbrev quiet_port : CompletionPort ℕ
quiet_port = record {
  get_many = λ kq n t e. (none, 258);
  get_one = λ kq t e. ((false, record { key = 0; overlapped = none }), 258);
  post_status = λ kq d e. (true, e);
  associate = λ fd kq d e. (true, e);
  last_error = λ e. e;
}
