-- ===== src/Queue.antt =====
-- FFOS/queue.h: the kernel queue; here on Linux, with the user's event, and in the children on BSD and
-- Windows. The system calls are parameters.
pub mod Post
pub mod Bsd
pub mod Windows
pub mod Examples
use ffos.Base.{
  ℕ, zero, suc, ◌+◌, ◌-◌, ◌/◌, ◌%◌, ◌≡◌, Bool, true, false, Option, none, some, ◌==◌, if◌then◌else◌,
}
use ffos.Base.Int.{ℤ, pos, negsuc}

-- FFKQ_READ, FFKQ_READWRITE and EPOLLERR; EPOLLET is the bit 31.
abbrev pub ffkq_read : ℕ
ffkq_read = 1

abbrev pub ffkq_readwrite : ℕ
ffkq_readwrite = 5

abbrev pub epollet : ℕ
epollet = 0x80000000

abbrev pub has_error : ℕ → Bool
has_error events = (events / 8) % 2 == 1

abbrev pub has_edge : ℕ → Bool
has_edge events = (events / epollet) % 2 == 1

-- `struct epoll_event`
pub record EpollEvent : Type 0 where
  pub events : ℕ
  pub data_ptr : ℕ

-- By how much a call's result raises the number of open descriptors
abbrev pub held : Option ℕ → ℕ
held none = 0
held (some fd) = 1

-- What the system does, with the number of open descriptors and the counters of the events' descriptors
pub record EpollSys (E : Type 0) : Type 0 where
  -- epoll_ctl with EPOLL_CTL_ADD, eventfd(0, EFD_NONBLOCK), close
  pub epoll_add : ℕ → ℕ → EpollEvent → E → Bool × E
  pub eventfd : E → Option ℕ × E
  pub close : ℕ → E → E
  -- The results of write(post, &1, 8) and of read(post, &val, 8)
  pub write_one : ℕ → E → ℤ × E
  pub read_value : ℕ → E → ℤ × E
  pub open_count : E → ℕ
  pub counter : ℕ → E → ℕ
  pub count-add :
      (kq fd : ℕ) (v : EpollEvent) (e : E) → open_count (epoll_add kq fd v e).1 ≡ open_count e
  pub count-close : (fd : ℕ) (e : E) → open_count (close fd e) ≡ open_count e - 1
  pub count-eventfd : (e : E) → open_count (eventfd e).1 ≡ open_count e + held (eventfd e).0
  -- A read takes the counter down to zero; it fails if that is what it is.
  pub read-counter : (fd : ℕ) (e : E) → counter fd (read_value fd e).1 ≡ 0
  pub read-zero : (fd : ℕ) (e : E) → counter fd e ≡ 0 → (read_value fd e).0 ≡ negsuc 0
  pub write-counter :
      (fd : ℕ) (e : E)
      → (write_one fd e).0 ≡ pos 8
      → counter fd (write_one fd e).1 ≡ counter fd e + 1

-- `ffkq_event_flags`
unfoldable pub event_flags : EpollEvent → ℕ
event_flags ev = if has_error ev.events then ffkq_readwrite else ev.events

-- The event that `ffkq_attach` asks for: `flags | EPOLLET`
abbrev pub edge_event : ℕ → ℕ → EpollEvent
edge_event flags d = record {
  events = if has_edge flags then flags else flags + epollet;
  data_ptr = d;
}

module _ {E : Type 0} (sys : EpollSys E) where
  open sys use {epoll_add, eventfd, close, write_one, read_value}

  -- `ffkq_attach`
  unfoldable pub attach : ℕ → ℕ → ℕ → ℕ → E → Bool × E
  attach kq fd d flags e = epoll_add kq fd (edge_event flags d) e

  -- Behind ffkq_attach: the descriptor is kept, or closed.
  abbrev pub kept : ℕ → Bool × E → Option ℕ × E
  kept fd (true, e) = (some fd, e)
  kept fd (false, e) = (none, close fd e)

  abbrev pub attached : ℕ → ℕ → Option ℕ × E → Option ℕ × E
  attached kq d (none, e) = (none, e)
  attached kq d (some fd, e) = kept fd (attach kq fd d ffkq_read e)

  -- `ffkq_post_attach`
  unfoldable pub post_attach : ℕ → ℕ → E → Option ℕ × E
  post_attach kq d e = attached kq d (eventfd e)

  -- `ffkq_post_detach`
  unfoldable pub post_detach : Option ℕ → E → E
  post_detach none e = e
  post_detach (some post) e = close post e

  abbrev pub written : ℤ × E → Bool × E
  written (pos n, e) = (n == 8, e)
  written (negsuc n, e) = (false, e)

  -- `ffkq_post`: whether it succeeds
  unfoldable pub post : ℕ → E → Bool × E
  post fd e = written (write_one fd e)

  abbrev pub until_error : (E → Option E) → ℤ × E → Option E
  until_error loop (pos n, e) = loop e
  until_error loop (negsuc n, e) = some e

  -- `ffkq_post_consume`, on fuel
  unfoldable pub post_consume : ℕ → ℕ → E → Option E
  post_consume zero fd e = none
  post_consume (suc fuel) fd e = until_error (post_consume fuel fd) (read_value fd e)
