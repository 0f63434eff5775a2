-- ===== src/Queue/Bsd.antt =====
-- FFOS/queue.h on BSD and macOS: attaching a descriptor, an event's flags, and the time of a wait.
use ffos.Base.{
  ℕ, ◌+◌, ◌*◌, ◌/◌, ◌%◌, ◌≡◌, ◌<◌, refl, Bool, true, false, Option, none, some, List, [], ◌∷◌, ◌++◌,
  ◌==◌, if◌then◌else◌, arith,
}

-- EVFILT_READ, EVFILT_WRITE, EVFILT_USER
pub data Filter : Type 0 where
  read_filter write_filter user_filter : Filter

-- EV_ADD | EV_CLEAR, EV_ADD | EV_ENABLE | EV_CLEAR, EV_DELETE, NOTE_TRIGGER
pub data Action : Type 0 where
  add add_enabled delete trigger : Action

-- `struct kevent`
pub record Kevent : Type 0 where
  pub ident : ℕ
  pub filter : Filter
  pub action : Action
  pub udata : ℕ

-- `ffkq_event_flags`: FFKQ_READ is 1, FFKQ_WRITE is 2.
unfoldable pub event_flags_bsd : Filter → ℕ
event_flags_bsd read_filter = 1
event_flags_bsd write_filter = 2
event_flags_bsd user_filter = 1

abbrev pub change : ℕ → Filter → ℕ → Kevent
change fd f d = record { ident = fd; filter = f; action = add; udata = d }

-- The array `evs` that `ffkq_attach` hands to kevent
unfoldable pub attach_changes : ℕ → ℕ → ℕ → List Kevent
attach_changes fd d flags =
    (if flags % 2 == 1 then change fd read_filter d ∷ [] else [])
    ++ (if (flags / 2) % 2 == 1 then change fd write_filter d ∷ [] else [])

pub record Timespec : Type 0 where
  pub tv_sec : ℕ
  pub tv_nsec : ℕ

-- `ffkq_time_set`
unfoldable pub time_set : ℕ → Timespec
time_set msec = record { tv_sec = msec / 1000; tv_nsec = (msec % 1000) * 1000000 }

abbrev post_id : ℕ
post_id = 1

-- `kevent(kq, &ev, 1, NULL, 0, NULL)`: whether it succeeds
module _ {E : Type 0} (kevent : ℕ → List Kevent → E → Bool × E) where
  -- `ffkq_attach`
  unfoldable pub attach_bsd : ℕ → ℕ → ℕ → ℕ → E → Bool × E
  attach_bsd kq fd d flags e = kevent kq (attach_changes fd d flags) e

  abbrev queue_if : ℕ → Bool × E → Option ℕ × E
  queue_if kq (true, e) = (some kq, e)
  queue_if kq (false, e) = (none, e)

  abbrev user_change : Action → ℕ → List Kevent
  user_change a d = record { ident = post_id; filter = user_filter; action = a; udata = d } ∷ []

  -- `ffkq_post_attach`, `ffkq_post_detach`, `ffkq_post`
  unfoldable pub post_attach_bsd : ℕ → E → Option ℕ × E
  post_attach_bsd kq e = queue_if kq (kevent kq (user_change add_enabled 0) e)

  unfoldable pub post_detach_bsd : Option ℕ → ℕ → E → E
  post_detach_bsd none kq e = e
  post_detach_bsd (some p) kq e = (kevent kq (user_change delete 0) e).1

  unfoldable pub post_bsd : ℕ → ℕ → E → Bool × E
  post_bsd kq d e = kevent kq (user_change trigger d) e

abbrev pub flags_sum : List Kevent → ℕ
flags_sum [] = 0
flags_sum (c ∷ cs) = event_flags_bsd c.filter + flags_sum cs

abbrev pub HasData : ℕ → ℕ → List Kevent → Type 0
HasData fd d [] = Unit
HasData fd d (c ∷ cs) = (c.ident ≡ fd) × (c.udata ≡ d) × HasData fd d cs

-- The events that the changes of ffkq_attach lead to have the flags that were asked for and no others,
-- and each has the user's data.
pub attach_changes-flags :
    (fd d flags : ℕ)
    → flags < 4
    → (flags_sum (attach_changes fd d flags) ≡ flags) × HasData fd d (attach_changes fd d flags)
unfolding attach_changes event_flags_bsd
attach_changes-flags fd d flags h = go (flags % 2 == 1) ((flags / 2) % 2 == 1) (ground (arith, h))
  where
    go :
        (r w : Bool)
        → (if r then 1 else 0) + (if w then 2 else 0) ≡ flags
        → (flags_sum (
              (if r then change fd read_filter d ∷ [] else [])
              ++ (if w then change fd write_filter d ∷ [] else []))
            ≡ flags)
          × HasData fd d (
              (if r then change fd read_filter d ∷ [] else [])
              ++ (if w then change fd write_filter d ∷ [] else []))
    go true true e = (omega (arith, e), (refl, refl, (refl, refl, tt)))
    go true false e = (omega (arith, e), (refl, refl, tt))
    go false true e = (omega (arith, e), (refl, refl, tt))
    go false false e = (omega (arith, e), tt)

-- The time of a wait is that of the milliseconds, in a form that kevent takes.
pub time_set_exact :
    (msec : ℕ)
    → ((time_set msec).tv_sec * 1000000000 + (time_set msec).tv_nsec ≡ msec * 1000000)
      × ((time_set msec).tv_nsec < 1000000000)
unfolding time_set
time_set_exact msec = (omega arith, omega arith)
