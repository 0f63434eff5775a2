-- ===== src/Queue/Post.antt =====
-- The user's event of FFOS/queue.h on Linux: descriptors, and its signals.
use ffos.Base.{
  ℕ, zero, suc, ◌+◌, ◌≡◌, ◌<◌, refl, ap, ◌∙◌, Bool, true, false, Option, none, some, arith,
}
use ffos.Base.Int.{ℤ, pos, negsuc}
use ffos.Queue.{
  EpollSys, attach, kept, attached, post_attach, post_detach, written, post, until_error,
  post_consume, edge_event, ffkq_read, held,
}

module _ {E : Type 0} (sys : EpollSys E) where
  open sys use {
    epoll_add, eventfd, close, write_one, read_value, open_count, counter, count-add, count-close,
    count-eventfd, read-counter, read-zero, write-counter,
  }

  abbrev IsHeld : E → Option ℕ × E → Type 0
  IsHeld e r =
      (open_count r.1 ≡ open_count e + held r.0)
      × (open_count (post_detach sys r.0 r.1) ≡ open_count e)

  kept-IsHeld :
      (e : E) (fd : ℕ) (r : Bool × E) → open_count r.1 ≡ open_count e + 1 → IsHeld e (kept sys fd r)
  unfolding post_detach
  kept-IsHeld e fd (true, e1) h = (h, omega (arith, count-close fd e1, h))
  kept-IsHeld e fd (false, e1) h =
      (omega (arith, count-close fd e1, h), omega (arith, count-close fd e1, h))

  attached-IsHeld :
      (e : E) (kq d : ℕ) (r : Option ℕ × E)
      → open_count r.1 ≡ open_count e + held r.0
      → IsHeld e (attached sys kq d r)
  unfolding post_detach attach
  attached-IsHeld e kq d (none, e1) h = (h, omega (arith, h))
  attached-IsHeld e kq d (some fd, e1) h =
      kept-IsHeld e fd (attach sys kq fd d ffkq_read e1)
        (count-add kq fd (edge_event ffkq_read d) e1 ∙ h)

  -- Whatever fails, ffkq_post_attach leaves one descriptor more open if it returns one, and otherwise
  -- as many as before; ffkq_post_detach of what it returned closes it.
  pub post_attach-open_count :
      (kq d : ℕ) (e : E)
      → (open_count (post_attach sys kq d e).1 ≡ open_count e + held (post_attach sys kq d e).0)
        × (open_count (post_detach sys (post_attach sys kq d e).0 (post_attach sys kq d e).1)
            ≡ open_count e)
  unfolding post_attach
  post_attach-open_count kq d e = attached-IsHeld e kq d (eventfd e) (count-eventfd e)

  ended_at : (loop : E → Option E) (r : ℤ × E) → r.0 ≡ negsuc 0 → until_error sys loop r ≡ some r.1
  ended_at loop (pos n, e) h = absurd (cc)
  ended_at loop (negsuc n, e) h = refl

  behind_read :
      (n fd : ℕ) (r : ℤ × E)
      → counter fd r.1 ≡ 0
      → (e1 : E) × (until_error sys (post_consume sys (suc n) fd) r ≡ some e1) × (counter fd e1 ≡ 0)
  unfolding post_consume
  behind_read n fd (pos k, e) h = (
    (read_value fd e).1,
    ended_at (post_consume sys n fd) (read_value fd e) (read-zero fd e h),
    read-counter fd e,
  )
  behind_read n fd (negsuc k, e) h = (e, refl, h)

  written_eight : (r : ℤ × E) → (written sys r).0 ≡ true → (r.0 ≡ pos 8) × ((written sys r).1 ≡ r.1)
  written_eight (pos n, e) h = (ap pos (ground (arith, h)), refl)
  written_eight (negsuc n, e) h = absurd (cc)

  post_consumed :
      (fd : ℕ) (e : E)
      → counter fd e ≡ 0
      → (post sys fd e).0 ≡ true
      → counter fd (post sys fd e).1 ≡ 1
  unfolding post
  post_consumed fd e h ok =
      let (eight, world) = written_eight (write_one fd e) ok in
      ap (counter fd) world ∙ omega (arith, write-counter fd e eight, h)

  -- From every value of the counter, two reads are enough for ffkq_post_consume; it ends, and the event
  -- is consumed. A post behind it that succeeds sets the event again.
  pub post_consume-post :
      (fuel fd : ℕ) (e : E)
      → 1 < fuel
      → (e1 : E) × (post_consume sys fuel fd e ≡ some e1)
        × (counter fd e1 ≡ 0)
        × ((post sys fd e1).0 ≡ true → counter fd (post sys fd e1).1 ≡ 1)
  unfolding post_consume
  post_consume-post zero fd e h = elim h [ ]
  post_consume-post (suc zero) fd e h = absurd (omega arith)
  post_consume-post (suc (suc n)) fd e h =
      let (e1, ends, zeroed) = behind_read n fd (read_value fd e) (read-counter fd e) in
      (e1, ends, zeroed, post_consumed fd e1 zeroed)
