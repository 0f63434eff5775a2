-- ===== src/Kcall/Async.antt =====
-- The asynchronous functions of FFOS/kcall.h, branch by branch.
use ffos.Base.{
  ℕ, ◌≡◌, ◌≢◌, ◌<◌, ◌≤◌, refl, ap, subst, sym, ◌∙◌, true, false, none, [], ◌∷◌, ◌++◌, length, arith,
}
use ffos.Kcall.{
  Op, idle, op_open, is_idle, Kcall, int_of, int_minus_one, Codes, State, set_call, set_errno,
  added_to, add_call, async, open_async,
}
use ffos.Kcall.Outside.{RingLib, Sys, SysCall, open_file}

module _ (rings : RingLib) {E : Type 0} (sys : Sys E) (codes : Codes) where
  open rings use {Ring, add, items, capacity}
  open sys use {last_error}
  open codes use {einprogress, ebusy, eagain}

  -- A call that is in the submission queue, as the submitting functions leave it.
  pub record Submitted (s : State rings sys) (k : ℕ) (call : Kcall) (t : State rings sys)
      : Type 0 where
    pub queue_is : items t.sq ≡ items s.sq ++ (k ∷ [])
    pub cq_is : t.cq ≡ s.cq
    pub has_post_is : t.has_post ≡ s.has_post
    pub call_is : t.calls k ≡ call
    pub others : (j : ℕ) → j ≢ k → t.calls j ≡ s.calls j
    pub errno_is : last_error t.outside ≡ einprogress

  added_to-Submitted :
      (s : State rings sys) (k : ℕ) (op : Op) (c : Kcall) (sq' : Ring)
      → items sq' ≡ items s.sq ++ (k ∷ [])
      → Submitted s k
          (record c { op = op })
          (added_to rings sys codes
            (set_call rings sys (set_call rings sys s k c) k (record c { op = op }))
            sq')
  added_to-Submitted s k op c sq' queue_is = record {
    queue_is = ground (arith, queue_is);
    cq_is = ground arith;
    has_post_is = ground arith;
    call_is = ground arith;
    others = λ j ne. ground (arith, ne);
    errno_is = sys.last_error-set_error einprogress _;
  }

  -- With room in the queue `_ffkcall_add` submits the call and wakes the thread that performs it.
  add_call-Submitted :
      (s : State rings sys) (k : ℕ) (op : Op) (c : Kcall)
      → length (items s.sq) < capacity s.sq
      → Submitted s k
          (record c { op = op })
          (add_call rings sys codes k op (set_call rings sys s k c))
  unfolding add_call
  add_call-Submitted s k op c room =
      let (sq', added, queue_is, _) = rings.add_room s.sq k room in
      let s' : State rings sys = set_call rings sys s k c in
      let there : s'.calls k ≡ c = ground arith in
      let enqueued : add_call rings sys codes k op s'
          ≡ added_to rings sys codes (set_call rings sys s' k (record (s'.calls k) { op = op }))
              sq' =
        rw (added, add_call) in
      subst (Submitted s k (record c { op = op }))
        (sym (
          enqueued ∙ (λ i.
            added_to rings sys codes (set_call rings sys s' k (record (there i) { op = op })) sq')))
        (added_to-Submitted s k op c sq' queue_is)

  module _ (direct : SysCall) (failed : ℕ) (answer : ℕ → ℕ) (fill : Kcall → Kcall) (op : Op) where
    -- A call that is at rest is submitted, if there is room.
    pub async-Submitted :
        (s : State rings sys) (k : ℕ)
        → (s.calls k).has_queue ≡ true
        → (s.calls k).state ≡ 0
        → (s.calls k).op ≡ idle
        → length (items s.sq) < capacity s.sq
        → (t : State rings sys) × (async rings sys codes direct failed answer fill op k s
            ≡ (failed, t))
          × Submitted s k (record (fill (s.calls k)) { op = op }) t
    unfolding async
    async-Submitted s k q st at_rest room = (
      add_call rings sys codes k op (set_call rings sys s k (fill (s.calls k))),
      rw (q, st, at_rest),
      add_call-Submitted s k op (fill (s.calls k)) room,
    )

  -- If the queue is full the call is refused with EAGAIN and is at rest again.
  pub add_call_full :
      (s : State rings sys) (k : ℕ) (op : Op)
      → capacity s.sq ≤ length (items s.sq)
      → let t = add_call rings sys codes k op s in
        (t.sq ≡ s.sq)
        × ((t.calls k).op ≡ idle)
        × ((t.calls k).state ≡ (s.calls k).state)
        × (last_error t.outside ≡ eagain)
  unfolding add_call
  add_call_full s k op full =
      let e : add s.sq k ≡ none = rings.add_full s.sq k full in
      rw (e, add_call) (refl, ground arith, ground arith, sys.last_error-set_error eagain _)

  -- A call that has an operation and is in no queue hands over its result: the words of the union
  -- where result and error stand. It is at rest then.
  pub async-collect :
      (direct : SysCall) (failed : ℕ) (answer : ℕ → ℕ) (fill : Kcall → Kcall) (op : Op)
      (s : State rings sys) (k : ℕ)
      → (s.calls k).has_queue ≡ true
      → (s.calls k).state ≡ 0
      → is_idle (s.calls k).op ≡ false
      → async rings sys codes direct failed answer fill op k s ≡ (
        answer (s.calls k).word1,
        set_errno rings sys
            (s.calls k).word0
            (set_call rings sys s k (record (s.calls k) { op = idle })),
      )
  unfolding async
  async-collect direct failed answer fill op s k q st busy = rw (q, st, busy)

  -- `fffile_open_async` called again at once, before the call has been performed: no EBUSY, but the
  -- name's address as the file descriptor and the flags as the error code, for the member `state` of
  -- a submitted call is still 0.
  pub open_async_twice :
      (s : State rings sys) (k name flags : ℕ)
      → (s.calls k).has_queue ≡ true
      → (s.calls k).state ≡ 0
      → (s.calls k).op ≡ idle
      → length (items s.sq) < capacity s.sq
      → let (r, t) = open_async rings sys codes name flags k s in
        let (r', t') = open_async rings sys codes name flags k t in
        (r ≡ int_minus_one)
        × (last_error t.outside ≡ einprogress)
        × (r' ≡ int_of name)
        × (last_error t'.outside ≡ flags)
        × (items t'.sq ≡ items s.sq ++ (k ∷ []))
  unfolding open_async
  open_async_twice s k name flags q st at_rest room =
      let fill : Kcall → Kcall = λ c. record c { word1 = name; word0 = flags } in
      let (t, first, sub) =
        async-Submitted (open_file name flags) int_minus_one int_of fill op_open s k q st at_rest
          room in
      let queue : (t.calls k).has_queue ≡ true = ap (λ c. c.has_queue) sub.call_is ∙ q in
      let state : (t.calls k).state ≡ 0 = ap (λ c. c.state) sub.call_is ∙ st in
      let busy : is_idle (t.calls k).op ≡ false = ap (λ c. is_idle c.op) sub.call_is in
      let name_is : (t.calls k).word1 ≡ name = ap (λ c. c.word1) sub.call_is in
      let flags_is : (t.calls k).word0 ≡ flags = ap (λ c. c.word0) sub.call_is in
      let second =
        async-collect (open_file name flags) int_minus_one int_of fill op_open t k queue state
          busy in
      let first_is : open_async rings sys codes name flags k s ≡ (int_minus_one, t) = first in
      let second_is : open_async rings sys codes name flags k t ≡ (
        int_of (t.calls k).word1,
        set_errno rings sys (t.calls k).word0
            (set_call rings sys t k (record (t.calls k) { op = idle })),
      ) =
        second in
      rw (first_is, second_is)
        (
          refl,
          sub.errno_is,
          ap int_of name_is,
          sys.last_error-set_error _ _ ∙ flags_is,
          sub.queue_is,
        )
