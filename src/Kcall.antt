-- ===== src/Kcall.antt =====
-- FFOS/kcall.h: kernel calls that one thread submits and another performs, on UNIX with 64-bit words.
-- A `struct ffkcall` is known by its address; the calls are a store from addresses.
-- Two things are not FFOS's: the ring queues of ffbase (`RingLib`) and the operating system (`Sys`).
pub mod Outside
pub mod Async
pub mod Examples
use ffos.Base.{
  ℕ, zero, suc, ◌+◌, ◌-◌, ◌%◌, ◌^◌, ◌≡◌, Bool, true, false, not, ◌&&◌, ◌||◌, Option, none, some,
  List, [], ◌∷◌, ◌==◌, ltb, if◌then◌else◌,
}
use Outside.{RingLib, Sys, SysCall, open_file, file_info, read_file, write_file, resolve}

-- `enum FFKCALL_OP`; `idle` is 0.
pub data Op : Type 0 where
  idle op_open op_info op_read op_write op_resolve : Op

abbrev pub is_idle : Op → Bool
is_idle idle = true
is_idle _ = false

-- The members of the union overlap: `word0` is error, flags, fd_info and fd (bytes 0 to 3), `word1` is
-- result, name, finfo and buf (bytes 8 to 15), `word2` is size (bytes 16 to 23).
pub record Kcall : Type 0 where
  pub has_queue : Bool
  pub op : Op
  pub state : ℕ
  pub word0 : ℕ
  pub word1 : ℕ
  pub word2 : ℕ
  pub handler : ℕ
  pub param : ℕ

abbrev pub minus_one : ℕ
minus_one = 2 ^ 64 - 1

-- `(int)x` as a bit pattern, widened again when it is compared with -1.
abbrev pub int_of : ℕ → ℕ
int_of x = x % 2 ^ 32

abbrev pub int_minus_one : ℕ
int_minus_one = 2 ^ 32 - 1

pub record Codes : Type 0 where
  pub einprogress : ℕ
  pub ebusy : ℕ
  pub eagain : ℕ

-- FFKCALL_E... on Linux: EINPROGRESS, EBUSY, EAGAIN
abbrev pub linux : Codes
linux = record { einprogress = 115; ebusy = 16; eagain = 11 }

module _ (rings : RingLib) {E : Type 0} (sys : Sys E) where
  open rings use {Ring, add, fetch}
  open sys use {last_error, set_error, perform, post_sem, post_event}

  -- `struct ffkcallqueue` with the calls and all that is outside; `has_sem` and `has_post` say that
  -- the optional semaphore and event are there.
  pub record State : Type 0 where
    pub sq : Ring
    pub cq : Ring
    pub has_sem : Bool
    pub has_post : Bool
    pub calls : ℕ → Kcall
    pub outside : E

  abbrev pub set_call : State → ℕ → Kcall → State
  set_call s k c = record s { calls = λ j. if j == k then c else s.calls j }

  -- The system call of an operation, with the arguments that it finds in the union.
  abbrev pub request : Kcall → Op → Option SysCall
  request c idle = none
  request c op_open = some (open_file c.word1 c.word0)
  request c op_info = some (file_info c.word0 c.word1)
  request c op_read = some (read_file c.word0 c.word1 c.word2)
  request c op_write = some (write_file c.word0 c.word1 c.word2)
  request c op_resolve = some (resolve c.word1 c.word0)

  -- `_ffkcall_exec`: `none` for the return value -1.
  unfoldable pub exec : Kcall → E → Option (Kcall × E)
  exec c e = elim (request c c.op) [
    | none ↦ none
    | some r ↦
        let (result, e') = perform r e in
        some (record c { word1 = result; word0 = last_error e' }, e')
  ]

  -- The end of a loop: it has returned, an `assert(0)` was met, or the model's fuel is used up.
  pub data Run : Type 0 where
    returned asserted : State → Run
    stuck : Run

  -- The wake-up of the reader of the completion queue.
  abbrev pub notify : ℕ → State → Run
  notify used s =
      if (used == 0) && s.has_post
      then (let (posted, e) = post_event s.outside in
          if posted
          then returned (record s { outside = e })
          else asserted (record s { outside = e }))
      else returned s

  -- One item of the submission queue, behind the fetch.
  unfoldable pub submit_one : ℕ → State → Run
  submit_one k s = elim (exec (s.calls k) s.outside) [
    | none ↦ returned (set_call s k (record (s.calls k) { state = 0 }))
    | some (c, e) ↦
        let s' = set_call (record s { outside = e }) k (record c { state = 2 }) in
        elim (add s.cq k) [
          | none ↦ asserted s'
          | some (used, cq') ↦ notify used (record s' { cq = cq' })
        ]
  ]

  abbrev pub then_run : Run → (State → Run) → Run
  then_run (returned s) rest = rest s
  then_run (asserted s) rest = asserted s
  then_run stuck rest = stuck

  -- `ffkcallq_process_sq`
  unfoldable pub process_sq : ℕ → State → Run
  process_sq zero s = stuck
  process_sq (suc fuel) s = elim (fetch s.sq) [
    | none ↦ returned s
    | some (k, sq') ↦ then_run (submit_one k (record s { sq = sq' })) (λ s'. process_sq fuel s')
  ]

  -- One item of the completion queue: `handle` is what the handler does to the program.
  unfoldable pub complete_one : (ℕ → ℕ → State → State) → ℕ → State → State
  complete_one handle k s =
      let s' = set_call s k (record (s.calls k) { state = 0 }) in
      if is_idle (s.calls k).op then s' else handle (s.calls k).handler (s.calls k).param s'

  -- `ffkcallq_process_cq`
  unfoldable pub process_cq : (ℕ → ℕ → State → State) → ℕ → State → Run
  process_cq handle zero s = stuck
  process_cq handle (suc fuel) s = elim (fetch s.cq) [
    | none ↦ returned s
    | some (k, cq') ↦ process_cq handle fuel (complete_one handle k (record s { cq = cq' }))
  ]

  -- `ffkcall_cancel`
  unfoldable pub cancel : ℕ → State → State
  cancel k s = set_call s k (record (s.calls k) { op = idle })

  abbrev pub set_errno : ℕ → State → State
  set_errno c s = record s { outside = set_error c s.outside }

  module _ (codes : Codes) where
    open codes use {einprogress, ebusy, eagain}

    -- What `_ffkcall_add` does once the call is in the queue.
    abbrev pub added_to : State → Ring → State
    added_to s sq' =
        let s' = record s { sq = sq' } in
        set_errno einprogress
          (if s.has_sem then record s' { outside = post_sem s'.outside } else s')

    -- `_ffkcall_add`
    unfoldable pub add_call : ℕ → Op → State → State
    add_call k op s = elim (add s.sq k) [
      | none ↦ set_errno eagain (set_call s k (record (s.calls k) { op = idle }))
      | some (_, sq') ↦ added_to (set_call s k (record (s.calls k) { op = op })) sq'
    ]

    -- The four ways through an asynchronous function: `direct` is the call when there is no queue,
    -- `failed` the value returned for an error, `answer` the conversion of the result, and `fill`
    -- stores the arguments.
    unfoldable pub async : SysCall → ℕ → (ℕ → ℕ) → (Kcall → Kcall) → Op → ℕ → State → ℕ × State
    async direct failed answer fill op k s =
        let c = s.calls k in
        if not c.has_queue
        then (let (r, e) = perform direct s.outside in (answer r, record s { outside = e }))
        else if not (c.state == 0)
        then (failed, set_errno ebusy s)
        else if not (is_idle c.op)
        then (answer c.word1, set_errno c.word0 (set_call s k (record c { op = idle })))
        else (failed, add_call k op (set_call s k (fill c)))

    unfoldable pub open_async : ℕ → ℕ → ℕ → State → ℕ × State
    unfolding async
    open_async name flags k s =
        async (open_file name flags) int_minus_one int_of
          (λ c. record c { word1 = name; word0 = flags }) op_open k s

    unfoldable pub info_async : ℕ → ℕ → ℕ → State → ℕ × State
    unfolding async
    info_async fd fi k s =
        async (file_info fd fi) int_minus_one int_of (λ c. record c { word0 = fd; word1 = fi })
          op_info k s

    unfoldable pub read_async : ℕ → ℕ → ℕ → ℕ → State → ℕ × State
    unfolding async
    read_async fd buf size k s =
        async (read_file fd buf size) minus_one (λ r. r)
          (λ c. record c { word0 = fd; word1 = buf; word2 = size }) op_read k s

    unfoldable pub write_async : ℕ → ℕ → ℕ → ℕ → State → ℕ × State
    unfolding async
    write_async fd buf size k s =
        async (write_file fd buf size) minus_one (λ r. r)
          (λ c. record c { word0 = fd; word1 = buf; word2 = size }) op_write k s

    unfoldable pub resolve_async : ℕ → ℕ → ℕ → State → ℕ × State
    unfolding async
    resolve_async name flags k s =
        async (resolve name flags) 0 (λ r. r) (λ c. record c { word1 = name; word0 = flags })
          op_resolve k s
