-- ===== src/Queue/Windows.antt =====
-- FFOS/queue.h on Windows: waiting for completions, on new and on old systems, and the user's event.
use ffos.Base.{
  ℕ, ◌≡◌, ◌≢◌, refl, ap, sym, ◌∙◌, Bool, true, false, Option, none, some, ◌==◌, if◌then◌else◌,
  if_both, arith,
}
use ffos.Base.Int.{ℤ, pos, negsuc}

-- WAIT_TIMEOUT
abbrev pub wait_timeout : ℕ
wait_timeout = 258

-- What GetQueuedCompletionStatus stores: the key, and the task's OVERLAPPED if it took a completion
pub record Completion : Type 0 where
  pub key : ℕ
  pub overlapped : Option ℕ

pub record CompletionPort (E : Type 0) : Type 0 where
  -- GetQueuedCompletionStatusEx: the number of completions, if it succeeds
  pub get_many : ℕ → ℕ → ℕ → E → Option ℕ × E
  -- GetQueuedCompletionStatus: whether it succeeds, and what it stores
  pub get_one : ℕ → ℕ → E → (Bool × Completion) × E
  -- PostQueuedCompletionStatus with a key, CreateIoCompletionPort for a descriptor and a key
  pub post_status : ℕ → ℕ → E → Bool × E
  pub associate : ℕ → ℕ → ℕ → E → Bool × E
  pub last_error : E → ℕ

module _ {E : Type 0} (sys : CompletionPort E) where
  open sys use {get_many, get_one, post_status, associate, last_error}

  -- What a failed wait counts: nothing if the time is over
  abbrev pub waited : Option ℕ × E → ℤ × E
  waited (some n, e) = (pos n, e)
  waited (none, e) = (if last_error e == wait_timeout then pos 0 else negsuc 0, e)

  -- `ffkq_wait` since Windows 6.0
  unfoldable pub wait_many : ℕ → ℕ → ℕ → E → ℤ × E
  wait_many kq events_cap timeout e = waited (get_many kq events_cap timeout e)

  abbrev pub failed_one : Option ℕ → ℤ
  failed_one none = negsuc 0
  failed_one (some o) = pos 1

  abbrev pub waited_one : (Bool × Completion) × E → ℤ × E
  waited_one ((true, c), e) = (pos 1, e)
  waited_one ((false, c), e) =
      (if last_error e == wait_timeout then pos 0 else failed_one c.overlapped, e)

  -- `ffkq_wait` on older systems
  unfoldable pub wait_one : ℕ → ℕ → ℕ → E → ℤ × E
  wait_one kq events_cap timeout e =
      if events_cap == 0 then (pos 0, e) else waited_one (get_one kq timeout e)

  -- `ffkq_attach`, `ffkq_post`, `ffkq_event_data`
  unfoldable pub attach_win : ℕ → ℕ → ℕ → E → Bool × E
  attach_win kq fd d e = associate fd kq d e

  unfoldable pub post_win : ℕ → ℕ → E → Bool × E
  post_win kq d e = post_status kq d e

  -- `_fftimer_onfire`: `ffkq_post_attach` gives the queue itself.
  unfoldable pub on_fire_win : ℕ → ℕ → E → Bool × E
  on_fire_win kq d e = post_win kq d e

  -- What a call of `ffkq_wait` returns, by what the system says
  abbrev IsWaited : E → Bool → Option ℕ → ℤ → Type 0
  IsWaited e ok taken n =
      (ok ≡ true → n ≡ pos 1)
      × (ok ≡ false → last_error e ≡ wait_timeout → n ≡ pos 0)
      × (ok ≡ false → last_error e ≢ wait_timeout → n ≡ failed_one taken)

  on_timeout : (c : ℕ) (x : ℤ) → c ≡ wait_timeout → (if c == wait_timeout then pos 0 else x) ≡ pos 0
  on_timeout c x h =
      let b : (c == wait_timeout) ≡ true = ground (arith, h) in ap (λ t. if t then pos 0 else x) b

  on_error : (c : ℕ) (x : ℤ) → c ≢ wait_timeout → (if c == wait_timeout then pos 0 else x) ≡ x
  on_error c x h =
      let b : (c == wait_timeout) ≡ false = ground (arith, h) in ap (λ t. if t then pos 0 else x) b

  waited_one-IsWaited :
      (r : (Bool × Completion) × E) → IsWaited r.1 r.0.0 r.0.1.overlapped (waited_one r).0
  waited_one-IsWaited ((true, c), e) = (λ h. refl, λ h. absurd (cc), λ h. absurd (cc))
  waited_one-IsWaited ((false, c), e) = (
    λ h. absurd (cc),
    λ h. on_timeout (last_error e) (failed_one c.overlapped),
    λ h. on_error (last_error e) (failed_one c.overlapped),
  )

  -- On old systems, with room for an event: a completion that was taken is an event even if its operation
  -- failed; if the time is over there is none; an error is reported only if no completion was taken.
  pub wait_one-IsWaited :
      (kq events_cap timeout : ℕ) (e : E)
      → events_cap ≢ 0
      → IsWaited
          (get_one kq timeout e).1
          (get_one kq timeout e).0.0
          (get_one kq timeout e).0.1.overlapped
          (wait_one kq events_cap timeout e).0
  unfolding wait_one
  wait_one-IsWaited kq events_cap timeout e h =
      if_both
        (λ r.
          IsWaited (get_one kq timeout e).1 (get_one kq timeout e).0.0
            (get_one kq timeout e).0.1.overlapped r.0)
        (events_cap == 0) (pos 0, e) (waited_one (get_one kq timeout e))
        (λ z. absurd (h (ground (arith, z)))) (λ nz. waited_one-IsWaited (get_one kq timeout e))

  -- Where a call takes one completion or fails to take any, old and new systems report the same number.
  pub wait_one-wait_many :
      (kq events_cap timeout : ℕ) (e e1 : E) (c : Completion) (ok : Bool)
      → events_cap ≢ 0
      → get_one kq timeout e ≡ ((ok, c), e1)
      → get_many kq events_cap timeout e ≡ ((if ok then some 1 else none), e1)
      → (ok ≡ false → c.overlapped ≡ none)
      → wait_one kq events_cap timeout e ≡ wait_many kq events_cap timeout e
  unfolding wait_one wait_many
  wait_one-wait_many kq events_cap timeout e e1 c ok h one many idle =
      let room : (events_cap == 0) ≡ false = ground (arith, h) in
      ap (λ b. if b then (pos 0, e) else waited_one (get_one kq timeout e)) room
      ∙ ap waited_one one
      ∙ same ok idle
      ∙ ap waited (sym many)
    where
      same :
          (k : Bool)
          → (k ≡ false → c.overlapped ≡ none)
          → waited_one ((k, c), e1) ≡ waited ((if k then some 1 else none), e1)
      same true i = refl
      same false i =
          ap (λ o. ((if last_error e1 == wait_timeout then pos 0 else failed_one o), e1)) (i refl)
