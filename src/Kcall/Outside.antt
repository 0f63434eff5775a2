-- ===== src/Kcall/Outside.antt =====
-- What FFOS/kcall.h calls and does not implement: bounded queues and the operating system.
use ffos.Base.{ℕ, ◌≡◌, ◌<◌, ◌≤◌, Bool, Option, none, some, List, [], ◌∷◌, ◌++◌, length}

-- ffringqueue of ffbase/ringqueue.h: a bounded first-in first-out queue of pointers.
pub record RingLib : Type 1 where
  pub Ring : Type 0
  -- ffrq_add: the number of items before, or nothing if the queue is full
  pub add : Ring → ℕ → Option (ℕ × Ring)
  -- ffrq_fetch, ffrq_fetch_sr: the oldest item, or nothing if the queue is empty
  pub fetch : Ring → Option (ℕ × Ring)
  pub items : Ring → List ℕ
  pub capacity : Ring → ℕ
  pub add_room :
      (r : Ring) (x : ℕ)
      → length (items r) < capacity r
      → (r' : Ring) × (add r x ≡ some (length (items r), r'))
        × (items r' ≡ items r ++ (x ∷ []))
        × (capacity r' ≡ capacity r)
  pub add_full : (r : Ring) (x : ℕ) → capacity r ≤ length (items r) → add r x ≡ none
  pub fetch_empty : (r : Ring) → items r ≡ [] → fetch r ≡ none
  pub fetch_item :
      (r : Ring) (x : ℕ) (l : List ℕ)
      → items r ≡ x ∷ l
      → (r' : Ring) × (fetch r ≡ some (x, r')) × (items r' ≡ l) × (capacity r' ≡ capacity r)

-- fffile_open, fffile_info, fffile_read, fffile_write and ffaddrinfo_resolve with their arguments.
pub data SysCall : Type 0 where
  open_file : ℕ → ℕ → SysCall
  file_info : ℕ → ℕ → SysCall
  read_file : ℕ → ℕ → ℕ → SysCall
  write_file : ℕ → ℕ → ℕ → SysCall
  resolve : ℕ → ℕ → SysCall

-- The operating system in the state `E`, the thread's error code (`errno`) included.
pub record Sys (E : Type 0) : Type 0 where
  pub last_error : E → ℕ
  pub set_error : ℕ → E → E
  pub perform : SysCall → E → ℕ × E
  -- ffsem_post
  pub post_sem : E → E
  -- ffkq_post: whether it succeeds
  pub post_event : E → Bool × E
  pub last_error-set_error : (c : ℕ) (e : E) → last_error (set_error c e) ≡ c
