-- ===== src/Filemon/Watch.antt =====
-- FFOS/filemon.h on Windows: adding watches, closing the monitor, and reading asynchronously. The system
-- calls are the parameter `WatchSys`, with the number of open handles.
use ffos.Base.{
  ℕ, ◌+◌, ◌-◌, ◌≡◌, ◌≢◌, refl, Bool, true, false, Option, none, some, List, [], ◌∷◌, ◌++◌, length,
  ◌==◌, if◌then◌else◌, if_both, min, arith,
}
use ffos.Base.Int.{u32}
use ffos.Ffbase.{Str, StrLib}
use ffos.Path.{Parts, splitpath_win}
use ffos.Filemon.Notify.{Watch}
use ffos.Queue.{held}

-- ERROR_IO_PENDING and ERROR_IO_INCOMPLETE
abbrev pub io_pending : ℕ
io_pending = 997

abbrev pub io_incomplete : ℕ
io_incomplete = 996

pub record WatchSys (E : Type 0) : Type 0 where
  -- fffile_open of a directory with FILE_FLAG_OVERLAPPED
  pub open_dir : Str → E → Option ℕ × E
  pub close : ℕ → E → E
  -- memory for a watch: what its bit `dir` holds; memory for a copy of a text; room in the vector
  pub alloc_watch : E → Option Bool × E
  pub alloc_text : Str → E → Bool × E
  pub push : E → Bool × E
  -- ReadDirectoryChangesW, GetOverlappedResult with the number of bytes
  pub read_changes : ℕ → ℕ → ℕ → E → Bool × E
  pub overlapped_result : E → Option ℕ × E
  pub last_error : E → ℕ
  pub set_error : ℕ → E → E
  pub open_count : E → ℕ
  pub error_set : (c : ℕ) (e : E) → last_error (set_error c e) ≡ c
  pub count-open :
      (p : Str) (e : E) → open_count (open_dir p e).1 ≡ open_count e + held (open_dir p e).0
  pub count-close : (d : ℕ) (e : E) → open_count (close d e) ≡ open_count e - 1
  pub count-alloc : (e : E) → open_count (alloc_watch e).1 ≡ open_count e
  pub count-text : (s : Str) (e : E) → open_count (alloc_text s e).1 ≡ open_count e
  pub count-push : (e : E) → open_count (push e).1 ≡ open_count e

module _ {E : Type 0} (sys : WatchSys E) where
  open sys use {
    open_dir, close, alloc_watch, alloc_text, push, read_changes, overlapped_result, last_error,
    set_error, open_count,
  }

  -- The watch descriptor or -1, and the monitor's watches
  abbrev pub Added : Type 0
  Added = Option ℕ × List Watch × E

  abbrev pub pushed : List Watch → Watch → Bool × E → Added
  pushed wl w (true, e) = (some (length wl), wl ++ (w ∷ []), e)
  pushed wl w (false, e) = (none, wl, close w.handle e)

  -- The watch of a directory
  abbrev pub with_dir : ℕ → ℕ → List Watch → Option Bool × E → Added
  with_dir d events wl (none, e) = (none, wl, close d e)
  with_dir d events wl (some bit, e) =
      pushed wl (record { handle = d; events = events; dir = true; namez = [] }) (push e)

  -- That of a file, whose bit `dir` stays what the memory holds
  abbrev pub with_file : ℕ → ℕ → Str → List Watch → Option Bool × E → Added
  with_file d events name wl (none, e) = (none, wl, close d e)
  with_file d events name wl (some bit, e) =
      pushed wl (record { handle = d; events = events; dir = bit; namez = name }) (push e)

  abbrev pub opened : (ℕ → Option Bool × E → Added) → List Watch → Option ℕ × E → Added
  opened next wl (none, e) = (none, wl, e)
  opened next wl (some d, e) = next d (alloc_watch e)

  -- `fffilemon_add_dir`
  unfoldable pub add_dir : Str → ℕ → List Watch → E → Added
  add_dir path events wl e = opened (λ d. with_dir d events wl) wl (open_dir path e)

  abbrev pub copied : Parts → ℕ → List Watch → Bool × E → Added
  copied parts events wl (false, e) = (none, wl, e)
  copied parts events wl (true, e) =
      opened (λ d. with_file d events parts.second wl) wl (open_dir parts.first e)

  -- `fffilemon_add_file`
  unfoldable pub add_file : StrLib → Str → ℕ → List Watch → E → Added
  add_file lib path events wl e =
      let parts = splitpath_win lib path in copied parts events wl (alloc_text parts.first e)

  -- `fffilemon_close`
  unfoldable pub close_all : List Watch → E → E
  close_all [] e = e
  close_all (w ∷ wl) e = close_all wl (close w.handle e)

  abbrev pub finished : ℕ → Option ℕ × E → Option ℕ × Bool × E
  finished cap_bytes (some n, e) = (some cap_bytes, false, e)
  finished cap_bytes (none, e) =
      if last_error e == io_incomplete
      then (none, true, set_error io_pending e)
      else (none, false, e)

  abbrev pub begun : Bool × E → Option ℕ × Bool × E
  begun (true, e) = (none, true, set_error io_pending e)
  begun (false, e) = (none, last_error e == io_pending, e)

  -- `_fffilemon_watch_read_async`: the number of bytes or -1, and the task's flag `active`
  unfoldable pub read_async : Watch → ℕ → Bool → E → Option ℕ × Bool × E
  read_async w cap_bytes true e = finished cap_bytes (overlapped_result e)
  read_async w cap_bytes false e =
      begun (read_changes w.handle (min cap_bytes (u32 - 1)) w.events e)

  -- What happens to a task that is not done: it stays active exactly if the error is ERROR_IO_PENDING.
  abbrev IsTold : Option ℕ × Bool × E → Type 0
  IsTold (some n, active, e) = active ≡ false
  IsTold (none, active, e) = active ≡ (last_error e == io_pending)

  finished-IsTold :
      (n : ℕ) (r : Option ℕ × E)
      → (r.0 ≡ none → last_error r.1 ≢ io_pending)
      → IsTold (finished n r)
  finished-IsTold n (some k, e) h = refl
  finished-IsTold n (none, e) h =
      if_both IsTold (last_error e == io_incomplete) (none, true, set_error io_pending e)
        (none, false, e) (λ y. let c = sys.error_set io_pending e in ground (arith, c))
        (λ k. let other = h refl in ground (arith, other))

  begun-IsTold : (r : Bool × E) → IsTold (begun r)
  begun-IsTold (true, e) = let c = sys.error_set io_pending e in ground (arith, c)
  begun-IsTold (false, e) = refl

  -- If GetOverlappedResult never fails with ERROR_IO_PENDING, then after _fffilemon_watch_read_async the
  -- task is active exactly if the call returned -1 with ERROR_IO_PENDING.
  pub read_async-IsTold :
      (w : Watch) (n : ℕ) (active : Bool) (e : E)
      → ((overlapped_result e).0 ≡ none → last_error (overlapped_result e).1 ≢ io_pending)
      → IsTold (read_async w n active e)
  unfolding read_async
  read_async-IsTold w n true e h = finished-IsTold n (overlapped_result e) h
  read_async-IsTold w n false e h =
      begun-IsTold (read_changes w.handle (min n (u32 - 1)) w.events e)
