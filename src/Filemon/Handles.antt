-- ===== src/Filemon/Handles.antt =====
-- The handles of the monitor of FFOS/filemon.h on Windows.
use ffos.Base.{
  ℕ, suc, ◌+◌, ◌-◌, ◌≡◌, ap, ◌∙◌, Bool, true, false, Option, none, some, List, [], ◌∷◌, length,
  arith, length-append,
}
use ffos.Ffbase.{Str, StrLib}
use ffos.Path.{Parts, splitpath_win}
use ffos.Queue.{held}
use ffos.Filemon.Notify.{Watch}
use ffos.Filemon.Watch.{
  WatchSys, Added, pushed, with_dir, with_file, opened, copied, add_dir, add_file, close_all,
}

-- Calls of fffilemon_add_dir and fffilemon_add_file, with a path and events
pub data Request : Type 0 where
  for_dir for_file : Str → ℕ → Request

module _ {E : Type 0} (sys : WatchSys E) (lib : StrLib) where
  open sys use {
    open_dir, close, alloc_watch, alloc_text, push, open_count, count-open, count-close,
    count-alloc, count-text, count-push,
  }

  abbrev pub add_one : Request → List Watch → E → Added sys
  add_one (for_dir path events) wl e = add_dir sys path events wl e
  add_one (for_file path events) wl e = add_file sys lib path events wl e

  -- A client that ignores which of its calls fail
  abbrev pub add_each : List Request → List Watch → E → List Watch × E
  add_each [] wl e = (wl, e)
  add_each (r ∷ rs) wl e = let (o, wl1, e1) = add_one r wl e in add_each rs wl1 e1

  -- A handle for each watch, beside so many others
  abbrev IsOwned : ℕ → Added sys → Type 0
  IsOwned n (o, wl, e) = open_count e ≡ n + length wl

  pushed-IsOwned :
      (n : ℕ) (wl : List Watch) (w : Watch) (r : Bool × E)
      → open_count r.1 ≡ suc (n + length wl)
      → IsOwned n (pushed sys wl w r)
  pushed-IsOwned n wl w (true, e) h = omega (arith, h, length-append wl (w ∷ []))
  pushed-IsOwned n wl w (false, e) h = omega (arith, h, count-close w.handle e)

  with_dir-IsOwned :
      (n d events : ℕ) (wl : List Watch) (r : Option Bool × E)
      → open_count r.1 ≡ suc (n + length wl)
      → IsOwned n (with_dir sys d events wl r)
  with_dir-IsOwned n d events wl (none, e) h = omega (arith, h, count-close d e)
  with_dir-IsOwned n d events wl (some bit, e) h =
      pushed-IsOwned n wl (record { handle = d; events = events; dir = true; namez = [] }) (push e)
        (count-push e ∙ h)

  with_file-IsOwned :
      (n d events : ℕ) (name : Str) (wl : List Watch) (r : Option Bool × E)
      → open_count r.1 ≡ suc (n + length wl)
      → IsOwned n (with_file sys d events name wl r)
  with_file-IsOwned n d events name wl (none, e) h = omega (arith, h, count-close d e)
  with_file-IsOwned n d events name wl (some bit, e) h =
      pushed-IsOwned n wl (record { handle = d; events = events; dir = bit; namez = name }) (push e)
        (count-push e ∙ h)

  opened-IsOwned :
      (n : ℕ) (wl : List Watch) (next : ℕ → Option Bool × E → Added sys) (r : Option ℕ × E)
      → ((d : ℕ) (s : Option Bool × E)
          → open_count s.1 ≡ suc (n + length wl)
          → IsOwned n (next d s))
      → open_count r.1 ≡ (n + length wl) + held r.0
      → IsOwned n (opened sys next wl r)
  opened-IsOwned n wl next (none, e) f h = omega (arith, h)
  opened-IsOwned n wl next (some d, e) f h = f d (alloc_watch e) (omega (arith, h, count-alloc e))

  add_one-IsOwned :
      (n : ℕ) (r : Request) (wl : List Watch) (e : E)
      → open_count e ≡ n + length wl
      → IsOwned n (add_one r wl e)
  unfolding add_dir add_file
  add_one-IsOwned n (for_dir path events) wl e h =
      opened-IsOwned n wl (λ d. with_dir sys d events wl) (open_dir path e)
        (λ d. with_dir-IsOwned n d events wl)
        (count-open path e ∙ ap (λ k. k + held (open_dir path e).0) h)
  add_one-IsOwned n (for_file path events) wl e h =
      go (splitpath_win lib path) (alloc_text (splitpath_win lib path).first e)
        (count-text (splitpath_win lib path).first e ∙ h)
    where
      go :
          (p : Parts) (r : Bool × E)
          → open_count r.1 ≡ n + length wl
          → IsOwned n (copied sys p events wl r)
      go p (false, e1) k = k
      go p (true, e1) k =
          opened-IsOwned n wl (λ d. with_file sys d events p.second wl) (open_dir p.first e1)
            (λ d. with_file-IsOwned n d events p.second wl)
            (count-open p.first e1 ∙ ap (λ c. c + held (open_dir p.first e1).0) k)

  add_each-IsOwned :
      (n : ℕ) (rs : List Request) (wl : List Watch) (e : E)
      → open_count e ≡ n + length wl
      → open_count (add_each rs wl e).1 ≡ n + length (add_each rs wl e).0
  add_each-IsOwned n [] wl e h = h
  add_each-IsOwned n (r ∷ rs) wl e h =
      go (add_one r wl e) (add_each-IsOwned n rs) (add_one-IsOwned n r wl e h)
    where
      go :
          (a : Added sys)
          → ((wl1 : List Watch) (e1 : E)
              → open_count e1 ≡ n + length wl1
              → open_count (add_each rs wl1 e1).1 ≡ n + length (add_each rs wl1 e1).0)
          → IsOwned n a
          → open_count (add_each rs a.1 a.2).1 ≡ n + length (add_each rs a.1 a.2).0
      go (o, wl1, e1) later k = later wl1 e1 k

  close_all-open_count :
      (wl : List Watch) (e : E) → open_count (close_all sys wl e) ≡ open_count e - length wl
  unfolding close_all
  close_all-open_count [] e = omega arith
  close_all-open_count (w ∷ wl) e =
      omega (arith, close_all-open_count wl (close w.handle e), count-close w.handle e)

  -- Whichever directories and files are added to a monitor, and whichever of these calls fail at whichever
  -- place, fffilemon_close leaves as many handles open as there were before.
  pub close_all-add_each :
      (rs : List Request) (e : E)
      → open_count (close_all sys (add_each rs [] e).0 (add_each rs [] e).1) ≡ open_count e
  close_all-add_each rs e =
      let start : open_count e ≡ open_count e + 0 = omega arith in
      omega (
        arith,
        add_each-IsOwned (open_count e) rs [] e start,
        close_all-open_count (add_each rs [] e).0 (add_each rs [] e).1,
      )
