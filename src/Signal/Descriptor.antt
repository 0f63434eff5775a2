-- ===== src/Signal/Descriptor.antt =====
-- FFOS/signal.h on Linux: signals through a descriptor in a kernel queue (FFOS/queue.h).
use ffos.Base.{
  ℕ, ◌+◌, ◌≡◌, ◌∙◌, Bool, true, false, Option, none, some, List, ◌==◌, if◌then◌else◌, arith,
}
use ffos.Base.Int.{ℤ, pos, negsuc}
use ffos.Queue.{EpollSys, attach, kept, held, ffkq_read, edge_event}

-- `struct signalfd_siginfo`: the fields that are read
pub record SignalInfo : Type 0 where
  pub ssi_signo : ℕ
  pub ssi_pid : ℕ

abbrev siginfo_size : ℕ
siginfo_size = 128

-- The calls beside those of a queue: signalfd(-1, &mask, SFD_NONBLOCK) for the signals of a list, and
-- read of a SignalInfo
pub record SignalFd {E : Type 0} (queue : EpollSys E) : Type 0 where
  pub signalfd : List ℕ → E → Option ℕ × E
  pub read_info : ℕ → E → (ℤ × SignalInfo) × E
  pub count-signalfd :
      (sigs : List ℕ) (e : E)
      → queue.open_count (signalfd sigs e).1 ≡ queue.open_count e + held (signalfd sigs e).0

module _ {E : Type 0} (queue : EpollSys E) (sys : SignalFd queue) where
  open sys use {signalfd, read_info}
  open queue use {open_count}

  abbrev listening : ℕ → ℕ → Option ℕ × E → Option ℕ × E
  listening kq d (none, e) = (none, e)
  listening kq d (some fd, e) = kept queue fd (attach queue kq fd d ffkq_read e)

  -- `ffkqsig_attach`
  unfoldable pub attach_signals : ℕ → List ℕ → ℕ → E → Option ℕ × E
  attach_signals kq sigs d e = listening kq d (signalfd sigs e)

  -- `ffkqsig_detach`
  unfoldable pub detach_signals : Option ℕ → E → E
  detach_signals none e = e
  detach_signals (some fd) e = queue.close fd e

  abbrev info_read : (ℤ × SignalInfo) × E → Option (ℕ × ℕ) × E
  info_read ((pos n, si), e) =
      (if n == siginfo_size then some (si.ssi_signo, si.ssi_pid) else none, e)
  info_read ((negsuc n, si), e) = (none, e)

  -- `ffkqsig_readinfo`: the signal and the sender
  unfoldable pub read_signal : ℕ → E → Option (ℕ × ℕ) × E
  read_signal fd e = info_read (read_info fd e)

  kept-detach :
      (fd : ℕ) (e : E) (r : Bool × E)
      → open_count r.1 ≡ open_count e + 1
      → open_count (detach_signals (kept queue fd r).0 (kept queue fd r).1) ≡ open_count e
  unfolding detach_signals
  kept-detach fd e (true, e1) h = omega (arith, queue.count-close fd e1, h)
  kept-detach fd e (false, e1) h = omega (arith, queue.count-close fd e1, h)

  -- Whatever fails, ffkqsig_attach and ffkqsig_detach together leave as many descriptors open as before.
  pub attach_signals-detach_signals :
      (kq d : ℕ) (sigs : List ℕ) (e : E)
      → open_count (detach_signals (attach_signals kq sigs d e).0 (attach_signals kq sigs d e).1)
        ≡ open_count e
  unfolding attach_signals attach detach_signals
  attach_signals-detach_signals kq d sigs e = go (signalfd sigs e) (sys.count-signalfd sigs e)
    where
      go :
          (r : Option ℕ × E)
          → open_count r.1 ≡ open_count e + held r.0
          → open_count (detach_signals (listening kq d r).0 (listening kq d r).1) ≡ open_count e
      go (none, e1) h = omega (arith, h)
      go (some fd, e1) h =
          kept-detach fd e (attach queue kq fd d ffkq_read e1)
            (queue.count-add kq fd (edge_event ffkq_read d) e1 ∙ h)
