-- ===== src/Netlink.antt =====
-- FFOS/netlink.h: opening a netlink socket, sending a request and receiving a response. The system calls
-- are the parameter `NetlinkSys`, with the number of open descriptors; NLMSG_LENGTH of the system's
-- headers is `nlmsg_length`. The walks over a response are macros of these headers and are left out.
use ffos.Base.{
  ℕ, zero, suc, ◌+◌, ◌-◌, ◌≡◌, ◌<◌, refl, ◌∙◌, Bool, true, false, Option, none, some, length, ◌==◌,
  arith,
}
use ffos.Base.Int.{ℤ, pos, negsuc, u32}
use ffos.Ffbase.{Str}

-- `struct nlmsghdr`
pub record MsgHdr : Type 0 where
  pub nlmsg_len : ℕ
  pub nlmsg_type : ℕ
  pub nlmsg_flags : ℕ
  pub nlmsg_seq : ℕ

-- NLM_F_REQUEST | NLM_F_DUMP
abbrev request_dump : ℕ
request_dump = 0x301

abbrev hdr_size : ℕ
hdr_size = 16

-- EMSGSIZE
abbrev emsgsize : ℕ
emsgsize = 90

pub record NetlinkSys (E : Type 0) : Type 0 where
  pub nlmsg_length : ℕ → ℕ
  pub socket : ℕ → ℕ → E → Option ℕ × E
  -- bind to groups: whether it succeeds
  pub bind : ℕ → ℕ → E → Bool × E
  pub close : ℕ → E → E
  -- sendmsg of a header and data: the result as a 32-bit word
  pub sendmsg : ℕ → MsgHdr → Str → E → ℕ × E
  -- recvmsg: the result, and whether MSG_TRUNC is set
  pub recvmsg : ℕ → ℕ → E → (ℤ × Bool) × E
  pub set_error : ℕ → E → E
  pub open_count : E → ℕ
  pub count-close : (p : ℕ) (e : E) → open_count (close p e) ≡ open_count e - 1
  pub count-bind : (p g : ℕ) (e : E) → open_count (bind p g e).1 ≡ open_count e

module _ {E : Type 0} (sys : NetlinkSys E) where
  open sys use {nlmsg_length, socket, bind, close, sendmsg, recvmsg, set_error, open_count}

  abbrev bound : ℕ → Bool × E → Option ℕ × E
  bound nl (true, e) = (some nl, e)
  bound nl (false, e) = (none, close nl e)

  abbrev created : ℕ → Option ℕ × E → Option ℕ × E
  created groups (none, e) = (none, e)
  created groups (some nl, e) = bound nl (bind nl groups e)

  -- `ffnetlink_create`
  unfoldable pub create : ℕ → ℕ → ℕ → E → Option ℕ × E
  create proto groups flags e = created groups (socket proto flags e)

  -- `_ffnetlink_hdr_set`
  abbrev hdr_set : ℕ → ℕ → ℕ → MsgHdr
  hdr_set ty body_len seq = record {
    nlmsg_len = nlmsg_length body_len;
    nlmsg_type = ty;
    nlmsg_flags = request_dump;
    nlmsg_seq = seq;
  }

  abbrev sent : ℕ → ℕ × E → Bool × E
  sent n (r, e) = (hdr_size + n == r, e)

  -- `ffnetlink_send`: whether it succeeds
  unfoldable pub send : ℕ → ℕ → Str → ℕ → E → Bool × E
  send nl ty d seq e = sent (length d) (sendmsg nl (hdr_set ty (length d) seq) d e)

  abbrev received : (ℤ × Bool) × E → ℤ × E
  received ((pos (suc r), true), e) = (negsuc 0, set_error emsgsize e)
  received ((pos (suc r), false), e) = (pos (suc r), e)
  received ((pos zero, b), e) = (pos 0, e)
  received ((negsuc r, b), e) = (negsuc r, e)

  -- `ffnetlink_recv`
  unfoldable pub recv : ℕ → ℕ → E → ℤ × E
  recv nl n e = received (recvmsg nl n e)

  -- If the socket cannot be bound, ffnetlink_create fails and leaves as many descriptors open as before.
  pub create_unbound :
      (proto groups flags nl : ℕ) (e e1 : E)
      → socket proto flags e ≡ (some nl, e1)
      → open_count e1 ≡ suc (open_count e)
      → (bind nl groups e1).0 ≡ false
      → ((create proto groups flags e).0 ≡ none)
        × (open_count (create proto groups flags e).1 ≡ open_count e)
  unfolding create
  create_unbound proto groups flags nl e e1 opened more failed =
      rw opened (go (bind nl groups e1) failed (sys.count-bind nl groups e1 ∙ more))
    where
      go :
          (r : Bool × E)
          → r.0 ≡ false
          → open_count r.1 ≡ suc (open_count e)
          → ((bound nl r).0 ≡ none) × (open_count (bound nl r).1 ≡ open_count e)
      go (true, e') f m = absurd (cc)
      go (false, e') f m = (refl, omega (arith, sys.count-close nl e', m))

  -- For data that leaves room for the header in 32 bits, ffnetlink_send succeeds exactly if sendmsg has
  -- sent the header and all of the data; an error of sendmsg (-1) is not taken for success.
  pub send_whole :
      (nl ty seq : ℕ) (d : Str) (e : E)
      → hdr_size + length d < u32 - 1
      → ((sendmsg nl (hdr_set ty (length d) seq) d e).0 ≡ hdr_size + length d
          → (send nl ty d seq e).0 ≡ true)
        × ((sendmsg nl (hdr_set ty (length d) seq) d e).0 ≡ u32 - 1
            → (send nl ty d seq e).0 ≡ false)
  unfolding send
  send_whole nl ty seq d e h = (λ w. ground (arith, w), λ w. ground (arith, w, h))
