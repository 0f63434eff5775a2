-- ===== src/Socket/Address.antt =====
-- The addresses of FFOS/socket.h: `ffsockaddr_set_ipv4`, `ffsockaddr_set_ipv6` and
-- `ffsockaddr_ip_port`. The two structures of the union overlap: family and port are common, the
-- IPv4 address is at byte 4, the IPv6 address at byte 8.
use ffos.Base.{
  ℕ, zero, suc, ◌≡◌, ◌<◌, ◌^◌, ap, Option, none, some, List, [], ◌∷◌, ◌==◌, if◌then◌else◌,
}

pub record SockAddr : Type 0 where
  pub len : ℕ
  pub family : ℕ
  pub port : ℕ
  pub at4 : List ℕ
  pub at8 : List ℕ

abbrev pub af_inet : ℕ
af_inet = 2

abbrev pub af_inet6 : ℕ
af_inet6 = 10

abbrev pub zeros : ℕ → List ℕ
zeros zero = []
zeros (suc n) = 0 ∷ zeros n

abbrev pub or_zeros : ℕ → Option (List ℕ) → List ℕ
or_zeros n none = zeros n
or_zeros n (some ip) = ip

-- `ffint_be_cpu16` of ffbase is the parameter `swap`.
module _ (swap : ℕ → ℕ) where
  unfoldable pub set_ipv4 : SockAddr → Option (List ℕ) → ℕ → SockAddr
  set_ipv4 a ip port = record a {
    len = 16;
    family = af_inet;
    port = swap port;
    at4 = or_zeros 4 ip;
  }

  unfoldable pub set_ipv6 : SockAddr → Option (List ℕ) → ℕ → SockAddr
  set_ipv6 a ip port = record a {
    len = 28;
    family = af_inet6;
    port = swap port;
    at8 = or_zeros 16 ip;
  }

  -- The address, empty for another family, and the port if there is one.
  unfoldable pub ip_port : SockAddr → List ℕ × Option ℕ
  ip_port a =
      if a.family == af_inet
      then (a.at4, some (swap a.port))
      else if a.family == af_inet6
      then (a.at8, some (swap a.port))
      else ([], none)

  -- An address and a 16-bit port that are set are read back, for both families; an address that is
  -- not given is read back as zeros. What the address was before does not matter.
  pub ip_port-set :
      (swap_twice : (x : ℕ) → x < 2 ^ 16 → swap (swap x) ≡ x) (a : SockAddr) (ip : Option (List ℕ))
      (port : ℕ)
      → port < 2 ^ 16
      → (ip_port (set_ipv4 a ip port) ≡ (or_zeros 4 ip, some port))
        × (ip_port (set_ipv6 a ip port) ≡ (or_zeros 16 ip, some port))
  unfolding set_ipv4 set_ipv6 ip_port
  ip_port-set swap_twice a ip port small = (
    ap (λ p. (or_zeros 4 ip, some p)) (swap_twice port small),
    ap (λ p. (or_zeros 16 ip, some p)) (swap_twice port small),
  )
