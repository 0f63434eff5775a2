-- ===== src/Netconf.antt =====
-- FFOS/netconf.h: the addresses of the DNS servers, on both systems. The string functions of ffbase are
-- the parameter `ConfLib`, files and memory are `ConfSys`.
pub mod Layout
pub mod Printed
pub mod Examples
use ffos.Base.{
  ℕ, zero, suc, ◌+◌, ◌*◌, ◌≡◌, ◌<◌, ◌≤◌, Bool, true, false, Option, none, some, List, [], ◌∷◌, ◌++◌,
  length, take, ◌==◌, ◌||◌, if◌then◌else◌, All,
}
use ffos.Ffbase.{Str}

-- The block of memory of `nc->dns_addrs`: `dns_addrs_num` pointers, as offsets in the block, and behind
-- them the bytes of the texts
pub record Block : Type 0 where
  pub pointers : List ℕ
  pub bytes : Str

-- sizeof(void*)
abbrev pub pointer_size : ℕ
pointer_size = 8

-- The loop that copies the texts: each with its terminating zero, and a pointer to it. `data` is known
-- by the bytes behind the pointers so far.
unfoldable pub fill : ℕ → List Str → List ℕ → Str → Block
fill base [] ptrs data_bytes = record { pointers = ptrs; bytes = data_bytes }
fill base (s ∷ l) ptrs data_bytes =
    fill base l (ptrs ++ ((base + length data_bytes) ∷ [])) (data_bytes ++ (s ++ (0 ∷ [])))

-- `cap` of the texts: their bytes and a terminating zero each
abbrev pub capacity : List Str → ℕ
capacity [] = 0
capacity (s ∷ l) = length s + 1 + capacity l

abbrev pub block_of : List Str → Block
block_of l = fill (length l * pointer_size) l [] []

-- `_ffnetconf_dns` on Windows, of the list of addresses; nothing if there is no memory
unfoldable pub dns_win : (ℕ → Bool) → List Str → Option Block
dns_win has_memory l =
    if has_memory (capacity l + length l * pointer_size) then some (block_of l) else none

abbrev pub newline : ℕ
newline = 10

abbrev pub is_space : ℕ → Bool
is_space c = (c == 32) || (c == 9)

-- " \t\r"
abbrev pub is_skipped : ℕ → Bool
is_skipped c = (c == 32) || ((c == 9) || (c == 13))

-- "nameserver"
abbrev pub nameserver : Str
nameserver = 110 ∷ 97 ∷ 109 ∷ 101 ∷ 115 ∷ 101 ∷ 114 ∷ 118 ∷ 101 ∷ 114 ∷ []

pub record ConfLib : Type 0 where
  -- ffstr_splitby: the text before the first byte that is equal, and the text behind it
  pub split_by : ℕ → Str → Str × Str
  -- ffstr_splitbyany with a set
  pub split_by_any : (ℕ → Bool) → Str → Str × Str
  -- ffstr_skipany: the text without the bytes of a set at its front
  pub skip_any : (ℕ → Bool) → Str → Str
  -- ffstr_eqz
  pub eqz : Str → Str → Bool
  pub split_by_found :
      (c : ℕ) (s t : Str) → All (λ b. (b == c) ≡ false) s → split_by c (s ++ (c ∷ t)) ≡ (s, t)
  pub split_by_any_found :
      (p : ℕ → Bool) (s t : Str) (c : ℕ)
      → All (λ b. p b ≡ false) s
      → p c ≡ true
      → split_by_any p (s ++ (c ∷ t)) ≡ (s, t)
  pub split_by_any_none :
      (p : ℕ → Bool) (s : Str) → All (λ b. p b ≡ false) s → split_by_any p s ≡ (s, [])
  pub skip_any_none : (p : ℕ → Bool) (b : ℕ) (s : Str) → p b ≡ false → skip_any p (b ∷ s) ≡ b ∷ s
  pub eqz_same : (s : Str) → eqz s s ≡ true

pub record ConfSys : Type 0 where
  -- open and read of /etc/resolv.conf: at most so many bytes, or nothing on an error
  pub read_conf : ℕ → Option Str
  pub has_memory : ℕ → Bool

module _ (lib : ConfLib) where
  open lib use {split_by, split_by_any, skip_any, eqz}

  -- The address of a line "nameserver ADDRESS"
  abbrev pub word_server : Str × Str → Option Str
  word_server (word, rest) =
      if eqz word nameserver then some (split_by_any is_space rest).0 else none

  unfoldable pub line_server : Str → Option Str
  line_server line = word_server (split_by_any is_space (skip_any is_skipped line))

  abbrev pub with_server : Option Str → List Str → List Str
  with_server none l = l
  with_server (some s) l = l ++ (s ∷ [])

  -- The loop over the lines; nothing if the model's fuel is used up. There is memory for the list of
  -- servers.
  unfoldable pub servers_loop : ℕ → Str → List Str → Option (List Str)
  servers_loop fuel [] found = some found
  servers_loop zero (b ∷ text) found = none
  servers_loop (suc fuel) (b ∷ text) found =
      let (line, rest) = split_by newline (b ∷ text) in
      servers_loop fuel rest (with_server (line_server line) found)

module _ (lib : ConfLib) (sys : ConfSys) where
  abbrev pub stored : Option (List Str) → Option Block
  stored none = none
  stored (some l) =
      if sys.has_memory (capacity l + length l * pointer_size) then some (block_of l) else none

  abbrev pub from_text : Option Str → Option Block
  from_text none = none
  from_text (some []) = none
  from_text (some (b ∷ s)) = stored (servers_loop lib (length (b ∷ s)) (b ∷ s) [])

  -- `_ffnetconf_dns` on UNIX; nothing is -1.
  unfoldable pub dns_unix : Option Block
  dns_unix = from_text (sys.read_conf (4 * 1024))
