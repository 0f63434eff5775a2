-- ===== src/Netconf/Printed.antt =====
-- Reading back a configuration file that lists DNS servers: `_ffnetconf_dns` of FFOS/netconf.h on UNIX.
use ffos.Base.{
  ℕ, zero, suc, ◌+◌, ◌*◌, ◌≡◌, ◌≤◌, refl, sym, ap, ◌∙◌, true, false, none, some, List, [], ◌∷◌,
  ◌++◌, length, All, ◌==◌, if◌then◌else◌, arith, append_assoc, append-nil, length-append,
}
use ffos.Ffbase.{Str}
use ffos.Netconf.{
  Block, ConfLib, ConfSys, newline, is_space, is_skipped, nameserver, word_server, line_server,
  with_server, servers_loop, stored, from_text, dns_unix, block_of, capacity, pointer_size,
}
use ffos.Netconf.Layout.{texts_of, NoZero, block_of-texts_of}

-- A line for each server
abbrev pub printed : List Str → Str
printed [] = []
printed (s ∷ l) = (nameserver ++ (32 ∷ s)) ++ (newline ∷ printed l)

-- Neither blank nor end of line nor zero
abbrev pub IsAddress : Str → Type 0
IsAddress s = All (λ b. is_space b ≡ false) s × All (λ b. (b == newline) ≡ false) s × NoZero s

All-append : (P : ℕ → Type 0) (s t : Str) → All P s → All P t → All P (s ++ t)
All-append P [] t p q = q
All-append P (b ∷ s) t (h, p) q = (h, All-append P s t p q)

no_spaces : All (λ b. is_space b ≡ false) nameserver
no_spaces = (refl, (refl, (refl, (refl, (refl, (refl, (refl, (refl, (refl, (refl, tt))))))))))

no_newlines : All (λ b. (b == newline) ≡ false) nameserver
no_newlines = (refl, (refl, (refl, (refl, (refl, (refl, (refl, (refl, (refl, (refl, tt))))))))))

NoZero-All : (l : List Str) → All IsAddress l → All NoZero l
NoZero-All [] a = tt
NoZero-All (s ∷ l) ((p, q, z), a) = (z, NoZero-All l a)

length-printed : (l : List Str) → length l ≤ length (printed l)
length-printed [] = omega arith
length-printed (s ∷ l) =
    omega (arith, length-append (nameserver ++ (32 ∷ s)) (newline ∷ printed l), length-printed l)

module _ (lib : ConfLib) where
  line_server_lem :
      (s : Str)
      → All (λ b. is_space b ≡ false) s
      → line_server lib (nameserver ++ (32 ∷ s)) ≡ some s
  unfolding line_server
  line_server_lem s h =
      let rest : Str = 101 ∷ 115 ∷ 101 ∷ 114 ∷ 118 ∷ 101 ∷ 114 ∷ 32 ∷ s in
      let skipped = lib.skip_any_none is_skipped 110 (97 ∷ 109 ∷ rest) refl in
      let words = lib.split_by_any_found is_space nameserver s 32 no_spaces refl in
      ap (λ l. word_server lib (lib.split_by_any is_space l)) skipped
      ∙ ap (word_server lib) words
      ∙ ap (λ t. if t then some (lib.split_by_any is_space s).0 else none) (lib.eqz_same nameserver)
      ∙ ap (λ (r : Str × Str). some r.0) (lib.split_by_any_none is_space s h)

  servers_loop-printed :
      (fuel : ℕ) (l found : List Str)
      → length l ≤ fuel
      → All IsAddress l
      → servers_loop lib fuel (printed l) found ≡ some (found ++ l)
  unfolding servers_loop
  servers_loop-printed zero [] found h a = ap some (sym (append-nil found))
  servers_loop-printed (suc fuel) [] found h a = ap some (sym (append-nil found))
  servers_loop-printed zero (s ∷ l) found h a = absurd (omega arith)
  servers_loop-printed (suc fuel) (s ∷ l) found h ((p, q, z), a) =
      let line = nameserver ++ (32 ∷ s) in
      let cut : lib.split_by newline (printed (s ∷ l)) ≡ (line, printed l) =
        lib.split_by_found newline line (printed l)
          (All-append (λ b. (b == newline) ≡ false) nameserver (32 ∷ s) no_newlines (refl, q)) in
      ap
        (λ (r : Str × Str). servers_loop lib fuel r.1 (with_server lib (line_server lib r.0) found))
        cut
      ∙ ap (λ o. servers_loop lib fuel (printed l) (with_server lib o found)) (line_server_lem s p)
      ∙ servers_loop-printed fuel l (found ++ (s ∷ [])) (omega arith) a
      ∙ ap some (append_assoc found (s ∷ []) l)

-- If the configuration file has a line "nameserver ADDRESS" for each server, with one space, lines that
-- end with a newline, and no blanks, newlines or zeros in the addresses, it is read as a whole and
-- there is memory, then _ffnetconf_dns succeeds, the caller reads exactly these addresses through
-- the pointers of the block, and the block fills exactly the memory that was allocated.
pub dns_unix-printed :
    (lib : ConfLib) (sys : ConfSys) (s : Str) (l : List Str)
    → sys.read_conf (4 * 1024) ≡ some (printed (s ∷ l))
    → ((n : ℕ) → sys.has_memory n ≡ true)
    → All IsAddress (s ∷ l)
    → (b : Block) × (dns_unix lib sys ≡ some b)
      × (texts_of (length (s ∷ l) * pointer_size) b ≡ s ∷ l)
      × (length b.pointers * pointer_size + length b.bytes
          ≡ capacity (s ∷ l) + length (s ∷ l) * pointer_size)
unfolding dns_unix
dns_unix-printed lib sys s l read mem a =
    let all : List Str = s ∷ l in
    let text = printed all in
    let found : servers_loop lib (length text) text [] ≡ some all =
      servers_loop-printed lib (length text) all [] (length-printed all) a in
    let (reads, fits) = block_of-texts_of all (NoZero-All all a) in
    (
      block_of all,
      ap (from_text lib sys) read
          ∙ ap (stored lib sys) found
          ∙ ap (λ t. if t then some (block_of all) else none)
              (mem (capacity all + length all * pointer_size)),
      reads,
      fits,
    )
