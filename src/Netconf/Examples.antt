-- ===== src/Netconf/Examples.antt =====
-- Runs of `_ffnetconf_dns` of FFOS/netconf.h, and the theorem at a concrete input.
use ffos.Base.{
  ℕ, ◌+◌, ◌*◌, ◌≡◌, refl, ap, Bool, true, false, some, List, [], ◌∷◌, ◌++◌, length, All, ◌==◌,
  if◌then◌else◌, arith,
}
use ffos.Base.Text.{codes}
use ffos.Ffbase.{Str, str_eq}
use ffos.Ffbase.Reference.{str_eq_iff}
use ffos.Netconf.{Block, pointer_size, ConfLib, ConfSys, line_server, dns_unix}
use ffos.Netconf.Layout.{texts_of}
use ffos.Netconf.Printed.{printed, dns_unix-printed}

abbrev split_at : (ℕ → Bool) → Str → Str × Str
split_at p [] = ([], [])
split_at p (b ∷ s) = let (l, r) = split_at p s in if p b then ([], s) else (b ∷ l, r)

abbrev skip : (ℕ → Bool) → Str → Str
skip p [] = []
skip p (b ∷ s) = let rest = skip p s in if p b then rest else b ∷ s

split_at-found :
    (p : ℕ → Bool) (s t : Str) (c : ℕ)
    → All (λ b. p b ≡ false) s
    → p c ≡ true
    → split_at p (s ++ (c ∷ t)) ≡ (s, t)
split_at-found p [] t c a h = rw h refl
split_at-found p (b ∷ s) t c (n, a) h =
    rw n (ap (λ (r : Str × Str). (b ∷ r.0, r.1)) (split_at-found p s t c a h))

split_at_none : (p : ℕ → Bool) (s : Str) → All (λ b. p b ≡ false) s → split_at p s ≡ (s, [])
split_at_none p [] a = refl
split_at_none p (b ∷ s) (n, a) = rw n (ap (λ (r : Str × Str). (b ∷ r.0, r.1)) (split_at_none p s a))

same_text : (s : Str) → str_eq s s ≡ true
same_text s = (str_eq_iff s s).1 refl

self : (c : ℕ) → (c == c) ≡ true
self c = ground arith

abbrev plain : ConfLib
plain = record {
  split_by = λ c s. split_at (λ b. b == c) s;
  split_by_any = split_at;
  skip_any = skip;
  eqz = str_eq;
  split_by_found = λ c s t a. split_at-found (λ b. b == c) s t c a (self c);
  split_by_any_found = split_at-found;
  split_by_any_none = split_at_none;
  skip_any_none = λ p b s h. rw h refl;
  eqz_same = same_text;
}

-- A second space before the address, and a carriage return behind it
blanks :
    (line_server plain (codes "nameserver  1.1.1.1") ≡ some [])
    × (line_server plain (codes "nameserver 1.1.1.1" ++ (13 ∷ []))
        ≡ some (codes "1.1.1.1" ++ (13 ∷ [])))
unfolding line_server
blanks = (refl, refl)

abbrev servers : List Str
servers = codes "::1" ∷ []

abbrev conf : ConfSys
conf = record {
  read_conf = λ n. some (printed (codes "9.9.9.9" ∷ servers));
  has_memory = λ n. true;
}

dns_unix-printed_example :
    (b : Block) × (dns_unix plain conf ≡ some b)
    × (texts_of 16 b ≡ codes "9.9.9.9" ∷ servers)
    × (length b.pointers * pointer_size + length b.bytes ≡ 28)
dns_unix-printed_example =
    dns_unix-printed plain conf (codes "9.9.9.9") servers refl (λ n. refl)
      (
        (
          (refl, (refl, (refl, (refl, (refl, (refl, (refl, tt))))))),
          (refl, (refl, (refl, (refl, (refl, (refl, (refl, tt))))))),
          (refl, (refl, (refl, (refl, (refl, (refl, (refl, tt))))))),
        ),
        (((refl, (refl, (refl, tt))), (refl, (refl, (refl, tt))), (refl, (refl, (refl, tt)))), tt),
      )
