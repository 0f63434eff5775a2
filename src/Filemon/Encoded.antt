-- ===== src/Filemon/Encoded.antt =====
-- What the `fffilemon_next` of FFOS/filemon.h on Linux reads of the events that the system has written.
use ffos.Base.{
  ℕ, zero, suc, ◌+◌, ◌≡◌, ◌<◌, refl, sym, ap, ◌∙◌, true, false, Option, none, some, ◌-◌, [], ◌∷◌,
  ◌++◌, length, take, drop, replicate, ltb, if◌then◌else◌, arith, length-append, All,
}
use ffos.Base.Int.{ℤ, pos, negsuc, u32}
use ffos.Ffbase.{Str}
use ffos.Filemon.Bytes.{word, bytes_of, word-bytes_of, as_int, drop-append}
use ffos.Filemon.{
  with_header, InotifyEvent, Next, header_of, name_of, next_linux, Sent, padded, encoded,
}

take_zeros :
    (z : ℕ) (rest : Str)
    → take (length {A = ℕ} (replicate z 0)) (0 ∷ (replicate z 0 ++ rest)) ≡ replicate z 0
take_zeros zero rest = refl
take_zeros (suc z) rest = ap (λ s. 0 ∷ s) (take_zeros z rest)

take_but_last :
    (b : ℕ) (s : Str) (z : ℕ) (rest : Str)
    → take (length (s ++ (0 ∷ replicate z 0))) (((b ∷ s) ++ (0 ∷ replicate z 0)) ++ rest)
      ≡ (b ∷ s) ++ replicate z 0
take_but_last b [] z rest = ap (λ s. b ∷ s) (take_zeros z rest)
take_but_last b (c ∷ s) z rest = ap (λ s. b ∷ s) (take_but_last c s z rest)

drop_nil : (n : ℕ) → drop {A = ℕ} n [] ≡ []
drop_nil zero = refl
drop_nil (suc n) = refl

suc_add : (m n : ℕ) → suc m + n ≡ suc (m + n)
suc_add m n = omega arith

drop_add : (m n : ℕ) (s : Str) → drop (m + n) s ≡ drop n (drop m s)
drop_add zero n s = ap (λ k. drop k s) (the_zero n)
  where
    the_zero : (k : ℕ) → 0 + k ≡ k
    the_zero k = omega arith
drop_add (suc m) n [] = ap (λ k. drop {A = ℕ} k []) (suc_add m n) ∙ sym (drop_nil n)
drop_add (suc m) n (b ∷ s) = ap (λ k. drop k (b ∷ s)) (suc_add m n) ∙ drop_add m n s

-- No zero byte, and words that fit
abbrev pub IsSendable : Sent → Type 0
IsSendable ev =
    (ev.sent_wd < 0x80000000)
    × (ev.sent_mask < u32)
    × (ev.sent_cookie < u32)
    × (length (padded ev.sent_name ev.zeros) < u32)
    × All (λ b. 0 < b) ev.sent_name

abbrev event_of : ℕ → ℕ → ℕ → ℕ → InotifyEvent
event_of w m c n = record { wd = w; mask = m; cookie = c; len = n }

header_of-encoded :
    (ev : Sent) (rest : Str)
    → IsSendable ev
    → header_of (encoded ev ++ rest)
      ≡ event_of ev.sent_wd ev.sent_mask ev.sent_cookie (length (padded ev.sent_name ev.zeros))
unfolding header_of
header_of-encoded ev rest (w, m, c, n, z) =
    let p = padded ev.sent_name ev.zeros in
    let t3 = p ++ rest in
    let t2 = bytes_of (length p) ++ t3 in
    let t1 = bytes_of ev.sent_cookie ++ t2 in
    let t0 = bytes_of ev.sent_mask ++ t1 in
    ap (λ x. event_of x (word t0) (word t1) (word t2))
      (word-bytes_of ev.sent_wd t0 (omega (arith, w)))
    ∙ ap (λ x. event_of ev.sent_wd x (word t1) (word t2)) (word-bytes_of ev.sent_mask t1 m)
    ∙ ap (λ x. event_of ev.sent_wd ev.sent_mask x (word t2)) (word-bytes_of ev.sent_cookie t2 c)
    ∙ ap (event_of ev.sent_wd ev.sent_mask ev.sent_cookie) (word-bytes_of (length p) t3 n)

abbrev next_of : ℤ → Option (Str × ℕ) → Str → Next
next_of r o s = record { result = r; stored = o; input = s }

module _ (rskipchar : Str → ℕ → Str)
    (rskipchar-zeros : (s : Str) (n : ℕ)
      → All (λ b. 0 < b) s
      → rskipchar (s ++ replicate n 0) 0 ≡ s) where
  name_of-padded :
      (s : Str) (z : ℕ) (rest : Str)
      → All (λ b. 0 < b) s
      → name_of rskipchar (length (padded s z)) (padded s z ++ rest) ≡ s
  unfolding name_of
  name_of-padded [] z rest a = refl
  name_of-padded (b ∷ s) z rest a =
      ap (λ t. rskipchar t 0) (take_but_last b s z rest) ∙ rskipchar-zeros (b ∷ s) z a

  -- An event that the system has written (a descriptor that is not negative, and a name without zeros,
  -- with zeros behind it) is read back with its descriptor, its mask and its name, whatever follows it,
  -- and the input goes on exactly behind it.
  pub next_linux-encoded :
      (ev : Sent) (rest : Str)
      → IsSendable ev
      → next_linux rskipchar (encoded ev ++ rest) ≡ record {
        result = pos ev.sent_wd;
        stored = some (ev.sent_name, ev.sent_mask);
        input = rest;
      }
  unfolding next_linux
  next_linux-encoded ev rest ok =
      let p = padded ev.sent_name ev.zeros in
      let s = encoded ev ++ rest in
      let long_enough : ltb (length s) 16 ≡ false = ground arith in
      let whole : ltb (length s) (16 + length p) ≡ false = ground (arith, length-append p rest) in
      let sign : ltb ev.sent_wd 0x80000000 ≡ true = ground (arith, ok.0) in
      let stopped = next_of (negsuc 0) none s in
      let got = name_of rskipchar (length p) (p ++ rest) in
      ap (λ h. with_header rskipchar h s) (header_of-encoded ev rest ok)
      ∙ ap
          (λ b.
            if b
            then stopped
            else (if ltb (length s) (16 + length p)
                then stopped
                else next_of (as_int ev.sent_wd) (some (got, ev.sent_mask))
                    (drop (16 + length p) s)))
          long_enough
      ∙ ap
          (λ b.
            if b
            then stopped
            else next_of (as_int ev.sent_wd) (some (got, ev.sent_mask)) (drop (16 + length p) s))
          whole
      ∙ ap
          (λ b.
            next_of (if b then pos ev.sent_wd else negsuc (u32 - 1 - ev.sent_wd))
              (some (got, ev.sent_mask)) (drop (16 + length p) s))
          sign
      ∙ ap (λ n. next_of (pos ev.sent_wd) (some (n, ev.sent_mask)) (drop (16 + length p) s))
          (name_of-padded ev.sent_name ev.zeros rest ok.4)
      ∙ ap (next_of (pos ev.sent_wd) (some (ev.sent_name, ev.sent_mask)))
          (drop_add 16 (length p) s ∙ drop-append p rest)
