-- ===== src/Netconf/Layout.antt =====
-- The block of memory that `_ffnetconf_dns` of FFOS/netconf.h fills: pointers, then texts.
use ffos.Base.{
  ℕ, suc, ◌+◌, ◌-◌, ◌*◌, ◌≡◌, refl, sym, ap, ap₂, subst, ◌∙◌, false, List, [], ◌∷◌, ◌++◌, map,
  length, drop, All, ◌==◌, if◌then◌else◌, arith, append_assoc, append-nil, length-append,
}
use ffos.Ffbase.{Str}
use ffos.Netconf.{Block, fill, capacity, block_of, pointer_size}

-- The text with a terminating zero at an offset
abbrev pub until_zero : Str → Str
until_zero [] = []
until_zero (b ∷ s) = let rest = until_zero s in if b == 0 then [] else b ∷ rest

-- What the caller reads through the pointers of a block
abbrev pub texts_of : ℕ → Block → List Str
texts_of base b = map (λ p. until_zero (drop (p - base) b.bytes)) b.pointers

abbrev flat : List Str → Str
flat [] = []
flat (s ∷ l) = (s ++ (0 ∷ [])) ++ flat l

abbrev offsets : ℕ → List Str → List ℕ
offsets k [] = []
offsets k (s ∷ l) = k ∷ offsets (k + (length s + 1)) l

abbrev pub NoZero : Str → Type 0
NoZero s = All (λ b. (b == 0) ≡ false) s

until_zero-append : (s t : Str) → NoZero s → until_zero ((s ++ (0 ∷ [])) ++ t) ≡ s
until_zero-append [] t n = refl
until_zero-append (b ∷ s) t (h, n) = rw h (ap (λ l. b ∷ l) (until_zero-append s t n))

drop-append : (s t : Str) (k : ℕ) → k ≡ length s → drop k (s ++ t) ≡ t
drop-append s t k h = subst (λ n. drop n (s ++ t) ≡ t) (sym h) (go s)
  where
    go : (s : Str) → drop (length s) (s ++ t) ≡ t
    go [] = refl
    go (b ∷ s) = go s

fill_lem :
    (base : ℕ) (l : List Str) (ptrs : List ℕ) (d : Str)
    → fill base l ptrs d
      ≡ record { pointers = ptrs ++ offsets (base + length d) l; bytes = d ++ flat l }
unfolding fill
fill_lem base [] ptrs d =
    ap₂ (λ (p : List ℕ) (b : Str). record { pointers = p; bytes = b }) (sym (append-nil ptrs))
      (sym (append-nil d))
fill_lem base (s ∷ l) ptrs d =
    let item = s ++ (0 ∷ []) in
    let next : base + length (d ++ item) ≡ base + length d + (length s + 1) =
      omega (arith, length-append d item, length-append s (0 ∷ [])) in
    fill_lem base l (ptrs ++ ((base + length d) ∷ [])) (d ++ item)
    ∙ ap₂ (λ (p : List ℕ) (b : Str). record { pointers = p; bytes = b })
        (append_assoc ptrs ((base + length d) ∷ []) (offsets (base + length (d ++ item)) l)
          ∙ ap (λ k. ptrs ++ ((base + length d) ∷ offsets k l)) next)
        (append_assoc d item (flat l))

texts_lem :
    (base : ℕ) (l : List Str) (d : Str)
    → All NoZero l
    → map (λ p. until_zero (drop (p - base) (d ++ flat l))) (offsets (base + length d) l) ≡ l
texts_lem base [] d n = refl
texts_lem base (s ∷ l) d (h, n) =
    let item = s ++ (0 ∷ []) in
    let next : base + length (d ++ item) ≡ base + length d + (length s + 1) =
      omega (arith, length-append d item, length-append s (0 ∷ [])) in
    let shape : d ++ (item ++ flat l) ≡ (d ++ item) ++ flat l =
      sym (append_assoc d item (flat l)) in
    let here : until_zero (drop (base + length d - base) (d ++ (item ++ flat l))) ≡ s =
      ap until_zero (drop-append d (item ++ flat l) (base + length d - base) (omega arith))
      ∙ until_zero-append s (flat l) h in
    let rest : map (λ p. until_zero (drop (p - base) (d ++ (item ++ flat l))))
          (offsets (base + length d + (length s + 1)) l)
        ≡ l =
      subst
        (λ (b : Str).
          map (λ p. until_zero (drop (p - base) b)) (offsets (base + length d + (length s + 1)) l)
          ≡ l)
        (sym shape)
        (subst
          (λ k. map (λ p. until_zero (drop (p - base) ((d ++ item) ++ flat l))) (offsets k l) ≡ l)
          next (texts_lem base l (d ++ item) n)) in
    ap₂ (λ (x : Str) (xs : List Str). x ∷ xs) here rest

length-flat : (l : List Str) → length (flat l) ≡ capacity l
length-flat [] = refl
length-flat (s ∷ l) =
    omega (arith, length-append (s ++ (0 ∷ [])) (flat l), length-append s (0 ∷ []), length-flat l)

length-offsets : (k : ℕ) (l : List Str) → length (offsets k l) ≡ length l
length-offsets k [] = refl
length-offsets k (s ∷ l) = ap suc (length-offsets (k + (length s + 1)) l)

-- The block of texts without zero bytes: through its pointers the caller reads the texts, in order,
-- and the pointers and the bytes together have exactly the size that is allocated.
pub block_of-texts_of :
    (l : List Str)
    → All NoZero l
    → (texts_of (length l * pointer_size) (block_of l) ≡ l)
      × (length (block_of l).pointers * pointer_size + length (block_of l).bytes
          ≡ capacity l + length l * pointer_size)
block_of-texts_of l n =
    let base = length l * pointer_size in
    let start : base + 0 ≡ base = omega arith in
    let filled = fill_lem base l [] [] in
    (
      ap (texts_of base) filled ∙ texts_lem base l [] n,
      ap (λ (b : Block). length b.pointers * pointer_size + length b.bytes) filled
          ∙ omega (arith, length-flat l, length-offsets (base + 0) l),
    )
