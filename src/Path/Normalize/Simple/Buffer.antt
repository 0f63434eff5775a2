-- ===== src/Path/Normalize/Simple/Buffer.antt =====
-- How `..` finds the last name in the buffer: `ffs_rfindany` and the cut behind the slash it finds.
use native.Mathlib.Numerals.{add-one}
use ffos.Base.{
  ℕ, suc, ◌≡◌, ◌≢◌, refl, ap, true, false, ◌&&◌, inl, inr, none, some, [], ◌∷◌, ◌++◌, if◌then◌else◌,
  length, take, drop, Bool-cases, arith, ◌==◌, append_assoc,
}
use ffos.Ffbase.{Free, Str, StrLib, one_of, but_last, last_of, last_in, is_empty, single, str_eq}
use ffos.Ffbase.Reference.{str_eq_iff}
use ffos.Path.{colon}
use ffos.Path.Normalize.{Config, settled, one_dot, two_dots, parent, parent_of}

-- Every library that meets the documentation compares as `str_eq` does.
pub eqz-eq-str_eq : (lib : StrLib) (s t : Str) → lib.eqz s t ≡ str_eq s t
eqz-eq-str_eq lib s t = elim (Bool-cases (lib.eqz s t)) [
  | inl e ↦ rw (e, (str_eq_iff s t).1 ((lib.eqz_lem s t).0 e))
  | inr e ↦ elim (Bool-cases (str_eq s t)) [
    | inl d ↦ cc ((lib.eqz_lem s t).1 ((str_eq_iff s t).0 d))
    | inr d ↦ rw (e, d)
  ]
]

pub eqz-false : (lib : StrLib) (s t : Str) → s ≢ t → lib.eqz s t ≡ false
eqz-false lib s t h = elim (Bool-cases (lib.eqz s t)) [
  | inl e ↦ absurd (h ((lib.eqz_lem s t).0 e))
  | inr e ↦ e
]

last_in-Free : (set s : Str) → Free set s → last_in set s ≡ none
last_in-Free set [] h = refl
last_in-Free set (b ∷ s) h = rw (last_in-Free set s h.1, h.0)

last_in-append :
    (set xs : Str) (b : ℕ) (s : Str)
    → one_of set b ≡ true
    → Free set s
    → last_in set (xs ++ (b ∷ s)) ≡ some (length xs)
last_in-append set [] b s e h = rw (last_in-Free set s h, e)
last_in-append set (x ∷ xs) b s e h = rw (last_in-append set xs b s e h)

module _ (b : ℕ) where
  but_last-append : (xs : Str) → but_last (xs ++ single b) ≡ xs
  but_last-append [] = refl
  but_last-append (x ∷ []) = refl
  but_last-append (x ∷ y ∷ xs) = ap (λ s. x ∷ s) (but_last-append (y ∷ xs))

  is_empty-append : (xs : Str) → is_empty (xs ++ single b) ≡ false
  is_empty-append [] = refl
  is_empty-append (x ∷ xs) = refl

  not_one_byte : (xs : Str) → xs ≢ [] → (length (xs ++ single b) == 1) ≡ false
  not_one_byte [] h = absurd (h refl)
  not_one_byte (x ∷ []) h = refl
  not_one_byte (x ∷ y ∷ xs) h = ground arith

  take-append : (xs s : Str) → take (suc (length xs)) (xs ++ (b ∷ s)) ≡ xs ++ single b
  take-append [] s = refl
  take-append (x ∷ xs) s = ap (λ s. x ∷ s) (take-append xs s)

  drop-append : (xs s : Str) → drop (suc (length xs)) (xs ++ (b ∷ s)) ≡ s
  drop-append [] s = refl
  drop-append (x ∷ xs) s = drop-append xs s

module _ (lib : StrLib) (c : Config) where
  pub parent-nil : c.simple ≡ true → parent lib c [] ≡ settled []
  unfolding parent
  parent-nil h = rw h

  -- One name: it goes, but for a drive name.
  pub parent_bottom :
      (text : Str) (b : ℕ)
      → Free c.slashes text
      → text ≢ []
      → text ≢ one_dot
      → text ≢ two_dots
      → parent lib c (text ++ single b)
        ≡ settled (if c.disk && (last_of text == colon) then text ++ single b else [])
  unfolding parent parent_of
  parent_bottom text b free ne nd ndd =
      rw
        (
          is_empty-append b text,
          parent_of,
          but_last-append b text,
          lib.rfindany_lem text c.slashes,
          last_in-Free c.slashes text free,
          but_last-append b text,
          eqz-false lib text one_dot nd,
          eqz-false lib text two_dots ndd,
          not_one_byte b text ne,
        )
        (elim (Bool-cases (c.disk && (last_of text == colon))) [ inl e ↦ rw e | inr e ↦ rw e ])

  -- Several names: the last goes, and the separator before it stays.
  pub parent_above :
      (xs : Str) (a : ℕ) (text : Str) (b : ℕ)
      → one_of c.slashes a ≡ true
      → Free c.slashes text
      → text ≢ two_dots
      → parent lib c (xs ++ (a ∷ (text ++ single b))) ≡ settled (xs ++ single a)
  unfolding parent parent_of
  parent_above xs a text b e free ndd =
      let flat : (xs ++ (a ∷ text)) ++ single b ≡ xs ++ (a ∷ (text ++ single b)) =
        append_assoc xs (a ∷ text) (single b) in
      let some_byte : is_empty (xs ++ (a ∷ (text ++ single b))) ≡ false =
        rw flat at (is_empty-append b (xs ++ (a ∷ text))) in
      let prev : but_last (xs ++ (a ∷ (text ++ single b))) ≡ xs ++ (a ∷ text) =
        rw flat at (but_last-append b (xs ++ (a ∷ text))) in
      rw (
        some_byte,
        parent_of,
        prev,
        lib.rfindany_lem (xs ++ (a ∷ text)) c.slashes,
        last_in-append c.slashes xs a text e free,
        prev,
        add-one (length xs),
        drop-append a xs text,
        eqz-false lib text two_dots ndd,
        take-append a xs (text ++ single b),
      )
