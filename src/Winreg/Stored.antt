-- ===== src/Winreg/Stored.antt =====
-- Reading a value of the registry: `ffwinreg_read` of FFOS/winreg.h ends, returns what is stored, and
-- reads back what `ffwinreg_writestr` wrote.
use ffos.Base.{
  ℕ, suc, ◌+◌, ◌*◌, ◌/◌, ◌%◌, ◌≡◌, ◌≤◌, ◌<◌, refl, sym, ap, ◌∙◌, Bool, true, false, ◌||◌, Option,
  none, some, List, [], ◌∷◌, ◌++◌, length, All, ltb, if◌then◌else◌, if_both, Bool-cases, inl, inr,
  arith,
}
use ffos.Ffbase.{Str}
use ffos.Winreg.Value.{
  reg_sz, is_str, units_of, bytes_of, Query, got, more, Read, value, need, failed, RegSys,
  without_zero, got_text, got_data, round, is_some, read_named, outside, read_loop, first_size,
  read, stored, write, writestr,
}

-- A text of units with a zero behind it is read without the zero.
units_of-bytes_of : (w : List ℕ) → All (λ u. u < 65536) w → units_of (bytes_of w) ≡ w
units_of-bytes_of [] a = refl
units_of-bytes_of (u ∷ w) (lt, a) =
    let unit : u % 256 + 256 * (u / 256) ≡ u = omega arith in
    ap (λ x. x ∷ units_of (bytes_of w)) unit ∙ ap (λ l. u ∷ l) (units_of-bytes_of w a)

length-bytes_of : (w : List ℕ) → length (bytes_of w) ≡ 2 * length w
length-bytes_of [] = refl
length-bytes_of (u ∷ w) = omega (arith, length-bytes_of w)

All-append : (w : List ℕ) → All (λ u. u < 65536) w → All (λ u. u < 65536) (w ++ (0 ∷ []))
All-append [] a = (omega arith, tt)
All-append (u ∷ w) (lt, a) = (lt, All-append w a)

module _ {E : Type 0} (sys : RegSys E) where
  open sys use {query, has_memory, wide_name, measure, to_utf8}

  without_zero-append : (w : List ℕ) → without_zero sys (w ++ (0 ∷ [])) ≡ w
  without_zero-append [] = refl
  without_zero-append (u ∷ []) = refl
  without_zero-append (u ∷ v ∷ w) = ap (λ l. u ∷ l) (without_zero-append (v ∷ w))

  abbrev Ended : Option Read → Type 0
  Ended o = (r : Read) × (o ≡ some r)

  got-Ended :
      (temp : Bool) (user : Option ℕ) (again : ℕ → Option Read) (ty : ℕ) (s : Str)
      → Ended (round sys temp user again (got ty s))
  got-Ended temp user again ty s =
      (if is_str ty then got_text sys temp user ty s else got_data sys temp user ty s, refl)

  -- A round with a temporary buffer is the last one.
  round-temp :
      (user : Option ℕ) (again : ℕ → Option Read) (q : Query) → Ended (round sys true user again q)
  round-temp user again Query.query_failed = (failed, refl)
  round-temp user again (got ty s) = got-Ended true user again ty s
  round-temp none again (more ty size) =
      if_both Ended (is_str ty) (some (need ty (size / 2 * 4))) (some (need ty size))
        (λ y. (need ty (size / 2 * 4), refl)) (λ n. (need ty size, refl))
  round-temp (some m) again (more ty size) =
      if_both Ended (is_str ty) (some (need ty (size / 2 * 4))) (some (need ty size))
        (λ y. (need ty (size / 2 * 4), refl)) (λ n. (need ty size, refl))

  round-first :
      (user : Option ℕ) (again : ℕ → Option Read) (q : Query)
      → ((n : ℕ) → Ended (again n))
      → Ended (round sys false user again q)
  round-first user again Query.query_failed h = (failed, refl)
  round-first user again (got ty s) h = got-Ended false user again ty s
  round-first user again (more ty size) h =
      let another = if has_memory size then again size else some failed in
      let ended : Ended another =
        if_both Ended (has_memory size) (again size) (some failed) (λ y. h size)
          (λ n. (failed, refl)) in
      if_both Ended (is_str ty) another
        (if is_some sys user || false then some (need ty size) else another) (λ y. ended)
        (λ n.
          if_both Ended (is_some sys user || false) (some (need ty size)) another
            (λ y. (need ty size, refl)) (λ m. ended))

  -- Whatever the registry answers, even if the value changes between the calls, the loop of
  -- ffwinreg_read ends within two rounds.
  pub read-ends :
      (name : Str) (user : Option ℕ) (fuel : ℕ) (e : E)
      → (r : Read) × (read sys (suc (suc fuel)) name user e ≡ some r)
  unfolding read read_loop
  read-ends name user fuel e = go (wide_name name)
    where
      go : (o : Option Str) → Ended (read_named sys (suc (suc fuel)) user e o)
      go none = (Read.no_name, refl)
      go (some w) =
          round-first user (λ n. read_loop sys (suc fuel) w true user n e)
            (query w (first_size sys user) e)
            (λ n. round-temp user (λ m. read_loop sys fuel w true user m e) (query w n e))

  -- The registry holds a value under a name: it is given to a buffer that is large enough.
  abbrev pub Holds : E → Str → ℕ → Str → Type 0
  Holds e w ty s =
      (n : ℕ) → query w n e ≡ (if ltb n (length s) then more ty (length s) else got ty s)

  -- What a caller without a buffer gets of stored bytes: the bytes, or their text in UTF-8
  abbrev pub Contents : ℕ → Str → Str → Type 0
  Contents ty s t =
      (is_str ty ≡ false → t ≡ s)
      × (is_str ty ≡ true → let w = without_zero sys (units_of s) in to_utf8 (measure w) w ≡ some t)

  got-Contents :
      (temp : Bool) (again : ℕ → Option Read) (ty : ℕ) (s t : Str)
      → ((n : ℕ) → has_memory n ≡ true)
      → Contents ty s t
      → round sys temp none again (got ty s) ≡ some (value ty t)
  got-Contents temp again ty s t mem (plain, text) = elim (Bool-cases (is_str ty)) [
    | inl y ↦ let w = without_zero sys (units_of s) in rw (y, mem (measure w), text y) refl
    | inr n ↦ elim (Bool-cases temp) [
      | inl y ↦ rw (n, y) (ap (λ x. some (value ty x)) (sym (plain n)))
      | inr m ↦ rw (n, m, mem (length s)) (ap (λ x. some (value ty x)) (sym (plain n)))
    ]
  ]

  -- If the registry holds a value that does not change, the conversion succeeds and there is memory,
  -- then a caller without a buffer gets the value, however large it is.
  pub read-Contents :
      (name w : Str) (ty : ℕ) (s t : Str) (e : E)
      → wide_name name ≡ some w
      → Holds e w ty s
      → ((n : ℕ) → has_memory n ≡ true)
      → Contents ty s t
      → read sys 2 name none e ≡ some (value ty t)
  unfolding read read_loop
  read-Contents name w ty s t e named holds mem c =
      let again = λ (n : ℕ). read_loop sys 1 w true none n e in
      let fits : ltb (length s) (length s) ≡ false = ground arith in
      let whole : query w (length s) e ≡ got ty s = holds (length s) ∙ rw fits refl in
      let second : again (length s) ≡ some (value ty t) =
        ap (round sys true none (λ n. read_loop sys 0 w true none n e)) whole
        ∙ got-Contents true (λ n. read_loop sys 0 w true none n e) ty s t mem c in
      elim (Bool-cases (ltb 256 (length s))) [
        | inl y ↦
            let large : query w 256 e ≡ more ty (length s) = holds 256 ∙ rw y refl in
            rw named (
              ap (round sys false none again) large
              ∙ if_both (λ (o : Option Read). o ≡ some (value ty t)) (is_str ty)
                  (if has_memory (length s) then again (length s) else some failed)
                  (if has_memory (length s) then again (length s) else some failed)
                  (λ z. rw (mem (length s)) second) (λ z. rw (mem (length s)) second))
        | inr n ↦
            let small : query w 256 e ≡ got ty s = holds 256 ∙ rw n refl in
            rw named (ap (round sys false none again) small ∙ got-Contents false again ty s t mem c)
      ]

  -- A text of fewer than 256 units that ffwinreg_writestr writes is what ffwinreg_read reads afterwards,
  -- if the registry then holds what it was given, the two conversions are inverse, and there is memory.
  pub read-writestr :
      (name w s : Str) (u : List ℕ) (e e' : E)
      → wide_name name ≡ some w
      → sys.to_utf16 s ≡ some u
      → to_utf8 (measure u) u ≡ some s
      → All (λ x. x < 65536) u
      → length u < 256
      → sys.set_value w reg_sz (bytes_of (u ++ (0 ∷ []))) e ≡ (true, e')
      → Holds e' w reg_sz (bytes_of (u ++ (0 ∷ [])))
      → ((n : ℕ) → has_memory n ≡ true)
      → (writestr sys name s e ≡ (stored, e')) × (read sys 2 name none e' ≡ some (value reg_sz s))
  unfolding write writestr
  read-writestr name w s u e e' named conv back units short set holds mem =
      let room : ltb (length u) 256 ≡ true = ground arith in
      let same : without_zero sys (units_of (bytes_of (u ++ (0 ∷ [])))) ≡ u =
        ap (without_zero sys) (units_of-bytes_of (u ++ (0 ∷ [])) (All-append u units))
        ∙ without_zero-append u in
      (
        rw (named, conv, room, set) refl,
        read-Contents name w reg_sz (bytes_of (u ++ (0 ∷ []))) s e' named holds mem
            (λ n. absurd (cc), λ y. ap (λ x. to_utf8 (measure x) x) same ∙ back),
      )

  -- A text of 256 units or more is not written, since the terminating zero is put behind the buffer.
  pub writestr_outside :
      (name w s : Str) (u : List ℕ) (e : E)
      → wide_name name ≡ some w
      → sys.to_utf16 s ≡ some u
      → 256 ≤ length u
      → writestr sys name s e ≡ (outside, e)
  unfolding write writestr
  writestr_outside name w s u e named conv long =
      let none_left : ltb (length u) 256 ≡ false = ground arith in rw (named, conv, none_left) refl
