-- ===== src/Winreg/Enum.antt =====
-- Listing the keys of the registry: `ffwinreg_enum_begin` and `ffwinreg_enum_nextkey` of FFOS/winreg.h.
use mathlib.Core.Option
use ffos.Base.{
  ℕ, zero, suc, ◌+◌, ◌*◌, ◌≡◌, ◌≤◌, refl, ap, ◌∙◌, Bool, true, false, Option, none, some, List, [],
  ◌∷◌, map, length, ltb, if◌then◌else◌, All, Bool-cases, inl, inr, arith,
}
use ffos.Ffbase.{Str}

-- What RegEnumKeyExW answers.
pub data Enumerated : Type 0 where
  item : List ℕ → Enumerated
  more_data no_more_items : Enumerated
  enum_error : ℕ → Enumerated

-- `ffwinreg_enum`: the key, the index, and the capacity of the buffer for names
pub record Enumerator : Type 0 where
  pub reg_key : ℕ
  pub index : ℕ
  pub name_cap : ℕ

-- What `ffwinreg_enum_nextkey` answers: 0 with a name, 1, or -1.
pub data Next : Type 0 where
  entry : Str → Next
  finished failed : Next

pub record EnumSys (E : Type 0) : Type 0 where
  pub enum_key : ℕ → ℕ → ℕ → E → Enumerated
  -- RegQueryInfoKeyW: the largest length of a name
  pub longest : ℕ → E → Option ℕ
  pub has_memory : ℕ → Bool
  pub set_error : ℕ → E → E
  -- ffs_wtou into so many bytes; a negative result is an assertion that fails.
  pub to_utf8 : ℕ → List ℕ → Option Str

-- `ffwinreg_enum_begin`
abbrev pub enum_begin : ℕ → Enumerator → Enumerator
enum_begin k en = record en { reg_key = k; index = 0 }

-- A key has these subkeys: the answer to a question for one of them, which needs a buffer for the
-- name and a zero
abbrev pub listed : List (List ℕ) → ℕ → ℕ → Enumerated
listed [] i cap_units = no_more_items
listed (w ∷ l) zero cap_units = if ltb cap_units (length w + 1) then more_data else item w
listed (w ∷ l) (suc i) cap_units = listed l i cap_units

module _ {E : Type 0} (sys : EnumSys E) where
  open sys use {enum_key, longest, has_memory, set_error, to_utf8}

  abbrev pub Answer : Type 0
  Answer = Option (Next × Enumerator × E)

  -- The name was read: it is converted and the index goes on. Nothing is an assertion that fails.
  abbrev pub converted : Enumerator → E → Option Str → Answer
  converted en e none = none
  converted en e (some s) = some (entry s, record en { index = suc en.index }, e)

  abbrev pub grown : Enumerator → E → Option ℕ → (Enumerator → Answer) → Answer
  grown en e none again = some (failed, en, e)
  grown en e (some n) again =
      if has_memory ((n + 1) * 2)
      then again (record en { name_cap = n + 1 })
      else some (failed, en, e)

  -- A round of the loop, and what follows it
  abbrev pub round : Enumerator → E → (Enumerator → Answer) → Enumerated → Answer
  round en e again (item w) =
      if has_memory (length w * 4)
      then converted en e (to_utf8 (length w * 4) w)
      else some (failed, en, e)
  round en e again more_data = grown en e (longest en.reg_key e) again
  round en e again no_more_items = some (finished, en, e)
  round en e again (enum_error c) = some (failed, en, set_error c e)

  -- `ffwinreg_enum_nextkey`; nothing if the model's fuel is used up.
  unfoldable pub nextkey : ℕ → Enumerator → E → Answer
  nextkey zero en e = none
  nextkey (suc fuel) en e =
      round en e (λ en'. nextkey fuel en' e) (enum_key en.reg_key en.index en.name_cap e)

  -- The names that repeated calls return, until the end; so many calls at most
  abbrev pub listed_next : Answer → (Enumerator → E → Option (List Str)) → Option (List Str)
  listed_next none rest = none
  listed_next (some (failed, en, e)) rest = none
  listed_next (some (finished, en, e)) rest = some []
  listed_next (some (entry s, en, e)) rest = Option.map (λ l. s ∷ l) (rest en e)

  unfoldable pub list_keys : ℕ → Enumerator → E → Option (List Str)
  list_keys zero en e = none
  list_keys (suc n) en e = listed_next (nextkey 2 en e) (list_keys n)

  -- A name fits the longest, and is converted.
  abbrev pub IsName : ℕ → (List ℕ → Str) → List ℕ → Type 0
  IsName n utf8 w = (length w ≤ n) × (to_utf8 (length w * 4) w ≡ some (utf8 w))

  -- The state of the registry, of which nothing changes while the key is listed
  pub record Stable (k n : ℕ) (keys : List (List ℕ)) (e : E) : Type 0 where
    pub enumerates : (i c : ℕ) → enum_key k i c e ≡ listed keys i c
    pub longest_is : longest k e ≡ some n
    pub memory : (m : ℕ) → has_memory m ≡ true

  abbrev at_index : ℕ → ℕ → ℕ → Enumerator
  at_index k i c = record { reg_key = k; index = i; name_cap = c }

  nextkey-item :
      (k n i c : ℕ) (keys : List (List ℕ)) (utf8 : List ℕ → Str) (w : List ℕ) (fuel : ℕ) (e : E)
      → Stable k n keys e
      → listed keys i c ≡ item w
      → IsName n utf8 w
      → nextkey (suc fuel) (at_index k i c) e ≡ some (entry (utf8 w), at_index k (suc i) c, e)
  unfolding nextkey
  nextkey-item k n i c keys utf8 w fuel e st there (fits, conv) =
      rw (st.enumerates i c, there, st.memory (length w * 4), conv) refl

  -- A call returns the next name, after the buffer has grown if it is too small.
  nextkey-grown :
      (k n i c : ℕ) (keys : List (List ℕ)) (utf8 : List ℕ → Str) (w : List ℕ) (l : List (List ℕ))
      (e : E)
      → Stable k n keys e
      → ((c : ℕ) → listed keys i c ≡ listed (w ∷ l) 0 c)
      → IsName n utf8 w
      → (c' : ℕ) × (nextkey 2 (at_index k i c) e ≡ some (entry (utf8 w), at_index k (suc i) c', e))
  unfolding nextkey
  nextkey-grown k n i c keys utf8 w l e st there (fits, conv) =
      let enough : ltb (n + 1) (length w + 1) ≡ false = ground arith in
      let item_at : listed keys i (n + 1) ≡ item w = there (n + 1) ∙ rw enough refl in
      elim (Bool-cases (ltb c (length w + 1))) [
        | inl y ↦
            let small : listed keys i c ≡ more_data = there c ∙ rw y refl in
            (
              n + 1,
              rw (st.enumerates i c, small, st.longest_is, st.memory ((n + 1) * 2))
                  (nextkey-item k n i (n + 1) keys utf8 w 0 e st item_at (fits, conv)),
            )
        | inr m ↦
            let large : listed keys i c ≡ item w = there c ∙ rw m refl in
            (c, nextkey-item k n i c keys utf8 w 1 e st large (fits, conv))
      ]

  nextkey-end :
      (k n i c : ℕ) (keys : List (List ℕ)) (fuel : ℕ) (e : E)
      → Stable k n keys e
      → listed keys i c ≡ no_more_items
      → nextkey (suc fuel) (at_index k i c) e ≡ some (finished, at_index k i c, e)
  unfolding nextkey
  nextkey-end k n i c keys fuel e st there = rw (st.enumerates i c, there) refl

  list_keys-from :
      (k n i c : ℕ) (keys l : List (List ℕ)) (utf8 : List ℕ → Str) (e : E)
      → Stable k n keys e
      → ((m c : ℕ) → listed keys (i + m) c ≡ listed l m c)
      → All (IsName n utf8) l
      → list_keys (suc (length l)) (at_index k i c) e ≡ some (map utf8 l)
  unfolding list_keys
  list_keys-from k n i c keys [] utf8 e st there names =
      let here : listed keys i c ≡ no_more_items =
        ap (λ x. listed keys x c) (omega arith) ∙ there 0 c in
      rw (nextkey-end k n i c keys 1 e st here) refl
  list_keys-from k n i c keys (w ∷ l) utf8 e st there (name, names) =
      let (c', step) =
        nextkey-grown k n i c keys utf8 w l e st
          (λ c. ap (λ x. listed keys x c) (omega arith) ∙ there 0 c) name in
      let rest =
        list_keys-from k n (suc i) c' keys l utf8 e st
          (λ m c. ap (λ x. listed keys x c) (omega arith) ∙ there (suc m) c) names in
      rw (step, rest) refl

  -- From ffwinreg_enum_begin on, whatever the buffer is, as many calls as there are subkeys and one more
  -- return the names of all subkeys, each once and in the registry's order, and then the end; no call
  -- needs more than two rounds. The registry does not change meanwhile, it knows the longest name,
  -- the names are convertible, and there is memory.
  pub list_keys-enum_begin :
      (k n : ℕ) (keys : List (List ℕ)) (utf8 : List ℕ → Str) (en : Enumerator) (e : E)
      → Stable k n keys e
      → All (IsName n utf8) keys
      → list_keys (suc (length keys)) (enum_begin k en) e ≡ some (map utf8 keys)
  list_keys-enum_begin k n keys utf8 en e st names =
      list_keys-from k n 0 en.name_cap keys keys utf8 e st
        (λ m c. ap (λ x. listed keys x c) (omega arith)) names
