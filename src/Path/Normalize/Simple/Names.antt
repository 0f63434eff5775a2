-- ===== src/Path/Normalize/Simple/Names.antt =====
-- The names of `Simple` that a path without surprises holds, and that each step keeps them so.

use ffos.Base.{
  All, ℕ, ◌≡◌, refl, true, false, ◌&&◌, ◌||◌, inl, inr, Option, none, some, List, [], ◌∷◌,
  Bool-cases, Option-cases, ◌⊎◌, arith, ◌==◌,
}
use ffos.Ffbase.{Free, Str, one_of, last_of, is_empty, single, str_eq}
use ffos.Ffbase.Reference.{str_eq_iff}
use ffos.Path.{Os, slash, backslash, colon}
use ffos.Path.Normalize.{NormFlags, Config, config, sep_of, one_dot, two_dots}
use ffos.Path.Normalize.Tokens.{Token, push_token, tokens}
use ffos.Path.Normalize.Simple.{Name, pop, Stack, simple_step, simple_names, IsPlain}

-- A name of the buffer: plain, without separators, and with one separator behind it.
pub record IsName (c : Config) (m : Name) : Type 0 where
  pub plain : IsPlain m
  pub free : Free c.slashes m.text
  pub byte : ℕ
  pub sep_is : m.sep ≡ single byte
  pub sep_in : one_of c.slashes byte ≡ true

-- What the splitter gives: parts without separators, and a separator behind all but the last.
abbrev pub SepOk : Str → Option ℕ → List Token → Type 0
SepOk set none ts = ts ≡ []
SepOk set (some b) ts = one_of set b ≡ true

abbrev pub Good : Str → List Token → Type 0
Good set [] = Unit
Good set (t ∷ ts) = Free set t.part × SepOk set t.sep ts × Good set ts

Good-push_token :
    (set : Str) (b : ℕ) (ts : List Token)
    → one_of set b ≡ false
    → Good set ts
    → Good set (push_token b ts)
Good-push_token set b [] e h = ((e, tt), refl, tt)
Good-push_token set b (t ∷ ts) e h = ((e, h.0), h.1, h.2)

pub Good-tokens : (set s : Str) → Good set (tokens set s)
Good-tokens set [] = tt
Good-tokens set (b ∷ s) = elim (Bool-cases (one_of set b)) [
  | inl e ↦ rw e (tt, e, Good-tokens set s)
  | inr e ↦ rw e (Good-push_token set b (tokens set s) e (Good-tokens set s))
]

-- Every separator that the function writes is one that it looks for. FFPATH_FORCE_BACKSLASH breaks
-- this unless the path is split by backslashes too.
abbrev pub SeesOwn : Config → Type 0
SeesOwn c = (c.force_backslash ≡ true) → (c.force_slash ≡ false) → one_of c.slashes backslash ≡ true

abbrev pub HasSlash : Config → Type 0
HasSlash c = one_of c.slashes slash ≡ true

plain_of :
    (s sep : Str)
    → (is_empty s || str_eq s one_dot) ≡ false
    → str_eq s two_dots ≡ false
    → IsPlain (record { text = s; sep = sep })
plain_of s sep h k = record {
  not_empty = λ e. ground arith;
  not_dot = λ e. ground (arith, (str_eq_iff s one_dot).1 e);
  not_dots = λ e. ground (arith, (str_eq_iff s two_dots).1 e);
}

module _ (c : Config) (sees : SeesOwn c) (has : HasSlash c) where
  pub All-pop : (ms : List Name) → All (IsName c) ms → All (IsName c) (pop c ms)
  All-pop [] h = h
  All-pop (m ∷ []) h = elim (Bool-cases (c.disk && (last_of m.text == colon))) [
    | inl e ↦ rw e h
    | inr e ↦ rw e tt
  ]
  All-pop (m ∷ m' ∷ ms) h = h.1

  pub sep_of-in : (b : ℕ) → one_of c.slashes b ≡ true → one_of c.slashes (sep_of c b) ≡ true
  sep_of-in b h = ground (arith, sees, has)

  -- A step keeps the names in order, unless it is the last, which may have no separator.
  pub names_step :
      (t : Token) (b : ℕ) (st : Stack)
      → Free c.slashes t.part
      → t.sep ≡ some b
      → one_of c.slashes b ≡ true
      → All (IsName c) st.names
      → All (IsName c) (simple_step c st t).names
  unfolding simple_step
  names_step t b st free e h names = elim (Bool-cases (is_empty t.part || str_eq t.part one_dot)) [
    | inl d ↦ rw d names
    | inr k ↦ rw k (elim (Bool-cases (st.first && (last_of t.part == colon))) [
      | inl d ↦ rw d names
      | inr k' ↦ rw k' (elim (Bool-cases (str_eq t.part two_dots)) [
        | inl d ↦ rw d (All-pop st.names names)
        | inr k'' ↦
            rw (k'', e)
              (
                record {
                  plain = plain_of t.part (single (sep_of c b)) k k'';
                  free = free;
                  byte = sep_of c b;
                  sep_is = refl;
                  sep_in = sep_of-in b h;
                },
                names,
              )
      ])
    ])
  ]

pub config-HasSlash : (os : Os) (f : NormFlags) → HasSlash (config os f)
unfolding config
config-HasSlash os f = ground arith

-- The names that a path stands for.
unfoldable pub names_in : Os → NormFlags → Str → List Name
names_in os f src =
    let c = config os f in
    simple_names c (record { first = c.disk; names = [] }) (tokens c.slashes src)

-- Names that cannot lead out of a directory: each is plain and not to be split further, and has exactly
-- one separator behind it, but the last of the path (the first of the list), which may have none.
abbrev pub IsSafe : Config → List Name → Type 0
IsSafe c [] = Unit
IsSafe c (m ∷ ms) =
    IsPlain m
    × Free c.slashes m.text
    × ((m.sep ≡ []) ⊎ ((b : ℕ) × (m.sep ≡ single b) × (one_of c.slashes b ≡ true)))
    × All (IsName c) ms

module _ (c : Config) (sees : SeesOwn c) (has : HasSlash c) where
  All-IsSafe : (ms : List Name) → All (IsName c) ms → IsSafe c ms
  All-IsSafe [] h = tt
  All-IsSafe (m ∷ ms) (n, h) = (n.plain, n.free, inr (n.byte, n.sep_is, n.sep_in), h)

  -- The last part of a path, which has no separator
  last-IsSafe :
      (t : Token) (st : Stack)
      → Free c.slashes t.part
      → t.sep ≡ none
      → All (IsName c) st.names
      → IsSafe c (simple_step c st t).names
  unfolding simple_step
  last-IsSafe t st free e names = elim (Bool-cases (is_empty t.part || str_eq t.part one_dot)) [
    | inl d ↦ rw d (All-IsSafe st.names names)
    | inr k ↦ rw k (elim (Bool-cases (st.first && (last_of t.part == colon))) [
      | inl d ↦ rw d (All-IsSafe st.names names)
      | inr k' ↦ rw k' (elim (Bool-cases (str_eq t.part two_dots)) [
        | inl d ↦ rw d (All-IsSafe (pop c st.names) (All-pop c sees has st.names names))
        | inr k'' ↦ rw (k'', e) (plain_of t.part [] k k'', free, inl refl, names)
      ])
    ])
  ]

  pub simple_names-IsSafe :
      (ts : List Token) (st : Stack)
      → Good c.slashes ts
      → All (IsName c) st.names
      → IsSafe c (simple_names c st ts)
  unfolding simple_names
  simple_names-IsSafe [] st good names = All-IsSafe st.names names
  simple_names-IsSafe (t ∷ ts) st good names = elim (Option-cases t.sep) [
    | inl e ↦ let last : ts ≡ [] = rw e at good.1 in rw last (last-IsSafe t st good.0 e names)
    | inr (b, e) ↦
        let sep_in : one_of c.slashes b ≡ true = rw e at good.1 in
        simple_names-IsSafe ts (simple_step c st t) good.2
          (names_step c sees has t b st good.0 e sep_in names)
  ]
