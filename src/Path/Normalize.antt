-- ===== src/Path/Normalize.antt =====
-- `ffpath_normalize` of FFOS/path.h. The buffer `dst` is the list of the `k` bytes written so far
-- (bytes behind `k` are never read), and `src` is what is left of the input.
pub mod Tokens
pub mod Bounds
pub mod Simple
pub mod Absolute
pub mod Backslash
use ffos.Base.{
  ℕ, zero, suc, ◌+◌, ◌-◌, Bool, true, false, ◌||◌, ◌&&◌, not, Option, none, some, [], ◌∷◌, ◌++◌,
  ltb, ◌==◌, if◌then◌else◌, length, take, drop, get_or,
}
use ffos.Ffbase.{Str, StrLib, Split, is_empty, last_of, but_last, single}
use ffos.Path.{Os, windows, unix, slash, backslash, dot, colon}

-- `enum FFPATH_NORM`: each bit of `flags` is a field.
pub record NormFlags : Type 0 where
  pub slash_only : Bool
  pub slash_backslash : Bool
  pub force_slash : Bool
  pub force_backslash : Bool
  pub simple : Bool
  pub disk_letter : Bool
  pub no_disk_letter : Bool

abbrev pub one_dot : Str
one_dot = single dot

abbrev pub two_dots : Str
two_dots = dot ∷ dot ∷ []

abbrev pub both_slashes : Str
both_slashes = slash ∷ backslash ∷ []

-- What the code before the loop settles: the separators and the flags that the loop reads.
pub record Config : Type 0 where
  pub slashes : Str
  pub simple : Bool
  pub disk : Bool
  pub force_slash : Bool
  pub force_backslash : Bool

unfoldable pub config : Os → NormFlags → Config
config os f = record {
  slashes =
      if f.slash_backslash || (is_win os && not f.slash_only) then both_slashes else single slash;
  simple = f.simple;
  disk = f.disk_letter || (is_win os && not f.no_disk_letter);
  force_slash = f.force_slash;
  force_backslash = f.force_backslash;
}
  where
    is_win : Os → Bool
    is_win windows = true
    is_win unix = false

-- The loop's variables `dst[0..k)`, `simplify` and `skip_disk`.
pub record Norm : Type 0 where
  pub out : Str
  pub simplify : Bool
  pub skip_disk : Bool

-- Of a part: `continue` at the top of the body, or go on to the rest of it.
pub data Entry : Type 0 where
  skipped kept : Norm → Entry

-- Of a ".." part: `continue`, or go on and write it. Both carry the buffer.
pub data Parent : Type 0 where
  settled written : Str → Parent

-- A round of the loop ends it with -1, or leaves the variables for the next one.
pub data Round : Type 0 where
  next : Norm → Round
  full : Round

-- What the function returns: the bytes written, or -1. `stuck` is the model's own, for a loop that
-- has used up its fuel.
pub data Outcome : Type 0 where
  ok : Str → Outcome
  too_small stuck : Outcome

-- The separator that is written for the separator `b` of the input.
abbrev pub sep_of : Config → ℕ → ℕ
sep_of c b = if c.force_slash then slash else if c.force_backslash then backslash else b

-- What goes behind a part: one byte if a separator was found.
abbrev pub sep_byte : Config → Option ℕ → Str
sep_byte c none = []
sep_byte c (some b) = single (sep_of c b)

-- The byte at `s2[pos]`.
abbrev pub sep_at : Str → Option ℕ → Option ℕ
sep_at s none = none
sep_at s (some i) = some (get_or s i 0)

abbrev pub initial : Config → Norm
initial c = record { out = []; simplify = c.simple; skip_disk = c.disk && c.simple }

-- `return -1` ends the loop.
unfoldable pub after : Round → (Norm → Outcome) → Outcome
after (next n) rest = rest n
after full rest = too_small

module _ (lib : StrLib) where
  open lib use {rfindany, splitbyany, eqz}

  unfoldable pub entry : Str → Norm → Entry
  entry part n =
      if not n.simplify
      then kept (record n { simplify = true })
      else if is_empty part || eqz part one_dot
      then skipped n
      else if not n.skip_disk
      then kept n
      else if last_of part == colon
      then skipped (record n { skip_disk = false })
      else kept (record n { skip_disk = false })

  -- The buffer `out` is not empty. `prev` is the buffer without its last byte.
  unfoldable pub parent_of : Config → Str → Parent
  parent_of c out =
      let prev = but_last out in
      elim (rfindany prev c.slashes) [
        | none ↦
            if eqz prev one_dot
            then written []
            else if eqz prev two_dots
            then written out
            else if length out == 1
            then settled out
            else if c.disk && (last_of prev == colon)
            then settled out
            else settled []
        | some i ↦
            if eqz (drop (i + 1) prev) two_dots then written out else settled (take (i + 1) out)
      ]

  unfoldable pub parent : Config → Str → Parent
  parent c out =
      if not (is_empty out) then parent_of c out else if c.simple then settled out else written out

  unfoldable pub emit : Config → ℕ → Str → Option ℕ → Norm → Round
  emit c size part sep n =
      if ltb size (length n.out + length part + length (sep_byte c sep))
      then full
      else next (record n { out = n.out ++ (part ++ sep_byte c sep) })

  unfoldable pub body : Config → ℕ → Str → Option ℕ → Norm → Round
  body c size part sep n =
      if not (eqz part two_dots) then emit c size part sep n else elim (parent c n.out) [
        | settled out ↦ next (record n { out = out })
        | written out ↦ emit c size part sep (record n { out = out })
      ]

  unfoldable pub round : Config → ℕ → Str → Option ℕ → Norm → Round
  round c size part sep n = elim (entry part n) [
    | skipped n' ↦ next n'
    | kept n' ↦ body c size part sep n'
  ]

  unfoldable pub loop : Config → ℕ → ℕ → Str → Norm → Outcome
  loop c size fuel [] n = ok n.out
  loop c size zero (b ∷ s) n = stuck
  loop c size (suc fuel) (b ∷ s) n =
      let r = splitbyany (b ∷ s) c.slashes in
      after (round c size r.part (sep_at (b ∷ s) r.pos) n) (λ n'. loop c size fuel r.rest n')

  -- Every round takes at least one byte off the input, so its length is enough fuel.
  unfoldable pub normalize : Os → ℕ → Str → NormFlags → Outcome
  unfolding config
  normalize os size src f = loop (config os f) size (length src) src (initial (config os f))
