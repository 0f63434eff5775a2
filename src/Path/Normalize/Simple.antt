-- ===== src/Path/Normalize/Simple.antt =====
-- What FFPATH_SIMPLE of `ffpath_normalize` means: a stack of names. Empty parts and "." are dropped,
-- ".." takes the last name off, and where drive letters are handled a first part that ends in ':' is
-- dropped, and such a part at the bottom of the stack stays.
pub mod Buffer
pub mod Names
pub mod Refine
use ffos.Base.{
  ℕ, ◌≡◌, ◌≢◌, Bool, true, false, not, ◌&&◌, ◌||◌, Option, none, some, List, [], ◌∷◌, ◌++◌,
  if◌then◌else◌, ◌==◌,
}
use ffos.Ffbase.{Str, one_of, last_of, is_empty, str_eq}
use ffos.Path.{colon}
use ffos.Path.Normalize.{Config, sep_byte, one_dot, two_dots}
use ffos.Path.Normalize.Tokens.{Token}

-- A name that is kept, with the separator written behind it.
pub record Name : Type 0 where
  pub text : Str
  pub sep : Str

-- The names kept so far, the last first.
abbrev pub render : List Name → Str
render [] = []
render (m ∷ ms) = render ms ++ (m.text ++ m.sep)

abbrev pub pop : Config → List Name → List Name
pop c [] = []
pop c (m ∷ []) = if c.disk && (last_of m.text == colon) then m ∷ [] else []
pop c (m ∷ m' ∷ ms) = m' ∷ ms

-- `first` says that no name has come yet and that drive letters are handled.
pub record Stack : Type 0 where
  pub first : Bool
  pub names : List Name

unfoldable pub simple_step : Config → Stack → Token → Stack
simple_step c st t =
    if is_empty t.part || str_eq t.part one_dot
    then st
    else if st.first && (last_of t.part == colon)
    then record st { first = false }
    else if str_eq t.part two_dots
    then record { first = false; names = pop c st.names }
    else record {
      first = false;
      names = record { text = t.part; sep = sep_byte c t.sep } ∷ st.names;
    }

unfoldable pub simple_names : Config → Stack → List Token → List Name
simple_names c st [] = st.names
simple_names c st (t ∷ ts) = simple_names c (simple_step c st t) ts

-- A name that a simple path may have.
pub record IsPlain (m : Name) : Type 0 where
  pub not_empty : m.text ≢ []
  pub not_dot : m.text ≢ one_dot
  pub not_dots : m.text ≢ two_dots
