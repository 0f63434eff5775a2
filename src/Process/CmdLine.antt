-- ===== src/Process/CmdLine.antt =====
-- `_ffargv_to_cmdln` of FFOS/process.h: the command line of Windows from a list of arguments.
use ffos.Base.{
  ℕ, ◌+◌, ◌-◌, Bool, true, false, Option, none, some, List, [], ◌∷◌, ◌++◌, length, ◌==◌, ◌||◌,
  if◌then◌else◌,
}
use ffos.Ffbase.{Str}

abbrev pub quote : ℕ
quote = 34

abbrev pub space : ℕ
space = 32

abbrev pub contains : ℕ → Str → Bool
contains c [] = false
contains c (b ∷ s) = (b == c) || contains c s

-- ffsz_utow and ffmem_alloc
pub record WideLib : Type 0 where
  -- The number of units of the conversion with its terminating zero; nothing if it fails.
  pub measure : Str → Option ℕ
  -- The conversion into so many units, without its terminating zero; nothing if it fails.
  pub convert : ℕ → Str → Option Str
  pub has_memory : ℕ → Bool

pub data CmdLine : Type 0 where
  -- a line with its terminating zero
  made : Str → CmdLine
  -- ERROR_INVALID_PARAMETER
  refused : CmdLine
  no_memory : CmdLine
  -- A conversion in the second loop failed: its negative result would be added to the offset.
  overrun : CmdLine

module _ (lib : WideLib) where
  abbrev pub more_room : Option ℕ → Option ℕ → Option ℕ
  more_room none rest = none
  more_room (some n) none = none
  more_room (some n) (some m) = if n == 0 then none else some (n + 3 + m)

  -- The first loop, from `cap = 1`: the room for all arguments
  unfoldable pub capacity : List Str → Option ℕ
  capacity [] = some 1
  capacity (a ∷ args) = let rest = capacity args in more_room (lib.measure a) rest

  -- `args[k++] = '"'` behind the text, if the argument has a space
  abbrev pub opened : Bool → Str → Str
  opened true out = out ++ (quote ∷ [])
  opened false out = out

  abbrev pub closed : Bool → Str → Option Str → Option Str
  closed has_space start none = none
  closed has_space start (some w) = some (opened has_space (start ++ w) ++ (space ∷ []))

  abbrev pub add_arg : ℕ → Str → Str → Option Str
  add_arg cap_units out a =
      let has_space = contains space a in
      let start = opened has_space out in
      closed has_space start (lib.convert (cap_units - length start) a)

  -- `if (k != 0) k--;` and the terminating zero
  abbrev pub without_last : Str → Str
  without_last [] = []
  without_last (b ∷ []) = []
  without_last (b ∷ c ∷ s) = b ∷ without_last (c ∷ s)

  abbrev pub added : Option Str → (Str → CmdLine) → CmdLine
  added none rest = overrun
  added (some out) rest = rest out

  -- The second loop
  unfoldable pub args_loop : ℕ → List Str → Str → CmdLine
  args_loop cap_units [] out = made (without_last out ++ (0 ∷ []))
  args_loop cap_units (a ∷ args) out =
      if contains quote a
      then refused
      else added (add_arg cap_units out a) (args_loop cap_units args)

  abbrev pub filled : List Str → Option ℕ → CmdLine
  filled argv none = refused
  filled argv (some n) = if lib.has_memory (n + 1) then args_loop n argv [] else no_memory

  unfoldable pub argv_to_cmdln : List Str → CmdLine
  argv_to_cmdln argv = filled argv (capacity argv)
