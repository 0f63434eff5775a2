-- ===== src/Process/Quote.antt =====
-- How the command line of `_ffargv_to_cmdln` of FFOS/process.h is read back.
use ffos.Base.{
  ℕ, suc, ◌+◌, ◌-◌, ◌/◌, ◌%◌, take, arith, ◌≡◌, ◌≤◌, ◌≢◌, refl, sym, ap, ◌∙◌, Bool, true, false,
  some, List, [], ◌∷◌, ◌++◌, map, length, ◌==◌, ◌||◌, All, if◌then◌else◌, append_assoc, append-nil,
}
use ffos.Ffbase.{Str}
use ffos.Process.CmdLine.{quote, space, contains, WideLib}

abbrev pub quoted : Bool → Str → Str
quoted true w = quote ∷ w ++ (quote ∷ [])
quoted false w = w

-- An argument ends, if one has begun.
abbrev ended : Bool → Str → List Str → List Str
ended true cur rest = cur ∷ rest
ended false cur rest = rest

abbrev pub tab : ℕ
tab = 9

abbrev pub backslash : ℕ
backslash = 92

abbrev pub is_blank : ℕ → Bool
is_blank b = (b == space) || (b == tab)

-- How many backslashes end a text, behind so many
abbrev pub one_more : ℕ → ℕ → ℕ
one_more n b = if b == backslash then suc n else 0

abbrev pub trailing : ℕ → Str → ℕ
trailing n [] = n
trailing n (b ∷ w) = trailing (one_more n b) w

-- Of n backslashes in front of a quote every second one is left.
abbrev pub unescaped : ℕ → Str → Str
unescaped n cur = take (length cur - (n - n / 2)) cur

-- How a program reads its arguments (CommandLineToArgvW, but for a quote that is doubled inside of quotes):
-- outside of quotes blanks and tabs stand between the arguments. A quote turns quoting on and off, but
-- behind an odd number of backslashes it is itself. `q` is whether a quote is open, `begun` whether an
-- argument has begun, `n` how many backslashes came last.
unfoldable pub read_args : Bool → Bool → ℕ → Str → Str → List Str
read_args q begun n cur [] = ended begun cur []
read_args q begun n cur (b ∷ l) =
    let as_turn = read_args (if q then false else true) true 0 (unescaped n cur) l in
    let as_quote = read_args q true 0 (unescaped n cur ++ (quote ∷ [])) l in
    let as_end = ended begun cur (read_args false false 0 [] l) in
    let as_byte = read_args q true (one_more n b) (cur ++ (b ∷ [])) l in
    if b == quote
    then (if n % 2 == 0 then as_turn else as_quote)
    else (if q then as_byte else (if is_blank b then as_end else as_byte))

unescaped_none : (cur : Str) → unescaped 0 cur ≡ cur
unescaped_none cur = ap (λ k. take k cur) (all (length cur)) ∙ take_all cur
  where
    all : (k : ℕ) → k - 0 ≡ k
    all k = omega arith

    take_all : (s : Str) → take (length s) s ≡ s
    take_all [] = refl
    take_all (b ∷ s) = ap (λ t. b ∷ t) (take_all s)

read_args-quote :
    (begun : Bool) (cur l : Str)
    → (read_args false begun 0 cur (quote ∷ l) ≡ read_args true true 0 cur l)
      × (read_args true begun 0 cur (quote ∷ l) ≡ read_args false true 0 cur l)
unfolding read_args
read_args-quote begun cur l = (
  ap (λ c. read_args true true 0 c l) (unescaped_none cur),
  ap (λ c. read_args false true 0 c l) (unescaped_none cur),
)

read_args-space :
    (n : ℕ) (cur l : Str)
    → read_args false true n cur (space ∷ l) ≡ cur ∷ read_args false false 0 [] l
unfolding read_args
read_args-space n cur l = refl

-- A text without quotes, and without spaces if it is not quoted, is read as it is.
contains-cons :
    (c b : ℕ) (w : Str) → contains c (b ∷ w) ≡ false → ((b == c) ≡ false) × (contains c w ≡ false)
contains-cons c b w h = go (b == c) h
  where
    go : (t : Bool) → (t || contains c w) ≡ false → (t ≡ false) × (contains c w ≡ false)
    go true h = absurd (cc)
    go false h = (refl, h)

append-cons : (cur : Str) (b : ℕ) (w : Str) → (cur ++ (b ∷ [])) ++ w ≡ cur ++ (b ∷ w)
append-cons cur b w = append_assoc cur (b ∷ []) w

read_args-quoted :
    (n : ℕ) (w cur l : Str)
    → contains quote w ≡ false
    → read_args true true n cur (w ++ l) ≡ read_args true true (trailing n w) (cur ++ w) l
unfolding read_args
read_args-quoted n [] cur l h = ap (λ c. read_args true true n c l) (sym (append-nil cur))
read_args-quoted n (b ∷ w) cur l h =
    let (no_quote, hs) = contains-cons quote b w h in
    rw no_quote (
      read_args-quoted (one_more n b) w (cur ++ (b ∷ [])) l hs
      ∙ ap (λ c. read_args true true (trailing (one_more n b) w) c l) (append-cons cur b w))

-- Neither blanks nor tabs
abbrev pub IsUnbroken : Str → Type 0
IsUnbroken w = All (λ b. is_blank b ≡ false) w

read_args-plain :
    (begun : Bool) (n : ℕ) (b : ℕ) (w cur l : Str)
    → contains quote (b ∷ w) ≡ false
    → IsUnbroken (b ∷ w)
    → read_args false begun n cur ((b ∷ w) ++ l)
      ≡ read_args false true (trailing n (b ∷ w)) (cur ++ (b ∷ w)) l
unfolding read_args
read_args-plain begun n b [] cur l h (k, ks) =
    let (no_quote, hs) = contains-cons quote b [] h in rw (no_quote, k) refl
read_args-plain begun n b (c ∷ w) cur l h (k, ks) =
    let (no_quote, hs) = contains-cons quote b (c ∷ w) h in
    rw (no_quote, k)
      (read_args-plain true (one_more n b) c w (cur ++ (b ∷ [])) l hs ks
        ∙ ap (λ t. read_args false true (trailing (one_more n b) (c ∷ w)) t l)
            (append-cons cur b (c ∷ w)))

-- What is read back: text without quotes that, if it is quoted, has no backslash at its end, and otherwise
-- has neither blanks nor tabs
abbrev pub IsReadable : Bool → Str → Type 0
IsReadable true w = (contains quote w ≡ false) × (trailing 0 w ≡ 0)
IsReadable false w = (contains quote w ≡ false) × IsUnbroken w × (w ≢ [])

read_args-argument :
    (w l : Str) (b : Bool)
    → IsReadable b w
    → (n : ℕ) × (read_args false false 0 [] (quoted b w ++ l) ≡ read_args false true n w l)
read_args-argument w l true (h, k) =
    let shape : quoted true w ++ l ≡ quote ∷ (w ++ (quote ∷ l)) =
      ap (λ x. quote ∷ x) (append_assoc w (quote ∷ []) l) in
    (
      0,
      ap (read_args false false 0 []) shape
          ∙ (read_args-quote false [] (w ++ (quote ∷ l))).0
          ∙ read_args-quoted 0 w [] (quote ∷ l) h
          ∙ ap (λ n. read_args true true n w (quote ∷ l)) k
          ∙ (read_args-quote true w l).1,
    )
read_args-argument [] l false (h, k, n) = absurd (n refl)
read_args-argument (b ∷ w) l false (h, k, n) =
    (trailing 0 (b ∷ w), read_args-plain false 0 b w [] l h k)

-- The arguments with a space between them
abbrev pub line : (Str → Str) → List Str → Str
line wide [] = []
line wide (a ∷ []) = quoted (contains space a) (wide a)
line wide (a ∷ b ∷ args) = quoted (contains space a) (wide a) ++ (space ∷ line wide (b ∷ args))

-- The conversion keeps quotes and spaces, and its measure is right.
abbrev pub Converts : WideLib → (Str → Str) → Str → Type 0
Converts lib wide a =
    (lib.measure a ≡ some (length (wide a) + 1))
    × ((n : ℕ) → length (wide a) + 1 ≤ n → lib.convert n a ≡ some (wide a))
    × (contains quote (wide a) ≡ contains quote a)
    × (contains space (wide a) ≡ contains space a)

abbrev pub Unquoted : Str → Type 0
Unquoted a = contains quote a ≡ false

module _ (lib : WideLib) (wide : Str → Str) where
  pub read_args-line :
      (a : Str) (args : List Str)
      → All (λ x. IsReadable (contains space x) (wide x)) (a ∷ args)
      → read_args false false 0 [] (line wide (a ∷ args)) ≡ map wide (a ∷ args)
  unfolding read_args
  read_args-line a [] (r, rs) =
      ap (read_args false false 0 []) (sym (append-nil (quoted (contains space a) (wide a))))
      ∙ (read_args-argument (wide a) [] (contains space a) r).1
  read_args-line a (b ∷ args) (r, rs) =
      let (n, e) =
        read_args-argument (wide a) (space ∷ line wide (b ∷ args)) (contains space a) r in
      e
      ∙ read_args-space n (wide a) (line wide (b ∷ args))
      ∙ ap (λ l. wide a ∷ l) (read_args-line b args rs)
