-- ===== src/Process/Made.antt =====
-- The command line that `_ffargv_to_cmdln` of FFOS/process.h makes, and the room for it.
use ffos.Base.{
  ℕ, ◌+◌, ◌-◌, ◌≡◌, ◌≤◌, refl, sym, ap, subst, ◌∙◌, Bool, true, false, some, List, [], ◌∷◌, ◌++◌,
  map, length, ◌==◌, All, arith, append_assoc, length-append,
}
use ffos.Ffbase.{Str}
use ffos.Process.CmdLine.{
  quote, space, contains, WideLib, CmdLine, capacity, opened, closed, add_arg, without_last, added,
  args_loop, filled, argv_to_cmdln,
}
use ffos.Process.Quote.{quoted, read_args, line, Converts, Unquoted, IsReadable, read_args-line}

module _ (lib : WideLib) (wide : Str → Str) where
  -- The room that the arguments take: their units, two quotes and a space or the last zero.
  abbrev room : List Str → ℕ
  room [] = 0
  room (a ∷ args) = length (wide a) + 4 + room args

  capacity-room :
      (args : List Str) → All (Converts lib wide) args → capacity lib args ≡ some (room args + 1)
  unfolding capacity
  capacity-room [] cs = refl
  capacity-room (a ∷ args) ((m, c, q, s), cs) =
      let some_units : (length (wide a) + 1 == 0) ≡ false = ground arith in
      rw (m, capacity-room args cs, some_units) (ap some (omega arith))

  -- What the loop appends for an argument
  opened-quoted :
      (b : Bool) (out w : Str)
      → opened lib b (opened lib b out ++ w) ++ (space ∷ []) ≡ out ++ (quoted b w ++ (space ∷ []))
  opened-quoted true out w = simp append_assoc
  opened-quoted false out w = append_assoc out w (space ∷ [])

  without_last-append : (s : Str) (b : ℕ) → without_last lib (s ++ (b ∷ [])) ≡ s
  without_last-append [] b = refl
  without_last-append (c ∷ []) b = refl
  without_last-append (c ∷ d ∷ s) b = ap (λ l. c ∷ l) (without_last-append (d ∷ s) b)

  length-opened : (b : Bool) (out : Str) → length (opened lib b out) ≤ length out + 1
  length-opened true out = omega (arith, length-append out (quote ∷ []))
  length-opened false out = omega arith

  length-quoted : (b : Bool) (w : Str) → length (quoted b w) ≤ length w + 2
  length-quoted true w = omega (arith, length-append w (quote ∷ []))
  length-quoted false w = omega arith

  add_arg_lem :
      (n : ℕ) (out a : Str)
      → Converts lib wide a
      → length out + (length (wide a) + 4) ≤ n
      → add_arg lib n out a ≡ some (out ++ (quoted (contains space a) (wide a) ++ (space ∷ [])))
  add_arg_lem n out a (m, c, q, s) h =
      let b = contains space a in
      let start = opened lib b out in
      let fits : length (wide a) + 1 ≤ n - length start = omega (arith, h, length-opened b out) in
      ap (closed lib b start) (c (n - length start) fits) ∙ ap some (opened-quoted b out (wide a))

  args_loop-line :
      (n : ℕ) (a : Str) (args : List Str) (out : Str)
      → All (Converts lib wide) (a ∷ args)
      → All Unquoted (a ∷ args)
      → length out + room (a ∷ args) ≤ n
      → args_loop lib n (a ∷ args) out ≡ CmdLine.made ((out ++ line wide (a ∷ args)) ++ (0 ∷ []))
  unfolding args_loop
  args_loop-line n a [] out (c, _) (u, _) h =
      let item = quoted (contains space a) (wide a) in
      rw u (
        ap (λ o. added lib o (args_loop lib n [])) (add_arg_lem n out a c (omega (arith, h)))
        ∙ ap (λ x. CmdLine.made (without_last lib x ++ (0 ∷ [])))
            (sym (append_assoc out item (space ∷ [])))
        ∙ ap (λ x. CmdLine.made (x ++ (0 ∷ []))) (without_last-append (out ++ item) space))
  args_loop-line n a (b ∷ args) out (c, cs) (u, us) h =
      let item = quoted (contains space a) (wide a) in
      let out' = out ++ (item ++ (space ∷ [])) in
      let shorter : length out' ≤ length out + (length (wide a) + 3) = omega (
        arith,
        length-append out (item ++ (space ∷ [])),
        length-append item (space ∷ []),
        length-quoted (contains space a) (wide a),
      ) in
      rw u (
        ap (λ o. added lib o (args_loop lib n (b ∷ args)))
          (add_arg_lem n out a c (omega (arith, h)))
        ∙ args_loop-line n b args out' cs us (omega (arith, h, shorter))
        ∙ ap (λ x. CmdLine.made (x ++ (0 ∷ [])))
            (append_assoc out (item ++ (space ∷ [])) (line wide (b ∷ args))
              ∙ ap (λ x. out ++ x) (append_assoc item (space ∷ []) (line wide (b ∷ args)))))

  length-line : (a : Str) (args : List Str) → length (line wide (a ∷ args)) + 1 ≤ room (a ∷ args)
  length-line a [] = omega (arith, length-quoted (contains space a) (wide a))
  length-line a (b ∷ args) = omega (
    arith,
    length-quoted (contains space a) (wide a),
    length-append (quoted (contains space a) (wide a)) (space ∷ line wide (b ∷ args)),
    length-line b args,
  )

  -- If the arguments are convertible and without quotes, those with a blank have no backslash at their end,
  -- the others have no tabs and are not empty, and there is memory, then _ffargv_to_cmdln makes a command
  -- line, no conversion fails for lack of room, the line with its terminating zero is within the capacity
  -- that the code computes, and a program that reads the line by the rules of Windows (quotes, blanks, tabs
  -- and backslashes in front of a quote) gets exactly the arguments.
  pub read_args-argv_to_cmdln :
      (a : Str) (args : List Str)
      → All (Converts lib wide) (a ∷ args)
      → All Unquoted (a ∷ args)
      → All (λ x. IsReadable (contains space x) (wide x)) (a ∷ args)
      → lib.has_memory (room (a ∷ args) + 2) ≡ true
      → (l : Str) × (argv_to_cmdln lib (a ∷ args) ≡ CmdLine.made (l ++ (0 ∷ [])))
        × (n : ℕ) × (capacity lib (a ∷ args) ≡ some n)
        × (length (l ++ (0 ∷ [])) ≤ n)
        × (read_args false false 0 [] l ≡ map wide (a ∷ args))
  unfolding argv_to_cmdln
  read_args-argv_to_cmdln a args cs us ns mem =
      let l = line wide (a ∷ args) in
      let n = room (a ∷ args) + 1 in
      let memory : lib.has_memory (n + 1) ≡ true =
        subst (λ k. lib.has_memory k ≡ true) (omega arith) mem in
      (
        l,
        ap (filled lib (a ∷ args)) (capacity-room (a ∷ args) cs)
            ∙ rw memory (args_loop-line n a args [] cs us (omega arith)),
        n,
        capacity-room (a ∷ args) cs,
        omega (arith, length-append l (0 ∷ []), length-line a args),
        read_args-line lib wide a args ns,
      )
