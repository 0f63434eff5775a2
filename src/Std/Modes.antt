-- ===== src/Std/Modes.antt =====
-- What `ffstd_attr` of FFOS/std.h changes in the mode of a terminal.
use ffos.Base.{
  ℕ, ◌/◌, ◌%◌, ◌≡◌, refl, Bool, true, false, some, ◌==◌, if◌then◌else◌, arith, ◌&&◌, ◌∙◌, ap, sym,
  subst, Bool-cases, inl, inr,
}
use ffos.Std.{attr_echo, attr_line_input, attr_vterm, has_bit, put_bit}
use ffos.Std.Unix.{TermSys}
use ffos.Std.Console.{ConsoleSys, changed}
use ffos.Std.Unix
use ffos.Std.Console

-- The value of a bit of the mode after a call: what `val` says if `a` asks for it, or what it was
abbrev pub wanted : ℕ → ℕ → ℕ → Bool → Bool
wanted a val flag old = if has_bit a flag then has_bit val flag else old

-- Two modes agree in the bits other than 2, 4 and 8.
abbrev pub Agree : ℕ → ℕ → Type 0
Agree w w' = (w' % 2 ≡ w % 2) × (w' / 16 ≡ w / 16)

Agree-trans : (a b c : ℕ) → Agree a b → Agree b c → Agree a c
Agree-trans a b c (p, q) (p', q') = (p' ∙ p, q' ∙ q)

put_bit-2 :
    (on : Bool) (w : ℕ)
    → (has_bit (put_bit on w 2) 2 ≡ on)
      × (has_bit (put_bit on w 2) 4 ≡ has_bit w 4)
      × (has_bit (put_bit on w 2) 8 ≡ has_bit w 8)
      × Agree w (put_bit on w 2)
put_bit-2 true w = (ground arith, ground arith, ground arith, (ground arith, ground arith))
put_bit-2 false w = (ground arith, ground arith, ground arith, (ground arith, ground arith))

put_bit-4 :
    (on : Bool) (w : ℕ)
    → (has_bit (put_bit on w 4) 4 ≡ on)
      × (has_bit (put_bit on w 4) 2 ≡ has_bit w 2)
      × (has_bit (put_bit on w 4) 8 ≡ has_bit w 8)
      × Agree w (put_bit on w 4)
put_bit-4 true w = (ground arith, ground arith, ground arith, (ground arith, ground arith))
put_bit-4 false w = (ground arith, ground arith, ground arith, (ground arith, ground arith))

put_bit-8 :
    (on : Bool) (w : ℕ)
    → (has_bit (put_bit on w 8) 8 ≡ on)
      × (has_bit (put_bit on w 8) 2 ≡ has_bit w 2)
      × (has_bit (put_bit on w 8) 4 ≡ has_bit w 4)
      × Agree w (put_bit on w 8)
put_bit-8 true w = (ground arith, ground arith, ground arith, (ground arith, ground arith))
put_bit-8 false w = (ground arith, ground arith, ground arith, (ground arith, ground arith))

changed-2 :
    (a val flag w : ℕ)
    → let w' = changed a val flag 2 w in
      (has_bit w' 2 ≡ wanted a val flag (has_bit w 2))
      × (has_bit w' 4 ≡ has_bit w 4)
      × (has_bit w' 8 ≡ has_bit w 8)
      × Agree w w'
changed-2 a val flag w = elim (Bool-cases (has_bit a flag)) [
  | inl y ↦ rw (changed, wanted, y) (put_bit-2 (has_bit val flag) w)
  | inr n ↦ rw (changed, wanted, n) (refl, refl, refl, (refl, refl))
]

changed-4 :
    (a val flag w : ℕ)
    → let w' = changed a val flag 4 w in
      (has_bit w' 4 ≡ wanted a val flag (has_bit w 4))
      × (has_bit w' 2 ≡ has_bit w 2)
      × (has_bit w' 8 ≡ has_bit w 8)
      × Agree w w'
changed-4 a val flag w = elim (Bool-cases (has_bit a flag)) [
  | inl y ↦ rw (changed, wanted, y) (put_bit-4 (has_bit val flag) w)
  | inr n ↦ rw (changed, wanted, n) (refl, refl, refl, (refl, refl))
]

changed-8 :
    (a val flag w : ℕ)
    → let w' = changed a val flag 8 w in
      (has_bit w' 8 ≡ wanted a val flag (has_bit w 8))
      × (has_bit w' 2 ≡ has_bit w 2)
      × (has_bit w' 4 ≡ has_bit w 4)
      × Agree w w'
changed-8 a val flag w = elim (Bool-cases (has_bit a flag)) [
  | inl y ↦ rw (changed, wanted, y) (put_bit-8 (has_bit val flag) w)
  | inr n ↦ rw (changed, wanted, n) (refl, refl, refl, (refl, refl))
]

module _ {E : Type 0} (sys : TermSys E) where
  -- The local flags are changed as by two single changes.
  put_echo_lem :
      (a val l vtime vmin : ℕ)
      → Unix.put_echo a val (l, vtime, vmin) ≡ (changed a val attr_echo 8 l, vtime, vmin)
  put_echo_lem a val l vtime vmin = elim (Bool-cases (has_bit a attr_echo)) [
    | inl y ↦ rw (changed, y) refl
    | inr n ↦ rw (changed, n) refl
  ]

  put_line_input_lem :
      (a val l vtime vmin : ℕ)
      → (Unix.put_line_input a val (l, vtime, vmin)).0 ≡ changed a val attr_line_input 2 l
  put_line_input_lem a val l vtime vmin = elim (Bool-cases (has_bit a attr_line_input)) [
    | inl y ↦ elim (Bool-cases (has_bit val attr_line_input)) [
      | inl v ↦ rw (changed, y, v) refl
      | inr v ↦ rw (changed, y, v) refl
    ]
    | inr n ↦ rw (changed, n) refl
  ]

  -- On UNIX a call that is not the question for a terminal changes of the terminal's flags ECHO and
  -- ICANON those that it is asked to change, to the values asked for, and no other flag.
  pub attr-wanted :
      (a val l vtime vmin : ℕ) (e : E)
      → (a == attr_vterm) ≡ false
      → sys.get_attr e ≡ some (l, vtime, vmin)
      → (t : ℕ × ℕ × ℕ) × (Unix.attr sys a val e ≡ (true, sys.set_attr t e))
        × (has_bit t.0 8 ≡ wanted a val attr_echo (has_bit l 8))
        × (has_bit t.0 2 ≡ wanted a val attr_line_input (has_bit l 2))
        × (has_bit t.0 4 ≡ has_bit l 4)
        × Agree l t.0
  unfolding Unix.attr
  attr-wanted a val l vtime vmin e plain got =
      let m = changed a val attr_echo 8 l in
      let t = Unix.put_line_input a val (Unix.put_echo a val (l, vtime, vmin)) in
      let flags : t.0 ≡ changed a val attr_line_input 2 m =
        ap (λ x. (Unix.put_line_input a val x).0) (put_echo_lem a val l vtime vmin)
        ∙ put_line_input_lem a val m vtime vmin in
      let (echo, line1, other1, agree1) = changed-8 a val attr_echo l in
      let (line, other, same8, agree) = changed-2 a val attr_line_input m in
      let ask : wanted a val attr_line_input (has_bit m 2)
          ≡ wanted a val attr_line_input (has_bit l 2) =
        ap (wanted a val attr_line_input) line1 in
      (
        t,
        rw (plain, got) refl,
        ap (λ x. has_bit x 8) flags ∙ same8 ∙ echo,
        ap (λ x. has_bit x 2) flags ∙ line ∙ ask,
        ap (λ x. has_bit x 4) flags ∙ other ∙ other1,
        subst (Agree l) (sym flags)
            (Agree-trans l m (changed a val attr_line_input 2 m) agree1 agree),
      )

module _ {E : Type 0} (sys : ConsoleSys E) where
  -- On Windows likewise, of ENABLE_ECHO_INPUT (4) and ENABLE_LINE_INPUT (2), if the call does not
  -- also turn the terminal sequences on.
  pub attr-wanted_win :
      (a val mode : ℕ) (e : E)
      → (has_bit a attr_vterm && has_bit val attr_vterm) ≡ false
      → sys.get_mode e ≡ some mode
      → (m : ℕ) × (Console.attr sys a val e ≡ sys.set_mode m e)
        × (has_bit m 4 ≡ wanted a val attr_echo (has_bit mode 4))
        × (has_bit m 2 ≡ wanted a val attr_line_input (has_bit mode 2))
        × (has_bit m 8 ≡ has_bit mode 8)
        × Agree mode m
  unfolding Console.attr
  attr-wanted_win a val mode e plain got =
      let m = changed a val attr_echo 4 mode in
      let quiet : Console.put_vterm a val mode ≡ mode = rw (Console.put_vterm, plain) refl in
      let (echo, line1, other1, agree1) = changed-4 a val attr_echo mode in
      let (line, same4, other, agree) = changed-2 a val attr_line_input m in
      (
        changed a val attr_line_input 2 m,
        ap (Console.change_mode sys a val e) got
            ∙ ap
                (λ x.
                  sys.set_mode (changed a val attr_line_input 2 (changed a val attr_echo 4 x)) e)
                quiet,
        same4 ∙ echo,
        line ∙ ap (wanted a val attr_line_input) line1,
        other ∙ other1,
        Agree-trans mode m (changed a val attr_line_input 2 m) agree1 agree,
      )
