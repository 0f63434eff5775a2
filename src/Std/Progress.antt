-- ===== src/Std/Progress.antt =====
-- What `ffstd_keyparse` of FFOS/std.h on UNIX reads of its input and takes off it.
use Prim.Native.Nat.{bit_or}
use ffos.Base.{
  ℕ, ◌+◌, ◌-◌, ◌≡◌, ◌<◌, ◌≤◌, ◌⊎◌, inl, inr, refl, Bool, true, false, Option, none, some, [], ◌∷◌,
  length, drop, get_elem?, ◌==◌, ◌&&◌, leb, arith, Option-cases, if_both,
}
use ffos.Base.Int.{sub32}
use ffos.Ffbase.{Str}
use ffos.Std.{key_up, minus_one, char_word}
use ffos.Std.Unix

-- An answer within the input that leaves it alone or takes bytes off its front
abbrev pub Progress : Str → Option (ℕ × Str) → Type 0
Progress d o =
    (r : ℕ × Str) × (o ≡ some r)
    × ((r ≡ (minus_one, d)) ⊎ ((n : ℕ) × (0 < n) × (n ≤ length d) × (r.1 ≡ drop n d)))

module _ (d : Str) where
  branch-both :
      (t : Bool) (o : Option Bool) (x y : Option (ℕ × Str))
      → Progress d (Unix.branch o x y)
      → Progress d y
      → Progress d (Unix.branch (Unix.both (some t) o) x y)
  branch-both true o x y px py = px
  branch-both false o x y px py = py

  branch-some :
      (t : Bool) (x y : Option (ℕ × Str))
      → Progress d x
      → Progress d y
      → Progress d (Unix.branch (some t) x y)
  branch-some true x y px py = px
  branch-some false x y px py = py

  refused-Progress : Progress d (Unix.refused d)
  refused-Progress = ((minus_one, d), refl, inl refl)

  arrow_key-Progress : (r i c : ℕ) → i < length d → Progress d (Unix.arrow_key r i d c)
  arrow_key-Progress r i c h =
      let key = bit_or r (key_up + c - 65) in
      if_both (Progress d) (leb 65 c && leb c 68) (some (key, drop (i + 1) d)) (Unix.refused d)
        (λ y. ((key, drop (i + 1) d), refl, inr (i + 1, omega arith, omega (arith, h), refl)))
        (λ n. refused-Progress)

  first-Progress : (c : ℕ) → 0 < length d → Progress d (some (char_word c, drop 1 d))
  first-Progress c h = ((char_word c, drop 1 d), refl, inr (1, omega arith, omega (arith, h), refl))

modified_key-Progress :
    (a b c e f g : ℕ) (d : Str) (m : ℕ)
    → Progress (a ∷ b ∷ c ∷ e ∷ f ∷ g ∷ d) (Unix.modified_key (a ∷ b ∷ c ∷ e ∷ f ∷ g ∷ d) m)
modified_key-Progress a b c e f g d m =
    let whole : Str = a ∷ b ∷ c ∷ e ∷ f ∷ g ∷ d in
    elim (Option-cases (get_elem? Unix.key_esc1 (sub32 m 50))) [
      | inl n ↦ rw (Unix.modified_key, n) (refused-Progress whole)
      | inr (r, y) ↦ rw (Unix.modified_key, y) (arrow_key-Progress whole r 5 g (omega arith))
    ]

-- ffstd_keyparse reads no byte outside its input, and its answer is an error that leaves the input
-- as it is, or it takes at least one byte off the front, so that a caller's loop over the input ends.
pub keyparse-Progress : (d : Str) → Progress d (Unix.keyparse d)
unfolding Unix.keyparse
keyparse-Progress [] = refused-Progress []
keyparse-Progress (a ∷ []) =
    let d : Str = a ∷ [] in
    let one = first-Progress d a (omega arith) in
    branch-both d (a == 27) (some false) (Unix.escape_key d) (some (char_word a, [])) one one
keyparse-Progress (a ∷ b ∷ []) =
    let d : Str = a ∷ b ∷ [] in
    let one = first-Progress d a (omega arith) in
    branch-both d (a == 27) (some false) (Unix.escape_key d) (some (char_word a, b ∷ [])) one one
keyparse-Progress (a ∷ b ∷ c ∷ []) =
    let d : Str = a ∷ b ∷ c ∷ [] in
    let one = first-Progress d a (omega arith) in
    let plain = arrow_key-Progress d 0 2 c (omega arith) in
    let escape = branch-both d (c == 49) (some false) none (Unix.arrow_key 0 2 d c) plain plain in
    branch-both d (a == 27) (some (b == 91)) (Unix.escape_key d) (some (char_word a, b ∷ c ∷ []))
      (branch-some d (b == 91) (Unix.escape_key d) (some (char_word a, b ∷ c ∷ [])) escape one) one
keyparse-Progress (a ∷ b ∷ c ∷ e ∷ []) =
    let d : Str = a ∷ b ∷ c ∷ e ∷ [] in
    let one = first-Progress d a (omega arith) in
    let plain = arrow_key-Progress d 0 2 c (omega arith) in
    let escape = branch-both d (c == 49) (some false) none (Unix.arrow_key 0 2 d c) plain plain in
    branch-both d (a == 27) (some (b == 91)) (Unix.escape_key d)
      (some (char_word a, b ∷ c ∷ e ∷ []))
      (branch-some d (b == 91) (Unix.escape_key d) (some (char_word a, b ∷ c ∷ e ∷ [])) escape one)
      one
keyparse-Progress (a ∷ b ∷ c ∷ e ∷ f ∷ []) =
    let d : Str = a ∷ b ∷ c ∷ e ∷ f ∷ [] in
    let one = first-Progress d a (omega arith) in
    let plain = arrow_key-Progress d 0 2 c (omega arith) in
    let escape =
      branch-both d (c == 49) (some false) (Unix.modified_key d f) (Unix.arrow_key 0 2 d c) plain
        plain in
    branch-both d (a == 27) (some (b == 91)) (Unix.escape_key d)
      (some (char_word a, b ∷ c ∷ e ∷ f ∷ []))
      (branch-some d (b == 91) (Unix.escape_key d) (some (char_word a, b ∷ c ∷ e ∷ f ∷ [])) escape
        one)
      one
keyparse-Progress (a ∷ b ∷ c ∷ e ∷ f ∷ g ∷ t) =
    let d : Str = a ∷ b ∷ c ∷ e ∷ f ∷ g ∷ t in
    let one = first-Progress d a (omega arith) in
    let plain = arrow_key-Progress d 0 2 c (omega arith) in
    let escape =
      branch-both d (c == 49) (some (e == 59)) (Unix.modified_key d f) (Unix.arrow_key 0 2 d c)
        (branch-some d (e == 59) (Unix.modified_key d f) (Unix.arrow_key 0 2 d c)
          (modified_key-Progress a b c e f g t f) plain)
        plain in
    branch-both d (a == 27) (some (b == 91)) (Unix.escape_key d)
      (some (char_word a, b ∷ c ∷ e ∷ f ∷ g ∷ t))
      (branch-some d (b == 91) (Unix.escape_key d) (some (char_word a, b ∷ c ∷ e ∷ f ∷ g ∷ t))
        escape one)
      one
