-- ===== src/Socket/Iovec.antt =====
-- Vectors of bytes of FFOS/socket.h: `ffiovec_shift` and `ffiovec_array_shift`, by which a caller goes on
-- behind a part of the data that was sent.
use ffos.Base.{
  ℕ, zero, suc, ◌-◌, ◌≡◌, refl, sym, ap, subst, ◌∙◌, Bool, true, false, List, [], ◌∷◌, ◌++◌, length,
  take, drop, min, arith, append_assoc, length-drop, take-append-drop,
}
use ffos.Ffbase.{Str}
use ffos.Socket.Vectors.{joined}

-- `ffiovec_shift`: the bytes that are left, and how many were shifted
unfoldable pub iovec_shift : Str → ℕ → Str × ℕ
iovec_shift v n = let k = min n (length v) in (drop k v, k)

abbrev pub behind_shift : Str → List Str → Bool × List Str → Bool × List Str
behind_shift [] vs (more, rest) = (more, [] ∷ rest)
behind_shift (b ∷ v) vs later = (true, (b ∷ v) ∷ vs)

-- `ffiovec_array_shift`: whether anything is left, and the vectors
unfoldable pub array_shift : List Str → ℕ → Bool × List Str
array_shift [] skip = (false, [])
array_shift (v ∷ vs) skip =
    let (left, k) = iovec_shift v skip in behind_shift left vs (array_shift vs (skip - k))

drop_none : (s : Str) (n : ℕ) → n ≡ 0 → drop n s ≡ s
drop_none s n h = ap (λ k. drop k s) h

drop_joined : (n : ℕ) (s t : Str) → drop n (s ++ t) ≡ drop n s ++ drop (n - length s) t
drop_joined zero s t = ap (λ r. s ++ r) (sym (drop_none t (0 - length s) (omega arith)))
drop_joined (suc n) [] t = ap (λ k. drop k t) (same n)
  where
    same : (n : ℕ) → suc n ≡ suc n - 0
    same n = omega arith
drop_joined (suc n) (b ∷ s) t =
    drop_joined n s t ∙ ap (λ k. drop n s ++ drop k t) (same n (length s))
  where
    same : (n k : ℕ) → n - k ≡ suc n - suc k
    same n k = omega arith

drop-min : (n : ℕ) (s : Str) → drop (min n (length s)) s ≡ drop n s
drop-min zero s = ap (λ k. drop k s) (least (length s))
  where
    least : (k : ℕ) → min 0 k ≡ 0
    least k = omega arith
drop-min (suc n) [] = ap (λ k. drop {A = ℕ} k []) (none_left n)
  where
    none_left : (n : ℕ) → min (suc n) 0 ≡ 0
    none_left n = omega arith
drop-min (suc n) (b ∷ s) = ap (λ k. drop k (b ∷ s)) (least n (length s)) ∙ drop-min n s
  where
    least : (n k : ℕ) → min (suc n) (suc k) ≡ suc (min n k)
    least n k = omega arith

abbrev pub has_bytes : Str → Bool
has_bytes [] = false
has_bytes (b ∷ s) = true

abbrev IsShifted : List Str → ℕ → Bool × List Str → Type 0
IsShifted vs skip r =
    (joined r.1 ≡ drop skip (joined vs)) × (r.0 ≡ has_bytes (joined r.1)) × (length r.1 ≡ length vs)

behind_shift-IsShifted :
    (v left : Str) (vs : List Str) (skip : ℕ) (r : Bool × List Str)
    → left ≡ drop skip v
    → IsShifted vs (skip - length v) r
    → IsShifted (v ∷ vs) skip (behind_shift left vs r)
behind_shift-IsShifted v [] vs skip (more, rest) h (j, m, l) = (
  j ∙ ap (λ s. s ++ drop (skip - length v) (joined vs)) h ∙ sym (drop_joined skip v (joined vs)),
  m,
  ap suc l,
)
behind_shift-IsShifted v (b ∷ left) vs skip (more, rest) h (j, m, l) =
    let ahead : skip - length v ≡ 0 = omega (arith, length-drop skip v, ap length (sym h)) in
    (
      ap (λ s. s ++ joined vs) h
          ∙ ap (λ t. drop skip v ++ t) (sym (drop_none (joined vs) (skip - length v) ahead))
          ∙ sym (drop_joined skip v (joined vs)),
      refl,
      refl,
    )

-- ffiovec_array_shift drops exactly the first `skip` bytes of what the vectors hold together, however these
-- are spread over vectors, empty ones and more bytes than there are included, keeps the number of
-- vectors, and says whether anything is left.
pub array_shift-drop :
    (vs : List Str) (skip : ℕ)
    → (joined (array_shift vs skip).1 ≡ drop skip (joined vs))
      × ((array_shift vs skip).0 ≡ has_bytes (joined (array_shift vs skip).1))
      × (length (array_shift vs skip).1 ≡ length vs)
unfolding array_shift iovec_shift
array_shift-drop [] zero = (refl, refl, refl)
array_shift-drop [] (suc n) = (refl, refl, refl)
array_shift-drop (v ∷ vs) skip =
    let same : skip - min skip (length v) ≡ skip - length v = omega arith in
    behind_shift-IsShifted v (iovec_shift v skip).0 vs skip
      (array_shift vs (skip - (iovec_shift v skip).1)) (drop-min skip v)
      (subst (λ k. IsShifted vs k (array_shift vs (skip - (iovec_shift v skip).1))) same
        (array_shift-drop vs (skip - (iovec_shift v skip).1)))

-- What a caller sends that goes on by ffiovec_array_shift behind each part that the system took: the
-- bytes of the parts, and the vectors that are left
abbrev pub send_parts : List ℕ → List Str → Str × List Str
send_parts [] vs = ([], vs)
send_parts (n ∷ ns) vs =
    let (sent, rest) = send_parts ns (array_shift vs n).1 in (take n (joined vs) ++ sent, rest)

-- However many bytes the system takes of each part, the bytes that were sent and those that are left
-- are together the bytes of the vectors, in their order: none is lost or sent twice.
pub send_parts-joined :
    (ns : List ℕ) (vs : List Str) → (send_parts ns vs).0 ++ joined (send_parts ns vs).1 ≡ joined vs
send_parts-joined [] vs = refl
send_parts-joined (n ∷ ns) vs =
    append_assoc (take n (joined vs)) (send_parts ns (array_shift vs n).1).0
      (joined (send_parts ns (array_shift vs n).1).1)
    ∙ ap (λ s. take n (joined vs) ++ s)
        (send_parts-joined ns (array_shift vs n).1 ∙ (array_shift-drop vs n).0)
    ∙ take-append-drop n (joined vs)
