-- ===== src/Socket/Vectors.antt =====
-- What `ffsock_sendv_async` of FFOS/socket.h hands to an operation on Windows.
use ffos.Base.{ℕ, ◌≡◌, ◌≤◌, refl, List, [], ◌∷◌, ◌++◌, length, arith}
use ffos.Socket.Windows.{buf_size, first_bytes}

-- The vectors in one piece.
abbrev pub joined : List (List ℕ) → List ℕ
joined [] = []
joined (v ∷ vs) = v ++ joined vs

-- The operation sends at most as much as the task can keep, from the beginning of what the vectors
-- hold, and it sends nothing only if they are all empty.
pub first_bytes_lem :
    (vs : List (List ℕ))
    → (length (first_bytes vs) ≤ buf_size)
      × ((rest : List ℕ) × (joined vs ≡ first_bytes vs ++ rest))
      × (first_bytes vs ≡ [] → joined vs ≡ [])
unfolding first_bytes
first_bytes_lem [] = (omega arith, ([], refl), λ e. refl)
first_bytes_lem ([] ∷ vs) = first_bytes_lem vs
first_bytes_lem ((b ∷ v) ∷ vs) = (omega arith, (v ++ joined vs, refl), λ e. cc)
