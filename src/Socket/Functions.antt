-- ===== src/Socket/Functions.antt =====
-- The functions that `ffsock_init` of FFOS/socket.h looks up on Windows.
use ffos.Base.{
  ℕ, ◌+◌, ◌≡◌, refl, ap, ◌∙◌, Bool, true, false, Option, none, some, List, [], ◌∷◌, ◌==◌,
  if◌then◌else◌, if_both, All, arith,
}
use ffos.Queue.{held}
use ffos.Socket.Create.{
  SocketSys, create, got_func, keep_func, get_each, closing, over_socket, get_funcs,
  create-IsAccounted,
}

abbrev pub is_function : Option ℕ → Bool
is_function none = false
is_function (some f) = true

module _ {E : Type 0} (sys : SocketSys E) where
  open sys use {look_up, close, store, set_error, open_count, stored}

  abbrev IsLoaded : List ℕ → E → Bool × E → Type 0
  IsLoaded is e r =
      (open_count r.1 ≡ open_count e)
      × (r.0 ≡ true
          → ((j : ℕ) → is_function (stored e j) ≡ true → is_function (stored r.1 j) ≡ true)
            × All (λ i. is_function (stored r.1 i) ≡ true) is)

  -- A function that is there stays, and the one that is stored is there.
  stays :
      (i j f : ℕ) (e : E)
      → is_function (stored e j) ≡ true
      → is_function (stored (store i (some f) e) j) ≡ true
  stays i j f e h =
      ap is_function (sys.stored-store i j (some f) e)
      ∙ if_both (λ o. is_function o ≡ true) (i == j) (some f) (stored e j) (λ y. refl) (λ n. h)

  there : (i f : ℕ) (e : E) → is_function (stored (store i (some f) e) i) ≡ true
  there i f e =
      let same : (i == i) ≡ true = ground arith in
      ap is_function
        (sys.stored-store i i (some f) e ∙ ap (λ b. if b then some f else stored e i) same)

  keep-IsLoaded :
      (sk i : ℕ) (is : List ℕ) (e : E) (r : Option ℕ × E)
      → ((e2 : E) → IsLoaded is e2 (get_each sys sk is e2))
      → open_count r.1 ≡ open_count e
      → ((j : ℕ) → stored r.1 j ≡ stored e j)
      → IsLoaded (i ∷ is) e (keep_func sys i (get_each sys sk is) (got_func sys r))
  keep-IsLoaded sk i is e (none, e1) rec c s =
      (sys.count-store i none (set_error 127 e1) ∙ sys.count-set_error 127 e1 ∙ c, λ h. absurd (cc))
  keep-IsLoaded sk i is e (some f, e1) rec c s =
      let (c2, k) = rec (store i (some f) e1) in
      (
        c2 ∙ sys.count-store i (some f) e1 ∙ c,
        λ h.
            let (older, new) = k h in
            (
              λ j a. older j (stays i j f e1 (ap is_function (s j) ∙ a)),
              (older i (there i f e1), new),
            ),
      )

  get_each-IsLoaded : (sk : ℕ) (is : List ℕ) (e : E) → IsLoaded is e (get_each sys sk is e)
  unfolding get_each
  get_each-IsLoaded sk [] e = (refl, λ h. (λ j a. a, tt))
  get_each-IsLoaded sk (i ∷ is) e =
      keep-IsLoaded sk i is e (look_up sk i e) (λ e2. get_each-IsLoaded sk is e2)
        (sys.count-look_up sk i e) (λ j. sys.stored-look_up sk i j e)

  abbrev pub HasAll : E → Type 0
  HasAll e = All (λ i. is_function (stored e i) ≡ true) (0 ∷ 1 ∷ 2 ∷ 3 ∷ [])

  -- Whatever fails, _ff_wsa_getfuncs leaves as many sockets open as before; and if it succeeds, all four
  -- functions are there.
  pub get_funcs-HasAll :
      (e : E)
      → (open_count (get_funcs sys e).1 ≡ open_count e)
        × ((get_funcs sys e).0 ≡ true → HasAll (get_funcs sys e).1)
  unfolding get_funcs
  get_funcs-HasAll e = go (create sys 2 1 0 e) (create-IsAccounted sys 2 1 0 e).0
    where
      closed :
          (sk : ℕ) (e1 : E) (r : Bool × E)
          → IsLoaded (0 ∷ 1 ∷ 2 ∷ 3 ∷ []) e1 r
          → open_count e1 ≡ open_count e + 1
          → (open_count (closing sys sk r).1 ≡ open_count e)
            × ((closing sys sk r).0 ≡ true → HasAll (closing sys sk r).1)
      closed sk e1 (ok, e2) (c, k) h = (
        omega (arith, sys.count-close sk e2, c, h),
        λ t.
            let (older, (a, (b, (p, (q, u))))) = k t in
            (
              ap is_function (sys.stored-close sk 0 e2) ∙ a,
              (
                ap is_function (sys.stored-close sk 1 e2) ∙ b,
                (
                  ap is_function (sys.stored-close sk 2 e2) ∙ p,
                  (ap is_function (sys.stored-close sk 3 e2) ∙ q, tt),
                ),
              ),
            ),
      )

      go :
          (r : Option ℕ × E)
          → open_count r.1 ≡ open_count e + held r.0
          → (open_count (over_socket sys r).1 ≡ open_count e)
            × ((over_socket sys r).0 ≡ true → HasAll (over_socket sys r).1)
      go (none, e1) h = (omega (arith, h), λ t. absurd (cc))
      go (some sk, e1) h =
          closed sk e1 (get_each sys sk (0 ∷ 1 ∷ 2 ∷ 3 ∷ []) e1)
            (get_each-IsLoaded sk (0 ∷ 1 ∷ 2 ∷ 3 ∷ []) e1) h
