-- ===== src/Retry.antt =====
-- Calls that a signal may interrupt, as FFOS/semaphore.h and FFOS/process.h repeat them.
use ffos.Base.{
  ℕ, zero, suc, ◌≡◌, refl, ◌<◌, Bool, true, false, ◌&&◌, not, Option, none, some, ◌==◌,
  if◌then◌else◌, arith,
}

abbrev pub eintr : ℕ
eintr = 4

module _ {E : Type 0} (last_error : E → ℕ) where
  -- `do ... while (r != 0 && errno == EINTR)`; `none` if the model's fuel is used up.
  unfoldable pub retry : (E → Bool × E) → ℕ → E → Option (Bool × E)
  retry call zero e = none
  retry call (suc fuel) e =
      let (ok, e') = call e in
      let rest = retry call fuel e' in
      if not ok && (last_error e' == eintr) then rest else some (ok, e')

  -- A call has failed because of a signal.
  abbrev pub is_interrupted : Bool × E → Bool
  is_interrupted (ok, e) = not ok && (last_error e == eintr)

  -- The first `n` calls are interrupted and the next one is not.
  abbrev pub Interrupted : (E → Bool × E) → ℕ → E → Type 0
  Interrupted call zero e = is_interrupted (call e) ≡ false
  Interrupted call (suc n) e = (is_interrupted (call e) ≡ true) × Interrupted call n (call e).1

  -- What the call behind `n` interrupted ones answers.
  abbrev pub answer_after : (E → Bool × E) → ℕ → E → Bool × E
  answer_after call zero e = call e
  answer_after call (suc n) e = answer_after call n (call e).1

  pub retry-Interrupted :
      (call : E → Bool × E) (n fuel : ℕ) (e : E)
      → n < fuel
      → Interrupted call n e
      → (retry call fuel e ≡ some (answer_after call n e))
        × (is_interrupted (answer_after call n e) ≡ false)
  unfolding retry
  retry-Interrupted call n zero e h i = absurd (omega arith)
  retry-Interrupted call zero (suc fuel) e h i = (rw i refl, i)
  retry-Interrupted call (suc n) (suc fuel) e h (i, is) =
      let (rest, final) = retry-Interrupted call n fuel (call e).1 (omega arith) is in
      (rw i rest, final)
