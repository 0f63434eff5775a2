-- ===== src/Std/Events.antt =====
-- The reader of console events, `ffstd_keyread` of FFOS/std.h on Windows, as a queue of records.
use ffos.Base.{
  ℕ, zero, suc, ◌+◌, ◌-◌, ◌≡◌, ◌≤◌, ◌<◌, ◌⊎◌, inl, inr, refl, sym, subst, subst, ap, ◌∙◌, true,
  false, Option, none, some, List, [], ◌∷◌, length, get_elem?, drop, min, ◌==◌, arith, Option-cases,
}
use ffos.Std.Console.{
  KeyEvent, InputRecord, EvState, StdEv, KeyRead, ConsoleSys, key_of, keyread, round, step_filled,
}

-- The records that a reader holds and has not looked at
abbrev held : EvState → List InputRecord → ℕ → List InputRecord
held EvState.empty l i = []
held EvState.filled l i = drop i l

abbrev pub pending : StdEv → List InputRecord
pending ev = held ev.state ev.records ev.irec

-- The first pressed key and the records behind it
abbrev pub next_pressed : List InputRecord → Option (KeyEvent × List InputRecord)
next_pressed [] = none
next_pressed (r ∷ l) = elim (key_of (some r)) [ none ↦ next_pressed l | some k ↦ some (k, l) ]

abbrev pub IsValid : StdEv → Type 0
IsValid ev = ev.irec ≤ length ev.records

drop-get :
    {A : Type 0} (xs : List A) (i : ℕ)
    → i ≤ length xs
    → ((i ≡ length xs) × (drop i xs ≡ []))
      ⊎ ((x : A) × (i < length xs) × (get_elem? xs i ≡ some x) × (drop i xs ≡ x ∷ drop (suc i) xs))
drop-get [] zero h = inl (refl, refl)
drop-get [] (suc i) h = absurd (omega arith)
drop-get (x ∷ xs) zero h = inr (x, omega arith, refl, refl)
drop-get (x ∷ xs) (suc i) h = elim (drop-get xs i (omega arith)) [
  | inl (e, d) ↦ inl (ap suc e, d)
  | inr (y, l, g, d) ↦ inr (y, omega arith, g, d)
]

-- So many rounds more
abbrev pub more : ℕ → ℕ → ℕ
more zero fuel = fuel
more (suc n) fuel = suc (more n fuel)

next_pressed-skip :
    (r : InputRecord) (l : List InputRecord)
    → key_of (some r) ≡ none
    → next_pressed (r ∷ l) ≡ next_pressed l
next_pressed-skip r l y = rw (next_pressed, y) refl

next_pressed-key :
    (r : InputRecord) (l : List InputRecord) (k : KeyEvent)
    → key_of (some r) ≡ some k
    → next_pressed (r ∷ l) ≡ some (k, l)
next_pressed-key r l k y = rw (next_pressed, y) refl

module _ {E : Type 0} (sys : ConsoleSys E) where
  -- What a call answers for the held records: their first pressed key, or else as if it held none
  abbrev pub Answers :
      Option (KeyEvent × List InputRecord) → ℕ → E → Option (KeyRead × StdEv × E) → Type 0
  Answers (some (k, l)) fuel e r =
      (ev' : StdEv) × (r ≡ some (KeyRead.pressed k, ev', e)) × (pending ev' ≡ l) × IsValid ev'
  Answers none fuel e r =
      (ev' : StdEv) × (ev'.state ≡ EvState.empty) × IsValid ev' × (r ≡ keyread sys fuel ev' e)

  abbrev filled_at : List InputRecord → ℕ → StdEv
  filled_at recs i = record { state = EvState.filled; records = recs; irec = i }

  -- One round at the end of the records, and at a record
  keyread-end :
      (recs : List InputRecord) (i fuel : ℕ) (e : E)
      → i ≡ length recs
      → keyread sys (suc fuel) (filled_at recs i) e
        ≡ keyread sys fuel (record { state = EvState.empty; records = recs; irec = i }) e
  unfolding keyread round
  keyread-end recs i fuel e h = let t : (i == length recs) ≡ true = ground arith in rw t refl

  keyread-skip :
      (recs : List InputRecord) (i : ℕ) (r : InputRecord) (fuel : ℕ) (e : E)
      → i < length recs
      → get_elem? recs i ≡ some r
      → key_of (some r) ≡ none
      → keyread sys (suc fuel) (filled_at recs i) e ≡ keyread sys fuel (filled_at recs (suc i)) e
  unfolding keyread round
  keyread-skip recs i r fuel e h g y =
      let t : (i == length recs) ≡ false = ground arith in rw (step_filled, t, g, y) refl

  keyread-key :
      (recs : List InputRecord) (i : ℕ) (r : InputRecord) (k : KeyEvent) (fuel : ℕ) (e : E)
      → i < length recs
      → get_elem? recs i ≡ some r
      → key_of (some r) ≡ some k
      → keyread sys (suc fuel) (filled_at recs i) e
        ≡ some (KeyRead.pressed k, filled_at recs (suc i), e)
  unfolding keyread round
  keyread-key recs i r k fuel e h g y =
      let t : (i == length recs) ≡ false = ground arith in rw (step_filled, t, g, y) refl

  Answers-subst :
      {o o' : Option (KeyEvent × List InputRecord)} {r r' : Option (KeyRead × StdEv × E)} (fuel : ℕ)
      (e : E)
      → o ≡ o'
      → r ≡ r'
      → Answers o' fuel e r'
      → Answers o fuel e r
  Answers-subst {o' = o'} {r = r} fuel e p q a =
      subst (λ x. Answers x fuel e r) (sym p) (subst (λ x. Answers o' fuel e x) (sym q) a)

  keyread-filled :
      (recs : List InputRecord) (i fuel n : ℕ) (e : E)
      → i + n ≡ length recs
      → Answers
          (next_pressed (drop i recs))
          fuel
          e
          (keyread sys (more (suc n) fuel) (filled_at recs i) e)
  keyread-filled recs i fuel zero e h = elim (drop-get recs i (omega arith)) [
    | inl (x, d) ↦
        Answers-subst fuel e (ap next_pressed d) (keyread-end recs i fuel e x)
          (record { state = EvState.empty; records = recs; irec = i }, refl, omega arith, refl)
    | inr (r, l, g, d) ↦ absurd (omega arith)
  ]
  keyread-filled recs i fuel (suc n) e h = elim (drop-get recs i (omega arith)) [
    | inl (x, d) ↦ absurd (omega arith)
    | inr (r, l, g, d) ↦ elim (Option-cases (key_of (some r))) [
      | inl y ↦
          Answers-subst fuel e (ap next_pressed d ∙ next_pressed-skip r (drop (suc i) recs) y)
            (keyread-skip recs i r (more (suc n) fuel) e l g y)
            (keyread-filled recs (suc i) fuel n e (omega arith))
      | inr (k, y) ↦
          Answers-subst fuel e (ap next_pressed d ∙ next_pressed-key r (drop (suc i) recs) k y)
            (keyread-key recs i r k (more (suc n) fuel) e l g y)
            (filled_at recs (suc i), refl, refl, omega arith)
    ]
  ]

  keyread-held :
      (s : EvState) (recs : List InputRecord) (i fuel : ℕ) (e : E)
      → i ≤ length recs
      → (n : ℕ) × Answers
          (next_pressed (held s recs i))
          fuel
          e
          (keyread sys (more n fuel) (record { state = s; records = recs; irec = i }) e)
  keyread-held EvState.empty recs i fuel e v =
      (0, (record { state = EvState.empty; records = recs; irec = i }, refl, v, refl))
  keyread-held EvState.filled recs i fuel e v =
      let n = length recs - i in (suc n, keyread-filled recs i fuel n e (omega (arith, v)))

  -- A valid reader is a queue of the records it holds. If there is a pressed key among them, a call
  -- returns the first one, without asking the console, and holds the records behind it afterwards;
  -- if there is none, after some rounds the call goes on as one of a reader that holds none.
  pub keyread-pending :
      (ev : StdEv) (fuel : ℕ) (e : E)
      → IsValid ev
      → (n : ℕ) × Answers (next_pressed (pending ev)) fuel e (keyread sys (more n fuel) ev e)
  keyread-pending ev fuel e v = keyread-held ev.state ev.records ev.irec fuel e v

  keyread-fills :
      (ev : StdEv) (m : ℕ) (r : InputRecord) (l : List InputRecord) (fuel : ℕ) (e e1 e2 : E)
      → ev.state ≡ EvState.empty
      → sys.count_events e ≡ (some (suc m), e1)
      → sys.read_input (min (suc m) 8) e1 ≡ (some (r ∷ l), e2)
      → keyread sys (suc fuel) ev e ≡ keyread sys (suc fuel) (filled_at (r ∷ l) 0) e2
  unfolding keyread round
  keyread-fills ev m r l fuel e e1 e2 s counted input = rw (s, counted, input) refl

  -- Whatever the reader holds, if there is no pressed key in it and the console then has records among
  -- which there is one, the call returns the first pressed key of the console after some rounds.
  pub keyread-loads :
      (ev : StdEv) (m : ℕ) (r : InputRecord) (l rest : List InputRecord) (k : KeyEvent)
      (e e1 e2 : E)
      → IsValid ev
      → next_pressed (pending ev) ≡ none
      → sys.count_events e ≡ (some (suc m), e1)
      → sys.read_input (min (suc m) 8) e1 ≡ (some (r ∷ l), e2)
      → next_pressed (r ∷ l) ≡ some (k, rest)
      → (n : ℕ) × (ev' : StdEv) × (keyread sys n ev e ≡ some (KeyRead.pressed k, ev', e2))
        × (pending ev' ≡ rest)
  keyread-loads ev m r l rest k e e1 e2 v quiet counted input found =
      let recs : List InputRecord = r ∷ l in
      let fuel = more (length recs) 0 in
      let (n, before) = keyread-pending ev (suc fuel) e v in
      let (ev', s, _, goes) : Answers none (suc fuel) e (keyread sys (more n (suc fuel)) ev e) =
        subst (λ o. Answers o (suc fuel) e (keyread sys (more n (suc fuel)) ev e)) quiet before in
      let (ev'', done, left, _) : Answers (some (k, rest)) 0 e2
          (keyread sys (suc fuel) (filled_at recs 0) e2) =
        subst (λ o. Answers o 0 e2 (keyread sys (suc fuel) (filled_at recs 0) e2)) found
          (keyread-filled recs 0 0 (length recs) e2 (omega arith)) in
      (
        more n (suc fuel),
        ev'',
        goes ∙ keyread-fills ev' m r l fuel e e1 e2 s counted input ∙ done,
        left,
      )
