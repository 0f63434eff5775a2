-- ===== src/Process/Child.antt =====
-- `ffps_exec_info` of FFOS/process.h on UNIX, in the parent and in the child. The system calls are the
-- parameter `ExecSys`, which has the open files of the child (`file_of`) and what dup2 is documented
-- to do with them.
use ffos.Base.{
  ℕ, ◌+◌, ◌≡◌, ◌≢◌, refl, sym, ap, ◌∙◌, Bool, true, false, Option, none, some, List, ◌==◌,
  if◌then◌else◌, Bool-cases, inl, inr, arith,
}
use ffos.Ffbase.{Str}

-- `ffps_execinfo`: -1 is `none`.
pub record ExecInfo : Type 0 where
  pub argv : List Str
  pub workdir : Option Str
  pub env : List Str
  pub std_in : Option ℕ
  pub std_out : Option ℕ
  pub std_err : Option ℕ

-- What vfork answers: in the parent the child's number or an error, in the child zero.
pub data Forked : Type 0 where
  parent : ℕ → Forked
  fork_failed child : Forked

-- What has become of the call: it returns in the parent; the child runs the program (with the open
-- files that it has then), or exits.
pub data Outcome (E : Type 0) : Type 0 where
  returned : Option ℕ → Outcome E
  runs : E → Outcome E
  exits : ℕ → Outcome E

pub record ExecSys (E : Type 0) : Type 0 where
  pub vfork : E → Forked
  -- sigaction of SIGPIPE with SIG_DFL
  pub reset_sigpipe : E → E
  pub dup2 : ℕ → ℕ → E → E
  -- chdir, execve: whether they succeed
  pub chdir : Str → E → Bool × E
  pub execve : Str → List Str → List Str → E → Bool × E
  pub file_of : E → ℕ → Option ℕ
  pub file_of-reset_sigpipe : (e : E) (d : ℕ) → file_of (reset_sigpipe e) d ≡ file_of e d
  pub file_of-dup2 :
      (a b d : ℕ) (e : E)
      → file_of e a ≢ none
      → file_of (dup2 a b e) d ≡ (if d == b then file_of e a else file_of e d)
  pub file_of-chdir : (s : Str) (e : E) (d : ℕ) → file_of (chdir s e).1 d ≡ file_of e d

module _ {E : Type 0} (sys : ExecSys E) where
  open sys use {reset_sigpipe, dup2, execve, file_of}

  -- `if (info->... != -1) dup2(...)`
  abbrev pub redirect : Option ℕ → ℕ → E → E
  redirect none d e = e
  redirect (some a) d e = dup2 a d e

  unfoldable pub streams : ExecInfo → E → E
  streams info e =
      redirect info.std_err 2 (redirect info.std_out 1 (redirect info.std_in 0 (reset_sigpipe e)))

  abbrev pub enter : Option Str → E → Bool × E
  enter none e = (true, e)
  enter (some d) e = sys.chdir d e

  abbrev pub start : Str → ExecInfo → Bool × E → Outcome E
  start filename info (false, e) = exits 255
  start filename info (true, e) =
      let (ok, e') = execve filename info.argv info.env e in if ok then runs e' else exits 255

  -- `ffps_exec_info`
  unfoldable pub exec_info : Str → ExecInfo → E → Outcome E
  exec_info filename info e = elim (sys.vfork e) [
    | parent p ↦ returned (some p)
    | fork_failed ↦ returned none
    | child ↦ start filename info (enter info.workdir (streams info e))
  ]

  -- `ffps_exec`
  unfoldable pub exec : Str → List Str → List Str → E → Outcome E
  exec filename argv env e =
      exec_info filename
        (record {
          argv = argv;
          workdir = none;
          env = env;
          std_in = none;
          std_out = none;
          std_err = none;
        })
        e

  -- The file that a stream of the child is asked to be: the one of the descriptor, or its own
  abbrev pub asked : Option ℕ → ℕ → E → Option ℕ
  asked none d e = file_of e d
  asked (some a) d e = file_of e a

  abbrev pub IsOpen : Option ℕ → E → Type 0
  IsOpen none e = Unit
  IsOpen (some a) e = file_of e a ≢ none

  -- A descriptor is given, or it is not the number.
  abbrev pub IsNot : Option ℕ → ℕ → Type 0
  IsNot none d = Unit
  IsNot (some a) d = a ≢ d

  redirect_lem :
      (o : Option ℕ) (b d : ℕ) (e : E)
      → IsOpen o e
      → file_of (redirect o b e) d ≡ (if d == b then asked o b e else file_of e d)
  redirect_lem none b d e h = elim (Bool-cases (d == b)) [
    | inl y ↦ let same : d ≡ b = ground (arith, y) in rw y (ap (file_of e) same)
    | inr n ↦ rw n refl
  ]
  redirect_lem (some a) b d e h = sys.file_of-dup2 a b d e h

  -- What a redirection leaves alone
  redirect_other :
      (o : Option ℕ) (b d : ℕ) (e : E)
      → IsOpen o e
      → d ≢ b
      → file_of (redirect o b e) d ≡ file_of e d
  redirect_other o b d e h n =
      let other : (d == b) ≡ false = ground arith in redirect_lem o b d e h ∙ rw other refl

  redirect_self :
      (o : Option ℕ) (b : ℕ) (e : E) → IsOpen o e → file_of (redirect o b e) b ≡ asked o b e
  redirect_self o b e h =
      let self : (b == b) ≡ true = ground arith in redirect_lem o b b e h ∙ rw self refl

  asked-redirect :
      (p o : Option ℕ) (b d : ℕ) (e : E)
      → IsOpen o e
      → IsNot p b
      → d ≢ b
      → asked p d (redirect o b e) ≡ asked p d e
  asked-redirect none o b d e h n m = redirect_other o b d e h m
  asked-redirect (some a) o b d e h n m = redirect_other o b a e h n

  IsOpen-redirect :
      (p o : Option ℕ) (b : ℕ) (e : E)
      → IsOpen o e
      → IsNot p b
      → IsOpen p e
      → IsOpen p (redirect o b e)
  IsOpen-redirect none o b e h n k = tt
  IsOpen-redirect (some a) o b e h n k = λ c. k (sym (redirect_other o b a e h n) ∙ c)

  reset_sigpipe-asked : (p : Option ℕ) (d : ℕ) (e : E) → asked p d (reset_sigpipe e) ≡ asked p d e
  reset_sigpipe-asked none d e = sys.file_of-reset_sigpipe e d
  reset_sigpipe-asked (some a) d e = sys.file_of-reset_sigpipe e a

  reset_sigpipe-IsOpen : (p : Option ℕ) (e : E) → IsOpen p e → IsOpen p (reset_sigpipe e)
  reset_sigpipe-IsOpen none e h = tt
  reset_sigpipe-IsOpen (some a) e h = λ c. h (sym (sys.file_of-reset_sigpipe e a) ∙ c)

  -- If the descriptors given are open, and the output is not given as 0 nor the error stream as 0 or
  -- 1, then the child's three standard streams are the files asked for, a stream that is not given is
  -- the parent's, and the other descriptors are as before.
  pub streams-asked :
      (info : ExecInfo) (e : E)
      → IsOpen info.std_in e
      → IsOpen info.std_out e
      → IsOpen info.std_err e
      → IsNot info.std_out 0
      → IsNot info.std_err 0
      → IsNot info.std_err 1
      → (file_of (streams info e) 0 ≡ asked info.std_in 0 e)
        × (file_of (streams info e) 1 ≡ asked info.std_out 1 e)
        × (file_of (streams info e) 2 ≡ asked info.std_err 2 e)
        × ((d : ℕ) → file_of (streams info e) (3 + d) ≡ file_of e (3 + d))
  unfolding streams
  streams-asked info e hi ho he o0 e0 e1 =
      let i = info.std_in in
      let o = info.std_out in
      let r = info.std_err in
      let a = reset_sigpipe e in
      let b = redirect i 0 a in
      let c = redirect o 1 b in
      let hia = reset_sigpipe-IsOpen i e hi in
      let hob = IsOpen-redirect o i 0 a hia o0 (reset_sigpipe-IsOpen o e ho) in
      let hrb = IsOpen-redirect r i 0 a hia e0 (reset_sigpipe-IsOpen r e he) in
      let hrc = IsOpen-redirect r o 1 b hob e1 hrb in
      (
        redirect_other r 2 0 c hrc (λ z. absurd (omega (arith, z)))
            ∙ redirect_other o 1 0 b hob (λ z. absurd (omega (arith, z)))
            ∙ redirect_self i 0 a hia
            ∙ reset_sigpipe-asked i 0 e,
        redirect_other r 2 1 c hrc (λ z. absurd (omega (arith, z)))
            ∙ redirect_self o 1 b hob
            ∙ asked-redirect o i 0 1 a hia o0 (λ z. absurd (omega (arith, z)))
            ∙ reset_sigpipe-asked o 1 e,
        redirect_self r 2 c hrc
            ∙ asked-redirect r o 1 2 b hob e1 (λ z. absurd (omega (arith, z)))
            ∙ asked-redirect r i 0 2 a hia e0 (λ z. absurd (omega (arith, z)))
            ∙ reset_sigpipe-asked r 2 e,
        λ d.
            redirect_other r 2 (3 + d) c hrc (λ z. absurd (omega (arith, z)))
            ∙ redirect_other o 1 (3 + d) b hob (λ z. absurd (omega (arith, z)))
            ∙ redirect_other i 0 (3 + d) a hia (λ z. absurd (omega (arith, z)))
            ∙ sys.file_of-reset_sigpipe e (3 + d),
      )

  -- If the output and the error stream are to change places (2 for the output, 1 for the error
  -- stream), both become the file of the error stream.
  pub streams_swapped :
      (info : ExecInfo) (e : E)
      → info.std_in ≡ none
      → info.std_out ≡ some 2
      → info.std_err ≡ some 1
      → file_of e 2 ≢ none
      → (file_of (streams info e) 1 ≡ file_of e 2) × (file_of (streams info e) 2 ≡ file_of e 2)
  unfolding streams
  streams_swapped info e hi ho he h =
      let a = reset_sigpipe e in
      let open2 = reset_sigpipe-IsOpen (some 2) e h in
      let at1 : file_of (dup2 2 1 a) 1 ≡ file_of e 2 =
        redirect_self (some 2) 1 a open2 ∙ reset_sigpipe-asked (some 2) 2 e in
      let open1 : IsOpen (some 1) (dup2 2 1 a) = λ c. h (sym at1 ∙ c) in
      rw (hi, ho, he)
        (
          redirect_other (some 1) 2 1 (dup2 2 1 a) open1 (λ z. absurd (omega (arith, z))) ∙ at1,
          redirect_self (some 1) 2 (dup2 2 1 a) open1 ∙ at1,
        )
