-- ===== src/Process/Inherit.antt =====
-- `_ffps_exec_cmdln` and `ffps_exec_info` of FFOS/process.h on Windows, which let the child inherit the
-- handles of its streams while it is created. The system calls are the parameter `HandleSys`.
use ffos.Base.{
  ℕ, ◌≡◌, refl, ap, ◌∙◌, Bool, true, false, ◌||◌, Option, none, some, List, ◌==◌, if◌then◌else◌,
}
use ffos.Ffbase.{Str}
use ffos.Process.CmdLine.{WideLib, CmdLine, argv_to_cmdln}

pub record Streams : Type 0 where
  pub std_in : Option ℕ
  pub std_out : Option ℕ
  pub std_err : Option ℕ

pub record HandleSys (E : Type 0) : Type 0 where
  -- SetHandleInformation of HANDLE_FLAG_INHERIT
  pub set_inherit : ℕ → Bool → E → E
  -- CreateProcessW with the streams, and whether handles are inherited: the process and its thread
  pub create : Str → Str → Streams → Bool → E → Option (ℕ × ℕ) × E
  pub close : ℕ → E → E
  -- ffsz_alloc_buf_utow of the file name
  pub wide_name : Str → Option Str
  pub inherits : E → ℕ → Bool
  pub inherits-set :
      (h d : ℕ) (b : Bool) (e : E)
      → inherits (set_inherit h b e) d ≡ (if d == h then b else inherits e d)
  pub inherits-close : (h d : ℕ) (e : E) → inherits (close h e) d ≡ inherits e d

module _ {E : Type 0} (sys : HandleSys E) where
  open sys use {set_inherit, create, close, inherits}

  abbrev pub set_one : Bool → Option ℕ → E → E
  set_one b none e = e
  set_one b (some h) e = set_inherit h b e

  abbrev pub set_all : Bool → Streams → E → E
  set_all b s e = set_one b s.std_err (set_one b s.std_out (set_one b s.std_in e))

  abbrev pub is_given : Option ℕ → Bool
  is_given none = false
  is_given (some h) = true

  abbrev pub created : Streams → Option (ℕ × ℕ) × E → Option ℕ × E
  created s (none, e) = (none, set_all false s e)
  created s (some (process, thread), e) = (some process, close thread (set_all false s e))

  -- `_ffps_exec_cmdln`
  unfoldable pub exec_cmdln : Str → Str → Streams → E → Option ℕ × E
  exec_cmdln filename line s e =
      let any = is_given s.std_in || (is_given s.std_out || is_given s.std_err) in
      created s (create filename line s any (set_all true s e))

  abbrev pub with_line : Str → Streams → E → CmdLine → Option ℕ × E
  with_line name s e (CmdLine.made l) = exec_cmdln name l s e
  with_line name s e CmdLine.refused = (none, e)
  with_line name s e CmdLine.no_memory = (none, e)
  with_line name s e CmdLine.overrun = (none, e)

  abbrev pub with_name : WideLib → List Str → Streams → E → Option Str → Option ℕ × E
  with_name lib argv s e none = (none, e)
  with_name lib argv s e (some name) = with_line name s e (argv_to_cmdln lib argv)

  -- `ffps_exec_info`
  unfoldable pub exec_info_win : WideLib → Str → List Str → Streams → E → Option ℕ × E
  exec_info_win lib filename argv s e = with_name lib argv s e (sys.wide_name filename)

  -- A handle is among the given ones.
  abbrev pub is_one : ℕ → Option ℕ → Bool
  is_one d none = false
  is_one d (some h) = d == h

  abbrev pub is_stream : ℕ → Streams → Bool
  is_stream d s = is_one d s.std_err || (is_one d s.std_out || is_one d s.std_in)

  set_one_lem :
      (b : Bool) (o : Option ℕ) (d : ℕ) (e : E)
      → inherits (set_one b o e) d ≡ (if is_one d o then b else inherits e d)
  set_one_lem b none d e = refl
  set_one_lem b (some h) d e = sys.inherits-set h d b e

  or_if :
      (t u v b x : Bool)
      → (if t then b else if u then b else if v then b else x) ≡ (if t || (u || v) then b else x)
  or_if true u v b x = refl
  or_if false true v b x = refl
  or_if false false v b x = refl

  set_all_lem :
      (b : Bool) (s : Streams) (d : ℕ) (e : E)
      → inherits (set_all b s e) d ≡ (if is_stream d s then b else inherits e d)
  set_all_lem b s d e =
      let e1 = set_one b s.std_in e in
      let e2 = set_one b s.std_out e1 in
      let i = is_one d s.std_in in
      let o = is_one d s.std_out in
      let r = is_one d s.std_err in
      set_one_lem b s.std_err d e2
      ∙ ap (λ x. if r then b else x) (set_one_lem b s.std_out d e1)
      ∙ ap (λ x. if r then b else if o then b else x) (set_one_lem b s.std_in d e)
      ∙ or_if r o i b (inherits e d)

  -- Every given stream is inheritable when CreateProcessW is called and no longer when
  -- _ffps_exec_cmdln returns, whether the process was created or not. The inheritance of all other
  -- handles is what CreateProcessW leaves.
  pub exec_cmdln-inherits :
      (filename line : Str) (s : Streams) (e : E) (d : ℕ)
      → let any = is_given s.std_in || (is_given s.std_out || is_given s.std_err) in
        let before = set_all true s e in
        let after = (create filename line s any before).1 in
        (inherits before d ≡ (if is_stream d s then true else inherits e d))
        × (inherits (exec_cmdln filename line s e).1 d
            ≡ (if is_stream d s then false else inherits after d))
  unfolding exec_cmdln
  exec_cmdln-inherits filename line s e d =
      let any = is_given s.std_in || (is_given s.std_out || is_given s.std_err) in
      (set_all_lem true s d e, go (create filename line s any (set_all true s e)))
    where
      go :
          (r : Option (ℕ × ℕ) × E)
          → inherits (created s r).1 d ≡ (if is_stream d s then false else inherits r.1 d)
      go (none, e') = set_all_lem false s d e'
      go (some (process, thread), e') =
          sys.inherits-close thread d (set_all false s e') ∙ set_all_lem false s d e'
