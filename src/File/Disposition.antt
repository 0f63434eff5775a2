-- ===== src/File/Disposition.antt =====
-- What `fffile_open` of FFOS/file.h on Windows does to the content of a file, for each way to create it.
use ffos.Base.{
  ℕ, ◌≡◌, refl, sym, ap, ◌∙◌, Bool, true, false, ◌&&◌, Option, none, some, [], ◌==◌, if◌then◌else◌,
  Bool-cases, inl, inr, arith,
}
use ffos.Ffbase.{Str}
use ffos.File.Open.{
  create_new, open_existing, open_always, truncate_existing, creation_of, truncates, no_dos_name,
  creation, access, attributes, error_file_not_found, disposed, succeeds, OpenSys, is_some, again,
  opened, open_file,
}

-- How a caller asks for the file: FFFILE_CREATE, FFFILE_CREATENEW, or neither
pub data Creation : Type 0 where
  existing create_or_open create_only : Creation

abbrev pub creation_bits : Creation → ℕ
creation_bits existing = 0
creation_bits create_or_open = 4
creation_bits create_only = 1

-- What the caller expects: the content of the file behind the call, and whether it succeeds. A file
-- that is there is kept or, if asked for, emptied; one that is not there is created if asked for.
abbrev pub expected : Creation → Bool → Option Str → Option Str
expected existing truncate none = none
expected c truncate none = some []
expected create_only truncate (some s) = some s
expected c truncate (some s) = if truncate then some [] else some s

abbrev pub is_opened : Creation → Option Str → Bool
is_opened existing none = false
is_opened c none = true
is_opened create_only (some s) = false
is_opened c (some s) = true

-- How the file is opened: with FFFILE_TRUNCATE, FFFILE_CREATENEW is as if it was not there.
abbrev pub effective : Creation → Bool → Creation
effective create_only true = existing
effective c t = c

always_opened : (o : Option Str) → is_opened create_or_open o ≡ true
always_opened none = refl
always_opened (some s) = refl

always_empty : (o : Option Str) → expected create_or_open true o ≡ some []
always_empty none = refl
always_empty (some s) = refl

module _ {E : Type 0} (sys : OpenSys E) where
  open sys use {create_file, content, last_error}

  -- CreateFileW of a file to which access is granted, as documented: it succeeds, and changes the
  -- content, by the creation; a file that is missing is reported as such.
  pub record Granted (w : Str) (a f : ℕ) : Type 0 where
    pub succeeds_by : (d : ℕ) (e : E) → is_some (create_file w a d f e).0 ≡ succeeds d (content e w)
    pub content_by :
        (d : ℕ) (e : E) → content (create_file w a d f e).1 w ≡ disposed d (content e w)
    pub missing_is :
        (d : ℕ) (e : E)
        → content e w ≡ none
        → succeeds d none ≡ false
        → last_error (create_file w a d f e).1 ≡ error_file_not_found

  abbrev Outcome : Str → Option ℕ × E → Bool → Option Str → Type 0
  Outcome w r ok s = (is_some r.0 ≡ ok) × (content r.1 w ≡ s)

  single :
      (w : Str) (a f d : ℕ) (e : E)
      → Granted w a f
      → Outcome w (create_file w a d f e) (succeeds d (content e w)) (disposed d (content e w))
  single w a f d e g = (g.succeeds_by d e, g.content_by d e)

  -- The second attempt is made only after a failure.
  again-opened :
      (w : Str) (flags : ℕ) (r : Option ℕ × E) → is_some r.0 ≡ true → again sys w flags r ≡ r
  again-opened w flags (fd, e) ok = rw ok refl

  again-plain :
      (w : Str) (flags : ℕ) (r : Option ℕ × E)
      → (truncates flags && (creation_of flags == open_always)) ≡ false
      → again sys w flags r ≡ r
  again-plain w flags (none, e) other = elim (Bool-cases (last_error e == error_file_not_found)) [
    | inl y ↦ rw (again, y, other) refl
    | inr n ↦ rw (again, n) refl
  ]
  again-plain w flags (some fd, e) other = refl

  again-missing :
      (w : Str) (flags : ℕ) (r : Option ℕ × E)
      → is_some r.0 ≡ false
      → last_error r.1 ≡ error_file_not_found
      → (truncates flags && (creation_of flags == open_always)) ≡ true
      → again sys w flags r ≡ create_file w (access flags) create_new (attributes flags) r.1
  again-missing w flags (fd, e) failed missing both =
      let code : (last_error e == error_file_not_found) ≡ true = ground (arith, missing) in
      rw (failed, code, both) refl

  module _ (w : Str) (flags : ℕ) (e : E) (g : Granted w (access flags) (attributes flags)) where
    -- One attempt is enough.
    opened-once :
        (d : ℕ) (c : Creation) (t : Bool)
        → creation flags ≡ d
        → (truncates flags && (creation_of flags == open_always)) ≡ false
        → ((o : Option Str) → succeeds d o ≡ is_opened c o)
        → ((o : Option Str) → disposed d o ≡ expected c t o)
        → Outcome w (opened sys w flags e) (is_opened c (content e w)) (expected c t (content e w))
    opened-once d c t is plain ok text =
        let a = access flags in
        let f = attributes flags in
        let goes : opened sys w flags e ≡ create_file w a d f e =
          again-plain w flags (create_file w a (creation flags) f e) plain
          ∙ ap (λ x. create_file w a x f e) is in
        let (s, c') = single w a f d e g in
        (
          ap (λ (r : Option ℕ × E). is_some r.0) goes ∙ s ∙ ok (content e w),
          ap (λ (r : Option ℕ × E). content r.1 w) goes ∙ c' ∙ text (content e w),
        )

    -- Truncation of a file that is created if it is missing takes a second attempt.
    opened-twice :
        (o : Option Str)
        → content e w ≡ o
        → creation flags ≡ truncate_existing
        → (truncates flags && (creation_of flags == open_always)) ≡ true
        → Outcome w (opened sys w flags e) true (some [])
    opened-twice (some s) there is both =
        let a = access flags in
        let f = attributes flags in
        let first = create_file w a (creation flags) f e in
        let ok : is_some first.0 ≡ true =
          g.succeeds_by (creation flags) e
          ∙ ap (λ x. succeeds x (content e w)) is
          ∙ ap (succeeds truncate_existing) there in
        let goes : opened sys w flags e ≡ first = again-opened w flags first ok in
        (
          ap (λ (r : Option ℕ × E). is_some r.0) goes ∙ ok,
          ap (λ (r : Option ℕ × E). content r.1 w) goes
              ∙ g.content_by (creation flags) e
              ∙ ap (λ x. disposed x (content e w)) is
              ∙ ap (disposed truncate_existing) there,
        )
    opened-twice none there is both =
        let a = access flags in
        let f = attributes flags in
        let first = create_file w a (creation flags) f e in
        let refused : succeeds (creation flags) none ≡ false = ap (λ x. succeeds x none) is in
        let failed : is_some first.0 ≡ false =
          g.succeeds_by (creation flags) e ∙ ap (succeeds (creation flags)) there ∙ refused in
        let missing = g.missing_is (creation flags) e there refused in
        let goes : opened sys w flags e ≡ create_file w a create_new f first.1 =
          again-missing w flags first failed missing both in
        let still : content first.1 w ≡ none =
          g.content_by (creation flags) e
          ∙ ap (λ x. disposed x (content e w)) is
          ∙ ap (disposed truncate_existing) there in
        (
          ap (λ (r : Option ℕ × E). is_some r.0) goes
              ∙ g.succeeds_by create_new first.1
              ∙ ap (succeeds create_new) still,
          ap (λ (r : Option ℕ × E). content r.1 w) goes
              ∙ g.content_by create_new first.1
              ∙ ap (disposed create_new) still,
        )

    opened-expected :
        (c : Creation) (t : Bool)
        → creation_of flags ≡ creation_bits c
        → truncates flags ≡ t
        → Outcome w
            (opened sys w flags e)
            (is_opened (effective c t) (content e w))
            (expected (effective c t) t (content e w))
    opened-expected existing false cs ts =
        opened-once open_existing existing false (rw (creation, ts, cs) refl) (rw ts refl)
          (λ o. elim o [ none ↦ refl | some s ↦ refl ])
          (λ o. elim o [ none ↦ refl | some s ↦ refl ])
    opened-expected existing true cs ts =
        opened-once truncate_existing existing true (rw (creation, ts, cs) refl) (rw (ts, cs) refl)
          (λ o. elim o [ none ↦ refl | some s ↦ refl ])
          (λ o. elim o [ none ↦ refl | some s ↦ refl ])
    opened-expected create_only false cs ts =
        opened-once create_new create_only false (rw (creation, ts, cs) refl) (rw ts refl)
          (λ o. elim o [ none ↦ refl | some s ↦ refl ])
          (λ o. elim o [ none ↦ refl | some s ↦ refl ])
    opened-expected create_only true cs ts =
        opened-once truncate_existing existing true (rw (creation, ts, cs) refl) (rw (ts, cs) refl)
          (λ o. elim o [ none ↦ refl | some s ↦ refl ])
          (λ o. elim o [ none ↦ refl | some s ↦ refl ])
    opened-expected create_or_open false cs ts =
        opened-once open_always create_or_open false (rw (creation, ts, cs) refl) (rw ts refl)
          (λ o. elim o [ none ↦ refl | some s ↦ refl ])
          (λ o. elim o [ none ↦ refl | some s ↦ refl ])
    opened-expected create_or_open true cs ts =
        let (ok, text) =
          opened-twice (content e w) refl (rw (creation, ts, cs) refl) (rw (ts, cs) refl) in
        (ok ∙ sym (always_opened (content e w)), text ∙ sym (always_empty (content e w)))

  -- If CreateFileW grants access to the file and does what is documented of it, fffile_open on Windows
  -- gives FFFILE_CREATE, FFFILE_CREATENEW and FFFILE_TRUNCATE, alone or with FFFILE_CREATE, their meaning
  -- on UNIX: it succeeds and leaves the content of the file as expected, also where a file to be
  -- truncated is missing and must be created. But FFFILE_CREATENEW with FFFILE_TRUNCATE is opened as
  -- FFFILE_TRUNCATE alone: a file that is there is emptied, and one that is missing is not created.
  pub open_file-expected :
      (name w : Str) (flags : ℕ) (e : E) (c : Creation) (t : Bool)
      → Granted w (access flags) (attributes flags)
      → sys.wide_name name ≡ some w
      → no_dos_name flags ≡ false
      → creation_of flags ≡ creation_bits c
      → truncates flags ≡ t
      → (is_some (open_file sys name flags e).0 ≡ is_opened (effective c t) (content e w))
        × (content (open_file sys name flags e).1 w ≡ expected (effective c t) t (content e w))
  unfolding open_file
  open_file-expected name w flags e c t g named plain cs ts =
      rw (named, plain) (opened-expected w flags e g c t cs ts)
