-- ===== src/Winreg/Open.antt =====
-- `ffwinreg_open` of FFOS/winreg.h, with the handles of keys that are open.
use ffos.Base.{
  ℕ, ◌%◌, ◌/◌, ◌≡◌, ◌≢◌, refl, Bool, true, false, ◌&&◌, ◌||◌, not, Option, none, some, List, ◌∷◌,
  ◌==◌, if◌then◌else◌, arith, ap, ◌∙◌, sym, subst, if_both,
}
use ffos.Ffbase.{Str}

-- What RegCreateKeyExW (with whether the key is new) and RegOpenKeyExW answer.
pub data KeyResult : Type 0 where
  key : ℕ → Bool → KeyResult
  key_error : ℕ → KeyResult

-- KEY_ALL_ACCESS, KEY_WRITE, KEY_READ
pub data Access : Type 0 where
  all_access write_access read_access : Access

abbrev pub already_exists : ℕ
already_exists = 183

-- The open handles behind a call that answers so
abbrev pub added : KeyResult → List ℕ → List ℕ
added (key k is_new) l = k ∷ l
added (key_error r) l = l

pub record KeySys (E : Type 0) : Type 0 where
  -- ffsz_alloc_buf_utow
  pub wide_path : Str → Option Str
  pub create_key : ℕ → Str → Access → E → KeyResult × E
  pub open_key : ℕ → Str → Access → E → KeyResult × E
  pub set_error : ℕ → E → E
  -- The open handles of keys, and what the calls do to them
  pub handles : E → List ℕ
  pub handles-set_error : (c : ℕ) (e : E) → handles (set_error c e) ≡ handles e
  -- A call that succeeds opens a handle, and one that fails opens none.
  pub handles-create_key :
      (h : ℕ) (p : Str) (a : Access) (e : E)
      → handles (create_key h p a e).1 ≡ added (create_key h p a e).0 (handles e)
  pub handles-open_key :
      (h : ℕ) (p : Str) (a : Access) (e : E)
      → handles (open_key h p a e).1 ≡ added (open_key h p a e).0 (handles e)

-- FFWINREG_CREATE, FFWINREG_CREATENEW; FFWINREG_READONLY and FFWINREG_WRITEONLY are the bits 0x80, 0x40.
abbrev pub create : ℕ
create = 1

abbrev pub create_new : ℕ
create_new = 2

abbrev pub access_of : ℕ → Access
access_of flags =
    if (flags / 128 % 2 == 1) && (flags / 64 % 2 == 1)
    then Access.all_access
    else if flags / 64 % 2 == 1
    then Access.write_access
    else Access.read_access

module _ {E : Type 0} (sys : KeySys E) where
  open sys use {create_key, open_key, set_error, handles}

  abbrev pub created : ℕ → KeyResult × E → Option ℕ × E
  created mode (key_error r, e) = (none, set_error r e)
  created mode (key k is_new, e) =
      if (mode == create_new) && not is_new then (none, set_error already_exists e) else (some k, e)

  abbrev pub opened : KeyResult × E → Option ℕ × E
  opened (key_error r, e) = (none, set_error r e)
  opened (key k is_new, e) = (some k, e)

  abbrev pub open_path : ℕ → ℕ → E → Option Str → Option ℕ × E
  open_path hk flags e none = (none, e)
  open_path hk flags e (some path) =
      let mode = flags % 16 in
      if (mode == create) || (mode == create_new)
      then created mode (create_key hk path (access_of flags) e)
      else opened (open_key hk path (access_of flags) e)

  -- `ffwinreg_open`
  unfoldable pub open_reg : ℕ → Str → ℕ → E → Option ℕ × E
  open_reg hk path flags e = open_path hk flags e (sys.wide_path path)

  -- The handles after a call: one more if it returns it
  abbrev pub with_key : Option ℕ → List ℕ → List ℕ
  with_key none l = l
  with_key (some k) l = k ∷ l

  opened-handles :
      (r : KeyResult × E) (l : List ℕ)
      → handles r.1 ≡ added r.0 l
      → handles (opened r).1 ≡ with_key (opened r).0 l
  opened-handles (key_error c, e) l h = sys.handles-set_error c e ∙ h
  opened-handles (key k is_new, e) l h = h

  created-handles :
      (mode : ℕ) (r : KeyResult × E) (l : List ℕ)
      → mode ≢ create_new
      → handles r.1 ≡ added r.0 l
      → handles (created mode r).1 ≡ with_key (created mode r).0 l
  created-handles mode (key_error c, e) l m h = sys.handles-set_error c e ∙ h
  created-handles mode (key k is_new, e) l m h =
      let other : (mode == create_new) ≡ false = ground arith in rw other h

  -- Unless a new key is demanded, a call of ffwinreg_open leaves one more key open if it returns it, and
  -- otherwise none.
  pub open_reg-handles :
      (hk : ℕ) (path : Str) (flags : ℕ) (e : E)
      → flags % 16 ≢ create_new
      → handles (open_reg hk path flags e).1 ≡ with_key (open_reg hk path flags e).0 (handles e)
  unfolding open_reg
  open_reg-handles hk path flags e m = go (sys.wide_path path)
    where
      go :
          (p : Option Str)
          → handles (open_path hk flags e p).1 ≡ with_key (open_path hk flags e p).0 (handles e)
      go none = refl
      go (some p) =
          let a = access_of flags in
          if_both (λ (r : Option ℕ × E). handles r.1 ≡ with_key r.0 (handles e))
            ((flags % 16 == create) || (flags % 16 == create_new))
            (created (flags % 16) (create_key hk p a e)) (opened (open_key hk p a e))
            (λ y.
              created-handles (flags % 16) (create_key hk p a e) (handles e) m
                (sys.handles-create_key hk p a e))
            (λ n. opened-handles (open_key hk p a e) (handles e) (sys.handles-open_key hk p a e))

  -- If a new key is demanded and the key exists already, the call fails with ERROR_ALREADY_EXISTS, and
  -- the handle of the existing key stays open.
  pub open_reg_exists :
      (hk k : ℕ) (path wide : Str) (flags : ℕ) (e : E)
      → flags % 16 ≡ create_new
      → sys.wide_path path ≡ some wide
      → (create_key hk wide (access_of flags) e).0 ≡ key k false
      → ((open_reg hk path flags e).0 ≡ none)
        × (handles (open_reg hk path flags e).1 ≡ k ∷ handles e)
  unfolding open_reg
  open_reg_exists hk k path wide flags e m w c =
      let a = access_of flags in
      let is_new : (flags % 16 == create_new) ≡ true = ground (arith, m) in
      let is_create : (flags % 16 == create) ≡ false = ground (arith, m) in
      let (none_new, handle) = go (create_key hk wide a e) c (sys.handles-create_key hk wide a e) in
      let r = create_key hk wide a e in
      rw (w, is_create, is_new)
        (subst (λ x. ((created x r).0 ≡ none) × (handles (created x r).1 ≡ k ∷ handles e)) (sym m)
          (none_new, handle))
    where
      go :
          (r : KeyResult × E)
          → r.0 ≡ key k false
          → handles r.1 ≡ added r.0 (handles e)
          → ((created create_new r).0 ≡ none) × (handles (created create_new r).1 ≡ k ∷ handles e)
      go (r, e') s h =
          subst
            (λ x.
              ((created create_new (x, e')).0 ≡ none)
              × (handles (created create_new (x, e')).1 ≡ k ∷ handles e))
            (sym s)
            (refl, sys.handles-set_error already_exists e' ∙ h ∙ ap (λ x. added x (handles e)) s)
