-- ===== src/Environ/Examples.antt =====
-- Runs of `ffenv_expand` and `ffenv_locale`, and the theorem at such an input.
use ffos.Base.{◌-◌, ◌≡◌, refl, not, some, List, [], ◌∷◌, ◌++◌, length, take, ◌==◌}
use ffos.Base.Text.{codes}
use ffos.Ffbase.{Str, str_eq}
use ffos.Environ.{svar_next, env_val, value_of, expand_loop, expand, locale}
use ffos.Environ.Outside.{EnvLib, split_while, index_of}
use ffos.Environ.Expand.{Expands, expand-Expands}

abbrev plain : EnvLib
plain = record {
  find_char = index_of;
  match_start = λ s k. str_eq (take (length k) s) k;
  add2 = λ out n s. out ++ take (n - length out) s;
  split_dot = λ s. (split_while (λ b. not (b == 46)) s).0;
  find_char_lem = λ s c. refl;
  match_start_lem = λ s k. refl;
  add2_lem = λ out s n. refl;
  split_dot_lem = λ s. refl;
}

abbrev env : List Str
env = codes "HOME_2=x" ∷ codes "HOME=/h" ∷ codes "LANG=en_US.UTF-8" ∷ []

runs :
    (expand plain env 32 (codes "a$HOME/$none;$") ≡ some (codes "a/h/;" ++ (0 ∷ [])))
    × (expand plain env 3 (codes "a$HOME/b") ≡ some (codes "a/h"))
    × (locale plain env 16 ≡ some (codes "en_US"))
unfolding svar_next env_val value_of expand_loop expand locale
runs = (refl, refl, refl)

expand-Expands_example :
    (r : Str) × Expands env (codes "a$HOME/") r
    × (expand plain env 32 (codes "a$HOME/") ≡ some (take 32 (r ++ (0 ∷ []))))
expand-Expands_example = expand-Expands plain env 32 (codes "a$HOME/")
