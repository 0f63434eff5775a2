-- ===== src/Base/Text.antt =====
-- The bytes of an ASCII text, for tests.
use Prim.Native.Char.{code}
use Prim.Native.String.{String}
use ffos.Base.{ℕ, List, [], ◌∷◌}

abbrev pub codes : String → List ℕ
codes String.[] = []
codes (String.◌∷◌ c s) = code c ∷ codes s
