-- ===== src/Base/Text.antt =====
-- The code points of a text.
use Prim.Native.Char.{code}
use mailarchive.Base.{ℕ, String, List, [], ◌∷◌}

-- `String` has its own `[]` and `∷`.
abbrev pub codes : String → List ℕ
codes String.[] = []
codes (String.◌∷◌ c s) = code c ∷ codes s
