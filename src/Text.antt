-- ===== src/Text.antt =====
-- Texts as lists of bytes: literals, and the parts of `str` that the program uses.
use Prim.Native.Char.{code}
use Prim.Native.String.{String}
use sensei.Prelude.{Text, [], ◌∷◌}

-- The bytes of an ASCII literal.
abbrev pub codes : String → Text
codes String.[] = []
codes (String.◌∷◌ c s) = code c ∷ codes s
