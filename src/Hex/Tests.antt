-- ===== src/Hex/Tests.antt =====
-- Digits and texts on which the theorems about them are tried.
use sensei.Prelude.{◌≡◌, some, [], ◌∷◌, arith}
use sensei.Hex.{to_vec, hex_str}
use sensei.Hex.Roundtrip.{to_vec-hex_str}

to_vec-hex_str_example : to_vec (hex_str (0 ∷ 171 ∷ 255 ∷ [])) ≡ some (0 ∷ 171 ∷ 255 ∷ [])
to_vec-hex_str_example =
    to_vec-hex_str (0 ∷ 171 ∷ 255 ∷ []) (omega arith, (omega arith, (omega arith, tt)))
