-- ===== src/Hex.antt =====
-- senseicore/src/hex_utils.rs, and its copy in entity/src/lib.rs: texts of hexadecimal digits.
-- A byte is a number below 256; a text is the list of its bytes.
pub mod Loop
pub mod Roundtrip
pub mod Sanitize
mod Tests
use Prim.Native.Nat.{bit_or}
use sensei.Prelude.{
  ℕ, ◌+◌, ◌-◌, ◌*◌, ◌/◌, ◌%◌, Bool, ◌&&◌, Option, none, some, List, [], ◌∷◌, ◌++◌, Text, ltb, leb,
  ◌==◌, if◌then◌else◌, Outcome, length, select, expect_some,
}

-- The value of one digit; the arms in the order of the match.
unfoldable pub digit : ℕ → Option ℕ
digit c =
    if leb b'A' c && leb c b'F'
    then some (c - b'A' + 10)
    else if leb b'a' c && leb c b'f'
    then some (c - b'a' + 10)
    else if leb b'0' c && leb c b'9'
    then some (c - b'0')
    else none

-- The loop over the text, from position `idx` on, with the `u8` register `b` and the output so far.
unfoldable pub to_vec_from : ℕ → ℕ → Text → Text → Option Text
to_vec_from idx b out [] = some out
to_vec_from idx b out (c ∷ cs) = elim (digit c) [
  | none ↦ none
  | some d ↦
      let b' = bit_or (b * 16 % 256) d in
      if idx % 2 == 1
      then to_vec_from (idx + 1) 0 (out ++ b' ∷ []) cs
      else to_vec_from (idx + 1) b' out cs
]

unfoldable pub to_vec : Text → Option Text
unfolding to_vec_from digit
to_vec hex = to_vec_from 0 0 [] hex

-- A panic where the text holds anything but digits.
unfoldable pub to_vec_unsafe : {E : Type 0} → Text → Outcome E Text
to_vec_unsafe hex = expect_some (to_vec hex)

-- One digit of `{:02x}`.
pub hex_digit : ℕ → ℕ
hex_digit d = if ltb d 10 then b'0' + d else b'a' + d - 10

unfoldable pub hex_str : Text → Text
unfolding hex_digit
hex_str [] = []
hex_str (v ∷ vs) = hex_digit (v / 16) ∷ hex_digit (v % 16) ∷ hex_str vs

-- Keeps the printable ASCII bytes.
unfoldable pub sanitize_string : Text → Text
sanitize_string = select λ b. leb 0x20 b && leb b 0x7e

-- `from_slice` is `PublicKey::from_slice` of secp256k1.
unfoldable pub to_compressed_pubkey {ℓ} : {Key : Type ℓ} → (Text → Option Key) → Text → Option Key
to_compressed_pubkey from_slice hex =
    if length hex == 66
    then elim (to_vec hex) [ none ↦ none | some bytes ↦ from_slice bytes ]
    else none
