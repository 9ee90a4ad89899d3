-- ===== src/Hex/Sanitize.antt =====
-- `sanitize_string` and `to_compressed_pubkey`.
use sensei.Prelude.{
  ℕ, ◌*◌, ◌≤◌, ◌<◌, ◌≡◌, refl, Option, none, [], ◌∷◌, Text, ◌==◌, if◌then◌else◌, arith, All, length,
}
use sensei.Hex.{sanitize_string, to_compressed_pubkey, hex_str}
use sensei.Hex.Roundtrip.{to_vec-hex_str, length-hex_str}

abbrev pub IsPrintable : ℕ → Type 0
IsPrintable b = (0x20 ≤ b) × (b ≤ 0x7e)

-- What is kept is printable ASCII.
pub sanitize_string-IsPrintable : (bs : Text) → All IsPrintable (sanitize_string bs)
unfolding sanitize_string
sanitize_string-IsPrintable [] = tt
sanitize_string-IsPrintable (b ∷ bs) = ground (arith, sanitize_string-IsPrintable bs)

-- A printable text is kept whole.
pub sanitize_string-of_printable : (bs : Text) → All IsPrintable bs → sanitize_string bs ≡ bs
unfolding sanitize_string
sanitize_string-of_printable [] h = refl
sanitize_string-of_printable (b ∷ bs) h = ground (arith, sanitize_string-of_printable bs h.1)

-- A key that prints to 33 bytes is read back from its digits.
to_compressed_pubkey-hex_str {ℓ} :
    {Key : Type ℓ} (from_slice : Text → Option Key) (bs : Text)
    → All (λ b. b < 256) bs
    → to_compressed_pubkey from_slice (hex_str bs)
      ≡ (if length bs == 33 then from_slice bs else none)
unfolding to_compressed_pubkey
to_compressed_pubkey-hex_str from_slice bs h =
    rw (length-hex_str bs, to_vec-hex_str bs h) (same (length bs))
  where
    same :
        (n : ℕ)
        → (if 2 * n == 66 then from_slice bs else none) ≡ (if n == 33 then from_slice bs else none)
    same n = ground arith
