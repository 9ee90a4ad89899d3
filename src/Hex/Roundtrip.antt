-- ===== src/Hex/Roundtrip.antt =====
-- `to_vec` and `hex_str` are inverse to one another.
use sensei.Prelude.{
  ℕ, ◌+◌, ◌*◌, ◌/◌, ◌%◌, ◌<◌, ◌≡◌, refl, sym, ◌∙◌, ◌&&◌, some, [], ◌∷◌, map, Text, leb,
  if◌then◌else◌, arith, Option-cases, inl, inr, All, length,
}
use sensei.Hex.{digit, to_vec, hex_digit, hex_str}
use sensei.Hex.Loop.{pairs, to_vec-eq-pairs, digit_lt}

digit-hex_digit : (d : ℕ) → d < 16 → digit (hex_digit d) ≡ some d
unfolding digit hex_digit
digit-hex_digit d h = ground arith

pairs-hex_str : (bs : Text) → All (λ b. b < 256) bs → pairs (hex_str bs) ≡ some bs
unfolding pairs hex_str
pairs-hex_str [] h = refl
pairs-hex_str (b ∷ bs) h = ground (
  arith,
  digit-hex_digit (b / 16) (omega arith),
  digit-hex_digit (b % 16) (omega arith),
  pairs-hex_str bs h.1,
)

-- Every byte string is read back from its digits.
pub to_vec-hex_str : (bs : Text) → All (λ b. b < 256) bs → to_vec (hex_str bs) ≡ some bs
to_vec-hex_str bs h = to_vec-eq-pairs (hex_str bs) ∙ pairs-hex_str bs h

pub length-hex_str : (bs : Text) → length (hex_str bs) ≡ 2 * length bs
unfolding hex_str
length-hex_str [] = refl
length-hex_str (b ∷ bs) = omega (arith, length-hex_str bs)

-- The digits A to F in lower case, other bytes as they are.
abbrev pub to_lower : ℕ → ℕ
to_lower c = if leb b'A' c && leb c b'F' then c + 32 else c

hex_digit-digit : (c d : ℕ) → digit c ≡ some d → hex_digit d ≡ to_lower c
unfolding digit hex_digit
hex_digit-digit c d h = ground arith

split_byte :
    (hi lo : ℕ) → hi < 16 → lo < 16 → ((hi * 16 + lo) / 16 ≡ hi) × ((hi * 16 + lo) % 16 ≡ lo)
split_byte hi lo p q = omega arith

hex_str-byte :
    (c d hi lo : ℕ) (bs : Text)
    → digit c ≡ some hi
    → digit d ≡ some lo
    → hex_str ((hi * 16 + lo) ∷ bs) ≡ to_lower c ∷ to_lower d ∷ hex_str bs
unfolding hex_str
hex_str-byte c d hi lo bs e f =
    let (a, b) = split_byte hi lo (digit_lt c hi e) (digit_lt d lo f) in
    rw (a, b, hex_digit-digit c hi e, hex_digit-digit d lo f) refl

hex_str-pairs : (s bs : Text) → length s % 2 ≡ 0 → pairs s ≡ some bs → hex_str bs ≡ map to_lower s
unfolding pairs
hex_str-pairs [] bs even h = let e : [] ≡ bs = cc in rw (← e) (unfold hex_str in refl)
hex_str-pairs (c ∷ []) bs even h = absurd (omega arith)
hex_str-pairs (c ∷ d ∷ s) bs even h = elim (Option-cases (digit c)) [
  | inl e ↦ absurd (ground arith)
  | inr (hi, e) ↦ elim (Option-cases (digit d)) [
    | inl f ↦ absurd (ground arith)
    | inr (lo, f) ↦ elim (Option-cases (pairs s)) [
      | inl g ↦ absurd (ground arith)
      | inr (rest, g) ↦
          let whole : bs ≡ (hi * 16 + lo) ∷ rest = ground arith in
          rw (whole, hex_str-byte c d hi lo rest e f, hex_str-pairs s rest (omega arith) g)
    ]
  ]
]

-- A text of an even number of digits is printed back in lower case.
hex_str-to_vec : (s bs : Text) → length s % 2 ≡ 0 → to_vec s ≡ some bs → hex_str bs ≡ map to_lower s
hex_str-to_vec s bs even h = hex_str-pairs s bs even (sym (to_vec-eq-pairs s) ∙ h)
