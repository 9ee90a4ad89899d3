-- ===== src/Hex/Loop.antt =====
-- The loop of `to_vec` against a reading of the text two digits at a time.
use Prim.Native.Nat.{bit_or}
use sensei.Prelude.{
  ℕ, zero, suc, ◌+◌, ◌*◌, ◌%◌, ◌<◌, ◌≡◌, refl, ◌∙◌, Bool, true, ◌&&◌, Option, none, some, [], ◌∷◌,
  ◌++◌, append_assoc, append-nil, Text, ◌==◌, ◌/◌, sym, ap, arith, Option-cases, inl, inr,
}
use mathlib.Core.Option
use sensei.Hex.{digit, to_vec_from, to_vec}

-- A byte is put together again from its two digits.
abbrev joins : ℕ → Bool
joins byte = bit_or (byte / 16 * 16 % 256) (byte % 16) == byte

-- The `count` bytes from `byte` on are.
joins_from : ℕ → ℕ → Bool
joins_from byte zero = true
joins_from byte (suc count) = let later = joins_from (byte + 1) count in joins byte && later

joins_all : joins_from 0 256 ≡ true
unfolding joins_from
joins_all = refl

joins_at : (byte count k : ℕ) → joins_from byte count ≡ true → k < count → joins (byte + k) ≡ true
unfolding joins_from
joins_at byte zero k table lt = absurd (omega arith)
joins_at byte (suc count) zero table lt =
    let here : byte + 0 ≡ byte = omega arith in
    let hit : joins byte ≡ true = ground arith in ap joins here ∙ hit
joins_at byte (suc count) (suc k) table lt =
    let there : byte + suc k ≡ byte + 1 + k = omega arith in
    ap joins there ∙ joins_at (byte + 1) count k (ground arith) (omega arith)

-- The shift and the `|` of the loop join two digits.
pub merge_digits : (b d : ℕ) → b < 16 → d < 16 → bit_or (b * 16 % 256) d ≡ b * 16 + d
merge_digits b d hb hd =
    let high : (b * 16 + d) / 16 ≡ b = omega arith in
    let low : (b * 16 + d) % 16 ≡ d = omega arith in
    let found : joins (0 + (b * 16 + d)) ≡ true =
      joins_at 0 256 (b * 16 + d) joins_all (omega arith) in
    let whole : 0 + (b * 16 + d) ≡ b * 16 + d = omega arith in
    let byte : joins (b * 16 + d) ≡ true = ap joins (sym whole) ∙ found in
    let joined : bit_or ((b * 16 + d) / 16 * 16 % 256) ((b * 16 + d) % 16) ≡ b * 16 + d =
      ground (arith, byte) in
    rw (high, low) at joined

pub digit_lt : (c d : ℕ) → digit c ≡ some d → d < 16
unfolding digit
digit_lt c d h = ground arith

-- Two digits to a byte; a digit that is left over at the end is checked and dropped.
unfoldable pub pairs : Text → Option Text
pairs [] = some []
pairs (c ∷ []) = Option.map (λ _. []) (digit c)
pairs (c ∷ d ∷ s) = elim (digit c) [
  | none ↦ none
  | some hi ↦ elim (digit d) [
    | none ↦ none
    | some lo ↦ Option.map (λ bytes. (hi * 16 + lo) ∷ bytes) (pairs s)
  ]
]

abbrev after : Text → Option Text → Option Text
after out = Option.map λ bytes. out ++ bytes

after_cons :
    (out : Text) (b : ℕ) (o : Option Text)
    → after (out ++ b ∷ []) o ≡ after out (Option.map (λ bytes. b ∷ bytes) o)
after_cons out b none = refl
after_cons out b (some bytes) = rw append_assoc

two_digits :
    (idx c d hi lo : ℕ) (out s : Text)
    → idx % 2 ≡ 0
    → digit c ≡ some hi
    → digit d ≡ some lo
    → to_vec_from idx 0 out (c ∷ d ∷ s) ≡ to_vec_from (idx + 1 + 1) 0 (out ++ (hi * 16 + lo) ∷ []) s
unfolding to_vec_from
two_digits idx c d hi lo out s even hc hd = ground (
  arith,
  merge_digits 0 hi (omega arith) (digit_lt c hi hc),
  merge_digits hi lo (digit_lt c hi hc) (digit_lt d lo hd),
)

-- From an even position the loop appends what `pairs` reads.
loop-pairs : (idx : ℕ) (out s : Text) → idx % 2 ≡ 0 → to_vec_from idx 0 out s ≡ after out (pairs s)
unfolding to_vec_from pairs
loop-pairs idx out [] even = rw append-nil
loop-pairs idx out (c ∷ []) even = ground (arith, append-nil out)
loop-pairs idx out (c ∷ d ∷ s) even = elim (Option-cases (digit c)) [
  | inl e ↦ ground arith
  | inr (hi, e) ↦ elim (Option-cases (digit d)) [
    | inl f ↦ ground arith
    | inr (lo, f) ↦
        two_digits idx c d hi lo out s even e f
        ∙ loop-pairs (idx + 1 + 1) (out ++ (hi * 16 + lo) ∷ []) s (omega arith)
        ∙ ground (arith, after_cons out (hi * 16 + lo) (pairs s))
  ]
]

-- The loop reads the text two digits at a time: it fails on a byte that is no digit, and it drops
-- a digit that is left over at the end.
pub to_vec-eq-pairs : (s : Text) → to_vec s ≡ pairs s
unfolding to_vec
to_vec-eq-pairs s = loop-pairs 0 [] s refl ∙ after_nil (pairs s)
  where
    after_nil : (o : Option Text) → after [] o ≡ o
    after_nil none = refl
    after_nil (some bytes) = refl
