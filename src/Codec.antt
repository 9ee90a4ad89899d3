-- ===== src/Codec.antt =====
-- The encodings that the program takes from its libraries (bitcoin's consensus encoding, serde_json),
-- as one interface, and the columns that hold such an encoding as hexadecimal text.
pub mod Unary
use sensei.Prelude.{
  ℕ, ◌<◌, ◌≡◌, refl, sym, ap, ◌∙◌, ◌↔◌, true, Option, some, Text, ◌=text◌, =text_iff, All, arith,
  Outcome, ok, ◌>>=◌, or_err,
}
use sensei.Hex.{hex_str, to_vec_unsafe}
use sensei.Hex.Roundtrip.{to_vec-hex_str}

pub record Codec (A : Type 0) : Type 0 where
  pub encode : A → Text
  pub decode : Text → Option A

-- Decoding undoes encoding, and an encoding is a string of bytes.
pub record IsCodec {A : Type 0} (c : Codec A) : Type 0 where
  pub decode-encode : (a : A) → c.decode (c.encode a) ≡ some a
  pub encode-bytes : (a : A) → All (λ b. b < 256) (c.encode a)

module _ {A : Type 0} (c : Codec A) where
  -- `hex_str(&serialize(a))`
  pub hexed : A → Text
  hexed a = hex_str (c.encode a)

  -- `deserialize(&to_vec_unsafe(column))`; `e` is the error of a text that encodes nothing.
  pub unhexed : {E : Type 0} → E → Text → Outcome E A
  unhexed e column = do bytes ← to_vec_unsafe column; or_err e (c.decode bytes)

  module _ (law : IsCodec c) where
    pub unhexed-hexed : {E : Type 0} (e : E) (a : A) → unhexed e (hexed a) ≡ ok a
    unfolding unhexed hexed to_vec_unsafe
    unhexed-hexed e a =
        rw (to_vec-hex_str (c.encode a) (law.encode-bytes a)) (rw (law.decode-encode a) refl)

    pub hexed-injective : (a b : A) → hexed a ≡ hexed b → a ≡ b
    hexed-injective a b e =
        let round : (x : A) → unhexed tt (hexed x) ≡ ok x = unhexed-hexed tt in
        ground (arith, ap (unhexed tt) e, round a, round b)

    -- Two columns hold the same text exactly when they stand for the same value.
    pub hexed_iff : (a b : A) → ((hexed a =text hexed b) ≡ true) ↔ (a ≡ b)
    hexed_iff a b = (
      λ e. hexed-injective a b ((=text_iff (hexed a) (hexed b)).0 e),
      λ e. (=text_iff (hexed a) (hexed b)).1 (ap hexed e),
    )
