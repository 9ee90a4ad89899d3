-- ===== src/Wallet/Sums.antt =====
-- The 64-bit sums of `process_tx` are the plain sums, as long as those fit.
use sensei.Prelude.{
  ℕ, ◌+◌, ◌<◌, ◌≤◌, ◌^◌, ◌≡◌, Option, none, some, List, [], ◌∷◌, Text, All, arith, Option-cases,
  inl, inr,
}
use sensei.Wallet.Types.{OutPoint, TxOut, WalletDatabase, Stored, KeychainKind}
use sensei.Wallet.Process.{add_u64}
use sensei.Wallet.Views.{output_of}
use sensei.Wallet.Spends.{own_output, sum_from}
use sensei.Wallet.Creates.{incoming_from, total_from}

-- The value of all outputs, and of those that pay to a script of ours.
unfoldable pub total : List TxOut → ℕ
total [] = 0
total (t ∷ rest) = t.value + total rest

unfoldable pub own_total : (Text → Option (KeychainKind × ℕ)) → List TxOut → ℕ
own_total path [] = 0
own_total path (t ∷ rest) = elim (path t.script_pubkey) [
  | none ↦ own_total path rest
  | some _ ↦ t.value + own_total path rest
]

-- The value of the outputs that a lookup finds for the inputs.
unfoldable pub spent_total : (OutPoint → Option TxOut) → List OutPoint → ℕ
spent_total output [] = 0
spent_total output (o ∷ rest) = elim (output o) [
  | none ↦ spent_total output rest
  | some t ↦ t.value + spent_total output rest
]

pub own_total-le :
    (path : Text → Option (KeychainKind × ℕ)) (outs : List TxOut) → own_total path outs ≤ total outs
unfolding own_total total
own_total-le path [] = omega arith
own_total-le path (t ∷ rest) = ground (arith, own_total-le path rest)

pub value-lt : (n : ℕ) (outs : List TxOut) → total outs < n → All (λ (t : TxOut). t.value < n) outs
unfolding total
value-lt n [] h = tt
value-lt n (t ∷ rest) h = (omega arith, value-lt n rest (omega arith))

pub incoming_from-eq :
    (path : Text → Option (KeychainKind × ℕ)) (acc : ℕ) (outs : List TxOut)
    → acc + own_total path outs < 2 ^ 64
    → incoming_from path acc outs ≡ acc + own_total path outs
unfolding own_total incoming_from
incoming_from-eq path acc [] h = omega arith
incoming_from-eq path acc (t ∷ rest) h =
    ground (arith, incoming_from-eq path acc rest, incoming_from-eq path (add_u64 acc t.value) rest)

pub total_from-eq :
    (acc : ℕ) (outs : List TxOut)
    → acc + total outs < 2 ^ 64
    → total_from acc outs ≡ acc + total outs
unfolding total total_from
total_from-eq acc [] h = omega arith
total_from-eq acc (t ∷ rest) h = ground (arith, total_from-eq (add_u64 acc t.value) rest)

pub sum_from-eq :
    (output : OutPoint → Option TxOut) (acc : ℕ) (ins : List OutPoint)
    → acc + spent_total output ins < 2 ^ 64
    → sum_from output acc ins ≡ acc + spent_total output ins
unfolding spent_total sum_from
sum_from-eq output acc [] h = omega arith
sum_from-eq output acc (o ∷ rest) h = elim (Option-cases (output o)) [
  | inl e ↦ ground (arith, sum_from-eq output acc rest)
  | inr (t, e) ↦ ground (arith, sum_from-eq output (add_u64 acc t.value) rest)
]

-- What is ours of the inputs is at most what is known of them.
pub spent_total-own :
    (w : WalletDatabase) (st : Stored) (ins : List OutPoint)
    → spent_total (own_output w st) ins ≤ spent_total (output_of w st) ins
unfolding spent_total own_output
spent_total-own w st [] = omega arith
spent_total-own w st (o ∷ rest) = ground (arith, spent_total-own w st rest)
