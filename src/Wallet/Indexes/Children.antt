-- ===== src/Wallet/Indexes/Children.antt =====
-- The children that the outputs of transactions pay, and the index that is past all of them.
use sensei.Prelude.{
  ℕ, ◌+◌, ◌<◌, ◌^◌, ◌≡◌, refl, subst, Option, none, some, List, [], ◌∷◌, ◌++◌, Text, All, max, true,
  arith, Option-cases, Bool-cases, inl, inr, if◌then◌else◌,
}
use sensei.Wallet.Types.{KeychainKind, external, internal, ◌=kind◌, TxOut}
use sensei.Wallet.Process.{MaxDeriv, raise, exceeds}
use sensei.Wallet.Creates.{derivs}
use sensei.Wallet.Indexes.{raised_to}

-- The children of a keychain that the outputs pay.
abbrev pub children : (Text → Option (KeychainKind × ℕ)) → KeychainKind → List TxOut → List ℕ
children path k [] = []
children path k (output ∷ rest) = elim (path output.script_pubkey) [
  | none ↦ children path k rest
  | some (keychain, child) ↦
      if keychain =kind k then child ∷ children path k rest else children path k rest
]

-- An index that is raised past each child.
abbrev pub past : ℕ → List ℕ → ℕ
past index [] = index
past index (child ∷ rest) = past (max index (child + 1)) rest

-- The one past the child fits its column.
abbrev pub HasRoom : ℕ → Type 0
HasRoom child = child + 1 < 2 ^ 31

-- The highest child that was paid, of one keychain.
abbrev pub max_of : MaxDeriv → KeychainKind → Option ℕ
max_of m external = m.external_max
max_of m internal = m.internal_max

abbrev pub MaxHasRoom : Option ℕ → Type 0
MaxHasRoom none = Unit
MaxHasRoom (some child) = HasRoom child

raise-past :
    (keychain k : KeychainKind) (child index : ℕ) (m : MaxDeriv)
    → raised_to index (max_of (raise keychain child m) k) ≡ (
        if keychain =kind k
        then max (raised_to index (max_of m k)) (child + 1)
        else raised_to index (max_of m k))
raise-past external external child index m = elim (Option-cases m.external_max) [
  | inl e ↦ ground (arith, e)
  | inr (x, e) ↦ ground (arith, e)
]
raise-past internal internal child index m = elim (Option-cases m.internal_max) [
  | inl e ↦ ground (arith, e)
  | inr (x, e) ↦ ground (arith, e)
]
raise-past external internal child index m = ground arith
raise-past internal external child index m = ground arith

pub derivs-past :
    (path : Text → Option (KeychainKind × ℕ)) (k : KeychainKind) (index : ℕ) (m : MaxDeriv)
    (outs : List TxOut)
    → raised_to index (max_of (derivs path m outs) k)
      ≡ past (raised_to index (max_of m k)) (children path k outs)
unfolding derivs
derivs-past path k index m [] = refl
derivs-past path k index m (output ∷ rest) = elim (Option-cases (path output.script_pubkey)) [
  | inl foreign ↦ ground (arith, foreign, derivs-past path k index m rest)
  | inr ((keychain, child), mine) ↦
      let later = derivs-past path k index (raise keychain child m) rest in
      let now = raise-past keychain k child index m in
      elim (Bool-cases (keychain =kind k)) [
        | inl same ↦ ground (arith, mine, same, later, now)
        | inr differ ↦ ground (arith, mine, differ, later, now)
      ]
]

raise-HasRoom :
    (keychain k : KeychainKind) (child : ℕ) (m : MaxDeriv)
    → ((keychain =kind k) ≡ true → HasRoom child)
    → MaxHasRoom (max_of m k)
    → MaxHasRoom (max_of (raise keychain child m) k)
raise-HasRoom external external child m room old =
    elim (Bool-cases (exceeds child m.external_max)) [
      | inl more ↦ rw more (room refl)
      | inr fine ↦ rw fine old
    ]
raise-HasRoom internal internal child m room old =
    elim (Bool-cases (exceeds child m.internal_max)) [
      | inl more ↦ rw more (room refl)
      | inr fine ↦ rw fine old
    ]
raise-HasRoom external internal child m room old =
    elim (Bool-cases (exceeds child m.external_max)) [
      | inl more ↦ rw more old
      | inr fine ↦ rw fine old
    ]
raise-HasRoom internal external child m room old =
    elim (Bool-cases (exceeds child m.internal_max)) [
      | inl more ↦ rw more old
      | inr fine ↦ rw fine old
    ]

pub derivs-HasRoom :
    (path : Text → Option (KeychainKind × ℕ)) (k : KeychainKind) (m : MaxDeriv) (outs : List TxOut)
    → All HasRoom (children path k outs)
    → MaxHasRoom (max_of m k)
    → MaxHasRoom (max_of (derivs path m outs) k)
unfolding derivs
derivs-HasRoom path k m [] room old = old
derivs-HasRoom path k m (output ∷ rest) room old = elim (Option-cases (path output.script_pubkey)) [
  | inl foreign ↦
      let room' : All HasRoom (children path k rest) =
        subst (All HasRoom) (ground (arith, foreign)) room in
      let same : derivs path m rest ≡ derivs path m (output ∷ rest) = ground (arith, foreign) in
      subst (λ n. MaxHasRoom (max_of n k)) same (derivs-HasRoom path k m rest room' old)
  | inr ((keychain, child), mine) ↦
      let (now, later) = split keychain child mine in
      let same : derivs path (raise keychain child m) rest ≡ derivs path m (output ∷ rest) =
        ground (arith, mine) in
      subst (λ n. MaxHasRoom (max_of n k)) same
        (derivs-HasRoom path k (raise keychain child m) rest later
          (raise-HasRoom keychain k child m now old))
]
  where
    split :
        (keychain : KeychainKind) (child : ℕ)
        → path output.script_pubkey ≡ some (keychain, child)
        → ((keychain =kind k) ≡ true → HasRoom child) × All HasRoom (children path k rest)
    split keychain child mine = elim (Bool-cases (keychain =kind k)) [
      | inl same ↦
          let first : children path k (output ∷ rest) ≡ child ∷ children path k rest =
            ground (arith, mine, same) in
          let both : All HasRoom (child ∷ children path k rest) = subst (All HasRoom) first room in
          ((λ _. both.0), both.1)
      | inr differ ↦
          let rest_only : children path k (output ∷ rest) ≡ children path k rest =
            ground (arith, mine, differ) in
          ((λ same. absurd (ground (arith, same, differ))), subst (All HasRoom) rest_only room)
    ]

pub past-append : (index : ℕ) (xs ys : List ℕ) → past index (xs ++ ys) ≡ past (past index xs) ys
past-append index [] ys = refl
past-append index (x ∷ xs) ys = past-append (max index (x + 1)) xs ys

pub All-front : {A : Type 0} (P : A → Type 0) (xs ys : List A) → All P (xs ++ ys) → All P xs
All-front P [] ys all = tt
All-front P (x ∷ xs) ys all = (all.0, All-front P xs ys all.1)

pub All-back : {A : Type 0} (P : A → Type 0) (xs ys : List A) → All P (xs ++ ys) → All P ys
All-back P [] ys all = all
All-back P (x ∷ xs) ys all = All-back P xs ys all.1
