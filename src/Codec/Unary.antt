-- ===== src/Codec/Unary.antt =====
-- A concrete encoding for the tests: every value as a list of numbers, each of which is written in
-- unary.
use sensei.Prelude.{
  ℕ, zero, suc, ◌+◌, ◌<◌, ◌≡◌, refl, ap, ◌∙◌, Option, none, some, List, [], ◌∷◌, ◌++◌, length, All,
  Text, arith, append_assoc, append-nil,
}
use sensei.Codec.{Codec, IsCodec}

pub record Format (A : Type 0) : Type 0 where
  pub put : A → List ℕ
  pub get : List ℕ → Option (A × List ℕ)
  pub get-put : (a : A) (rest : List ℕ) → get (put a ++ rest) ≡ some (a, rest)

abbrev get_number : List ℕ → Option (ℕ × List ℕ)
get_number [] = none
get_number (n ∷ rest) = some (n, rest)

abbrev pub number : Format ℕ
number = record { put = λ n. n ∷ []; get = get_number; get-put = λ a rest. refl }

module _ {A B : Type 0} (f : Format A) where
  abbrev get_first : Format B → List ℕ → Option ((A × B) × List ℕ)
  get_first g xs = elim (f.get xs) [
    | none ↦ none
    | some (a, rest) ↦ elim (g.get rest) [ none ↦ none | some (b, end) ↦ some ((a, b), end) ]
  ]

  pub get-put_pair :
      (g : Format B) (a : A) (b : B) (rest : List ℕ)
      → get_first g ((f.put a ++ g.put b) ++ rest) ≡ some ((a, b), rest)
  get-put_pair g a b rest = ground (
    arith,
    append_assoc (f.put a) (g.put b) rest,
    f.get-put a (g.put b ++ rest),
    g.get-put b rest,
  )

  abbrev pub pair : Format B → Format (A × B)
  pair g = record {
    put = λ (a, b). f.put a ++ g.put b;
    get = get_first g;
    get-put = λ (a, b) rest. get-put_pair g a b rest;
  }

  abbrev get_as : (A → B) → List ℕ → Option (B × List ℕ)
  get_as from xs = elim (f.get xs) [ none ↦ none | some (a, rest) ↦ some (from a, rest) ]

  pub get-put_as :
      (from : A → B) (to : B → A) (b : B) (rest : List ℕ)
      → from (to b) ≡ b
      → get_as from (f.put (to b) ++ rest) ≡ some (b, rest)
  get-put_as from to b rest e = ground (arith, f.get-put (to b) rest, e)

  -- The same values in another shape.
  abbrev pub shaped : (from : A → B) (to : B → A) → ((b : B) → from (to b) ≡ b) → Format B
  shaped from to back = record {
    put = λ b. f.put (to b);
    get = get_as from;
    get-put = λ b rest. get-put_as from to b rest (back b);
  }

module _ {A : Type 0} (f : Format A) where
  pub put_all : List A → List ℕ
  put_all [] = []
  put_all (x ∷ xs) = f.put x ++ put_all xs

  unfoldable pub get_many : ℕ → List ℕ → Option (List A × List ℕ)
  get_many zero xs = some ([], xs)
  get_many (suc n) xs = elim (f.get xs) [
    | none ↦ none
    | some (a, rest) ↦ elim (get_many n rest) [ none ↦ none | some (ys, end) ↦ some (a ∷ ys, end) ]
  ]

  pub get_many-put_all :
      (xs : List A) (rest : List ℕ) → get_many (length xs) (put_all xs ++ rest) ≡ some (xs, rest)
  unfolding put_all get_many
  get_many-put_all [] rest = refl
  get_many-put_all (a ∷ xs) rest = ground (
    arith,
    append_assoc (f.put a) (put_all xs) rest,
    f.get-put a (put_all xs ++ rest),
    get_many-put_all xs rest,
  )

  abbrev get_list : List ℕ → Option (List A × List ℕ)
  get_list [] = none
  get_list (n ∷ rest) = get_many n rest

  abbrev pub list : Format (List A)
  list = record {
    put = λ xs. length xs ∷ put_all xs;
    get = get_list;
    get-put = λ xs rest. get_many-put_all xs rest;
  }

unfoldable pub ones : ℕ → Text → Text
ones zero rest = 0 ∷ rest
ones (suc n) rest = 1 ∷ ones n rest

unfoldable pub unary : List ℕ → Text
unary [] = []
unary (n ∷ ns) = ones n (unary ns)

unfoldable pub of_unary : ℕ → Text → List ℕ
of_unary acc [] = []
of_unary acc (zero ∷ t) = acc ∷ of_unary 0 t
of_unary acc (suc k ∷ t) = of_unary (acc + 1) t

of_unary-ones : (acc n : ℕ) (t : Text) → of_unary acc (ones n t) ≡ (acc + n) ∷ of_unary 0 t
unfolding of_unary ones
of_unary-ones acc zero t = ap (λ k. k ∷ of_unary 0 t) (let e : acc ≡ acc + 0 = omega arith in e)
of_unary-ones acc (suc n) t =
    of_unary-ones (acc + 1) n t
    ∙ ap (λ k. k ∷ of_unary 0 t) (let e : acc + 1 + n ≡ acc + suc n = omega arith in e)

of_unary-unary : (ns : List ℕ) → of_unary 0 (unary ns) ≡ ns
unfolding unary
of_unary-unary [] = unfold of_unary in refl
of_unary-unary (n ∷ ns) = ground (arith, of_unary-ones 0 n (unary ns), of_unary-unary ns)

ones-bytes : (n : ℕ) (t : Text) → All (λ b. b < 256) t → All (λ b. b < 256) (ones n t)
unfolding ones
ones-bytes zero t h = (omega arith, h)
ones-bytes (suc n) t h = (omega arith, ones-bytes n t h)

unary-bytes : (ns : List ℕ) → All (λ b. b < 256) (unary ns)
unfolding unary
unary-bytes [] = tt
unary-bytes (n ∷ ns) = ones-bytes n (unary ns) (unary-bytes ns)

module _ {A : Type 0} (f : Format A) where
  abbrev all_of : Option (A × List ℕ) → Option A
  all_of none = none
  all_of (some (a, rest)) = some a

  abbrev pub codec_of : Codec A
  codec_of = record { encode = λ a. unary (f.put a); decode = λ t. all_of (f.get (of_unary 0 t)) }

  pub codec_of-IsCodec : IsCodec codec_of
  codec_of-IsCodec = record {
    decode-encode = λ a. back a;
    encode-bytes = λ a. unary-bytes (f.put a);
  }
    where
      back : (a : A) → all_of (f.get (of_unary 0 (unary (f.put a)))) ≡ some a
      back a = ground (arith, of_unary-unary (f.put a), f.get-put a [], append-nil (f.put a))
