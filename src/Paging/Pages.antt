-- ===== src/Paging/Pages.antt =====
-- The pages of a list: each is the next stretch, all together they are the list, and `has_more` says
-- whether one more follows.
use sensei.Prelude.{
  ℕ, zero, suc, ◌+◌, ◌-◌, ◌*◌, ◌%◌, ◌^◌, ◌<◌, ◌≤◌, min, ◌≡◌, refl, sym, ap, Bool, true, Option,
  none, some, List, [], ◌∷◌, ◌++◌, Outcome, ok, panic, ◌>>=◌, ltb, leb, take, drop, length, select,
  unwrap_or, Text, arith, if◌then◌else◌, Bool-cases, inl, inr, length-drop,
}
use native.Mathlib.Nat.{mul-mod_left, mul-le-mul, suc-mul}
use sensei.Paging.{
  page, paginate, usize, PaginationRequest, PaginationResponse, Channel, matches_channel,
  list_channels,
}

pub index_bound : (p per : ℕ) → p < 2 ^ 32 → per < 2 ^ 32 → p * per + per < 2 ^ 64
index_bound p per hp hper =
    let most : p * per ≤ (2 ^ 32 - 1) * (2 ^ 32 - 1) =
      mul-le-mul {n₁ = p} {m₁ = per} {n₂ = 2 ^ 32 - 1} {m₂ = 2 ^ 32 - 1} (omega arith)
        (omega arith) in
    omega arith

pub next_index : (p per : ℕ) → p * per + per ≡ suc p * per
next_index p per = sym (suc-mul p per)

module _ {A : Type 0} where
  -- A stretch that is cut off at the end of the list.
  take-min : (n : ℕ) (xs : List A) → take (min n (length xs)) xs ≡ take n xs
  take-min zero xs = ap (λ k. take k xs) (let e : min 0 (length xs) ≡ 0 = omega arith in e)
  take-min (suc n) [] = ap (λ k. take {A = A} k []) (let e : min (suc n) 0 ≡ 0 = omega arith in e)
  take-min (suc n) (x ∷ xs) =
      let e : min (suc n) (suc (length xs)) ≡ suc (min n (length xs)) = omega arith in
      rw e (ap (◌∷◌ x) (take-min n xs))

  drop-add : (m n : ℕ) (xs : List A) → drop (m + n) xs ≡ drop n (drop m xs)
  drop-add zero n xs = let e : 0 + n ≡ n = omega arith in rw e refl
  drop-add (suc m) zero [] = let e : suc m + 0 ≡ suc m = omega arith in rw e refl
  drop-add (suc m) (suc n) [] = let e : suc m + suc n ≡ suc (m + suc n) = omega arith in rw e refl
  drop-add (suc m) n (x ∷ xs) =
      let e : suc m + n ≡ suc (m + n) = omega arith in rw e (drop-add m n xs)

  take-add : (m n : ℕ) (xs : List A) → take (m + n) xs ≡ take m xs ++ take n (drop m xs)
  take-add zero n xs = let e : 0 + n ≡ n = omega arith in rw e refl
  take-add (suc m) zero [] = let e : suc m + 0 ≡ suc m = omega arith in rw e refl
  take-add (suc m) (suc n) [] = let e : suc m + suc n ≡ suc (m + suc n) = omega arith in rw e refl
  take-add (suc m) n (x ∷ xs) =
      let e : suc m + n ≡ suc (m + n) = omega arith in rw e (ap (◌∷◌ x) (take-add m n xs))

  take-nil : (n : ℕ) → take {A = A} n [] ≡ []
  take-nil zero = refl
  take-nil (suc n) = refl

  pub take_all : (n : ℕ) (xs : List A) → length xs ≤ n → take n xs ≡ xs
  take_all n [] h = take-nil n
  take_all zero (x ∷ xs) h = absurd (omega arith)
  take_all (suc n) (x ∷ xs) h = ap (◌∷◌ x) (take_all n xs (omega arith))

  length-select : (p : A → Bool) (xs : List A) → length (select p xs) ≤ length xs
  length-select p [] = omega arith
  length-select p (x ∷ xs) = ground (arith, length-select p xs)

  drop_all : (n : ℕ) (xs : List A) → length xs ≤ n → drop n xs ≡ []
  drop_all zero [] h = refl
  drop_all zero (x ∷ xs) h = absurd (omega arith)
  drop_all (suc n) [] h = refl
  drop_all (suc n) (x ∷ xs) h = drop_all n xs (omega arith)

module _ {A : Type 0} {E : Type 0} where
  -- A request for the page at a position, of a length that is not 0, of a list that fits in memory.
  page_lem :
      (xs : List A) (per index : ℕ)
      → 0 < per
      → per < 2 ^ 32
      → length xs < 2 ^ 63
      → index % per ≡ 0
      → page {E = E} xs per index
        ≡ ok (if ltb index (length xs) then some (0, take per (drop index xs)) else none)
  unfolding page
  page_lem xs zero index pos small fits start = absurd (omega arith)
  page_lem xs (suc p) index pos small fits start = elim (Bool-cases (ltb index (length xs))) [
    | inl inside ↦
        let end : min (length xs) ((index - 0 + suc p) % 2 ^ 64) - (index - 0)
            ≡ min (suc p) (length (drop index xs)) =
          ground (arith, length-drop index xs) in
        let low : leb (index - 0) (min (length xs) ((index - 0 + suc p) % 2 ^ 64)) ≡ true =
          ground arith in
        let high : leb (min (length xs) ((index - 0 + suc p) % 2 ^ 64)) (length xs) ≡ true =
          ground arith in
        let whole : index - 0 ≡ index = omega arith in
        ground (arith, start, end, low, high, whole, take-min (suc p) (drop index xs))
    | inr outside ↦ rw (outside, if◌then◌else◌) refl
  ]

  -- For a page length that is not 0, numbers of 32 bits and a list that fits in memory: the page is
  -- that stretch of the list, `has_more` says whether the list goes on behind it, and `total` is the
  -- length of the list.
  pub paginate_lem :
      (xs : List A) (pagination : PaginationRequest)
      → 0 < pagination.take
      → pagination.take < 2 ^ 32
      → pagination.page < 2 ^ 32
      → length xs < 2 ^ 63
      → paginate {E = E} xs pagination
        ≡ ok (
          take pagination.take (drop (pagination.page * pagination.take) xs),
          record {
            has_more = ltb (suc pagination.page * pagination.take) (length xs);
            total = length xs;
          },
        )
  unfolding paginate
  paginate_lem xs pagination pos small pages fits =
      let p = pagination.page in
      let per = pagination.take in
      let bound = index_bound p per pages small in
      let low : p * per % 2 ^ 64 ≡ p * per = omega arith in
      let high : (p * per + per) % 2 ^ 64 ≡ suc p * per = ground (arith, next_index p per) in
      let here = page_lem xs per (p * per) pos small fits (mul-mod_left p per) in
      let there = page_lem xs per (suc p * per) pos small fits (mul-mod_left (suc p) per) in
      let past = drop_all (p * per) xs in
      ground (arith, here, there, low, high, past, take-nil {A = A} per)

-- A client that asks for the first `n` pages, one by one.
unfoldable pub read_pages :
    {A E : Type 0} → (ℕ → Outcome E (List A × PaginationResponse)) → ℕ → Outcome E (List A)
read_pages request zero = ok []
read_pages request (suc n) = do
  before ← read_pages request n
  (xs, response) ← request n
  ok (before ++ xs)

-- The request for one page of a listing.
abbrev pub request_at : ℕ → Option Text → ℕ → PaginationRequest
request_at per query p = record { page = p; take = per; query = query }

module _ {A : Type 0} {E : Type 0} (xs : List A) (per : ℕ) (query : Option Text) where
  pub pages_joined :
      (n : ℕ)
      → 0 < per
      → per < 2 ^ 32
      → n ≤ 2 ^ 32
      → length xs < 2 ^ 63
      → read_pages (λ p. paginate {E = E} xs (request_at per query p)) n ≡ ok (take (n * per) xs)
  unfolding read_pages
  pages_joined zero pos small many fits =
      let none_yet : 0 * per ≡ 0 = omega arith in rw none_yet refl
  pages_joined (suc n) pos small many fits =
      let before = pages_joined n pos small (omega arith) fits in
      let last = paginate_lem {E = E} xs (request_at per query n) pos small (omega arith) fits in
      rw (before, last, ← next_index n per) (ap ok (sym (take-add (n * per) per xs)))

-- For a page length that is not 0, both of 32 bits, and as many channels as fit in memory: the first
-- `n` pages of `list_channels`, up to 2^32 of them, are together the first channels that match the
-- query, and all of those once `n` pages have room for them.
pub list_channels-pages :
    {E : Type 0} (channels : List Channel) (query : Option Text) (per n : ℕ)
    → 0 < per
    → per < 2 ^ 32
    → n ≤ 2 ^ 32
    → length channels < 2 ^ 63
    → let matching = select (matches_channel (unwrap_or [] query)) channels in
      (read_pages (λ p. list_channels {E = E} channels (request_at per query p)) n
        ≡ ok (take (n * per) matching))
      × (length matching ≤ n * per → take (n * per) matching ≡ matching)
unfolding list_channels
list_channels-pages channels query per n pos small many fits =
    let matching = select (matches_channel (unwrap_or [] query)) channels in
    let fewer = length-select (matches_channel (unwrap_or [] query)) channels in
    (pages_joined matching per query n pos small many (omega arith), take_all (n * per) matching)

-- A request with a page length of 0 panics as soon as one entry is there to be listed.
paginate-take_zero :
    {A E : Type 0} (x : A) (xs : List A) (pagination : PaginationRequest)
    → pagination.take ≡ 0
    → paginate {E = E} (x ∷ xs) pagination ≡ panic
unfolding paginate page
paginate-take_zero x xs pagination e =
    let index : usize (pagination.page * pagination.take) ≡ 0 =
      rw e (let z : usize (pagination.page * 0) ≡ 0 = omega arith in z) in
    ground (arith, index, e)
