-- ===== src/Persist/Names.antt =====
-- Which channel monitors are read from the store.
use sensei.Prelude.{
  ℕ, ◌≡◌, refl, ap, ◌∙◌, Bool, true, false, ◌||◌, Option, none, some, List, [], ◌∷◌, ◌++◌, Text,
  =text_iff, Outcome, ok, err, panic, or_err, expect_some, ◌>>=◌, bind_ok, any, leb, ltb, take,
  drop, length, arith, Bool-cases, inl, inr, ◌↔◌, if◌then◌else◌,
}
use sensei.Text.{codes}
use sensei.Persist.{
  KvStore, StoreError, Monitors, ends_with, parse_u16, read_stored, placed, invalid_tx_id,
  invalid_tx_index, undecodable, read_channelmonitor, read_each, read_channelmonitors,
}

module _ {S Monitor : Type 0} (store : KvStore S) (ms : Monitors Monitor) (s : S) where
  -- A name that is looked at: it is ASCII, and has room for a transaction id and more.
  abbrev pub is_named : Text → Bool
  is_named f = if any (λ c. leb 128 c) f || ltb (length f) 65 then false else true

  -- The monitor of a file is stored under its own outpoint.
  pub record IsStored (f : Text) (m : Monitor) : Type 0 where
    pub contents : Text
    pub found : store.read (codes "monitors/" ++ f) s ≡ ok (some contents)
    pub decoded : ms.read_monitor contents ≡ some m
    pub txid : ms.from_hex (take 64 f) ≡ some (ms.get_funding_txo m).0
    pub index : parse_u16 (drop 65 f) ≡ some (ms.get_funding_txo m).1

  -- What is read of a directory.
  pub data Loaded : List Text → List Monitor → Type 0 where
    empty : Loaded [] []
    skips :
        (f : Text) (fs : List Text) (res : List Monitor)
        → is_named f ≡ true
        → ends_with (codes ".tmp") f ≡ true
        → Loaded fs res
        → Loaded (f ∷ fs) res
    loads :
        (f : Text) (m : Monitor) (fs : List Text) (res : List Monitor)
        → is_named f ≡ true
        → ends_with (codes ".tmp") f ≡ false
        → IsStored f m
        → Loaded fs res
        → Loaded (f ∷ fs) (m ∷ res)

  or_err_ok : {A : Type 0} (e : StoreError) (o : Option A) (a : A) → or_err e o ≡ ok a → o ≡ some a
  or_err_ok e none a run = absurd (ground (arith, run))
  or_err_ok e (some b) a run = ground (arith, run)

  expect_some_ok :
      {A : Type 0} (o : Option A) (a : A) → expect_some {E = StoreError} o ≡ ok a → o ≡ some a
  expect_some_ok none a run = absurd (ground (arith, run))
  expect_some_ok (some b) a run = ground (arith, run)

  placed_lem :
      (txid : Text) (index : ℕ) (monitor m : Monitor)
      → placed store ms txid index monitor ≡ ok m
      → (monitor ≡ m)
        × (txid ≡ (ms.get_funding_txo monitor).0)
        × (index ≡ (ms.get_funding_txo monitor).1)
  unfolding placed
  placed_lem txid index monitor m run = (
    ground (arith, run),
    ground (arith, run, =text_iff (ms.get_funding_txo monitor).0 txid),
    ground (arith, run),
  )

  read_stored-IsStored : (f : Text) (m : Monitor) → read_stored store ms f s ≡ ok m → IsStored f m
  unfolding read_stored placed
  read_stored-IsStored f m run =
      let (txid, e1, run1) =
        bind_ok (or_err invalid_tx_id (ms.from_hex (take 64 f)))
          (λ txid. (or_err invalid_tx_index (parse_u16 (drop 65 f))) >>= λ index.
            store.read (codes "monitors/" ++ f) s >>= λ found. expect_some found >>= λ contents.
            or_err undecodable (ms.read_monitor contents) >>= λ monitor.
            placed store ms txid index monitor)
          m run in
      let (index, e2, run2) =
        bind_ok (or_err invalid_tx_index (parse_u16 (drop 65 f)))
          (λ index. store.read (codes "monitors/" ++ f) s >>= λ found.
            expect_some found >>= λ contents.
            or_err undecodable (ms.read_monitor contents) >>= λ monitor.
            placed store ms txid index monitor)
          m run1 in
      let (found, e3, run3) =
        bind_ok (store.read (codes "monitors/" ++ f) s)
          (λ found. expect_some found >>= λ contents.
            or_err undecodable (ms.read_monitor contents) >>= λ monitor.
            placed store ms txid index monitor)
          m run2 in
      let (contents, e4, run4) =
        bind_ok (expect_some found)
          (λ contents. or_err undecodable (ms.read_monitor contents) >>= λ monitor.
            placed store ms txid index monitor)
          m run3 in
      let (monitor, e5, run5) =
        bind_ok (or_err undecodable (ms.read_monitor contents))
          (λ monitor. placed store ms txid index monitor) m run4 in
      let (same, own_txid, own_index) = placed_lem txid index monitor m run5 in
      rw (← same) (record {
        contents = contents;
        found = e3 ∙ ap (λ o. ok o) (expect_some_ok found contents e4);
        decoded = or_err_ok undecodable (ms.read_monitor contents) monitor e5;
        txid = or_err_ok invalid_tx_id (ms.from_hex (take 64 f)) txid e1 ∙ ap some own_txid;
        index = or_err_ok invalid_tx_index (parse_u16 (drop 65 f)) index e2 ∙ ap some own_index;
      })

  IsStored-read_stored : (f : Text) (m : Monitor) → IsStored f m → read_stored store ms f s ≡ ok m
  unfolding read_stored placed
  IsStored-read_stored f m h = ground (
    arith,
    h.txid,
    h.index,
    h.found,
    h.decoded,
    =text_iff (ms.get_funding_txo m).0 (ms.get_funding_txo m).0,
  )

  -- The first of the files, where it is not passed over.
  one :
      (f : Text) (fs : List Text) (res : List Monitor)
      → is_named f ≡ true
      → ends_with (codes ".tmp") f ≡ false
      → read_each store ms (f ∷ fs) s ≡ ok res
      → (read_stored store ms f s >>= λ m. read_each store ms fs s >>= λ rest. ok (m ∷ rest))
        ≡ ok res
  unfolding read_each read_channelmonitor
  one f fs res named whole run =
      joined (read_stored store ms f s) (ground (arith, run, named, whole))
    where
      joined :
          (r : Outcome StoreError Monitor)
          → ((r >>= λ m. ok (some m)) >>= λ found. read_each store ms fs s >>= λ rest.
              ok (elim found [ some m ↦ m ∷ rest | none ↦ rest ]))
            ≡ ok res
          → (r >>= λ m. read_each store ms fs s >>= λ rest. ok (m ∷ rest)) ≡ ok res
      joined (ok m) h = h
      joined (err e) h = absurd (ground (arith, h))
      joined panic h = absurd (ground (arith, h))

  read_each-Loaded :
      (fs : List Text) (res : List Monitor) → read_each store ms fs s ≡ ok res → Loaded fs res
  unfolding read_each read_channelmonitor
  read_each-Loaded [] res run = let same : [] ≡ res = ground (arith, run) in rw (← same) empty
  read_each-Loaded (f ∷ fs) res run = elim (Bool-cases (is_named f)) [
    | inr bad ↦ absurd (ground (arith, run, bad))
    | inl named ↦ elim (Bool-cases (ends_with (codes ".tmp") f)) [
      | inl tmp ↦
          let (rest, e, last) =
            bind_ok (read_each store ms fs s) (λ rest. ok rest) res
              (ground (arith, run, named, tmp)) in
          let same : rest ≡ res = ground (arith, last) in
          skips f fs res named tmp (read_each-Loaded fs res (e ∙ ap (λ r. ok r) same))
      | inr whole ↦
          let (m, e, run1) =
            bind_ok (read_stored store ms f s)
              (λ m. read_each store ms fs s >>= λ rest. ok (m ∷ rest)) res
              (one f fs res named whole run) in
          let (rest, e', last) =
            bind_ok (read_each store ms fs s) (λ rest. ok (m ∷ rest)) res run1 in
          let same : m ∷ rest ≡ res = ground (arith, last) in
          rw (← same) (
            loads f m fs rest named whole (read_stored-IsStored f m e)
              (read_each-Loaded fs rest e'))
    ]
  ]

  Loaded-read_each :
      (fs : List Text) (res : List Monitor) → Loaded fs res → read_each store ms fs s ≡ ok res
  unfolding read_each read_channelmonitor
  Loaded-read_each _ _ empty = refl
  Loaded-read_each _ _ (skips f fs res named tmp rest) =
      ground (arith, named, tmp, Loaded-read_each fs res rest)
  Loaded-read_each _ _ (loads f m fs res named whole stored rest) =
      ground (arith, named, whole, IsStored-read_stored f m stored, Loaded-read_each fs res rest)

  -- For a store that lists the names `fs` under the monitors: they are read with the result `res`
  -- exactly when each name is ASCII of 65 bytes or more, and `res` has, in the order of the names, the
  -- monitor of each file whose name does not end in `.tmp`, which is stored under its own outpoint.
  pub read_channelmonitors-Loaded :
      (fs : List Text) (res : List Monitor)
      → store.list (codes "monitors") s ≡ ok fs
      → (read_channelmonitors store ms s ≡ ok res) ↔ Loaded fs res
  unfolding read_channelmonitors
  read_channelmonitors-Loaded fs res e = (
    λ run. read_each-Loaded fs res (ground (arith, e, run)),
    λ loaded. ground (arith, e, Loaded-read_each fs res loaded),
  )
