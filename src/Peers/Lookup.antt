-- ===== src/Peers/Lookup.antt =====
-- Which peers are trusted after the requests that write their table.
use sensei.Prelude.{
  ◌≡◌, refl, sym, ap, ◌∙◌, Bool, true, false, not, none, some, List, [], ◌∷◌, ◌++◌, Text, ◌=text◌,
  =text_iff, =text_swap, ok, find, any, select, arith, Bool-cases, Option-cases, inl, inr,
  if◌then◌else◌,
}
use sensei.Sql.{Table, IsTable}
use sensei.Sql.Laws.{put, any-find, find_sound, update_key, find-select_self, find-select_apart}
use sensei.Sql.Keyed.{find-put_key, find-append_key}
use sensei.Peers.{
  PeerRow, same_peer, by_pubkey, find_peer, add_known_peer, delete_peer, label_peer, known_peer,
}

-- Whether the peer is known, with channels without confirmation.
abbrev pub trusted : Text → Text → List PeerRow → Bool
trusted node_id pubkey rows = elim (find (by_pubkey node_id pubkey) rows) [
  | some peer ↦ peer.zero_conf
  | none ↦ false
]

by_pubkey_apart :
    (node_id p k : Text) (r : PeerRow)
    → (p =text k) ≡ false
    → by_pubkey node_id p r ≡ true
    → by_pubkey node_id k r ≡ false
by_pubkey_apart node_id p k r e hit =
    ground (arith, =text_iff p k, =text_iff r.pubkey p, =text_iff r.pubkey k)

by_pubkey_key :
    (node_id p : Text) (r : PeerRow)
    → by_pubkey node_id p r ≡ true
    → same_peer r ≡ by_pubkey node_id p
by_pubkey_key node_id p r hit =
    let same_node : r.node_id ≡ node_id = ground (arith, =text_iff r.node_id node_id) in
    let same_key : r.pubkey ≡ p = ground (arith, =text_iff r.pubkey p) in
    λ i. by_pubkey (same_node i) (same_key i)

module _ (t : Table PeerRow) (law : IsTable same_peer true t) (node_id : Text) where
  trusted-put :
      (p k : Text) (row : PeerRow) (rows : List PeerRow) (old : PeerRow)
      → by_pubkey node_id p row ≡ true
      → find (by_pubkey node_id p) rows ≡ some old
      → trusted node_id k (put (by_pubkey node_id p) row rows)
        ≡ (if p =text k then row.zero_conf else trusted node_id k rows)
  trusted-put p k row rows old own e =
      ground
        (arith, find-put_key (by_pubkey node_id) (by_pubkey_apart node_id) p k row old rows e own)

  trusted-append :
      (p k : Text) (row : PeerRow) (rows : List PeerRow)
      → by_pubkey node_id p row ≡ true
      → find (by_pubkey node_id p) rows ≡ none
      → trusted node_id k (rows ++ row ∷ [])
        ≡ (if p =text k then row.zero_conf else trusted node_id k rows)
  trusted-append p k row rows own e =
      ground
        (arith, find-append_key (by_pubkey node_id) (by_pubkey_apart node_id) p k row rows e own)

  pub trusted-add_known_peer :
      (pubkey label : Text) (zero_conf : Bool) (k : Text) (rows : List PeerRow)
      → trusted node_id k (add_known_peer t node_id pubkey label zero_conf rows).1
        ≡ (if pubkey =text k then zero_conf else trusted node_id k rows)
  unfolding add_known_peer find_peer
  trusted-add_known_peer pubkey label zero_conf k rows =
      let look = law.one_lem (by_pubkey node_id pubkey) rows in
      let own : by_pubkey node_id pubkey (known_peer t node_id pubkey label zero_conf) ≡ true =
        ground (arith, =text_iff node_id node_id, =text_iff pubkey pubkey) in
      elim (Option-cases (find (by_pubkey node_id pubkey) rows)) [
        | inl e ↦
            let row = known_peer t node_id pubkey label zero_conf in
            let key = by_pubkey_key node_id pubkey row own in
            let fresh : any (same_peer row) rows ≡ false =
              ap (λ q. any q rows) key ∙ any-find (by_pubkey node_id pubkey) rows ∙ (rw e refl) in
            let run : (add_known_peer t node_id pubkey label zero_conf rows).1 ≡ rows ++ row ∷ [] =
              ground (arith, look, e, law.insert_lem row rows, fresh) in
            rw run (trusted-append pubkey k row rows own e)
        | inr (r, e) ↦
            let hit = find_sound (by_pubkey node_id pubkey) rows r e in
            let row = record r { label = some label; zero_conf = zero_conf } in
            let done =
              update_key same_peer true t (by_pubkey node_id pubkey) r row rows law e
                (by_pubkey_key node_id pubkey r hit) in
            let run : (add_known_peer t node_id pubkey label zero_conf rows).1
                ≡ put (by_pubkey node_id pubkey) row rows =
              ground (arith, look, e, done) in
            rw run (trusted-put pubkey k row rows r hit e)
      ]

  trusted_gone :
      (p k : Text) (rows rows' : List PeerRow)
      → find (by_pubkey node_id p) rows' ≡ none
      → ((p =text k) ≡ false → find (by_pubkey node_id k) rows' ≡ find (by_pubkey node_id k) rows)
      → trusted node_id k rows' ≡ (if p =text k then false else trusted node_id k rows)
  trusted_gone p k rows rows' gone rest = elim (Bool-cases (p =text k)) [
    | inl same ↦
        let pk : p ≡ k = ground (arith, =text_iff p k) in
        let missing : find (by_pubkey node_id k) rows' ≡ none =
          ap (λ j. find (by_pubkey node_id j) rows') (sym pk) ∙ gone in
        ground (arith, same, missing)
    | inr apart ↦ ground (arith, apart, rest apart)
  ]

  pub trusted-delete_peer :
      (pubkey k : Text) (rows : List PeerRow)
      → trusted node_id k (delete_peer t node_id pubkey rows).1
        ≡ (if pubkey =text k then false else trusted node_id k rows)
  unfolding delete_peer find_peer
  trusted-delete_peer pubkey k rows =
      let look = law.one_lem (by_pubkey node_id pubkey) rows in
      elim (Option-cases (find (by_pubkey node_id pubkey) rows)) [
        | inl e ↦
            let run : (delete_peer t node_id pubkey rows).1 ≡ rows = ground (arith, look, e) in
            rw run (trusted_gone pubkey k rows rows e (λ _. refl))
        | inr (r, e) ↦
            let key =
              by_pubkey_key node_id pubkey r (find_sound (by_pubkey node_id pubkey) rows r e) in
            let left : List PeerRow = select (λ x. not (by_pubkey node_id pubkey x)) rows in
            let run : (delete_peer t node_id pubkey rows).1 ≡ left =
              deleted r look e ∙ ap (λ (q : PeerRow → Bool). select (λ x. not (q x)) rows) key in
            rw run (
              trusted_gone pubkey k rows left
                (find-select_self (by_pubkey node_id pubkey) (by_pubkey node_id pubkey) rows
                  (λ x hit. hit))
                (λ apart.
                  find-select_apart (by_pubkey node_id k) (by_pubkey node_id pubkey) rows
                    (λ x. by_pubkey_apart node_id k pubkey x (=text_swap k pubkey ∙ apart))))
      ]
    where
      deleted :
          (r : PeerRow)
          → t.one (by_pubkey node_id pubkey) rows ≡ ok (find (by_pubkey node_id pubkey) rows)
          → find (by_pubkey node_id pubkey) rows ≡ some r
          → (delete_peer t node_id pubkey rows).1 ≡ select (λ x. not (same_peer r x)) rows
      deleted r look e = ground (arith, look, e, law.delete_lem r rows)

  -- A label is not looked at.
  pub trusted-label_peer :
      (pubkey label k : Text) (rows : List PeerRow)
      → trusted node_id k (label_peer t node_id pubkey label rows).1 ≡ trusted node_id k rows
  unfolding label_peer find_peer
  trusted-label_peer pubkey label k rows =
      let look = law.one_lem (by_pubkey node_id pubkey) rows in
      elim (Option-cases (find (by_pubkey node_id pubkey) rows)) [
        | inl e ↦ ground (arith, look, e)
        | inr (r, e) ↦
            let hit = find_sound (by_pubkey node_id pubkey) rows r e in
            let row = record r { label = some label } in
            let done =
              update_key same_peer true t (by_pubkey node_id pubkey) r row rows law e
                (by_pubkey_key node_id pubkey r hit) in
            let run : (label_peer t node_id pubkey label rows).1
                ≡ put (by_pubkey node_id pubkey) row rows =
              ground (arith, look, e, done) in
            rw run (trusted-put pubkey k row rows r hit e ∙ kept r e)
      ]
    where
      kept :
          (r : PeerRow)
          → find (by_pubkey node_id pubkey) rows ≡ some r
          → (if pubkey =text k then r.zero_conf else trusted node_id k rows)
            ≡ trusted node_id k rows
      kept r e = elim (Bool-cases (pubkey =text k)) [
        | inl same ↦
            let pk : pubkey ≡ k = ground (arith, =text_iff pubkey k) in
            let found : find (by_pubkey node_id k) rows ≡ some r =
              ap (λ j. find (by_pubkey node_id j) rows) (sym pk) ∙ e in
            ground (arith, same, found)
        | inr apart ↦ rw apart refl
      ]
