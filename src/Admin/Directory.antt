-- ===== src/Admin/Directory.antt =====
-- The directory of running nodes: starting, stopping, and a start that fails.
use sensei.Prelude.{
  ◌≡◌, refl, ap, ◌∙◌, Bool, true, Option, none, some, List, Text, ◌=text◌, =text_iff, any, find, ok,
  err, arith, if◌then◌else◌,
}
use sensei.Maps.{lookup, insert, lookup-insert, lookup-remove}
use sensei.Sql.{IsTable}
use sensei.Sql.Laws.{put, find-put, any-find}
use sensei.Admin.{
  AdminService, Backend, NodeRow, running, Error, stored, start_node, stop_node, enter_handle,
  update_node, is_root,
}

-- Two rows are of the same node.
abbrev pub same_id : NodeRow → NodeRow → Bool
same_id a b = b.id =text a.id

module _ {Handle : Type 0} (b : Backend Handle) where
  -- A node that is in the directory is not started again.
  started_before :
      (node : NodeRow) (passphrase : Text) (s : AdminService Handle) (entry : Option Handle)
      → lookup node.pubkey s.node_directory ≡ some entry
      → start_node b node passphrase s ≡ (ok tt, s)
  unfolding start_node
  started_before node passphrase s entry e = ground (arith, e)

  failed :
      (node : NodeRow) (passphrase : Text) (s : AdminService Handle) (e : Error)
      → lookup node.pubkey s.node_directory ≡ none
      → b.new_node node passphrase ≡ err e
      → start_node b node passphrase s
        ≡ (err e, record s { node_directory = insert node.pubkey none s.node_directory })
  unfolding start_node
  failed node passphrase s e vacant fails = ground (arith, vacant, fails)

  -- A node that is not in the directory and whose start fails is left there without a handle: each later
  -- start of it succeeds and does nothing, until it is stopped.
  pub start_node-failed :
      (node : NodeRow) (first later : Text) (s : AdminService Handle) (e : Error)
      → lookup node.pubkey s.node_directory ≡ none
      → b.new_node node first ≡ err e
      → let (r, s') = start_node b node first s in
        (r ≡ err e)
        × (start_node b node later s' ≡ (ok tt, s'))
        × (lookup node.pubkey s'.node_directory ≡ some none)
  start_node-failed node first later s e vacant fails =
      let starting : Option Handle = none in
      let placed : lookup node.pubkey (insert node.pubkey none s.node_directory) ≡ some none =
        ground (
          arith,
          lookup-insert node.pubkey node.pubkey starting s.node_directory,
          =text_iff node.pubkey node.pubkey,
        ) in
      rw (failed node first s e vacant fails)
        (refl, started_before node later _ none placed, placed)

  -- After `stop_node` the node is out of the directory, and every other node is where it was.
  pub stop_node-lookup :
      (pubkey other : Text) (s : AdminService Handle)
      → lookup other (stop_node b pubkey s).1.node_directory
        ≡ (if pubkey =text other then none else lookup other s.node_directory)
  unfolding stop_node
  stop_node-lookup pubkey other s = lookup-remove pubkey other s.node_directory

  module _ (law : IsTable same_id true b.node) where
    update_run :
        (node : NodeRow) (s : AdminService Handle)
        → any (same_id node) s.nodes ≡ true
        → update_node b node s ≡ (ok tt, record s { nodes = put (same_id node) node s.nodes })
    unfolding update_node
    update_run node s present =
        let law' : b.node.update node s.nodes ≡ ok (put (same_id node) node s.nodes) =
          law.update_lem node s.nodes ∙ (rw (present, if◌then◌else◌)) in
        ap (λ r. stored r (λ rows. record s { nodes = rows }) s) law'

    find-put_self :
        (node : NodeRow) (nodes : List NodeRow)
        → any (same_id node) nodes ≡ true
        → find (same_id node) (put (same_id node) node nodes) ≡ some node
    find-put_self node nodes present = ground (
      arith,
      find-put (same_id node) node nodes,
      any-find (same_id node) nodes,
      =text_iff node.id node.id,
    )

    start_run :
        (node : NodeRow) (passphrase : Text) (s : AdminService Handle) (handle : Handle)
        → lookup node.pubkey s.node_directory ≡ none
        → any (same_id node) s.nodes ≡ true
        → b.new_node node passphrase ≡ ok handle
        → let up = record node { status = running; listen_addr = b.config.api_host } in
          start_node b node passphrase s ≡ (
            ok tt,
            record s {
              graph = if is_root node.role then some handle else s.graph;
              node_directory =
                  insert node.pubkey (some handle) (insert node.pubkey none s.node_directory);
              nodes = put (same_id up) up s.nodes;
            },
          )
    unfolding start_node enter_handle
    start_run node passphrase s handle vacant present works =
        let up = record node { status = running; listen_addr = b.config.api_host } in
        let s₁ : AdminService Handle = record s {
          graph = if is_root node.role then some handle else s.graph;
          node_directory =
              insert node.pubkey (some handle) (insert node.pubkey none s.node_directory);
        } in
        let starting : Option Handle = none in
        let placed = lookup-insert node.pubkey node.pubkey starting s.node_directory in
        let written = update_run up s₁ present in
        ground (arith, vacant, works, placed, written, =text_iff node.pubkey node.pubkey)

    -- For a node that is not in the directory, whose row is in the table and whose start works: the
    -- directory then has its handle, the other nodes are where they were, and its row says running, at
    -- the address of the configuration.
    start_node-succeeds :
        (node : NodeRow) (passphrase : Text) (s : AdminService Handle) (handle : Handle)
        → lookup node.pubkey s.node_directory ≡ none
        → any (same_id node) s.nodes ≡ true
        → b.new_node node passphrase ≡ ok handle
        → let (r, s') = start_node b node passphrase s in
          (r ≡ ok tt)
          × ((other : Text)
              → lookup other s'.node_directory ≡ (
                  if node.pubkey =text other
                  then some (some handle)
                  else lookup other s.node_directory))
          × (find (same_id node) s'.nodes
              ≡ some (record node { status = running; listen_addr = b.config.api_host }))
    start_node-succeeds node passphrase s handle vacant present works =
        let up = record node { status = running; listen_addr = b.config.api_host } in
        let starting : Option Handle = none in
        let running_now : Option Handle = some handle in
        rw (start_run node passphrase s handle vacant present works) (
          refl,
          (λ other. ground (
            arith,
            lookup-insert node.pubkey other running_now (insert node.pubkey none s.node_directory),
            lookup-insert node.pubkey other starting s.node_directory,
          )),
          find-put_self up s.nodes present,
        )
