-- ===== src/Admin/Batch.antt =====
-- senseicore/src/services/admin.rs: the batch creation of nodes, the deletion of a node, and the requests
-- for access tokens.
use sensei.Prelude.{
  ℕ, none, some, ◌^◌, ltb, Bool, true, false, List, [], ◌∷◌, map, Text, Outcome, ok, err, panic,
  if◌then◌else◌,
}
use sensei.State.{◌>>=◌, ◌>>◌, pure, lift, unwrapped}
use sensei.Sql.{Table, DbErr}
use sensei.Auth.{AccessToken, NodeCreateInfo, delete_access_token}
use sensei.Auth.Create.{create_access_token}
use sensei.Admin.{
  AdminService, Backend, Generated, NodeRow, SeedRow, MacaroonRow, default, Error, generic, Service,
  build_node, start_node, stop_node, stored, get_node_by_pubkey,
}
use sensei.Admin.Requests.{Call}

-- `insert_many` of sea-orm on the three tables.
pub record Batches : Type 0 where
  pub node : List NodeRow → List NodeRow → Outcome DbErr (List NodeRow)
  pub seed : List SeedRow → List SeedRow → Outcome DbErr (List SeedRow)
  pub macaroon : List MacaroonRow → List MacaroonRow → Outcome DbErr (List MacaroonRow)

abbrev pub Built : Type 0
Built = NodeRow × (SeedRow × MacaroonRow)

-- The result of a build before those of the builds behind it, which leave the state `x.1`. Nothing is
-- built after a build that panics.
abbrev pub gathered :
    {Handle : Type 0}
    → Outcome Error Built × AdminService Handle
    → Outcome Error (List (Outcome Error Built)) × AdminService Handle
    → Outcome Error (List (Outcome Error Built)) × AdminService Handle
gathered (panic, s) x = (panic, s)
gathered (r, s) (ok others, s') = (ok (r ∷ others), s')
gathered (r, s) (err e, s') = (err e, s')
gathered (r, s) (panic, s') = (panic, s')

-- `built_result.unwrap()`
unfoldable pub unwrap_each : List (Outcome Error Built) → Outcome Error (List Built)
unwrap_each [] = ok []
unwrap_each (ok made ∷ rest) = elim (unwrap_each rest) [
  | ok others ↦ ok (made ∷ others)
  | err e ↦ err e
  | panic ↦ panic
]
unwrap_each (err e ∷ rest) = panic
unwrap_each (panic ∷ rest) = panic

module _ {Handle : Type 0} (b : Backend Handle) where
  -- All builds run to their ends, also when some of them fail; a build that panics ends them all.
  unfoldable pub build_each :
      List (NodeCreateInfo × Outcome Error Generated) → Service Handle (List (Outcome Error Built))
  build_each [] s = (ok [], s)
  build_each ((info, generated) ∷ rest) s =
      let (r, s') = build_node b info.username info.alias default generated s in
      gathered (r, s') (build_each rest s')

  module _ (many : Batches) where
    abbrev pub insert_nodes : List NodeRow → Service Handle (Unit {0})
    insert_nodes rows s = stored (many.node rows s.nodes) (λ all. record s { nodes = all }) s

    abbrev pub insert_seeds : List SeedRow → Service Handle (Unit {0})
    insert_seeds rows s = stored (many.seed rows s.seeds) (λ all. record s { seeds = all }) s

    abbrev pub insert_macaroons : List MacaroonRow → Service Handle (Unit {0})
    insert_macaroons rows s =
        stored (many.macaroon rows s.macaroons) (λ all. record s { macaroons = all }) s

    abbrev pub insert_all : List Built → Service Handle (List NodeRow)
    insert_all built = do
      insert_nodes (map (λ x. x.0) built)
      insert_seeds (map (λ x. x.1.0) built)
      insert_macaroons (map (λ x. x.1.1) built)
      pure (map (λ x. x.0) built)

    -- `completed` are the requests in the order in which their builds end, each with what is made for
    -- it.
    unfoldable pub batch_create_nodes :
        List (NodeCreateInfo × Outcome Error Generated) → Service Handle (List NodeRow)
    batch_create_nodes completed = do
      results ← build_each completed
      built ← lift (unwrap_each results)
      insert_all built

  -- `nodes_and_macaroons.iter().zip(nodes.iter())`: the nodes in the order of their builds beside the
  -- requests in their own order.
  unfoldable pub start_each : List NodeRow → List NodeCreateInfo → Service Handle (Unit {0})
  start_each [] infos = pure tt
  start_each (node ∷ nodes) [] = pure tt
  start_each (node ∷ nodes) (info ∷ infos) = do
    elim info.start [ true ↦ start_node b node info.passphrase | false ↦ pure tt ]
    start_each nodes infos

  -- The text of each macaroon, or `.unwrap()`.
  unfoldable pub with_macaroons :
      (NodeRow → Outcome Error Text) → List NodeRow → Outcome Error (List (NodeRow × Text))
  with_macaroons serialized [] = ok []
  with_macaroons serialized (node ∷ nodes) = elim (serialized node) [
    | ok macaroon ↦ elim (with_macaroons serialized nodes) [
      | ok rest ↦ ok ((node, macaroon) ∷ rest)
      | err e ↦ err e
      | panic ↦ panic
    ]
    | err e ↦ panic
    | panic ↦ panic
  ]

  -- The request `BatchCreateNode`, with the nodes and the macaroons of the response.
  unfoldable pub handle_batch_create_node :
      Batches
      → List NodeCreateInfo
      → List (NodeCreateInfo × Outcome Error Generated)
      → (NodeRow → Outcome Error Text)
      → Service Handle (List (NodeRow × Text))
  handle_batch_create_node many nodes completed serialized = do
    created ← batch_create_nodes many completed
    start_each created nodes
    lift (with_macaroons serialized created)

  -- The request `DeleteNode`, which deletes the directory of the node's files: `removed` is what
  -- `remove_dir_all` answers.
  unfoldable pub handle_delete_node :
      Text → (NodeRow → Outcome Error (Unit {0})) → Service Handle (Unit {0})
  handle_delete_node pubkey removed = do
    found ← get_node_by_pubkey b pubkey
    lift (elim found [ none ↦ err generic | some node ↦ removed node ])

-- The end of the service: the nodes of the directory are stopped one after another. What the chain
-- manager does then lies outside.
module _ {Handle : Type 0} (b : Backend Handle) where
  unfoldable pub stop_each : List Text → Service Handle (Unit {0})
  stop_each [] = pure tt
  stop_each (pubkey ∷ pubkeys) = do unwrapped (stop_node b pubkey); stop_each pubkeys

  unfoldable pub stop : Service Handle (Unit {0})
  unfolding stop_each
  stop s = stop_each (map (λ entry. entry.0) s.node_directory) s

-- The requests `CreateToken` and `DeleteToken`; the time has to fit into `i64`.
module _ {Handle : Type 0} (table : Table AccessToken) where
  unfoldable pub handle_create_token :
      List ℕ → Text → Text → ℕ → Text → Bool → Call Handle AccessToken
  handle_create_token token_bytes uuid name expires_at scope single_use (s, tokens) =
      if ltb expires_at (2 ^ 63)
      then (let (r, tokens') =
            create_access_token table token_bytes uuid name scope expires_at single_use tokens in
          (elim r [ ok t ↦ ok t | err e ↦ err generic | panic ↦ panic ], (s, tokens')))
      else (panic, (s, tokens))

  unfoldable pub handle_delete_token : Text → Call Handle (Unit {0})
  handle_delete_token id (s, tokens) = elim (delete_access_token table id tokens) [
    | ok tokens' ↦ (ok tt, (s, tokens'))
    | err e ↦ (err generic, (s, tokens))
    | panic ↦ (panic, (s, tokens))
  ]
