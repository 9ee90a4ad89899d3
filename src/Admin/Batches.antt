-- ===== src/Admin/Batches.antt =====
-- The ports of the nodes that a batch creates (senseicore/src/services/admin.rs).
use sensei.Prelude.{
  ℕ, ◌≡◌, refl, ap, subst, Bool, true, List, [], ◌∷◌, ◌++◌, map, All, Outcome, ok, err, panic,
  arith,
}
use sensei.State.{◌>>=◌, ◌>>◌, pure, lift}
use sensei.Sql.{IsTable, DbErr}
use sensei.Auth.{NodeCreateInfo}
use sensei.Admin.{AdminService, Backend, Generated, NodeRow, SeedRow, MacaroonRow, Error, stored}
use sensei.Admin.Batch.{
  Batches, Built, build_each, unwrap_each, batch_create_nodes, insert_nodes, insert_seeds,
  insert_macaroons, insert_all,
}
use sensei.Admin.Ports.{AreFree, HasFreePorts, AreFree-snoc, after-bind}
use sensei.Admin.Builds.{IsApart, build_each-Ends, unwrapped-IsApart}

append_nil : (nodes : List NodeRow) → nodes ++ [] ≡ nodes
append_nil [] = refl
append_nil (n ∷ nodes) = ap (λ xs. n ∷ xs) (append_nil nodes)

append_snoc :
    (nodes : List NodeRow) (n : NodeRow) (more : List NodeRow)
    → (nodes ++ n ∷ []) ++ more ≡ nodes ++ n ∷ more
append_snoc [] n more = refl
append_snoc (x ∷ nodes) n more = ap (λ xs. x ∷ xs) (append_snoc nodes n more)

AreFree-append :
    (nodes more : List NodeRow) (ports : List ℕ)
    → All (IsApart ports) more
    → AreFree nodes ports
    → AreFree (nodes ++ more) ports
AreFree-append nodes [] ports out free = rw (append_nil nodes) free
AreFree-append nodes (n ∷ more) ports out free =
    let next =
      AreFree-append (nodes ++ n ∷ []) more ports out.1 (AreFree-snoc nodes n ports out.0 free) in
    subst (λ xs. AreFree xs ports) (append_snoc nodes n more) next

module _ {Handle : Type 0} (b : Backend Handle) (many : Batches)
    (appends : (more rows all : List NodeRow)
      → many.node more rows ≡ ok all
      → all ≡ rows ++ more) where
  nodes_stored :
      (more : List NodeRow) (s : AdminService Handle)
      → All (IsApart s.available_ports) more
      → HasFreePorts s
      → HasFreePorts (insert_nodes b many more s).1
  nodes_stored more s apart free = go (many.node more s.nodes) refl
    where
      go :
          (r : Outcome DbErr (List NodeRow))
          → many.node more s.nodes ≡ r
          → HasFreePorts (stored r (λ all. record s { nodes = all }) s).1
      go (ok rows) e =
          rw (appends more s.nodes rows e)
            (AreFree-append s.nodes more s.available_ports apart free)
      go (err x) e = free
      go panic e = free

  rest_stored :
      (nodes : List NodeRow) (seeds : List SeedRow) (macaroons : List MacaroonRow)
      (s : AdminService Handle)
      → HasFreePorts s
      → HasFreePorts
          ((insert_seeds b many seeds >> (insert_macaroons b many macaroons >> pure nodes)) s).1
  rest_stored nodes seeds macaroons s free = ground (arith, free)

  inserted :
      (built : List Built) (s : AdminService Handle)
      → HasFreePorts s
      → All (IsApart s.available_ports) (map (λ x. x.0) built)
      → HasFreePorts (insert_all b many built s).1
  inserted built s free apart =
      let nodes = map (λ (x : Built). x.0) built in
      let seeds = map (λ (x : Built). x.1.0) built in
      let macaroons = map (λ (x : Built). x.1.1) built in
      let done = nodes_stored nodes s apart free in
      after-bind HasFreePorts (insert_nodes b many nodes)
        (λ _. insert_seeds b many seeds >> (insert_macaroons b many macaroons >> pure nodes)) s done
        (λ _ went. rest_stored nodes seeds macaroons (insert_nodes b many nodes s).1 done)

  module _ {same : NodeRow → NodeRow → Bool} (law : IsTable same true b.node) where
    -- For an `insert_many` that appends the rows when it works: whether a batch of nodes is made, or an
    -- error or a panic cuts it short at any place, the ports that are left in the queue are no node's
    -- and different from each other, as they were before.
    pub batch_create_nodes-AreFree :
        (completed : List (NodeCreateInfo × Outcome Error Generated)) (s : AdminService Handle)
        → AreFree s.nodes s.available_ports
        → let s' = (batch_create_nodes b many completed s).1 in AreFree s'.nodes s'.available_ports
    unfolding batch_create_nodes
    batch_create_nodes-AreFree completed s free =
        let ends = build_each-Ends b law completed s free in
        let s' = (build_each b completed s).1 in
        after-bind HasFreePorts (build_each b completed)
          (λ results. lift (unwrap_each results) >>= insert_all b many) s ends.0
          (λ results went.
            after-bind HasFreePorts (lift (unwrap_each results)) (insert_all b many) s' ends.0
              (λ built unwrapped. inserted built s' ends.0 (
                unwrapped-IsApart s'.available_ports results built (ends.1 results went)
                  unwrapped)))
