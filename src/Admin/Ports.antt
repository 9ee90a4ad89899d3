-- ===== src/Admin/Ports.antt =====
-- The ports that nodes get: none is given out twice.
use sensei.Prelude.{
  ℕ, zero, suc, ◌+◌, ◌-◌, ◌==◌, ◌≡◌, refl, Bool, true, false, not, ◌&&◌, ◌||◌, List, [], ◌∷◌, ◌++◌,
  Text, any, select, ltb, leb, Outcome, ok, err, panic, arith, Bool-cases, inl, inr,
}
use sensei.Sql.{IsTable, DbErr}
use sensei.Admin.{
  AdminService, Backend, Generated, NodeRow, SeedRow, MacaroonRow, default, SenseiConfig, Error,
  range, list_ports_in_use, new_available_ports, Service, stored, pop_port, listen_port_of,
  build_node, create_node, insert_seed, insert_macaroon, insert_node, ◌>>=◌, ◌>>◌, pure,
}

abbrev pub has : ℕ → List ℕ → Bool
has port ports = any (λ p. p == port) ports

has-range : (min n p : ℕ) → has p (range min n) ≡ (leb min p && ltb p (min + n))
unfolding range
has-range min zero p = ground arith
has-range min (suc n) p = ground (arith, has-range (min + 1) n p)

has-select : (q : ℕ → Bool) (p : ℕ) (ports : List ℕ) → has p (select q ports) ≡ (has p ports && q p)
has-select q p [] = refl
has-select q p (x ∷ ports) = elim (Bool-cases (x == p)) [
  | inl same ↦ (let e : x ≡ p = ground arith in rw e (ground (arith, has-select q p ports)))
  | inr apart ↦ ground (arith, has-select q p ports)
]

-- The queue of a new service holds exactly the ports from the lower bound of the range on and below
-- the upper one, which no node uses.
new_available_ports-has :
    (config : SenseiConfig) (nodes : List NodeRow) (port : ℕ)
    → has port (new_available_ports config nodes) ≡ (
        (leb config.port_range_min port && ltb port config.port_range_max)
        && not (has port (list_ports_in_use nodes)))
unfolding new_available_ports
new_available_ports-has config nodes port = ground (
  arith,
  has-select (λ p. not (has p (list_ports_in_use nodes))) port
      (range config.port_range_min (config.port_range_max - config.port_range_min)),
  has-range config.port_range_min (config.port_range_max - config.port_range_min) port,
)

-- No port of the queue stands there twice, or is used by a node.
abbrev pub uses : ℕ → NodeRow → Bool
uses port node = node.listen_port == port

unfoldable pub AreFree : List NodeRow → List ℕ → Type 0
AreFree nodes [] = Unit
AreFree nodes (p ∷ ports) =
    (any (uses p) nodes ≡ false) × ((has p ports ≡ false) × AreFree nodes ports)

any-snoc :
    (q : NodeRow → Bool) (nodes : List NodeRow) (n : NodeRow)
    → any q (nodes ++ n ∷ []) ≡ (any q nodes || q n)
any-snoc q [] n = ground arith
any-snoc q (x ∷ nodes) n = ground (arith, any-snoc q nodes n)

pub AreFree-snoc :
    (nodes : List NodeRow) (n : NodeRow) (ports : List ℕ)
    → has n.listen_port ports ≡ false
    → AreFree nodes ports
    → AreFree (nodes ++ n ∷ []) ports
unfolding AreFree
AreFree-snoc nodes n [] apart h = tt
AreFree-snoc nodes n (p ∷ ports) apart h = (
  ground (arith, h.0, any-snoc (uses p) nodes n),
  (h.1.0, AreFree-snoc nodes n ports (ground arith) h.1.1),
)

after-result :
    {Handle A B : Type 0} (P : AdminService Handle → Type 0) (r : Outcome Error A)
    (s' : AdminService Handle) (k : A → Service Handle B) (s : AdminService Handle)
    → P s'
    → ((a : A) → r ≡ ok a → P (k a s').1)
    → P (((λ (s : AdminService Handle). (r, s')) >>= k) s).1
after-result P (ok a) s' k s before through = through a refl
after-result P (err e) s' k s before through = before
after-result P panic s' k s before through = before

-- What an action leaves, and what follows leaves after it, if it goes through.
pub after-bind :
    {Handle A B : Type 0} (P : AdminService Handle → Type 0) (m : Service Handle A)
    (k : A → Service Handle B) (s : AdminService Handle)
    → P (m s).1
    → ((a : A) → (m s).0 ≡ ok a → P (k a (m s).1).1)
    → P ((m >>= k) s).1
after-bind P m k s before through = after-result P (m s).0 (m s).1 k s before through

-- The service's nodes and its queue, as the invariant sees them.
abbrev pub HasFreePorts : {Handle : Type 0} → AdminService Handle → Type 0
HasFreePorts s = AreFree s.nodes s.available_ports

module _ {Handle : Type 0} (b : Backend Handle) {same : NodeRow → NodeRow → Bool}
    (law : IsTable same true b.node) where
  -- The row goes in, or the table refuses it.
  insert-AreFree :
      (n : NodeRow) (s : AdminService Handle) (rows : List NodeRow)
      → has n.listen_port s.available_ports ≡ false
      → AreFree s.nodes s.available_ports
      → b.node.insert n s.nodes ≡ ok rows
      → AreFree rows s.available_ports
  insert-AreFree n s rows apart free e = elim (Bool-cases (any (same n) s.nodes)) [
    | inl taken ↦ absurd (ground (arith, law.insert_lem n s.nodes))
    | inr new ↦
        let r : rows ≡ s.nodes ++ n ∷ [] = ground (arith, law.insert_lem n s.nodes) in
        rw r (AreFree-snoc s.nodes n s.available_ports apart free)
  ]

  -- The port that is taken off the queue is free, and so are those that are left.
  pub at_port :
      (username alias : Text) (generated : Outcome Error Generated) (s : AdminService Handle)
      (ports : List ℕ)
      → s.available_ports ≡ ports
      → AreFree s.nodes ports
      → let (r, s') = build_node b username alias default generated s in
        HasFreePorts s'
        × ((made : NodeRow × (SeedRow × MacaroonRow))
            → r ≡ ok made
            → has made.0.listen_port s'.available_ports ≡ false)
  unfolding build_node listen_port_of pop_port AreFree
  at_port username alias generated s [] e free = rw e (free, λ made stuck. absurd (ground arith))
  at_port username alias (err x) s (p ∷ ports) e free =
      rw e (free.1.1, λ made stuck. absurd (ground arith))
  at_port username alias panic s (p ∷ ports) e free =
      rw e (free.1.1, λ made stuck. absurd (ground arith))
  at_port username alias (ok g) s (p ∷ ports) e free =
      rw e (free.1.1, λ made done. ground (arith, free.1.0))

  node_stored :
      (n : NodeRow) (s : AdminService Handle)
      → has n.listen_port s.available_ports ≡ false
      → HasFreePorts s
      → HasFreePorts (insert_node b n s).1
  unfolding insert_node
  node_stored n s apart free = by_outcome (b.node.insert n s.nodes) refl
    where
      by_outcome :
          (r : Outcome DbErr (List NodeRow))
          → b.node.insert n s.nodes ≡ r
          → HasFreePorts (stored r (λ rows. record s { nodes = rows }) s).1
      by_outcome (ok rows) e = insert-AreFree n s rows apart free e
      by_outcome (err x) e = free
      by_outcome panic e = free

  seed_same :
      (x : SeedRow) (s : AdminService Handle)
      → ((insert_seed b x s).1.nodes ≡ s.nodes)
        × ((insert_seed b x s).1.available_ports ≡ s.available_ports)
  unfolding insert_seed
  seed_same x s = ground arith

  macaroon_same :
      (x : MacaroonRow) (s : AdminService Handle)
      → ((insert_macaroon b x s).1.nodes ≡ s.nodes)
        × ((insert_macaroon b x s).1.available_ports ≡ s.available_ports)
  unfolding insert_macaroon
  macaroon_same x s = ground arith

  -- What the three inserts need, and keep: the port of the new node is not in the queue.
  abbrev IsApart : NodeRow → AdminService Handle → Type 0
  IsApart n s = HasFreePorts s × (has n.listen_port s.available_ports ≡ false)

  IsApart-same :
      (n : NodeRow) (s s' : AdminService Handle)
      → (s'.nodes ≡ s.nodes) × (s'.available_ports ≡ s.available_ports)
      → IsApart n s
      → IsApart n s'
  IsApart-same n s s' (e, f) h = rw (e, f) h

  last_insert :
      (n : NodeRow) (s : AdminService Handle)
      → IsApart n s
      → HasFreePorts ((insert_node b n >> pure n) s).1
  last_insert n s h =
      let done = node_stored n s h.1 h.0 in
      after-bind HasFreePorts (insert_node b n) (λ t. pure n) s done (λ t went. done)

  two_inserts :
      (n : NodeRow) (m : MacaroonRow) (s : AdminService Handle)
      → IsApart n s
      → HasFreePorts ((insert_macaroon b m >> (insert_node b n >> pure n)) s).1
  two_inserts n m s h =
      let kept = IsApart-same n s (insert_macaroon b m s).1 (macaroon_same m s) h in
      after-bind HasFreePorts (insert_macaroon b m) (λ t. insert_node b n >> pure n) s kept.0
        (λ t went. last_insert n (insert_macaroon b m s).1 kept)

  all_inserts :
      (n : NodeRow) (x : SeedRow) (m : MacaroonRow) (s : AdminService Handle)
      → IsApart n s
      → HasFreePorts ((insert_seed b x >> (insert_macaroon b m >> (insert_node b n >> pure n))) s).1
  all_inserts n x m s h =
      let kept = IsApart-same n s (insert_seed b x s).1 (seed_same x s) h in
      after-bind HasFreePorts (insert_seed b x)
        (λ t. insert_macaroon b m >> (insert_node b n >> pure n)) s kept.0
        (λ t went. two_inserts n m (insert_seed b x s).1 kept)

  -- For a node of the default role: whether it is made or an error or a panic cuts it short, the ports
  -- that are left in the queue are as before no node's, and different from each other.
  pub create_node-AreFree :
      (username alias : Text) (generated : Outcome Error Generated) (s : AdminService Handle)
      → AreFree s.nodes s.available_ports
      → let s' = (create_node b username alias default generated s).1 in
        AreFree s'.nodes s'.available_ports
  unfolding create_node
  create_node-AreFree username alias generated s free =
      let (left, apart) = at_port username alias generated s s.available_ports refl free in
      after-bind HasFreePorts (build_node b username alias default generated)
        (λ made.
          insert_seed b made.1.0
          >> (insert_macaroon b made.1.1 >> (insert_node b made.0 >> pure made.0)))
        s left
        (λ made done.
          all_inserts made.0 made.1.0 made.1.1 (build_node b username alias default generated s).1
            (left, apart made done))
