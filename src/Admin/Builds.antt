-- ===== src/Admin/Builds.antt =====
-- The ports of the nodes that a batch builds (senseicore/src/services/admin.rs).
use sensei.Prelude.{
  ℕ, ◌≡◌, refl, ap, subst, Bool, true, false, List, [], ◌∷◌, map, All, Text, Outcome, ok, err,
  panic, arith,
}
use sensei.Sql.{IsTable}
use sensei.Auth.{NodeCreateInfo}
use sensei.Admin.{
  AdminService, Backend, Generated, NodeRow, default, Error, build_node, pop_port, listen_port_of,
}
use sensei.Admin.Batch.{Built, build_each, gathered, unwrap_each}
use sensei.Admin.Ports.{has, HasFreePorts, at_port}

-- The port of a node that was built is not in the queue.
abbrev pub IsOut : List ℕ → Outcome Error Built → Type 0
IsOut ports (ok made) = has made.0.listen_port ports ≡ false
IsOut ports (err e) = Unit
IsOut ports panic = Unit

-- How the builds end: the queue is free, and the ports of the nodes that were built are not in it.
abbrev pub Ends :
    {Handle : Type 0} → Outcome Error (List (Outcome Error Built)) × AdminService Handle → Type 0
Ends x =
    HasFreePorts x.1
    × ((results : List (Outcome Error Built))
        → x.0 ≡ ok results
        → All (IsOut x.1.available_ports) results)

-- The results of a list that has ended.
abbrev results_of : Outcome Error (List (Outcome Error Built)) → List (Outcome Error Built)
results_of (ok results) = results
results_of (err e) = []
results_of panic = []

gathered-Ends :
    {Handle : Type 0} (r : Outcome Error Built) (s : AdminService Handle)
    (x : Outcome Error (List (Outcome Error Built)) × AdminService Handle)
    → HasFreePorts s
    → IsOut x.1.available_ports r
    → Ends x
    → Ends (gathered (r, s) x)
gathered-Ends panic s x free out h = (free, λ results stuck. absurd (ground (arith, stuck)))
gathered-Ends (ok made) s (ok others, s') free out h =
    let all : All (IsOut s'.available_ports) (ok made ∷ others) = (out, h.1 others refl) in
    (h.0, λ results e. subst (All (IsOut s'.available_ports)) (ap results_of e) all)
gathered-Ends (ok made) s (err e, s') free out h =
    (h.0, λ results stuck. absurd (ground (arith, stuck)))
gathered-Ends (ok made) s (panic, s') free out h =
    (h.0, λ results stuck. absurd (ground (arith, stuck)))
gathered-Ends (err e) s (ok others, s') free out h =
    let all : All (IsOut s'.available_ports) (err e ∷ others) = (tt, h.1 others refl) in
    (h.0, λ results e. subst (All (IsOut s'.available_ports)) (ap results_of e) all)
gathered-Ends (err e) s (err x, s') free out h =
    (h.0, λ results stuck. absurd (ground (arith, stuck)))
gathered-Ends (err e) s (panic, s') free out h =
    (h.0, λ results stuck. absurd (ground (arith, stuck)))

gathered-shrinks :
    {Handle : Type 0} (p : ℕ) (r : Outcome Error Built) (s : AdminService Handle)
    (x : Outcome Error (List (Outcome Error Built)) × AdminService Handle)
    → has p s.available_ports ≡ false
    → has p x.1.available_ports ≡ false
    → has p (gathered (r, s) x).1.available_ports ≡ false
gathered-shrinks p panic s x now after = now
gathered-shrinks p (ok made) s (ok others, s') now after = after
gathered-shrinks p (ok made) s (err e, s') now after = after
gathered-shrinks p (ok made) s (panic, s') now after = after
gathered-shrinks p (err e) s (ok others, s') now after = after
gathered-shrinks p (err e) s (err x, s') now after = after
gathered-shrinks p (err e) s (panic, s') now after = after

module _ {Handle : Type 0} (b : Backend Handle) where
  -- The queue only gets shorter.
  build_node-shrinks :
      (p : ℕ) (username alias : Text) (generated : Outcome Error Generated)
      (s : AdminService Handle) (ports : List ℕ)
      → s.available_ports ≡ ports
      → has p ports ≡ false
      → has p (build_node b username alias default generated s).1.available_ports ≡ false
  unfolding build_node listen_port_of pop_port
  build_node-shrinks p username alias generated s [] e out = rw e refl
  build_node-shrinks p username alias (ok g) s (q ∷ ports) e out = rw e (ground (arith, out))
  build_node-shrinks p username alias (err x) s (q ∷ ports) e out = rw e (ground (arith, out))
  build_node-shrinks p username alias panic s (q ∷ ports) e out = rw e (ground (arith, out))

  build_each-shrinks :
      (p : ℕ) (completed : List (NodeCreateInfo × Outcome Error Generated))
      (s : AdminService Handle)
      → has p s.available_ports ≡ false
      → has p (build_each b completed s).1.available_ports ≡ false
  unfolding build_each
  build_each-shrinks p [] s out = out
  build_each-shrinks p ((info, generated) ∷ rest) s out =
      let first = build_node b info.username info.alias default generated s in
      let shorter =
        build_node-shrinks p info.username info.alias generated s s.available_ports refl out in
      gathered-shrinks p first.0 first.1 (build_each b rest first.1) shorter
        (build_each-shrinks p rest first.1 shorter)

module _ {Handle : Type 0} (b : Backend Handle) {same : NodeRow → NodeRow → Bool}
    (law : IsTable same true b.node) where
  still-IsOut :
      (r : Outcome Error Built) (rest : List (NodeCreateInfo × Outcome Error Generated))
      (s : AdminService Handle)
      → ((made : Built) → r ≡ ok made → has made.0.listen_port s.available_ports ≡ false)
      → IsOut (build_each b rest s).1.available_ports r
  still-IsOut (ok made) rest s out = build_each-shrinks b made.0.listen_port rest s (out made refl)
  still-IsOut (err e) rest s out = tt
  still-IsOut panic rest s out = tt

  pub build_each-Ends :
      (completed : List (NodeCreateInfo × Outcome Error Generated)) (s : AdminService Handle)
      → HasFreePorts s
      → Ends (build_each b completed s)
  unfolding build_each
  build_each-Ends [] s free =
      (free, λ results e. subst (All (IsOut s.available_ports)) (ap results_of e) (tt))
  build_each-Ends ((info, generated) ∷ rest) s free =
      let first = build_node b info.username info.alias default generated s in
      let (left, apart) =
        at_port b law info.username info.alias generated s s.available_ports refl free in
      gathered-Ends first.0 first.1 (build_each b rest first.1) left
        (still-IsOut first.0 rest first.1 apart) (build_each-Ends rest first.1 left)

abbrev pub IsApart : List ℕ → NodeRow → Type 0
IsApart ports node = has node.listen_port ports ≡ false

pub unwrapped-IsApart :
    (ports : List ℕ) (results : List (Outcome Error Built)) (built : List Built)
    → All (IsOut ports) results
    → unwrap_each results ≡ ok built
    → All (IsApart ports) (map (λ x. x.0) built)
unfolding unwrap_each
unwrapped-IsApart ports [] [] out e = tt
unwrapped-IsApart ports [] (x ∷ built) out e = absurd (ground (arith, e))
unwrapped-IsApart ports (err x ∷ rest) built out e = absurd (ground (arith, e))
unwrapped-IsApart ports (panic ∷ rest) built out e = absurd (ground (arith, e))
unwrapped-IsApart ports (ok made ∷ rest) built out e =
    go (unwrap_each rest) refl (λ others. unwrapped-IsApart ports rest others out.1)
  where
    go :
        (r : Outcome Error (List Built))
        → unwrap_each rest ≡ r
        → ((others : List Built)
            → unwrap_each rest ≡ ok others
            → All (IsApart ports) (map (λ x. x.0) others))
        → All (IsApart ports) (map (λ x. x.0) built)
    go (ok others) first later =
        let all : All (IsApart ports) (map (λ x. x.0) (made ∷ others)) =
          (out.0, later others first) in
        let same : made ∷ others ≡ built = ground (arith, first, e) in
        subst (λ (xs : List Built). All (IsApart ports) (map (λ x. x.0) xs)) same all
    go (err x) first later = absurd (ground (arith, first, e))
    go panic first later = absurd (ground (arith, first, e))
