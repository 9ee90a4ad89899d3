-- ===== src/Transport/Steps.antt =====
-- What a request that was answered has passed through (src/http/node.rs, src/grpc/node.rs).
use sensei.Prelude.{◌≡◌, refl, ap, true, Outcome, ok, err, panic, arith, Bool-cases, inl, inr}
use sensei.Node.Types.{NodeRequest, NodeResponse, NodeRequestError, Ending}
use sensei.Transport.{Nodes, Server, Handling, holding, released, served}

module _ {Handle World E A : Type 0} where
  pub holding_ok :
      (m : Handling Handle World E A) (s s' : Server Handle World) (a : A)
      → holding m s ≡ (ok a, s')
      → (t : Server Handle World) × (m (record s { held = true }) ≡ (ok a, t))
  holding_ok m s s' a e = elim (Bool-cases s.held) [
    | inl held ↦ absurd (ground (arith, held, e))
    | inr free ↦
        let t = (m (record s { held = true })).1 in
        let run : released (m (record s { held = true })) ≡ (ok a, s') = rw free at e in
        (t, ap (λ x. (x.0, t)) run)
  ]

module _ {Handle Macaroon World : Type 0} (n : Nodes Handle Macaroon World) where
  pub served_ok :
      {E : Type 0} (f : NodeRequestError → E) (handle : Handle) (request : NodeRequest)
      (s s' : Server Handle World) (r : NodeResponse)
      → served n f handle request s ≡ (ok r, s')
      → n.serve handle request s.world ≡ (ok r, s'.world)
  served_ok f handle request s s' r e = go (n.serve handle request s.world) refl
    where
      go :
          (x : Outcome (Ending NodeRequestError) NodeResponse × World)
          → n.serve handle request s.world ≡ x
          → n.serve handle request s.world ≡ (ok r, s'.world)
      go (ok a, w) first = ground (arith, first, e)
      go (err x, w) first = absurd (ground (arith, first, e))
      go (panic, w) first = absurd (ground (arith, first, e))
