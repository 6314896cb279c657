-- ===== src/Net/Controller/Specification.antt =====
-- What src/net/http_controller.cc promises a client that writes to a server that stands alone or at
-- the head of a chain of replicas, in terms of the abstract graph.
use graph_store.Prelude.{
  ℕ, zero, suc, Bool, true, false, not, ◌&&◌, Option, none, some, List, [], ◌∷◌, ◌==◌,
  if◌then◌else◌,
}
use graph_store.Util.Outcome.{Outcome, done, ◌>>=◌}
use graph_store.Db.MemoryStore.Graph.{
  Graph, Op, effect, add_node, remove_node, add_edge, remove_edge,
}
use graph_store.Db.GraphStore.{GraphStore}
use graph_store.Db.GraphStore.Contract.{Contract}
use graph_store.Db.Replication.{NodeType, Client, Chain, Network, chain_client}
use graph_store.Db.Replication.Agreement.{IsBehind, Holds, AllHold, HasRoom}
use graph_store.Net.Response.{Body, Response}
use graph_store.Net.Controller
use graph_store.Net.Controller.{Controller, Site, is_found, is_elsewhere, replicated, commit}

-- The replication manager of a server with `n` replicas behind it.
abbrev pub manager :
    {S : Type 0} → GraphStore S → Network → (n : ℕ) → Option (NodeType × Client (Chain S n))
manager G network zero = none
manager G network (suc n) = some (NodeType.head, chain_client G network (suc n))

abbrev pub IsPlaced : (S : Type 0) (n : ℕ) → Chain S n → Type 0
IsPlaced S zero c = Unit
IsPlaced S (suc n) c = IsBehind S NodeType.head (suc n) c

abbrev pub write :
    {S W R A : Type 0} → Controller S W R A → Site S W R → Op → Outcome (Site S W R × Response)
write k site (add_node a) = Controller.add_node k site a
write k site (remove_node a) = Controller.remove_node k site a
write k site (add_edge a b) = Controller.add_edge k site a b
write k site (remove_edge a b) = Controller.remove_edge k site a b

abbrev pub has_replicas : ℕ → Bool
has_replicas zero = false
has_replicas (suc n) = true

abbrev pub coded : ℕ → Body → Response
coded code body = record { code = code; body = body }

-- A request at nodes that are there, that is not carried out: a head replies 500, and a server alone
-- the code.
abbrev pub declined : ℕ → ℕ → Response
declined n code = coded (if has_replicas n then 500 else code) Body.blank

-- The reply that the specification gives, with `n` replicas behind the server.
abbrev pub response : ℕ → Graph → Op → Response
response n g (add_node a) = if g.node a then declined n 204 else coded 200 (Body.node_id a)
response n g (remove_node a) = if g.node a then coded 200 (Body.node_id a) else coded 400 Body.blank
response n g (add_edge a b) =
    if not (g.node a && g.node b)
    then coded 400 Body.blank
    else if a == b
    then declined n 400
    else if g.edge a b
    then declined n 204
    else coded 200 (Body.node_ids a b)
response n g (remove_edge a b) =
    if not (g.node a && g.node b)
    then coded 400 Body.blank
    else if g.edge a b
    then coded 200 (Body.node_ids a b)
    else declined n 400

module _ {S R A : Type 0} (n : ℕ) (k : Controller S (Chain S n) R A) (laws : Contract k.methods)
    (room : HasRoom k.methods laws) where
  -- The store here and those of all replicas hold the graph.
  pub record Agree (g : Graph) (site : Site S (Chain S n) R) : Type 0 where
    pub here : Holds k.methods laws g site.store
    pub behind : AllHold k.methods laws g n site.successors
    pub placed : IsPlaced S n site.successors

-- Requests in turn, with their replies.
unfoldable pub serve_all :
    {S W R A : Type 0}
    → Controller S W R A
    → Site S W R
    → List Op
    → Outcome (Site S W R × List Response)
serve_all k site [] = done (site, [])
serve_all k site (op ∷ ops) = do
  (site', r) ← write k site op
  (last, rs) ← serve_all k site' ops
  done (last, r ∷ rs)

-- The replies that the specification gives.
abbrev pub responses : ℕ → Graph → List Op → List Response
responses n g [] = []
responses n g (op ∷ ops) = response n g op ∷ responses n (effect g op) ops
