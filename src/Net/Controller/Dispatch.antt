-- ===== src/Net/Controller/Dispatch.antt =====
-- src/net/http_controller.cc: `setup`, which gives each route its handler, and what the handlers do
-- with a request that does not name the ids.
use graph_store.Prelude.{Option, none, some}
use graph_store.Util.Status.{with_result, without_result}
use graph_store.Util.Outcome.{Outcome, done, ◌>>=◌}
use graph_store.Db.Types.{NodeId}
use graph_store.Net.Request.{Json, get_node_id, get_edge_ids}
use graph_store.Net.Response.{Response, make}
use graph_store.Net.Controller
use graph_store.Net.Controller.{Controller, Site}
use graph_store.Net.Controller.Queries

-- the routes
pub data Command : Type 0 where
  add_node remove_node get_node add_edge remove_edge get_edge get_neighbors shortest_path
        checkpoint :
      Command

module _ {S W R A D V : Type 0} (json : Json D V) (k : Controller S W R A) where
  -- What a request leaves and its reply; `none` says that the fuel of a search ran out.
  abbrev Reaction : Type 0
  Reaction = Outcome (Option (Site S W R × Response))

  abbrev changes : Outcome (Site S W R × Response) → Reaction
  changes o = do r ← o; done (some r)

  abbrev reads : Site S W R → Outcome Response → Reaction
  reads site o = do r ← o; done (some (site, r))

  unfoldable pub with_node : Site S W R → D → (NodeId → Reaction) → Reaction
  with_node site data' handler = do
    id ← get_node_id json data'
    elim id [ without_result code ↦ done (some (site, make 400)) | with_result a ↦ handler a ]

  unfoldable pub with_edge : Site S W R → D → (NodeId → NodeId → Reaction) → Reaction
  with_edge site data' handler = do
    ids ← get_edge_ids json data'
    elim ids [
      | without_result code ↦ done (some (site, make 400))
      | with_result (a, b) ↦ handler a b
    ]

  unfoldable pub dispatch : Command → Site S W R → D → Reaction
  unfolding with_node with_edge
  dispatch add_node site x = with_node site x (λ a. changes (Controller.add_node k site a))
  dispatch remove_node site x = with_node site x (λ a. changes (Controller.remove_node k site a))
  dispatch get_node site x =
      with_node site x (λ a. done (some (site, Controller.get_node k site a)))
  dispatch add_edge site x = with_edge site x (λ a b. changes (Controller.add_edge k site a b))
  dispatch remove_edge site x =
      with_edge site x (λ a b. changes (Controller.remove_edge k site a b))
  dispatch get_edge site x = with_edge site x (λ a b. reads site (Queries.get_edge k site a b))
  dispatch get_neighbors site x =
      with_node site x (λ a. done (some (site, Queries.get_neighbors k site a)))
  dispatch shortest_path site x = with_edge site x (λ a b. do
    found ← Queries.shortest_path k site a b
    elim found [ none ↦ done none | some r ↦ done (some (site, r)) ])
  dispatch checkpoint site x = changes (Queries.checkpoint k site)
