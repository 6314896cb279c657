-- ===== src/Client/Serve.antt =====
-- The server of the client: the handler `HTTPController::add_node` of src/net/http_controller.cc, for
-- a request that names a node.
use graph_store.Prelude.{ℕ, Bool, true, Option, none}
use graph_store.Util.Outcome.{Outcome, done, ◌>>=◌}
use graph_store.Db.Types.{NodeId}
use graph_store.Db.LoggedStore.{LoggedStore}
use graph_store.Db.GraphStore.{logged_store}
use graph_store.Db.Partition.Manager.{PartitionConfig}
use graph_store.Db.Partition.Remote.{Remote}
use graph_store.Net.Controller
use graph_store.Net.Controller.{Controller, Site}

-- the code of the reply, and what the handler leaves
unfoldable pub serve_add_node :
    {S W R A : Type 0} → Controller S W R A → Site S W R → NodeId → Outcome (Site S W R × ℕ)
unfolding Controller.add_node
serve_add_node k site node_id = do
  (site', response) ← Controller.add_node k site node_id
  done (site', response.code)

-- A controller of a logged store, without a replication manager, which src/main.cc does not build.
abbrev pub logging_controller :
    {W R A : Type 0}
    → PartitionConfig A
    → (A → A → Bool)
    → Option (Remote R A)
    → Controller LoggedStore W R A
logging_controller c same p = record {
  methods = logged_store;
  repl_manager = none;
  part_config = c;
  same = same;
  part_manager = p;
  logging_enabled = true;
}
