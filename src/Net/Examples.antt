-- ===== src/Net/Examples.antt =====
-- The controller at the head of three replicas, and at two partitions, of the store of four nodes.
use graph_store.Prelude.{ℕ, ◌≡◌, refl, ◌==◌, Bool, true, false, none, List, [], ◌∷◌, arith}
use graph_store.Util.Outcome.{done}
use graph_store.Db.IdSet
use graph_store.Db.Types
use graph_store.Db.NodeMap
use graph_store.Db.MemoryStore
use graph_store.Db.MemoryStore.{MemoryStore}
use graph_store.Db.MemoryStore.View.{has, linked}
use graph_store.Db.MemoryStore.Graph.{Op, add_node, remove_node, add_edge, remove_edge}
use graph_store.Db.MemoryStore.Simulation.{view}
use graph_store.Db.MemoryStore.Refinement.{run_graph}
use graph_store.Db.MemoryStore.Parts.{IsPartWf}
use graph_store.Db.MemoryStore.Examples.{row, row-IsWf}
use graph_store.Db.GraphStore.{memory_store}
use graph_store.Db.GraphStore.Contract.{memory_store-Contract}
use graph_store.Db.Replication.{Chain}
use graph_store.Db.Replication.Answers.{memory_store-HasRoom}
use graph_store.Db.Replication.Examples.{direct, pair}
use graph_store.Db.Partition.Manager.{
  PartitionConfig, target, others, outbound_index, get_edge_part, get_partition_outbound,
}
use graph_store.Db.Partition.Remote.{Remote, handle_part}
use graph_store.Net.Response.{Body}
use graph_store.Net.Controller
use graph_store.Net.Controller.{Controller, Site, is_partitioned_edge_op}
use graph_store.Net.Controller.Specification.{manager, coded, Agree, serve_all}
use graph_store.Net.Controller.Writes.{serve_all-Agree}
use graph_store.Net.Controller.Edges.{partition_controller, Reaches, AddedIf, RemovedIf}
use graph_store.Net.Controller.Edges.Adding.{add_edge-AddedIf}
use graph_store.Net.Controller.Edges.Removing.{remove_edge-RemovedIf}

abbrev config : PartitionConfig ℕ
config = record { partitions = 10 ∷ 20 ∷ []; us = 0 }

abbrev same_address : ℕ → ℕ → Bool
same_address x y = x == y

abbrev head_controller : Controller MemoryStore (Chain MemoryStore 2) Unit ℕ
head_controller = record {
  methods = memory_store;
  repl_manager = manager memory_store direct 2;
  part_config = config;
  same = same_address;
  part_manager = none;
  logging_enabled = false;
}

abbrev head_site : Site MemoryStore (Chain MemoryStore 2) Unit
head_site = record { store = row; successors = pair; remotes = tt }

abbrev requests : List Op
requests = add_edge 1 4 ∷ add_node 1 ∷ remove_node 9 ∷ remove_edge 1 3 ∷ []

head_site-Agree :
    Agree 2 head_controller memory_store-Contract memory_store-HasRoom (view row) head_site
head_site-Agree = record {
  here = (row-IsWf, refl);
  behind = ((row-IsWf, refl), ((row-IsWf, refl), tt));
  placed = ((λ e. cc), ((λ e. cc), tt));
}

serve_all-Agree_example :
    (site : Site MemoryStore (Chain MemoryStore 2) Unit) × (serve_all head_controller head_site
        requests
      ≡ done (
        site,
        coded 200 (Body.node_ids 1 4)
            ∷ coded 500 Body.blank
            ∷ coded 400 Body.blank
            ∷ coded 500 Body.blank
            ∷ [],
      ))
    × Agree 2 head_controller memory_store-Contract memory_store-HasRoom
        (run_graph (view row) requests).0
        site
unfolding has linked NodeMap.find Types.has_edge IdSet.contains
serve_all-Agree_example =
    serve_all-Agree direct 2 head_controller memory_store-Contract memory_store-HasRoom (view row)
      head_site requests (λ W client. refl) refl refl head_site-Agree (omega arith)

-- The partition of the even ids, whose other partition answers every call.
abbrev remote : Remote MemoryStore ℕ
remote = λ t address op. handle_part memory_store t op

abbrev site : Site MemoryStore Unit MemoryStore
site = record { store = row; successors = tt; remotes = row }

remote-Reaches : Reaches same_address config remote 1
unfolding get_partition_outbound target others outbound_index
remote-Reaches = (20, refl, λ t op. refl)

row-IsPartWf : IsPartWf row.nodes
row-IsPartWf = record { sorted = row-IsWf.sorted; proper = row-IsWf.proper }

add_edge-AddedIf_example :
    (site' : Site MemoryStore Unit MemoryStore) × (Controller.add_edge
        (partition_controller none same_address config remote)
        site
        4
        1
      ≡ done (site', coded 200 (Body.node_ids 4 1)))
    × AddedIf true 4 1 row site'.store
    × AddedIf true 1 4 row site'.remotes
unfolding has linked NodeMap.find Types.has_edge IdSet.contains get_edge_part target
    is_partitioned_edge_op
add_edge-AddedIf_example =
    add_edge-AddedIf none same_address config remote site 4 1 4 1 refl refl remote-Reaches
      (λ e. absurd (omega (arith, e))) row-IsPartWf row-IsPartWf refl

remove_edge-RemovedIf_example :
    (site' : Site MemoryStore Unit MemoryStore) × (Controller.remove_edge
        (partition_controller none same_address config remote)
        site
        2
        1
      ≡ done (site', coded 200 (Body.node_ids 2 1)))
    × RemovedIf true 2 1 row site'.store
    × RemovedIf true 1 2 row site'.remotes
unfolding has linked NodeMap.find Types.has_edge IdSet.contains get_edge_part target
    is_partitioned_edge_op
remove_edge-RemovedIf_example =
    remove_edge-RemovedIf none same_address config remote site 2 1 2 1 refl refl remote-Reaches
      (λ e. absurd (omega (arith, e))) row-IsPartWf row-IsPartWf
