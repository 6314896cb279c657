-- ===== src/Db/Replication/Examples.antt =====
-- A head before two replicas that hold the store of four nodes.
use graph_store.Prelude.{◌≡◌, refl, Bool, false, arith}
use graph_store.Util.Status.{is_success}
use graph_store.Util.Outcome.{done}
use graph_store.Db.MemoryStore.{MemoryStore}
use graph_store.Db.MemoryStore.Graph.{status, remove_node}
use graph_store.Db.MemoryStore.Simulation.{view}
use graph_store.Db.MemoryStore.Examples.{row, row-IsWf}
use graph_store.Db.GraphStore.{memory_store}
use graph_store.Db.GraphStore.Contract.{memory_store-Contract}
use graph_store.Db.Replication.{NodeType, Replica, Chain, Network, replicate, chain_client}
use graph_store.Db.Replication.Agreement.{IsBehind}
use graph_store.Db.Replication.Answers.{Told, replicate-Told}

-- A network that hands every call over.
abbrev pub direct : Network
direct = λ W client. client

abbrev pub replica : NodeType → Replica MemoryStore
replica type = record { type = type; logging_enabled = false; store = row }

abbrev pub pair : Chain MemoryStore 2
pair = (replica NodeType.mid, (replica NodeType.tail, tt))

replicate-Told_example :
    (c : Chain MemoryStore 2) × (b : Bool) × (replicate NodeType.head
        (chain_client memory_store direct 2)
        pair
        (remove_node 2)
      ≡ done (c, b))
    × IsBehind MemoryStore NodeType.head 2 c
    × Told memory_store memory_store-Contract
        (view row)
        (remove_node 2)
        2
        c
        b
        (is_success (status (view row) (remove_node 2)))
replicate-Told_example =
    replicate-Told memory_store memory_store-Contract direct (view row) (remove_node 2)
      NodeType.head 2 pair (λ W client. refl) (omega arith)
      ((row-IsWf, refl), ((row-IsWf, refl), tt)) ((λ e. cc), ((λ e. cc), tt)) (λ e. cc)
