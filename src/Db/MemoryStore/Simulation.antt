-- ===== src/Db/MemoryStore/Simulation.antt =====
-- What it means that an operation of the store implements its specification.
use graph_store.Prelude.{◌≡◌}
use graph_store.Util.Outcome.{done}
use graph_store.Db.Types.{NodeId}
use graph_store.Db.MemoryStore
use graph_store.Db.MemoryStore.{MemoryStore, Mutation}
use graph_store.Db.MemoryStore.View.{has, linked}
use graph_store.Db.MemoryStore.Invariant.{IsWf}
use graph_store.Db.MemoryStore.Graph.{
  Graph, Op, status, effect, add_node, remove_node, add_edge, remove_edge,
}

-- The graph that a store holds.
abbrev pub view : MemoryStore → Graph
view s = record { node = has s.nodes; edge = linked s.nodes }

abbrev pub apply : MemoryStore → Op → Mutation
apply s (add_node a) = MemoryStore.add_node s a
apply s (remove_node a) = MemoryStore.remove_node s a
apply s (add_edge a b) = MemoryStore.add_edge s a b
apply s (remove_edge a b) = MemoryStore.remove_edge s a b

-- `s'` is well formed and holds the graph that the specification asks for.
pub record Implements (s : MemoryStore) (op : Op) (s' : MemoryStore) : Type 0 where
  pub node : (x : NodeId) → has s'.nodes x ≡ (effect (view s) op).node x
  pub edge : (x y : NodeId) → linked s'.nodes x y ≡ (effect (view s) op).edge x y
  pub wf : IsWf s'.nodes

-- The operation returns, with the status that the specification asks for and such a state.
abbrev pub Refines : MemoryStore → Op → Type 0
Refines s op =
    (s' : MemoryStore) × (apply s op ≡ done (s', status (view s) op)) × Implements s op s'
