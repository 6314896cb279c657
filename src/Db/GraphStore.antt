-- ===== src/Db/GraphStore.antt =====
-- src/db/graph_store.h: the interface `GraphStore`, and the two classes that implement it. The
-- servers and the controller hold a pointer of this type.
pub mod Contract
pub mod Idle
use graph_store.Prelude.{ℕ, Option, List}
use graph_store.Util.Status.{StatusCode, StatusWith}
use graph_store.Util.Outcome.{Outcome, exited}
use graph_store.Db.Types.{NodeId, Node}
use graph_store.Db.MemoryStore
use graph_store.Db.MemoryStore.{MemoryStore}
use graph_store.Db.MemoryStore.Graph.{Op, add_node, remove_node, add_edge, remove_edge}
use graph_store.Db.MemoryStore.ShortestPath
use graph_store.Db.LoggedStore
use graph_store.Db.LoggedStore.{LoggedStore}

-- The methods on a store of states `S`. `take_checkpoint` is the call of `checkpoint` behind a
-- `dynamic_cast<LoggedStore*>`.
pub record GraphStore (S : Type 0) : Type 0 where
  pub add_node : S → NodeId → Outcome (S × StatusCode)
  pub remove_node : S → NodeId → Outcome (S × StatusCode)
  pub find_node : S → NodeId → StatusWith Node
  pub get_edge : S → NodeId → NodeId → Outcome (StatusWith (Node × Node))
  pub add_edge : S → NodeId → NodeId → Outcome (S × StatusCode)
  pub remove_edge : S → NodeId → NodeId → Outcome (S × StatusCode)
  pub get_edge_part : S → NodeId → NodeId → StatusCode
  pub add_edge_part : S → NodeId → NodeId → Outcome (S × StatusCode)
  pub remove_edge_part : S → NodeId → NodeId → Outcome (S × StatusCode)
  pub get_neighbors : S → NodeId → StatusWith (List NodeId)
  pub shortest_path : S → NodeId → NodeId → Outcome (Option (StatusWith ℕ))
  pub take_checkpoint : S → Outcome (S × StatusCode)

-- The four methods that a chain of replicas passes on, by the operation.
abbrev pub call : {S : Type 0} → GraphStore S → S → Op → Outcome (S × StatusCode)
call G s (add_node a) = G.add_node s a
call G s (remove_node a) = G.remove_node s a
call G s (add_edge a b) = G.add_edge s a b
call G s (remove_edge a b) = G.remove_edge s a b

-- `MemoryStore` is no `LoggedStore`: the cast gives a null pointer.
abbrev pub memory_store : GraphStore MemoryStore
memory_store = record {
  add_node = MemoryStore.add_node;
  remove_node = MemoryStore.remove_node;
  find_node = MemoryStore.find_node;
  get_edge = MemoryStore.get_edge;
  add_edge = MemoryStore.add_edge;
  remove_edge = MemoryStore.remove_edge;
  get_edge_part = MemoryStore.get_edge_part;
  add_edge_part = MemoryStore.add_edge_part;
  remove_edge_part = MemoryStore.remove_edge_part;
  get_neighbors = MemoryStore.get_neighbors;
  shortest_path = ShortestPath.shortest_path;
  take_checkpoint = λ s. exited;
}

abbrev pub logged_store : GraphStore LoggedStore
logged_store = record {
  add_node = LoggedStore.add_node;
  remove_node = LoggedStore.remove_node;
  find_node = LoggedStore.find_node;
  get_edge = LoggedStore.get_edge;
  add_edge = LoggedStore.add_edge;
  remove_edge = LoggedStore.remove_edge;
  get_edge_part = LoggedStore.get_edge_part;
  add_edge_part = LoggedStore.add_edge_part;
  remove_edge_part = LoggedStore.remove_edge_part;
  get_neighbors = LoggedStore.get_neighbors;
  shortest_path = LoggedStore.shortest_path;
  take_checkpoint = LoggedStore.take_checkpoint;
}
