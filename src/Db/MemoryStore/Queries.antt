-- ===== src/Db/MemoryStore/Queries.antt =====
-- The methods of src/db/memory_store.cc that read the store.
use graph_store.Prelude.{
  ◌≡◌, false, not, ◌&&◌, List, arith, if◌then◌else◌, Option-cases, subst, inl, inr,
}
use graph_store.Util.Status.{StatusCode, with_result, get_code}
use graph_store.Util.Outcome
use graph_store.Util.Outcome.{Outcome, done, exited}
use graph_store.Db.IdSet
use graph_store.Db.Types
use graph_store.Db.Types.{NodeId, Node}
use graph_store.Db.NodeMap
use graph_store.Db.MemoryStore
use graph_store.Db.MemoryStore.{MemoryStore}
use graph_store.Db.MemoryStore.View.{has, linked}
use graph_store.Db.MemoryStore.Invariant.{IsWf}
use graph_store.Db.MemoryStore.Graph.{status, remove_edge}
use graph_store.Db.MemoryStore.Simulation.{view}

module _ (s : MemoryStore) (a : NodeId) where
  pub find_node_code :
      get_code (MemoryStore.find_node s a)
      ≡ (if has s.nodes a then StatusCode.success else StatusCode.does_not_exist)
  unfolding MemoryStore.find_node has
  find_node_code = ground arith

  get_neighbors_code :
      get_code (MemoryStore.get_neighbors s a)
      ≡ (if has s.nodes a then StatusCode.success else StatusCode.does_not_exist)
  unfolding MemoryStore.get_neighbors has
  get_neighbors_code = ground arith

  neighbors-IsNodup :
      (ids : List NodeId)
      → IsWf s.nodes
      → MemoryStore.get_neighbors s a ≡ with_result ids
      → IdSet.IsNodup ids
  unfolding MemoryStore.get_neighbors
  neighbors-IsNodup ids wf h = elim (Option-cases (NodeMap.find s.nodes a)) [
    | inl absent ↦ ground arith
    | inr (n, e) ↦ subst IdSet.IsNodup (ground arith) (wf.proper a n e).nodup
  ]

  neighbors-linked :
      (ids : List NodeId) (b : NodeId)
      → MemoryStore.get_neighbors s a ≡ with_result ids
      → IdSet.contains b ids ≡ linked s.nodes a b
  unfolding MemoryStore.get_neighbors linked Types.has_edge
  neighbors-linked ids b h = ground arith

get_edge_code :
    (s : MemoryStore) (a b : NodeId)
    → IsWf s.nodes
    → Outcome.map get_code (MemoryStore.get_edge s a b) ≡ done (status (view s) (remove_edge a b))
unfolding MemoryStore.get_edge linked
get_edge_code s a b wf = ground (arith, wf.symmetric a b)

-- In a well-formed store the status of `findNode` and `getNeighbors` says whether the node is
-- there, and that of `getEdge`, none of whose checks makes the process exit, is INVALID for equal
-- ids, SUCCESS for an edge and DOES_NOT_EXIST for any other pair.
pub queries_agree :
    (s : MemoryStore) (a b : NodeId)
    → IsWf s.nodes
    → (get_code (MemoryStore.find_node s a)
        ≡ (if has s.nodes a then StatusCode.success else StatusCode.does_not_exist))
      × (get_code (MemoryStore.get_neighbors s a)
          ≡ (if has s.nodes a then StatusCode.success else StatusCode.does_not_exist))
      × (Outcome.map get_code (MemoryStore.get_edge s a b)
          ≡ done (status (view s) (remove_edge a b)))
queries_agree s a b wf = (find_node_code s a, get_neighbors_code s a, get_edge_code s a b wf)

-- The list that `getNeighbors` returns holds exactly the nodes that an edge of the node leads to,
-- each of them once, and all of them are nodes of the store.
pub neighbors_exact :
    (s : MemoryStore) (a : NodeId) (ids : List NodeId) (b : NodeId)
    → IsWf s.nodes
    → MemoryStore.get_neighbors s a ≡ with_result ids
    → IdSet.IsNodup ids
      × (IdSet.contains b ids ≡ linked s.nodes a b)
      × ((IdSet.contains b ids && not (has s.nodes b)) ≡ false)
neighbors_exact s a ids b wf h = (
  neighbors-IsNodup s a ids wf h,
  neighbors-linked s a ids b h,
  unfold has linked in ground (arith, neighbors-linked s a ids b h, wf.symmetric a b),
)
