-- ===== src/Db/MemoryStore.antt =====
-- src/db/memory_store.cc: the store in memory, without shortestPath, which ShortestPath.antt has.
-- The functions keep the names of the methods. A method that changes the store returns it beside
-- its status; `exited` stands for a failed `invariant`. The lock of each method is held until it
-- returns, so that a method is one step.
pub mod View
pub mod Invariant
pub mod Graph
pub mod Simulation
pub mod Nodes
pub mod Edges
pub mod Refinement
pub mod Queries
pub mod Parts
pub mod ShortestPath
pub mod Examples
use graph_store.Prelude.{
  ◌≡◌, Bool, true, false, not, none, some, List, [], ◌∷◌, ◌==◌, if◌then◌else◌,
}
use graph_store.Util.Status.{StatusCode, StatusWith, with_result, without_result}
use graph_store.Util.Outcome.{Outcome, done, exited, invariant, ◌>>=◌}
use graph_store.Db.Types
use graph_store.Db.Types.{NodeId, Node, new_node}
use graph_store.Db.NodeMap
use graph_store.Db.NodeMap.{NodeMap}

pub record MemoryStore : Type 0 where
  pub nodes : NodeMap

abbrev pub empty : MemoryStore
empty = record { nodes = [] }

abbrev pub Mutation : Type 0
Mutation = Outcome (MemoryStore × StatusCode)

unfoldable pub add_node : MemoryStore → NodeId → Mutation
add_node s node_id =
    let (nodes, inserted) = NodeMap.emplace s.nodes node_id (new_node node_id) in
    done (record s { nodes = nodes }, if inserted then StatusCode.success else StatusCode.no_action)

unfoldable pub find_node : MemoryStore → NodeId → StatusWith Node
find_node s node_id = elim (NodeMap.find s.nodes node_id) [
  | none ↦ without_result StatusCode.does_not_exist
  | some n ↦ with_result n
]

-- the loop of `removeNode` over the edges of the node
unfoldable pub clean_up_edges : NodeMap → NodeId → List NodeId → Outcome NodeMap
clean_up_edges m node_id [] = done m
clean_up_edges m node_id (neighbor_id ∷ rest) = elim (NodeMap.find m neighbor_id) [
  | none ↦ exited
  | some neighbor ↦
      clean_up_edges (NodeMap.write m neighbor_id (Types.remove_edge neighbor node_id).0) node_id
        rest
]

unfoldable pub remove_node : MemoryStore → NodeId → Mutation
remove_node s node_id = elim (NodeMap.find s.nodes node_id) [
  | none ↦ done (s, StatusCode.does_not_exist)
  | some node ↦ do
    cleaned ← clean_up_edges s.nodes node_id node.edges
    done (record s { nodes = NodeMap.erase cleaned node_id }, StatusCode.success)
]

unfoldable pub get_edge : MemoryStore → NodeId → NodeId → Outcome (StatusWith (Node × Node))
unfolding find_node
get_edge s a b = if a == b then done (without_result StatusCode.invalid) else elim (find_node s a) [
  | without_result code ↦ done (without_result code)
  | with_result node_a ↦ elim (find_node s b) [
    | without_result code ↦ done (without_result code)
    | with_result node_b ↦
        if Types.has_edge node_a b
        then invariant (Types.has_edge node_b a) (done (with_result (node_a, node_b)))
        else invariant (not (Types.has_edge node_b a))
            (done (without_result StatusCode.does_not_exist))
  ]
]

-- The ids differ where the two nodes are changed, so neither change is seen by the other.
unfoldable pub add_edge : MemoryStore → NodeId → NodeId → Mutation
unfolding find_node
add_edge s a b = if a == b then done (s, StatusCode.invalid) else elim (find_node s a) [
  | without_result code ↦ done (s, code)
  | with_result node_a ↦ elim (find_node s b) [
    | without_result code ↦ done (s, code)
    | with_result node_b ↦
        let (node_a', added) = Types.add_edge node_a b in
        let (node_b', back) = Types.add_edge node_b a in
        let changed = record s {
          nodes = NodeMap.write (NodeMap.write s.nodes a node_a') b node_b';
        } in
        if added
        then invariant back (done (changed, StatusCode.success))
        else invariant (not back) (done (changed, StatusCode.no_action))
  ]
]

unfoldable pub remove_edge : MemoryStore → NodeId → NodeId → Mutation
unfolding get_edge
remove_edge s a b = do
  status ← get_edge s a b
  elim status [
    | without_result code ↦ done (s, code)
    | with_result (node_a, node_b) ↦
        let (node_a', removed) = Types.remove_edge node_a b in
        let (node_b', back) = Types.remove_edge node_b a in
        let changed = record s {
          nodes = NodeMap.write (NodeMap.write s.nodes a node_a') b node_b';
        } in
        if removed
        then invariant back (done (changed, StatusCode.success))
        else invariant (not back) (done (changed, StatusCode.does_not_exist))
  ]

unfoldable pub get_edge_part : MemoryStore → NodeId → NodeId → StatusCode
unfolding find_node
get_edge_part s local_id remote_id = elim (find_node s local_id) [
  | without_result code ↦ code
  | with_result local ↦
      if Types.has_edge local remote_id then StatusCode.success else StatusCode.does_not_exist
]

unfoldable pub add_edge_part : MemoryStore → NodeId → NodeId → Mutation
unfolding find_node
add_edge_part s local_id remote_id =
    if local_id == remote_id then done (s, StatusCode.invalid) else elim (find_node s local_id) [
      | without_result code ↦ done (s, code)
      | with_result local ↦
          let (local', added) = Types.add_edge local remote_id in
          done (
            record s { nodes = NodeMap.write s.nodes local_id local' },
            if added then StatusCode.success else StatusCode.no_action,
          )
    ]

-- the part of `removeEdgePart` that follows its first check
unfoldable pub drop_edge_part : MemoryStore → NodeId → NodeId → Mutation
unfolding find_node
drop_edge_part s local_id remote_id = elim (find_node s local_id) [
  | without_result code ↦ done (s, code)
  | with_result local ↦
      let (local', removed) = Types.remove_edge local remote_id in
      done (
        record s { nodes = NodeMap.write s.nodes local_id local' },
        if removed then StatusCode.success else StatusCode.does_not_exist,
      )
]

unfoldable pub remove_edge_part : MemoryStore → NodeId → NodeId → Mutation
unfolding get_edge_part drop_edge_part
remove_edge_part s local_id remote_id = elim (get_edge_part s local_id remote_id) [
  | StatusCode.success ↦ drop_edge_part s local_id remote_id
  | code ↦ done (s, code)
]

unfoldable pub get_neighbors : MemoryStore → NodeId → StatusWith (List NodeId)
unfolding find_node
get_neighbors s node_id = elim (find_node s node_id) [
  | without_result code ↦ without_result code
  | with_result node ↦ with_result node.edges
]
