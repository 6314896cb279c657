-- ===== src/Db/Types.antt =====
-- src/db/types.h and src/db/types.cc: node ids and nodes.
use graph_store.Prelude.{
  ℕ, ◌≡◌, refl, Bool, true, false, ◌==◌, ◌||◌, not, ◌&&◌, List, [], arith, if◌then◌else◌,
}
use graph_store.Db.IdSet

-- `int64_t`, by its 64-bit pattern.
abbrev pub NodeId : Type 0
NodeId = ℕ

pub record Node : Type 0 where
  pub id : NodeId
  pub edges : List NodeId

-- `Node(NodeId id)`
abbrev pub new_node : NodeId → Node
new_node id = record { id = id; edges = [] }

-- True if the edge was added, false if it exists already.
unfoldable pub add_edge : Node → NodeId → Node × Bool
add_edge n node =
    let (edges, added) = IdSet.insert node n.edges in (record n { edges = edges }, added)

-- True if the edge was removed, false if it does not exist.
unfoldable pub remove_edge : Node → NodeId → Node × Bool
remove_edge n node =
    if IdSet.contains node n.edges
    then (record n { edges = IdSet.erase node n.edges }, true)
    else (n, false)

unfoldable pub has_edge : Node → NodeId → Bool
has_edge n node = IdSet.contains node n.edges

pub has_edge-add_edge :
    (n : Node) (a b : NodeId) → has_edge (add_edge n a).0 b ≡ (a == b || has_edge n b)
unfolding has_edge add_edge
has_edge-add_edge n a b = IdSet.contains-insert b a n.edges

pub add_edge_added : (n : Node) (a : NodeId) → (add_edge n a).1 ≡ not (has_edge n a)
unfolding has_edge add_edge
add_edge_added n a = IdSet.insert_fresh a n.edges

pub has_edge-remove_edge :
    (n : Node) (a b : NodeId) → has_edge (remove_edge n a).0 b ≡ (not (a == b) && has_edge n b)
unfolding has_edge remove_edge
has_edge-remove_edge n a b = ground (arith, IdSet.contains-erase b a n.edges)

pub remove_edge_removed : (n : Node) (a : NodeId) → (remove_edge n a).1 ≡ has_edge n a
unfolding has_edge remove_edge
remove_edge_removed n a = ground arith

pub id-add_edge : (n : Node) (a : NodeId) → (add_edge n a).0.id ≡ n.id
unfolding add_edge
id-add_edge n a = refl

pub id-remove_edge : (n : Node) (a : NodeId) → (remove_edge n a).0.id ≡ n.id
unfolding remove_edge
id-remove_edge n a = ground arith
