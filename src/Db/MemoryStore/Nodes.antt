-- ===== src/Db/MemoryStore/Nodes.antt =====
-- addNode and removeNode of src/db/memory_store.cc.
use graph_store.Prelude.{
  ◌^◌, ◌<◌, ◌≡◌, refl, true, false, not, ◌&&◌, none, some, arith, ◌==◌, Option-cases, inl, inr,
}
use graph_store.Db.IdSet
use graph_store.Db.Types
use graph_store.Db.Types.{NodeId, Node, new_node}
use graph_store.Db.NodeMap
use graph_store.Db.NodeMap.{
  NodeMap, IsSorted, emplace-IsSorted, erase-IsSorted, write-IsSorted, find-write, find-erase,
  find-emplace,
}
use graph_store.Db.MemoryStore
use graph_store.Db.MemoryStore.{MemoryStore, Mutation}
use graph_store.Db.MemoryStore.View.{
  has, linked, has-erase, linked-erase, has-emplace, linked-emplace, emplace_inserted, has_at,
}
use graph_store.Db.MemoryStore.Invariant.{
  IsWf, erase-AllProper, emplace-AllProper, clean_up_edges-Cleaned,
}
use graph_store.Db.MemoryStore.Graph.{add_node, remove_node}
use graph_store.Db.MemoryStore.Simulation.{Refines}

pub add_node-Refines :
    (s : MemoryStore) (a : NodeId) → a < 2 ^ 64 → IsWf s.nodes → Refines s (add_node a)
unfolding MemoryStore.add_node
add_node-Refines s a h wf =
    let m' = (NodeMap.emplace s.nodes a (new_node a)).0 in
    (
      record { nodes = m' },
      ground (arith, emplace_inserted s.nodes a (new_node a)),
      record {
        node = λ x. has-emplace s.nodes a x (new_node a);
        edge = λ x y. linked-emplace s.nodes a x y;
        wf = record {
          sorted = emplace-IsSorted s.nodes a (new_node a) h wf.sorted;
          proper = emplace-AllProper s.nodes a wf.proper;
          symmetric = λ x y.
              cc (linked-emplace s.nodes a x y, linked-emplace s.nodes a y x, wf.symmetric x y);
          irreflexive = λ x. cc (linked-emplace s.nodes a x x, wf.irreflexive x);
        };
      },
    )

module _ (s : MemoryStore) (a : NodeId) (wf : IsWf s.nodes) where
  -- A node that the store does not have is on no edge.
  absent_links :
      (x : NodeId)
      → NodeMap.find s.nodes a ≡ none
      → (linked s.nodes a x ≡ false) × (linked s.nodes x a ≡ false)
  unfolding linked
  absent_links x h = ground (arith, wf.symmetric a x)

  module _ (n : Node) (e : NodeMap.find s.nodes a ≡ some n) where
    edges_of : (x : NodeId) → linked s.nodes a x ≡ IdSet.contains x n.edges
    unfolding linked Types.has_edge
    edges_of x = ground arith

    linked-has : (x y : NodeId) → linked s.nodes x y ≡ true → has s.nodes x ≡ true
    unfolding linked has
    linked-has x y h = ground arith

    neighbors_known : (x : NodeId) → IdSet.contains x n.edges ≡ true → has s.nodes x ≡ true
    neighbors_known x h = linked-has x a (cc (edges_of x, wf.symmetric a x))

    remove_node_present : Refines s (remove_node a)
    unfolding MemoryStore.remove_node
    remove_node_present =
        let (m', ends, c) = clean_up_edges-Cleaned s.nodes a n.edges neighbors_known in
        let links : (x y : NodeId)
            → linked (NodeMap.erase m' a) x y
              ≡ (not (a == x) && (not (a == y) && linked s.nodes x y)) =
          λ x y. ground (arith, linked-erase m' a x y, c.links x y, edges_of x, wf.symmetric a x) in
        (
          record { nodes = NodeMap.erase m' a },
          rw (has_at s.nodes a n e) (rw (e, MemoryStore.remove_node) (rw ends refl)),
          record {
            node = λ x. ground (arith, has-erase m' a x, c.kept x);
            edge = links;
            wf = record {
              sorted = erase-IsSorted m' a (c.sorted wf.sorted);
              proper = erase-AllProper m' a (c.proper wf.proper);
              symmetric = λ x y. ground (arith, links x y, links y x, wf.symmetric x y);
              irreflexive = λ x. ground (arith, links x x, wf.irreflexive x);
            };
          },
        )

pub remove_node-Refines : (s : MemoryStore) (a : NodeId) → IsWf s.nodes → Refines s (remove_node a)
unfolding MemoryStore.remove_node
remove_node-Refines s a wf = elim (Option-cases (NodeMap.find s.nodes a)) [
  | inl absent ↦ (
    s,
    unfold has in ground arith,
    record {
      node = λ x. unfold has in ground arith;
      edge = λ x y. ground (arith, absent_links s a wf x absent, absent_links s a wf y absent);
      wf = wf;
    },
  )
  | inr (n, e) ↦ remove_node_present s a wf n e
]
