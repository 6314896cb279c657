-- ===== src/Db/MemoryStore/View.antt =====
-- What a client can observe of a store: which nodes it has and which edges lead where.
use graph_store.Prelude.{
  ◌≡◌, Bool, true, false, not, ◌&&◌, ◌||◌, none, some, arith, ◌==◌, if◌then◌else◌,
}
use graph_store.Db.IdSet
use graph_store.Db.Types
use graph_store.Db.Types.{NodeId, Node, new_node}
use graph_store.Db.NodeMap
use graph_store.Db.NodeMap.{NodeMap, find-write, find-erase, find-emplace}

unfoldable pub has : NodeMap → NodeId → Bool
has m k = elim (NodeMap.find m k) [ none ↦ false | some _ ↦ true ]

-- The node `a` holds an edge to `b`.
unfoldable pub linked : NodeMap → NodeId → NodeId → Bool
linked m a b = elim (NodeMap.find m a) [ none ↦ false | some n ↦ Types.has_edge n b ]

module _ (m : NodeMap) (k : NodeId) (n : Node) where
  pub has-write : (j : NodeId) → has (NodeMap.write m k n) j ≡ has m j
  unfolding has
  has-write j = ground (arith, find-write m k n j)

  pub linked-write :
      (a b : NodeId)
      → linked (NodeMap.write m k n) a b
        ≡ (if k == a then has m k && Types.has_edge n b else linked m a b)
  unfolding linked has
  linked-write a b = ground (arith, find-write m k n a)

module _ (m : NodeMap) (k : NodeId) where
  pub has-erase : (j : NodeId) → has (NodeMap.erase m k) j ≡ (not (k == j) && has m j)
  unfolding has
  has-erase j = ground (arith, find-erase m k j)

  pub linked-erase :
      (a b : NodeId) → linked (NodeMap.erase m k) a b ≡ (not (k == a) && linked m a b)
  unfolding linked
  linked-erase a b = ground (arith, find-erase m k a)

  pub emplace_inserted : (n : Node) → (NodeMap.emplace m k n).1 ≡ not (has m k)
  unfolding has NodeMap.emplace
  emplace_inserted n = ground arith

  pub has-emplace : (j : NodeId) (n : Node) → has (NodeMap.emplace m k n).0 j ≡ (k == j || has m j)
  unfolding has NodeMap.emplace
  has-emplace j n = ground (arith, find-emplace m k n j)

  pub linked-emplace :
      (a b : NodeId) → linked (NodeMap.emplace m k (new_node k)).0 a b ≡ linked m a b
  unfolding linked NodeMap.emplace Types.has_edge IdSet.contains
  linked-emplace a b = ground (arith, find-emplace m k (new_node k) a)

pub linked_at :
    (m : NodeMap) (a b : NodeId) (n : Node)
    → NodeMap.find m a ≡ some n
    → linked m a b ≡ Types.has_edge n b
unfolding linked
linked_at m a b n e = ground arith

pub has_at : (m : NodeMap) (a : NodeId) (n : Node) → NodeMap.find m a ≡ some n → has m a ≡ true
unfolding has
has_at m a n e = ground arith
