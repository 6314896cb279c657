-- ===== src/Db/MemoryStore/Invariant.antt =====
-- The well-formed states of the store: each node stands under its own id, the keys are in order,
-- no edge is held twice, and every edge is held by both of its ends, which differ.
use graph_store.Prelude.{
  ◌≡◌, refl, true, false, not, ◌&&◌, some, List, [], ◌∷◌, arith, ◌==◌, Option-cases, Bool-cases,
  inl, inr,
}
use graph_store.Util.Outcome.{done}
use graph_store.Db.IdSet
use graph_store.Db.Types
use graph_store.Db.Types.{NodeId, Node, new_node}
use graph_store.Db.NodeMap
use graph_store.Db.NodeMap.{
  NodeMap, IsSorted, write-IsSorted, find-write, find-erase, find-emplace, emplace-IsSorted,
  erase-IsSorted,
}
use graph_store.Db.MemoryStore.View.{has, linked, has-write}
use graph_store.Db.MemoryStore.{clean_up_edges}

pub record IsProper (k : NodeId) (n : Node) : Type 0 where
  pub keyed : n.id ≡ k
  pub nodup : IdSet.IsNodup n.edges

-- Every node stands under its own id and holds no edge twice.
abbrev pub AllProper : NodeMap → Type 0
AllProper m = (k : NodeId) (n : Node) → NodeMap.find m k ≡ some n → IsProper k n

pub record IsWf (m : NodeMap) : Type 0 where
  pub sorted : IsSorted m
  pub proper : AllProper m
  pub symmetric : (a b : NodeId) → linked m a b ≡ linked m b a
  pub irreflexive : (a : NodeId) → linked m a a ≡ false

pub empty-IsWf : IsWf []
unfolding linked NodeMap.find
empty-IsWf = record {
  sorted = tt;
  proper = λ k n h. cc;
  symmetric = λ a b. refl;
  irreflexive = λ a. refl;
}

pub add_edge-IsProper :
    (k : NodeId) (n : Node) (a : NodeId) → IsProper k n → IsProper k (Types.add_edge n a).0
unfolding Types.add_edge
add_edge-IsProper k n a h = record {
  keyed = h.keyed;
  nodup = IdSet.insert-IsNodup a n.edges h.nodup;
}

pub remove_edge-IsProper :
    (k : NodeId) (n : Node) (a : NodeId) → IsProper k n → IsProper k (Types.remove_edge n a).0
unfolding Types.remove_edge
remove_edge-IsProper k n a h = elim (Bool-cases (IdSet.contains a n.edges)) [
  | inl e ↦ rw e (record { keyed = h.keyed; nodup = IdSet.erase-IsNodup a n.edges h.nodup })
  | inr e ↦ rw e h
]

pub write-AllProper :
    (m : NodeMap) (k : NodeId) (n : Node)
    → IsProper k n
    → AllProper m
    → AllProper (NodeMap.write m k n)
write-AllProper m k n h all j o e = ground (arith, find-write m k n j, all j o)

pub erase-AllProper : (m : NodeMap) (k : NodeId) → AllProper m → AllProper (NodeMap.erase m k)
erase-AllProper m k all j o e = ground (arith, find-erase m k j, all j o)

pub emplace-AllProper :
    (m : NodeMap) (k : NodeId) → AllProper m → AllProper (NodeMap.emplace m k (new_node k)).0
unfolding NodeMap.emplace
emplace-AllProper m k all j o e = ground (arith, find-emplace m k (new_node k) j, all j o)

-- What `clean_up_edges` has done when it returns `m'`.
pub record Cleaned (m : NodeMap) (id : NodeId) (ids : List NodeId) (m' : NodeMap) : Type 0 where
  pub kept : (j : NodeId) → has m' j ≡ has m j
  pub links :
      (a b : NodeId) → linked m' a b ≡ (linked m a b && not (IdSet.contains a ids && id == b))
  pub sorted : IsSorted m → IsSorted m'
  pub proper : AllProper m → AllProper m'

linked-unlink :
    (m : NodeMap) (x : NodeId) (n : Node) (id a b : NodeId)
    → NodeMap.find m x ≡ some n
    → linked (NodeMap.write m x (Types.remove_edge n id).0) a b
      ≡ (linked m a b && not (x == a && id == b))
unfolding linked
linked-unlink m x n id a b e =
    ground (arith, find-write m x (Types.remove_edge n id).0 a, Types.has_edge-remove_edge n id b)

pub clean_up_edges-Cleaned :
    (m : NodeMap) (id : NodeId) (ids : List NodeId)
    → ((j : NodeId) → IdSet.contains j ids ≡ true → has m j ≡ true)
    → (m' : NodeMap) × (clean_up_edges m id ids ≡ done m') × Cleaned m id ids m'
unfolding clean_up_edges IdSet.contains
clean_up_edges-Cleaned m id [] known = (
  m,
  refl,
  record { kept = λ j. refl; links = λ a b. ground arith; sorted = λ h. h; proper = λ h. h },
)
clean_up_edges-Cleaned m id (x ∷ rest) known = elim (Option-cases (NodeMap.find m x)) [
  | inl absent ↦ absurd (unfold has in ground (arith, known x))
  | inr (n, e) ↦
      let m1 = NodeMap.write m x (Types.remove_edge n id).0 in
      let (m', ends, c) =
        clean_up_edges-Cleaned m1 id rest
          (λ j h. ground (arith, has-write m x (Types.remove_edge n id).0 j, known j)) in
      (
        m',
        rw (e, clean_up_edges) ends,
        record {
          kept = λ j. ground (arith, c.kept j, has-write m x (Types.remove_edge n id).0 j);
          links = λ a b. ground (arith, c.links a b, linked-unlink m x n id a b);
          sorted = λ h. c.sorted (write-IsSorted m x (Types.remove_edge n id).0 h);
          proper = λ h. c.proper (
              write-AllProper m x (Types.remove_edge n id).0 (remove_edge-IsProper x n id (h x n e))
                h);
        },
      )
]
