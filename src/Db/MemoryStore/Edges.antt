-- ===== src/Db/MemoryStore/Edges.antt =====
-- addEdge and removeEdge of src/db/memory_store.cc.
use graph_store.Prelude.{
  ◌≡◌, refl, true, false, not, ◌&&◌, ◌||◌, none, some, arith, ◌==◌, ◌∙◌, if◌then◌else◌, ◌⊎◌,
  Option-cases, Bool-cases, inl, inr,
}
use graph_store.Db.Types
use graph_store.Db.Types.{NodeId, Node, new_node}
use graph_store.Db.NodeMap
use graph_store.Db.NodeMap.{
  NodeMap, IsSorted, emplace-IsSorted, erase-IsSorted, write-IsSorted, find-write, find-erase,
  find-emplace,
}
use graph_store.Db.MemoryStore
use graph_store.Db.MemoryStore.{MemoryStore, Mutation}
use graph_store.Db.MemoryStore.View.{has, linked, has-write, linked-write, linked_at, has_at}
use graph_store.Db.MemoryStore.Invariant.{
  IsProper, AllProper, IsWf, add_edge-IsProper, remove_edge-IsProper, write-AllProper,
}
use graph_store.Db.MemoryStore.Graph.{joins, add_edge, remove_edge}
use graph_store.Db.MemoryStore.Simulation.{Implements, Refines}

module _ (s : MemoryStore) (a b : NodeId) (wf : IsWf s.nodes) where
  absent_edge : (x y : NodeId) → has s.nodes x ≡ false → linked s.nodes x y ≡ false
  unfolding has linked
  absent_edge x y h = ground arith

  -- Where nothing is to be changed.
  add_edge-idle :
      (not (a == b) && (has s.nodes a && has s.nodes b)) ≡ false → Implements s (add_edge a b) s
  add_edge-idle h = record { node = λ x. refl; edge = λ x y. ground arith; wf = wf }

  remove_edge-idle : linked s.nodes a b ≡ false → Implements s (remove_edge a b) s
  remove_edge-idle h = record {
    node = λ x. refl;
    edge = λ x y. ground (arith, wf.symmetric a b);
    wf = wf;
  }

-- Two different nodes are written, as by `addEdge` and `removeEdge`.
module _ (m : NodeMap) (a b : NodeId) (na nb na' nb' : Node) where
  abbrev both : NodeMap
  both = NodeMap.write (NodeMap.write m a na') b nb'

  has-both : (x : NodeId) → has both x ≡ has m x
  has-both x = has-write (NodeMap.write m a na') b nb' x ∙ has-write m a na' x

  linked-both :
      (x y : NodeId)
      → NodeMap.find m a ≡ some na
      → NodeMap.find m b ≡ some nb
      → linked both x y ≡ (
          if b == x
          then Types.has_edge nb' y
          else if a == x
          then Types.has_edge na' y
          else linked m x y)
  linked-both x y ea eb = ground (
    arith,
    linked-write (NodeMap.write m a na') b nb' x y,
    linked-write m a na' x y,
    has-write m a na' b,
    has_at m a na ea,
    has_at m b nb eb,
  )

  both-AllProper : IsProper a na' → IsProper b nb' → AllProper m → AllProper both
  both-AllProper ha hb all =
      write-AllProper (NodeMap.write m a na') b nb' hb (write-AllProper m a na' ha all)

  both-IsSorted : IsSorted m → IsSorted both
  both-IsSorted h = write-IsSorted (NodeMap.write m a na') b nb' (write-IsSorted m a na' h)

module _ (s : MemoryStore) (a b : NodeId) (wf : IsWf s.nodes) (na nb : Node)
    (apart : (a == b) ≡ false) (ea : NodeMap.find s.nodes a ≡ some na)
    (eb : NodeMap.find s.nodes b ≡ some nb) where
  abbrev added : NodeMap
  added = both s.nodes a b na nb (Types.add_edge na b).0 (Types.add_edge nb a).0

  linked-added : (x y : NodeId) → linked added x y ≡ (linked s.nodes x y || joins a b x y)
  linked-added x y = ground (
    arith,
    linked-both s.nodes a b na nb (Types.add_edge na b).0 (Types.add_edge nb a).0 x y ea eb,
    Types.has_edge-add_edge na b y,
    Types.has_edge-add_edge nb a y,
    linked_at s.nodes a y na ea,
    linked_at s.nodes b y nb eb,
  )

  added-IsWf : IsWf added
  added-IsWf = record {
    sorted =
        both-IsSorted s.nodes a b na nb (Types.add_edge na b).0 (Types.add_edge nb a).0 wf.sorted;
    proper =
        both-AllProper s.nodes a b na nb (Types.add_edge na b).0 (Types.add_edge nb a).0
          (add_edge-IsProper a na b (wf.proper a na ea))
          (add_edge-IsProper b nb a (wf.proper b nb eb)) wf.proper;
    symmetric = λ x y. ground (arith, linked-added x y, linked-added y x, wf.symmetric x y);
    irreflexive = λ x. ground (arith, linked-added x x, wf.irreflexive x);
  }

  abbrev removed : NodeMap
  removed = both s.nodes a b na nb (Types.remove_edge na b).0 (Types.remove_edge nb a).0

  linked-removed : (x y : NodeId) → linked removed x y ≡ (not (joins a b x y) && linked s.nodes x y)
  linked-removed x y = ground (
    arith,
    linked-both s.nodes a b na nb (Types.remove_edge na b).0 (Types.remove_edge nb a).0 x y ea eb,
    Types.has_edge-remove_edge na b y,
    Types.has_edge-remove_edge nb a y,
    linked_at s.nodes a y na ea,
    linked_at s.nodes b y nb eb,
  )

  removed-IsWf : IsWf removed
  removed-IsWf = record {
    sorted =
        both-IsSorted s.nodes a b na nb (Types.remove_edge na b).0 (Types.remove_edge nb a).0
          wf.sorted;
    proper =
        both-AllProper s.nodes a b na nb (Types.remove_edge na b).0 (Types.remove_edge nb a).0
          (remove_edge-IsProper a na b (wf.proper a na ea))
          (remove_edge-IsProper b nb a (wf.proper b nb eb)) wf.proper;
    symmetric = λ x y. ground (arith, linked-removed x y, linked-removed y x, wf.symmetric x y);
    irreflexive = λ x. ground (arith, linked-removed x x, wf.irreflexive x);
  }

  facts : (Types.has_edge na b ≡ linked s.nodes a b) × (Types.has_edge nb a ≡ linked s.nodes a b)
  facts = ground (arith, linked_at s.nodes a b na ea, linked_at s.nodes b a nb eb, wf.symmetric a b)

  add_edge_present : Refines s (add_edge a b)
  unfolding MemoryStore.add_edge
  add_edge_present = (
    record { nodes = added },
    ground (
      arith,
      facts,
      Types.add_edge_added na b,
      Types.add_edge_added nb a,
      has_at s.nodes a na ea,
      has_at s.nodes b nb eb,
    ),
    record {
      node = λ x. has-both s.nodes a b na nb (Types.add_edge na b).0 (Types.add_edge nb a).0 x;
      edge =
          λ x y. ground (arith, linked-added x y, has_at s.nodes a na ea, has_at s.nodes b nb eb);
      wf = added-IsWf;
    },
  )

  remove_edge_present : Refines s (remove_edge a b)
  unfolding MemoryStore.remove_edge
  remove_edge_present = elim (Bool-cases (linked s.nodes a b)) [
    | inl l ↦ (
      record { nodes = removed },
      ground (arith, facts, Types.remove_edge_removed na b, Types.remove_edge_removed nb a),
      record {
        node =
            λ x. has-both s.nodes a b na nb (Types.remove_edge na b).0 (Types.remove_edge nb a).0 x;
        edge = λ x y. linked-removed x y;
        wf = removed-IsWf;
      },
    )
    | inr l ↦ (s, ground (arith, facts), remove_edge-idle s a b wf l)
  ]

module _ (s : MemoryStore) (a b : NodeId) (wf : IsWf s.nodes) where
  -- The ids are equal, or one of the nodes is not there.
  abbrev Invalid : Type 0
  Invalid = (a == b) ≡ true ⊎ (NodeMap.find s.nodes a ≡ none ⊎ NodeMap.find s.nodes b ≡ none)

  abbrev Valid : Type 0
  Valid =
      ((a == b) ≡ false)
      × (na : Node) × (NodeMap.find s.nodes a ≡ some na)
      × (nb : Node) × (NodeMap.find s.nodes b ≡ some nb)

  valid_cases : Invalid ⊎ Valid
  valid_cases = elim (Bool-cases (a == b)) [
    | inl same ↦ inl (inl same)
    | inr apart ↦ elim (Option-cases (NodeMap.find s.nodes a)) [
      | inl no_a ↦ inl (inr (inl no_a))
      | inr (na, ea) ↦ elim (Option-cases (NodeMap.find s.nodes b)) [
        | inl no_b ↦ inl (inr (inr no_b))
        | inr (nb, eb) ↦ inr (apart, na, ea, nb, eb)
      ]
    ]
  ]

  unlinked : Invalid → linked s.nodes a b ≡ false
  unfolding linked
  unlinked h = ground (arith, wf.symmetric a b, wf.irreflexive a)

  pub add_edge-Refines : Refines s (add_edge a b)
  unfolding MemoryStore.add_edge
  add_edge-Refines = elim valid_cases [
    | inl h ↦ (
      s,
      unfold has in ground (arith, unlinked h),
      add_edge-idle s a b wf (unfold has in ground arith),
    )
    | inr (apart, na, ea, nb, eb) ↦ add_edge_present s a b wf na nb apart ea eb
  ]

  pub remove_edge-Refines : Refines s (remove_edge a b)
  unfolding MemoryStore.remove_edge
  remove_edge-Refines = elim valid_cases [
    | inl h ↦ (s, ground (arith, unlinked h), remove_edge-idle s a b wf (unlinked h))
    | inr (apart, na, ea, nb, eb) ↦ remove_edge_present s a b wf na nb apart ea eb
  ]
