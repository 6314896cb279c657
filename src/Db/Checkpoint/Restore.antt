-- ===== src/Db/Checkpoint/Restore.antt =====
-- `restoreCheckpoint` of src/db/checkpoint_manager.cc over the words of an image: which nodes and
-- edges come out of it.
use graph_store.Prelude.{
  ◌^◌, ◌<◌, ◌≡◌, refl, ap, ◌∙◌, Bool, true, false, ◌&&◌, ◌||◌, none, some, List, [], ◌∷◌, ◌++◌,
  arith, ◌==◌, ==_refl, length, if◌then◌else◌, Option-cases, inl, inr,
}
use graph_store.Util.Status.{StatusCode, StatusWith, with_result, without_result}
use graph_store.Util.Outcome.{Outcome, done, exited}
use graph_store.Io.Device.{Device}
use graph_store.Db.IdSet
use graph_store.Db.Types
use graph_store.Db.Types.{NodeId, Node, new_node}
use graph_store.Db.NodeMap
use graph_store.Db.NodeMap.{NodeMap, emplace-IsSorted, write-IsSorted, find-emplace}
use graph_store.Db.MemoryStore
use graph_store.Db.MemoryStore.{MemoryStore}
use graph_store.Db.MemoryStore.View.{
  has, linked, has-write, linked-write, has-emplace, linked-emplace, has_at, linked_at,
}
use graph_store.Db.MemoryStore.Invariant.{emplace-AllProper, write-AllProper, add_edge-IsProper}
use graph_store.Db.MemoryStore.Parts.{IsPartWf}
use graph_store.Db.Checkpoint.Reader.{BlockReader}
use graph_store.Db.Checkpoint.Manager.{image, ensure_node, link, restore_edges, restore_nodes}
use graph_store.Db.Checkpoint.Stream.{Reads}

-- `s'` is `s` with more nodes and one-way edges.
pub record Grown (s s' : MemoryStore) (new : NodeId → Bool) (edge : NodeId → NodeId → Bool)
    : Type 0 where
  pub wf : IsPartWf s'.nodes
  pub node : (x : NodeId) → has s'.nodes x ≡ (has s.nodes x || new x)
  pub edges : (a b : NodeId) → linked s'.nodes a b ≡ (linked s.nodes a b || edge a b)

-- The ids that stand in an image, and its one-way edges.
abbrev pub names : NodeMap → NodeId → Bool
names [] x = false
names ((k, n) ∷ m) x = k == x || (IdSet.contains x n.edges || names m x)

abbrev pub joined : NodeMap → NodeId → NodeId → Bool
joined [] a b = false
joined ((k, n) ∷ m) a b = k == a && IdSet.contains b n.edges || joined m a b

abbrev pub AllIds : List NodeId → Type 0
AllIds [] = Unit
AllIds (e ∷ es) = (e < 2 ^ 64) × AllIds es

abbrev pub AllEntries : NodeMap → Type 0
AllEntries [] = Unit
AllEntries ((k, n) ∷ m) = (k < 2 ^ 64) × (AllIds n.edges × AllEntries m)

-- The store with an entry for the id.
abbrev emplaced : MemoryStore → NodeId → MemoryStore
emplaced s id = record { nodes = (NodeMap.emplace s.nodes id (new_node id)).0 }

emplaced-Grown :
    (s : MemoryStore) (id : NodeId)
    → id < 2 ^ 64
    → IsPartWf s.nodes
    → Grown s (emplaced s id) (λ x. id == x) (λ a b. false)
emplaced-Grown s id h wf = record {
  wf = record {
    sorted = emplace-IsSorted s.nodes id (new_node id) h wf.sorted;
    proper = emplace-AllProper s.nodes id wf.proper;
  };
  node = λ x. ground (arith, has-emplace s.nodes id x (new_node id));
  edges = λ a b. ground (arith, linked-emplace s.nodes id a b);
}

add_node_emplaces :
    (s : MemoryStore) (id : NodeId)
    → (c : StatusCode) × (MemoryStore.add_node s id ≡ done (emplaced s id, c))
unfolding MemoryStore.add_node
add_node_emplaces s id = (
  if (NodeMap.emplace s.nodes id (new_node id)).1 then StatusCode.success else StatusCode.no_action,
  refl,
)

find_node_at :
    (s : MemoryStore) (id : NodeId) (n : Node)
    → NodeMap.find s.nodes id ≡ some n
    → MemoryStore.find_node s id ≡ with_result n
unfolding MemoryStore.find_node
find_node_at s id n e = rw (e, MemoryStore.find_node) refl

-- the last step of `ensure_node`, by the answer of `findNode`
abbrev ensured : MemoryStore → StatusWith Node → Outcome (MemoryStore × NodeId)
ensured s (with_result n) = done (s, n.id)
ensured s (without_result code) = exited

ensure_absent :
    (s : MemoryStore) (id : NodeId)
    → NodeMap.find s.nodes id ≡ none
    → ensure_node s id ≡ done (emplaced s id, id)
unfolding ensure_node
ensure_absent s id absent =
    let there : NodeMap.find (emplaced s id).nodes id ≡ some (new_node id) =
      find-emplace s.nodes id (new_node id) id absent ∙ rw (==_refl id) refl in
    let last : ensure_node s id
        ≡ ensured (emplaced s id) (MemoryStore.find_node (emplaced s id) id) =
      rw (absent, ensure_node) refl in
    last ∙ ap (ensured (emplaced s id)) (find_node_at (emplaced s id) id (new_node id) there)

ensure_node_lem :
    (s : MemoryStore) (id : NodeId)
    → id < 2 ^ 64
    → IsPartWf s.nodes
    → (s' : MemoryStore) × (ensure_node s id ≡ done (s', id))
      × Grown s s' (λ x. id == x) (λ a b. false)
unfolding ensure_node MemoryStore.find_node
ensure_node_lem s id h wf = elim (Option-cases (NodeMap.find s.nodes id)) [
  | inl absent ↦ (emplaced s id, ensure_absent s id absent, emplaced-Grown s id h wf)
  | inr (n, e) ↦ (
    s,
    rw (e, ensure_node) (ap (λ x. done (s, x)) (wf.proper id n e).keyed),
    record {
      wf = wf;
      node = λ x. ground (arith, has_at s.nodes id n e);
      edges = λ a b. ground arith;
    },
  )
]

link_lem :
    (s : MemoryStore) (id e : NodeId)
    → has s.nodes id ≡ true
    → IsPartWf s.nodes
    → (s' : MemoryStore) × (link s id e ≡ done s')
      × Grown s s' (λ x. false) (λ a b. id == a && e == b)
unfolding link
link_lem s id e h wf = elim (Option-cases (NodeMap.find s.nodes id)) [
  | inl absent ↦ absurd (unfold has in ground arith)
  | inr (n, at) ↦
      let n' = (Types.add_edge n e).0 in
      (
        record { nodes = NodeMap.write s.nodes id n' },
        rw (at, link) refl,
        record {
          wf = record {
            sorted = write-IsSorted s.nodes id n' wf.sorted;
            proper =
                write-AllProper s.nodes id n' (add_edge-IsProper id n e (wf.proper id n at))
                  wf.proper;
          };
          node = λ x. ground (arith, has-write s.nodes id n' x);
          edges = λ a b. ground (
            arith,
            linked-write s.nodes id n' a b,
            linked_at s.nodes id b n at,
            has_at s.nodes id n at,
            Types.has_edge-add_edge n e b,
          );
        },
      )
]

restore_edges_lem :
    (dev : Device) (edges rest : List NodeId) (r : BlockReader) (s : MemoryStore) (id : NodeId)
    → Reads dev r (edges ++ rest)
    → AllIds edges
    → has s.nodes id ≡ true
    → IsPartWf s.nodes
    → (r' : BlockReader) × (s' : MemoryStore) × (restore_edges (length edges) dev r s id
        ≡ done (r', s'))
      × Reads dev r' rest
      × Grown s s' (λ x. IdSet.contains x edges) (λ a b. id == a && IdSet.contains b edges)
unfolding restore_edges IdSet.contains
restore_edges_lem dev [] rest r s id reads small h wf =
    (r, s, refl, reads, record { wf = wf; node = λ x. ground arith; edges = λ a b. ground arith })
restore_edges_lem dev (e ∷ edges) rest r s id (r1, read, reads) (he, small) h wf =
    let (s1, found, g1) = ensure_node_lem s e he wf in
    let (s2, linked_, g2) = link_lem s1 id e (g1.node id ∙ rw h refl) g1.wf in
    let (r', s', ran, left, g) =
      restore_edges_lem dev edges rest r1 s2 id reads small
        (g2.node id ∙ ground (arith, g1.node id, h)) g2.wf in
    (
      r',
      s',
      rw read (rw found (rw linked_ ran)),
      left,
      record {
        wf = g.wf;
        node = λ x. ground (arith, g.node x, g2.node x, g1.node x);
        edges = λ a b. ground (arith, g.edges a b, g2.edges a b, g1.edges a b);
      },
    )

pub restore_nodes_lem :
    (dev : Device) (m : NodeMap) (r : BlockReader) (s : MemoryStore)
    → Reads dev r (image m)
    → AllEntries m
    → IsPartWf s.nodes
    → (s' : MemoryStore) × (restore_nodes (length m) dev r s ≡ done s')
      × Grown s s' (names m) (joined m)
unfolding restore_nodes image
restore_nodes_lem dev [] r s reads small wf =
    (s, refl, record { wf = wf; node = λ x. ground arith; edges = λ a b. ground arith })
restore_nodes_lem dev ((k, n) ∷ m) r s (r1, first, (r2, second, reads)) (hk, (he, small)) wf =
    let g1 = emplaced-Grown s k hk wf in
    let (r3, s2, linked_, reads', g2) =
      restore_edges_lem dev n.edges (image m) r2 (emplaced s k) k reads he
        (g1.node k ∙ ground (arith, ==_refl k)) g1.wf in
    let (s', ran, g) = restore_nodes_lem dev m r3 s2 reads' small g2.wf in
    (
      s',
      rw first (rw second (rw linked_ ran)),
      record {
        wf = g.wf;
        node = λ x. ground (arith, g.node x, g2.node x, g1.node x);
        edges = λ a b. ground (arith, g.edges a b, g2.edges a b, g1.edges a b);
      },
    )
