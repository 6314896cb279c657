-- ===== src/Db/MemoryStore/Parts.antt =====
-- addEdgePart, removeEdgePart and getEdgePart of src/db/memory_store.cc: the one-way edges that a
-- partition holds.
use graph_store.Prelude.{
  ◌≡◌, ◌≢◌, refl, Bool, true, false, not, ◌&&◌, ◌||◌, some, List, [], ◌∷◌, arith, ◌==◌,
  if◌then◌else◌, Option-cases, Bool-cases, inl, inr, ap, ◌∙◌, ==_refl,
}
use graph_store.Util.Status.{StatusCode}
use graph_store.Util.Outcome.{done, exited}
use graph_store.Db.IdSet
use graph_store.Db.Types
use graph_store.Db.Types.{NodeId, Node}
use graph_store.Db.NodeMap
use graph_store.Db.NodeMap.{NodeMap, IsSorted, write-IsSorted}
use graph_store.Db.MemoryStore
use graph_store.Db.MemoryStore.{MemoryStore}
use graph_store.Db.MemoryStore.View.{has, linked, linked_at, has_at, has-write, linked-write}
use graph_store.Db.MemoryStore.Invariant.{
  IsWf, AllProper, write-AllProper, add_edge-IsProper, remove_edge-IsProper,
}

-- The states of a store that holds edge parts: an edge may lead to a node that is elsewhere.
pub record IsPartWf (m : NodeMap) : Type 0 where
  pub sorted : IsSorted m
  pub proper : AllProper m

pub data PartOp : Type 0 where
  add_part remove_part : NodeId → NodeId → PartOp

abbrev pub apply_part : MemoryStore → PartOp → MemoryStore.Mutation
apply_part s (add_part a b) = MemoryStore.add_edge_part s a b
apply_part s (remove_part a b) = MemoryStore.remove_edge_part s a b

abbrev pub part_status : MemoryStore → PartOp → StatusCode
part_status s (add_part a b) =
    if a == b
    then StatusCode.invalid
    else if not (has s.nodes a)
    then StatusCode.does_not_exist
    else if linked s.nodes a b
    then StatusCode.no_action
    else StatusCode.success
part_status s (remove_part a b) =
    if linked s.nodes a b then StatusCode.success else StatusCode.does_not_exist

abbrev pub part_effect : MemoryStore → PartOp → NodeId → NodeId → Bool
part_effect s (add_part a b) x y =
    linked s.nodes x y || (not (a == b) && has s.nodes a) && (a == x && b == y)
part_effect s (remove_part a b) x y = not (a == x && b == y) && linked s.nodes x y

-- `s'` has the nodes of `s` and the one-way edges that the operation leaves.
pub record PartDone (s : MemoryStore) (op : PartOp) (s' : MemoryStore) : Type 0 where
  pub node : (x : NodeId) → has s'.nodes x ≡ has s.nodes x
  pub edge : (x y : NodeId) → linked s'.nodes x y ≡ part_effect s op x y
  pub wf : IsPartWf s'.nodes

-- The method returns, with the status that the specification asks for and such a state.
abbrev pub PartRefines : MemoryStore → PartOp → Type 0
PartRefines s op =
    (s' : MemoryStore) × (apply_part s op ≡ done (s', part_status s op)) × PartDone s op s'

module _ (s : MemoryStore) (a b : NodeId) (wf : IsPartWf s.nodes) where
  add_part_present :
      (n : Node) → NodeMap.find s.nodes a ≡ some n → (a == b) ≡ false → PartRefines s (add_part a b)
  unfolding MemoryStore.add_edge_part
  add_part_present n e apart =
      let n' = (Types.add_edge n b).0 in
      let at = linked_at s.nodes a b n e in
      (
        record { nodes = NodeMap.write s.nodes a n' },
        ground (arith, at, has_at s.nodes a n e, Types.add_edge_added n b),
        record {
          node = λ x. has-write s.nodes a n' x;
          edge = λ x y. ground (
            arith,
            linked-write s.nodes a n' x y,
            linked_at s.nodes a y n e,
            has_at s.nodes a n e,
            Types.has_edge-add_edge n b y,
          );
          wf = record {
            sorted = write-IsSorted s.nodes a n' wf.sorted;
            proper =
                write-AllProper s.nodes a n' (add_edge-IsProper a n b (wf.proper a n e)) wf.proper;
          };
        },
      )

  remove_part_present :
      (n : Node)
      → NodeMap.find s.nodes a ≡ some n
      → linked s.nodes a b ≡ true
      → PartRefines s (remove_part a b)
  unfolding MemoryStore.remove_edge_part
  remove_part_present n e l =
      let n' = (Types.remove_edge n b).0 in
      let at = linked_at s.nodes a b n e in
      (
        record { nodes = NodeMap.write s.nodes a n' },
        ground (arith, at, Types.remove_edge_removed n b),
        record {
          node = λ x. has-write s.nodes a n' x;
          edge = λ x y. ground (
            arith,
            linked-write s.nodes a n' x y,
            linked_at s.nodes a y n e,
            has_at s.nodes a n e,
            Types.has_edge-remove_edge n b y,
          );
          wf = record {
            sorted = write-IsSorted s.nodes a n' wf.sorted;
            proper =
                write-AllProper s.nodes a n' (remove_edge-IsProper a n b (wf.proper a n e))
                  wf.proper;
          };
        },
      )

  add_part_idle : (not (a == b) && has s.nodes a) ≡ false → PartDone s (add_part a b) s
  add_part_idle h = record { node = λ x. refl; edge = λ x y. ground arith; wf = wf }

  remove_part_idle : linked s.nodes a b ≡ false → PartDone s (remove_part a b) s
  remove_part_idle h = record { node = λ x. refl; edge = λ x y. ground arith; wf = wf }

  pub get_edge_part_code :
      MemoryStore.get_edge_part s a b
      ≡ (if linked s.nodes a b then StatusCode.success else StatusCode.does_not_exist)
  unfolding MemoryStore.get_edge_part linked
  get_edge_part_code = ground arith

-- From a store that holds edge parts, addEdgePart and removeEdgePart return with the status, the
-- nodes and the one-way edges that the specification gives, and the store stays well formed.
pub apply_part-Refines : (s : MemoryStore) (op : PartOp) → IsPartWf s.nodes → PartRefines s op
unfolding MemoryStore.add_edge_part MemoryStore.remove_edge_part
apply_part-Refines s (add_part a b) wf = elim (Bool-cases (a == b)) [
  | inl same ↦ (s, ground arith, add_part_idle s a b wf (ground arith))
  | inr apart ↦ elim (Option-cases (NodeMap.find s.nodes a)) [
    | inl absent ↦
        (s, unfold has in ground arith, add_part_idle s a b wf (unfold has in ground arith))
    | inr (n, e) ↦ add_part_present s a b wf n e apart
  ]
]
apply_part-Refines s (remove_part a b) wf = elim (Bool-cases (linked s.nodes a b)) [
  | inr l ↦ (s, ground (arith, get_edge_part_code s a b wf), remove_part_idle s a b wf l)
  | inl l ↦ elim (Option-cases (NodeMap.find s.nodes a)) [
    | inl absent ↦ absurd (unfold linked in ground arith)
    | inr (n, e) ↦ remove_part_present s a b wf n e l
  ]
]

-- What one edge part does to a store without such: the node `a` has an edge to `b` and `b` has none
-- to `a`.
pub one_way :
    (s : MemoryStore) (a b : NodeId)
    → IsWf s.nodes
    → has s.nodes a ≡ true
    → a ≢ b
    → linked s.nodes a b ≡ false
    → (s' : MemoryStore) × (MemoryStore.add_edge_part s a b ≡ done (s', StatusCode.success))
      × (linked s'.nodes a b ≡ true)
      × (linked s'.nodes b a ≡ false)
      × ((x : NodeId) → has s'.nodes x ≡ has s.nodes x)
one_way s a b wf ha ne l =
    let (s', ran, d) =
      apply_part-Refines s (add_part a b) (record { sorted = wf.sorted; proper = wf.proper }) in
    (
      s',
      ran ∙ ap (λ c. done (s', c)) (ground arith),
      ground (arith, d.edge a b, ==_refl a, ==_refl b),
      ground (arith, d.edge b a, wf.symmetric a b),
      d.node,
    )

pub get_edge-one_way :
    (s : MemoryStore) (a b : NodeId)
    → a ≢ b
    → has s.nodes b ≡ true
    → linked s.nodes a b ≡ true
    → linked s.nodes b a ≡ false
    → MemoryStore.get_edge s a b ≡ exited
unfolding MemoryStore.get_edge linked has
get_edge-one_way s a b ne hb l k = ground arith

clean_up_edges-dangling :
    (m : NodeMap) (id : NodeId) (ids : List NodeId) (x : NodeId)
    → IdSet.contains x ids ≡ true
    → has m x ≡ false
    → MemoryStore.clean_up_edges m id ids ≡ exited
unfolding MemoryStore.clean_up_edges IdSet.contains
clean_up_edges-dangling m id [] x c h = cc
clean_up_edges-dangling m id (y ∷ ys) x c h = elim (Option-cases (NodeMap.find m y)) [
  | inl absent ↦ rw (absent, MemoryStore.clean_up_edges) refl
  | inr (n, e) ↦
      let n' = (Types.remove_edge n id).0 in
      rw (e, MemoryStore.clean_up_edges)
        (clean_up_edges-dangling (NodeMap.write m y n') id ys x (unfold has in ground arith)
          (has-write m y n' x ∙ h))
]

pub remove_node-dangling :
    (s : MemoryStore) (a b : NodeId)
    → linked s.nodes a b ≡ true
    → has s.nodes b ≡ false
    → MemoryStore.remove_node s a ≡ exited
unfolding MemoryStore.remove_node linked Types.has_edge
remove_node-dangling s a b l h = elim (Option-cases (NodeMap.find s.nodes a)) [
  | inl absent ↦ ground arith
  | inr (n, e) ↦
      rw (e, MemoryStore.remove_node)
        (rw (clean_up_edges-dangling s.nodes a n.edges b (ground arith) h) refl)
]

-- In a well-formed store with the different nodes `a` and `b` and no edge between them, addEdgePart
-- of `a` and `b` succeeds, and getEdge of the two then makes the process exit.
pub part-then-get_edge :
    (s : MemoryStore) (a b : NodeId)
    → IsWf s.nodes
    → has s.nodes a ≡ true
    → has s.nodes b ≡ true
    → a ≢ b
    → linked s.nodes a b ≡ false
    → (s' : MemoryStore) × (MemoryStore.add_edge_part s a b ≡ done (s', StatusCode.success))
      × (MemoryStore.get_edge s' a b ≡ exited)
part-then-get_edge s a b wf ha hb ne l =
    let (s', ran, ab, ba, kept) = one_way s a b wf ha ne l in
    (s', ran, get_edge-one_way s' a b ne (kept b ∙ hb) ab ba)

-- In a well-formed store with the node `a` and without the node `b`, addEdgePart of `a` and `b`
-- succeeds, and removeNode of `a` then makes the process exit.
pub part-then-remove_node :
    (s : MemoryStore) (a b : NodeId)
    → IsWf s.nodes
    → has s.nodes a ≡ true
    → has s.nodes b ≡ false
    → (s' : MemoryStore) × (MemoryStore.add_edge_part s a b ≡ done (s', StatusCode.success))
      × (MemoryStore.remove_node s' a ≡ exited)
part-then-remove_node s a b wf ha hb =
    let (s', ran, ab, ba, kept) =
      one_way s a b wf ha (λ e. cc) (unfold has linked in ground (arith, wf.symmetric a b)) in
    (s', ran, remove_node-dangling s' a b ab (kept b ∙ hb))
