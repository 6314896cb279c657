-- ===== src/Net/Controller/Edges.antt =====
-- The writes of src/net/http_controller.cc to an edge between two partitions, each with a store in
-- memory, as src/main.cc sets them up.
pub mod Adding
pub mod Removing
use graph_store.Prelude.{
  ◌≡◌, ◌≢◌, refl, ap, ◌∙◌, sym, Bool, true, false, not, ◌&&◌, ◌||◌, Option, none, some, inl, inr,
  arith, ◌==◌, ==-ne, ==_symm, eq_of_==, if◌then◌else◌, Bool-cases,
}
use graph_store.Util.Status.{StatusCode, with_result, is_success}
use graph_store.Util.Outcome.{Outcome, done, exited, invariant, ◌>>=◌}
use graph_store.Db.Types.{NodeId}
use graph_store.Db.MemoryStore
use graph_store.Db.MemoryStore.{MemoryStore}
use graph_store.Db.MemoryStore.View.{has, linked}
use graph_store.Db.MemoryStore.Parts.{
  IsPartWf, PartOp, PartDone, add_part, remove_part, part_status, apply_part-Refines,
  get_edge_part_code,
}
use graph_store.Db.GraphStore.{memory_store}
use graph_store.Db.Replication.{NodeType, Client}
use graph_store.Db.Partition.Manager.{
  PartitionConfig, target, get_edge_part, get_partition_outbound,
}
use graph_store.Db.Partition.Remote.{Remote, handle_part, call_remote}
use graph_store.Db.Partition.Remote as Remotes
use graph_store.Net.Response.{Body, Response, reply, make}
use graph_store.Net.Controller
use graph_store.Net.Controller.{Controller, Site, is_partitioned_edge_op}

-- The controller of a partition, with or without a replication manager.
abbrev pub partition_controller :
    {W A : Type 0}
    → Option (NodeType × Client W)
    → (A → A → Bool)
    → PartitionConfig A
    → Remote MemoryStore A
    → Controller MemoryStore W MemoryStore A
partition_controller m same c remote = record {
  methods = memory_store;
  repl_manager = m;
  part_config = c;
  same = same;
  part_manager = some remote;
  logging_enabled = false;
}

-- The connection to the partition of `there` reaches the handler of that partition: a call is
-- delivered once, and its answer comes back.
abbrev pub Reaches :
    {A : Type 0} → (A → A → Bool) → PartitionConfig A → Remote MemoryStore A → NodeId → Type 0
Reaches {A} same c remote there =
    (address : A) × (get_partition_outbound same c (target c there) ≡ done address)
    × ((t : MemoryStore) (op : PartOp) → remote t address op ≡ handle_part memory_store t op)

-- The graph `t` is that of `s` with or without the one-way edge from `a` to `b`.
abbrev pub AddedIf : Bool → NodeId → NodeId → MemoryStore → MemoryStore → Type 0
AddedIf yes_ a b s t =
    ((x : NodeId) → has t.nodes x ≡ has s.nodes x)
    × ((x y : NodeId) → linked t.nodes x y ≡ (linked s.nodes x y || yes_ && (a == x && b == y)))

abbrev pub RemovedIf : Bool → NodeId → NodeId → MemoryStore → MemoryStore → Type 0
RemovedIf yes_ a b s t =
    ((x : NodeId) → has t.nodes x ≡ has s.nodes x)
    × ((x y : NodeId)
        → linked t.nodes x y ≡ (not (yes_ && (a == x && b == y)) && linked s.nodes x y))

module _ {A : Type 0} (same : A → A → Bool) (c : PartitionConfig A) (remote : Remote MemoryStore A)
    (here there : NodeId) (local : (target c here == c.us) ≡ true)
    (reaches : Reaches same c remote there) where
  pub call_remote_lem :
      (t : MemoryStore) (op : PartOp)
      → IsPartWf t.nodes
      → (t' : MemoryStore) × (call_remote same c remote t here there op
          ≡ done (
            t',
            if is_success (part_status t op) then StatusCode.success else StatusCode.partition_fail,
          ))
        × PartDone t op t'
  unfolding call_remote handle_part
  call_remote_lem t (add_part a b) wf =
      let (address, connected, delivers) = reaches in
      let (t', ran, d) = apply_part-Refines t (add_part a b) wf in
      (t', rw local (rw connected (rw (delivers t (add_part a b)) (rw ran refl))), d)
  call_remote_lem t (remove_part a b) wf =
      let (address, connected, delivers) = reaches in
      let (t', ran, d) = apply_part-Refines t (remove_part a b) wf in
      (t', rw local (rw connected (rw (delivers t (remove_part a b)) (rw ran refl))), d)

module _ {A : Type 0} (c : PartitionConfig A) (a b here there : NodeId)
    (part : get_edge_part c a b ≡ with_result (here, there)) where
  pub part_local : (target c here == c.us) ≡ true
  unfolding get_edge_part
  part_local = ground (arith, part)

  pub part_apart : a ≢ b → (here == there) ≡ false
  unfolding get_edge_part
  part_apart ne = ground (arith, part)
