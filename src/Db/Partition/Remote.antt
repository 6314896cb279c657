-- ===== src/Db/Partition/Remote.antt =====
-- `addEdge` and `removeEdge` of src/db/partition/partition_manager.cc, and the handler of
-- src/net/partition_server.cc that answers them. The code that Thrift generates, with the network,
-- is a parameter.
use graph_store.Prelude.{Bool, ◌==◌, if◌then◌else◌}
use graph_store.Util.Status.{StatusCode, is_success}
use graph_store.Util.Outcome.{Outcome, done, invariant, ◌>>=◌}
use graph_store.Db.Types.{NodeId}
use graph_store.Db.GraphStore.{GraphStore}
use graph_store.Db.MemoryStore.Parts.{PartOp, add_part, remove_part}
use graph_store.Db.Partition.Manager.{PartitionConfig, target, get_partition_outbound}

-- A call of `addEdgePart` or `removeEdgePart` on the connection to an address, which changes the
-- states `R` of the other partitions. A call that raises an exception makes the process exit.
abbrev pub Remote : Type 0 → Type 0 → Type 0
Remote R A = R → A → PartOp → Outcome (R × Bool)

module _ {R A : Type 0} (same : A → A → Bool) (c : PartitionConfig A) (remote : Remote R A) where
  -- The lines that both methods share. `start` opens the connections that the call chooses from.
  unfoldable pub call_remote : R → NodeId → NodeId → PartOp → Outcome (R × StatusCode)
  call_remote r local_id remote_id op = invariant (target c local_id == c.us) (do
    a ← get_partition_outbound same c (target c remote_id)
    (r', ok) ← remote r a op
    done (r', if ok then StatusCode.success else StatusCode.partition_fail))

  unfoldable pub add_edge : R → NodeId → NodeId → Outcome (R × StatusCode)
  unfolding call_remote
  add_edge r local_id remote_id = call_remote r local_id remote_id (add_part remote_id local_id)

  unfoldable pub remove_edge : R → NodeId → NodeId → Outcome (R × StatusCode)
  unfolding call_remote
  remove_edge r local_id remote_id =
      call_remote r local_id remote_id (remove_part remote_id local_id)

-- `PartitionHandler`
unfoldable pub handle_part : {S : Type 0} → GraphStore S → S → PartOp → Outcome (S × Bool)
handle_part G s (add_part local_id remote_id) = do
  (s', status) ← G.add_edge_part s local_id remote_id
  done (s', is_success status)
handle_part G s (remove_part local_id remote_id) = do
  (s', status) ← G.remove_edge_part s local_id remote_id
  done (s', is_success status)
