-- ===== src/Net/Controller.antt =====
-- src/net/http_controller.cc: the handlers of the requests, from the ids that they name on.
pub mod Queries
pub mod Dispatch
pub mod Specification
pub mod Writes
pub mod Edges
use graph_store.Prelude.{
  Bool, true, false, not, ◌&&◌, ◌||◌, Option, none, some, ◌==◌, if◌then◌else◌,
}
use graph_store.Util.Status.{StatusCode, with_result, without_result, is_success, get_code}
use graph_store.Util.Outcome.{Outcome, done, invariant, ◌>>=◌}
use graph_store.Db.Types.{NodeId}
use graph_store.Db.GraphStore.{GraphStore, call}
use graph_store.Db.MemoryStore.Graph as Spec
use graph_store.Db.MemoryStore.Graph.{Op}
use graph_store.Db.Replication.{NodeType, Client, writes_allowed, replicate}
use graph_store.Db.Partition.Manager.{PartitionConfig, target, get_edge_part}
use graph_store.Db.Partition.Remote.{Remote}
use graph_store.Db.Partition.Remote as Parts
use graph_store.Net.Response.{Body, Response, reply, make, added, removed}

-- The members of `HTTPController`: its store, of states `S`; its replication manager, if there is
-- one, by its type and its connection to the successor, of states `W`; and its partition manager,
-- by the connections to the other partitions, of states `R`.
pub record Controller (S W R A : Type 0) : Type 0 where
  pub methods : GraphStore S
  pub repl_manager : Option (NodeType × Client W)
  pub part_config : PartitionConfig A
  pub same : A → A → Bool
  pub part_manager : Option (Remote R A)
  pub logging_enabled : Bool

-- What the handlers change: the store here, those of the replicas behind it, and those of the other
-- partitions.
pub record Site (S W R : Type 0) : Type 0 where
  pub store : S
  pub successors : W
  pub remotes : R

module _ {S W R A : Type 0} (k : Controller S W R A) where
  -- `partManager && partConfig.target(nodeId) != partConfig.us()`
  unfoldable pub is_elsewhere : NodeId → Bool
  is_elsewhere id = elim k.part_manager [
    | none ↦ false
    | some _ ↦ not (target k.part_config id == k.part_config.us)
  ]

  unfoldable pub is_found : Site S W R → NodeId → Bool
  is_found site id = is_success (get_code (k.methods.find_node site.store id))

  -- Whether a write may go on here: there is no replication manager, or it allows the write and
  -- replicates it.
  unfoldable pub replicated : Site S W R → Op → Outcome (Site S W R × Bool)
  unfolding replicate
  replicated site op = elim k.repl_manager [
    | none ↦ done (site, true)
    | some (type, client) ↦
        if writes_allowed type
        then (do
          (successors, ok) ← replicate type client site.successors op
          done (record site { successors = successors }, ok))
        else done (site, false)
  ]

  -- The lines that the four writes end with: the replicas first, then the store here, and the reply
  -- to the status that it returns.
  unfoldable pub commit :
      Site S W R → Op → (StatusCode → Response) → Outcome (Site S W R × Response)
  unfolding replicated
  commit site op answer = do
    (site', ok) ← replicated site op
    if ok
        then (do
          (store, status) ← call k.methods site'.store op
          done (record site' { store = store }, answer status))
        else done (site', make 500)

  unfoldable pub add_node : Site S W R → NodeId → Outcome (Site S W R × Response)
  unfolding is_elsewhere commit
  add_node site id =
      if is_elsewhere id
      then done (site, make 400)
      else commit site (Spec.add_node id) (added (Body.node_id id))

  unfoldable pub remove_node : Site S W R → NodeId → Outcome (Site S W R × Response)
  unfolding is_found commit
  remove_node site id =
      if is_found site id
      then elim k.part_manager [
        | some _ ↦ done (site, make 400)
        | none ↦ commit site (Spec.remove_node id) (removed (Body.node_id id))
      ]
      else done (site, make 400)

  unfoldable pub get_node : Site S W R → NodeId → Response
  unfolding is_elsewhere is_found
  get_node site id = if is_elsewhere id then make 400 else reply (Body.in_graph (is_found site id))

  unfoldable pub is_partitioned_edge_op : NodeId → NodeId → Bool
  is_partitioned_edge_op a b =
      not (target k.part_config a == k.part_config.us)
      || not (target k.part_config b == k.part_config.us)

  -- The rest of `add_edge` and of `remove_edge`, where no other partition is asked.
  unfoldable pub add_edge_local : Site S W R → NodeId → NodeId → Outcome (Site S W R × Response)
  unfolding is_found commit
  add_edge_local site a b =
      if is_found site a && is_found site b
      then commit site (Spec.add_edge a b) (added (Body.node_ids a b))
      else done (site, make 400)

  unfoldable pub remove_edge_local : Site S W R → NodeId → NodeId → Outcome (Site S W R × Response)
  unfolding is_found commit
  remove_edge_local site a b =
      if is_found site a && is_found site b
      then commit site (Spec.remove_edge a b) (removed (Body.node_ids a b))
      else done (site, make 400)

  unfoldable pub add_edge_partition :
      Remote R A → Site S W R → NodeId → NodeId → Outcome (Site S W R × Response)
  unfolding get_edge_part Parts.add_edge
  add_edge_partition remote site a b = elim (get_edge_part k.part_config a b) [
    | without_result code ↦ done (site, make 400)
    | with_result (here, there) ↦
        if is_success (k.methods.get_edge_part site.store here there)
        then done (site, make 204)
        else if a == b
        then done (site, make 400)
        else do
          (remotes, status) ← Parts.add_edge k.same k.part_config remote site.remotes here there
          if is_success status
              then (do
                (store, code) ← k.methods.add_edge_part site.store here there
                invariant (is_success code) (
                    done (
                      record site { store = store; remotes = remotes },
                      reply (Body.node_ids a b),
                    )))
              else done (record site { remotes = remotes }, make 400)
  ]

  unfoldable pub remove_edge_partition :
      Remote R A → Site S W R → NodeId → NodeId → Outcome (Site S W R × Response)
  unfolding get_edge_part Parts.remove_edge
  remove_edge_partition remote site a b = elim (get_edge_part k.part_config a b) [
    | without_result code ↦ done (site, make 400)
    | with_result (here, there) ↦
        if not (is_success (k.methods.get_edge_part site.store here there))
        then done (site, make 400)
        else if a == b
        then done (site, make 400)
        else do
          (remotes, status) ← Parts.remove_edge k.same k.part_config remote site.remotes here there
          if is_success status
              then (do
                (store, code) ← k.methods.remove_edge_part site.store here there
                invariant (is_success code) (
                    done (
                      record site { store = store; remotes = remotes },
                      reply (Body.node_ids a b),
                    )))
              else done (record site { remotes = remotes }, make 400)
  ]

  unfoldable pub add_edge : Site S W R → NodeId → NodeId → Outcome (Site S W R × Response)
  unfolding add_edge_local add_edge_partition is_partitioned_edge_op
  add_edge site a b = elim k.part_manager [
    | none ↦ add_edge_local site a b
    | some remote ↦
        if is_partitioned_edge_op a b
        then add_edge_partition remote site a b
        else add_edge_local site a b
  ]

  unfoldable pub remove_edge : Site S W R → NodeId → NodeId → Outcome (Site S W R × Response)
  unfolding remove_edge_local remove_edge_partition is_partitioned_edge_op
  remove_edge site a b = elim k.part_manager [
    | none ↦ remove_edge_local site a b
    | some remote ↦
        if is_partitioned_edge_op a b
        then remove_edge_partition remote site a b
        else remove_edge_local site a b
  ]
