-- ===== src/Net/Controller/Queries.antt =====
-- src/net/http_controller.cc: the handlers that read the store, and `checkpoint`.
use graph_store.Prelude.{ℕ, Bool, true, false, Option, none, some, not, if◌then◌else◌}
use graph_store.Util.Status.{
  StatusCode, StatusWith, with_result, without_result, is_success, get_code,
}
use graph_store.Util.Outcome.{Outcome, done, invariant, ◌>>=◌}
use graph_store.Db.Types.{NodeId}
use graph_store.Db.Replication.{CheckpointStatus, replicate_checkpoint}
use graph_store.Db.Partition.Manager.{get_edge_part}
use graph_store.Net.Response.{Body, Response, reply, make}
use graph_store.Net.Controller.{Controller, Site, is_elsewhere, is_partitioned_edge_op}

-- the reply to the status of `shortestPath`
abbrev pub path_reply : StatusWith ℕ → Response
path_reply (with_result d) = reply (Body.distance d)
path_reply (without_result StatusCode.no_action) = make 204
path_reply (without_result _) = make 400

-- the reply to the status of the store's checkpoint, once NO_SPACE is excluded by an `invariant`
abbrev pub checkpoint_reply : {A : Type 0} → A → StatusCode → Outcome (A × Response)
checkpoint_reply site StatusCode.no_space = done (site, make 507)
checkpoint_reply site status = invariant (is_success status) (done (site, reply Body.ok))

module _ {S W R A : Type 0} (k : Controller S W R A) where
  unfoldable pub get_edge_local : Site S W R → NodeId → NodeId → Outcome Response
  get_edge_local site a b = do
    status ← k.methods.get_edge site.store a b
    done (reply (Body.in_graph (is_success (get_code status))))

  unfoldable pub get_edge : Site S W R → NodeId → NodeId → Outcome Response
  unfolding get_edge_local is_partitioned_edge_op get_edge_part
  get_edge site a b = elim k.part_manager [
    | none ↦ get_edge_local site a b
    | some _ ↦
        if is_partitioned_edge_op k a b
        then elim (get_edge_part k.part_config a b) [
          | without_result code ↦ done (make 400)
          | with_result (here, there) ↦
              done
                (reply (Body.in_graph (is_success (k.methods.get_edge_part site.store here there))))
        ]
        else get_edge_local site a b
  ]

  unfoldable pub get_neighbors : Site S W R → NodeId → Response
  unfolding is_elsewhere
  get_neighbors site id =
      if is_elsewhere k id then make 400 else elim (k.methods.get_neighbors site.store id) [
        | without_result code ↦ make 400
        | with_result ids ↦ reply (Body.neighbors id ids)
      ]

  -- `none` says that the fuel of the store's search ran out.
  unfoldable pub shortest_path : Site S W R → NodeId → NodeId → Outcome (Option Response)
  shortest_path site a b = elim k.part_manager [
    | some _ ↦ done (some (make 400))
    | none ↦ do
      found ← k.methods.shortest_path site.store a b
      elim found [ none ↦ done none | some status ↦ done (some (path_reply status)) ]
  ]

  -- whether the replicas have taken a checkpoint, if there are any
  unfoldable pub replicated_checkpoint : Site S W R → Outcome (Site S W R × Bool)
  unfolding replicate_checkpoint
  replicated_checkpoint site = elim k.repl_manager [
    | none ↦ done (site, true)
    | some (type, client) ↦ do
      (successors, status) ← replicate_checkpoint type client site.successors
      done (
        record site { successors = successors },
        elim status [ CheckpointStatus.success ↦ true | _ ↦ false ],
      )
  ]

  unfoldable pub checkpoint : Site S W R → Outcome (Site S W R × Response)
  unfolding replicated_checkpoint
  checkpoint site = if not k.logging_enabled then done (site, make 501) else elim k.part_manager [
    | some _ ↦ done (site, make 400)
    | none ↦ do
      (site', ok) ← replicated_checkpoint site
      if ok
          then (do
            (store, status) ← k.methods.take_checkpoint site'.store
            checkpoint_reply (record site' { store = store }) status)
          else done (site', make 500)
  ]
