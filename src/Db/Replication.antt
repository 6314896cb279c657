-- ===== src/Db/Replication.antt =====
-- src/db/replication_manager.cc, the handler of src/net/replication_server.cc and the calls of
-- src/net/replication_outbound.cc: chain replication. A write goes from the head over the nodes in
-- the middle to the tail. The code that Thrift generates from src/net/repl.thrift, with the
-- network, is a parameter.
pub mod Agreement
pub mod Answers
pub mod Examples
use graph_store.Prelude.{ℕ, zero, suc, ◌≡◌, Bool, true, false, if◌then◌else◌}
use graph_store.Util.Status.{StatusCode, is_success}
use graph_store.Util.Outcome.{Outcome, done, exited, invariant, ◌>>=◌}
use graph_store.Db.MemoryStore.Graph.{Op}
use graph_store.Db.GraphStore.{GraphStore, call}

pub data NodeType : Type 0 where
  head mid tail : NodeType

-- of repl.thrift
pub data CheckpointResult : Type 0 where
  out_of_space checkpoint_disabled success : CheckpointResult

pub data CheckpointStatus : Type 0 where
  repl_fail out_of_space checkpoint_disabled success : CheckpointStatus

-- The connection to the successor of a node: what a call of `addNode`, `removeNode`, `addEdge` or
-- `removeEdge`, and one of `checkpoint`, does to the states `W` of the nodes behind it, and what it
-- returns. A call that raises an exception makes the process exit.
pub record Client (W : Type 0) : Type 0 where
  pub send : W → Op → Outcome (W × Bool)
  pub checkpoint : W → Outcome (W × CheckpointResult)

abbrev pub writes_allowed : NodeType → Bool
writes_allowed NodeType.head = true
writes_allowed _ = false

-- `result` through the `switch` of `replicateCheckpoint`, for the values of repl.thrift
abbrev pub checkpoint_status : CheckpointResult → CheckpointStatus
checkpoint_status CheckpointResult.out_of_space = CheckpointStatus.out_of_space
checkpoint_status CheckpointResult.checkpoint_disabled = CheckpointStatus.checkpoint_disabled
checkpoint_status CheckpointResult.success = CheckpointStatus.success

module _ {W : Type 0} where
  -- `replicateAddNode`, `replicateRemoveNode`, `replicateAddEdge` and `replicateRemoveEdge`
  unfoldable pub replicate : NodeType → Client W → W → Op → Outcome (W × Bool)
  replicate NodeType.tail client w op = done (w, true)
  replicate _ client w op = client.send w op

  unfoldable pub replicate_checkpoint : NodeType → Client W → W → Outcome (W × CheckpointStatus)
  replicate_checkpoint NodeType.tail client w = done (w, CheckpointStatus.success)
  replicate_checkpoint _ client w = do
    (w', result) ← client.checkpoint w
    done (w', checkpoint_status result)

-- A node behind the head: its manager's type, its store, and whether its handler logs.
pub record Replica (S : Type 0) : Type 0 where
  pub type : NodeType
  pub logging_enabled : Bool
  pub store : S

-- the second `switch` of the handler's `checkpoint`
abbrev pub checkpoint_result : CheckpointStatus → CheckpointResult
checkpoint_result CheckpointStatus.checkpoint_disabled = CheckpointResult.checkpoint_disabled
checkpoint_result CheckpointStatus.out_of_space = CheckpointResult.out_of_space
checkpoint_result CheckpointStatus.success = CheckpointResult.success
checkpoint_result _ = CheckpointResult.checkpoint_disabled

module _ {S W : Type 0} (G : GraphStore S) (client : Client W) where
  -- `addNode`, `removeNode`, `addEdge` and `removeEdge` of `ReplicationHandler`
  unfoldable pub handle : Replica S → W → Op → Outcome ((Replica S × W) × Bool)
  unfolding replicate
  handle r w op = do
    (store, status) ← call G r.store op
    if is_success status
        then (do (w', b) ← replicate r.type client w op; done ((record r { store = store }, w'), b))
        else done ((record r { store = store }, w), false)

  -- `checkpoint` of `ReplicationHandler`
  unfoldable pub handle_checkpoint : Replica S → W → Outcome ((Replica S × W) × CheckpointResult)
  unfolding replicate_checkpoint
  handle_checkpoint r w =
      if r.logging_enabled
      then (do
        (store, status) ← G.take_checkpoint r.store
        if is_success status
            then (do
              (w', s) ← replicate_checkpoint r.type client w
              done ((record r { store = store }, w'), checkpoint_result s))
            else done ((record r { store = store }, w), CheckpointResult.out_of_space))
      else done ((r, w), CheckpointResult.checkpoint_disabled)

-- The `n` nodes behind a node, the successor first.
abbrev pub Chain : Type 0 → ℕ → Type 0
Chain S zero = Unit
Chain S (suc n) = Replica S × Chain S n

-- What the generated client and server and the network make of the handler's methods.
abbrev pub Network : Type 1
Network = (W : Type 0) → Client W → Client W

-- A call of the client is one call of the handler and returns what that returns.
abbrev pub Delivers : Network → Type 1
Delivers network = (W : Type 0) (client : Client W) → network W client ≡ client

-- The connection to the successor, where the servers run `ReplicationHandler`. Nothing answers
-- behind the last node.
unfoldable pub chain_client : {S : Type 0} → GraphStore S → Network → (n : ℕ) → Client (Chain S n)
unfolding handle handle_checkpoint
chain_client G network zero = record { send = λ w op. exited; checkpoint = λ w. exited }
chain_client {S} G network (suc n) =
    let behind = chain_client G network n in
    network (Chain S (suc n)) (record {
      send = λ c op. handle G behind c.0 c.1 op;
      checkpoint = λ c. handle_checkpoint G behind c.0 c.1;
    })
