-- ===== src/Db/LoggedStore.antt =====
-- src/db/logged_store.h and src/db/logged_store.cc: the store in memory behind a log and a
-- checkpoint. The lock of each method is held until it returns, so that a method is one step.
pub mod Recovery
pub mod Durability
pub mod Progress
pub mod Restart
pub mod Returns
pub mod Persistence
pub mod Resumed
pub mod Checkpointed
pub mod CheckpointExamples
pub mod Examples
use graph_store.Prelude.{
  ℕ, zero, suc, ◌+◌, ◌-◌, ◌*◌, ◌/◌, ◌%◌, ◌^◌, Bool, true, false, ◌&&◌, Option, none, some, List, [],
  ◌∷◌, ltb, if◌then◌else◌,
}
use graph_store.Util.Status.{StatusCode, StatusWith, is_success}
use graph_store.Util.Outcome.{Outcome, done, exited, invariant, ◌>>=◌}
use graph_store.Io.Device.{Device}
use graph_store.Db.Types.{NodeId, Node}
use graph_store.Db.MemoryStore
use graph_store.Db.MemoryStore.{MemoryStore, Mutation, empty}
use graph_store.Db.MemoryStore.ShortestPath
use graph_store.Db.Log.Layout.{log_block_entry_count}
use graph_store.Db.Log.Entry.{OpCode, Entry}
use graph_store.Db.Log.SuperBlock
use graph_store.Db.Log.Manager as LogOps
use graph_store.Db.Log.Manager.{LogManager}
use graph_store.Db.Log.Reader.{read_log, for_each}
use graph_store.Db.Checkpoint.Manager as Checkpoints
use graph_store.Db.Checkpoint.Manager.{CheckpointManager}

pub record LoggedStore : Type 0 where
  pub device : Device
  pub log : LogManager
  pub checkpoint : CheckpointManager
  pub memory : MemoryStore

abbrev pub LoggedMutation : Type 0
LoggedMutation = Outcome (LoggedStore × StatusCode)

-- `return _memoryStore.…`
unfoldable pub in_memory : LoggedStore → Mutation → LoggedMutation
in_memory s m = do (memory, status) ← m; done (record s { memory = memory }, status)

-- The lines that all the methods that change the store share: log the operation, return the status
-- if that failed, else call the store in memory.
unfoldable pub logged_operation :
    LoggedStore → OpCode → NodeId → NodeId → (MemoryStore → Mutation) → LoggedMutation
unfolding in_memory
logged_operation s opcode id_a id_b operation =
    let (device, log, status) =
      LogOps.log_operation s.device s.log (record { opcode = opcode; id_a = id_a; id_b = id_b }) in
    let s' = record s { device = device; log = log } in
    if is_success status then in_memory s' (operation s'.memory) else done (s', status)

unfoldable pub add_node : LoggedStore → NodeId → LoggedMutation
unfolding logged_operation
add_node s id = logged_operation s OpCode.add_node id 0 (λ m. MemoryStore.add_node m id)

unfoldable pub remove_node : LoggedStore → NodeId → LoggedMutation
unfolding logged_operation
remove_node s id = logged_operation s OpCode.remove_node id 0 (λ m. MemoryStore.remove_node m id)

unfoldable pub add_edge : LoggedStore → NodeId → NodeId → LoggedMutation
unfolding logged_operation
add_edge s a b = logged_operation s OpCode.add_edge a b (λ m. MemoryStore.add_edge m a b)

unfoldable pub remove_edge : LoggedStore → NodeId → NodeId → LoggedMutation
unfolding logged_operation
remove_edge s a b = logged_operation s OpCode.remove_edge a b (λ m. MemoryStore.remove_edge m a b)

unfoldable pub add_edge_part : LoggedStore → NodeId → NodeId → LoggedMutation
unfolding logged_operation
add_edge_part s a b =
    logged_operation s OpCode.add_edge_part a b (λ m. MemoryStore.add_edge_part m a b)

unfoldable pub remove_edge_part : LoggedStore → NodeId → NodeId → LoggedMutation
unfolding logged_operation
remove_edge_part s a b =
    logged_operation s OpCode.remove_edge_part a b (λ m. MemoryStore.remove_edge_part m a b)

-- The methods that read go to the store in memory.
unfoldable pub find_node : LoggedStore → NodeId → StatusWith Node
find_node s id = MemoryStore.find_node s.memory id

unfoldable pub get_edge : LoggedStore → NodeId → NodeId → Outcome (StatusWith (Node × Node))
get_edge s a b = MemoryStore.get_edge s.memory a b

unfoldable pub get_edge_part : LoggedStore → NodeId → NodeId → StatusCode
get_edge_part s a b = MemoryStore.get_edge_part s.memory a b

unfoldable pub get_neighbors : LoggedStore → NodeId → StatusWith (List NodeId)
get_neighbors s id = MemoryStore.get_neighbors s.memory id

unfoldable pub shortest_path : LoggedStore → NodeId → NodeId → Outcome (Option (StatusWith ℕ))
shortest_path s a b = ShortestPath.shortest_path s.memory a b

-- `checkpoint`
unfoldable pub take_checkpoint : LoggedStore → LoggedMutation
take_checkpoint s = do
  (device, c, status) ←
      Checkpoints.perform_checkpoint s.device s.checkpoint s.memory (LogOps.get_generation s.log)
  if is_success status
      then (do
        (device', log, generation) ← LogOps.increase_generation device s.log
        done (record s { device = device'; log = log; checkpoint = c }, StatusCode.success))
      else done (record s { device = device; checkpoint = c }, status)

-- `result` of a call whose status is dropped
abbrev state_of : Mutation → Outcome MemoryStore
state_of m = m >>= λ r. done r.0

-- The `switch` of `recover`. The case REMOVE_EDGE has no `break` and goes on into the next one.
unfoldable pub apply_entry : MemoryStore → Entry → Outcome MemoryStore
apply_entry m e = elim e.opcode [
  | OpCode.add_node ↦ state_of (MemoryStore.add_node m e.id_a)
  | OpCode.remove_node ↦ state_of (MemoryStore.remove_node m e.id_a)
  | OpCode.add_edge ↦ state_of (MemoryStore.add_edge m e.id_a e.id_b)
  | OpCode.remove_edge ↦ do
    m' ← state_of (MemoryStore.remove_edge m e.id_a e.id_b)
    state_of (MemoryStore.add_edge_part m' e.id_a e.id_b)
  | OpCode.add_edge_part ↦ state_of (MemoryStore.add_edge_part m e.id_a e.id_b)
  | OpCode.remove_edge_part ↦ state_of (MemoryStore.remove_edge_part m e.id_a e.id_b)
  | OpCode.other n ↦ done m
]

-- `_log.getGeneration() - 1`, on `uint64_t`
abbrev pub previous : ℕ → ℕ
previous generation = (generation + 2 ^ 64 - 1) % 2 ^ 64

-- The rounds that the loop of `recover` is given: one more than there is room for entries.
abbrev pub recovery_fuel : LogManager → ℕ
recovery_fuel log = suc (log_block_entry_count * SuperBlock.log_segment_size log.superblock.words)

-- `none` says that the fuel ran out.
unfoldable pub recover : LoggedStore → Outcome (Option LoggedStore)
recover s = do
  restored ←
      Checkpoints.restore_checkpoint s.device s.checkpoint s.memory
        (previous (LogOps.get_generation s.log))
  reader ← read_log s.device s.log
  ended ← for_each (recovery_fuel s.log) s.device reader apply_entry restored
  elim ended [ none ↦ done none | some memory ↦ done (some (record s { memory = memory })) ]

-- The checks of the two constructors that the constructor here runs.
abbrev pub ranges_allowed : Device → Bool
ranges_allowed dev = LogOps.range_allowed dev 0 (dev.size / 5) && ltb (dev.size / 5) dev.size

-- `LoggedStore(deviceName, true)`
unfoldable pub format_store : Device → Outcome LoggedStore
format_store dev = invariant (ranges_allowed dev) (do
  (dev1, log, generation) ← LogOps.format dev 0 (dev.size / 5)
  (dev2, c) ← Checkpoints.format dev1 (dev.size / 5) dev.size
  done (record { device = dev2; log = log; checkpoint = c; memory = empty }))

-- `LoggedStore(deviceName, false)`
unfoldable pub open_store : Device → Outcome (Option LoggedStore)
open_store dev = invariant (ranges_allowed dev) (do
  log ← LogOps.open_log dev 0 (dev.size / 5)
  c ← Checkpoints.open_checkpoint dev (dev.size / 5) dev.size
  recover (record { device = dev; log = log; checkpoint = c; memory = empty }))
