-- ===== src/Db/LoggedStore/Examples.antt =====
-- The theorems on the log and the logged store at a device of twenty blocks of zeros.
use graph_store.Prelude.{
  ◌≤◌, ltb, if◌then◌else◌, ℕ, ◌+◌, ◌%◌, ◌^◌, ◌≡◌, refl, subst, sym, ◌∙◌, true, false, List, [], ◌∷◌,
  arith, some, length,
}
use graph_store.Util.Status.{StatusCode}
use graph_store.Util.Outcome
use graph_store.Util.Outcome.{Outcome, done, exited, done-injective, ◌>>=◌}
use graph_store.Io.Device
use graph_store.Io.Words
use graph_store.Io.Device.{Device, Buffer}
use graph_store.Db.MemoryStore
use graph_store.Db.MemoryStore.{MemoryStore, empty}
use graph_store.Db.MemoryStore.Examples.{row, row-IsWf}
use graph_store.Db.Log.Checksum
use graph_store.Db.Log.LogBlock
use graph_store.Db.Log.SuperBlock
use graph_store.Db.Log.Entry
use graph_store.Db.Log.Manager as LogOps
use graph_store.Db.Checkpoint.Manager as Checkpoints
use graph_store.Db.LoggedStore
use graph_store.Db.NodeMap
use graph_store.Db.Types
use graph_store.Db.IdSet
use graph_store.Db.LoggedStore.{LoggedStore, format_store, open_store, logged_operation, in_memory}
use graph_store.Db.LoggedStore.Durability.{
  Call, add_node, add_edge, remove_node, perform, perform_all, IsDurable, perform-IsDurable,
  entry_of, restore-NoImage,
}
use graph_store.Db.LoggedStore.Restart.{
  format_store-IsDurable, restart_restores, perform_all-IsDurable,
}
use graph_store.Db.LoggedStore.Progress.{GoesOn, Logged, in_store, perform-Logged}
use graph_store.Db.LoggedStore.Returns.{calls_of, perform_all-returns}
use graph_store.Db.LoggedStore.Persistence.{graph_persists}
use graph_store.Db.Log.Count.{capacity, log_operation-capacity}
use graph_store.Db.MemoryStore.Simulation.{view}
use graph_store.Db.MemoryStore.Refinement.{run_graph}
use graph_store.Db.LoggedStore.Recovery.{recover-replays, remove_edge_falls_through}
use graph_store.Db.LoggedStore.{recover, apply_entry, previous}
use graph_store.Db.MemoryStore.View.{linked}
use graph_store.Db.MemoryStore.Invariant.{IsWf}
use graph_store.Db.MemoryStore.Graph.{Op}
use graph_store.Db.MemoryStore.Graph as Spec
use graph_store.Db.Log.Segment.{IsLog, logged, segment, entries_from}
use graph_store.Db.Log.Operation.{Operated, log_operation-Operated}
use graph_store.Db.Log.Replay.{fold_entries, replay_lem}
use graph_store.Db.Log.Generation.{
  Fresh, format-Fresh, increase_generation-Fresh, open_log-restores,
}
use graph_store.Db.Log.Reader.{read_log, for_each}
use graph_store.Db.Log.Entry.{OpCode}
use graph_store.Db.Log.Manager.{LogManager}

abbrev pub dev : Device
dev = record { size = 20; block = λ n i. 0 }

abbrev calls : List Call
calls = add_node 1 ∷ add_node 2 ∷ add_edge 1 2 ∷ remove_node 2 ∷ []

abbrev pub store_of : Outcome LoggedStore → LoggedStore → LoggedStore
store_of (done s) d = s
store_of exited d = d

abbrev pub blank : LoggedStore
blank = record {
  device = dev;
  log = record {
    log_min_block = 0;
    log_max_block = 0;
    superblock = record { number = 0; words = λ i. 0 };
    current_block = record { number = 0; words = λ i. 0 };
  };
  checkpoint = record {
    block_min = 0;
    block_max = 0;
    superblock = record { number = 0; words = λ i. 0 };
  };
  memory = empty;
}

abbrev pub formatted : LoggedStore
formatted = store_of (format_store dev) blank

abbrev first : LoggedStore
first = store_of (perform_all formatted (add_node 1 ∷ [])) blank

abbrev used : LoggedStore
used = store_of (perform_all formatted calls) blank

format_dev : format_store dev ≡ done formatted
unfolding format_store LogOps.range_allowed LogOps.format LogOps.repair LogOps.start_generation
    LogOps.next_generation Device.get Device.write Checkpoints.format SuperBlock.log_segment_start
    SuperBlock.prewrite SuperBlock.set_segment_size SuperBlock.set_segment_start
    SuperBlock.set_generation SuperBlock.generation SuperBlock.valid Checksum.check_checksum
    Checksum.calculate_checksum Checksum.checksum_from Words.set Words.low Words.high Words.with_low
    Words.with_high
format_dev = refl

used_run :
    (perform_all formatted calls ≡ done used)
    × (used.log.current_block.number ≡ 1)
    × (used.device.size ≡ 20)
    × (perform formatted (add_node 1) ≡ done (first, StatusCode.success))
    × (first.log.current_block.number ≡ 1)
    × (first.device.size ≡ 20)
    × (length (logged used.device used.log) ≡ 4)
unfolding segment entries_from LogBlock.entry format_store LogOps.range_allowed LogOps.format
    LogOps.repair LogOps.start_generation LogOps.next_generation Device.get Device.write
    Checkpoints.format SuperBlock.log_segment_start SuperBlock.log_segment_size SuperBlock.prewrite
    SuperBlock.init SuperBlock.set_magic SuperBlock.set_segment_size SuperBlock.set_segment_start
    SuperBlock.set_generation SuperBlock.generation SuperBlock.valid Checksum.check_checksum
    Checksum.calculate_checksum Checksum.checksum_from Words.set Words.low Words.high Words.with_low
    Words.with_high perform_all LoggedStore.add_node LoggedStore.add_edge LoggedStore.remove_node
    logged_operation in_memory LogOps.log_operation LogOps.append LogOps.extend LogBlock.n_entries
    LogBlock.prewrite LogBlock.init LogBlock.set_n_entries LogBlock.set_entry LogBlock.push
    LogBlock.generation Entry.to_code MemoryStore.add_node MemoryStore.find_node
    MemoryStore.add_edge MemoryStore.remove_node MemoryStore.clean_up_edges NodeMap.find
    NodeMap.place NodeMap.emplace NodeMap.write NodeMap.erase NodeMap.signed_rank Types.add_edge
    Types.remove_edge IdSet.insert IdSet.contains IdSet.erase
used_run = (refl, refl, refl, refl, refl, refl, refl)

pub formatted-IsDurable : IsDurable formatted
formatted-IsDurable =
    let (s, ran, _, _, _, d) = format_store-IsDurable dev (omega arith) (omega arith) in
    subst IsDurable (done-injective _ _ (sym ran ∙ format_dev)) d

used-IsDurable : IsDurable used
used-IsDurable =
    perform_all-IsDurable formatted calls used formatted-IsDurable (tt, (tt, (tt, (tt, tt))))
      used_run.0 (omega (arith, used_run.1, used_run.2))

restart_restores_example : open_store used.device ≡ done (some used)
restart_restores_example =
    restart_restores dev calls formatted used (omega arith) (omega arith) (tt, (tt, (tt, (tt, tt))))
      format_dev used_run.0 (omega (arith, used_run.1, used_run.2))

perform-IsDurable_example : IsDurable first
perform-IsDurable_example =
    perform-IsDurable formatted (add_node 1) first StatusCode.success formatted-IsDurable tt
      used_run.3 (omega (arith, used_run.4, used_run.5))

perform-Logged_example :
    GoesOn formatted first
    × Logged formatted
        (entry_of (add_node 1))
        (in_store formatted.memory (add_node 1))
        first
        StatusCode.success
perform-Logged_example =
    perform-Logged formatted (add_node 1) first StatusCode.success formatted-IsDurable.in_order
      used_run.3

perform_all-returns_example :
    (t : LoggedStore) × (perform_all
        (record used { memory = row })
        (calls_of (Spec.add_node 5 ∷ Spec.remove_edge 1 2 ∷ []))
      ≡ done t)
    × IsLog t.device t.log
    × IsWf t.memory.nodes
perform_all-returns_example =
    perform_all-returns (record used { memory = row }) (Spec.add_node 5 ∷ Spec.remove_edge 1 2 ∷ [])
      (omega arith) used-IsDurable.in_order row-IsWf

recover-replays_example :
    recover (record used { memory = empty })
    ≡ Outcome.map
        (λ m. some (record used { memory = m }))
        (fold_entries apply_entry empty (logged used.device used.log))
recover-replays_example =
    recover-replays (record used { memory = empty }) empty used-IsDurable.in_order
      (restore-NoImage used.device used.checkpoint empty _ used-IsDurable.no_image
        (omega (arith, used_run.2, used-IsDurable.image_low)))

remove_edge_falls_through_example :
    (m1 m2 : MemoryStore) × (MemoryStore.remove_edge row 1 2 ≡ done (m1, StatusCode.success))
    × (linked m1.nodes 1 2 ≡ false)
    × (linked m1.nodes 2 1 ≡ false)
    × (apply_entry row (record { opcode = OpCode.remove_edge; id_a = 1; id_b = 2 }) ≡ done m2)
    × (linked m2.nodes 1 2 ≡ true)
    × (linked m2.nodes 2 1 ≡ false)
    × (MemoryStore.get_edge m2 1 2 ≡ exited)
unfolding linked NodeMap.find Types.has_edge IdSet.contains
remove_edge_falls_through_example = remove_edge_falls_through row 1 2 row-IsWf refl

log_operation-Operated_example :
    Operated used.device used.log
      (record { opcode = OpCode.add_node; id_a = 7; id_b = 0 })
      (LogOps.log_operation used.device used.log
        (record { opcode = OpCode.add_node; id_a = 7; id_b = 0 }))
log_operation-Operated_example =
    log_operation-Operated used.device used.log
      (record { opcode = OpCode.add_node; id_a = 7; id_b = 0 }) tt used-IsDurable.in_order

replay_lem_example :
    (read_log used.device used.log >>= λ r. for_each 5 used.device r (λ n e. done (n + 1)) 0)
    ≡ Outcome.map some (fold_entries (λ n e. done (n + 1)) 0 (logged used.device used.log))
replay_lem_example =
    replay_lem used.device used.log (λ n e. done (n + 1)) 5 0 used-IsDurable.in_order
      (omega (arith, used_run.6))

format-Fresh_example :
    (dev' : Device) × (log : LogManager) × (gen : ℕ) × (LogOps.format dev 3 9
      ≡ done (dev', log, gen))
    × Fresh dev 3 9 gen dev' log
format-Fresh_example = format-Fresh dev 3 9 (omega arith) (omega arith)

increase_generation-Fresh_example :
    (dev' : Device) × (log' : LogManager) × (LogOps.increase_generation used.device used.log
      ≡ done (dev', log', (SuperBlock.generation used.log.superblock.words + 1) % 2 ^ 32))
    × Fresh used.device used.log.log_min_block used.log.log_max_block
        ((SuperBlock.generation used.log.superblock.words + 1) % 2 ^ 32)
        dev'
        log'
increase_generation-Fresh_example =
    increase_generation-Fresh used.device used.log used-IsDurable.in_order

open_log-restores_example :
    LogOps.open_log used.device used.log.log_min_block used.log.log_max_block ≡ done used.log
open_log-restores_example = open_log-restores used.device used.log used-IsDurable.in_order

abbrev build : List Op
build = Spec.add_node 1 ∷ Spec.add_node 2 ∷ Spec.add_edge 1 2 ∷ Spec.remove_node 1 ∷ []

graph_persists_example :
    (s t : LoggedStore) × (format_store dev ≡ done s)
    × (perform_all s (calls_of build) ≡ done t)
    × (view t.memory ≡ (run_graph (view empty) build).0)
    × IsWf t.memory.nodes
    × (open_store t.device ≡ done (some t))
graph_persists_example =
    graph_persists dev build (omega arith) (omega arith) (omega arith) (tt, (tt, (tt, (tt, tt))))
      (omega arith)

log_operation-capacity_example :
    (length (logged used.device used.log) ≤ capacity used.device used.log)
    × ((LogOps.log_operation used.device used.log
          (record { opcode = OpCode.add_node; id_a = 7; id_b = 0 })).2
        ≡ (if ltb (length (logged used.device used.log)) (capacity used.device used.log)
            then StatusCode.success
            else StatusCode.no_space))
log_operation-capacity_example =
    log_operation-capacity used.device used.log
      (record { opcode = OpCode.add_node; id_a = 7; id_b = 0 }) tt used-IsDurable.in_order
