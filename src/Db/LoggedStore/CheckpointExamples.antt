-- ===== src/Db/LoggedStore/CheckpointExamples.antt =====
-- A checkpoint and a restart of a store with an edge, on a device of twenty blocks.
use graph_store.Prelude.{ap, ◌≡◌, refl, subst, sym, ◌∙◌, List, [], ◌∷◌, arith, some, length}
use graph_store.Util.Status.{StatusCode}
use graph_store.Util.Outcome.{done, done-injective}
use graph_store.Io.Device
use graph_store.Io.Words
use graph_store.Io.Device.{Device, Buffer}
use graph_store.Db.MemoryStore
use graph_store.Db.MemoryStore.{MemoryStore, empty}
use graph_store.Db.Log.Checksum
use graph_store.Db.Log.LogBlock
use graph_store.Db.Log.SuperBlock
use graph_store.Db.Log.Entry
use graph_store.Db.Log.Manager as LogOps
use graph_store.Db.Checkpoint.Manager as Checkpoints
use graph_store.Db.LoggedStore
use graph_store.Db.NodeMap
use graph_store.Db.Types
use graph_store.Db.IdSet
use graph_store.Db.LoggedStore.{LoggedStore, format_store, open_store, logged_operation, in_memory}
use graph_store.Db.LoggedStore.Durability.{Call, add_node, add_edge, perform_all, IsDurable}
use graph_store.Db.LoggedStore.Restart.{perform_all-IsDurable}
use graph_store.Db.MemoryStore.Simulation.{view}
use graph_store.Db.MemoryStore.Refinement.{run_graph}
use graph_store.Db.LoggedStore.{recover, apply_entry, previous}
use graph_store.Db.MemoryStore.View.{has, linked}
use graph_store.Db.MemoryStore.Invariant.{IsWf}
use graph_store.Db.MemoryStore.Graph.{Op}
use graph_store.Db.MemoryStore.Graph as Spec
use graph_store.Db.Log.Segment.{segment, entries_from}
use graph_store.Db.Log.Entry.{OpCode}
use graph_store.Db.Log.Manager.{LogManager}
use graph_store.Db.MemoryStore.Refinement.{run, run-Refines}
use graph_store.Db.MemoryStore.Invariant.{empty-IsWf}
use graph_store.Db.MemoryStore.{MemoryStore}
use graph_store.Db.MemoryStore
use graph_store.Db.Checkpoint.Manager.{image, node_words}
use graph_store.Db.LoggedStore.Restart.{perform_all-IsDurable}
use graph_store.Db.LoggedStore.Examples.{blank, store_of, formatted, formatted-IsDurable}
use graph_store.Db.LoggedStore.Returns.{calls_of}
use graph_store.Db.LoggedStore.{take_checkpoint}
use graph_store.Db.LoggedStore.Checkpointed.{CanCheckpoint, graph_outlives_checkpoint}

abbrev calls : List Call
calls = add_node 1 ∷ add_node 2 ∷ add_edge 1 2 ∷ []

abbrev joined : LoggedStore
joined = store_of (perform_all formatted calls) blank

abbrev two : MemoryStore
two = record {
  nodes = (1, record { id = 1; edges = 2 ∷ [] }) ∷ (2, record { id = 2; edges = 1 ∷ [] }) ∷ [];
}

joined_run :
    (perform_all formatted calls ≡ done joined)
    × (joined.log.current_block.number ≡ 1)
    × (joined.device.size ≡ 20)
    × (joined.memory ≡ two)
    × (SuperBlock.generation joined.log.superblock.words ≡ 1)
unfolding segment entries_from LogBlock.entry format_store LogOps.range_allowed LogOps.format
    LogOps.repair LogOps.start_generation LogOps.next_generation Device.get Device.write
    Checkpoints.format SuperBlock.log_segment_start SuperBlock.log_segment_size SuperBlock.prewrite
    SuperBlock.init SuperBlock.set_magic SuperBlock.set_segment_size SuperBlock.set_segment_start
    SuperBlock.set_generation SuperBlock.generation SuperBlock.valid Checksum.check_checksum
    Checksum.calculate_checksum Checksum.checksum_from Words.set Words.low Words.high Words.with_low
    Words.with_high perform_all LoggedStore.add_node LoggedStore.add_edge LoggedStore.remove_node
    logged_operation in_memory LogOps.log_operation LogOps.append LogOps.extend LogBlock.n_entries
    LogBlock.prewrite LogBlock.init LogBlock.set_n_entries LogBlock.set_entry LogBlock.push
    LogBlock.generation Entry.to_code MemoryStore.add_node MemoryStore.find_node
    MemoryStore.add_edge MemoryStore.remove_node MemoryStore.clean_up_edges NodeMap.find
    NodeMap.place NodeMap.emplace NodeMap.write NodeMap.erase NodeMap.signed_rank Types.add_edge
    Types.remove_edge IdSet.insert IdSet.contains IdSet.erase
joined_run = (refl, refl, refl, refl, refl)

joined-IsDurable : IsDurable joined
joined-IsDurable =
    perform_all-IsDurable formatted calls joined formatted-IsDurable (tt, (tt, (tt, tt)))
      joined_run.0 (omega (arith, joined_run.1, joined_run.2))

abbrev ops : List Op
ops = Spec.add_node 1 ∷ Spec.add_node 2 ∷ Spec.add_edge 1 2 ∷ []

run-two : run empty ops ≡ done (two, (run_graph (view empty) ops).1)
unfolding run has linked NodeMap.find MemoryStore.add_node MemoryStore.add_edge NodeMap.emplace
    NodeMap.place NodeMap.signed_rank IdSet.insert IdSet.contains NodeMap.write Types.add_edge
    Types.has_edge
run-two = refl

joined-IsWf : IsWf joined.memory.nodes
joined-IsWf =
    let (t, ran, _, wf) = run-Refines empty ops (omega arith) empty-IsWf in
    let same : t ≡ two = ap (λ x. x.0) (done-injective _ _ (sym ran ∙ run-two)) in
    subst (λ (s : MemoryStore). IsWf s.nodes) (same ∙ sym joined_run.3) wf

joined-CanCheckpoint : CanCheckpoint joined
unfolding image node_words
joined-CanCheckpoint =
    let words : length (image joined.memory.nodes) ≡ 6 =
      ap (λ (s : MemoryStore). length (image s.nodes)) joined_run.3 in
    record { room = omega (arith, words, joined_run.2); narrow = omega (arith, joined_run.4) }

abbrev later : List Op
later = Spec.remove_node 2 ∷ Spec.add_node 3 ∷ Spec.add_edge 3 1 ∷ []

graph_outlives_checkpoint_example :
    (s' t u : LoggedStore) × (take_checkpoint joined ≡ done (s', StatusCode.success))
    × (perform_all s' (calls_of later) ≡ done t)
    × (open_store t.device ≡ done (some u))
    × (view u.memory ≡ (run_graph (view joined.memory) later).0)
    × IsWf u.memory.nodes
graph_outlives_checkpoint_example =
    graph_outlives_checkpoint joined later joined-IsDurable joined-IsWf joined-CanCheckpoint
      (omega arith) (tt, (tt, (tt, tt))) (omega (arith, joined_run.2))
