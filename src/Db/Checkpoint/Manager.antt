-- ===== src/Db/Checkpoint/Manager.antt =====
-- `CheckpointManager` of src/db/checkpoint_manager.cc. `init` is `open_checkpoint` here. The store
-- that the manager points to is passed along, as is the device.
use graph_store.Prelude.{
  ℕ, zero, suc, Bool, true, false, ◌&&◌, none, some, List, [], ◌∷◌, ◌++◌, ◌==◌, if◌then◌else◌,
  length, not,
}
use graph_store.Util.Status.{StatusCode, with_result, without_result}
use graph_store.Util.Outcome.{Outcome, done, exited, ◌>>=◌}
use graph_store.Io.Words.{Words}
use graph_store.Io.Device
use graph_store.Io.Device.{Device, Buffer}
use graph_store.Db.Types
use graph_store.Db.Types.{NodeId, Node}
use graph_store.Db.NodeMap
use graph_store.Db.NodeMap.{NodeMap}
use graph_store.Db.MemoryStore
use graph_store.Db.MemoryStore.{MemoryStore}
use graph_store.Db.Log.Manager.{require_buffer}
use graph_store.Db.Checkpoint.SuperBlock
use graph_store.Db.Checkpoint.Writer.{written, out_of_space, new_writer, write_words, flush}
use graph_store.Db.Checkpoint.Reader.{BlockReader, new_reader, read_uint64}

-- `superblock` is null until `init` or `format`, which make the manager here.
pub record CheckpointManager : Type 0 where
  pub block_min : ℕ
  pub block_max : ℕ
  pub superblock : Buffer

unfoldable pub open_checkpoint : Device → (block_min block_max : ℕ) → Outcome CheckpointManager
open_checkpoint dev block_min block_max =
    require_buffer (Device.get dev block_min false)
      λ b. done (record { block_min = block_min; block_max = block_max; superblock = b })

unfoldable pub format : Device → (block_min block_max : ℕ) → Outcome (Device × CheckpointManager)
format dev block_min block_max = require_buffer (Device.get dev block_min true) λ b.
    done
      (Device.write dev b, record { block_min = block_min; block_max = block_max; superblock = b })

unfoldable pub has_checkpoint : CheckpointManager → ℕ → Bool
has_checkpoint c generation =
    SuperBlock.checkpointed c.superblock.words
    && SuperBlock.checkpoint_version c.superblock.words == generation

-- What the loop of `performCheckpoint` writes for one node, and for all of them.
unfoldable pub node_words : NodeId × Node → List ℕ
node_words (id, n) = id ∷ length n.edges ∷ n.edges

unfoldable pub image : NodeMap → List ℕ
unfolding node_words
image [] = []
image (entry ∷ m) = node_words entry ++ image m

-- the superblock that is written first
unfoldable pub announce : Words → (generation nodes : ℕ) → Words
announce b generation nodes =
    SuperBlock.set_node_count
      (SuperBlock.set_checkpointed (SuperBlock.set_checkpoint_version b generation) false) nodes

unfoldable pub perform_checkpoint :
    Device → CheckpointManager → MemoryStore → ℕ → Outcome (Device × CheckpointManager × StatusCode)
perform_checkpoint dev c store generation =
    let announced = record (c.superblock) {
      words = announce c.superblock.words generation (length store.nodes);
    } in
    let c1 = record c { superblock = announced } in
    (do
      (dev1, w) ← new_writer (Device.write dev announced) (suc c.block_min) c.block_max
      r ← write_words dev1 w (image store.nodes)
      elim r [
        | out_of_space dev2 ↦ done (dev2, c1, StatusCode.no_space)
        | written dev2 w' ↦
            let finished = record announced {
              words = SuperBlock.set_checkpointed announced.words true;
            } in
            done (
              Device.write (flush dev2 w') finished,
              record c { superblock = finished },
              StatusCode.success,
            )
      ])

-- `findNode`, then `addNode` and `findNode` again if it failed, then `getId` of the node
unfoldable pub ensure_node : MemoryStore → NodeId → Outcome (MemoryStore × NodeId)
unfolding MemoryStore.find_node MemoryStore.add_node
ensure_node s id = elim (MemoryStore.find_node s id) [
  | with_result n ↦ done (s, n.id)
  | without_result code ↦ do
    (s', added) ← MemoryStore.add_node s id
    elim (MemoryStore.find_node s' id) [
      | with_result n ↦ done (s', n.id)
      | without_result code' ↦ exited
    ]
]

-- `node->addEdge(edge)`, for the node that stands at `id` in the map
unfoldable pub link : MemoryStore → NodeId → NodeId → Outcome MemoryStore
link s id edge = elim (NodeMap.find s.nodes id) [
  | none ↦ exited
  | some n ↦ done (record s { nodes = NodeMap.write s.nodes id (Types.add_edge n edge).0 })
]

-- the loop over the edges of one node
unfoldable pub restore_edges :
    (edge_counts : ℕ)
    → Device
    → BlockReader
    → MemoryStore
    → NodeId
    → Outcome (BlockReader × MemoryStore)
unfolding ensure_node link
restore_edges zero dev r s id = done (r, s)
restore_edges (suc edge_counts) dev r s id = do
  (r', edge_id) ← read_uint64 dev r
  (s', target) ← ensure_node s edge_id
  s2 ← link s' id target
  restore_edges edge_counts dev r' s2 id

-- the loop over the nodes
unfoldable pub restore_nodes :
    (nodes_remaining : ℕ) → Device → BlockReader → MemoryStore → Outcome MemoryStore
unfolding restore_edges
restore_nodes zero dev r s = done s
restore_nodes (suc nodes_remaining) dev r s = do
  (r1, id) ← read_uint64 dev r
  (r2, edge_counts) ← read_uint64 dev r1
  (s1, added) ← MemoryStore.add_node s id
  (r3, s2) ← restore_edges edge_counts dev r2 s1 id
  restore_nodes nodes_remaining dev r3 s2

unfoldable pub restore_checkpoint :
    Device → CheckpointManager → MemoryStore → ℕ → Outcome MemoryStore
unfolding restore_nodes
restore_checkpoint dev c store generation =
    if not (SuperBlock.checkpoint_version c.superblock.words == generation) then done store else (do
      r ← new_reader dev (suc c.block_min) c.block_max
      restore_nodes (SuperBlock.node_count c.superblock.words) dev r store)
