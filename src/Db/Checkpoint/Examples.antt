-- ===== src/Db/Checkpoint/Examples.antt =====
-- A checkpoint of the store of four nodes on a device of twenty blocks of zeros.
use graph_store.Prelude.{◌≡◌, refl, true, arith}
use graph_store.Util.Status.{StatusCode}
use graph_store.Util.Outcome.{done}
use graph_store.Io.Device.{Device}
use graph_store.Db.MemoryStore.{MemoryStore, empty}
use graph_store.Db.MemoryStore.Invariant.{IsWf}
use graph_store.Db.MemoryStore.Simulation.{view}
use graph_store.Db.MemoryStore.Examples.{row, row-IsWf}
use graph_store.Db.Checkpoint.Manager.{
  CheckpointManager, image, node_words, perform_checkpoint, has_checkpoint, restore_checkpoint,
  open_checkpoint,
}
use graph_store.Db.Checkpoint.RoundTrip.{Fits, restore_checkpoint-perform_checkpoint}

abbrev blank : Device
blank = record { size = 20; block = λ n i. 0 }

abbrev manager : CheckpointManager
manager = record {
  block_min = 4;
  block_max = 20;
  superblock = record { number = 4; words = λ i. 0 };
}

row-Fits : Fits blank manager row
unfolding image node_words
row-Fits = record { at = refl; before = omega arith; on_device = omega arith; room = omega arith }

restore_checkpoint-perform_checkpoint_example :
    (dev : Device) × (c : CheckpointManager) × (t : MemoryStore) × (perform_checkpoint blank manager
        row 7
      ≡ done (dev, c, StatusCode.success))
    × (has_checkpoint c 7 ≡ true)
    × (open_checkpoint dev 4 20 ≡ done c)
    × (restore_checkpoint dev c empty 7 ≡ done t)
    × (view t ≡ view row)
    × IsWf t.nodes
restore_checkpoint-perform_checkpoint_example =
    restore_checkpoint-perform_checkpoint blank manager row 7 row-IsWf row-Fits
