-- ===== src/Db/Checkpoint/SuperBlock.antt =====
-- `struct CheckpointSuperBlock` of src/db/checkpoint_manager.cc over the words of a block:
-- `checkpointed` is the lowest byte of word 0, and `checkpointVersion` and `nodeCount` are the
-- words 1 and 2.
use graph_store.Prelude.{ℕ, ◌+◌, ◌*◌, ◌/◌, ◌%◌, Bool, not, ◌==◌, if◌then◌else◌}
use graph_store.Io.Words.{Words, set}

unfoldable pub checkpointed : Words → Bool
checkpointed b = not (b 0 % 256 == 0)

unfoldable pub checkpoint_version : Words → ℕ
checkpoint_version b = b 1

unfoldable pub node_count : Words → ℕ
node_count b = b 2

unfoldable pub set_checkpointed : Words → Bool → Words
set_checkpointed b v = set b 0 (b 0 / 256 * 256 + (if v then 1 else 0))

unfoldable pub set_checkpoint_version : Words → ℕ → Words
set_checkpoint_version b v = set b 1 v

unfoldable pub set_node_count : Words → ℕ → Words
set_node_count b v = set b 2 v
