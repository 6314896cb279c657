-- ===== src/Db/Checkpoint/Reader.antt =====
-- `BlockReader` of src/db/checkpoint_manager.cc; `_currRead` is a word index.
use graph_store.Prelude.{ℕ, suc, false, ltb, leb, if◌then◌else◌}
use graph_store.Util.Outcome.{Outcome, done, invariant, ◌>>=◌}
use graph_store.Io.Device
use graph_store.Io.Device.{Device, Buffer}
use graph_store.Db.Log.Manager.{require_buffer}
use graph_store.Db.Checkpoint.Writer.{words_per_block}

pub record BlockReader : Type 0 where
  pub end_block : ℕ
  pub current_block : ℕ
  pub current : Buffer
  pub curr_read : ℕ

-- `readBlock`
unfoldable pub read_block : Device → BlockReader → ℕ → Outcome BlockReader
read_block dev r block_no =
    require_buffer (Device.get dev block_no false)
      λ b. done (record r { current = b; curr_read = 0 })

-- `BlockReader(bufferManager, start, end)`
unfoldable pub new_reader : Device → (start end_block : ℕ) → Outcome BlockReader
unfolding read_block
new_reader dev start end_block = require_buffer (Device.get dev start false) λ first.
    read_block dev
      (record { end_block = end_block; current_block = start; current = first; curr_read = 0 })
      start

-- `*(_currRead++)`
unfoldable pub load_word : BlockReader → BlockReader × ℕ
load_word r = (record r { curr_read = suc r.curr_read }, r.current.words r.curr_read)

unfoldable pub read_uint64 : Device → BlockReader → Outcome (BlockReader × ℕ)
unfolding read_block load_word
read_uint64 dev r = invariant (ltb r.current_block r.end_block) (
    if leb words_per_block r.curr_read
    then (do
      r' ← read_block dev (record r { current_block = suc r.current_block }) (suc r.current_block)
      done (load_word r'))
    else done (load_word r))
