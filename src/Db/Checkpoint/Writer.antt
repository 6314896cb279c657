-- ===== src/Db/Checkpoint/Writer.antt =====
-- `BlockWriter` of src/db/checkpoint_manager.cc. Its pointers into the buffer are word indices:
-- `_currWrite` is `curr_write`, and `_endWrite` is 512.
use graph_store.Prelude.{ℕ, suc, ◌/◌, true, false, List, [], ◌∷◌, ◌==◌, leb, if◌then◌else◌}
use graph_store.Util.Outcome.{Outcome, done, ◌>>=◌}
use graph_store.Io.Words.{set}
use graph_store.Io.Device
use graph_store.Io.Device.{Device, Buffer}
use graph_store.Db.Log.Layout.{buffer_block_size}
use graph_store.Db.Log.Manager.{require_buffer}

-- `_current.size() / sizeof(uint64_t)`
abbrev pub words_per_block : ℕ
words_per_block = buffer_block_size / 8

pub record BlockWriter : Type 0 where
  pub end_block : ℕ
  pub current_block : ℕ
  pub current : Buffer
  pub curr_write : ℕ

-- `OutOfSpaceException` leaves the device as it is where it is thrown.
pub data Written : Type 0 where
  written : Device → BlockWriter → Written
  out_of_space : Device → Written

-- `readBlock`; `operator*` of the status makes the process exit for a block that is not there.
unfoldable pub read_block : Device → BlockWriter → ℕ → Outcome (Device × BlockWriter)
read_block dev w block_no =
    let dev' = Device.write dev w.current in
    require_buffer (Device.get dev' block_no true)
      λ fresh. done (dev', record w { current = fresh; curr_write = 0 })

-- `BlockWriter(bufferManager, start, end)`
unfoldable pub new_writer : Device → (start end_block : ℕ) → Outcome (Device × BlockWriter)
unfolding read_block
new_writer dev start end_block = require_buffer (Device.get dev start false) λ first.
    read_block dev
      (record { end_block = end_block; current_block = start; current = first; curr_write = 0 })
      start

-- `*(_currWrite++) = data`
unfoldable pub store_word : BlockWriter → ℕ → BlockWriter
store_word w word = record w {
  current = record (w.current) { words = set w.current.words w.curr_write word };
  curr_write = suc w.curr_write;
}

unfoldable pub write_uint64 : Device → BlockWriter → ℕ → Outcome Written
unfolding read_block store_word
write_uint64 dev w word =
    if leb w.end_block w.current_block
    then done (out_of_space dev)
    else if leb words_per_block w.curr_write
    then (if suc w.current_block == w.end_block then done (out_of_space dev) else (do
      (dev', w') ←
          read_block dev (record w { current_block = suc w.current_block }) (suc w.current_block)
      done (written dev' (store_word w' word))))
    else done (written dev (store_word w word))

unfoldable pub flush : Device → BlockWriter → Device
flush dev w = Device.write dev w.current

-- The calls of `writeUint64` in turn, up to one that throws.
unfoldable pub write_words : Device → BlockWriter → List ℕ → Outcome Written
write_words dev w [] = done (written dev w)
write_words dev w (word ∷ rest) = do
  r ← write_uint64 dev w word
  elim r [
    | out_of_space dev' ↦ done (out_of_space dev')
    | written dev' w' ↦ write_words dev' w' rest
  ]
