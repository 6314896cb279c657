-- ===== src/Db/Log/Manager.antt =====
-- `LogManager` of src/db/log_manager.cc. The device is passed along: a method that writes blocks
-- returns it. `LogManager::init` is `open_log` here, and `LogManager::format` is `format`; both give
-- the manager the two buffers that the other methods use. Sums of `uint32_t` fields wrap.
use graph_store.Prelude.{ℕ, ◌+◌, ◌-◌, ◌%◌, ◌^◌, Bool, false, ◌&&◌, ◌==◌, ltb, if◌then◌else◌}
use graph_store.Util.Status.{StatusCode, StatusWith, with_result, without_result}
use graph_store.Util.Outcome.{Outcome, done, exited, invariant}
use graph_store.Io.Device
use graph_store.Io.Device.{Device, Buffer}
use graph_store.Db.Log.Layout.{log_block_entry_count}
use graph_store.Db.Log.Entry.{Entry}
use graph_store.Db.Log.SuperBlock
use graph_store.Db.Log.LogBlock

pub record LogManager : Type 0 where
  pub log_min_block : ℕ
  pub log_max_block : ℕ
  pub superblock : Buffer
  pub current_block : Buffer

-- the checks of the constructor `LogManager(manager, blockRange)`
unfoldable pub range_allowed : Device → (min_block max_block : ℕ) → Bool
range_allowed dev min_block max_block = ltb max_block dev.size && ltb min_block max_block

-- `invariant(status_with_buffer)`, and the use of the buffer after it
abbrev pub require_buffer {ℓ} : {A : Type ℓ} → StatusWith Buffer → (Buffer → Outcome A) → Outcome A
require_buffer (with_result b) f = f b
require_buffer (without_result code) f = exited

-- The number of the block behind the segment: the sum of two `uint32_t`.
abbrev pub segment_end : Buffer → ℕ
segment_end b =
    (SuperBlock.log_segment_start b.words + SuperBlock.log_segment_size b.words) % 2 ^ 32

-- The number of the last block of the segment, `logSegmentStart + logSegmentSize - 1`.
abbrev pub segment_last : Buffer → ℕ
segment_last b =
    (SuperBlock.log_segment_start b.words + SuperBlock.log_segment_size b.words + 2 ^ 32 - 1)
    % 2 ^ 32

unfoldable pub open_log : Device → (min_block max_block : ℕ) → Outcome LogManager
open_log dev min_block max_block = require_buffer (Device.get dev min_block false) λ superblock.
    invariant (SuperBlock.valid superblock.words) (
      require_buffer (Device.get dev (segment_last superblock) false) λ current.
        invariant (LogBlock.valid current.words) (
          done (record {
            log_min_block = min_block;
            log_max_block = max_block;
            superblock = superblock;
            current_block = current;
          })))

-- The superblock as `increaseGeneration` leaves it.
unfoldable pub next_generation : ℕ → Buffer → Buffer
next_generation min_block b = record b {
  words = SuperBlock.prewrite (
      SuperBlock.set_segment_size
        (SuperBlock.set_segment_start
          (SuperBlock.set_generation b.words (SuperBlock.generation b.words + 1)) (min_block + 1))
        1);
}

-- `increaseGeneration`, from the superblock: it replaces the current block, whatever that was.
unfoldable pub start_generation :
    Device → (min_block max_block : ℕ) → Buffer → Outcome (Device × LogManager × ℕ)
start_generation dev min_block max_block old =
    let superblock = next_generation min_block old in
    let dev1 = Device.write dev superblock in
    require_buffer (Device.get dev1 (SuperBlock.log_segment_start superblock.words) false) λ fresh.
      let current = record fresh {
        words =
            LogBlock.prewrite (LogBlock.init fresh.words (SuperBlock.generation superblock.words));
      } in
      done (
        Device.write dev1 current,
        record {
          log_min_block = min_block;
          log_max_block = max_block;
          superblock = superblock;
          current_block = current;
        },
        SuperBlock.generation superblock.words,
      )

unfoldable pub increase_generation : Device → LogManager → Outcome (Device × LogManager × ℕ)
increase_generation dev log =
    start_generation dev log.log_min_block log.log_max_block log.superblock

-- the repair of an invalid superblock in `format`
unfoldable pub repair : Device → ℕ → Buffer → Device × Buffer
repair dev min_block b =
    if SuperBlock.valid b.words
    then (dev, b)
    else (let fresh = record b {
      words = SuperBlock.prewrite (SuperBlock.init b.words min_block);
    } in
        (Device.write dev fresh, fresh))

unfoldable pub format : Device → (min_block max_block : ℕ) → Outcome (Device × LogManager × ℕ)
unfolding repair start_generation
format dev min_block max_block = require_buffer (Device.get dev min_block false) λ found.
    let (dev', superblock) = repair dev min_block found in
    start_generation dev' min_block max_block superblock

unfoldable pub get_generation : LogManager → ℕ
get_generation log = SuperBlock.generation log.superblock.words

-- the last three lines of `logOperation`
unfoldable pub append : Device → LogManager → Entry → Device × LogManager × StatusCode
append dev log entry =
    let current = record (log.current_block) {
      words = LogBlock.prewrite (LogBlock.push log.current_block.words entry);
    } in
    (Device.write dev current, record log { current_block = current }, StatusCode.success)

-- The manager after the branch of `logOperation` that starts the new block `fresh`.
unfoldable pub extend : LogManager → Buffer → LogManager
extend log fresh = record log {
  superblock = record (log.superblock) {
    words = SuperBlock.prewrite (
        SuperBlock.set_segment_size log.superblock.words
          (SuperBlock.log_segment_size log.superblock.words + 1));
  };
  current_block = record fresh {
    words = LogBlock.init fresh.words (SuperBlock.generation log.superblock.words);
  };
}

unfoldable pub log_operation : Device → LogManager → Entry → Device × LogManager × StatusCode
unfolding append extend
log_operation dev log entry =
    if LogBlock.n_entries log.current_block.words == log_block_entry_count
    then elim (Device.get dev (segment_end log.superblock) false) [
      | without_result code ↦ (dev, log, code)
      | with_result fresh ↦
          let log' = extend log fresh in append (Device.write dev log'.superblock) log' entry
    ]
    else append dev log entry
