-- ===== src/Db/Log/SuperBlock.antt =====
-- `struct SuperBlock` of src/db/log_manager.cc over the words of a block: the checksum is word 0,
-- `__magic` and `generation` share word 1, `logSegmentStart` and `logSegmentSize` share word 2, and
-- `__END` stands at word 3. A write of a 32-bit field wraps.
use graph_store.Prelude.{ℕ, ◌+◌, ◌%◌, ◌^◌, ◌≡◌, refl, Bool, true}
use graph_store.Io.Words.{
  Words, set, low, high, with_low, with_high, low-with_low, low-with_high, high-with_high,
}
use graph_store.Db.Log.Layout.{block_magic}
use graph_store.Db.Log.Checksum.{calculate_checksum, check_checksum, checksum-seal}

unfoldable pub generation : Words → ℕ
generation b = high (b 1)

unfoldable pub log_segment_start : Words → ℕ
log_segment_start b = low (b 2)

unfoldable pub log_segment_size : Words → ℕ
log_segment_size b = high (b 2)

unfoldable pub set_magic : Words → ℕ → Words
set_magic b v = set b 1 (with_low (b 1) v)

unfoldable pub set_generation : Words → ℕ → Words
set_generation b v = set b 1 (with_high (b 1) v)

unfoldable pub set_segment_start : Words → ℕ → Words
set_segment_start b v = set b 2 (with_low (b 2) v)

unfoldable pub set_segment_size : Words → ℕ → Words
set_segment_size b v = set b 2 (with_high (b 2) v)

-- `init(superblockAddress)`
unfoldable pub init : Words → ℕ → Words
init b address =
    set_segment_size (set_segment_start (set_generation (set_magic b block_magic) 0) (address + 1))
      0

unfoldable pub valid : Words → Bool
valid b = check_checksum (b 0) b 1 2

unfoldable pub prewrite : Words → Words
prewrite b = set b 0 (calculate_checksum b 1 2)

pub valid-prewrite : (b : Words) → valid (prewrite b) ≡ true
unfolding valid prewrite
valid-prewrite b = checksum-seal b 2

-- Each field after each write.
module _ (b : Words) (v : ℕ) where
  pub generation-set_generation : generation (set_generation b v) ≡ v % 2 ^ 32
  unfolding generation set_generation set
  generation-set_generation = high-with_high (b 1) v

  pub generation-set_segment_start : generation (set_segment_start b v) ≡ generation b
  unfolding generation set_segment_start set
  generation-set_segment_start = refl

  pub generation-set_segment_size : generation (set_segment_size b v) ≡ generation b
  unfolding generation set_segment_size set
  generation-set_segment_size = refl

  pub start-set_generation : log_segment_start (set_generation b v) ≡ log_segment_start b
  unfolding log_segment_start set_generation set
  start-set_generation = refl

  pub start-set_segment_start : log_segment_start (set_segment_start b v) ≡ v % 2 ^ 32
  unfolding log_segment_start set_segment_start set
  start-set_segment_start = low-with_low (b 2) v

  pub start-set_segment_size : log_segment_start (set_segment_size b v) ≡ log_segment_start b
  unfolding log_segment_start set_segment_size set
  start-set_segment_size = low-with_high (b 2) v

  pub size-set_segment_size : log_segment_size (set_segment_size b v) ≡ v % 2 ^ 32
  unfolding log_segment_size set_segment_size set
  size-set_segment_size = high-with_high (b 2) v

module _ (b : Words) where
  pub generation-prewrite : generation (prewrite b) ≡ generation b
  unfolding generation prewrite set
  generation-prewrite = refl

  pub start-prewrite : log_segment_start (prewrite b) ≡ log_segment_start b
  unfolding log_segment_start prewrite set
  start-prewrite = refl

  pub size-prewrite : log_segment_size (prewrite b) ≡ log_segment_size b
  unfolding log_segment_size prewrite set
  size-prewrite = refl

pub ruleset super_block_laws = (
  generation-set_generation, generation-set_segment_start, generation-set_segment_size,
  start-set_generation, start-set_segment_start, start-set_segment_size, size-set_segment_size,
  generation-prewrite, start-prewrite, size-prewrite,
)
