-- ===== src/Db/Log/Extend.antt =====
-- The branch of `logOperation` of src/db/log_manager.cc that starts a new block.
use native.Mathlib.Decide.{dec_lt}
use graph_store.Prelude.{ℕ, suc, ◌+◌, ◌<◌, ◌≡◌, ◌≢◌, ap, ◌∙◌, sym, arith}
use graph_store.Io.Device
use graph_store.Io.Device.{Device, Buffer}
use graph_store.Db.Log.SuperBlock
use graph_store.Db.Log.SuperBlock.{super_block_laws}
use graph_store.Db.Log.LogBlock
use graph_store.Db.Log.Manager.{LogManager, extend}
use graph_store.Db.Log.Segment.{IsLog}
use graph_store.Db.Log.Append.{IsOpen, write_self, write_other}

-- The log after a new block was started.
module _ (dev : Device) (log : LogManager) (l : IsLog dev log) (fresh : Buffer)
    (number : fresh.number ≡ suc (suc (l.more + log.log_min_block)))
    (fits : suc (suc (l.more + log.log_min_block)) < dev.size)
    (filled : LogBlock.n_entries log.current_block.words ≡ 169) where
  abbrev pub extended : LogManager
  extended = extend log fresh

  abbrev pub dev1 : Device
  dev1 = Device.write dev extended.superblock

  pub blocks_kept : (i : ℕ) → i ≢ log.log_min_block → dev1.block i ≡ dev.block i
  unfolding extend
  blocks_kept i h = write_other dev extended.superblock i (λ e. h (e ∙ l.super_number))

  full_now :
      (i : ℕ) → i < suc l.more → LogBlock.n_entries (dev1.block (suc (i + log.log_min_block))) ≡ 169
  full_now i h = elim (dec_lt i l.more) [
    | yes lt ↦ ap LogBlock.n_entries (blocks_kept _ (omega arith)) ∙ l.full i lt
    | no ge ↦
        ap LogBlock.n_entries
          (blocks_kept _ (omega arith) ∙ ap dev.block (omega arith) ∙ l.current_stored)
        ∙ filled
  ]

  pub extend-IsOpen : IsOpen dev1 extended (suc l.more)
  unfolding extend Device.write
  extend-IsOpen = record {
    start = simp super_block_laws l.start;
    size = simp super_block_laws (omega (arith, l.size, l.room, l.narrow));
    room = omega arith;
    narrow = l.narrow;
    super_number = l.super_number;
    super_stored = write_self dev extended.superblock log.log_min_block (sym l.super_number);
    super_valid = SuperBlock.valid-prewrite _;
    current_number = number ∙ omega arith;
    valid = λ i h. ap LogBlock.valid (blocks_kept _ (omega arith)) ∙ l.valid i (omega arith);
    full = full_now;
    spare =
        omega
          (arith, LogBlock.n_entries-init fresh.words (SuperBlock.generation log.superblock.words));
  }
