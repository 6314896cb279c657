-- ===== src/Db/Log/Append.antt =====
-- `logOperation` of src/db/log_manager.cc where the current block has room.
use native.Mathlib.Decide.{dec_lt}
use graph_store.Prelude.{
  ℕ, suc, ◌+◌, ◌^◌, ◌≤◌, ◌<◌, ◌≡◌, ◌≢◌, refl, ap, ◌∙◌, sym, true, [], ◌∷◌, ◌++◌, arith,
}
use graph_store.Io.Words.{Words}
use graph_store.Io.Device
use graph_store.Io.Device.{Device, Buffer}
use graph_store.Db.Log.Entry.{Entry, IsNamed}
use graph_store.Db.Log.SuperBlock
use graph_store.Db.Log.SuperBlock.{super_block_laws}
use graph_store.Db.Log.LogBlock
use graph_store.Db.Log.Manager.{LogManager}
use graph_store.Db.Log.Segment.{
  IsLog, logged, logged-segment, segment, block_entries, segment-snoc, segment-cong,
  block_entries-push,
}

pub write_self :
    (dev : Device) (b : Buffer) (i : ℕ) → i ≡ b.number → (Device.write dev b).block i ≡ b.words
unfolding Device.write
write_self dev b i h = ground arith

pub write_other :
    (dev : Device) (b : Buffer) (i : ℕ) → i ≢ b.number → (Device.write dev b).block i ≡ dev.block i
unfolding Device.write
write_other dev b i h = ground arith

pub size-write : (dev : Device) (b : Buffer) → (Device.write dev b).size ≡ dev.size
unfolding Device.write
size-write dev b = refl

-- A log whose current block has room, and need not be on the device yet.
pub record IsOpen (dev : Device) (log : LogManager) (more : ℕ) : Type 0 where
  pub start : SuperBlock.log_segment_start log.superblock.words ≡ suc log.log_min_block
  pub size : SuperBlock.log_segment_size log.superblock.words ≡ suc more
  pub room : suc (more + log.log_min_block) < dev.size
  pub narrow : dev.size < 2 ^ 32
  pub super_number : log.superblock.number ≡ log.log_min_block
  pub super_stored : dev.block log.log_min_block ≡ log.superblock.words
  pub super_valid : SuperBlock.valid log.superblock.words ≡ true
  pub current_number : log.current_block.number ≡ suc (more + log.log_min_block)
  pub valid : (i : ℕ) → i < more → LogBlock.valid (dev.block (suc (i + log.log_min_block))) ≡ true
  pub full : (i : ℕ) → i < more → LogBlock.n_entries (dev.block (suc (i + log.log_min_block))) ≡ 169
  pub spare : LogBlock.n_entries log.current_block.words < 169

module _ (dev : Device) (log : LogManager) (e : Entry) (named : IsNamed e.opcode) {more : ℕ}
    (o : IsOpen dev log more) where
  open o use {
    start, size, room, narrow, super_number, super_stored, super_valid, current_number, valid, full,
    spare,
  }

  abbrev pub words' : Words
  words' = LogBlock.prewrite (LogBlock.push log.current_block.words e)

  abbrev pub current' : Buffer
  current' = record (log.current_block) { words = words' }

  abbrev dev' : Device
  dev' = Device.write dev current'

  abbrev log' : LogManager
  log' = record log { current_block = current' }

  earlier :
      (i : ℕ)
      → i < more
      → dev'.block (suc (i + log.log_min_block)) ≡ dev.block (suc (i + log.log_min_block))
  earlier i h = write_other dev current' _ (omega arith)

  latest : dev'.block (suc (more + log.log_min_block)) ≡ words'
  latest = write_self dev current' _ (sym current_number)

  count : LogBlock.n_entries words' ≡ LogBlock.n_entries log.current_block.words + 1
  count =
      LogBlock.n_entries-prewrite (LogBlock.push log.current_block.words e)
      ∙ LogBlock.n_entries-push log.current_block.words e spare

  valid' : (i : ℕ) → i ≤ more → LogBlock.valid (dev'.block (suc (i + log.log_min_block))) ≡ true
  valid' i h = elim (dec_lt i more) [
    | yes lt ↦ ap LogBlock.valid (earlier i lt) ∙ valid i lt
    | no ge ↦
        ap LogBlock.valid (write_self dev current' _ (omega arith))
        ∙ LogBlock.valid-prewrite (LogBlock.push log.current_block.words e)
  ]

  pub append-IsLog : IsLog dev' log'
  unfolding Device.write
  append-IsLog = record {
    more = more;
    start = start;
    size = size;
    room = room;
    narrow = narrow;
    super_number = super_number;
    super_stored = write_other dev current' _ (omega arith) ∙ super_stored;
    super_valid = super_valid;
    current_number = current_number;
    current_stored = latest;
    valid = valid';
    full = λ i h. ap LogBlock.n_entries (earlier i h) ∙ full i h;
    last = omega (arith, count);
    nonempty = λ h. omega (arith, count);
  }

  pub logged-append :
      logged dev' log'
      ≡ segment dev (suc log.log_min_block) more
        ++ (block_entries log.current_block.words ++ e ∷ [])
  logged-append =
      ap (λ k. segment dev' k (SuperBlock.log_segment_size log.superblock.words)) start
      ∙ ap (segment dev' (suc log.log_min_block)) size
      ∙ segment-snoc dev' (suc log.log_min_block) more
      ∙ ap (λ b. segment dev' (suc log.log_min_block) more ++ block_entries b)
          (write_self dev current' (more + suc log.log_min_block) (omega arith))
      ∙ ap (λ es. segment dev' (suc log.log_min_block) more ++ es)
          (block_entries-push log.current_block.words e spare named)
      ∙ ap (λ es. es ++ (block_entries log.current_block.words ++ e ∷ []))
          (segment-cong dev' dev (suc log.log_min_block) more
            (λ i h. write_other dev current' _ (omega arith)))

-- What the log holds, with the blocks before the current one apart.
pub logged-split :
    (dev : Device) (log : LogManager) (l : IsLog dev log)
    → logged dev log
      ≡ segment dev (suc log.log_min_block) l.more ++ block_entries log.current_block.words
logged-split dev log l =
    logged-segment dev log l
    ∙ segment-snoc dev (suc log.log_min_block) l.more
    ∙ ap (λ b. segment dev (suc log.log_min_block) l.more ++ block_entries b)
        (ap dev.block (omega arith) ∙ l.current_stored)

-- A current block with room.
pub IsOpen-of_spare :
    (dev : Device) (log : LogManager)
    → (l : IsLog dev log) → LogBlock.n_entries log.current_block.words < 169
    → IsOpen dev log l.more
IsOpen-of_spare dev log l h = record {
  start = l.start;
  size = l.size;
  room = l.room;
  narrow = l.narrow;
  super_number = l.super_number;
  super_stored = l.super_stored;
  super_valid = l.super_valid;
  current_number = l.current_number;
  valid = λ i lt. l.valid i (omega arith);
  full = l.full;
  spare = h;
}
