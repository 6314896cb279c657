-- ===== src/Db/Log/Reader.antt =====
-- `LogManager::Reader` of src/db/log_manager.cc: the log is read from its first block on. The
-- reader is one value; `readLog` and `close` only say when it is held.
use graph_store.Prelude.{
  ℕ, zero, suc, ◌+◌, ◌-◌, Bool, true, false, Option, none, some, ◌==◌, ltb, if◌then◌else◌,
}
use graph_store.Util.Outcome.{Outcome, done, exited, invariant, ◌>>=◌}
use graph_store.Io.Device
use graph_store.Io.Device.{Device, Buffer}
use graph_store.Db.Log.Layout.{log_block_entry_count}
use graph_store.Db.Log.Entry.{Entry}
use graph_store.Db.Log.SuperBlock
use graph_store.Db.Log.LogBlock
use graph_store.Db.Log.Manager.{LogManager, require_buffer}

pub record Reader : Type 0 where
  pub buffer : Option Buffer
  pub end_block : ℕ
  pub block_num : ℕ
  pub entry_index : ℕ

-- `Reader(logManager)`
unfoldable pub read_log : Device → LogManager → Outcome Reader
read_log dev log =
    let start = SuperBlock.log_segment_start log.superblock.words in
    let end_block = start + SuperBlock.log_segment_size log.superblock.words in
    if ltb start end_block
    then require_buffer (Device.get dev start false) (λ b. invariant (LogBlock.valid b.words) (
        done
          (record { buffer = some b; end_block = end_block; block_num = start; entry_index = 0 })))
    else done (record { buffer = none; end_block = end_block; block_num = start; entry_index = 0 })

unfoldable pub has_next : Reader → Bool
has_next r = elim r.buffer [
  | none ↦ false
  | some b ↦
      if ltb r.block_num (r.end_block - 1)
      then true
      else ltb r.entry_index (LogBlock.n_entries b.words)
]

-- The entry at the reader's position, in the buffer that it holds.
unfoldable pub take_entry : Reader → Buffer → Outcome (Reader × Entry)
take_entry r b =
    invariant (ltb r.entry_index log_block_entry_count)
      (done (record r { entry_index = r.entry_index + 1 }, LogBlock.entry b.words r.entry_index))

unfoldable pub get_next : Device → Reader → Outcome (Reader × Entry)
unfolding take_entry
get_next dev r = elim r.buffer [
  | none ↦ exited
  | some b ↦ invariant (LogBlock.valid b.words) (
      if r.entry_index == LogBlock.n_entries b.words
      then invariant (ltb (r.block_num + 1) r.end_block) (
          require_buffer (Device.get dev (r.block_num + 1) false) λ next.
            invariant (LogBlock.valid next.words) (
              take_entry
                (record r { buffer = some next; block_num = r.block_num + 1; entry_index = 0 })
                next))
      else take_entry r b)
]

-- `while (reader.hasNext()) { ... reader.getNext() ... }`, with the body `f` over the state of the
-- client; `none` says that the fuel ran out.
unfoldable pub for_each {ℓ} :
    {S : Type ℓ} → ℕ → Device → Reader → (S → Entry → Outcome S) → S → Outcome (Option S)
for_each zero dev r f s = done none
for_each (suc fuel) dev r f s = elim (has_next r) [
  | false ↦ done (some s)
  | true ↦ do (r', e) ← get_next dev r; s' ← f s e; for_each fuel dev r' f s'
]
