-- ===== src/Db/Log/Operation.antt =====
-- `logOperation` of src/db/log_manager.cc, on all its branches.
use mathlib.Core.List.{append-nil, append_assoc}
use graph_store.Prelude.{
  ℕ, suc, ◌+◌, ◌≤◌, ◌<◌, ◌≡◌, refl, ap, ◌∙◌, sym, [], ◌∷◌, ◌++◌, arith, ◌==◌, eq_of_==, ltb,
  Bool-cases, inl, inr,
}
use graph_store.Util.Status.{StatusCode}
use graph_store.Io.Device
use graph_store.Io.Device.{Device, Buffer}
use graph_store.Db.Log.Entry.{Entry, IsNamed}
use graph_store.Db.Log.SuperBlock
use graph_store.Db.Log.SuperBlock.{super_block_laws}
use graph_store.Db.Log.LogBlock
use graph_store.Db.Log.Manager.{LogManager, append, extend, log_operation, segment_end}
use graph_store.Db.Log.Segment.{
  IsLog, logged, logged-segment, block_entries-init, segment, block_entries, segment-cong,
}
use graph_store.Db.Log.Append.{
  write_other, append-IsLog, logged-append, logged-split, IsOpen-of_spare, current',
}
use graph_store.Db.Log.Extend.{extended, dev1, blocks_kept, extend-IsOpen}

-- The entry was added: the log holds its entries and then `e`, in the same place of the device.
pub record Added (dev : Device) (log : LogManager) (e : Entry) (dev' : Device) (log' : LogManager)
    : Type 0 where
  pub log_kept : IsLog dev' log'
  pub entries : logged dev' log' ≡ logged dev log ++ e ∷ []
  pub place : log'.log_min_block ≡ log.log_min_block
  pub bound : log'.log_max_block ≡ log.log_max_block
  pub device : dev'.size ≡ dev.size
  pub forward : log.current_block.number ≤ log'.current_block.number
  pub beyond : (i : ℕ) → log'.current_block.number < i → dev'.block i ≡ dev.block i
  pub generation :
      SuperBlock.generation log'.superblock.words ≡ SuperBlock.generation log.superblock.words

-- There was no room: the current block is full and ends with the device, and nothing has changed.
pub record Refused (dev : Device) (log : LogManager) (dev' : Device) (log' : LogManager)
    : Type 0 where
  pub device : dev' ≡ dev
  pub log_same : log' ≡ log
  pub filled : LogBlock.n_entries log.current_block.words ≡ 169
  pub ended : suc log.current_block.number ≡ dev.size

abbrev pub Operated : Device → LogManager → Entry → Device × LogManager × StatusCode → Type 0
Operated dev log e (dev', log', StatusCode.success) = Added dev log e dev' log'
Operated dev log e (dev', log', StatusCode.no_space) = Refused dev log dev' log'
Operated dev log e (dev', log', _) = ⊥

module _ (dev : Device) (log : LogManager) (e : Entry) (named : IsNamed e.opcode)
    (l : IsLog dev log) where
  with_spare :
      LogBlock.n_entries log.current_block.words < 169 → Operated dev log e (append dev log e)
  unfolding append Device.write
  with_spare h =
      let o = IsOpen-of_spare dev log l h in
      record {
        log_kept = append-IsLog dev log e named o;
        entries =
            logged-append dev log e named o
            ∙ sym (
                append_assoc (segment dev (suc log.log_min_block) l.more)
                  (block_entries log.current_block.words) _)
            ∙ ap (λ es. es ++ e ∷ []) (sym (logged-split dev log l));
        place = refl;
        bound = refl;
        device = refl;
        forward = omega arith;
        beyond = λ i h. write_other dev (current' dev log e named o) i (omega arith);
        generation = refl;
      }

  module _ (fresh : Buffer) (number : fresh.number ≡ suc (suc (l.more + log.log_min_block)))
      (fits : suc (suc (l.more + log.log_min_block)) < dev.size)
      (filled : LogBlock.n_entries log.current_block.words ≡ 169) where
    abbrev log1 : LogManager
    log1 = extended dev log l fresh number fits filled

    abbrev dev_super : Device
    dev_super = dev1 dev log l fresh number fits filled

    -- The new block is empty, and the blocks before it are those of the log.
    before :
        segment dev_super (suc log.log_min_block) (suc l.more)
          ++ block_entries log1.current_block.words
        ≡ logged dev log
    unfolding extend
    before =
        ap (λ es. segment dev_super (suc log.log_min_block) (suc l.more) ++ es)
          (block_entries-init fresh.words (SuperBlock.generation log.superblock.words))
        ∙ append-nil (segment dev_super (suc log.log_min_block) (suc l.more))
        ∙ segment-cong dev_super dev (suc log.log_min_block) (suc l.more)
            (λ i h. blocks_kept dev log l fresh number fits filled _ (omega arith))
        ∙ sym (logged-segment dev log l)

    with_new_block : Operated dev log e (append dev_super log1 e)
    unfolding append Device.write extend
    with_new_block =
        let o = extend-IsOpen dev log l fresh number fits filled in
        record {
          log_kept = append-IsLog dev_super log1 e named o;
          entries =
              logged-append dev_super log1 e named o
              ∙ sym (
                  append_assoc (segment dev_super (suc log.log_min_block) (suc l.more))
                    (block_entries log1.current_block.words) _)
              ∙ ap (λ es. es ++ e ∷ []) before;
          place = refl;
          bound = refl;
          device = refl;
          forward = omega arith;
          beyond = λ i h.
              write_other dev_super (current' dev_super log1 e named o) i (omega arith)
              ∙ blocks_kept dev log l fresh number fits filled i (omega arith);
          generation = simp super_block_laws;
        }

  segment_end_lem : segment_end log.superblock ≡ suc (suc (l.more + log.log_min_block))
  segment_end_lem = omega (arith, l.start, l.size, l.room, l.narrow)

-- From a log in its invariant, and for an entry with a named opcode, `logOperation` returns SUCCESS
-- or NO_SPACE. With SUCCESS the log is in its invariant again and holds its entries followed by the
-- new one, with the same range, generation and device size. With NO_SPACE the device and the log
-- are as they were, the current block holds 169 entries, and the block after it is not on the
-- device.
pub log_operation-Operated :
    (dev : Device) (log : LogManager) (e : Entry)
    → IsNamed e.opcode
    → IsLog dev log
    → Operated dev log e (log_operation dev log e)
unfolding log_operation Device.get
log_operation-Operated dev log e named l =
    let n = LogBlock.n_entries log.current_block.words in
    elim (Bool-cases (n == 169)) [
      | inr spare ↦
          rw (spare, log_operation) (with_spare dev log e named l (ground (arith, l.last)))
      | inl full ↦
          let fresh : Buffer = record {
            number = segment_end log.superblock;
            words = dev.block (segment_end log.superblock);
          } in
          elim (Bool-cases (ltb (segment_end log.superblock) dev.size)) [
            | inl fits ↦
                rw (full, log_operation)
                  (rw fits (
                    with_new_block dev log e named l fresh (segment_end_lem dev log e named l)
                      (ground (arith, segment_end_lem dev log e named l)) (eq_of_== n 169 full)))
            | inr over ↦
                rw (full, log_operation)
                  (rw over (record {
                    device = refl;
                    log_same = refl;
                    filled = eq_of_== n 169 full;
                    ended =
                        ground (arith, segment_end_lem dev log e named l, l.current_number, l.room);
                  }))
          ]
    ]
