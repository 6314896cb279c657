-- ===== src/Db/Log/Count.antt =====
-- The number of entries of a log, and the room for them in src/db/log_manager.cc.
use native.Mathlib.Decide.{dec_lt}
use graph_store.Prelude.{
  ℕ, zero, suc, ◌+◌, ◌-◌, ◌*◌, ◌≤◌, ◌<◌, ◌≡◌, refl, ap, ◌∙◌, subst, [], ◌∷◌, arith, length,
  length-append, ltb, if◌then◌else◌,
}
use graph_store.Util.Status.{StatusCode}
use graph_store.Io.Words.{Words}
use graph_store.Io.Device.{Device}
use graph_store.Db.Log.Entry.{Entry, IsNamed}
use graph_store.Db.Log.LogBlock
use graph_store.Db.Log.Manager.{LogManager, log_operation}
use graph_store.Db.Log.Segment.{
  IsLog, logged, logged-segment, segment, segment-snoc, entries_from, block_entries,
}
use graph_store.Db.Log.Operation.{Operated, log_operation-Operated}

pub length-entries_from : (b : Words) (k c : ℕ) → length (entries_from b k c) ≡ c
unfolding entries_from
length-entries_from b k zero = refl
length-entries_from b k (suc c) = ap suc (length-entries_from b (suc k) c)

-- Blocks that are all full.
length-segment :
    (dev : Device) (s n : ℕ)
    → ((i : ℕ) → i < n → LogBlock.n_entries (dev.block (i + s)) ≡ 169)
    → length (segment dev s n) ≡ 169 * n
unfolding segment
length-segment dev s zero h = refl
length-segment dev s (suc n) h =
    let first : LogBlock.n_entries (dev.block s) ≡ 169 =
      subst (λ i. LogBlock.n_entries (dev.block i) ≡ 169) (omega arith) (h 0 (omega arith)) in
    let rest = length-segment dev (suc s) n (λ i lt.
      subst (λ j. LogBlock.n_entries (dev.block j) ≡ 169) (omega arith)
        (h (suc i) (omega arith))) in
    omega (
      arith,
      length-append (block_entries (dev.block s)) (segment dev (suc s) n),
      length-entries_from (dev.block s) 0 (LogBlock.n_entries (dev.block s)),
    )

pub length-logged :
    (dev : Device) (log : LogManager) (l : IsLog dev log)
    → length (logged dev log) ≡ 169 * l.more + LogBlock.n_entries log.current_block.words
length-logged dev log l =
    let s = suc log.log_min_block in
    let last : LogBlock.n_entries (dev.block (l.more + s))
        ≡ LogBlock.n_entries log.current_block.words =
      ap LogBlock.n_entries (ap dev.block (omega arith) ∙ l.current_stored) in
    let front : length (segment dev s l.more) ≡ 169 * l.more =
      length-segment dev s l.more
        (λ i h. subst (λ j. LogBlock.n_entries (dev.block j) ≡ 169) (omega arith) (l.full i h)) in
    ap (λ es. length es) (logged-segment dev log l ∙ segment-snoc dev s l.more)
    ∙ omega (
      arith,
      length-append (segment dev s l.more) (block_entries (dev.block (l.more + s))),
      length-entries_from (dev.block (l.more + s)) 0 (LogBlock.n_entries (dev.block (l.more + s))),
    )

-- The number of entries that the blocks from the log's first one to the end of the device hold.
abbrev pub capacity : Device → LogManager → ℕ
capacity dev log = 169 * (dev.size - 1 - log.log_min_block)

-- The current block follows from the number of entries.
pub current-lt :
    (dev : Device) (log : LogManager) (n : ℕ)
    → IsLog dev log
    → length (logged dev log) ≤ 169 * n
    → 0 < n
    → log.current_block.number ≤ n + log.log_min_block
current-lt dev log n l h pos = elim (dec_lt 0 l.more) [
  | yes some_more ↦ omega (arith, length-logged dev log l, l.current_number, l.nonempty some_more)
  | no only_one ↦ omega (arith, l.current_number)
]

pub full_of :
    (dev : Device) (log : LogManager) (l : IsLog dev log)
    → LogBlock.n_entries log.current_block.words ≡ 169
    → suc log.current_block.number ≡ dev.size
    → length (logged dev log) ≡ capacity dev log
full_of dev log l filled ended = omega (arith, length-logged dev log l, l.current_number)

-- From a log in its invariant and for an entry with a named opcode, `logOperation` returns SUCCESS
-- while the log holds fewer entries than the blocks from its first one to the end of the device
-- have room for, and NO_SPACE from there on: the end of the log's own range does not matter.
pub log_operation-capacity :
    (dev : Device) (log : LogManager) (e : Entry)
    → IsNamed e.opcode
    → IsLog dev log
    → (length (logged dev log) ≤ capacity dev log)
      × ((log_operation dev log e).2 ≡ (
          if ltb (length (logged dev log)) (capacity dev log)
          then StatusCode.success
          else StatusCode.no_space))
log_operation-capacity dev log e named l = (
  omega (arith, length-logged dev log l, l.last, l.room),
  go (log_operation dev log e) (log_operation-Operated dev log e named l),
)
  where
    go :
        (r : Device × LogManager × StatusCode)
        → Operated dev log e r
        → r.2 ≡ (
            if ltb (length (logged dev log)) (capacity dev log)
            then StatusCode.success
            else StatusCode.no_space)
    go (dev', log', StatusCode.success) a =
        let bound = length-logged dev' log' a.log_kept in
        let grown = ap (λ es. length es) a.entries ∙ length-append (logged dev log) (e ∷ []) in
        let below : length (logged dev log) < capacity dev log =
          omega (arith, bound, grown, a.log_kept.last, a.log_kept.room, a.place, a.device) in
        ground arith
    go (dev', log', StatusCode.no_space) a =
        let at_end = full_of dev log l a.filled a.ended in ground arith
    go (dev', log', status) a = elim a [ ]
