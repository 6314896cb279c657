-- ===== src/Db/Log/Segment.antt =====
-- The entries that stand in the blocks of a log of src/db/log_manager.cc, and the log's invariant.
use mathlib.Core.List.{append-nil, append_assoc}
use graph_store.Prelude.{
  ℕ, zero, suc, ◌+◌, ◌^◌, ◌≤◌, ◌<◌, ◌≡◌, refl, ap, ◌∙◌, sym, subst, true, List, [], ◌∷◌, ◌++◌,
  arith,
}
use graph_store.Io.Words.{Words}
use graph_store.Io.Device.{Device}
use graph_store.Db.Log.Entry.{Entry, IsNamed}
use graph_store.Db.Log.SuperBlock
use graph_store.Db.Log.LogBlock
use graph_store.Db.Log.Manager.{LogManager}

-- `c` entries of a block, from the entry `k` on.
unfoldable pub entries_from : Words → (k c : ℕ) → List Entry
entries_from b k zero = []
entries_from b k (suc c) = LogBlock.entry b k ∷ entries_from b (suc k) c

abbrev pub block_entries : Words → List Entry
block_entries b = entries_from b 0 (LogBlock.n_entries b)

-- The entries of `n` blocks, from the block `s` on.
unfoldable pub segment : Device → (s n : ℕ) → List Entry
segment dev s zero = []
segment dev s (suc n) = block_entries (dev.block s) ++ segment dev (suc s) n

-- The log's contents: the entries of the blocks that the superblock names.
abbrev pub logged : Device → LogManager → List Entry
logged dev log =
    segment dev (SuperBlock.log_segment_start log.superblock.words)
      (SuperBlock.log_segment_size log.superblock.words)

-- The state of a log between two calls. The segment starts behind the superblock, and `more` blocks
-- follow its first; all are on the device, valid, and full but for the last, which is the current
-- block and is empty only if it is the first.
pub record IsLog (dev : Device) (log : LogManager) : Type 0 where
  pub more : ℕ
  pub start : SuperBlock.log_segment_start log.superblock.words ≡ suc log.log_min_block
  pub size : SuperBlock.log_segment_size log.superblock.words ≡ suc more
  pub room : suc (more + log.log_min_block) < dev.size
  pub narrow : dev.size < 2 ^ 32
  pub super_number : log.superblock.number ≡ log.log_min_block
  pub super_stored : dev.block log.log_min_block ≡ log.superblock.words
  pub super_valid : SuperBlock.valid log.superblock.words ≡ true
  pub current_number : log.current_block.number ≡ suc (more + log.log_min_block)
  pub current_stored : dev.block (suc (more + log.log_min_block)) ≡ log.current_block.words
  pub valid : (i : ℕ) → i ≤ more → LogBlock.valid (dev.block (suc (i + log.log_min_block))) ≡ true
  pub full : (i : ℕ) → i < more → LogBlock.n_entries (dev.block (suc (i + log.log_min_block))) ≡ 169
  pub last : LogBlock.n_entries log.current_block.words ≤ 169
  pub nonempty : 0 < more → 0 < LogBlock.n_entries log.current_block.words

entries_from-snoc :
    (b : Words) (k c : ℕ)
    → entries_from b k (suc c) ≡ entries_from b k c ++ LogBlock.entry b (c + k) ∷ []
unfolding entries_from
entries_from-snoc b k zero = ap (λ i. LogBlock.entry b i ∷ []) (omega arith)
entries_from-snoc b k (suc c) =
    ap (λ es. LogBlock.entry b k ∷ es)
      (entries_from-snoc b (suc k) c
        ∙ ap (λ i. entries_from b (suc k) c ++ LogBlock.entry b i ∷ []) (omega arith))

entries_from-cong :
    (b b' : Words) (k c : ℕ)
    → ((j : ℕ) → j < c + k → LogBlock.entry b j ≡ LogBlock.entry b' j)
    → entries_from b k c ≡ entries_from b' k c
unfolding entries_from
entries_from-cong b b' k zero h = refl
entries_from-cong b b' k (suc c) h = rw (h k (omega arith)) (
    ap (λ es. LogBlock.entry b' k ∷ es)
      (entries_from-cong b b' (suc k) c (λ j lt. h j (omega arith))))

pub segment-snoc :
    (dev : Device) (s n : ℕ)
    → segment dev s (suc n) ≡ segment dev s n ++ block_entries (dev.block (n + s))
unfolding segment
segment-snoc dev s zero = append-nil _ ∙ ap (λ i. block_entries (dev.block i)) (omega arith)
segment-snoc dev s (suc n) =
    ap (λ es. block_entries (dev.block s) ++ es) (segment-snoc dev (suc s) n)
    ∙ sym (append_assoc (block_entries (dev.block s)) (segment dev (suc s) n) _)
    ∙ ap (λ i. block_entries (dev.block s) ++ segment dev (suc s) n ++ block_entries (dev.block i))
        (omega arith)

pub segment-cong :
    (dev dev' : Device) (s n : ℕ)
    → ((i : ℕ) → i < n → dev.block (i + s) ≡ dev'.block (i + s))
    → segment dev s n ≡ segment dev' s n
unfolding segment
segment-cong dev dev' s zero h = refl
segment-cong dev dev' s (suc n) h =
    let first : dev.block s ≡ dev'.block s =
      subst (λ i. dev.block i ≡ dev'.block i) (omega arith) (h 0 (omega arith)) in
    ap (λ b. block_entries b ++ segment dev (suc s) n) first
    ∙ ap (λ es. block_entries (dev'.block s) ++ es)
        (segment-cong dev dev' (suc s) n
          (λ i lt. subst (λ j. dev.block j ≡ dev'.block j) (omega arith) (h (suc i) (omega arith))))

pub block_entries-push :
    (b : Words) (e : Entry)
    → LogBlock.n_entries b < 169
    → IsNamed e.opcode
    → block_entries (LogBlock.prewrite (LogBlock.push b e)) ≡ block_entries b ++ e ∷ []
block_entries-push b e h named =
    let n = LogBlock.n_entries b in
    let b' = LogBlock.prewrite (LogBlock.push b e) in
    let count : LogBlock.n_entries b' ≡ suc n =
      omega
        (arith, LogBlock.n_entries-prewrite (LogBlock.push b e), LogBlock.n_entries-push b e h) in
    let newest : LogBlock.entry b' (n + 0) ≡ e =
      ap (LogBlock.entry b') (omega arith)
      ∙ LogBlock.entry-prewrite (LogBlock.push b e) n
      ∙ LogBlock.entry-push b e named in
    ap (entries_from b' 0) count
    ∙ entries_from-snoc b' 0 n
    ∙ ap (λ x. entries_from b' 0 n ++ x ∷ []) newest
    ∙ ap (λ es. es ++ e ∷ [])
        (entries_from-cong b' b 0 n (λ j lt.
          LogBlock.entry-prewrite (LogBlock.push b e) j
          ∙ LogBlock.entry-push_lt b e j (omega arith)))

pub block_entries-init : (b : Words) (gen : ℕ) → block_entries (LogBlock.init b gen) ≡ []
unfolding entries_from
block_entries-init b gen = ap (entries_from (LogBlock.init b gen) 0) (LogBlock.n_entries-init b gen)

-- The contents of a log, by the numbers that its invariant gives.
pub logged-segment :
    (dev : Device) (log : LogManager) (l : IsLog dev log)
    → logged dev log ≡ segment dev (suc log.log_min_block) (suc l.more)
logged-segment dev log l =
    ap (λ k. segment dev k (SuperBlock.log_segment_size log.superblock.words)) l.start
    ∙ ap (segment dev (suc log.log_min_block)) l.size
