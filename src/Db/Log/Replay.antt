-- ===== src/Db/Log/Replay.antt =====
-- A log read from the front by the reader of src/db/log_manager.cc.
use graph_store.Prelude.{
  ℕ, zero, suc, ◌+◌, ◌-◌, ◌≤◌, ◌<◌, ◌≡◌, refl, ap, ◌∙◌, sym, subst, true, false, Option, some, List,
  [], ◌∷◌, ◌++◌, arith, ◌==◌, length,
}
use graph_store.Util.Outcome
use graph_store.Util.Outcome.{Outcome, done, exited, invariant, ◌>>=◌}
use native.Mathlib.Decide.{dec_lt}
use graph_store.Io.Device
use graph_store.Io.Device.{Device, Buffer}
use graph_store.Db.Log.Entry.{Entry}
use graph_store.Db.Log.SuperBlock
use graph_store.Db.Log.LogBlock
use graph_store.Db.Log.Manager.{LogManager}
use graph_store.Db.Log.Reader.{Reader, read_log, has_next, get_next, for_each}
use graph_store.Db.Log.Segment.{IsLog, logged, segment, block_entries, entries_from, logged-segment}

-- The body `f` over a list of entries.
unfoldable pub fold_entries {ℓ} :
    {S : Type ℓ} → (S → Entry → Outcome S) → S → List Entry → Outcome S
fold_entries f s [] = done s
fold_entries f s (e ∷ es) = f s e >>= λ s'. fold_entries f s' es

bind-map {ℓ} :
    {S : Type ℓ} (m : Outcome S) (g : S → Outcome (Option S)) (h : S → Outcome S)
    → ((s : S) → g s ≡ Outcome.map some (h s))
    → (m >>= g) ≡ Outcome.map some (m >>= h)
bind-map (done s) g h same = same s
bind-map exited g h same = refl

module _ (dev : Device) (log : LogManager) (l : IsLog dev log) where
  abbrev number : ℕ → ℕ
  number i = suc (i + log.log_min_block)

  block_at_last : dev.block (number l.more) ≡ log.current_block.words
  block_at_last = l.current_stored

  pub count_le : (i : ℕ) → i ≤ l.more → LogBlock.n_entries (dev.block (number i)) ≤ 169
  count_le i h = elim (dec_lt i l.more) [
    | yes lt ↦ omega (arith, l.full i lt)
    | no ge ↦
        let same : dev.block (number i) ≡ log.current_block.words =
          ap (λ j. dev.block (number j)) (omega arith) ∙ l.current_stored in
        omega (arith, ap LogBlock.n_entries same, l.last)
  ]

  count_pos : (i : ℕ) → i ≤ l.more → 0 < i → 0 < LogBlock.n_entries (dev.block (number i))
  count_pos i h p = elim (dec_lt i l.more) [
    | yes lt ↦ omega (arith, l.full i lt)
    | no ge ↦
        let same : dev.block (number i) ≡ log.current_block.words =
          ap (λ j. dev.block (number j)) (omega arith) ∙ l.current_stored in
        omega (arith, ap LogBlock.n_entries same, l.nonempty (omega arith))
  ]

  -- The reader that stands in the block `i` of the log, at the entry `k`.
  abbrev reader : (i k : ℕ) → Reader
  reader i k = record {
    buffer = some (record { number = number i; words = dev.block (number i) });
    end_block = suc (number l.more);
    block_num = number i;
    entry_index = k;
  }

  -- `c` entries are left in the block `i`, and `d` blocks behind it.
  abbrev remaining : (i k c d : ℕ) → List Entry
  remaining i k c d = entries_from (dev.block (number i)) k c ++ segment dev (suc (number i)) d

  module _ (i k : ℕ) where
    has_next-entry : k < LogBlock.n_entries (dev.block (number i)) → has_next (reader i k) ≡ true
    unfolding has_next
    has_next-entry h = ground arith

    has_next-block : i < l.more → has_next (reader i k) ≡ true
    unfolding has_next
    has_next-block h = ground arith

    has_next-end :
        i ≡ l.more → k ≡ LogBlock.n_entries (dev.block (number i)) → has_next (reader i k) ≡ false
    unfolding has_next
    has_next-end h e = ground arith

    get_next-entry :
        i ≤ l.more
        → k < LogBlock.n_entries (dev.block (number i))
        → get_next dev (reader i k)
          ≡ done (reader i (k + 1), LogBlock.entry (dev.block (number i)) k)
    unfolding get_next
    get_next-entry h lt = ground (arith, l.valid i h, count_le i h)

    get_next-block :
        i < l.more
        → k ≡ LogBlock.n_entries (dev.block (number i))
        → get_next dev (reader i k)
          ≡ done (reader (suc i) 1, LogBlock.entry (dev.block (number (suc i))) 0)
    unfolding get_next Device.get
    get_next-block h e =
        let at_end : (k == LogBlock.n_entries (dev.block (number i))) ≡ true = ground arith in
        let next : number i + 1 ≡ number (suc i) = omega arith in
        rw (l.valid i (omega arith), get_next)
          (rw at_end (rw next (ground (arith, l.valid (suc i), l.room))))

  -- The remaining entries, where the reader goes on to the next block.
  remaining-next :
      (i k d m : ℕ)
      → LogBlock.n_entries (dev.block (number (suc i))) ≡ suc m
      → remaining i k 0 (suc d)
        ≡ LogBlock.entry (dev.block (number (suc i))) 0 ∷ remaining (suc i) 1 m d
  unfolding entries_from segment
  remaining-next i k d m count =
      let next : suc (number i) ≡ number (suc i) = omega arith in
      ap (λ j. block_entries (dev.block j) ++ segment dev (suc j) d) next
      ∙ ap
          (λ n.
            entries_from (dev.block (number (suc i))) 0 n ++ segment dev (suc (number (suc i))) d)
          count

  replay {ℓ} :
      {S : Type ℓ} (f : S → Entry → Outcome S) (fuel i k c d : ℕ) (s : S)
      → c + k ≡ LogBlock.n_entries (dev.block (number i))
      → d + i ≡ l.more
      → length (remaining i k c d) < fuel
      → for_each fuel dev (reader i k) f s ≡ Outcome.map some (fold_entries f s (remaining i k c d))
  unfolding for_each fold_entries entries_from segment
  replay f zero i k c d s hc hd h = elim h [ ]
  replay f (suc fuel) i k (suc c) d s hc hd h =
      rw (has_next-entry i k (omega arith), for_each)
        (rw (get_next-entry i k (omega arith) (omega arith)) (
          bind-map (f s (LogBlock.entry (dev.block (number i)) k)) _ _ (λ s'.
            subst
              (λ j.
                for_each fuel dev (reader i j) f s'
                ≡ Outcome.map some (fold_entries f s' (remaining i (suc k) c d)))
              (omega arith) (replay f fuel i (suc k) c d s' (omega arith) hd (omega arith)))))
  replay f (suc fuel) i k zero zero s hc hd h =
      rw (has_next-end i k (omega arith) (omega arith), for_each) refl
  replay f (suc fuel) i k zero (suc d) s hc hd h =
      let m = LogBlock.n_entries (dev.block (number (suc i))) - 1 in
      let count : LogBlock.n_entries (dev.block (number (suc i))) ≡ suc m =
        omega (arith, count_pos (suc i) (omega arith) (omega arith)) in
      let split = remaining-next i k d m count in
      rw (has_next-block i k (omega arith), for_each)
        (rw (get_next-block i k (omega arith) (omega arith)) (
          bind-map (f s (LogBlock.entry (dev.block (number (suc i))) 0)) _ _ (λ s'.
            replay f fuel (suc i) 1 m d s' (omega arith) (omega arith)
              (omega (arith, ap (λ es. length es) split)))
          ∙ ap (λ es. Outcome.map some (fold_entries f s es)) (sym split)))

  abbrev first_count : ℕ
  first_count = LogBlock.n_entries (dev.block (number 0))

  logged-remaining : logged dev log ≡ remaining 0 0 first_count l.more
  unfolding segment
  logged-remaining =
      let first : suc log.log_min_block ≡ number 0 = omega arith in
      logged-segment dev log l
      ∙ ap (λ j. block_entries (dev.block j) ++ segment dev (suc j) l.more) first

  read_log-reader : read_log dev log ≡ done (reader 0 0)
  unfolding read_log Device.get
  read_log-reader =
      let start : SuperBlock.log_segment_start log.superblock.words ≡ number 0 =
        l.start ∙ omega arith in
      let end_block : number 0 + suc l.more ≡ suc (number l.more) = omega arith in
      rw (start, l.size, end_block) (ground (arith, l.valid 0, l.room))

-- Reading from the front: `readLog`, and the loop until `hasNext` is false, give the body the
-- entries of the log one after the other, and the fuel does not run out if it exceeds their number.
pub replay_lem {ℓ} :
    {S : Type ℓ} (dev : Device) (log : LogManager) (f : S → Entry → Outcome S) (fuel : ℕ) (s : S)
    → IsLog dev log
    → length (logged dev log) < fuel
    → (read_log dev log >>= λ r. for_each fuel dev r f s)
      ≡ Outcome.map some (fold_entries f s (logged dev log))
replay_lem dev log f fuel s l h =
    let whole = logged-remaining dev log l in
    rw (read_log-reader dev log l) (
      replay dev log l f fuel 0 0 (first_count dev log l) l.more s (omega arith) (omega arith)
        (omega (arith, ap (λ es. length es) whole))
      ∙ ap (λ es. Outcome.map some (fold_entries f s es)) (sym whole))
