-- ===== src/Db/Log/Generation.antt =====
-- `format`, `increaseGeneration` and `init` of src/db/log_manager.cc.
use mathlib.Core.List.{append-nil}
use graph_store.Prelude.{
  ℕ, suc, ◌+◌, ◌%◌, ◌^◌, ◌<◌, ◌≡◌, refl, ap, ◌∙◌, sym, true, false, [], arith, ltb, Bool-cases, inl,
  inr,
}
use graph_store.Util.Status.{with_result}
use graph_store.Util.Outcome.{done}
use graph_store.Io.Device
use graph_store.Io.Device.{Device, Buffer}
use graph_store.Db.Log.SuperBlock
use graph_store.Db.Log.SuperBlock.{super_block_laws}
use graph_store.Db.Log.LogBlock
use graph_store.Db.Log.Manager.{
  LogManager, open_log, next_generation, start_generation, increase_generation, repair, format,
  segment_last,
}
use graph_store.Db.Log.Segment.{IsLog, logged, segment, block_entries, entries_from}
use graph_store.Db.Log.Append.{write_self, write_other}

module _ (dev : Device) (min max : ℕ) (old : Buffer) (number : old.number ≡ min)
    (fits : suc min < dev.size) (narrow : dev.size < 2 ^ 32) where
  abbrev superblock : Buffer
  superblock = next_generation min old

  abbrev gen : ℕ
  gen = SuperBlock.generation superblock.words

  abbrev dev1 : Device
  dev1 = Device.write dev superblock

  abbrev current : Buffer
  current = record {
    number = SuperBlock.log_segment_start superblock.words;
    words =
        LogBlock.prewrite
          (LogBlock.init (dev1.block (SuperBlock.log_segment_start superblock.words)) gen);
  }

  abbrev dev2 : Device
  dev2 = Device.write dev1 current

  abbrev log : LogManager
  log = record {
    log_min_block = min;
    log_max_block = max;
    superblock = superblock;
    current_block = current;
  }

  start_lem : SuperBlock.log_segment_start superblock.words ≡ suc min
  unfolding next_generation
  start_lem = simp super_block_laws (omega arith)

  size_lem : SuperBlock.log_segment_size superblock.words ≡ 1
  unfolding next_generation
  size_lem = simp super_block_laws (omega arith)

  pub gen_lem : gen ≡ (SuperBlock.generation old.words + 1) % 2 ^ 32
  unfolding next_generation
  gen_lem = simp super_block_laws

  number_lem : superblock.number ≡ min
  unfolding next_generation
  number_lem = number

  empty_block : LogBlock.n_entries current.words ≡ 0
  empty_block = LogBlock.n_entries-prewrite _ ∙ LogBlock.n_entries-init _ gen

  at_start : (i : ℕ) → i ≡ suc min → dev2.block i ≡ current.words
  at_start i h = write_self dev1 current i (h ∙ sym start_lem)

  start-IsLog : IsLog dev2 log
  unfolding Device.write
  start-IsLog = record {
    more = 0;
    start = start_lem;
    size = size_lem;
    room = omega arith;
    narrow = narrow;
    super_number = number_lem;
    super_stored =
        write_other dev1 current min (λ e. absurd (omega (arith, start_lem)))
        ∙ write_self dev superblock min (sym number_lem);
    super_valid = unfold next_generation in SuperBlock.valid-prewrite _;
    current_number = start_lem ∙ omega arith;
    current_stored = at_start _ (omega arith);
    valid = λ i h. ap LogBlock.valid (at_start _ (omega arith)) ∙ LogBlock.valid-prewrite _;
    full = λ i h. elim h [ ];
    last = omega (arith, empty_block);
    nonempty = λ h. elim h [ ];
  }

  logged-start : logged dev2 log ≡ []
  unfolding segment entries_from
  logged-start =
      ap (λ k. segment dev2 k (SuperBlock.log_segment_size superblock.words)) start_lem
      ∙ ap (segment dev2 (suc min)) size_lem
      ∙ append-nil _
      ∙ ap block_entries (at_start (suc min) refl)
      ∙ ap (entries_from current.words 0) empty_block

  start_generation_lem : start_generation dev min max old ≡ done (dev2, log, gen)
  unfolding start_generation Device.get Device.write
  start_generation_lem =
      let within : ltb (SuperBlock.log_segment_start superblock.words) dev.size ≡ true =
        ground (arith, start_lem, fits) in
      rw within refl

-- A log that was just started, in the given range and with the given generation.
pub record Fresh (dev : Device) (min max gen : ℕ) (dev' : Device) (log : LogManager) : Type 0 where
  pub in_order : IsLog dev' log
  pub no_entries : logged dev' log ≡ []
  pub low_end : log.log_min_block ≡ min
  pub high_end : log.log_max_block ≡ max
  pub at_first : log.current_block.number ≡ suc min
  pub generation : SuperBlock.generation log.superblock.words ≡ gen
  pub device : dev'.size ≡ dev.size
  pub beyond : (i : ℕ) → suc min < i → dev'.block i ≡ dev.block i

start_generation-Fresh :
    (dev : Device) (min max : ℕ) (old : Buffer)
    → old.number ≡ min
    → suc min < dev.size
    → dev.size < 2 ^ 32
    → (dev' : Device) × (log' : LogManager) × (start_generation dev min max old
        ≡ done (dev', log', (SuperBlock.generation old.words + 1) % 2 ^ 32))
      × Fresh dev min max ((SuperBlock.generation old.words + 1) % 2 ^ 32) dev' log'
unfolding Device.write
start_generation-Fresh dev min max old number fits narrow = (
  dev2 dev min max old number fits narrow,
  log dev min max old number fits narrow,
  start_generation_lem dev min max old number fits narrow
      ∙ ap
          (λ g.
            done
              (dev2 dev min max old number fits narrow, log dev min max old number fits narrow, g))
          (gen_lem dev min max old number fits narrow),
  record {
    in_order = start-IsLog dev min max old number fits narrow;
    no_entries = logged-start dev min max old number fits narrow;
    low_end = refl;
    high_end = refl;
    at_first = start_lem dev min max old number fits narrow;
    generation = gen_lem dev min max old number fits narrow;
    device = refl;
    beyond = λ i h.
        write_other (dev1 dev min max old number fits narrow)
          (current dev min max old number fits narrow) i
          (λ e. absurd (omega (arith, start_lem dev min max old number fits narrow)))
        ∙ write_other dev (superblock dev min max old number fits narrow) i
            (λ e. absurd (omega (arith, number_lem dev min max old number fits narrow)));
  },
)

-- From a log in its invariant, `increaseGeneration` returns the next generation, as a 32-bit
-- number, and leaves an empty log of that generation in the same range.
pub increase_generation-Fresh :
    (dev : Device) (log : LogManager)
    → IsLog dev log
    → (dev' : Device) × (log' : LogManager) × (increase_generation dev log
        ≡ done (dev', log', (SuperBlock.generation log.superblock.words + 1) % 2 ^ 32))
      × Fresh dev log.log_min_block log.log_max_block
          ((SuperBlock.generation log.superblock.words + 1) % 2 ^ 32)
          dev'
          log'
unfolding increase_generation
increase_generation-Fresh dev log l =
    start_generation-Fresh dev log.log_min_block log.log_max_block log.superblock l.super_number
      (omega arith) l.narrow

repaired : (dev : Device) (min : ℕ) → Buffer
repaired dev min = (repair dev min (record { number = min; words = dev.block min })).1

-- On a device with room for two blocks from `min` on, whatever it holds, `format` returns and
-- leaves an empty log there.
pub format-Fresh :
    (dev : Device) (min max : ℕ)
    → suc min < dev.size
    → dev.size < 2 ^ 32
    → (dev' : Device) × (log : LogManager) × (gen : ℕ) × (format dev min max
        ≡ done (dev', log, gen))
      × Fresh dev min max gen dev' log
unfolding format Device.get Device.write
format-Fresh dev min max fits narrow =
    let found : Buffer = record { number = min; words = dev.block min } in
    let within : ltb min dev.size ≡ true = ground arith in
    elim (Bool-cases (SuperBlock.valid (dev.block min))) [
      | inl ok ↦
          let (dev', log', ran, fresh) =
            start_generation-Fresh dev min max found refl fits narrow in
          (dev', log', _, rw within (rw ok ran), fresh)
      | inr bad ↦
          let made = record found {
            words = SuperBlock.prewrite (SuperBlock.init found.words min);
          } in
          let (dev', log', ran, fresh) =
            start_generation-Fresh (Device.write dev made) min max made refl fits narrow in
          (
            dev',
            log',
            _,
            rw within (rw bad ran),
            record {
              in_order = fresh.in_order;
              no_entries = fresh.no_entries;
              low_end = fresh.low_end;
              high_end = fresh.high_end;
              at_first = fresh.at_first;
              generation = fresh.generation;
              device = fresh.device;
              beyond = λ i h. fresh.beyond i h ∙ write_other dev made i (λ e. absurd (omega arith));
            },
          )
    ]

segment_last_lem :
    (dev : Device) (log : LogManager) (l : IsLog dev log)
    → segment_last log.superblock ≡ suc (l.more + log.log_min_block)
segment_last_lem dev log l = omega (arith, l.start, l.size, l.room, l.narrow)

-- A read of a block whose contents a buffer holds.
get_of_stored :
    (dev : Device) (n : ℕ) (b : Buffer)
    → n < dev.size
    → b.number ≡ n
    → dev.block n ≡ b.words
    → Device.get dev n false ≡ with_result b
unfolding Device.get
get_of_stored dev n b h number stored =
    let within : ltb n dev.size ≡ true = ground arith in
    rw within (λ i. with_result (record { number = sym number i; words = stored i }))

-- After a restart: `init` over the range of a log that is in its invariant returns that log.
pub open_log-restores :
    (dev : Device) (log : LogManager)
    → IsLog dev log
    → open_log dev log.log_min_block log.log_max_block ≡ done log
unfolding open_log
open_log-restores dev log l =
    let current_valid : LogBlock.valid log.current_block.words ≡ true =
      ap LogBlock.valid (sym l.current_stored) ∙ l.valid l.more (omega arith) in
    rw
      (get_of_stored dev log.log_min_block log.superblock (omega arith) l.super_number
        l.super_stored)
      (rw l.super_valid (
        rw (segment_last_lem dev log l) (
          rw
            (get_of_stored dev (suc (l.more + log.log_min_block)) log.current_block l.room
              l.current_number l.current_stored)
            (rw current_valid refl))))
