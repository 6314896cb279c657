-- ===== src/Db/LoggedStore/Checkpointed.antt =====
-- src/db/logged_store.cc: `checkpoint`, and a restart after it.
use mathlib.Core.Path.{fun_ext}
use graph_store.Prelude.{
  ℕ, suc, ◌+◌, ◌-◌, ◌*◌, ◌/◌, ◌%◌, ◌^◌, ◌≤◌, ◌<◌, ◌≡◌, refl, ap, ◌∙◌, sym, some, List, [], arith,
  length,
}
use graph_store.Util.Status.{StatusCode}
use graph_store.Util.Outcome.{done}
use graph_store.Io.Device.{Device}
use graph_store.Db.MemoryStore.{MemoryStore}
use graph_store.Db.MemoryStore.Invariant.{IsWf}
use graph_store.Db.MemoryStore.Simulation.{view}
use graph_store.Db.Log.Manager as LogOps
use graph_store.Db.Log.Manager.{LogManager}
use graph_store.Db.Log.LogBlock
use graph_store.Db.Log.SuperBlock
use graph_store.Db.Log.Segment.{IsLog, logged}
use graph_store.Db.Log.Generation.{increase_generation-Fresh}
use graph_store.Db.Log.Replay.{fold_entries}
use graph_store.Db.Checkpoint.Manager.{image}
use graph_store.Db.Checkpoint.RoundTrip.{Fits, finished, performed}
use graph_store.Db.LoggedStore.{LoggedStore, take_checkpoint, open_store, apply_entry, previous}
use graph_store.Db.MemoryStore.Refinement.{AllInRange, run_graph}
use graph_store.Db.MemoryStore.Graph.{Op}
use graph_store.Db.Log.Count.{current-lt, capacity}
use graph_store.Db.LoggedStore.Durability.{perform_all, AllReplayable}
use graph_store.Db.LoggedStore.Returns.{calls_of}
use graph_store.Db.LoggedStore.Persistence.{perform_all-Ran}
use graph_store.Db.LoggedStore.Resumed.{IsResumable, perform_all-IsResumable, open_store-resumes}
use graph_store.Db.LoggedStore.Durability.{IsDurable}

-- A log stands on every device of the same size whose blocks up to its current one are the same.
kept-IsLog :
    (dev dev' : Device) (log : LogManager)
    → IsLog dev log
    → dev'.size ≡ dev.size
    → ((b i : ℕ) → b ≤ log.current_block.number → dev'.block b i ≡ dev.block b i)
    → IsLog dev' log
kept-IsLog dev dev' log l size same =
    let at : (b : ℕ) → b ≤ suc (l.more + log.log_min_block) → dev'.block b ≡ dev.block b =
      λ b h. fun_ext (λ i. same b i (omega (arith, h, l.current_number))) in
    record {
      more = l.more;
      start = l.start;
      size = l.size;
      room = omega (arith, l.room, size);
      narrow = omega (arith, l.narrow, size);
      super_number = l.super_number;
      super_stored = at _ (omega arith) ∙ l.super_stored;
      super_valid = l.super_valid;
      current_number = l.current_number;
      current_stored = at _ (omega arith) ∙ l.current_stored;
      valid = λ i h. ap LogBlock.valid (at _ (omega (arith, h))) ∙ l.valid i h;
      full = λ i h. ap LogBlock.n_entries (at _ (omega (arith, h))) ∙ l.full i h;
      last = l.last;
      nonempty = l.nonempty;
    }

-- The image of the memory fits behind the checkpoint's superblock, and the number of the log's
-- generation does not wrap.
pub record CanCheckpoint (s : LoggedStore) : Type 0 where
  pub room : length (image s.memory.nodes) ≤ 512 * (s.device.size - suc (s.device.size / 5))
  pub narrow : SuperBlock.generation s.log.superblock.words + 1 < 2 ^ 32

Fits-of : (s : LoggedStore) → IsDurable s → CanCheckpoint s → Fits s.device s.checkpoint s.memory
Fits-of s d can = record {
  at = d.image_number ∙ sym d.image_low;
  before = omega (arith, d.image_low, d.image_high, d.allowed);
  on_device = omega (arith, d.image_high);
  room = omega (arith, can.room, d.image_low, d.image_high);
}

previous-suc : (g n : ℕ) → g + 1 < 2 ^ 32 → n ≡ (g + 1) % 2 ^ 32 → g ≡ previous n
previous-suc g n h e = omega (arith, h, e)

-- `checkpoint` leaves an image of the memory behind an empty log.
pub take_checkpoint-IsResumable :
    (s : LoggedStore)
    → IsDurable s
    → IsWf s.memory.nodes
    → CanCheckpoint s
    → (s' : LoggedStore) × (take_checkpoint s ≡ done (s', StatusCode.success))
      × (s'.memory ≡ s.memory)
      × (logged s'.device s'.log ≡ [])
      × (s'.device.size ≡ s.device.size)
      × IsResumable s.checkpoint s.memory (SuperBlock.generation s.log.superblock.words) s'
unfolding take_checkpoint LogOps.get_generation fold_entries
take_checkpoint-IsResumable s d wf can =
    let g = SuperBlock.generation s.log.superblock.words in
    let fits = Fits-of s d can in
    let (d1, ran, size, before, image_on) = performed s.device s.checkpoint s.memory g fits in
    let l1 : IsLog d1 s.log =
      kept-IsLog s.device d1 s.log d.in_order size
        (λ b i le. before b i (omega (arith, le, d.within, d.image_low))) in
    let (d2, log, ran2, fresh) = increase_generation-Fresh d1 s.log l1 in
    let size2 : d2.size ≡ s.device.size = fresh.device ∙ size in
    let s' : LoggedStore = record {
      device = d2;
      log = log;
      checkpoint = record (s.checkpoint) { superblock = finished s.checkpoint s.memory g };
      memory = s.memory;
    } in
    (
      s',
      rw ran (rw ran2 refl),
      refl,
      fresh.no_entries,
      size2,
      record {
        in_order = fresh.in_order;
        allowed = omega (arith, d.allowed, size2);
        log_low = fresh.low_end ∙ d.log_low;
        log_high = fresh.high_end ∙ d.log_high ∙ ap (λ n. n / 5) (sym size2);
        within = omega (arith, fresh.at_first, d.within, d.in_order.current_number, size2);
        manager = refl;
        image_low = d.image_low ∙ ap (λ n. n / 5) (sym size2);
        image_high = d.image_high ∙ sym size2;
        image_number = fits.at;
        before =
            previous-suc g (SuperBlock.generation log.superblock.words) can.narrow fresh.generation;
        image = λ e same blocks. image_on e (same ∙ fresh.device) (λ b i le.
            blocks b i le
            ∙ ap (λ w. w i)
                (fresh.beyond b
                  (omega (arith, le, d.image_low, d.within, d.in_order.current_number))));
        base_wf = wf;
        wf = wf;
        replayed = λ m wf' same. (m, ap (fold_entries apply_entry m) fresh.no_entries, wf', same);
      },
    )

run_from :
    (u t m' m : MemoryStore) (ops : List Op)
    → view u ≡ view t
    → view t ≡ (run_graph (view m') ops).0
    → m' ≡ m
    → view u ≡ (run_graph (view m) ops).0
run_from u t m' m ops seen ran same = seen ∙ ran ∙ ap (λ x. (run_graph (view x) ops).0) same

-- A durable store has a well-formed memory whose image fits, and the number of its log's generation
-- does not wrap at 2^32. Then `checkpoint` returns SUCCESS, calls of addNode, removeNode and addEdge
-- at 64-bit ids return after it, if there are no more of them than the blocks of the log's range
-- have room for, and the constructor that opens the store over the device returns a store with a
-- well-formed memory that holds the graph of the same run of the abstract specification from the
-- graph of the durable store.
pub graph_outlives_checkpoint :
    (s : LoggedStore) (ops : List Op)
    → IsDurable s
    → IsWf s.memory.nodes
    → CanCheckpoint s
    → AllInRange ops
    → AllReplayable (calls_of ops)
    → length ops ≤ 169 * (s.device.size / 5 - 1)
    → (s' t u : LoggedStore) × (take_checkpoint s ≡ done (s', StatusCode.success))
      × (perform_all s' (calls_of ops) ≡ done t)
      × (open_store t.device ≡ done (some u))
      × (view u.memory ≡ (run_graph (view s.memory) ops).0)
      × IsWf u.memory.nodes
graph_outlives_checkpoint s ops d wf can range rep bound =
    let (s', taken, same, unlogged, size, r) = take_checkpoint-IsResumable s d wf can in
    let count : length (logged s'.device s'.log) ≡ 0 = ap (λ es. length es) unlogged in
    let room : length (logged s'.device s'.log) + length ops ≤ capacity s'.device s'.log =
      omega (arith, count, r.log_low, size, bound) in
    let (t, ran, done_) = perform_all-Ran s' ops range r.in_order r.wf room in
    let few : length (logged t.device t.log) ≤ 169 * (s.device.size / 5 - 1) =
      omega (arith, count, done_.count, bound) in
    let last =
      current-lt t.device t.log (s.device.size / 5 - 1) done_.in_order few
        (omega (arith, d.allowed, d.within, d.in_order.current_number)) in
    let resumable =
      perform_all-IsResumable s.checkpoint s.memory _ s' ops t r range rep ran
        (omega (arith, last, done_.place, done_.device, r.log_low, size)) in
    let (u, opened, seen, wf') = open_store-resumes s.checkpoint s.memory _ t resumable in
    (
      s',
      t,
      u,
      taken,
      ran,
      opened,
      run_from u.memory t.memory s'.memory s.memory ops seen done_.graph same,
      wf',
    )
