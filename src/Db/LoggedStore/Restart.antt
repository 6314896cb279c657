-- ===== src/Db/LoggedStore/Restart.antt =====
-- The two constructors of src/db/logged_store.cc: a store that is formatted, used and opened again.
use graph_store.Prelude.{
  ℕ, suc, ◌+◌, ◌/◌, ◌^◌, ◌≤◌, ◌<◌, ◌≡◌, refl, ap, ◌∙◌, sym, subst, true, some, List, [], ◌∷◌, arith,
  ltb, inr,
}
use graph_store.Util.Outcome
use graph_store.Util.Outcome.{Outcome, done, exited, invariant, ◌>>=◌, done-injective}
use graph_store.Io.Device
use graph_store.Io.Device.{Device, Buffer}
use graph_store.Db.MemoryStore.{empty}
use graph_store.Db.Log.Manager as LogOps
use graph_store.Db.Log.Manager.{LogManager}
use graph_store.Db.Log.LogBlock
use graph_store.Db.Log.Append.{write_self, write_other}
use graph_store.Db.Log.Segment.{IsLog, logged, segment-cong, logged-segment, segment}
use graph_store.Db.Log.Generation.{format-Fresh, open_log-restores}
use graph_store.Db.Log.Replay.{fold_entries}
use graph_store.Db.Log.SuperBlock
use graph_store.Db.Checkpoint.SuperBlock as CheckpointSuperBlock
use graph_store.Db.Checkpoint.Manager as Checkpoints
use graph_store.Db.Checkpoint.Manager.{CheckpointManager}
use graph_store.Db.LoggedStore.{LoggedStore, apply_entry, format_store, open_store, ranges_allowed}
use graph_store.Db.LoggedStore.Recovery.{recover-replays}
use graph_store.Db.LoggedStore.Durability.{
  Call, perform, perform_all, AllReplayable, IsDurable, restore-NoImage, perform-IsDurable,
}
use graph_store.Db.LoggedStore.Progress.{perform-Logged, perform_all-GoesOn, perform_all-inv}

pub perform_all-IsDurable :
    (s : LoggedStore) (calls : List Call) (t : LoggedStore)
    → IsDurable s
    → AllReplayable calls
    → perform_all s calls ≡ done t
    → t.log.current_block.number < t.device.size / 5
    → IsDurable t
unfolding perform_all
perform_all-IsDurable s [] t d rep h w = subst IsDurable (done-injective _ _ h) d
perform_all-IsDurable s (call ∷ calls) t d rep h w =
    let (s', c, ran, rest) = perform_all-inv (perform s call) calls t h in
    let (on, _) = perform-Logged s call s' c d.in_order ran in
    let on' = perform_all-GoesOn s' calls t on.in_order rest in
    perform_all-IsDurable s' calls t
      (perform-IsDurable s call s' c d rep.0 ran (omega (arith, on'.forward, on'.device))) rep.1
      rest w

pub allowed_of : (dev : Device) → 5 ≤ dev.size → ranges_allowed dev ≡ true
unfolding LogOps.range_allowed
allowed_of dev h = ground arith

found_checkpoint :
    (s : LoggedStore)
    → IsDurable s
    → Checkpoints.open_checkpoint s.device (s.device.size / 5) s.device.size ≡ done s.checkpoint
unfolding Checkpoints.open_checkpoint Device.get
found_checkpoint s d =
    let within : ltb (s.device.size / 5) s.device.size ≡ true = ground (arith, d.allowed) in
    rw within (λ i. done (record {
      block_min = sym d.image_low i;
      block_max = sym d.image_high i;
      superblock = record { number = sym d.image_number i; words = d.image_stored i };
    }))

-- A durable store is found again on its device: the constructor that opens the store over the
-- device of a durable store gives that store, with the same nodes and edges.
pub open_store-restores : (s : LoggedStore) → IsDurable s → open_store s.device ≡ done (some s)
unfolding open_store
open_store-restores s d =
    let found : LogOps.open_log s.device 0 (s.device.size / 5) ≡ done s.log =
      subst (λ n. LogOps.open_log s.device n (s.device.size / 5) ≡ done s.log) d.log_low
        (subst (λ n. LogOps.open_log s.device s.log.log_min_block n ≡ done s.log) d.log_high
          (open_log-restores s.device s.log d.in_order)) in
    let before = record s { memory = empty } in
    rw (allowed_of s.device d.allowed) (
      rw found (
        rw (found_checkpoint s d) (
          recover-replays before empty d.in_order (
            restore-NoImage s.device s.checkpoint empty _ d.no_image
              (omega (arith, d.image_low, d.allowed)))
          ∙ ap (Outcome.map (λ m. some (record s { memory = m }))) d.replayed)))

-- A write behind the current block does not change a log.
module _ (dev : Device) (log : LogManager) (l : IsLog dev log) (b : Buffer)
    (behind : log.current_block.number < b.number) where
  untouched :
      (i : ℕ) → i ≤ suc (l.more + log.log_min_block) → (Device.write dev b).block i ≡ dev.block i
  untouched i h = write_other dev b i (λ e. absurd (omega (arith, l.current_number)))

  kept-IsLog : IsLog (Device.write dev b) log
  unfolding Device.write
  kept-IsLog = record {
    more = l.more;
    start = l.start;
    size = l.size;
    room = l.room;
    narrow = l.narrow;
    super_number = l.super_number;
    super_stored = untouched _ (omega arith) ∙ l.super_stored;
    super_valid = l.super_valid;
    current_number = l.current_number;
    current_stored = untouched _ (omega arith) ∙ l.current_stored;
    valid = λ i h. ap LogBlock.valid (untouched _ (omega arith)) ∙ l.valid i h;
    full = λ i h. ap LogBlock.n_entries (untouched _ (omega arith)) ∙ l.full i h;
    last = l.last;
    nonempty = l.nonempty;
  }

  logged-kept : logged (Device.write dev b) log ≡ logged dev log
  logged-kept =
      ap (λ k. segment (Device.write dev b) k (SuperBlock.log_segment_size log.superblock.words))
        l.start
      ∙ ap (segment (Device.write dev b) (suc log.log_min_block)) l.size
      ∙ segment-cong (Device.write dev b) dev (suc log.log_min_block) (suc l.more)
          (λ i h. untouched _ (omega arith))
      ∙ sym (logged-segment dev log l)

-- The constructor that formats a device of at least ten blocks and of a size below 2^32, whatever
-- that holds, returns a durable store with an empty memory and an empty log on a device of the same
-- size.
pub format_store-IsDurable :
    (dev : Device)
    → 10 ≤ dev.size
    → dev.size < 2 ^ 32
    → (s : LoggedStore) × (format_store dev ≡ done s)
      × (s.memory ≡ empty)
      × (s.device.size ≡ dev.size)
      × (logged s.device s.log ≡ [])
      × IsDurable s
unfolding format_store Checkpoints.format Device.get Device.write CheckpointSuperBlock.node_count
    fold_entries
format_store-IsDurable dev h narrow =
    let (dev1, log, gen, ran, fresh) = format-Fresh dev 0 (dev.size / 5) (omega arith) narrow in
    let within : ltb (dev.size / 5) dev1.size ≡ true = ground (arith, fresh.device) in
    let b : Buffer = record { number = dev.size / 5; words = λ i. 0 } in
    let behind : log.current_block.number < dev.size / 5 = omega (arith, fresh.at_first) in
    (
      record {
        device = Device.write dev1 b;
        log = log;
        checkpoint = record { block_min = dev.size / 5; block_max = dev.size; superblock = b };
        memory = empty;
      },
      rw (allowed_of dev (omega arith)) (rw ran (rw within refl)),
      refl,
      fresh.device,
      logged-kept dev1 log fresh.in_order b behind ∙ fresh.no_entries,
      record {
        in_order = kept-IsLog dev1 log fresh.in_order b behind;
        allowed = omega (arith, fresh.device);
        log_low = fresh.low_end;
        log_high = fresh.high_end ∙ ap (λ n. n / 5) (sym fresh.device);
        within = omega (arith, fresh.device, behind);
        image_low = omega (arith, fresh.device);
        image_high = sym fresh.device;
        image_number = omega (arith, fresh.device);
        image_stored = write_self dev1 b _ (omega (arith, fresh.device));
        no_image = inr refl;
        replayed =
            ap (fold_entries apply_entry empty)
              (logged-kept dev1 log fresh.in_order b behind ∙ fresh.no_entries);
      },
    )

-- On a device of at least ten blocks: the store that a formatted store becomes by calls of the
-- methods that change it, none of them removeEdge, is what a restart finds on the device, as long
-- as the log has not reached the block of the checkpoint's superblock.
pub restart_restores :
    (dev : Device) (calls : List Call) (s t : LoggedStore)
    → 10 ≤ dev.size
    → dev.size < 2 ^ 32
    → AllReplayable calls
    → format_store dev ≡ done s
    → perform_all s calls ≡ done t
    → t.log.current_block.number < t.device.size / 5
    → open_store t.device ≡ done (some t)
restart_restores dev calls s t h narrow rep formatted ran within =
    let (s', formatted', _, _, _, d) = format_store-IsDurable dev h narrow in
    let same : s' ≡ s = done-injective _ _ (sym formatted' ∙ formatted) in
    open_store-restores t (perform_all-IsDurable s calls t (subst IsDurable same d) rep ran within)
