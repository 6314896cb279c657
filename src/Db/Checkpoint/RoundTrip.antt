-- ===== src/Db/Checkpoint/RoundTrip.antt =====
-- src/db/checkpoint_manager.cc: performCheckpoint, and restoreCheckpoint over what it has written.
use mathlib.Core.Path.{fun_ext}
use graph_store.Prelude.{
  ℕ, suc, ◌-◌, ◌*◌, ◌≤◌, ◌<◌, ◌≡◌, refl, ◌∙◌, sym, true, arith, length, ==_refl,
}
use graph_store.Util.Status.{StatusCode}
use graph_store.Util.Outcome.{done}
use graph_store.Io.Words.{set}
use graph_store.Io.Device
use graph_store.Io.Device.{Device, Buffer}
use graph_store.Db.Types.{NodeId}
use graph_store.Db.NodeMap
use graph_store.Db.MemoryStore.{MemoryStore, empty}
use graph_store.Db.MemoryStore.View.{has, linked}
use graph_store.Db.MemoryStore.Invariant.{IsWf, empty-IsWf}
use graph_store.Db.MemoryStore.Simulation.{view}
use graph_store.Db.MemoryStore.Parts.{IsPartWf}
use graph_store.Db.Checkpoint.SuperBlock
use graph_store.Db.Checkpoint.Writer.{flush}
use graph_store.Db.Checkpoint.Reader.{BlockReader, new_reader}
use graph_store.Db.Checkpoint.Manager.{
  CheckpointManager, announce, image, perform_checkpoint, has_checkpoint, restore_checkpoint,
  open_checkpoint,
}
use graph_store.Db.Checkpoint.Word.{ltb-lt}
use graph_store.Db.Checkpoint.Stream.{Reads, new_writer_lem, new_reader_lem, write_words_lem}
use graph_store.Db.Checkpoint.Restore.{Grown, names, joined, restore_nodes_lem}
use graph_store.Db.Checkpoint.Entries.{joined-linked, names-has, image-AllEntries}

-- What the nodes and edges of an image make of the empty store is the store again.
restored-IsWf :
    (s t : MemoryStore)
    → IsWf s.nodes
    → Grown empty t (names s.nodes) (joined s.nodes)
    → (view t ≡ view s) × IsWf t.nodes
unfolding has linked NodeMap.find
restored-IsWf s t wf g =
    let node : (x : NodeId) → has t.nodes x ≡ has s.nodes x =
      λ x. g.node x ∙ names-has s.nodes x wf in
    let edge : (a b : NodeId) → linked t.nodes a b ≡ linked s.nodes a b =
      λ a b. g.edges a b ∙ joined-linked s.nodes a b wf.sorted in
    (
      λ i. record { node = fun_ext node i; edge = fun_ext (λ a. fun_ext (edge a)) i },
      record {
        sorted = g.wf.sorted;
        proper = g.wf.proper;
        symmetric = λ a b. edge a b ∙ wf.symmetric a b ∙ sym (edge b a);
        irreflexive = λ a. edge a a ∙ wf.irreflexive a;
      },
    )

-- The range of the manager is on the device and has room for the image behind the superblock.
pub record Fits (dev : Device) (c : CheckpointManager) (s : MemoryStore) : Type 0 where
  pub at : c.superblock.number ≡ c.block_min
  pub before : suc c.block_min < c.block_max
  pub on_device : c.block_max ≤ dev.size
  pub room : length (image s.nodes) ≤ 512 * (c.block_max - suc c.block_min)

-- The superblock that is written last.
abbrev pub finished : CheckpointManager → MemoryStore → ℕ → Buffer
finished c s generation = record (c.superblock) {
  words =
      SuperBlock.set_checkpointed (announce c.superblock.words generation (length s.nodes)) true;
}

-- The superblock and the image stand on the device.
pub record HasImage (e : Device) (c : CheckpointManager) (s : MemoryStore) (generation : ℕ)
    : Type 0 where
  pub superblock : (i : ℕ) → e.block c.block_min i ≡ (finished c s generation).words i
  pub reader : BlockReader
  pub opened : new_reader e (suc c.block_min) c.block_max ≡ done reader
  pub reads : Reads e reader (image s.nodes)

-- performCheckpoint leaves the image on its device, and on every one with the same blocks from that
-- of the superblock on; the blocks before that are as they were.
pub performed :
    (dev : Device) (c : CheckpointManager) (s : MemoryStore) (generation : ℕ)
    → Fits dev c s
    → (dev' : Device) × (perform_checkpoint dev c s generation
        ≡ done (dev', record c { superblock = finished c s generation }, StatusCode.success))
      × (dev'.size ≡ dev.size)
      × ((b i : ℕ) → b < c.block_min → dev'.block b i ≡ dev.block b i)
      × ((e : Device)
          → e.size ≡ dev'.size
          → ((b i : ℕ) → c.block_min ≤ b → e.block b i ≡ dev'.block b i)
          → HasImage e c s generation)
unfolding perform_checkpoint Device.write
performed dev c s generation fits =
    let announced : Buffer = record (c.superblock) {
      words = announce c.superblock.words generation (length s.nodes);
    } in
    let (d1, w, opened, writing, new, size, before) =
      new_writer_lem (suc c.block_min) c.block_max fits.before (Device.write dev announced)
        fits.on_device in
    let (d', w', ran, kept, back) =
      write_words_lem d1 w (image s.nodes) writing
        (omega (arith, fits.room, new.current_block, new.curr_write, new.end_block)) in
    let dev' = Device.write (flush d' w') (finished c s generation) in
    let same_size : dev'.size ≡ dev.size = kept.size ∙ size in
    (
      dev',
      rw opened (rw ran refl),
      same_size,
      λ b i lt.
          ground (arith, lt, fits.at)
          ∙ kept.below b i (omega (arith, lt, new.current_block))
          ∙ before b i (omega (arith, lt))
          ∙ ground (arith, lt, fits.at),
      λ e same_e same.
          let (r, started, beside) =
            new_reader_lem (suc c.block_min) c.block_max fits.before e w
              (omega (arith, fits.on_device, same_size, same_e)) new in
          record {
            superblock = λ i. same c.block_min i (omega arith) ∙ ground (arith, fits.at);
            reader = r;
            opened = started;
            reads =
                back e (same_e ∙ kept.size)
                  (λ b i le.
                    same b i (omega (arith, le, new.current_block))
                    ∙ ground (arith, fits.at, le, new.current_block))
                  r beside;
          },
    )

module _ (c : CheckpointManager) (s : MemoryStore) (generation : ℕ) where
  finished_version : SuperBlock.checkpoint_version (finished c s generation).words ≡ generation
  unfolding SuperBlock.checkpoint_version SuperBlock.set_checkpointed announce
      SuperBlock.set_node_count SuperBlock.set_checkpoint_version set
  finished_version = refl

  finished_count : SuperBlock.node_count (finished c s generation).words ≡ length s.nodes
  unfolding SuperBlock.node_count SuperBlock.set_checkpointed announce SuperBlock.set_node_count set
  finished_count = refl

  finished_valid : SuperBlock.checkpointed (finished c s generation).words ≡ true
  unfolding SuperBlock.checkpointed SuperBlock.set_checkpointed set
  finished_valid = ground arith

empty-IsPartWf : IsPartWf empty.nodes
empty-IsPartWf = record { sorted = empty-IsWf.sorted; proper = empty-IsWf.proper }

-- What `init` and restoreCheckpoint make of the image.
pub restored :
    (e : Device) (c : CheckpointManager) (s : MemoryStore) (generation : ℕ)
    → IsWf s.nodes
    → c.superblock.number ≡ c.block_min
    → c.block_min < e.size
    → HasImage e c s generation
    → (open_checkpoint e c.block_min c.block_max
        ≡ done (record c { superblock = finished c s generation }))
      × ((t : MemoryStore) × (restore_checkpoint e
              (record c { superblock = finished c s generation })
              empty
              generation
            ≡ done t)
          × (view t ≡ view s)
          × IsWf t.nodes)
unfolding open_checkpoint Device.get restore_checkpoint
restored e c s generation wf at on_device h =
    let (t, ran, grown) =
      restore_nodes_lem e s.nodes h.reader empty h.reads (image-AllEntries s.nodes wf)
        empty-IsPartWf in
    let (same, wf') = restored-IsWf s t wf grown in
    (
      rw (ltb-lt c.block_min e.size on_device) (λ i.
          done (record c {
            superblock = record { number = sym at i; words = fun_ext h.superblock i };
          })),
      (
        t,
        rw (finished_version c s generation)
            (rw (==_refl generation) (rw h.opened (rw (finished_count c s generation) ran))),
        same,
        wf',
      ),
    )

-- The image of a well-formed store fits into the range of the manager behind its superblock, and
-- the range is on the device. Then performCheckpoint returns SUCCESS; the manager has a checkpoint
-- of the generation, and is the one that `init` reads from the device; and restoreCheckpoint of the
-- generation makes of an empty store a well-formed one that holds the same graph.
pub restore_checkpoint-perform_checkpoint :
    (dev : Device) (c : CheckpointManager) (s : MemoryStore) (generation : ℕ)
    → IsWf s.nodes
    → Fits dev c s
    → (dev' : Device) × (c' : CheckpointManager) × (t : MemoryStore) × (perform_checkpoint dev c s
          generation
        ≡ done (dev', c', StatusCode.success))
      × (has_checkpoint c' generation ≡ true)
      × (open_checkpoint dev' c.block_min c.block_max ≡ done c')
      × (restore_checkpoint dev' c' empty generation ≡ done t)
      × (view t ≡ view s)
      × IsWf t.nodes
unfolding has_checkpoint
restore_checkpoint-perform_checkpoint dev c s generation wf fits =
    let (dev', ran, size, _, image_on) = performed dev c s generation fits in
    let (found, (t, back, same, wf')) =
      restored dev' c s generation wf fits.at (omega (arith, fits.before, fits.on_device, size))
        (image_on dev' refl (λ b i le. refl)) in
    (
      dev',
      record c { superblock = finished c s generation },
      t,
      ran,
      rw (finished_valid c s generation)
          (rw (finished_version c s generation) (==_refl generation)),
      found,
      back,
      same,
      wf',
    )
