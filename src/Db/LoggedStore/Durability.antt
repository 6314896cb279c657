-- ===== src/Db/LoggedStore/Durability.antt =====
-- The invariant of a store that src/db/logged_store.cc can recover from its device, and the calls
-- that keep it: the log has no entry REMOVE_EDGE, and no checkpoint was made.
use graph_store.Prelude.{
  ℕ, suc, ◌/◌, ◌≤◌, ◌<◌, ◌≡◌, refl, ap, ◌∙◌, sym, subst, true, false, List, [], ◌∷◌, ◌++◌, arith,
  ◌==◌, if◌then◌else◌, ltb, inl, inr, ◌⊎◌, Bool-cases,
}
use graph_store.Util.Status.{StatusCode, is_success}
use graph_store.Util.Outcome.{
  Outcome, done, exited, ◌>>=◌, bind_assoc, bind_done, bind-cong, done-injective,
}
use graph_store.Io.Device
use graph_store.Io.Device.{Device, Buffer}
use graph_store.Db.Types.{NodeId}
use graph_store.Db.MemoryStore
use graph_store.Db.MemoryStore.{MemoryStore, Mutation, empty}
use graph_store.Db.Log.Entry.{OpCode, Entry, IsNamed}
use graph_store.Db.Checkpoint.SuperBlock
use graph_store.Db.Checkpoint.Reader.{new_reader}
use graph_store.Db.Log.Manager as LogOps
use graph_store.Db.Log.Manager.{LogManager}
use graph_store.Db.Log.Segment.{IsLog, logged}
use graph_store.Db.Log.Operation.{Operated, Added, log_operation-Operated}
use graph_store.Db.Log.Replay.{fold_entries}
use graph_store.Db.Checkpoint.Manager as Checkpoints
use graph_store.Db.Checkpoint.Manager.{CheckpointManager}
use graph_store.Db.LoggedStore
use graph_store.Db.LoggedStore.{
  LoggedStore, LoggedMutation, logged_operation, in_memory, recover, apply_entry, previous,
  format_store, open_store, ranges_allowed,
}

-- A call of a method that changes the store.
pub data Call : Type 0 where
  add_node remove_node : NodeId → Call
  add_edge remove_edge add_edge_part remove_edge_part : NodeId → NodeId → Call

abbrev pub perform : LoggedStore → Call → LoggedMutation
perform s (add_node a) = LoggedStore.add_node s a
perform s (remove_node a) = LoggedStore.remove_node s a
perform s (add_edge a b) = LoggedStore.add_edge s a b
perform s (remove_edge a b) = LoggedStore.remove_edge s a b
perform s (add_edge_part a b) = LoggedStore.add_edge_part s a b
perform s (remove_edge_part a b) = LoggedStore.remove_edge_part s a b

-- Calls in turn, whatever status they return.
unfoldable pub perform_all : LoggedStore → List Call → Outcome LoggedStore
perform_all s [] = done s
perform_all s (call ∷ calls) = perform s call >>= λ r. perform_all r.0 calls

abbrev pub IsReplayable : Call → Type 0
IsReplayable (remove_edge a b) = ⊥
IsReplayable _ = Unit

abbrev pub AllReplayable : List Call → Type 0
AllReplayable [] = Unit
AllReplayable (call ∷ calls) = IsReplayable call × AllReplayable calls

pub fold_entries-snoc :
    (m : MemoryStore) (es : List Entry) (e : Entry)
    → fold_entries apply_entry m (es ++ e ∷ [])
      ≡ (fold_entries apply_entry m es >>= λ m'. apply_entry m' e)
unfolding fold_entries
fold_entries-snoc m [] e = sym (bind_done (apply_entry m e))
fold_entries-snoc m (x ∷ es) e =
    bind-cong (apply_entry m x) _ _ (λ m'. fold_entries-snoc m' es e)
    ∙ sym (bind_assoc (apply_entry m x) _ _)

-- The superblock of the checkpoint is not of this generation, or has an image of no node.
abbrev pub NoImage : CheckpointManager → ℕ → Type 0
NoImage c generation =
    ((SuperBlock.checkpoint_version c.superblock.words == generation) ≡ false)
    ⊎ (SuperBlock.node_count c.superblock.words ≡ 0)

pub restore-NoImage :
    (dev : Device) (c : CheckpointManager) (m : MemoryStore) (generation : ℕ)
    → NoImage c generation
    → suc c.block_min < dev.size
    → Checkpoints.restore_checkpoint dev c m generation ≡ done m
unfolding Checkpoints.restore_checkpoint new_reader Device.get
restore-NoImage dev c m generation (inl other) h = rw other refl
restore-NoImage dev c m generation (inr none_there) h =
    let within : ltb (suc c.block_min) dev.size ≡ true = ground arith in
    elim (Bool-cases (SuperBlock.checkpoint_version c.superblock.words == generation)) [
      | inr other ↦ rw other refl
      | inl same ↦ rw same (rw within (rw (none_there, Checkpoints.restore_nodes) refl))
    ]

-- The log has not reached the checkpoint, whose superblock holds no image that `recover` would
-- restore, and the log's entries lead from the empty store to the store in memory.
pub record IsDurable (s : LoggedStore) : Type 0 where
  pub in_order : IsLog s.device s.log
  pub allowed : 5 ≤ s.device.size
  pub log_low : s.log.log_min_block ≡ 0
  pub log_high : s.log.log_max_block ≡ s.device.size / 5
  pub within : s.log.current_block.number < s.device.size / 5
  pub image_low : s.checkpoint.block_min ≡ s.device.size / 5
  pub image_high : s.checkpoint.block_max ≡ s.device.size
  pub image_number : s.checkpoint.superblock.number ≡ s.device.size / 5
  pub image_stored : s.device.block (s.device.size / 5) ≡ s.checkpoint.superblock.words
  pub no_image : NoImage s.checkpoint (previous (LogOps.get_generation s.log))
  pub replayed : fold_entries apply_entry empty (logged s.device s.log) ≡ done s.memory

-- What a method does after the entry was logged.
abbrev pub after_log : LoggedStore → Mutation → Device × LogManager × StatusCode → LoggedMutation
after_log s m (device, log, status) =
    if is_success status
    then in_memory (record s { device = device; log = log }) m
    else done (record s { device = device; log = log }, status)

module _ (s : LoggedStore) (d : IsDurable s) (e : Entry) where
  same_generation :
      (dev' : Device) (log' : LogManager)
      → Added s.device s.log e dev' log'
      → LogOps.get_generation log' ≡ LogOps.get_generation s.log
  unfolding LogOps.get_generation
  same_generation dev' log' a = a.generation

  Added-IsDurable :
      (dev' : Device) (log' : LogManager) (m' : MemoryStore)
      → Added s.device s.log e dev' log'
      → apply_entry s.memory e ≡ done m'
      → log'.current_block.number < s.device.size / 5
      → IsDurable (record s { device = dev'; log = log'; memory = m' })
  Added-IsDurable dev' log' m' a applied h = record {
    in_order = a.log_kept;
    allowed = omega (arith, d.allowed, a.device);
    log_low = a.place ∙ d.log_low;
    log_high = omega (arith, a.bound, d.log_high, a.device);
    within = omega (arith, a.device);
    image_low = omega (arith, d.image_low, a.device);
    image_high = omega (arith, d.image_high, a.device);
    image_number = omega (arith, d.image_number, a.device);
    image_stored =
        ap (λ n. dev'.block (n / 5)) a.device ∙ a.beyond (s.device.size / 5) h ∙ d.image_stored;
    no_image =
        subst (λ g. NoImage s.checkpoint (previous g)) (sym (same_generation dev' log' a))
          d.no_image;
    replayed =
        ap (fold_entries apply_entry empty) a.entries
        ∙ fold_entries-snoc empty (logged s.device s.log) e
        ∙ ap (λ o. o >>= λ m. apply_entry m e) d.replayed
        ∙ applied;
  }

  after-IsDurable :
      (m : Mutation) (r : Device × LogManager × StatusCode) (s' : LoggedStore) (c : StatusCode)
      → Operated s.device s.log e r
      → apply_entry s.memory e ≡ (m >>= λ x. done x.0)
      → after_log s m r ≡ done (s', c)
      → s'.log.current_block.number < s'.device.size / 5
      → IsDurable s'
  unfolding in_memory
  after-IsDurable (done (m', c')) (dev', log', StatusCode.success) s' c a applied ran h =
      subst
        (λ (x : LoggedStore × StatusCode).
          x.0.log.current_block.number < x.0.device.size / 5 → IsDurable x.0)
        (done-injective _ _ ran)
        (λ h'. Added-IsDurable dev' log' m' a applied (omega (arith, a.device))) h
  after-IsDurable exited (dev', log', StatusCode.success) s' c a applied ran h = cc
  after-IsDurable m (dev', log', StatusCode.no_space) s' c a applied ran h =
      let unchanged : s ≡ record s { device = dev'; log = log' } =
        λ i. record s { device = sym a.device i; log = sym a.log_same i } in
      subst IsDurable (unchanged ∙ ap (λ x. x.0) (done-injective _ _ ran)) d
  after-IsDurable m (dev', log', status) s' c a applied ran h = elim a [ ]

unfoldable pub entry_of : Call → Entry
entry_of (add_node a) = record { opcode = OpCode.add_node; id_a = a; id_b = 0 }
entry_of (remove_node a) = record { opcode = OpCode.remove_node; id_a = a; id_b = 0 }
entry_of (add_edge a b) = record { opcode = OpCode.add_edge; id_a = a; id_b = b }
entry_of (remove_edge a b) = record { opcode = OpCode.remove_edge; id_a = a; id_b = b }
entry_of (add_edge_part a b) = record { opcode = OpCode.add_edge_part; id_a = a; id_b = b }
entry_of (remove_edge_part a b) = record { opcode = OpCode.remove_edge_part; id_a = a; id_b = b }

-- A method of a durable store that does not remove an edge leaves a durable store, as long as the
-- log stays before the checkpoint.
pub perform-IsDurable :
    (s : LoggedStore) (call : Call) (s' : LoggedStore) (c : StatusCode)
    → IsDurable s
    → IsReplayable call
    → perform s call ≡ done (s', c)
    → s'.log.current_block.number < s'.device.size / 5
    → IsDurable s'
unfolding entry_of apply_entry LoggedStore.add_node LoggedStore.remove_node LoggedStore.add_edge
    LoggedStore.add_edge_part LoggedStore.remove_edge_part
perform-IsDurable s call s' c d rep ran h = go call rep ran
  where
    after :
        (e : Entry) (m : Mutation)
        → IsNamed e.opcode
        → apply_entry s.memory e ≡ (m >>= λ x. done x.0)
        → after_log s m (LogOps.log_operation s.device s.log e) ≡ done (s', c)
        → IsDurable s'
    after e m named applied ran' =
        after-IsDurable s d e m (LogOps.log_operation s.device s.log e) s' c
          (log_operation-Operated s.device s.log e named d.in_order) applied ran' h

    go : (k : Call) → IsReplayable k → perform s k ≡ done (s', c) → IsDurable s'
    go (add_node a) rep ran =
        after (entry_of (add_node a)) (MemoryStore.add_node s.memory a) tt refl ran
    go (remove_node a) rep ran =
        after (entry_of (remove_node a)) (MemoryStore.remove_node s.memory a) tt refl ran
    go (add_edge a b) rep ran =
        after (entry_of (add_edge a b)) (MemoryStore.add_edge s.memory a b) tt refl ran
    go (remove_edge a b) rep ran = elim rep [ ]
    go (add_edge_part a b) rep ran =
        after (entry_of (add_edge_part a b)) (MemoryStore.add_edge_part s.memory a b) tt refl ran
    go (remove_edge_part a b) rep ran =
        after (entry_of (remove_edge_part a b)) (MemoryStore.remove_edge_part s.memory a b) tt refl
          ran
