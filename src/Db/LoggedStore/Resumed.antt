-- ===== src/Db/LoggedStore/Resumed.antt =====
-- src/db/logged_store.cc: calls after a checkpoint, and a restart after them.
use graph_store.Prelude.{
  ℕ, ◌/◌, ◌≤◌, ◌<◌, ◌≡◌, refl, ap, ◌∙◌, sym, subst, some, List, [], ◌∷◌, ◌++◌, arith,
}
use graph_store.Util.Status.{StatusCode}
use graph_store.Util.Outcome
use graph_store.Util.Outcome.{Outcome, done, exited, ◌>>=◌, done-injective}
use graph_store.Io.Device.{Device}
use graph_store.Db.MemoryStore.{MemoryStore, empty}
use graph_store.Db.MemoryStore.Invariant.{IsWf}
use graph_store.Db.MemoryStore.Graph.{
  Graph, Op, InRange, effect, status, add_node, remove_node, add_edge, remove_edge,
}
use graph_store.Db.MemoryStore.Simulation.{view, apply}
use graph_store.Db.MemoryStore.Refinement.{apply-Refines, view-apply, AllInRange}
use graph_store.Db.Log.Entry.{Entry, IsNamed}
use graph_store.Db.Log.Manager as LogOps
use graph_store.Db.Log.Manager.{LogManager}
use graph_store.Db.Log.Segment.{IsLog, logged}
use graph_store.Db.Log.Operation.{Operated, Added, log_operation-Operated}
use graph_store.Db.Log.Generation.{open_log-restores}
use graph_store.Db.Log.Replay.{fold_entries}
use graph_store.Db.Checkpoint.Manager as Checkpoints
use graph_store.Db.Checkpoint.Manager.{CheckpointManager}
use graph_store.Db.Checkpoint.RoundTrip.{HasImage, finished, restored}
use graph_store.Db.LoggedStore
use graph_store.Db.LoggedStore.{
  LoggedStore, logged_operation, in_memory, open_store, apply_entry, previous,
}
use graph_store.Db.LoggedStore.Recovery.{recover-replays}
use graph_store.Db.LoggedStore.Durability.{
  perform, perform_all, entry_of, after_log, IsReplayable, AllReplayable, fold_entries-snoc,
}
use graph_store.Db.LoggedStore.Progress.{perform-Logged, perform_all-GoesOn, perform_all-inv}
use graph_store.Db.LoggedStore.Returns.{call_of, calls_of}
use graph_store.Db.LoggedStore.Restart.{allowed_of}

-- From every well-formed store with the graph `g`, the entries lead to one with the graph `g'`.
abbrev pub Leads : Graph → List Entry → Graph → Type 0
Leads g entries g' =
    (m : MemoryStore)
    → IsWf m.nodes
    → view m ≡ g
    → (t : MemoryStore) × (fold_entries apply_entry m entries ≡ done t)
      × IsWf t.nodes
      × (view t ≡ g')

-- The image of the store `base` stands behind the log, whose entries lead from its graph to that of
-- the store in memory.
pub record IsResumable (c : CheckpointManager) (base : MemoryStore) (generation : ℕ)
    (s : LoggedStore) : Type 0 where
  pub in_order : IsLog s.device s.log
  pub allowed : 5 ≤ s.device.size
  pub log_low : s.log.log_min_block ≡ 0
  pub log_high : s.log.log_max_block ≡ s.device.size / 5
  pub within : s.log.current_block.number < s.device.size / 5
  pub manager : s.checkpoint ≡ record c { superblock = finished c base generation }
  pub image_low : c.block_min ≡ s.device.size / 5
  pub image_high : c.block_max ≡ s.device.size
  pub image_number : c.superblock.number ≡ c.block_min
  pub before : generation ≡ previous (LogOps.get_generation s.log)
  pub image :
      (e : Device)
      → e.size ≡ s.device.size
      → ((b i : ℕ) → c.block_min ≤ b → e.block b i ≡ s.device.block b i)
      → HasImage e c base generation
  pub base_wf : IsWf base.nodes
  pub wf : IsWf s.memory.nodes
  pub replayed : Leads (view base) (logged s.device s.log) (view s.memory)

entry-IsNamed : (op : Op) → IsNamed (entry_of (call_of op)).opcode
unfolding entry_of
entry-IsNamed (add_node a) = tt
entry-IsNamed (remove_node a) = tt
entry-IsNamed (add_edge a b) = tt
entry-IsNamed (remove_edge a b) = tt

perform-after_log :
    (s : LoggedStore) (op : Op)
    → perform s (call_of op)
      ≡ after_log s
          (apply s.memory op)
          (LogOps.log_operation s.device s.log (entry_of (call_of op)))
unfolding entry_of LoggedStore.add_node LoggedStore.remove_node LoggedStore.add_edge
    LoggedStore.remove_edge
perform-after_log s (add_node a) = refl
perform-after_log s (remove_node a) = refl
perform-after_log s (add_edge a b) = refl
perform-after_log s (remove_edge a b) = refl

apply_entry-apply :
    (m : MemoryStore) (op : Op)
    → IsReplayable (call_of op)
    → apply_entry m (entry_of (call_of op)) ≡ (apply m op >>= λ r. done r.0)
unfolding entry_of apply_entry
apply_entry-apply m (add_node a) rep = refl
apply_entry-apply m (remove_node a) rep = refl
apply_entry-apply m (add_edge a b) rep = refl
apply_entry-apply m (remove_edge a b) rep = elim rep [ ]

-- One more entry.
Leads-snoc :
    (g g' : Graph) (entries : List Entry) (op : Op)
    → InRange op
    → IsReplayable (call_of op)
    → Leads g entries g'
    → Leads g (entries ++ entry_of (call_of op) ∷ []) (effect g' op)
Leads-snoc g g' entries op range rep leads m wf same =
    let (t, ran, wf', seen) = leads m wf same in
    let (t', made, impl) = apply-Refines t op range wf' in
    (
      t',
      fold_entries-snoc m entries (entry_of (call_of op))
          ∙ rw ran (apply_entry-apply t op rep ∙ rw made refl),
      impl.wf,
      view-apply t op t' impl ∙ ap (λ x. effect x op) seen,
    )

module _ (c : CheckpointManager) (base : MemoryStore) (generation : ℕ) where
  module _ (s : LoggedStore) (d : IsResumable c base generation s) (op : Op) (range : InRange op)
      (rep : IsReplayable (call_of op)) where
    Added-IsResumable :
        (dev' : Device) (log' : LogManager) (m' : MemoryStore)
        → Added s.device s.log (entry_of (call_of op)) dev' log'
        → apply s.memory op ≡ done (m', status (view s.memory) op)
        → log'.current_block.number < s.device.size / 5
        → IsResumable c base generation (record s { device = dev'; log = log'; memory = m' })
    unfolding LogOps.get_generation
    Added-IsResumable dev' log' m' a made h =
        let (m2, made2, impl) = apply-Refines s.memory op range d.wf in
        let same : m2 ≡ m' = ap (λ x. x.0) (done-injective _ _ (sym made2 ∙ made)) in
        let seen : view m' ≡ effect (view s.memory) op =
          subst (λ m. view m ≡ effect (view s.memory) op) same (view-apply s.memory op m2 impl) in
        record {
          in_order = a.log_kept;
          allowed = omega (arith, d.allowed, a.device);
          log_low = a.place ∙ d.log_low;
          log_high = omega (arith, a.bound, d.log_high, a.device);
          within = omega (arith, a.device, h);
          manager = d.manager;
          image_low = omega (arith, d.image_low, a.device);
          image_high = omega (arith, d.image_high, a.device);
          image_number = d.image_number;
          before = d.before ∙ ap (λ g. previous g) (sym a.generation);
          image = λ e size blocks. d.image e (size ∙ a.device) (λ b i le.
              blocks b i le ∙ ap (λ w. w i) (a.beyond b (omega (arith, le, h, d.image_low))));
          base_wf = d.base_wf;
          wf = subst (λ (m : MemoryStore). IsWf m.nodes) same impl.wf;
          replayed =
              subst (λ x. Leads (view base) (logged dev' log') x) (sym seen)
                (subst (λ es. Leads (view base) es (effect (view s.memory) op)) (sym a.entries)
                  (Leads-snoc (view base) (view s.memory) (logged s.device s.log) op range rep
                    d.replayed));
        }

    after-IsResumable :
        (m' : MemoryStore) (r : Device × LogManager × StatusCode) (s' : LoggedStore)
        (code : StatusCode)
        → Operated s.device s.log (entry_of (call_of op)) r
        → apply s.memory op ≡ done (m', status (view s.memory) op)
        → after_log s (done (m', status (view s.memory) op)) r ≡ done (s', code)
        → s'.log.current_block.number < s'.device.size / 5
        → IsResumable c base generation s'
    unfolding in_memory
    after-IsResumable m' (dev', log', StatusCode.success) s' code a made ran h =
        subst
          (λ (x : LoggedStore × StatusCode).
            x.0.log.current_block.number < x.0.device.size / 5 → IsResumable c base generation x.0)
          (done-injective _ _ ran)
          (λ h'. Added-IsResumable dev' log' m' a made (omega (arith, a.device, h'))) h
    after-IsResumable m' (dev', log', StatusCode.no_space) s' code a made ran h =
        let unchanged : s ≡ record s { device = dev'; log = log' } =
          λ i. record s { device = sym a.device i; log = sym a.log_same i } in
        subst (IsResumable c base generation) (unchanged ∙ ap (λ x. x.0) (done-injective _ _ ran)) d
    after-IsResumable m' (dev', log', code') s' code a made ran h = elim a [ ]

    perform-IsResumable :
        (s' : LoggedStore) (code : StatusCode)
        → perform s (call_of op) ≡ done (s', code)
        → s'.log.current_block.number < s'.device.size / 5
        → IsResumable c base generation s'
    perform-IsResumable s' code ran h =
        let (m', made, impl) = apply-Refines s.memory op range d.wf in
        let r = LogOps.log_operation s.device s.log (entry_of (call_of op)) in
        after-IsResumable m' r s' code
          (log_operation-Operated s.device s.log (entry_of (call_of op)) (entry-IsNamed op)
            d.in_order)
          made (ap (λ o. after_log s o r) (sym made) ∙ sym (perform-after_log s op) ∙ ran) h

  pub perform_all-IsResumable :
      (s : LoggedStore) (ops : List Op) (t : LoggedStore)
      → IsResumable c base generation s
      → AllInRange ops
      → AllReplayable (calls_of ops)
      → perform_all s (calls_of ops) ≡ done t
      → t.log.current_block.number < t.device.size / 5
      → IsResumable c base generation t
  unfolding perform_all
  perform_all-IsResumable s [] t d range rep ran h =
      subst (IsResumable c base generation) (done-injective _ _ ran) d
  perform_all-IsResumable s (op ∷ ops) t d range rep ran h =
      let (s', code, one, rest) = perform_all-inv (perform s (call_of op)) (calls_of ops) t ran in
      let (on, _) = perform-Logged s (call_of op) s' code d.in_order one in
      let on' = perform_all-GoesOn s' (calls_of ops) t on.in_order rest in
      perform_all-IsResumable s' ops t
        (perform-IsResumable s d op range.0 rep.0 s' code one
          (omega (arith, h, on'.forward, on'.device)))
        range.1 rep.1 rest h

  -- The constructor over the device of a resumable store.
  pub open_store-resumes :
      (s : LoggedStore)
      → IsResumable c base generation s
      → (t : LoggedStore) × (open_store s.device ≡ done (some t))
        × (view t.memory ≡ view s.memory)
        × IsWf t.memory.nodes
  unfolding open_store
  open_store-resumes s d =
      let c' : CheckpointManager = record c { superblock = finished c base generation } in
      let (found, (m, back, same, wf)) =
        restored s.device c base generation d.base_wf d.image_number
          (omega (arith, d.image_low, d.allowed)) (d.image s.device refl (λ b i le. refl)) in
      let (u, replays, wf', seen) = d.replayed m wf same in
      let found_log : LogOps.open_log s.device 0 (s.device.size / 5) ≡ done s.log =
        subst (λ n. LogOps.open_log s.device n (s.device.size / 5) ≡ done s.log) d.log_low
          (subst (λ n. LogOps.open_log s.device s.log.log_min_block n ≡ done s.log) d.log_high
            (open_log-restores s.device s.log d.in_order)) in
      let found_checkpoint : Checkpoints.open_checkpoint s.device (s.device.size / 5) s.device.size
          ≡ done c' =
        subst (λ n. Checkpoints.open_checkpoint s.device n s.device.size ≡ done c') d.image_low
          (subst (λ n. Checkpoints.open_checkpoint s.device c.block_min n ≡ done c') d.image_high
            found) in
      let restores : Checkpoints.restore_checkpoint s.device c' empty
            (previous (LogOps.get_generation s.log))
          ≡ done m =
        subst (λ n. Checkpoints.restore_checkpoint s.device c' empty n ≡ done m) d.before back in
      let fresh : LoggedStore = record s { checkpoint = c'; memory = empty } in
      (
        record fresh { memory = u },
        rw (allowed_of s.device d.allowed) (
            rw found_log (
              rw found_checkpoint (
                recover-replays fresh m d.in_order restores
                ∙ ap (λ o. Outcome.map (λ x. some (record fresh { memory = x })) o) replays))),
        seen,
        wf',
      )
