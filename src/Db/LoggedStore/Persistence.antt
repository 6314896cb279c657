-- ===== src/Db/LoggedStore/Persistence.antt =====
-- The graph of a client of src/db/logged_store.cc, over a restart.
use graph_store.Prelude.{
  ◌+◌, ◌-◌, ◌*◌, ◌/◌, ◌^◌, ◌≤◌, ◌<◌, ◌≡◌, refl, ap, ◌∙◌, sym, subst, List, [], ◌∷◌, arith, inl, inr,
  length, length-append, some,
}
use graph_store.Util.Status.{StatusCode}
use graph_store.Util.Outcome.{done, done-injective}
use graph_store.Io.Device.{Device}
use graph_store.Db.MemoryStore.{MemoryStore, empty}
use graph_store.Db.MemoryStore.Invariant.{IsWf, empty-IsWf}
use graph_store.Db.MemoryStore.Graph.{
  Graph, Op, InRange, effect, status, add_node, remove_node, add_edge, remove_edge,
}
use graph_store.Db.MemoryStore.Simulation.{view, apply}
use graph_store.Db.MemoryStore.Refinement.{AllInRange, run_graph, apply-Refines, view-apply}
use graph_store.Db.Log.Segment.{IsLog, logged}
use graph_store.Db.Log.Count.{capacity, full_of, current-lt}
use graph_store.Db.LoggedStore.{LoggedStore, format_store, open_store}
use graph_store.Db.LoggedStore.Durability.{perform, perform_all, entry_of, AllReplayable}
use graph_store.Db.LoggedStore.Progress.{in_store, perform-Logged}
use graph_store.Db.LoggedStore.Returns.{call_of, calls_of, perform-Returned}
use graph_store.Db.LoggedStore.Restart.{
  format_store-IsDurable, perform_all-IsDurable, open_store-restores,
}

pub in_store-apply : (m : MemoryStore) (op : Op) → in_store m (call_of op) ≡ apply m op
in_store-apply m (add_node a) = refl
in_store-apply m (remove_node a) = refl
in_store-apply m (add_edge a b) = refl
in_store-apply m (remove_edge a b) = refl

-- What calls have done that the log had room for.
pub record Ran (s : LoggedStore) (ops : List Op) (t : LoggedStore) : Type 0 where
  pub in_order : IsLog t.device t.log
  pub wf : IsWf t.memory.nodes
  pub graph : view t.memory ≡ (run_graph (view s.memory) ops).0
  pub count : length (logged t.device t.log) ≡ length (logged s.device s.log) + length ops
  pub place : t.log.log_min_block ≡ s.log.log_min_block
  pub device : t.device.size ≡ s.device.size

-- One call that the log has room for.
pub perform-Ran :
    (s : LoggedStore) (op : Op)
    → InRange op
    → IsLog s.device s.log
    → IsWf s.memory.nodes
    → length (logged s.device s.log) < capacity s.device s.log
    → (s' : LoggedStore) × (c : StatusCode) × (perform s (call_of op) ≡ done (s', c))
      × (c ≡ status (view s.memory) op)
      × Ran s (op ∷ []) s'
perform-Ran s op h l wf room =
    let (s', c, ran, wf') = perform-Returned s op h l wf in
    let (m', made, impl) = apply-Refines s.memory op h wf in
    let (on, how) = perform-Logged s (call_of op) s' c l ran in
    elim how [
      | inl (entries, same) ↦
          let both = done-injective _ _ (sym made ∙ sym (in_store-apply s.memory op) ∙ same) in
          let reached : m' ≡ s'.memory = ap (λ x. x.0) both in
          (
            s',
            c,
            ran,
            sym (ap (λ x. x.1) both),
            record {
              in_order = on.in_order;
              wf = wf';
              graph =
                  subst (λ m. view m ≡ effect (view s.memory) op) reached
                    (view-apply s.memory op m' impl);
              count =
                  ap (λ es. length es) entries
                  ∙ length-append (logged s.device s.log) (entry_of (call_of op) ∷ []);
              place = on.place;
              device = on.device;
            },
          )
      | inr (_, _, full) ↦ absurd (omega (arith, full_of s.device s.log l full.0 full.1))
    ]

-- One call, and then the others.
Ran-cons :
    (s s' t : LoggedStore) (op : Op) (ops : List Op)
    → Ran s (op ∷ []) s'
    → Ran s' ops t
    → Ran s (op ∷ ops) t
Ran-cons s s' t op ops first rest = record {
  in_order = rest.in_order;
  wf = rest.wf;
  graph = rest.graph ∙ ap (λ (g : Graph). (run_graph g ops).0) first.graph;
  count = omega (arith, rest.count, first.count);
  place = rest.place ∙ first.place;
  device = rest.device ∙ first.device;
}

pub perform_all-Ran :
    (s : LoggedStore) (ops : List Op)
    → AllInRange ops
    → IsLog s.device s.log
    → IsWf s.memory.nodes
    → length (logged s.device s.log) + length ops ≤ capacity s.device s.log
    → (t : LoggedStore) × (perform_all s (calls_of ops) ≡ done t) × Ran s ops t
unfolding perform_all
perform_all-Ran s [] h l wf room = (
  s,
  refl,
  record { in_order = l; wf = wf; graph = refl; count = omega arith; place = refl; device = refl },
)
perform_all-Ran s (op ∷ ops) h l wf room =
    let (s', c, ran, _, first) = perform-Ran s op h.0 l wf (omega arith) in
    let smaller : length (logged s'.device s'.log) + length ops ≤ capacity s'.device s'.log =
      omega (arith, first.count, first.place, first.device) in
    let (t, ends, rest) = perform_all-Ran s' ops h.1 first.in_order first.wf smaller in
    (t, rw ran ends, Ran-cons s s' t op ops first rest)

-- A device of at least ten blocks, whose size is below 2^32, is formatted, and a client makes calls of
-- addNode, removeNode and addEdge at 64-bit ids, no more of them than the blocks of the log's range
-- have room for. Then the constructor and every call return, the store in memory is well formed and
-- holds the graph of the same run of the abstract specification from the empty graph, and the
-- constructor that opens the store over the device returns exactly that store.
pub graph_persists :
    (dev : Device) (ops : List Op)
    → 10 ≤ dev.size
    → dev.size < 2 ^ 32
    → AllInRange ops
    → AllReplayable (calls_of ops)
    → length ops ≤ 169 * (dev.size / 5 - 1)
    → (s t : LoggedStore) × (format_store dev ≡ done s)
      × (perform_all s (calls_of ops) ≡ done t)
      × (view t.memory ≡ (run_graph (view empty) ops).0)
      × IsWf t.memory.nodes
      × (open_store t.device ≡ done (some t))
graph_persists dev ops h narrow range rep bound =
    let (s, formatted, blank, size, unlogged, d) = format_store-IsDurable dev h narrow in
    let wf : IsWf s.memory.nodes =
      subst (λ (m : MemoryStore). IsWf m.nodes) (sym blank) empty-IsWf in
    let room : length (logged s.device s.log) + length ops ≤ capacity s.device s.log =
      omega (arith, ap (λ es. length es) unlogged, d.log_low) in
    let (t, ran, r) = perform_all-Ran s ops range d.in_order wf room in
    let few : length (logged t.device t.log) ≤ 169 * (dev.size / 5 - 1) =
      omega (arith, ap (λ es. length es) unlogged, r.count) in
    let last = current-lt t.device t.log (dev.size / 5 - 1) r.in_order few (omega arith) in
    let durable =
      perform_all-IsDurable s (calls_of ops) t d rep ran
        (omega (arith, last, r.place, r.device, d.log_low)) in
    (
      s,
      t,
      formatted,
      ran,
      r.graph ∙ ap (λ m. (run_graph (view m) ops).0) blank,
      r.wf,
      open_store-restores t durable,
    )
