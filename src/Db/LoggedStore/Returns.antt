-- ===== src/Db/LoggedStore/Returns.antt =====
-- Whether the methods of src/db/logged_store.cc on nodes and edges return.
use graph_store.Prelude.{◌≡◌, refl, List, [], ◌∷◌}
use graph_store.Util.Status.{StatusCode}
use graph_store.Util.Outcome.{done}
use graph_store.Io.Device.{Device}
use graph_store.Db.MemoryStore.{MemoryStore, Mutation}
use graph_store.Db.MemoryStore.Invariant.{IsWf}
use graph_store.Db.MemoryStore.Graph.{Op, InRange, add_node, remove_node, add_edge, remove_edge}
use graph_store.Db.MemoryStore.Refinement.{AllInRange, apply-Refines}
use graph_store.Db.Log.Entry.{Entry}
use graph_store.Db.Log.Manager.{LogManager}
use graph_store.Db.Log.Segment.{IsLog}
use graph_store.Db.Log.Operation.{Operated, log_operation-Operated}
use graph_store.Db.LoggedStore
use graph_store.Db.LoggedStore.{LoggedStore, in_memory}
use graph_store.Db.LoggedStore.Durability as Calls
use graph_store.Db.LoggedStore.Durability.{Call, perform, perform_all, entry_of, after_log}
use graph_store.Db.LoggedStore.Progress.{perform-Logged}

-- The call of the logged store for an operation on nodes and edges.
abbrev pub call_of : Op → Call
call_of (add_node a) = Calls.add_node a
call_of (remove_node a) = Calls.remove_node a
call_of (add_edge a b) = Calls.add_edge a b
call_of (remove_edge a b) = Calls.remove_edge a b

abbrev pub calls_of : List Op → List Call
calls_of [] = []
calls_of (op ∷ ops) = call_of op ∷ calls_of ops

-- A result that is a store whose memory is well formed.
abbrev pub Returned : LoggedStore.LoggedMutation → Type 0
Returned o = (s' : LoggedStore) × (c : StatusCode) × (o ≡ done (s', c)) × IsWf s'.memory.nodes

after-Returned :
    (s : LoggedStore) (e : Entry) (m : Mutation) (m' : MemoryStore) (c : StatusCode)
    (r : Device × LogManager × StatusCode)
    → IsWf s.memory.nodes
    → IsWf m'.nodes
    → m ≡ done (m', c)
    → Operated s.device s.log e r
    → Returned (after_log s m r)
unfolding in_memory
after-Returned s e m m' c (dev', log', StatusCode.success) wf wf' ran a =
    (record s { device = dev'; log = log'; memory = m' }, c, rw ran refl, wf')
after-Returned s e m m' c (dev', log', StatusCode.no_space) wf wf' ran a =
    (record s { device = dev'; log = log' }, StatusCode.no_space, refl, wf)
after-Returned s e m m' c (dev', log', status) wf wf' ran a = elim a [ ]

pub perform-Returned :
    (s : LoggedStore) (op : Op)
    → InRange op
    → IsLog s.device s.log
    → IsWf s.memory.nodes
    → Returned (perform s (call_of op))
unfolding entry_of LoggedStore.add_node LoggedStore.remove_node LoggedStore.add_edge
    LoggedStore.remove_edge
perform-Returned s (add_node a) h l wf =
    let (m', ran, impl) = apply-Refines s.memory (add_node a) h wf in
    let e = entry_of (Calls.add_node a) in
    after-Returned s e _ m' _ _ wf impl.wf ran (log_operation-Operated s.device s.log e tt l)
perform-Returned s (remove_node a) h l wf =
    let (m', ran, impl) = apply-Refines s.memory (remove_node a) h wf in
    let e = entry_of (Calls.remove_node a) in
    after-Returned s e _ m' _ _ wf impl.wf ran (log_operation-Operated s.device s.log e tt l)
perform-Returned s (add_edge a b) h l wf =
    let (m', ran, impl) = apply-Refines s.memory (add_edge a b) h wf in
    let e = entry_of (Calls.add_edge a b) in
    after-Returned s e _ m' _ _ wf impl.wf ran (log_operation-Operated s.device s.log e tt l)
perform-Returned s (remove_edge a b) h l wf =
    let (m', ran, impl) = apply-Refines s.memory (remove_edge a b) h wf in
    let e = entry_of (Calls.remove_edge a b) in
    after-Returned s e _ m' _ _ wf impl.wf ran (log_operation-Operated s.device s.log e tt l)

-- From a store whose log is in its invariant and whose memory is well formed, calls of addNode,
-- removeNode, addEdge and removeEdge at 64-bit ids, one after the other, all return, and leave such
-- a store: the process does not exit, also when the log has no room left.
pub perform_all-returns :
    (s : LoggedStore) (ops : List Op)
    → AllInRange ops
    → IsLog s.device s.log
    → IsWf s.memory.nodes
    → (t : LoggedStore) × (perform_all s (calls_of ops) ≡ done t)
      × IsLog t.device t.log
      × IsWf t.memory.nodes
unfolding perform_all
perform_all-returns s [] h l wf = (s, refl, l, wf)
perform_all-returns s (op ∷ ops) h l wf =
    let (s', c, ran, wf') = perform-Returned s op h.0 l wf in
    let (on, _) = perform-Logged s (call_of op) s' c l ran in
    let (t, ends, l', wft) = perform_all-returns s' ops h.1 on.in_order wf' in
    (t, rw ran ends, l', wft)
