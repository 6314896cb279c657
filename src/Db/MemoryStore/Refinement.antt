-- ===== src/Db/MemoryStore/Refinement.antt =====
-- src/db/memory_store.cc against the abstract graph, operation by operation and over whole runs.
use mathlib.Core.Path.{fun_ext}
use graph_store.Prelude.{◌≡◌, refl, ap, ◌∙◌, List, [], ◌∷◌}
use graph_store.Util.Status.{StatusCode}
use graph_store.Util.Outcome.{Outcome, done, ◌>>=◌}
use graph_store.Db.MemoryStore.{MemoryStore}
use graph_store.Db.MemoryStore.Invariant.{IsWf}
use graph_store.Db.MemoryStore.Graph.{
  Graph, Op, InRange, status, effect, add_node, remove_node, add_edge, remove_edge,
}
use graph_store.Db.MemoryStore.Simulation.{view, apply, Implements, Refines}
use graph_store.Db.MemoryStore.Nodes.{add_node-Refines, remove_node-Refines}
use graph_store.Db.MemoryStore.Edges.{add_edge-Refines, remove_edge-Refines}

-- From a well-formed store, every operation at 64-bit ids returns: no `invariant` of it fails. Its
-- status is the one that the specification gives, the nodes and edges afterwards are those of the
-- graph that the specification gives, and the store is well formed again.
pub apply-Refines : (s : MemoryStore) (op : Op) → InRange op → IsWf s.nodes → Refines s op
apply-Refines s (add_node a) h wf = add_node-Refines s a h wf
apply-Refines s (remove_node a) h wf = remove_node-Refines s a wf
apply-Refines s (add_edge a b) h wf = add_edge-Refines s a b wf
apply-Refines s (remove_edge a b) h wf = remove_edge-Refines s a b wf

-- A client's operations in turn, with the statuses that it gets.
unfoldable pub run : MemoryStore → List Op → Outcome (MemoryStore × List StatusCode)
run s [] = done (s, [])
run s (op ∷ ops) = do (s', c) ← apply s op; (t, cs) ← run s' ops; done (t, c ∷ cs)

abbrev pub AllInRange : List Op → Type 0
AllInRange [] = Unit
AllInRange (op ∷ ops) = InRange op × AllInRange ops

-- The same run of the specification.
abbrev pub run_graph : Graph → List Op → Graph × List StatusCode
run_graph g [] = (g, [])
run_graph g (op ∷ ops) = let (g', cs) = run_graph (effect g op) ops in (g', status g op ∷ cs)

pub view-apply :
    (s : MemoryStore) (op : Op) (s' : MemoryStore)
    → Implements s op s'
    → view s' ≡ effect (view s) op
view-apply s op s' h i = record {
  node = fun_ext h.node i;
  edge = fun_ext (λ x. fun_ext (h.edge x)) i;
}

-- From a well-formed store, any operations at 64-bit ids, one after the other, return. The
-- statuses and the graph at the end are those of the same run of the specification, and the store
-- at the end is well formed.
pub run-Refines :
    (s : MemoryStore) (ops : List Op)
    → AllInRange ops
    → IsWf s.nodes
    → (t : MemoryStore) × (run s ops ≡ done (t, (run_graph (view s) ops).1))
      × (view t ≡ (run_graph (view s) ops).0)
      × IsWf t.nodes
unfolding run
run-Refines s [] h wf = (s, refl, refl, wf)
run-Refines s (op ∷ ops) h wf =
    let (s', ran, impl) = apply-Refines s op h.0 wf in
    let (t, ends, views, wf') = run-Refines s' ops h.1 impl.wf in
    let seen = view-apply s op s' impl in
    (
      t,
      rw ran
          (rw ends (ap (λ (g : Graph). done (t, status (view s) op ∷ (run_graph g ops).1)) seen)),
      views ∙ ap (λ (g : Graph). (run_graph g ops).0) seen,
      wf',
    )
