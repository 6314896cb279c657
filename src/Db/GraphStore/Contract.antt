-- ===== src/Db/GraphStore/Contract.antt =====
-- What the implementations of src/db/graph_store.h promise: an abstract graph behind the states,
-- which the four operations change as the specification says, or not at all for want of space.
use graph_store.Prelude.{◌≡◌, refl, ap, ◌∙◌, sym, subst, ◌⊎◌, inl, inr, if◌then◌else◌, arith}
use graph_store.Util.Status.{StatusCode, get_code}
use graph_store.Util.Outcome.{done, done-injective}
use graph_store.Db.Types.{NodeId}
use graph_store.Db.GraphStore.{GraphStore, call, memory_store, logged_store}
use graph_store.Db.MemoryStore.{MemoryStore}
use graph_store.Db.MemoryStore.View.{has, linked}
use graph_store.Db.MemoryStore.Invariant.{IsWf}
use graph_store.Db.MemoryStore.Graph.{
  Graph, Op, InRange, IsGraph, status, effect, add_node, remove_node, add_edge, remove_edge,
}
use graph_store.Db.MemoryStore.Simulation.{view, apply}
use graph_store.Db.MemoryStore.Refinement.{apply-Refines, view-apply}
use graph_store.Db.MemoryStore.Queries.{find_node_code}
use graph_store.Db.Log.Segment.{IsLog}
use graph_store.Db.LoggedStore
use graph_store.Db.LoggedStore.{LoggedStore}
use graph_store.Db.LoggedStore.Durability.{perform}
use graph_store.Db.LoggedStore.Progress.{perform-Logged}
use graph_store.Db.LoggedStore.Returns.{call_of, perform-Returned}
use graph_store.Db.LoggedStore.Persistence.{in_store-apply}

-- The status `c` and the graph `g'` that an operation leaves of `g`.
abbrev pub Answered : Graph → Op → StatusCode → Graph → Type 0
Answered g op c g' =
    ((c ≡ status g op) × (g' ≡ effect g op)) ⊎ ((c ≡ StatusCode.no_space) × (g' ≡ g))

pub record Contract {S : Type 0} (G : GraphStore S) : Type 1 where
  pub graph : S → Graph
  pub IsValid : S → Type 0
  pub is_graph : (s : S) → IsValid s → IsGraph (graph s)
  pub performs :
      (s : S) (op : Op)
      → InRange op
      → IsValid s
      → (s' : S) × (c : StatusCode) × (call G s op ≡ done (s', c))
        × IsValid s'
        × Answered (graph s) op c (graph s')
  pub finds :
      (s : S) (a : NodeId)
      → IsValid s
      → get_code (G.find_node s a)
        ≡ (if (graph s).node a then StatusCode.success else StatusCode.does_not_exist)

pub view-IsGraph : (s : MemoryStore) → IsWf s.nodes → IsGraph (view s)
view-IsGraph s wf = record {
  symmetric = wf.symmetric;
  irreflexive = wf.irreflexive;
  ends = λ a b h. unfold has linked in ground (arith, h);
}

pub call-memory_store : (s : MemoryStore) (op : Op) → call memory_store s op ≡ apply s op
call-memory_store s (add_node a) = refl
call-memory_store s (remove_node a) = refl
call-memory_store s (add_edge a b) = refl
call-memory_store s (remove_edge a b) = refl

pub call-logged_store :
    (s : LoggedStore) (op : Op) → call logged_store s op ≡ perform s (call_of op)
call-logged_store s (add_node a) = refl
call-logged_store s (remove_node a) = refl
call-logged_store s (add_edge a b) = refl
call-logged_store s (remove_edge a b) = refl

abbrev pub memory_store-Contract : Contract memory_store
memory_store-Contract = record {
  graph = view;
  IsValid = λ s. IsWf s.nodes;
  is_graph = view-IsGraph;
  performs = λ s op h wf.
      let (s', ran, impl) = apply-Refines s op h wf in
      (
        s',
        status (view s) op,
        call-memory_store s op ∙ ran,
        impl.wf,
        inl (refl, view-apply s op s' impl),
      );
  finds = λ s a wf. find_node_code s a;
}

pub logged_answer :
    (s : LoggedStore) (op : Op) (s' : LoggedStore) (c : StatusCode)
    → InRange op
    → IsLog s.device s.log
    → IsWf s.memory.nodes
    → perform s (call_of op) ≡ done (s', c)
    → Answered (view s.memory) op c (view s'.memory)
logged_answer s op s' c h l wf ran =
    let (m', made, impl) = apply-Refines s.memory op h wf in
    let (on, how) = perform-Logged s (call_of op) s' c l ran in
    elim how [
      | inl (entries, same) ↦
          let both = done-injective _ _ (sym made ∙ sym (in_store-apply s.memory op) ∙ same) in
          inl (
            sym (ap (λ x. x.1) both),
            subst (λ m. view m ≡ effect (view s.memory) op) (ap (λ x. x.0) both)
                (view-apply s.memory op m' impl),
          )
      | inr (unchanged, code, full) ↦ inr (code, ap (λ (t : LoggedStore). view t.memory) unchanged)
    ]

pub logged_find_code :
    (s : LoggedStore) (a : NodeId)
    → get_code (LoggedStore.find_node s a)
      ≡ (if has s.memory.nodes a then StatusCode.success else StatusCode.does_not_exist)
unfolding LoggedStore.find_node
logged_find_code s a = find_node_code s.memory a

abbrev pub logged_store-Contract : Contract logged_store
logged_store-Contract = record {
  graph = λ s. view s.memory;
  IsValid = λ s. IsLog s.device s.log × IsWf s.memory.nodes;
  is_graph = λ s v. view-IsGraph s.memory v.1;
  performs = λ s op h v.
      let (s', c, ran, wf) = perform-Returned s op h v.0 v.1 in
      let (on, _) = perform-Logged s (call_of op) s' c v.0 ran in
      (
        s',
        c,
        call-logged_store s op ∙ ran,
        (on.in_order, wf),
        logged_answer s op s' c h v.0 v.1 ran,
      );
  finds = λ s a v. logged_find_code s a;
}
