-- ===== src/Db/Replication/Answers.antt =====
-- What the answer of a replicated operation tells the node that asks: src/db/replication_manager.cc
-- and src/net/replication_server.cc.
use graph_store.Prelude.{ℕ, ◌≡◌, ◌≢◌, Bool, true, false, sym, ◌∙◌, refl, ap, arith}
use graph_store.Util.Status.{StatusCode, is_success}
use graph_store.Util.Outcome.{done, done-injective}
use graph_store.Db.MemoryStore.Graph.{
  Graph, Op, InRange, status, effect, add_node, remove_node, add_edge, remove_edge,
}
use graph_store.Db.GraphStore.{GraphStore, memory_store}
use graph_store.Db.GraphStore.Contract.{Contract, memory_store-Contract, call-memory_store}
use graph_store.Db.MemoryStore.Simulation.{view}
use graph_store.Db.MemoryStore.Refinement.{apply-Refines}
use graph_store.Db.Replication.{NodeType, Chain, Network, Delivers, replicate, chain_client}
use graph_store.Db.Replication.Agreement.{
  IsBehind, AllHold, Split, HasRoom, replicate-Agrees, true_ne_false,
}

module _ {S : Type 0} (G : GraphStore S) (laws : Contract G) (g : Graph) (op : Op) (n : ℕ)
    (c : Chain S n) where
  -- What the answer, and whether the operation is one that the graph allows, say of the replicas.
  abbrev pub Told : Bool → Bool → Type 0
  Told true true = AllHold G laws (effect g op) n c
  Told true false = ⊥
  Told false true = Split G laws (effect g op) g n c × (HasRoom G laws → ⊥)
  Told false false = AllHold G laws g n c

-- Over a network that delivers its calls, from replicas that all hold the graph `g`, a replicated
-- operation at 64-bit ids on a node that is not the tail returns, and the replicas keep their
-- places. If its status in the specification is SUCCESS, then either the answer is true and all
-- replicas hold the graph of the specification, or it is false, some store can be out of space, and
-- the first replicas hold that graph and those behind them still hold `g`. If the status is another,
-- the answer is false and all replicas still hold `g`.
pub replicate-Told :
    {S : Type 0} (G : GraphStore S) (laws : Contract G) (network : Network) (g : Graph) (op : Op)
    (type : NodeType) (n : ℕ) (c : Chain S n)
    → Delivers network
    → InRange op
    → AllHold G laws g n c
    → IsBehind S type n c
    → type ≢ NodeType.tail
    → (c' : Chain S n) × (b : Bool) × (replicate type (chain_client G network n) c op
        ≡ done (c', b))
      × IsBehind S type n c'
      × Told G laws g op n c' b (is_success (status g op))
replicate-Told {S} G laws network g op type n c delivers range h w other =
    let (c', b, ran, placed, split, agreed, idle, accepted) =
      replicate-Agrees G laws network g op type n c delivers range h w other in
    (c', b, ran, placed, told c' b (is_success (status g op)) split agreed idle accepted)
  where
    told :
        (c' : Chain S n) (b allowed : Bool)
        → Split G laws (effect g op) g n c'
        → (b ≡ true → (allowed ≡ true) × AllHold G laws (effect g op) n c')
        → (allowed ≡ false → AllHold G laws g n c')
        → (HasRoom G laws → allowed ≡ true → b ≡ true)
        → Told G laws g op n c' b allowed
    told c' true true split agreed idle accepted = (agreed refl).1
    told c' true false split agreed idle accepted = true_ne_false (sym (agreed refl).0)
    told c' false true split agreed idle accepted =
        (split, λ room. true_ne_false (sym (accepted room refl)))
    told c' false false split agreed idle accepted = idle refl

status_room : (g : Graph) (op : Op) → status g op ≢ StatusCode.no_space
status_room g (add_node a) h = ground (arith, h)
status_room g (remove_node a) h = ground (arith, h)
status_room g (add_edge a b) h = ground (arith, h)
status_room g (remove_edge a b) h = ground (arith, h)

-- A store in memory is never out of space.
pub memory_store-HasRoom : HasRoom memory_store memory_store-Contract
memory_store-HasRoom s s' op range wf full =
    let (t, ran, _) = apply-Refines s op range wf in
    let same = done-injective _ _ (sym ran ∙ sym (call-memory_store s op) ∙ full) in
    status_room (view s) op (ap (λ x. x.1) same)
