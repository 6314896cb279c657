-- ===== src/Scons/Taskmaster/Flush.antt =====
-- `will_not_build`, `stop` and `no_next_candidate` of
-- scons/scons-local-2.5.0/SCons/Taskmaster.py. A set gives up its nodes in some order; the list that
-- stands for it shows one. A loop is on fuel, and `none` is out of fuel.
pub mod Sets
pub mod Failed
pub mod Pending
pub mod Ends
use graph_store.Prelude.{ℕ, zero, suc, Bool, true, Option, none, some, List, [], ◌∷◌}
use graph_store.Util.Int.{pos, ◌-ℤ◌}
use graph_store.Db.IdSet
use graph_store.Scons.Node.{NodeId, NodeState, Store, set_state, set_ref_count, set_waiting_parents}
use graph_store.Scons.Taskmaster.State.{Taskmaster}

-- `a | b`
unfoldable pub union : (a b : List NodeId) → List NodeId
union [] b = b
union (n ∷ a) b = union a (IdSet.insert n b).0

-- `a - b`
unfoldable pub minus : (a b : List NodeId) → List NodeId
minus a [] = a
minus a (n ∷ b) = minus (IdSet.erase n a) b

unfoldable pub release_parents : Store → (parents : List NodeId) → Store
unfolding set_ref_count
release_parents s [] = s
release_parents s (p ∷ parents) =
    release_parents (set_ref_count s p ((s p).ref_count -ℤ pos 1)) parents

abbrev pub NodeFunc : Type 0
NodeFunc = Store → NodeId → Store

-- `lambda n: None`
abbrev pub no_func : NodeFunc
no_func s n = s

-- `lambda n: n.set_state(NODE_FAILED)`
abbrev pub mark_failed : NodeFunc
mark_failed s n = set_state s n NodeState.failed

-- one round of the loop: `node_func`, then the waiting parents of the node are let go
unfoldable pub give_up : NodeFunc → Store → NodeId → Store
unfolding release_parents set_waiting_parents
give_up func s node =
    release_parents (set_waiting_parents (func s node) node []) (func s node node).waiting_parents

unfoldable pub flush :
    (fuel : ℕ) → NodeFunc → Store → (to_visit pending : List NodeId) → Option (Store × List NodeId)
unfolding give_up
flush fuel func s [] pending = some (s, pending)
flush zero func s (node ∷ to_visit) pending = none
flush (suc fuel) func s (node ∷ to_visit) pending =
    let parents = (func s node node).waiting_parents in
    flush fuel func (give_up func s node) (union parents to_visit) (minus pending parents)

unfoldable pub will_not_build :
    (fuel : ℕ) → NodeFunc → Taskmaster → (nodes : List NodeId) → Option Taskmaster
unfolding flush
will_not_build fuel func tm nodes =
    elim (flush fuel func tm.store (union nodes []) (minus tm.pending_children nodes)) [
      | none ↦ none
      | some (s, pending) ↦ some (record tm { store = s; pending_children = pending })
    ]

abbrev pub stop : Taskmaster → Taskmaster
stop tm = record tm { stopped = true }

-- `will_not_build` adds no candidate, so the loop has one round at most.
unfoldable pub no_next_candidate : (fuel : ℕ) → Taskmaster → Option Taskmaster
unfolding will_not_build
no_next_candidate fuel tm = elim tm.candidates [
  | [] ↦ some tm
  | node ∷ candidates ↦
      will_not_build fuel no_func (record tm { candidates = [] }) (node ∷ candidates)
]
