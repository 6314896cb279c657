-- ===== src/Scons/Node.antt =====
-- The part of `Node` of scons/scons-local-2.5.0/SCons/Node/__init__.py that the task master reads
-- and changes. A node is known by its id, and the store holds the attributes of each; a set is a
-- list without repetition. `disambiguate` returns the node itself.
use graph_store.Prelude.{ℕ, Bool, false, List, [], ◌==◌, if◌then◌else◌}
use graph_store.Util.Int.{ℤ, pos}
use graph_store.Db.IdSet

abbrev pub NodeId : Type 0
NodeId = ℕ

pub data NodeState : Type 0 where
  no_state pending executing up_to_date executed failed : NodeState

-- The numbers that stand for the states in the source.
abbrev pub rank : NodeState → ℕ
rank NodeState.no_state = 0
rank NodeState.pending = 1
rank NodeState.executing = 2
rank NodeState.up_to_date = 3
rank NodeState.executed = 4
rank NodeState.failed = 5

abbrev pub same_state : NodeState → NodeState → Bool
same_state a b = rank a == rank b

pub record Node : Type 0 where
  pub state : NodeState
  pub ref_count : ℤ
  pub waiting_parents : List NodeId
  pub waiting_s_e : List NodeId
  pub cached : Bool

-- `Node.__init__`
abbrev pub new_node : Node
new_node = record {
  state = NodeState.no_state;
  ref_count = pos 0;
  waiting_parents = [];
  waiting_s_e = [];
  cached = false;
}

abbrev pub Store : Type 0
Store = NodeId → Node

-- An assignment to attributes of one node.
unfoldable pub update : Store → NodeId → Node → Store
update s n v m = if n == m then v else s m

unfoldable pub set_state : Store → NodeId → NodeState → Store
unfolding update
set_state s n v = update s n (record (s n) { state = v })

abbrev pub get_state : Store → NodeId → NodeState
get_state s n = (s n).state

unfoldable pub set_ref_count : Store → NodeId → ℤ → Store
unfolding update
set_ref_count s n v = update s n (record (s n) { ref_count = v })

-- `wp.add(node)` of the set of the waiting parents
unfoldable pub set_waiting_parents : Store → NodeId → List NodeId → Store
unfolding update
set_waiting_parents s n ps = update s n (record (s n) { waiting_parents = ps })

-- The store, and the number of parents that were added.
unfoldable pub add_to_waiting_parents : Store → NodeId → NodeId → Store × ℕ
unfolding set_waiting_parents
add_to_waiting_parents s child node =
    if IdSet.contains node (s child).waiting_parents
    then (s, 0)
    else (set_waiting_parents s child (IdSet.insert node (s child).waiting_parents).0, 1)

unfoldable pub add_to_waiting_s_e : Store → NodeId → NodeId → Store
unfolding update
add_to_waiting_s_e s se node =
    update s se (record (s se) { waiting_s_e = (IdSet.insert node (s se).waiting_s_e).0 })

-- `executor_cleanup` drops memoised values only.
unfoldable pub postprocess : Store → NodeId → Store
unfolding set_waiting_parents
postprocess s n = set_waiting_parents s n []

unfoldable pub set_cached : Store → NodeId → Bool → Store
unfolding update
set_cached s n v = update s n (record (s n) { cached = v })
