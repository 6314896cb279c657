-- ===== src/Scons/Taskmaster/State.antt =====
-- The attributes of a `Taskmaster` of scons/scons-local-2.5.0/SCons/Taskmaster.py, and what it is
-- given. A stack is a list with its top first; a set is a list without repetition.
use graph_store.Prelude.{ℕ, Bool, false, Option, none, List, [], ◌∷◌, ◌⊎◌}
use graph_store.Scons.Node.{NodeId, NodeState, Store, set_state}
use graph_store.Scons.Executor.{Executor, Exception, Children}

abbrev pub Text : Type 0
Text = List ℕ

-- What `is_up_to_date` gives: an answer, an `EnvironmentError`, or another exception.
pub data Currency : Type 0 where
  answer : Bool → Currency
  environment_error : Currency
  trouble : Exception → Currency

-- The nodes and executors as the engine sees them: what does not change in a build, the scanners,
-- the decider, the build actions and the cache. An action or a scan may depend on the states.
pub record Engine : Type 0 where
  pub executor : NodeId → Executor
  pub prerequisites : NodeId → List NodeId
  pub side_effects : NodeId → List NodeId
  pub depends : NodeId → List NodeId
  pub implicit : NodeId → List NodeId
  pub children : Store → Children
  pub alter_targets : NodeId → List NodeId × Option Text
  pub order : List NodeId → List NodeId
  pub has_builder : NodeId → Bool
  pub always_build : NodeId → Bool
  pub pseudo : NodeId → Bool
  pub exists : Store → NodeId → Bool
  pub missing : Store → NodeId → Bool
  pub is_up_to_date : Store → NodeId → Currency
  pub retrieve_from_cache : Store → NodeId → Exception ⊎ Bool
  pub build : Store → NodeId → Option Exception

-- `next_candidate` is `no_next_candidate` where `stopped` holds, else `find_next_candidate`.
pub record Taskmaster : Type 0 where
  pub store : Store
  pub original_top : List NodeId
  pub top_targets_left : List NodeId
  pub candidates : List NodeId
  pub current_top : Option NodeId
  pub message : Option Text
  pub pending_children : List NodeId
  pub stopped : Bool
  pub ready_exc : Option Exception

-- `Taskmaster.__init__`
abbrev pub new_taskmaster : Store → (targets : List NodeId) → Taskmaster
new_taskmaster s targets = record {
  store = s;
  original_top = targets;
  top_targets_left = targets;
  candidates = [];
  current_top = none;
  message = none;
  pending_children = [];
  stopped = false;
  ready_exc = none;
}

-- `stack.extend(nodes)`: the last node comes to the top.
unfoldable pub extend : (nodes stack : List NodeId) → List NodeId
extend [] stack = stack
extend (n ∷ nodes) stack = extend nodes (n ∷ stack)

-- An assignment of one state to several nodes.
unfoldable pub set_states : Store → List NodeId → NodeState → Store
set_states s [] v = s
set_states s (n ∷ nodes) v = set_states (set_state s n v) nodes v
