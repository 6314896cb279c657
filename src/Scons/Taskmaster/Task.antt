-- ===== src/Scons/Taskmaster/Task.antt =====
-- `Task` of scons/scons-local-2.5.0/SCons/Taskmaster.py, up to its execution, with the subclasses
-- `AlwaysTask` and `OutOfDateTask`. The hooks of a node that change no modelled attribute
-- (`make_ready`, `visited`, `push_to_cache`, `release_target_info`) are left out.
use graph_store.Prelude.{
  Bool, true, false, ◌&&◌, ◌||◌, Option, none, some, List, [], ◌∷◌, ◌++◌, ◌⊎◌, inl, inr,
  if◌then◌else◌, ltb, length,
}
use graph_store.Scons.Node.{NodeId, NodeState, Store, get_state, set_state, same_state, set_cached}
use graph_store.Scons.Executor.{Exception, get_all_sources}
use graph_store.Scons.Taskmaster.State.{
  Engine, Taskmaster, Currency, answer, environment_error, trouble, set_states,
}

pub record Task : Type 0 where
  pub targets : List NodeId
  pub top : Bool
  pub node : NodeId
  pub exception : Option Exception
  pub out_of_date : List NodeId

-- The class of the tasks.
pub data Tasker : Type 0 where
  always_task out_of_date_task : Tasker

abbrev pub new_task : (targets : List NodeId) → (top : Bool) → (node : NodeId) → Task
new_task targets top node = record {
  targets = targets;
  top = top;
  node = node;
  exception = none;
  out_of_date = [];
}

abbrev pub exception_set : Task → Exception → Task
exception_set task e = record task { exception = some e }

abbrev pub first : List NodeId → NodeId → NodeId
first [] node = node
first (t ∷ targets) node = t

-- The targets that are not up to date, up to the first exception.
unfoldable pub is_current : Engine → Store → NodeId → Currency
is_current eng s t =
    if eng.has_builder t
    then (if eng.always_build t then answer false else eng.is_up_to_date s t)
    else answer true

unfoldable pub find_out_of_date :
    Engine → Store → (targets : List NodeId) → List NodeId × Option Exception
unfolding is_current
find_out_of_date eng s [] = ([], none)
find_out_of_date eng s (t ∷ targets) = elim (is_current eng s t) [
  | environment_error ↦ ([], some (Exception.build_error t))
  | trouble e ↦ ([], some e)
  | answer b ↦
      let rest = find_out_of_date eng s targets in (if b then rest.0 else t ∷ rest.0, rest.1)
]

-- Each target is set to executing, and after it its side effects.
unfoldable pub start_targets : Engine → Store → (targets : List NodeId) → Store
unfolding set_states
start_targets eng s [] = s
start_targets eng s (t ∷ targets) =
    start_targets eng
      (set_states (set_state s t NodeState.executing) (eng.side_effects t) NodeState.executing)
      targets

unfoldable pub make_ready_all : Engine → Store → Task → Store × Task
unfolding start_targets
make_ready_all eng s task =
    (start_targets eng s task.targets, record task { out_of_date = task.targets })

unfoldable pub make_ready_current : Engine → Store → Task → Store × Task × Option Exception
unfolding find_out_of_date start_targets set_states
make_ready_current eng s task =
    let r = find_out_of_date eng s task.targets in
    let task' : Task = record task { out_of_date = r.0 } in
    elim r.1 [
      | some e ↦ (s, task', some e)
      | none ↦ elim r.0 [
        | [] ↦ (set_states s task.targets NodeState.up_to_date, task', none)
        | t ∷ ts ↦ (start_targets eng s task.targets, task', none)
      ]
    ]

unfoldable pub any_missing : Engine → Store → List NodeId → Bool
any_missing eng s [] = false
any_missing eng s (n ∷ nodes) = eng.missing s n || any_missing eng s nodes

-- `Executor.prepare`: all sources are there
unfoldable pub prepare_executor : Engine → Store → NodeId → Option Exception
unfolding any_missing
prepare_executor eng s t =
    if any_missing eng s (get_all_sources (eng.executor t)) then some Exception.stop_error else none

-- `Node.prepare`: the explicit and the implicit dependencies are there
unfoldable pub prepare_node : Engine → Store → NodeId → Option Exception
unfolding any_missing
prepare_node eng s t =
    if any_missing eng s (eng.depends t) || any_missing eng s (eng.implicit t)
    then some Exception.stop_error
    else none

-- The first exception of a list of calls.
unfoldable pub prepare_nodes : Engine → Store → (nodes : List NodeId) → Option Exception
unfolding prepare_node
prepare_nodes eng s [] = none
prepare_nodes eng s (n ∷ nodes) = elim (prepare_node eng s n) [
  | some e ↦ some e
  | none ↦ prepare_nodes eng s nodes
]

unfoldable pub with_side_effects : Engine → (targets : List NodeId) → List NodeId
with_side_effects eng [] = []
with_side_effects eng (t ∷ targets) = (t ∷ eng.side_effects t) ++ with_side_effects eng targets

-- `Task.prepare`; `display` of the message is a hook.
unfoldable pub prepare : Engine → Taskmaster → Task → Taskmaster × Option Exception
unfolding prepare_executor prepare_nodes with_side_effects
prepare eng tm task = elim task.exception [
  | some e ↦ (tm, some e)
  | none ↦
      let t = first task.targets task.node in
      let tm' : Taskmaster = record tm { message = none } in
      elim (prepare_executor eng tm.store t) [
        | some e ↦ (tm', some e)
        | none ↦ (
          tm',
          prepare_nodes eng tm.store (with_side_effects eng (eng.executor t).action_targets),
        )
      ]
]

-- `needs_execute` of the two subclasses
unfoldable pub needs_execute : Tasker → Store → Task → Bool
needs_execute Tasker.always_task s task = true
needs_execute Tasker.out_of_date_task s task =
    same_state (get_state s (first task.targets task.node)) NodeState.executing

-- The targets that the cache gave, up to the first that it does not have.
unfoldable pub cached_targets : Engine → Store → (targets : List NodeId) → Exception ⊎ List NodeId
cached_targets eng s [] = inr []
cached_targets eng s (t ∷ targets) = elim (eng.retrieve_from_cache s t) [
  | inl e ↦ inl e
  | inr false ↦ inr []
  | inr true ↦ elim (cached_targets eng s targets) [ inl e ↦ inl e | inr ts ↦ inr (t ∷ ts) ]
]

unfoldable pub mark_cached : Store → (targets : List NodeId) → Store
unfolding set_cached
mark_cached s [] = s
mark_cached s (t ∷ targets) = mark_cached (set_cached s t true) targets

-- What `execute` raises in place of an exception of the cache or the build.
unfoldable pub convert : (target : NodeId) → Exception → Exception
convert t (Exception.system_exit code) = Exception.explicit_exit t code
convert t Exception.user_error = Exception.user_error
convert t (Exception.build_error n) = Exception.build_error n
convert t e = Exception.build_error t

-- `Task.execute`. Targets that the cache gave in part are unlinked, which is not modelled.
unfoldable pub execute : Engine → Store → Task → Store × Option Exception
unfolding cached_targets mark_cached convert
execute eng s task =
    let t = first task.targets task.node in
    elim (cached_targets eng s task.targets) [
      | inl e ↦ (s, some (convert t e))
      | inr cached ↦
          if ltb (length cached) (length task.targets)
          then (elim (eng.build s t) [ none ↦ (s, none) | some e ↦ (s, some (convert t e)) ])
          else (mark_cached s cached, none)
    ]

-- `Node.built`: a pseudo target must not exist
unfoldable pub built : Engine → Store → NodeId → Option Exception
built eng s t = if eng.pseudo t && eng.exists s t then some Exception.user_error else none

-- A target that was executing is executed, and its side effects are free again.
unfoldable pub finish_target : Engine → Store → NodeId → Store
unfolding set_states
finish_target eng s t =
    set_state (set_states s (eng.side_effects t) NodeState.no_state) t NodeState.executed

unfoldable pub executed_without_callbacks : Engine → Store → (targets : List NodeId) → Store
unfolding finish_target
executed_without_callbacks eng s [] = s
executed_without_callbacks eng s (t ∷ targets) =
    let s' = if same_state (get_state s t) NodeState.executing then finish_target eng s t else s in
    executed_without_callbacks eng s' targets

-- `executed_with_callbacks`, up to the first exception
unfoldable pub executed : Engine → Store → (targets : List NodeId) → Store × Option Exception
unfolding finish_target built
executed eng s [] = (s, none)
executed eng s (t ∷ targets) = elim (same_state (get_state s t) NodeState.executing) [
  | false ↦ executed eng s targets
  | true ↦ elim (built eng (finish_target eng s t) t) [
    | some e ↦ (finish_target eng s t, some e)
    | none ↦ executed eng (finish_target eng s t) targets
  ]
]
