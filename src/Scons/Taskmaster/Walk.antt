-- ===== src/Scons/Taskmaster/Walk.antt =====
-- `find_next_candidate` and `_find_next_ready_node` of
-- scons/scons-local-2.5.0/SCons/Taskmaster.py. The statistics and the trace are left out.
pub mod Ready
pub mod Returned
pub mod Passed
pub mod Measure
pub mod Advance
pub mod Rounds
pub mod Ends
use graph_store.Prelude.{
  ℕ, zero, suc, ◌≡◌, Bool, true, false, ◌||◌, Option, none, some, List, [], ◌∷◌, ◌++◌, arith,
  if◌then◌else◌,
}
use graph_store.Util.Int.{pos, ◌+ℤ◌}
use graph_store.Db.IdSet
use graph_store.Scons.Node.{
  NodeId, NodeState, Store, get_state, set_state, set_ref_count, same_state, add_to_waiting_parents,
  add_to_waiting_s_e,
}
use graph_store.Scons.Executor.{
  Exception, Scan, found, thrown, get_all_children, get_all_prerequisites, get_action_side_effects,
}
use graph_store.Scons.Taskmaster.State.{Engine, Taskmaster, extend, set_states}
use graph_store.Scons.Taskmaster.Flush.{union, no_next_candidate}

-- The top of the stack is the last of the targets that `alter_targets` gave, or the target.
unfoldable pub descend : Engine → Taskmaster → (node : NodeId) → Taskmaster × NodeId
unfolding extend
descend eng tm node =
    let (alt, message) = eng.alter_targets node in
    elim alt [
      | [] ↦ (tm, node)
      | a ∷ alts ↦ elim (extend (eng.order (a ∷ alts)) (node ∷ [])) [
        | [] ↦ (record tm { message = message }, node)
        | top ∷ candidates ↦ (record tm { message = message; candidates = candidates }, top)
      ]
    ]

unfoldable pub find_next_candidate : Engine → Taskmaster → Taskmaster × Option NodeId
unfolding descend
find_next_candidate eng tm = elim tm.candidates [
  | node ∷ candidates ↦ (record tm { candidates = candidates }, some node)
  | [] ↦ elim tm.top_targets_left [
    | [] ↦ (tm, none)
    | node ∷ left ↦
        let r = descend eng (record tm { top_targets_left = left; current_top = some node }) node in
        (r.0, some r.1)
  ]
]

-- What the loop over the children of a node finds.
pub record ChildStates : Type 0 where
  pub not_visited : List NodeId
  pub pending : List NodeId
  pub not_ready : List NodeId
  pub failed : Bool

unfoldable pub note_child : NodeId → NodeState → ChildStates → ChildStates
note_child child NodeState.no_state r = record r {
  not_visited = child ∷ r.not_visited;
  not_ready = child ∷ r.not_ready;
}
note_child child NodeState.pending r = record r {
  pending = (IdSet.insert child r.pending).0;
  not_ready = child ∷ r.not_ready;
}
note_child child NodeState.executing r = record r { not_ready = child ∷ r.not_ready }
note_child child NodeState.up_to_date r = r
note_child child NodeState.executed r = r
note_child child NodeState.failed r = record r { failed = true }

unfoldable pub sort_children : Store → (children : List NodeId) → ChildStates
unfolding note_child
sort_children s [] = record { not_visited = []; pending = []; not_ready = []; failed = false }
sort_children s (child ∷ children) = note_child child (get_state s child) (sort_children s children)

-- The node waits for children, and counts them.
unfoldable pub wait_for : Store → (node : NodeId) → (children : List NodeId) → Store
unfolding add_to_waiting_parents set_ref_count
wait_for s node [] = s
wait_for s node (child ∷ children) =
    let added = add_to_waiting_parents s child node in
    wait_for (set_ref_count added.0 node ((s node).ref_count +ℤ pos added.1)) node children

-- The node waits for its side effects that are executing; whether there is one.
unfoldable pub wait_side_effects : Store → (node : NodeId) → List NodeId → Store × Bool
unfolding add_to_waiting_s_e
wait_side_effects s node [] = (s, false)
wait_side_effects s node (se ∷ ses) = elim (same_state (get_state s se) NodeState.executing) [
  | true ↦ ((wait_side_effects (add_to_waiting_s_e s se node) node ses).0, true)
  | false ↦ wait_side_effects s node ses
]

-- One round of `_find_next_ready_node`: the node is returned, or the loop goes on.
pub data Round : Type 0 where
  ready : Taskmaster → Round
  next : Taskmaster → Round

abbrev pub explain : (node : NodeId) → Exception → Exception
explain node (Exception.system_exit code) = Exception.explicit_exit node code
explain node e = e

-- the round behind the loop over the children
unfoldable pub settle : Engine → Taskmaster → (node : NodeId) → ChildStates → Round
unfolding wait_for wait_side_effects set_states
settle eng tm node c =
    if c.failed
    then (next (record tm {
      store = set_states tm.store (eng.executor node).action_targets NodeState.failed;
    }))
    else (elim c.not_ready [
      | child ∷ children ↦ next (record tm {
        store = wait_for tm.store node (child ∷ children);
        pending_children = union c.pending tm.pending_children;
      })
      | [] ↦
          let r =
            wait_side_effects tm.store node
              (get_action_side_effects (eng.executor node) eng.side_effects) in
          if r.1 then next (record tm { store = r.0 }) else ready (record tm { store = r.0 })
    ])

-- `children_not_visited.reverse()`, in the order of the engine, comes to the candidates.
unfoldable pub push_children : Engine → Taskmaster → ChildStates → Taskmaster
unfolding extend
push_children eng tm c = record tm {
  candidates = extend (eng.order (extend c.not_visited [])) tm.candidates;
}

unfoldable pub examine : Engine → Taskmaster → (node : NodeId) → Round
unfolding settle push_children sort_children
examine eng tm node = elim (get_all_children (eng.executor node) (eng.children tm.store)) [
  | thrown e ↦ ready (record tm { ready_exc = some (explain node e) })
  | found children ↦
      let c =
        sort_children tm.store
          (get_all_prerequisites (eng.executor node) eng.prerequisites ++ children) in
      settle eng (push_children eng tm c) node c
]

unfoldable pub consider : Engine → Taskmaster → (node : NodeId) → Round
unfolding examine
consider eng tm node = elim (get_state tm.store node) [
  | NodeState.no_state ↦
      examine eng (record tm { store = set_state tm.store node NodeState.pending }) node
  | NodeState.pending ↦ examine eng tm node
  | _ ↦ next tm
]

abbrev pub next_candidate : (fuel : ℕ) → Engine → Taskmaster → Option (Taskmaster × Option NodeId)
next_candidate fuel eng tm =
    if tm.stopped
    then (elim (no_next_candidate fuel tm) [ none ↦ none | some tm' ↦ some (tm', none) ])
    else some (find_next_candidate eng tm)

-- The loop, with fuel for its rounds and fuel for `no_next_candidate`. The node is `none` where no
-- candidate is left; the result is `none` where the fuel is.
unfoldable pub find_ready :
    (fuel rounds : ℕ) → Engine → Taskmaster → Option (Taskmaster × Option NodeId)
unfolding consider no_next_candidate find_next_candidate
find_ready fuel zero eng tm = none
find_ready fuel (suc rounds) eng tm = elim (next_candidate fuel eng tm) [
  | none ↦ none
  | some r ↦ elim r.1 [
    | none ↦ some (r.0, none)
    | some node ↦ elim (consider eng r.0 node) [
      | ready tm' ↦ some (tm', some node)
      | next tm' ↦ find_ready fuel rounds eng tm'
    ]
  ]
]

unfoldable pub find_next_ready_node :
    (fuel rounds : ℕ) → Engine → Taskmaster → Option (Taskmaster × Option NodeId)
unfolding find_ready
find_next_ready_node fuel rounds eng tm =
    find_ready fuel rounds eng (record tm { ready_exc = none })
