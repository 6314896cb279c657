-- ===== src/Scons/Taskmaster/Walk/Passed.antt =====
-- The candidates that `_find_next_ready_node` passes over.
use graph_store.Prelude.{
  ◌≡◌, refl, sym, ◌∙◌, ◌⊎◌, inl, inr, true, false, Bool-cases, Option, none, some, List, [], ◌∷◌,
  ◌++◌, arith,
}
use graph_store.Scons.Node.{NodeId, NodeState, Store, get_state, same_state}
use graph_store.Scons.Executor.{
  Exception, thrown, get_all_children, get_all_prerequisites, get_action_side_effects,
}
use graph_store.Scons.Taskmaster.State.{Engine, Taskmaster}
use graph_store.Scons.Taskmaster.Walk.{
  ChildStates, note_child, sort_children, wait_side_effects, settle, examine, consider, ready, next,
  push_children, find_next_candidate,
}
use graph_store.Scons.Taskmaster.Walk.Ready.{IsBuilt, AreBuilt, NoneExecuting, IsReady, visit}

-- A node that the round ends with: it is ready, or its scan raises an exception.
abbrev pub IsSettled : Engine → Store → NodeId → Type 0
IsSettled eng s node =
    IsReady eng s node
    ⊎ ((e : Exception) × (get_all_children (eng.executor node) (eng.children s) ≡ thrown e))

-- The same of a candidate: it has no state, and the round makes it pending first, or it is pending.
abbrev pub CanReturn : Engine → Taskmaster → NodeId → Type 0
CanReturn eng tm node =
    (get_state tm.store node ≡ NodeState.no_state) × IsSettled eng (visit tm node).store node
    ⊎ (get_state tm.store node ≡ NodeState.pending) × IsSettled eng tm.store node

-- The rounds: no candidate is left; the candidate is returned; or it cannot be, and the rounds go on.
pub data Run (eng : Engine) : Taskmaster → Taskmaster × Option NodeId → Type 0 where
  exhausted :
      {tm last : Taskmaster} → find_next_candidate eng tm ≡ (last, none) → Run eng tm (last, none)
  returned :
      {tm popped last : Taskmaster} {node : NodeId}
      → find_next_candidate eng tm ≡ (popped, some node)
      → consider eng popped node ≡ ready last
      → Run eng tm (last, some node)
  passed :
      {tm popped later : Taskmaster} {node : NodeId} {r : Taskmaster × Option NodeId}
      → find_next_candidate eng tm ≡ (popped, some node)
      → ¬ CanReturn eng popped node
      → consider eng popped node ≡ next later
      → Run eng later r
      → Run eng tm r

note_child-built :
    (child : NodeId) (v : NodeState) (r : ChildStates) → IsBuilt v → note_child child v r ≡ r
unfolding note_child
note_child-built child v r (inl e) = rw e refl
note_child-built child v r (inr e) = rw e refl

sort_children-built :
    (s : Store) (children : List NodeId)
    → AreBuilt s children
    → ((sort_children s children).failed ≡ false) × ((sort_children s children).not_ready ≡ [])
unfolding sort_children
sort_children-built s [] b = (refl, refl)
sort_children-built s (c ∷ children) b =
    rw (note_child-built c (get_state s c) (sort_children s children) b.0)
      (sort_children-built s children b.1)

executing_eq : (v : NodeState) → same_state v NodeState.executing ≡ true → v ≡ NodeState.executing
executing_eq NodeState.no_state e = absurd (ground arith)
executing_eq NodeState.pending e = absurd (ground arith)
executing_eq NodeState.executing e = refl
executing_eq NodeState.up_to_date e = absurd (ground arith)
executing_eq NodeState.executed e = absurd (ground arith)
executing_eq NodeState.failed e = absurd (ground arith)

wait_side_effects-none :
    (s : Store) (node : NodeId) (ses : List NodeId)
    → NoneExecuting s ses
    → (wait_side_effects s node ses).1 ≡ false
unfolding wait_side_effects
wait_side_effects-none s node [] h = refl
wait_side_effects-none s node (se ∷ ses) h =
    elim (Bool-cases (same_state (get_state s se) NodeState.executing)) [
      | inl e ↦ absurd (h.0 (executing_eq (get_state s se) e))
      | inr e ↦ rw (e, wait_side_effects) (wait_side_effects-none s node ses h.1)
    ]

settle_ends :
    (eng : Engine) (tm tm' : Taskmaster) (node : NodeId) (c : ChildStates)
    → c.failed ≡ false
    → c.not_ready ≡ []
    → NoneExecuting tm.store (get_action_side_effects (eng.executor node) eng.side_effects)
    → ¬ (settle eng tm node c ≡ next tm')
unfolding settle
settle_ends eng tm tm' node c f nr ses h =
    let w =
      wait_side_effects-none tm.store node
        (get_action_side_effects (eng.executor node) eng.side_effects) ses in
    ground (arith, f, nr, w, h)

examine_ends :
    (eng : Engine) (tm tm' : Taskmaster) (node : NodeId)
    → IsSettled eng tm.store node
    → ¬ (examine eng tm node ≡ next tm')
unfolding examine push_children
examine_ends eng tm tm' node (inr (e, scan)) h = absurd (ground (arith, scan, h))
examine_ends eng tm tm' node (inl (_, (children, scan, built), ses)) h =
    let all : List NodeId =
      get_all_prerequisites (eng.executor node) eng.prerequisites ++ children in
    let (f, nr) = sort_children-built tm.store all built in
    let c : ChildStates = sort_children tm.store all in
    settle_ends eng (push_children eng tm c) tm' node c f nr ses (ground (arith, scan, h))

-- A candidate that a round passes over could not be returned.
pub consider_passes :
    (eng : Engine) (tm tm' : Taskmaster) (node : NodeId)
    → consider eng tm node ≡ next tm'
    → ¬ CanReturn eng tm node
unfolding consider
consider_passes eng tm tm' node h (inl (e, ends)) =
    examine_ends eng (visit tm node) tm' node ends (sym (rw (e, consider) refl) ∙ h)
consider_passes eng tm tm' node h (inr (e, ends)) =
    examine_ends eng tm tm' node ends (sym (rw (e, consider) refl) ∙ h)
