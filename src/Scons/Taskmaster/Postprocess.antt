-- ===== src/Scons/Taskmaster/Postprocess.antt =====
-- What `Task` of scons/scons-local-2.5.0/SCons/Taskmaster.py does when a task has failed or ended:
-- `fail_stop`, `fail_continue` and `postprocess`. The dictionary of parents is an association list.
pub mod Failure
use graph_store.Prelude.{
  ℕ, suc, ◌+◌, Bool, true, false, Option, none, some, List, [], ◌∷◌, ◌==◌, if◌then◌else◌,
}
use graph_store.Util.Int.{pos, ◌-ℤ◌, is_zero}
use graph_store.Db.IdSet
use graph_store.Scons.Node
use graph_store.Scons.Node.{NodeId, NodeState, Store, get_state, set_state, same_state}
use graph_store.Scons.Executor.{uniquer_hashables}
use graph_store.Scons.Taskmaster.State.{Engine, Taskmaster}
use graph_store.Scons.Taskmaster.Flush.{will_not_build, mark_failed, stop}
use graph_store.Scons.Taskmaster.Task.{Task}

abbrev pub Counts : Type 0
Counts = List (NodeId × ℕ)

-- `parents[p] = parents.get(p, 0) + 1`
unfoldable pub count_parent : NodeId → Counts → Counts
count_parent p [] = (p, 1) ∷ []
count_parent p ((q, n) ∷ counts) =
    let rest = count_parent p counts in if q == p then (q, suc n) ∷ counts else (q, n) ∷ rest

unfoldable pub count_parents : (ps : List NodeId) → Counts → Counts
unfolding count_parent
count_parents [] counts = counts
count_parents (p ∷ ps) counts = count_parents ps (count_parent p counts)

unfoldable pub count_targets : Store → (targets : List NodeId) → Counts → Counts
unfolding count_parents
count_targets s [] counts = counts
count_targets s (t ∷ targets) counts =
    count_targets s targets (count_parents (s t).waiting_parents counts)

-- A target with waiting parents is no longer a pending child.
unfoldable pub discard_targets : Store → (targets pending : List NodeId) → List NodeId
discard_targets s [] pending = pending
discard_targets s (t ∷ targets) pending =
    discard_targets s targets
      (elim (s t).waiting_parents [ [] ↦ pending | p ∷ ps ↦ IdSet.erase t pending ])

-- The nodes that wait for a side effect and for no child come back to the candidates.
unfoldable pub wake : Store → (waiting candidates : List NodeId) → List NodeId
wake s [] candidates = candidates
wake s (p ∷ waiting) candidates =
    wake s waiting (if is_zero (s p).ref_count then p ∷ candidates else candidates)

unfoldable pub free_side_effects :
    Store → (ses : List NodeId) → Counts → (candidates : List NodeId) → Store × Counts × List NodeId
unfolding count_parents wake
free_side_effects s [] counts candidates = (s, counts, candidates)
free_side_effects s (se ∷ ses) counts candidates =
    elim (same_state (get_state s se) NodeState.executing) [
      | true ↦
          free_side_effects (set_state s se NodeState.no_state) ses
            (count_parents (s se).waiting_parents counts) (wake s (s se).waiting_s_e candidates)
      | false ↦ free_side_effects s ses counts (wake s (s se).waiting_s_e candidates)
    ]

unfoldable pub free_targets :
    Engine
    → Store
    → (targets : List NodeId) → Counts
    → (candidates : List NodeId) → Store × Counts × List NodeId
unfolding free_side_effects
free_targets eng s [] counts candidates = (s, counts, candidates)
free_targets eng s (t ∷ targets) counts candidates =
    let (s', counts', candidates') = free_side_effects s (eng.side_effects t) counts candidates in
    free_targets eng s' targets counts' candidates'

-- A parent with no child left to wait for comes back to the candidates.
unfoldable pub subtract_counts : Store → Counts → (candidates : List NodeId) → Store × List NodeId
unfolding Node.set_ref_count
subtract_counts s [] candidates = (s, candidates)
subtract_counts s ((p, n) ∷ counts) candidates =
    let left = (s p).ref_count -ℤ pos n in
    subtract_counts (Node.set_ref_count s p left) counts
      (if is_zero left then p ∷ candidates else candidates)

unfoldable pub postprocess_nodes : Store → (targets : List NodeId) → Store
unfolding Node.postprocess
postprocess_nodes s [] = s
postprocess_nodes s (t ∷ targets) = postprocess_nodes (Node.postprocess s t) targets

unfoldable pub postprocess : Engine → Taskmaster → Task → Taskmaster
unfolding discard_targets count_targets free_targets subtract_counts postprocess_nodes
    uniquer_hashables
postprocess eng tm task =
    let targets = uniquer_hashables task.targets in
    let (s, counts, candidates) =
      free_targets eng tm.store targets (count_targets tm.store targets []) tm.candidates in
    let (s', candidates') = subtract_counts s counts candidates in
    record tm {
      store = postprocess_nodes s' targets;
      candidates = candidates';
      pending_children = discard_targets tm.store targets tm.pending_children;
    }

unfoldable pub fail_continue : (fuel : ℕ) → Taskmaster → Task → Option Taskmaster
unfolding will_not_build
fail_continue fuel tm task = will_not_build fuel mark_failed tm task.targets

-- There is a current top, as a candidate came before the task.
unfoldable pub fail_stop : (fuel : ℕ) → Taskmaster → Task → Option (Taskmaster × Task)
unfolding will_not_build
fail_stop fuel tm task = elim (will_not_build fuel mark_failed tm task.targets) [
  | none ↦ none
  | some tm' ↦ some (
    stop tm',
    record task { targets = elim tm.current_top [ none ↦ [] | some t ↦ t ∷ [] ]; top = true },
  )
]
