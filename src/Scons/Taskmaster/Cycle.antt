-- ===== src/Scons/Taskmaster/Cycle.antt =====
-- `find_cycle`, `cleanup` and `_validate_pending_children` of
-- scons/scons-local-2.5.0/SCons/Taskmaster.py. The last node of the stack is the head of the list
-- here, and `stack[0]` is an argument of its own. `none` is out of fuel; a visited set is a list.
pub mod Complete
pub mod Sound
pub mod Ends
use graph_store.Prelude.{
  ℕ, zero, suc, Bool, true, false, ◌||◌, ◌&&◌, not, ltb, Option, none, some, List, [], ◌∷◌, ◌==◌,
}
use graph_store.Util.Int.{pos_part}
use graph_store.Db.IdSet
use graph_store.Scons.Node.{NodeId, NodeState, Store, get_state, same_state}
use graph_store.Scons.Executor.{Exception}
use graph_store.Scons.Taskmaster.State.{Taskmaster}

-- A cycle if one is found, and the nodes visited.
abbrev pub Found : Type 0
Found = Option (List NodeId) × List NodeId

-- The loop over the waiting parents of the last node; a recursive call begins with the test whether
-- its last node was visited.
unfoldable pub follow :
    (fuel : ℕ) → Store → (origin : NodeId) → (stack visited parents : List NodeId) → Option Found
follow fuel s origin stack visited [] = some (none, visited)
follow zero s origin stack visited (n ∷ parents) = none
follow (suc fuel) s origin stack visited (n ∷ parents) = elim (n == origin) [
  | true ↦ some (some (n ∷ stack), visited)
  | false ↦ elim (IdSet.contains n visited) [
    | true ↦ follow fuel s origin stack visited parents
    | false ↦ elim (follow fuel s origin (n ∷ stack) (n ∷ visited) (s n).waiting_parents) [
      | none ↦ none
      | some r ↦ elim r.0 [
        | some cycle ↦ some (some cycle, r.1)
        | none ↦ follow fuel s origin stack r.1 parents
      ]
    ]
  ]
]

-- `find_cycle([n], set())`
unfoldable pub find_cycle : (fuel : ℕ) → Store → NodeId → Option Found
unfolding follow
find_cycle fuel s n = follow fuel s n (n ∷ []) (n ∷ []) (s n).waiting_parents

abbrev is_empty : List NodeId → Bool
is_empty [] = true
is_empty (n ∷ nodes) = false

-- Whether a pending child is in a cycle, or was not executed.
unfoldable pub any_genuine : (fuel : ℕ) → Store → (pending : List NodeId) → Option Bool
unfolding find_cycle
any_genuine fuel s [] = some false
any_genuine fuel s (n ∷ pending) = elim (find_cycle fuel s n) [
  | none ↦ none
  | some r ↦ elim (any_genuine fuel s pending) [
    | none ↦ none
    | some b ↦ elim r.0 [
      | some cycle ↦ some true
      | none ↦ some (not (same_state (get_state s n) NodeState.executed) || b)
    ]
  ]
]

-- The exception of `cleanup`, if it raises one; its text is not modelled.
unfoldable pub cleanup : (fuel : ℕ) → Taskmaster → Option (Option Exception)
unfolding any_genuine
cleanup fuel tm = elim (any_genuine fuel tm.store tm.pending_children) [
  | none ↦ none
  | some true ↦ some (some Exception.user_error)
  | some false ↦ some none
]

-- `_validate_pending_children`: whether all its assertions hold
unfoldable pub counts_positive : Store → (parents : List NodeId) → Bool
counts_positive s [] = true
counts_positive s (p ∷ parents) = ltb 0 (pos_part (s p).ref_count) && counts_positive s parents

unfoldable pub validate_children : Store → (pending : List NodeId) → Bool
unfolding counts_positive
validate_children s [] = true
validate_children s (n ∷ pending) =
    (same_state (get_state s n) NodeState.pending || same_state (get_state s n) NodeState.executing)
    && (not (is_empty (s n).waiting_parents) && counts_positive s (s n).waiting_parents)
    && validate_children s pending

unfoldable pub validate_pending_children : Taskmaster → Bool
unfolding validate_children
validate_pending_children tm = validate_children tm.store tm.pending_children
