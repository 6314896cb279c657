-- ===== src/Scons/Taskmaster/Postprocess/Failure.antt =====
-- `Task.fail_continue` and `Task.fail_stop` as a whole.
use graph_store.Prelude.{
  ℕ, ◌+◌, ◌≤◌, ◌≡◌, refl, true, false, some, List, [], ◌∷◌, length, arith, sym, ◌∙◌, inl, inr,
  Bool-cases,
}
use graph_store.Db.IdSet
use graph_store.Scons.Node.{NodeId, Store}
use graph_store.Scons.Taskmaster.State.{Taskmaster}
use graph_store.Scons.Taskmaster.Flush.{union, minus, mark_failed, flush, will_not_build, stop}
use graph_store.Scons.Taskmaster.Flush.Sets.{contains-union, contains-minus, length-union}
use graph_store.Scons.Taskmaster.Flush.Failed.{
  Waits, chosen, IsGivenUp, Waits-mono, flush-IsGivenUp, flush_other,
}
use graph_store.Scons.Taskmaster.Flush.Pending.{IsApart, flush_pending_out, flush_pending_other}
use graph_store.Scons.Taskmaster.Flush.Ends.{waiting_total, IsWithin, flush_ends}
use graph_store.Scons.Taskmaster.Task.{Task}
use graph_store.Scons.Taskmaster.Postprocess.{fail_continue, fail_stop}

-- The nodes of the list and all that wait for them, at any remove, are failed, nothing waits for
-- them and they are no pending children; the other nodes are as they were.
abbrev pub FailsExactly : (nodes : List NodeId) → Taskmaster → Taskmaster → Type 0
FailsExactly nodes tm tm' =
    ((n : NodeId)
      → Waits tm.store nodes n
      → IsGivenUp tm'.store n × (IdSet.contains n tm'.pending_children ≡ false))
    × ((n : NodeId)
        → ¬ Waits tm.store nodes n
        → (tm'.store n ≡ tm.store n)
          × (IdSet.contains n tm'.pending_children ≡ IdSet.contains n tm.pending_children))

-- `set(nodes)` has the members of the list.
contains-set :
    (m : NodeId) (nodes : List NodeId) → IdSet.contains m (union nodes []) ≡ IdSet.contains m nodes
unfolding IdSet.contains
contains-set m nodes = ground (arith, contains-union m nodes [])

set-IsApart : (nodes pending : List NodeId) → IsApart (union nodes []) (minus pending nodes)
set-IsApart nodes pending m h =
    ground (arith, contains-set m nodes, contains-minus m pending nodes, h)

not_chosen :
    (s : Store) (nodes pending : List NodeId) (n : NodeId)
    → ¬ Waits s nodes n
    → IdSet.contains n (minus pending nodes) ≡ IdSet.contains n pending
not_chosen s nodes pending n un = elim (Bool-cases (IdSet.contains n nodes)) [
  | inl e ↦ absurd (un (chosen e))
  | inr e ↦ ground (arith, e, contains-minus n pending nodes)
]

will_not_build-flush :
    (fuel : ℕ) (tm : Taskmaster) (nodes : List NodeId) (r : Store × List NodeId)
    → flush fuel mark_failed tm.store (union nodes []) (minus tm.pending_children nodes) ≡ some r
    → will_not_build fuel mark_failed tm nodes
      ≡ some (record tm { store = r.0; pending_children = r.1 })
unfolding will_not_build
will_not_build-flush fuel tm nodes r e = rw (e, will_not_build) refl

will_not_build-fails :
    (all : List NodeId) (fuel : ℕ) (tm : Taskmaster) (nodes : List NodeId)
    → IsWithin tm.store all
    → length nodes + waiting_total tm.store all ≤ fuel
    → (tm' : Taskmaster) × (will_not_build fuel mark_failed tm nodes ≡ some tm')
      × FailsExactly nodes tm tm'
      × (tm'.current_top ≡ tm.current_top)
      × (tm'.candidates ≡ tm.candidates)
will_not_build-fails all fuel tm nodes h le =
    let set : List NodeId = union nodes [] in
    let left : List NodeId = minus tm.pending_children nodes in
    let ends = flush_ends all fuel tm.store set left h (omega (arith, le, length-union nodes [])) in
    let r : Store × List NodeId = ends.0 in
    let e : flush fuel mark_failed tm.store set left ≡ some r = ends.1 in
    let set_of = λ (n : NodeId) (w : Waits tm.store nodes n).
      Waits-mono {nodes' = set} (λ m i. contains-set m nodes ∙ i) w in
    let of_set = λ (n : NodeId) (w : Waits tm.store set n).
      Waits-mono {nodes' = nodes} (λ m i. sym (contains-set m nodes) ∙ i) w in
    (
      record tm { store = r.0; pending_children = r.1 },
      will_not_build-flush fuel tm nodes r e,
      (
        λ n w. (
          flush-IsGivenUp fuel tm.store set left r n e (set_of n w),
          flush_pending_out fuel tm.store set left r n e (set-IsApart nodes tm.pending_children)
              (set_of n w),
        ),
        λ n un. (
          flush_other fuel tm.store set left r n e (λ w. un (of_set n w)),
          flush_pending_other fuel tm.store set left r n e (λ w. un (of_set n w))
              ∙ not_chosen tm.store nodes tm.pending_children n un,
        ),
      ),
      refl,
      refl,
    )

-- After a task has failed under --keep-going: where no node outside some list has waiting parents,
-- fuel for the targets of the task and the waiting parents of the list is enough. Then the targets
-- and all nodes that wait for them, at any remove, are failed, nothing waits for them and they are
-- no pending children, and all other nodes and pending children are as they were.
pub fail_continue_exact :
    (all : List NodeId) (fuel : ℕ) (tm : Taskmaster) (task : Task)
    → IsWithin tm.store all
    → length task.targets + waiting_total tm.store all ≤ fuel
    → (tm' : Taskmaster) × (fail_continue fuel tm task ≡ some tm')
      × FailsExactly task.targets tm tm'
unfolding fail_continue
fail_continue_exact all fuel tm task h le =
    let (tm', e, f, t, c) = will_not_build-fails all fuel tm task.targets h le in (tm', e, f)

-- After a task has failed without --keep-going, while there is a current top: where no node outside
-- some list has waiting parents, fuel for the targets of the task and the waiting parents of the
-- list is enough. Then the targets and all nodes that wait for them, at any remove, are failed,
-- nothing waits for them and they are no pending children, all other nodes and pending children are
-- as they were, the task master is stopped, and the task stands for the current top alone.
pub fail_stop_exact :
    (all : List NodeId) (fuel : ℕ) (tm : Taskmaster) (task : Task) (top : NodeId)
    → IsWithin tm.store all
    → length task.targets + waiting_total tm.store all ≤ fuel
    → tm.current_top ≡ some top
    → (tm' : Taskmaster) × (task' : Task) × (fail_stop fuel tm task ≡ some (tm', task'))
      × FailsExactly task.targets tm tm'
      × (tm'.stopped ≡ true)
      × (task'.targets ≡ top ∷ [])
unfolding fail_stop
fail_stop_exact all fuel tm task top h le et =
    let (tm', e, f, t, c) = will_not_build-fails all fuel tm task.targets h le in
    (
      stop tm',
      record task { targets = top ∷ []; top = true },
      rw (e, et, fail_stop) refl,
      f,
      refl,
      refl,
    )
