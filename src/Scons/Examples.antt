-- ===== src/Scons/Examples.antt =====
-- A program that is built from an object file, which is built from a source, and a small task master
-- for the jobs.
use graph_store.Prelude.{
  ℕ, zero, suc, ◌≤◌, ◌≡◌, refl, ◌⊎◌, true, false, Option, none, some, inr, List, [], ◌∷◌, arith,
  length, subst,
}
use graph_store.Util.Int.{pos}
use graph_store.Db.IdSet
use graph_store.Db.IdSet.{IsNodup}
use graph_store.Scons.Node.{NodeId, NodeState, new_node, Store}
use graph_store.Scons.Executor.{
  Executor, Exception, found, unique_from, uniquer_hashables, targets_of, get_all_targets, concat,
  extend_children, get_all_children, get_all_prerequisites,
}
use graph_store.Scons.Executor.Unique.{get_all_children_members}
use graph_store.Scons.Taskmaster.State.{Engine, Taskmaster, answer, new_taskmaster}
use graph_store.Scons.Taskmaster.Flush.Failed.{Waits}
use graph_store.Scons.Taskmaster.Flush.Ends.{IsWithin}
use graph_store.Scons.Taskmaster.Walk.{find_next_ready_node}
use graph_store.Scons.Taskmaster.Walk.Measure.{IsInside}
use graph_store.Scons.Taskmaster.Walk.Rounds.{IsBounded}
use graph_store.Scons.Taskmaster.Walk.Passed.{Run}
use graph_store.Scons.Taskmaster.Walk.Ends.{IsAnswer, find_next_ready_node_returns}
use graph_store.Scons.Taskmaster.Task.{Task, new_task}
use graph_store.Scons.Taskmaster.Postprocess.{fail_continue, fail_stop}
use graph_store.Scons.Taskmaster.Postprocess.Failure.{
  FailsExactly, fail_continue_exact, fail_stop_exact,
}
use graph_store.Scons.Taskmaster.Cycle.{find_cycle}
use graph_store.Scons.Taskmaster.Cycle.Sound.{IsCycle}
use graph_store.Scons.Taskmaster.Cycle.Ends.{find_cycle_decides}
use graph_store.Scons.Job.Parallel.{
  Master, Pool, new_pool, start_task, fill, Work, works, fills, Reach, here, after,
}
use graph_store.Scons.Job.Parallel.Accounts.{IsAccounted, Reach-IsAccounted, Reach_goes_on}

-- 0 is the program, 1 the object file and 2 the source.
abbrev nodes : List NodeId
nodes = 0 ∷ 1 ∷ 2 ∷ []

abbrev kids : NodeId → List NodeId
kids zero = 1 ∷ []
kids (suc zero) = 2 ∷ []
kids (suc (suc n)) = []

abbrev single : NodeId → Executor
single n = record {
  batches = record { targets = n ∷ []; sources = kids n } ∷ [];
  action_targets = n ∷ [];
}

abbrev engine : Engine
engine = record {
  executor = single;
  prerequisites = λ n. [];
  side_effects = λ n. [];
  depends = λ n. [];
  implicit = λ n. [];
  children = λ s n. found (kids n);
  alter_targets = λ n. ([], none);
  order = λ l. l;
  has_builder = λ n. true;
  always_build = λ n. false;
  pseudo = λ n. false;
  exists = λ s n. true;
  missing = λ s n. false;
  is_up_to_date = λ s n. answer false;
  retrieve_from_cache = λ s n. inr false;
  build = λ s n. none;
}

abbrev fresh_store : Store
fresh_store n = new_node

kids-IsInside :
    (n : NodeId)
    → (length (uniquer_hashables (kids n)) ≤ 1) × IsInside (uniquer_hashables (kids n)) nodes
unfolding uniquer_hashables unique_from IdSet.contains
kids-IsInside zero = (omega arith, λ m i. ground (arith, i))
kids-IsInside (suc zero) = (omega arith, λ m i. ground (arith, i))
kids-IsInside (suc (suc n)) = (omega arith, λ m i. absurd (ground (arith, i)))

found_eq : {a b : List NodeId} → found a ≡ found b → a ≡ b
found_eq e = ground (arith, e)

engine-IsBounded : IsBounded engine 1 nodes
unfolding get_all_children extend_children get_all_targets targets_of get_all_prerequisites concat
    uniquer_hashables unique_from IdSet.contains
engine-IsBounded = record {
  length-order = λ l. refl;
  contains-order = λ m l. refl;
  scans = λ s n children e.
      subst (λ c. (length c ≤ 1) × IsInside c nodes) (found_eq e) (kids-IsInside n);
  alternatives = λ n. (omega arith, λ m i. absurd (ground (arith, i)));
}

abbrev begun : Taskmaster
begun = new_taskmaster fresh_store (0 ∷ [])

find_next_ready_node_returns_example :
    (r : Taskmaster × Option NodeId) × (find_next_ready_node 0 20 engine begun ≡ some r)
    × IsAnswer engine r
    × Run engine begun r
unfolding IdSet.contains
find_next_ready_node_returns_example =
    find_next_ready_node_returns engine-IsBounded 0 20 begun refl
      ((λ m i. absurd (ground (arith, i))), (λ m i. ground (arith, i))) (omega arith)

get_all_children_members_example :
    (cs : List NodeId) × (get_all_children (single 1) (λ n. found (kids n)) ≡ found cs)
    × IsNodup cs
    × ((m : NodeId)
        → IdSet.contains m cs ≡ IdSet.contains m (concat kids (get_all_targets (single 1))))
get_all_children_members_example = get_all_children_members (single 1) kids

-- The program waits for the object file, and that for the source.
abbrev waits_for : NodeId → List NodeId
waits_for zero = []
waits_for (suc zero) = 0 ∷ []
waits_for (suc (suc zero)) = 1 ∷ []
waits_for (suc (suc (suc n))) = []

abbrev waiting_store : (NodeId → List NodeId) → Store
waiting_store parents n = record new_node {
  state = NodeState.pending;
  ref_count = pos 1;
  waiting_parents = parents n;
}

waits_for-IsWithin : IsWithin (waiting_store waits_for) nodes
unfolding IdSet.contains
waits_for-IsWithin zero e = absurd (ground (arith, e))
waits_for-IsWithin (suc zero) e = absurd (ground (arith, e))
waits_for-IsWithin (suc (suc zero)) e = absurd (ground (arith, e))
waits_for-IsWithin (suc (suc (suc n))) e = refl

abbrev waiting : Taskmaster
waiting = record (new_taskmaster (waiting_store waits_for) (0 ∷ [])) { current_top = some 0 }

abbrev source_task : Task
source_task = new_task (2 ∷ []) false 2

fail_continue_exact_example :
    (tm' : Taskmaster) × (fail_continue 4 waiting source_task ≡ some tm')
    × FailsExactly (2 ∷ []) waiting tm'
fail_continue_exact_example =
    fail_continue_exact nodes 4 waiting source_task waits_for-IsWithin (omega arith)

fail_stop_exact_example :
    (tm' : Taskmaster) × (task' : Task) × (fail_stop 4 waiting source_task ≡ some (tm', task'))
    × FailsExactly (2 ∷ []) waiting tm'
    × (tm'.stopped ≡ true)
    × (task'.targets ≡ 0 ∷ [])
fail_stop_exact_example =
    fail_stop_exact nodes 4 waiting source_task 0 waits_for-IsWithin (omega arith) refl

-- Two nodes that wait for each other.
abbrev in_circle : NodeId → List NodeId
in_circle zero = 1 ∷ []
in_circle (suc zero) = 0 ∷ []
in_circle (suc (suc n)) = []

in_circle-IsWithin : IsWithin (waiting_store in_circle) nodes
unfolding IdSet.contains
in_circle-IsWithin zero e = absurd (ground (arith, e))
in_circle-IsWithin (suc zero) e = absurd (ground (arith, e))
in_circle-IsWithin (suc (suc n)) e = refl

find_cycle_decides_example :
    ((cycle : List NodeId) × (visited : List NodeId) × (find_cycle 5 (waiting_store in_circle) 0
        ≡ some (some cycle, visited))
      × IsCycle (waiting_store in_circle) 0 cycle)
    ⊎ ((visited : List NodeId) × (find_cycle 5 (waiting_store in_circle) 0 ≡ some (none, visited))
        × ¬ Waits (waiting_store in_circle) (waiting_store in_circle 0).waiting_parents 0)
unfolding IdSet.contains
find_cycle_decides_example =
    find_cycle_decides nodes 5 (waiting_store in_circle) 0 in_circle-IsWithin (omega arith)

-- A task master that has as many tasks as its number says.
abbrev counter : Master ℕ ℕ
counter = record {
  next_task = λ m. elim m [ zero ↦ (0, none) | suc n ↦ (n, some n) ];
  prepare = λ m t. (m, none);
  needs_execute = λ m t. true;
  execute = λ m t. (m, none);
  executed = λ m t. (m, none);
  failed = λ m t. (m, t);
  postprocess = λ m t. m;
  exception_set = λ t e. t;
  interrupt_error = λ t. Exception.build_error t;
  stop = λ m. 0;
}

one_started : Reach counter 2 (new_pool 3) (fill counter 2 (new_pool 3))
one_started = after here (works (fills refl refl))

Reach-IsAccounted_example : IsAccounted 2 (fill counter 2 (new_pool 3))
Reach-IsAccounted_example = Reach-IsAccounted counter 2 3 (omega arith) one_started

Reach_goes_on_example : (q : Pool ℕ ℕ) × Work counter 2 (fill counter 2 (new_pool 3)) q
unfolding fill start_task
Reach_goes_on_example = Reach_goes_on counter 2 3 (omega arith) one_started (λ h. h)
