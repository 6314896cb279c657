-- ===== src/Scons/Taskmaster/Tasks.antt =====
-- `Taskmaster.next_task` of scons/scons-local-2.5.0/SCons/Taskmaster.py.
use graph_store.Prelude.{ℕ, Option, none, some}
use graph_store.Db.IdSet
use graph_store.Scons.Node.{NodeId}
use graph_store.Scons.Executor.{Exception, get_all_targets}
use graph_store.Scons.Taskmaster.State.{Engine, Taskmaster}
use graph_store.Scons.Taskmaster.Walk.{find_next_ready_node}
use graph_store.Scons.Taskmaster.Task.{Task, new_task, exception_set, make_ready_current}

-- `task.exception_set(self.ready_exc)`, if there is one
abbrev pub record_exception : Task → Option Exception → Task
record_exception task none = task
record_exception task (some e) = exception_set task e

-- The exception of `make_ready` takes the place of one that was recorded before.
unfoldable pub make_task : Engine → Taskmaster → NodeId → Taskmaster × Task
unfolding get_all_targets make_ready_current
make_task eng tm node =
    let task =
      new_task (get_all_targets (eng.executor node)) (IdSet.contains node tm.original_top) node in
    let (s, task', problem) = make_ready_current eng tm.store task in
    let exc : Option Exception = elim problem [ none ↦ tm.ready_exc | some e ↦ some e ] in
    (record tm { store = s; ready_exc = none }, record_exception task' exc)

unfoldable pub next_task :
    (fuel rounds : ℕ) → Engine → Taskmaster → Option (Taskmaster × Option Task)
unfolding find_next_ready_node make_task
next_task fuel rounds eng tm = elim (find_next_ready_node fuel rounds eng tm) [
  | none ↦ none
  | some r ↦ elim r.1 [
    | none ↦ some (r.0, none)
    | some node ↦ let (tm', task) = make_task eng r.0 node in some (tm', some task)
  ]
]
