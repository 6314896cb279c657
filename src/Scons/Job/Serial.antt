-- ===== src/Scons/Job/Serial.antt =====
-- `Serial.start` of scons/scons-local-2.5.0/SCons/Job.py. A signal stops the task master and sets
-- the flag `interrupted`: the flag is an argument, and may differ at every task. The loop is on fuel.
use graph_store.Prelude.{ℕ, zero, suc, Bool, true, false, Option, none, some, if◌then◌else◌}
use graph_store.Scons.Executor.{Exception}
use graph_store.Scons.Taskmaster.State.{Engine, Taskmaster}
use graph_store.Scons.Taskmaster.Task.{
  Task, Tasker, exception_set, first, prepare, needs_execute, execute, executed,
}
use graph_store.Scons.Taskmaster.Postprocess.{postprocess, fail_stop}
use graph_store.Scons.Taskmaster.Cycle.{cleanup}
use graph_store.Scons.Taskmaster.Tasks.{next_task}

-- The body of the `try`: `prepare`, and `execute` where that is needed.
unfoldable pub attempt : Engine → Tasker → Taskmaster → Task → Taskmaster × Option Exception
unfolding prepare needs_execute execute
attempt eng tasker tm task =
    let (tm1, problem) = prepare eng tm task in
    elim problem [
      | some e ↦ (tm1, some e)
      | none ↦ elim (needs_execute tasker tm1.store task) [
        | false ↦ (tm1, none)
        | true ↦
            let (s, problem') = execute eng tm1.store task in (record tm1 { store = s }, problem')
      ]
    ]

-- The exception that the task keeps.
abbrev pub blame : (interrupted : Bool) → Task → Exception → Exception
blame interrupted task e =
    if interrupted then Exception.build_error (first task.targets task.node) else e

-- One task, from `prepare` to `postprocess`; an exception that `executed` raises leaves the loop.
unfoldable pub run_task :
    (fuel : ℕ)
    → Engine
    → Tasker
    → (interrupted : Bool) → Taskmaster
    → Task
    → Option (Taskmaster × Option Exception)
unfolding attempt fail_stop postprocess executed
run_task fuel eng tasker interrupted tm task =
    let (tm1, problem) = attempt eng tasker tm task in
    elim problem [
      | some e ↦ elim (fail_stop fuel tm1 (exception_set task (blame interrupted task e))) [
        | none ↦ none
        | some r ↦ some (postprocess eng r.0 r.1, none)
      ]
      | none ↦
          let (s, problem') = executed eng tm1.store task.targets in
          let tm2 : Taskmaster = record tm1 { store = s } in
          elim problem' [
            | some e ↦ some (tm2, some e)
            | none ↦ some (postprocess eng tm2 task, none)
          ]
    ]

unfoldable pub start :
    (fuel rounds : ℕ)
    → Engine
    → Tasker
    → (interrupted : ℕ → Bool) → Taskmaster
    → Option (Taskmaster × Option Exception)
unfolding next_task run_task cleanup
start fuel zero eng tasker interrupted tm = none
start fuel (suc rounds) eng tasker interrupted tm = elim (next_task fuel fuel eng tm) [
  | none ↦ none
  | some r ↦ elim r.1 [
    | none ↦ elim (cleanup fuel r.0) [ none ↦ none | some e ↦ some (r.0, e) ]
    | some task ↦ elim (run_task fuel eng tasker (interrupted rounds) r.0 task) [
      | none ↦ none
      | some r' ↦ elim r'.1 [
        | some e ↦ some (r'.0, some e)
        | none ↦ start fuel rounds eng tasker interrupted r'.0
      ]
    ]
  ]
]
