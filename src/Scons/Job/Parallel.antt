-- ===== src/Scons/Job/Parallel.antt =====
-- `Parallel.start`, `ThreadPool` and `Worker.run` of scons/scons-local-2.5.0/SCons/Job.py: the main
-- thread and the workers as steps on the two queues. A worker waits, or has one task; a signal may
-- come at any time. What the class asks of a task master is an interface.
pub mod Accounts
use graph_store.Prelude.{
  ℕ, suc, ◌+◌, ◌-◌, ◌≤◌, ◌<◌, ◌≡◌, Bool, true, false, Option, none, some, List, [], ◌∷◌, ◌++◌,
  length, arith, ltb, ◌==◌, if◌then◌else◌,
}
use graph_store.Scons.Executor.{Exception}

-- The methods of the task master `M` and its tasks `T` that the jobs call.
pub record Master (M T : Type 0) : Type 0 where
  pub next_task : M → M × Option T
  pub prepare : M → T → M × Option Exception
  pub needs_execute : M → T → Bool
  pub execute : M → T → M × Option Exception
  pub executed : M → T → M × Option Exception
  pub failed : M → T → M × T
  pub postprocess : M → T → M
  pub exception_set : T → Exception → T
  pub interrupt_error : T → Exception
  pub stop : M → M

-- Where the main thread stands: in the loop that starts tasks, before `get`, before `empty`, behind
-- the outer loop, or out of `start` by an exception of `executed`.
pub data Phase : Type 0 where
  filling waiting checking finished : Phase
  aborted : Exception → Phase

pub record Pool (M T : Type 0) : Type 0 where
  pub master : M
  pub jobs : ℕ
  pub request_queue : List T
  pub running : List T
  pub results_queue : List (T × Bool)
  pub interrupted : Bool
  pub phase : Phase

abbrev pub new_pool : {M T : Type 0} → M → Pool M T
new_pool m = record {
  master = m;
  jobs = 0;
  request_queue = [];
  running = [];
  results_queue = [];
  interrupted = false;
  phase = Phase.filling;
}

module _ {M T : Type 0} (ops : Master M T) where
  -- `task.failed()` and `task.postprocess()`
  abbrev pub give_up_task : M → T → M
  give_up_task m task = let (m', task') = ops.failed m task in ops.postprocess m' task'

  -- `task.executed()` and `task.postprocess()`, with the phase behind them
  abbrev pub end_task : Pool M T → T → Phase → Pool M T
  end_task p task afterwards =
      let (m, problem) = ops.executed p.master task in
      elim problem [
        | some e ↦ record p { master = m; phase = Phase.aborted e }
        | none ↦ record p { master = ops.postprocess m task; phase = afterwards }
      ]

  -- a task that `next_task` has given
  unfoldable pub start_task : Pool M T → T → Pool M T
  start_task p task =
      let (m, problem) = ops.prepare p.master task in
      elim problem [
        | some e ↦ record p { master = give_up_task m (ops.exception_set task e) }
        | none ↦ elim (ops.needs_execute m task) [
          | true ↦ record p {
            master = m;
            request_queue = p.request_queue ++ task ∷ [];
            jobs = p.jobs + 1;
          }
          | false ↦ end_task (record p { master = m }) task Phase.filling
        ]
      ]

  -- One round of the loop that starts tasks, or its end and the test of the outer loop.
  unfoldable pub fill : (maxjobs : ℕ) → Pool M T → Pool M T
  unfolding start_task
  fill maxjobs p =
      if ltb p.jobs maxjobs
      then (let (m, next) = ops.next_task p.master in
          elim next [
            | some task ↦ start_task (record p { master = m }) task
            | none ↦ record p {
              master = m;
              phase = if p.jobs == 0 then Phase.finished else Phase.waiting;
            }
          ])
      else record p { phase = Phase.waiting }

  -- `get`, and what the main thread does with the result
  unfoldable pub fetch : Pool M T → T → (ok : Bool) → List (T × Bool) → Pool M T
  fetch p task true results =
      end_task (record p { results_queue = results; jobs = p.jobs - 1 }) task Phase.checking
  fetch p task false results =
      let task' =
        if p.interrupted then ops.exception_set task (ops.interrupt_error task) else task in
      record p {
        master = give_up_task p.master task';
        results_queue = results;
        jobs = p.jobs - 1;
        phase = Phase.checking;
      }

  -- `resultsQueue.empty()`
  unfoldable pub check : Pool M T → Pool M T
  check p = elim p.results_queue [
    | [] ↦ record p { phase = Phase.filling }
    | r ∷ results ↦ record p { phase = Phase.waiting }
  ]

  -- What a worker puts on the queue of results.
  unfoldable pub report : T → Option Exception → T × Bool
  report task none = (task, true)
  report task (some e) = (ops.exception_set task e, false)

  -- A worker has run its task.
  unfoldable pub complete : Pool M T → T → (others : List T) → Pool M T
  unfolding report
  complete p task others =
      let r : M × Option Exception =
        if p.interrupted
        then (p.master, some (ops.interrupt_error task))
        else ops.execute p.master task in
      record p {
        master = r.0;
        running = others;
        results_queue = p.results_queue ++ report task r.1 ∷ [];
      }

  -- A step of the main thread or of a worker; `maxjobs` is the number of workers, too.
  pub data Work (maxjobs : ℕ) (p q : Pool M T) : Type 0 where
    fills : p.phase ≡ Phase.filling → q ≡ fill maxjobs p → Work maxjobs p q
    fetches :
        (task : T) (ok : Bool) (results : List (T × Bool))
        → p.phase ≡ Phase.waiting
        → p.results_queue ≡ (task, ok) ∷ results
        → q ≡ fetch p task ok results
        → Work maxjobs p q
    checks : p.phase ≡ Phase.checking → q ≡ check p → Work maxjobs p q
    takes :
        (task : T) (requests : List T)
        → p.request_queue ≡ task ∷ requests
        → length p.running < maxjobs
        → q ≡ record p { request_queue = requests; running = task ∷ p.running }
        → Work maxjobs p q
    completes :
        (before : List T) (task : T) (after : List T)
        → p.running ≡ before ++ task ∷ after
        → q ≡ complete p task (before ++ after)
        → Work maxjobs p q

  pub data Step (maxjobs : ℕ) (p q : Pool M T) : Type 0 where
    works : Work maxjobs p q → Step maxjobs p q
    signals : q ≡ record p { master = ops.stop p.master; interrupted = true } → Step maxjobs p q

  pub data Reach (maxjobs : ℕ) (p : Pool M T) : Pool M T → Type 0 where
    here : Reach maxjobs p p
    after : {q r : Pool M T} → Reach maxjobs p q → Step maxjobs q r → Reach maxjobs p r
