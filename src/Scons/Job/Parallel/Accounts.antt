-- ===== src/Scons/Job/Parallel/Accounts.antt =====
-- How many tasks a parallel job has dispatched and not yet fetched, and that it can always go on.
use graph_store.Prelude.{
  ℕ, suc, ◌+◌, ◌≤◌, ◌<◌, ◌≡◌, refl, ap, inl, inr, Bool, some, List, [], ◌∷◌, ◌++◌, length,
  length-append, Option-cases, List-cases, arith, if◌then◌else◌,
}
use native.Mathlib.Decide.{dec_lt}
use graph_store.Scons.Job.Parallel.{
  Master, Phase, Pool, new_pool, start_task, fill, fetch, check, complete, report, Work, Step,
  works, fills, fetches, checks, takes, completes, signals, Reach, here, after,
}

abbrev pub PhaseHolds : Phase → ℕ → Type 0
PhaseHolds Phase.filling jobs = Unit
PhaseHolds Phase.waiting jobs = 0 < jobs
PhaseHolds Phase.checking jobs = Unit
PhaseHolds Phase.finished jobs = jobs ≡ 0
PhaseHolds (Phase.aborted e) jobs = Unit

-- The loop has ended, or an exception has left it.
abbrev pub IsOver : Phase → Type 0
IsOver Phase.filling = ⊥
IsOver Phase.waiting = ⊥
IsOver Phase.checking = ⊥
IsOver Phase.finished = Unit
IsOver (Phase.aborted e) = Unit

module _ {M T : Type 0} where
  abbrev pub outstanding : Pool M T → ℕ
  outstanding p = length p.request_queue + length p.running + length p.results_queue

  abbrev pub IsAccounted : ℕ → Pool M T → Type 0
  IsAccounted maxjobs p = (p.jobs ≡ outstanding p) × (p.jobs ≤ maxjobs) × PhaseHolds p.phase p.jobs

length-push : {A : Type 0} (xs : List A) (x : A) → length (xs ++ x ∷ []) ≡ suc (length xs)
length-push xs x = omega (arith, length-append xs (x ∷ []))

none_left :
    {M T : Type 0} (p : Pool M T)
    → p.running ≡ []
    → p.request_queue ≡ []
    → ¬ (0 < length p.request_queue + length p.running)
none_left p e e' lt =
    let n : length p.running ≡ 0 = ap length e in
    let n' : length p.request_queue ≡ 0 = ap length e' in omega arith

module _ {M T : Type 0} (ops : Master M T) where
  start_task-IsAccounted :
      (maxjobs : ℕ) (p : Pool M T) (task : T)
      → p.phase ≡ Phase.filling
      → p.jobs < maxjobs
      → IsAccounted maxjobs p
      → IsAccounted maxjobs (start_task ops p task)
  unfolding start_task
  start_task-IsAccounted maxjobs p task e lt h =
      ground (arith, length-append p.request_queue (task ∷ []))

  fill-IsAccounted :
      (maxjobs : ℕ) (p : Pool M T)
      → 0 < maxjobs
      → p.phase ≡ Phase.filling
      → IsAccounted maxjobs p
      → IsAccounted maxjobs (fill ops maxjobs p)
  unfolding fill
  fill-IsAccounted maxjobs p pos e h = elim (dec_lt p.jobs maxjobs) [
    | no ge ↦ ground arith
    | yes lt ↦ elim (Option-cases (ops.next_task p.master).1) [
      | inl none' ↦ ground arith
      | inr (task, some') ↦ ground (
        arith,
        start_task-IsAccounted maxjobs (record p { master = (ops.next_task p.master).0 }) task e lt
            h,
      )
    ]
  ]

  fetch-IsAccounted :
      (maxjobs : ℕ) (p : Pool M T) (task : T) (ok : Bool) (results : List (T × Bool))
      → p.results_queue ≡ (task, ok) ∷ results
      → IsAccounted maxjobs p
      → IsAccounted maxjobs (fetch ops p task ok results)
  unfolding fetch
  fetch-IsAccounted maxjobs p task ok results e h =
      let n : length p.results_queue ≡ suc (length results) = ap length e in ground arith

  check-IsAccounted :
      (maxjobs : ℕ) (p : Pool M T) → IsAccounted maxjobs p → IsAccounted maxjobs (check ops p)
  unfolding check
  check-IsAccounted maxjobs p h = ground arith

  complete-IsAccounted :
      (maxjobs : ℕ) (p : Pool M T) (before : List T) (task : T) (behind : List T)
      → p.running ≡ before ++ task ∷ behind
      → IsAccounted maxjobs p
      → IsAccounted maxjobs (complete ops p task (before ++ behind))
  unfolding complete
  complete-IsAccounted maxjobs p before task behind e h =
      let n : length p.running ≡ length (before ++ task ∷ behind) = ap length e in
      ground (
        arith,
        length-append before behind,
        length-append before (task ∷ behind),
        length-push p.results_queue (
            report ops task
              (if p.interrupted
                then (p.master, some (ops.interrupt_error task))
                else ops.execute p.master task).1),
      )

  -- One step of the main thread or of a worker keeps the accounts.
  pub Work-IsAccounted :
      (maxjobs : ℕ) {p q : Pool M T}
      → 0 < maxjobs
      → Work ops maxjobs p q
      → IsAccounted maxjobs p
      → IsAccounted maxjobs q
  Work-IsAccounted maxjobs {p} {q} pos (fills e d) h = rw d (fill-IsAccounted maxjobs p pos e h)
  Work-IsAccounted maxjobs {p} {q} pos (fetches task ok results f e d) h =
      rw d (fetch-IsAccounted maxjobs p task ok results e h)
  Work-IsAccounted maxjobs {p} {q} pos (checks f d) h = rw d (check-IsAccounted maxjobs p h)
  Work-IsAccounted maxjobs {p} {q} pos (takes task requests e lt d) h =
      let n : length p.request_queue ≡ suc (length requests) = ap length e in ground arith
  Work-IsAccounted maxjobs {p} {q} pos (completes before task behind e d) h =
      rw d (complete-IsAccounted maxjobs p before task behind e h)

  -- One step of the main thread, of a worker or of a signal keeps the accounts.
  pub Step-IsAccounted :
      (maxjobs : ℕ) {p q : Pool M T}
      → 0 < maxjobs
      → Step ops maxjobs p q
      → IsAccounted maxjobs p
      → IsAccounted maxjobs q
  Step-IsAccounted maxjobs {p} {q} pos (works w) h = Work-IsAccounted maxjobs pos w h
  Step-IsAccounted maxjobs {p} {q} pos (signals d) h = ground arith

  -- From the start of a job with at least one worker, the number of tasks that are dispatched and
  -- not fetched is the number of those in the two queues and at the workers, and never exceeds the
  -- number of jobs allowed; where the main thread waits for a result there is one to come, and
  -- where its loop has ended there is none left.
  pub Reach-IsAccounted :
      (maxjobs : ℕ) (m : M) {p : Pool M T}
      → 0 < maxjobs
      → Reach ops maxjobs (new_pool m) p
      → IsAccounted maxjobs p
  Reach-IsAccounted maxjobs m pos here = (refl, omega arith, tt)
  Reach-IsAccounted maxjobs m pos (after r st) =
      Step-IsAccounted maxjobs pos st (Reach-IsAccounted maxjobs m pos r)

  -- A worker is free or has a task.
  workers_go_on :
      (maxjobs : ℕ) (p : Pool M T)
      → 0 < maxjobs
      → 0 < length p.request_queue + length p.running
      → (q : Pool M T) × Work ops maxjobs p q
  workers_go_on maxjobs p pos lt = elim (List-cases p.running) [
    | inr (task, rest, e) ↦ (complete ops p task rest, completes [] task rest e refl)
    | inl e ↦ elim (List-cases p.request_queue) [
      | inr (task, rest, e') ↦ (
        record p { request_queue = rest; running = task ∷ p.running },
        takes task rest e' (rw e pos) refl,
      )
      | inl e' ↦ absurd (none_left p e e' lt)
    ]
  ]

  results_or_workers :
      (maxjobs : ℕ) (p : Pool M T)
      → 0 < maxjobs
      → p.phase ≡ Phase.waiting
      → IsAccounted maxjobs p
      → (q : Pool M T) × Work ops maxjobs p q
  results_or_workers maxjobs p pos e h = elim (List-cases p.results_queue) [
    | inr (r, rest, e') ↦ (fetch ops p r.0 r.1 rest, fetches r.0 r.1 rest e e' refl)
    | inl e' ↦
        workers_go_on maxjobs p pos
          (let n : length p.results_queue ≡ 0 = ap length e' in ground arith)
  ]

  step_in_phase :
      (maxjobs : ℕ) (p : Pool M T)
      → 0 < maxjobs
      → IsAccounted maxjobs p
      → (ph : Phase) → p.phase ≡ ph
      → ¬ IsOver ph
      → (q : Pool M T) × Work ops maxjobs p q
  step_in_phase maxjobs p pos h Phase.filling e un = (fill ops maxjobs p, fills e refl)
  step_in_phase maxjobs p pos h Phase.waiting e un = results_or_workers maxjobs p pos e h
  step_in_phase maxjobs p pos h Phase.checking e un = (check ops p, checks e refl)
  step_in_phase maxjobs p pos h Phase.finished e un = absurd (un tt)
  step_in_phase maxjobs p pos h (Phase.aborted x) e un = absurd (un tt)

  -- From every state that a job with at least one worker can reach, unless its loop has ended or an
  -- exception has left it, the main thread or a worker has a step: the main thread never waits for
  -- a result that does not come.
  pub Reach_goes_on :
      (maxjobs : ℕ) (m : M) {p : Pool M T}
      → 0 < maxjobs
      → Reach ops maxjobs (new_pool m) p
      → ¬ IsOver p.phase
      → (q : Pool M T) × Work ops maxjobs p q
  Reach_goes_on maxjobs m {p} pos r un =
      step_in_phase maxjobs p pos (Reach-IsAccounted maxjobs m pos r) p.phase refl un
