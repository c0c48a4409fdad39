-- ===== src/WorkerLoop/Waiting/Steps.antt =====
-- The steps that leave the table alone leave the tasks waiting that wait for descriptors.
use croutine.Prelude.{
  ℕ, ◌≡◌, ◌≢◌, refl, sym, ap, ◌∙◌, subst, inl, inr, Bool-cases, Bool, true, false, Option, none,
  some, arith, ◌==◌, if◌then◌else◌, null, update,
}
use croutine.Task.{Task, TaskState, runnable, waiting_io, waiting_channel, finished, task_cleanup}
use croutine.TaskQueue.{Tasks, set_queued, task_queue_push, task_queue_pop}
use croutine.TaskQueue.Bounds.{IsValid}
use croutine.TaskQueue.Fifo.{adds, task_queue_push-contents, task_queue_pop-contents}
use croutine.Scheduler.{Scheduler, push_runnable, notify_worker, worker_wake_task_locked}
use croutine.Scheduler.Wake.{IsScheduler, prepared, worker_wake-state, worker_wake-not_parked}
use croutine.Worker.{Machine, cleanup_task}
use croutine.Worker.Lifecycle.{task_finished}
use croutine.WorkerLoop.{Pc, decide, settle_branch, settle}
use croutine.WorkerLoop.Exclusive.{is_parked, is_free}
use croutine.WorkerLoop.Exclusive.Moves.{decide-cases}
use croutine.WorkerLoop.Exclusive.Switches.{task_finished-tasks}
use croutine.WorkerLoop.Waiting.{Still}

same-Still : (ts ts' : Tasks) → ts' ≡ ts → Still ts ts'
same-Still ts ts' e t h = rw e (h, refl)

set_queued-Still : (ts : Tasks) (task : ℕ) (queued : Bool) → Still ts (set_queued ts task queued)
set_queued-Still ts task queued t h = (ground arith, ground arith)

pub write-Still :
    (ts : Tasks) (task : ℕ) (t' : Task) → is_free (ts task) ≡ true → Still ts (update ts task t')
write-Still ts task t' free t h = elim (Bool-cases (t == task)) [
  | inl is ↦
      (let same : t ≡ task = ground arith in absurd (ground (arith, ap (λ u. (ts u).state) same)))
  | inr other ↦ rw other (h, refl)
]

push-Still :
    (task : ℕ) (s : Scheduler)
    → IsValid s.runnable_tasks
    → Still s.tasks (push_runnable task s).1.tasks
unfolding push_runnable
push-Still task s v =
    let r = task_queue_push-contents (s.grants s.requests) s.runnable_tasks s.tasks task v in
    subst (Still s.tasks) (sym r.1) (
      added (
        adds (task_queue_push (s.grants s.requests) s.runnable_tasks s.tasks task).0
          (s.tasks task).queued))
  where
    added : (b : Bool) → Still s.tasks (if b then set_queued s.tasks task true else s.tasks)
    added true = set_queued-Still s.tasks task true
    added false = same-Still s.tasks s.tasks refl

pub decide-Still :
    (s : Scheduler) (checked : Bool)
    → IsValid s.runnable_tasks
    → Still s.tasks (decide checked s).1.tasks
decide-Still s checked v = elim (decide-cases s checked) [
  | inl (_, _, et) ↦ same-Still s.tasks _ et
  | inr (popped, _, _, et) ↦ elim (task_queue_pop-contents s.runnable_tasks s.tasks v) [
    | inl (empty, _, _, _) ↦ absurd (ground arith)
    | inr (_, _, marks) ↦
        subst (Still s.tasks) (sym (et ∙ marks))
          (set_queued-Still s.tasks (task_queue_pop s.runnable_tasks s.tasks).1 false)
  ]
]

pub wake-Still :
    (task : ℕ) (success : Bool) (s : Scheduler)
    → IsScheduler s
    → Still s.tasks (worker_wake_task_locked task success s).1.tasks
unfolding notify_worker
wake-Still task success s v t h = elim (Bool-cases (t == task)) [
  | inl is ↦
      let same : t ≡ task = ground arith in
      let awake_ =
        worker_wake-not_parked task success s
          (λ parks. ground (arith, ap (λ u. (s.tasks u).state) same)) in
      same-Still s.tasks _ (ap (λ (r : Bool × Scheduler). r.1.tasks) awake_) t h
  | inr ne ↦
      let before : (prepared task success s).tasks t ≡ s.tasks t = ground arith in
      let pushed =
        push-Still task (prepared task success s) v.valid t
          (ap (λ (k : Task). k.state) before ∙ h) in
      let k = (push_runnable task (prepared task success s)).1 in
      let after : ((k.tasks t).state ≡ waiting_io) × ((k.tasks t).io_fd ≡ (s.tasks t).io_fd) =
        (pushed.0, pushed.1 ∙ ap (λ (k : Task). k.io_fd) before) in
      elim (worker_wake-state task success s) [
        | inl e ↦ rw e (h, refl)
        | inr (inl e) ↦ rw e after
        | inr (inr e) ↦ rw e after
      ]
]

module _ {P : Type 0} where
  pub finish-Still :
      (m : Machine P) (task : ℕ)
      → task ≢ null
      → is_free (m.world.sched.tasks task) ≡ true
      → Still m.world.sched.tasks (task_finished task m).world.sched.tasks
  finish-Still m task ne free =
      subst (Still m.world.sched.tasks) (sym (task_finished-tasks m task ne).1) (
        write-Still m.world.sched.tasks task
          (record (m.world.sched.tasks task) { state = TaskState.finished }) free)

  pub finish-io_waits : (m : Machine P) (task : ℕ) → (task_finished task m).io_waits ≡ m.io_waits
  unfolding task_finished
  finish-io_waits m task = ground arith

  cleanup-Still :
      (m : Machine P) (task : ℕ)
      → is_free (m.world.sched.tasks task) ≡ true
      → Still m.world.sched.tasks (cleanup_task task m).world.sched.tasks
  unfolding cleanup_task task_cleanup
  cleanup-Still m task free = elim (Bool-cases (task == null)) [
    | inl e ↦ rw e (same-Still m.world.sched.tasks m.world.sched.tasks refl)
    | inr e ↦ rw e (
        write-Still m.world.sched.tasks task
          (task_cleanup (record (m.world.sched.tasks task) { state = TaskState.finished })).0 free)
  ]

  cleanup-io_waits : (m : Machine P) (task : ℕ) → (cleanup_task task m).io_waits ≡ m.io_waits
  unfolding cleanup_task
  cleanup-io_waits m task = ground arith

  abbrev pub StillAfter : Machine P → Option (Pc × Machine P) → Type 0
  StillAfter m none = Unit
  StillAfter m (some (p, m')) =
      (m'.io_waits ≡ m.io_waits) × (Still m.world.sched.tasks m'.world.sched.tasks)

  settle_branch-StillAfter :
      (m : Machine P) (task : ℕ) (state : TaskState) (stop pushed : Bool)
      → (is_parked state ≡ false → is_free (m.world.sched.tasks task) ≡ true)
      → IsValid m.world.sched.runnable_tasks
      → StillAfter m (settle_branch state stop pushed task (push_runnable task m.world.sched).1 m)
  unfolding settle_branch
  settle_branch-StillAfter m task runnable true pushed free v =
      (cleanup-io_waits m task, cleanup-Still m task (free refl))
  settle_branch-StillAfter m task runnable false true free v =
      (refl, push-Still task m.world.sched v)
  settle_branch-StillAfter m task runnable false false free v = tt
  settle_branch-StillAfter m task waiting_io stop pushed free v =
      (refl, same-Still m.world.sched.tasks m.world.sched.tasks refl)
  settle_branch-StillAfter m task waiting_channel stop pushed free v =
      (refl, same-Still m.world.sched.tasks m.world.sched.tasks refl)
  settle_branch-StillAfter m task finished stop pushed free v =
      (cleanup-io_waits m task, cleanup-Still m task (free refl))

  pub settle-StillAfter :
      (m : Machine P) (task : ℕ) (state : TaskState) (stop : Bool)
      → (is_parked state ≡ false → is_free (m.world.sched.tasks task) ≡ true)
      → IsValid m.world.sched.runnable_tasks
      → StillAfter m (settle task state stop m)
  unfolding settle
  settle-StillAfter m task state stop free v =
      settle_branch-StillAfter m task state stop (push_runnable task m.world.sched).0 free v
