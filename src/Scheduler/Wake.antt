-- ===== src/Scheduler/Wake.antt =====
-- Waking a parked task: `worker_wake_task_locked` of src/worker.c.
use croutine.Prelude.{
  ℕ, ◌+◌, ◌*◌, ◌^◌, ◌<◌, ◌≡◌, ◌≢◌, refl, ap, ◌∙◌, sym, Bool, true, false, ◌&&◌, [], ◌∷◌, ◌++◌,
  arith, ◌==◌, subst, if◌then◌else◌, null, update, fun_ext, ◌⊎◌, inl, inr, Bool-cases,
}
use croutine.Task.{Task, TaskState, runnable, waiting_channel}
use croutine.TaskQueue.{Tasks, task_queue_push, set_queued}
use croutine.TaskQueue.Bounds.{IsValid, task_queue_push-IsValid}
use croutine.TaskQueue.Fifo.{contents, adds, task_queue_push-contents, task_queue_push-fails}
use croutine.TaskQueue.Flags.{IsFlagged, task_queue_push-IsFlagged}
use croutine.Scheduler.{
  Scheduler, push_runnable, made_runnable, notify_worker, worker_wake_task_locked,
}

abbrev pub IsRunnable : TaskState → Type 0
IsRunnable runnable = Unit
IsRunnable _ = ⊥

-- The run queue is well formed, its tasks are those with a `queued` flag, and they are runnable.
pub record IsScheduler (s : Scheduler) : Type 0 where
  pub valid : IsValid s.runnable_tasks
  pub flagged : IsFlagged s.tasks (contents s.runnable_tasks)
  pub queued_runnable : (t : ℕ) → (s.tasks t).queued ≡ true → (s.tasks t).state ≡ runnable

-- The next push cannot fail: the allocator agrees, and the ring can still be doubled.
pub record HasRoom (s : Scheduler) : Type 0 where
  pub granted : s.grants s.requests ≡ true
  pub doubles : s.runnable_tasks.capacity * 16 < 2 ^ 64

-- A task as the waker leaves it.
abbrev pub woken_task : Task → Bool → Task
woken_task t success = record (made_runnable t) { queued = true; channel_wake_success = success }

-- A task that is not queued can be pushed where there is room, and comes last.
pub push_runnable_lem :
    (task : ℕ) (s : Scheduler)
    → IsValid s.runnable_tasks
    → HasRoom s
    → task ≢ null
    → (s.tasks task).queued ≡ false
    → let (ok, s') = push_runnable task s in
      (ok ≡ true)
      × (contents s'.runnable_tasks ≡ contents s.runnable_tasks ++ task ∷ [])
      × (s'.tasks ≡ set_queued s.tasks task true)
unfolding push_runnable
push_runnable_lem task s v room ne free =
    let q = s.runnable_tasks in
    let (ec, et) = task_queue_push-contents (s.grants s.requests) q s.tasks task v in
    let ok : (task_queue_push (s.grants s.requests) q s.tasks task).0 ≡ true =
      task_queue_push-fails (s.grants s.requests) q s.tasks task v ∙ ground arith in
    let added : adds (task_queue_push (s.grants s.requests) q s.tasks task).0 (s.tasks task).queued
        ≡ true =
      rw (ok, free) refl in
    (
      ok,
      ec ∙ ap (λ b. if b then contents q ++ task ∷ [] else contents q) added,
      et ∙ ap (λ b. if b then set_queued s.tasks task true else s.tasks) added,
    )

waiting-not_queued :
    (s : Scheduler) (task : ℕ)
    → IsScheduler s
    → (s.tasks task).state ≡ waiting_channel
    → (s.tasks task).queued ≡ false
waiting-not_queued s task v waits = elim (Bool-cases (s.tasks task).queued) [
  | inl q ↦ cc (v.queued_runnable task q)
  | inr n ↦ n
]

-- The scheduler when the woken task is pushed.
abbrev pub prepared : ℕ → Bool → Scheduler → Scheduler
prepared task success s =
    let ts = update s.tasks task (record (s.tasks task) { channel_wake_success = success }) in
    record s { tasks = update ts task (made_runnable (ts task)) }

update-update {ℓ} :
    {A : Type ℓ} (f : ℕ → A) (p : ℕ) (v v' : A) → update (update f p v) p v' ≡ update f p v'
update-update f p v v' = fun_ext λ q. ground arith

prepared-tasks :
    (task : ℕ) (success : Bool) (s : Scheduler)
    → (prepared task success s).tasks
      ≡ update s.tasks task
          (made_runnable (record (s.tasks task) { channel_wake_success = success }))
prepared-tasks task success s = fun_ext λ q. ground arith

worker_wake-step :
    (task : ℕ) (success : Bool) (s : Scheduler)
    → task ≢ null
    → (s.tasks task).state ≡ waiting_channel
    → (push_runnable task (prepared task success s)).0 ≡ true
    → worker_wake_task_locked task success s
      ≡ (true, notify_worker (push_runnable task (prepared task success s)).1)
unfolding worker_wake_task_locked
worker_wake-step task success s ne waits ok = ground arith

-- `out` is the outcome of a wake that succeeded.
abbrev pub Woken : Scheduler → ℕ → Bool → Bool × Scheduler → Type 0
Woken s task success (ok, s') =
    (ok ≡ true)
    × (contents s'.runnable_tasks ≡ contents s.runnable_tasks ++ task ∷ [])
    × (s'.tasks ≡ update s.tasks task (woken_task (s.tasks task) success))
    × (s'.shutdown_requested ≡ s.shutdown_requested)
    × (s'.signals ≡ s.signals + 1)
    × (s'.poller_wakes ≡ (
        if s.idle_workers == 0 && s.poller_waiter_active
        then s.poller_wakes + 1
        else s.poller_wakes))

-- On a well-formed scheduler whose run queue can take one more task, waking a task that is parked
-- on a channel succeeds: the task becomes runnable with the outcome recorded and comes last in the
-- run queue, a signal is sent, and the poller is woken exactly if a worker blocks in it and none
-- is idle.
pub worker_wake-Woken :
    (task : ℕ) (success : Bool) (s : Scheduler)
    → IsScheduler s
    → HasRoom s
    → task ≢ null
    → (s.tasks task).state ≡ waiting_channel
    → Woken s task success (worker_wake_task_locked task success s)
unfolding notify_worker push_runnable
worker_wake-Woken task success s v room ne waits =
    let p = prepared task success s in
    let free : (p.tasks task).queued ≡ false = ground (arith, waiting-not_queued s task v waits) in
    let (ok, ec, et) =
      push_runnable_lem task p v.valid (record { granted = room.granted; doubles = room.doubles })
        ne free in
    let step = worker_wake-step task success s ne waits ok in
    let tasks : set_queued p.tasks task true
        ≡ update s.tasks task (woken_task (s.tasks task) success) =
      fun_ext λ q. ground arith in
    subst (Woken s task success) (sym step) (refl, ec, et ∙ tasks, refl, refl, refl)

-- A task that is not parked on a channel is not woken, and nothing changes.
pub worker_wake-not_parked :
    (task : ℕ) (success : Bool) (s : Scheduler)
    → (s.tasks task).state ≢ waiting_channel
    → worker_wake_task_locked task success s ≡ (false, s)
unfolding worker_wake_task_locked
worker_wake-not_parked task success s awake = ground arith

still_runnable :
    (s : Scheduler) (task t : ℕ) (added : Bool)
    → ((u : ℕ) → (s.tasks u).queued ≡ true → (s.tasks u).state ≡ runnable)
    → (s.tasks task).state ≡ runnable
    → let ts = if added then set_queued s.tasks task true else s.tasks in
      (ts t).queued ≡ true → (ts t).state ≡ runnable
still_runnable s task t true all ready h = ground (arith, all t)
still_runnable s task t false all ready h = all t h

pub push_runnable-IsScheduler :
    (task : ℕ) (s : Scheduler)
    → IsScheduler s
    → (s.tasks task).state ≡ runnable
    → IsScheduler (push_runnable task s).1
unfolding push_runnable
push_runnable-IsScheduler task s v ready =
    let q = s.runnable_tasks in
    let g = s.grants s.requests in
    let (ec, et) = task_queue_push-contents g q s.tasks task v.valid in
    record {
      valid = task_queue_push-IsValid g q s.tasks task v.valid;
      flagged = task_queue_push-IsFlagged g q s.tasks task v.valid v.flagged;
      queued_runnable = λ t.
          subst (λ (ts : Tasks). (ts t).queued ≡ true → (ts t).state ≡ runnable) (sym et)
            (still_runnable s task t _ v.queued_runnable ready);
    }

prepared-IsScheduler :
    (task : ℕ) (success : Bool) (s : Scheduler)
    → IsScheduler s
    → IsScheduler (prepared task success s)
prepared-IsScheduler task success s v = record {
  valid = v.valid;
  flagged = λ t. ground (arith, v.flagged t);
  queued_runnable = λ t h. ground (arith, v.queued_runnable t);
}

-- What a wake leaves behind, on each of its branches.
pub worker_wake-state :
    (task : ℕ) (success : Bool) (s : Scheduler)
    → let s' = (worker_wake_task_locked task success s).1 in
      (s' ≡ s)
      ⊎ (s' ≡ (push_runnable task (prepared task success s)).1)
      ⊎ (s' ≡ notify_worker (push_runnable task (prepared task success s)).1)
unfolding worker_wake_task_locked
worker_wake-state task success s = ground arith

notify_worker-IsScheduler : (s : Scheduler) → IsScheduler s → IsScheduler (notify_worker s)
unfolding notify_worker
notify_worker-IsScheduler s v = record {
  valid = v.valid;
  flagged = v.flagged;
  queued_runnable = v.queued_runnable;
}

-- Whatever it returns, a wake keeps a well-formed scheduler well-formed.
pub worker_wake-IsScheduler :
    (task : ℕ) (success : Bool) (s : Scheduler)
    → IsScheduler s
    → IsScheduler (worker_wake_task_locked task success s).1
worker_wake-IsScheduler task success s v =
    let pushed =
      push_runnable-IsScheduler task (prepared task success s)
        (prepared-IsScheduler task success s v) (ground arith) in
    elim (worker_wake-state task success s) [
      | inl e ↦ subst IsScheduler (sym e) v
      | inr (inl e) ↦ subst IsScheduler (sym e) pushed
      | inr (inr e) ↦ subst IsScheduler (sym e) (notify_worker-IsScheduler _ pushed)
    ]
