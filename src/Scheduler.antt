-- ===== src/Scheduler.antt =====
-- The scheduler state of src/worker.c that `scheduler_mutex` guards, and the operations on it that
-- the channels use: waking, parking and yielding a task. One call runs with the lock held, so it is
-- one step; a context switch ends a step, and what follows the switch is a step of its own.
pub mod Wake
pub mod Park
mod Tests
use croutine.Prelude.{
  ℕ, ◌+◌, Bool, true, false, not, ◌&&◌, ◌||◌, ◌==◌, if◌then◌else◌, null, update, minus_one,
}
use croutine.Task.{Task, TaskState, runnable, waiting_io, waiting_channel, finished, event_none}
use croutine.TaskQueue.{Tasks, TaskQueue, task_queue_push}

pub record Scheduler : Type 0 where
  pub tasks : Tasks
  pub runnable_tasks : TaskQueue
  pub shutdown_requested : Bool
  pub scheduler_main_finished : Bool
  pub poller_waiter_active : Bool
  pub idle_workers : ℕ
  -- what the allocator answers to the n-th push that has to grow the ring, and the pushes so far
  pub grants : ℕ → Bool
  pub requests : ℕ
  -- how often `scheduler_cond` was signalled and broadcast, and `croutine_poller_wake` was called
  pub signals : ℕ
  pub broadcasts : ℕ
  pub poller_wakes : ℕ

abbrev pub is_waiting_channel : TaskState → Bool
is_waiting_channel waiting_channel = true
is_waiting_channel _ = false

-- `task_queue_push(&runnable_tasks, task)`
unfoldable pub push_runnable : ℕ → Scheduler → Bool × Scheduler
push_runnable task s =
    let (ok, q, ts) = task_queue_push (s.grants s.requests) s.runnable_tasks s.tasks task in
    (ok, record s { runnable_tasks = q; tasks = ts; requests = s.requests + 1 })

-- The writes of `enqueue_runnable_task_locked` before the push.
abbrev pub made_runnable : Task → Task
made_runnable t = record t { state = TaskState.runnable; io_fd = minus_one; io_events = event_none }

unfoldable pub enqueue_runnable_task_locked : ℕ → Scheduler → Bool × Scheduler
enqueue_runnable_task_locked task s =
    push_runnable task (record s { tasks = update s.tasks task (made_runnable (s.tasks task)) })

-- An idle worker gets a signal; a worker that blocks in the poller is woken when none is idle.
unfoldable pub notify_worker : Scheduler → Scheduler
notify_worker s = record s {
  signals = s.signals + 1;
  poller_wakes =
      if s.idle_workers == 0 && s.poller_waiter_active then s.poller_wakes + 1 else s.poller_wakes;
}

unfoldable pub worker_wake_task_locked : ℕ → Bool → Scheduler → Bool × Scheduler
unfolding enqueue_runnable_task_locked notify_worker
worker_wake_task_locked task success s =
    if task == null || not (is_waiting_channel (s.tasks task).state)
    then (false, s)
    else (let t = record (s.tasks task) { channel_wake_success = success } in
        let (ok, s') =
          enqueue_runnable_task_locked task (record s { tasks = update s.tasks task t }) in
        if ok then (true, notify_worker s') else (false, s'))

-- `worker_park_current_on_channel_locked` up to the context switch: whether `current` parks.
unfoldable pub park_current_on_channel : ℕ → Scheduler → Bool × Scheduler
park_current_on_channel current s =
    if current == null || s.shutdown_requested
    then (false, s)
    else (let t = record (s.tasks current) {
      state = waiting_channel;
      channel_wake_success = false;
    } in
        (true, record s { tasks = update s.tasks current t }))

-- What it returns when the task is resumed.
unfoldable pub resume_from_channel : ℕ → Scheduler → Bool
resume_from_channel current s = (s.tasks current).channel_wake_success
