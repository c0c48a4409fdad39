-- ===== src/WorkerLoop.antt =====
-- `worker_loop_impl` of src/worker.c, cut where a worker gives up `scheduler_mutex` or switches to a
-- task: each stretch between two cuts is a function. `Pc` says at which cut a worker stands.
pub mod Exclusive
pub mod System
mod Tests
pub mod Waiting
use croutine.Prelude.{
  ℕ, ◌+◌, ◌-◌, Bool, true, false, not, ◌&&◌, ◌||◌, Option, none, some, List, [], ◌∷◌, ℤ,
  if◌then◌else◌, null,
}
use croutine.Task.{TaskState, runnable, waiting_io, waiting_channel, finished}
use croutine.TaskQueue.{task_queue_is_empty, task_queue_pop}
use croutine.Scheduler.{Scheduler, push_runnable}
use croutine.IoParking.{Io, wake_waiting_tasks_locked}
use croutine.PollerEpoll.{PollEvent}
use croutine.Worker.{Machine, set_sched, cleanup_task}

-- A worker is about to decide what to do, with `checked_ready_io`; waits in the poller, with the
-- timeout 0 or without one; waits for `scheduler_cond`; runs a task; is back from a task, with the
-- worker's `yielded_state`; has read whether a shutdown is requested; or has returned.
pub data Pc : Type 0 where
  deciding : Bool → Pc
  polling : Bool → Pc
  idling : Bool → Pc
  running : ℕ → Pc
  yielded : ℕ → TaskState → Pc
  settling : ℕ → TaskState → Bool → Pc
  gone : Pc

-- One round of the inner loop, up to the next cut.
unfoldable pub decide : Bool → Scheduler → Pc × Scheduler
decide checked_ready_io s =
    let have_runnable = not (task_queue_is_empty s.runnable_tasks) in
    let (popped, task, q, ts) = task_queue_pop s.runnable_tasks s.tasks in
    if s.shutdown_requested || s.scheduler_main_finished
    then (gone, s)
    else if not s.poller_waiter_active && (not have_runnable || not checked_ready_io)
    then (polling have_runnable, record s { poller_waiter_active = true })
    else if popped
    then (running task, record s { runnable_tasks = q; tasks = ts })
    else (idling checked_ready_io, record s { idle_workers = s.idle_workers + 1 })

-- A signal or a broadcast has come.
unfoldable pub awake : Bool → Scheduler → Pc × Scheduler
awake checked_ready_io s =
    (deciding checked_ready_io, record s { idle_workers = s.idle_workers - 1 })

-- `worker_yield`
abbrev pub worker_yield : ℕ → Pc
worker_yield current = yielded current runnable

-- `croutine_yield`
abbrev pub croutine_yield : Option ℕ → Option Pc
croutine_yield none = none
croutine_yield (some current) = some (worker_yield current)

module _ {P : Type 0} where
  -- The loop over the events of the poller; `none` is the abort.
  unfoldable pub wake_events : (ℤ → ℕ → ℕ → P → Bool × P) → List PollEvent → Io P → Option (Io P)
  wake_events poller_set [] io = some io
  wake_events poller_set (e ∷ events) io =
      let woken = wake_waiting_tasks_locked poller_set e.fd e.events true io in
      elim woken [ none ↦ none | some (tasks, io') ↦ wake_events poller_set events io' ]

  -- `croutine_poller_wait` has returned: with an error, or with events.
  unfoldable pub polled :
      (ℤ → ℕ → ℕ → P → Bool × P) → Option (List PollEvent) → Io P → Option (Pc × Io P)
  unfolding wake_events
  polled poller_set ready io =
      let s = record io.sched {
        poller_waiter_active = false;
        broadcasts = io.sched.broadcasts + 1;
      } in
      if s.shutdown_requested || s.scheduler_main_finished
      then some (gone, record io { sched = s })
      else elim ready [
        | none ↦ none
        | some events ↦ elim (wake_events poller_set events (record io { sched = s })) [
          | none ↦ none
          | some io' ↦ some (deciding true, io')
        ]
      ]

  -- The switch on `yielded_state`; `none` is the abort.
  unfoldable pub settle_branch :
      TaskState → Bool → Bool → ℕ → Scheduler → Machine P → Option (Pc × Machine P)
  unfolding cleanup_task
  settle_branch runnable true pushed task s' m = some (deciding false, cleanup_task task m)
  settle_branch runnable false true task s' m =
      some (deciding false, set_sched m (record s' { signals = s'.signals + 1 }))
  settle_branch runnable false false task s' m = none
  settle_branch waiting_io stop pushed task s' m = some (deciding false, m)
  settle_branch waiting_channel stop pushed task s' m = some (deciding false, m)
  settle_branch finished stop pushed task s' m = some (deciding false, cleanup_task task m)

  unfoldable pub settle : ℕ → TaskState → Bool → Machine P → Option (Pc × Machine P)
  unfolding settle_branch
  settle task yielded_state should_shutdown m =
      let (pushed, s') = push_runnable task m.world.sched in
      settle_branch yielded_state should_shutdown pushed task s' m
