-- ===== src/Worker/Lifecycle.antt =====
-- The life of the runtime in src/worker.c: initialisation, the spawn calls that set it off, the end
-- of a task, the request to shut down, and the release of everything. A poller's operations are
-- `PollerOps`.
use croutine.Prelude.{
  ℕ, zero, suc, ◌+◌, ◌*◌, ℤ, pos, Bool, true, false, not, ◌&&◌, ◌||◌, Option, none, some, ltb, ◌==◌,
  if◌then◌else◌, null, update, get_or,
}
use croutine.Task.{TaskState}
use croutine.TaskQueue.{task_queue_init, task_queue_deinit, task_queue_pop}
use croutine.Channel.State.{Run, ok, failed, out_of_fuel}
use croutine.Channel.Api.{croutine_channel_shutdown_all_locked}
use croutine.IoWaits.{
  reset_entry, io_wait_table_init, io_wait_table_deinit, io_wait_table_remove_entry,
}
use croutine.Worker.{Machine, Answers, set_sched, cleanup_task, spawn_task}

pub record PollerOps (P : Type 0) : Type 0 where
  pub init : P → Bool × P
  pub deinit : P → P
  pub set : ℤ → ℕ → ℕ → P → Bool × P

-- How an operation ends that may abort, or for which the model may be given too few rounds.
pub data Outcome (A : Type 0) : Type 0 where
  returned : A → Outcome A
  aborted : Outcome A
  lacks_fuel : Outcome A

abbrev pub default_stack_size : ℕ
default_stack_size = 256 * 1024

abbrev pub initial_run_queue_capacity : ℕ
initial_run_queue_capacity = 1024

abbrev pub initial_io_wait_capacity : ℕ
initial_io_wait_capacity = 64

module _ {P : Type 0} where
  unfoldable pub worker_configure_stack_size : ℕ → Machine P → Machine P
  worker_configure_stack_size stack_size m = record m {
    configured_stack_size = if stack_size == 0 then default_stack_size else stack_size;
  }

  unfoldable pub worker_reset_main_state : Machine P → Machine P
  worker_reset_main_state m =
      set_sched (record m { main_finished = false; main_spawned = false; main_exit_code = pos 0 })
        (record m.world.sched {
          shutdown_requested = false;
          scheduler_main_finished = false;
          poller_waiter_active = false;
        })

  -- Nothing as long as the caller has to wait.
  unfoldable pub worker_wait_for_main : Machine P → Option ℤ
  worker_wait_for_main m = if m.main_finished then some m.main_exit_code else none

  unfoldable pub croutine_runtime_set_exit_code : ℤ → Machine P → Machine P
  croutine_runtime_set_exit_code code m = record m { main_exit_code = code }

  -- The end of `task_finished` for the main task; the state that the task yields is `finished`.
  unfoldable pub task_finished : ℕ → Machine P → Machine P
  task_finished current m =
      let s = m.world.sched in
      let t = record (s.tasks current) { state = TaskState.finished } in
      let s' = record s { tasks = update s.tasks current t } in
      if current == null
      then m
      else if (s.tasks current).is_main
      then set_sched (record m { main_finished = true })
          (record s' {
            scheduler_main_finished = true;
            broadcasts = s.broadcasts + 1;
            poller_wakes = s.poller_wakes + 1;
          })
      else set_sched m s'

  -- The rest of `worker_request_shutdown`, once all channels are closed.
  abbrev pub announce_shutdown : Machine P → Run (Unit {0}) → Outcome (Machine P)
  announce_shutdown m (ok _ w) = returned (record m {
    world = record w {
      sched = record w.sched {
        broadcasts = w.sched.broadcasts + 1;
        poller_wakes = w.sched.poller_wakes + 1;
      };
    };
    main_finished = true;
  })
  announce_shutdown m failed = aborted
  announce_shutdown m out_of_fuel = lacks_fuel

  -- `fuel` and `rounds` bound the waiters of a channel and the channels.
  unfoldable pub worker_request_shutdown : ℕ → ℕ → Machine P → Outcome (Machine P)
  worker_request_shutdown fuel rounds m =
      if not m.runtime_init_ok
      then returned m
      else announce_shutdown m (
          croutine_channel_shutdown_all_locked fuel rounds
            (record m.world { sched = record m.world.sched { shutdown_requested = true } }))

  -- `while (task_queue_pop(...)) cleanup_task(task)`, for so many rounds.
  unfoldable pub clean_queue : ℕ → Machine P → Machine P
  unfolding cleanup_task
  clean_queue zero m = m
  clean_queue (suc rounds) m =
      let s = m.world.sched in
      let (popped, task, q, ts) = task_queue_pop s.runnable_tasks s.tasks in
      let m' = set_sched m (record s { runnable_tasks = q; tasks = ts }) in
      let rest = clean_queue rounds (cleanup_task task m') in if popped then rest else m

  -- One round of the loop over `io_waits`.
  unfoldable pub clean_entry : ℕ → Machine P → Machine P
  unfolding cleanup_task
  clean_entry i m =
      let e = get_or m.io_waits.entries i reset_entry in
      let m₁ = record m { io_waits = io_wait_table_remove_entry m.io_waits i } in
      let m₂ = cleanup_task e.read_task m₁ in
      if not e.in_use
      then m
      else if e.write_task == e.read_task
      then m₂
      else cleanup_task e.write_task m₂

  -- The loop, with `rounds` entries left from entry `i` on.
  unfoldable pub clean_entries : ℕ → ℕ → Machine P → Machine P
  unfolding clean_entry
  clean_entries i zero m = m
  clean_entries i (suc rounds) m = clean_entries (i + 1) rounds (clean_entry i m)

  module _ (ops : PollerOps P) where
    -- `runtime_init_impl`, with the answers of the two allocations.
    unfoldable pub runtime_init_impl : Bool → Bool → Machine P → Machine P
    runtime_init_impl queue table m =
        let s = m.world.sched in
        let (queue_ok, q) = task_queue_init queue s.runnable_tasks initial_run_queue_capacity in
        let m₁ = set_sched m (record s { runnable_tasks = q }) in
        let (table_ok, t) = io_wait_table_init table initial_io_wait_capacity in
        let m₂ = record m₁ { io_waits = t } in
        let (poller_ok, p) = ops.init m.poller in
        let m₃ = record m₂ { poller = p } in
        let without_queue =
          λ (k : Machine P). set_sched k (record s { runnable_tasks = task_queue_deinit q }) in
        if not queue_ok
        then record m₁ { runtime_init_ok = false }
        else if not table_ok
        then record (without_queue m₂) { runtime_init_ok = false }
        else if not poller_ok
        then record (without_queue m₃) {
          io_waits = io_wait_table_deinit t;
          runtime_init_ok = false;
        }
        else record m₃ { runtime_init_ok = true }

    -- `pthread_once(&runtime_init_once, runtime_init_impl)`
    unfoldable pub worker_init : Bool → Bool → Machine P → Bool × Machine P
    unfolding runtime_init_impl
    worker_init queue table m =
        let m' =
          if m.runtime_init_once
          then m
          else record (runtime_init_impl queue table m) { runtime_init_once = true } in
        (m'.runtime_init_ok, m')

    unfoldable pub worker_spawn : Answers → ℕ → ℕ → ℕ → Bool → Bool → Machine P → Bool × Machine P
    unfolding worker_init spawn_task
    worker_spawn a fn arg arg_size copy_arg is_main m =
        let (ready, m') = worker_init a.queue a.table m in
        if not ready then (false, m') else spawn_task a fn arg arg_size copy_arg is_main m'

    unfoldable pub croutine_spawn : Answers → ℕ → ℕ → Machine P → Bool × Machine P
    unfolding worker_spawn
    croutine_spawn a fn arg m =
        if fn == null then (false, m) else worker_spawn a fn arg 0 false false m

    unfoldable pub croutine_spawn_copy : Answers → ℕ → ℕ → ℕ → Machine P → Bool × Machine P
    unfolding worker_spawn
    croutine_spawn_copy a fn arg arg_size m =
        if fn == null || (ltb 0 arg_size && arg == null)
        then (false, m)
        else worker_spawn a fn arg arg_size true false m

    unfoldable pub worker_deinit : Machine P → Machine P
    unfolding clean_queue clean_entries
    worker_deinit m =
        let m₁ = clean_queue (m.world.sched.runnable_tasks.count + 1) m in
        let m₂ = clean_entries 0 m₁.io_waits.capacity m₁ in
        if not m.runtime_init_ok
        then m
        else record (set_sched m₂ (record m₂.world.sched {
          runnable_tasks = task_queue_deinit m₂.world.sched.runnable_tasks;
        })) {
          poller = ops.deinit m₂.poller;
          io_waits = io_wait_table_deinit m₂.io_waits;
          runtime_init_ok = false;
        }
