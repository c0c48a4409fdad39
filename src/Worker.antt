-- ===== src/Worker.antt =====
-- The state of a whole runtime and the operations of src/worker.c that create and destroy a task.
-- The poller's state is a parameter. Locks are the steps' boundaries; `main_mutex` and
-- `scheduler_mutex` are never held together.
pub mod Lifecycle
pub mod Spawn
pub mod Samples
mod Tests
use croutine.Prelude.{
  ℕ, zero, suc, ◌+◌, ◌*◌, ◌-◌, ℤ, pos, Bool, true, false, not, ◌&&◌, ◌||◌, Option, none, some, List,
  [], ◌∷◌, ltb, ◌==◌, if◌then◌else◌, null, update, minus_one, get_or, length,
}
use croutine.Task.{Task, TaskState, event_none, Released, task_cleanup}
use croutine.TaskQueue.{task_queue_init, task_queue_deinit, task_queue_pop}
use croutine.Stack.{Mapping, create_stack, destroy_stack}
use croutine.Scheduler.{Scheduler, push_runnable}
use croutine.Channel.State.{World, Run, ok, failed, out_of_fuel, set_memory}
use croutine.Channel.Buffer.{copy_value}
use croutine.Channel.Api.{croutine_channel_shutdown_all_locked}
use croutine.IoWaits.{
  IoWaitEntry, IoWaitTable, reset_entry, io_wait_table_init, io_wait_table_deinit,
  io_wait_table_remove_entry,
}

-- `page` is what `sysconf` says of the page size; `blocks` says which addresses the heap has given
-- out.
pub record Machine (P : Type 0) : Type 0 where
  pub world : World
  pub io_waits : IoWaitTable
  pub poller : P
  pub page : ℤ
  pub mappings : List Mapping
  pub blocks : ℕ → Bool
  pub runtime_init_once : Bool
  pub runtime_init_ok : Bool
  pub main_finished : Bool
  pub main_spawned : Bool
  pub main_exit_code : ℤ
  pub configured_stack_size : ℕ

-- What the allocators answer to a spawn: `null` or nothing for a refusal.
pub record Answers : Type 0 where
  pub queue : Bool
  pub table : Bool
  pub task : ℕ
  pub mapping : Option ℕ
  pub protected : Bool
  pub copy : ℕ

-- `free(p)`
abbrev pub free : ℕ → (ℕ → Bool) → ℕ → Bool
free p blocks = if p == null then blocks else update blocks p false

-- The task that `worker_spawn` fills in.
abbrev pub new_task : ℕ → ℕ → ℕ → Bool → ℕ → ℕ → Bool → Task
new_task fn arg arg_size owns_arg stack stack_size is_main = record {
  fn = fn;
  arg = arg;
  arg_size = arg_size;
  owns_arg = owns_arg;
  stack = stack;
  stack_size = stack_size;
  state = TaskState.runnable;
  queued = false;
  is_main = is_main;
  io_fd = minus_one;
  io_events = event_none;
  io_wake_success = false;
  channel_wake_success = false;
}

module _ {P : Type 0} where
  abbrev pub set_sched : Machine P → Scheduler → Machine P
  set_sched m s = record m { world = record m.world { sched = s } }

  -- A task that was cleaned up and freed.
  abbrev pub cleaned : ℕ → Machine P → Machine P
  cleaned task m =
      let t = m.world.sched.tasks task in
      let (t', released) = task_cleanup (record t { state = TaskState.finished }) in
      record (set_sched m (record m.world.sched { tasks = update m.world.sched.tasks task t' })) {
        mappings = destroy_stack m.page released.stack t.stack_size m.mappings;
        blocks = free task (free released.arg m.blocks);
      }

  unfoldable pub cleanup_task : ℕ → Machine P → Machine P
  cleanup_task task m = if task == null then m else cleaned task m

  -- A spawn that was refused after the task was set up: `main_spawned` is taken back if the task
  -- is the main one.
  abbrev pub withdraw : ℕ → Bool → Machine P → Bool × Machine P
  withdraw task is_main m =
      (false, cleanup_task task (if is_main then record m { main_spawned = false } else m))

  -- The branches of `worker_spawn` under `scheduler_mutex`: whether a shutdown is requested, and
  -- whether the push, which leaves the scheduler `s'`, succeeds.
  abbrev pub submit_branch : Bool → Bool → ℕ → Bool → Scheduler → Machine P → Bool × Machine P
  submit_branch true pushed task is_main s' m = withdraw task is_main m
  submit_branch false false task is_main s' m = withdraw task is_main (set_sched m s')
  submit_branch false true task is_main s' m = (
    true,
    set_sched m (record s' {
      signals = s'.signals + 1;
      poller_wakes =
          if m.world.sched.poller_waiter_active then s'.poller_wakes + 1 else s'.poller_wakes;
    }),
  )

  -- The part of `worker_spawn` behind `scheduler_mutex`.
  unfoldable pub submit : ℕ → Bool → Machine P → Bool × Machine P
  unfolding cleanup_task
  submit task is_main m =
      let (pushed, s') = push_runnable task m.world.sched in
      submit_branch m.world.sched.shutdown_requested pushed task is_main s' m

  -- The branches of `worker_spawn` under `main_mutex`: whether this is the main task, and whether
  -- there is one already.
  unfoldable pub announce_branch : Bool → Bool → ℕ → Machine P → Bool × Machine P
  unfolding submit cleanup_task
  announce_branch false spawned task m = submit task false m
  announce_branch true true task m = (false, cleanup_task task m)
  announce_branch true false task m = submit task true (record m { main_spawned = true })

  -- The part of `worker_spawn` behind `main_mutex`.
  unfoldable pub announce : ℕ → Bool → Machine P → Bool × Machine P
  unfolding announce_branch
  announce task is_main m = announce_branch is_main m.main_spawned task m

  -- The task that is set up at address `task`, with its stack and its argument.
  unfoldable pub set_up : ℕ → Bool → ℕ → ℕ → ℕ → Bool → ℕ → Machine P → Machine P
  set_up task owns_arg arg stack fn is_main arg_size m = set_sched m (record m.world.sched {
    tasks =
        update m.world.sched.tasks task
          (new_task fn arg arg_size owns_arg stack m.configured_stack_size is_main);
  })

  -- `malloc` for the copy of the argument was refused.
  abbrev pub refuse_copy : Answers → ℕ → Machine P → Bool × Machine P
  refuse_copy a stack m = (
    false,
    record m {
      mappings = destroy_stack m.page stack m.configured_stack_size m.mappings;
      blocks = free a.task m.blocks;
    },
  )

  -- The copy of the argument, in a block of its own.
  abbrev pub copied : ℕ → ℕ → ℕ → Machine P → Machine P
  copied copy arg arg_size m = record m {
    world =
        set_memory m.world copy (copy_value (m.world.memory copy) (m.world.memory arg) arg_size);
    blocks = update m.blocks copy true;
  }

  -- The branches of `worker_spawn` once the stack is there: whether the argument is copied, and
  -- whether the copy is refused.
  unfoldable pub spawn_branch :
      Bool → Bool → Answers → ℕ → ℕ → ℕ → Bool → ℕ → Machine P → Bool × Machine P
  unfolding set_up announce
  spawn_branch true true a fn arg arg_size is_main stack m = refuse_copy a stack m
  spawn_branch true false a fn arg arg_size is_main stack m =
      announce a.task is_main
        (set_up a.task true a.copy stack fn is_main arg_size (copied a.copy arg arg_size m))
  spawn_branch false refused a fn arg arg_size is_main stack m =
      announce a.task is_main (set_up a.task false arg stack fn is_main arg_size m)

  -- The branches before: whether the task is refused, and whether its stack is.
  unfoldable pub stack_branch :
      Bool
      → Bool
      → Answers
      → ℕ
      → ℕ
      → ℕ
      → Bool
      → Bool
      → ℕ
      → List Mapping
      → Machine P
      → Bool × Machine P
  unfolding spawn_branch
  stack_branch true no_stack a fn arg arg_size copy_arg is_main stack mappings m = (false, m)
  stack_branch false true a fn arg arg_size copy_arg is_main stack mappings m =
      (false, record m { mappings = mappings; blocks = free a.task (update m.blocks a.task true) })
  stack_branch false false a fn arg arg_size copy_arg is_main stack mappings m =
      spawn_branch (copy_arg && ltb 0 arg_size) (a.copy == null) a fn arg arg_size is_main stack
        (record m { mappings = mappings; blocks = update m.blocks a.task true })

  -- `worker_spawn` once the runtime is initialised.
  unfoldable pub spawn_task : Answers → ℕ → ℕ → ℕ → Bool → Bool → Machine P → Bool × Machine P
  unfolding stack_branch
  spawn_task a fn arg arg_size copy_arg is_main m =
      let (stack, mappings) =
        create_stack m.page a.mapping a.protected m.configured_stack_size m.mappings in
      stack_branch (a.task == null) (stack == null) a fn arg arg_size copy_arg is_main stack
        mappings m
