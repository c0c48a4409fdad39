-- ===== src/Task.antt =====
-- `struct Task` of src/internal/task.h, without its machine context and sanitizer fields, and
-- `task_cleanup` of src/task.c. A task is known by its address.
use croutine.Prelude.{ℕ, Bool, false, ℤ, minus_one, null, if◌then◌else◌}

-- `enum TaskState`.
pub data TaskState : Type 0 where
  runnable waiting_io waiting_channel finished : TaskState

-- `enum CroutineIoEvent`, bits of a mask.
abbrev pub event_none : ℕ
event_none = 0

abbrev pub event_read : ℕ
event_read = 1

abbrev pub event_write : ℕ
event_write = 2

-- `struct Task`: `scheduler.{state, queued, is_main}`, `io_wait.{fd, events, wake_success}` and
-- `channel_wait.wake_success` are flattened.
pub record Task : Type 0 where
  pub fn : ℕ
  pub arg : ℕ
  pub arg_size : ℕ
  pub owns_arg : Bool
  pub stack : ℕ
  pub stack_size : ℕ
  pub state : TaskState
  pub queued : Bool
  pub is_main : Bool
  pub io_fd : ℤ
  pub io_events : ℕ
  pub io_wake_success : Bool
  pub channel_wake_success : Bool

-- What `task_cleanup` hands back: the stack mapping and, if the task owns it, its argument.
pub record Released : Type 0 where
  pub stack : ℕ
  pub arg : ℕ

-- A cleaned task, beside what was released (`null` for nothing).
unfoldable pub task_cleanup : Task → Task × Released
task_cleanup t = (
  record t {
    stack = null;
    stack_size = 0;
    arg = null;
    arg_size = 0;
    owns_arg = false;
    state = TaskState.runnable;
    queued = false;
    is_main = false;
    io_fd = minus_one;
    io_events = event_none;
    io_wake_success = false;
    channel_wake_success = false;
  },
  record { stack = t.stack; arg = if t.owns_arg then t.arg else null },
)
