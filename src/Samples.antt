-- ===== src/Samples.antt =====
-- Small concrete states, on which the tests of the modules run.
use croutine.Prelude.{true, false, refl, [], ◌∷◌, arith, null, minus_one}
use croutine.Task.{Task, waiting_channel, event_none}
use croutine.TaskQueue.{TaskQueue}
use croutine.TaskQueue.Bounds.{IsValid}
use croutine.Scheduler.{Scheduler}
use croutine.Scheduler.Wake.{IsScheduler, HasRoom}

-- A task that is parked on a channel.
abbrev pub parked_task : Task
parked_task = record {
  fn = 100;
  arg = null;
  arg_size = 0;
  owns_arg = false;
  stack = 200;
  stack_size = 65536;
  state = waiting_channel;
  queued = false;
  is_main = false;
  io_fd = minus_one;
  io_events = event_none;
  io_wake_success = false;
  channel_wake_success = false;
}

-- A run queue of two slots without tasks.
abbrev pub empty_ring : TaskQueue
empty_ring = record { tasks = null ∷ null ∷ []; capacity = 2; head = 0; tail = 0; count = 0 }

pub empty_ring-IsValid : IsValid empty_ring
empty_ring-IsValid = record {
  storage = refl;
  some_slot = omega arith;
  addressable = omega arith;
  head_in = omega arith;
  count_in = omega arith;
  tail_at = refl;
}

-- Every task is parked, and the allocator never refuses.
abbrev pub parked_scheduler : Scheduler
parked_scheduler = record {
  tasks = λ _. parked_task;
  runnable_tasks = empty_ring;
  shutdown_requested = false;
  scheduler_main_finished = false;
  poller_waiter_active = true;
  idle_workers = 0;
  grants = λ _. true;
  requests = 0;
  signals = 0;
  broadcasts = 0;
  poller_wakes = 0;
}

pub parked_scheduler-IsScheduler : IsScheduler parked_scheduler
parked_scheduler-IsScheduler = record {
  valid = empty_ring-IsValid;
  flagged = λ t. refl;
  queued_runnable = λ t h. absurd (ground arith);
}

pub parked_scheduler-HasRoom : HasRoom parked_scheduler
parked_scheduler-HasRoom = record { granted = refl; doubles = omega arith }
