-- ===== src/Worker/Samples.antt =====
-- A small runtime without descriptors, and answers of the allocators, for the tests.
use croutine.Prelude.{pos, true, false, some, []}
use croutine.Task.{TaskState}
use croutine.Scheduler.{Scheduler}
use croutine.Channel.State.{send}
use croutine.IoWaits.{IoWaitTable}
use croutine.Worker.{Machine, Answers}
use croutine.Samples.{parked_scheduler, parked_task}
use croutine.Channel.Samples.{byte_world, byte_channel, one_waiter}

abbrev pub sample_machine : Scheduler → IoWaitTable → Machine (Unit {0})
sample_machine s table = record {
  world = record (byte_world send (byte_channel [] 0 one_waiter one_waiter)) { sched = s };
  io_waits = table;
  poller = tt;
  page = pos 4096;
  mappings = [];
  blocks = λ _. false;
  runtime_init_once = true;
  runtime_init_ok = true;
  main_finished = false;
  main_spawned = false;
  main_exit_code = pos 0;
  configured_stack_size = 65536;
}

-- No task is queued or parked.
abbrev pub idle_scheduler : Scheduler
idle_scheduler = record parked_scheduler {
  tasks = λ _. record parked_task { state = TaskState.runnable };
}

abbrev pub answers : Answers
answers = record {
  queue = true;
  table = true;
  task = 500;
  mapping = some 8192;
  protected = true;
  copy = 600;
}
