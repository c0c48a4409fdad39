-- ===== src/WorkerLoop/Tests.antt =====
-- Tests of the worker loop.
use croutine.Prelude.{ℕ, ℤ, ◌≡◌, refl, Bool, true, false, arith}
use croutine.Stack.{create_stack}
use croutine.IoWaits.{io_wait_table_init}
use croutine.Worker.{set_sched, spawn_task}
use croutine.Worker.Samples.{sample_machine, idle_scheduler, answers}
use croutine.WorkerLoop.{deciding, running, decide, worker_yield}
use croutine.WorkerLoop.System.{System, decides, spawns, yields, advance, start, later, IsStart}
use croutine.WorkerLoop.System.Safety.{Apart, Reach-Apart}
use croutine.Samples.{empty_ring-IsValid}

-- Two workers and more, all of which look for work.
abbrev at_start : System (Unit {0})
at_start = record {
  machine = sample_machine idle_scheduler (io_wait_table_init true 64).1;
  pc = λ w. deciding false;
}

at_start-IsStart : IsStart at_start
at_start-IsStart = record {
  sched = record {
    valid = empty_ring-IsValid;
    flagged = λ t. refl;
    queued_runnable = λ t h. absurd (ground arith);
  };
  table = refl;
  idle = λ w t. refl;
}

-- The poller never refuses.
abbrev agrees : ℤ → ℕ → ℕ → Unit {0} → Bool × Unit {0}
agrees fd old_events new_events p = (true, p)

-- A task is spawned, and worker 0 takes it.
abbrev spawned : System (Unit {0})
spawned = record at_start { machine = (spawn_task answers 100 30 1 true true at_start.machine).1 }

abbrev taken : System (Unit {0})
taken =
    let (p, s) = decide false spawned.machine.world.sched in
    advance spawned 0 p (set_sched spawned.machine s)

taken_runs : taken.pc 0 ≡ running 500
unfolding decide spawn_task create_stack croutine.Scheduler.push_runnable
    croutine.TaskQueue.task_queue_push croutine.TaskQueue.task_queue_pop
    croutine.TaskQueue.append_task
taken_runs = refl

abbrev yielded_once : System (Unit {0})
yielded_once = advance taken 0 (worker_yield 500) taken.machine

Reach-Apart_example : Apart yielded_once
Reach-Apart_example = Reach-Apart {poller_set = agrees} at_start yielded_once at_start-IsStart (
    later
      (later (later start (spawns answers 100 30 1 true true (refl, λ w. refl)))
        (decides 0 false refl))
      (yields 0 500 taken_runs))
