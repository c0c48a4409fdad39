-- ===== src/Worker/Tests.antt =====
-- Tests of spawning.
use croutine.Prelude.{◌≡◌, refl, pos, true, false, [], arith}
use croutine.Stack.{get_page_size, create_stack}
use croutine.Worker.{Machine, spawn_task}
use croutine.Worker.Spawn.{Untaken, IsFresh, spawn_task-Untaken}
use croutine.Samples.{parked_scheduler, empty_ring-IsValid}
use croutine.Worker.Samples.{sample_machine, answers}

-- A runtime of which a shutdown is requested.
abbrev stopping : Machine (Unit {0})
stopping =
    sample_machine (record parked_scheduler { shutdown_requested = true })
      (record { entries = []; capacity = 0; count = 0 })

page_is : get_page_size (pos 4096) ≡ 4096
unfolding get_page_size
page_is = refl

answers-IsFresh : IsFresh answers stopping
answers-IsFresh = record {
  task_is_new = refl;
  new_copy = refl;
  apart = ground arith;
  low = λ mapping e. ground (arith, page_is);
}

spawn_is_refused : (spawn_task answers 100 30 1 true true stopping).0 ≡ false
unfolding spawn_task create_stack
spawn_is_refused = refl

spawn_task-Untaken_example : Untaken stopping (spawn_task answers 100 30 1 true true stopping).1
spawn_task-Untaken_example =
    spawn_task-Untaken answers 100 30 1 true true stopping answers-IsFresh empty_ring-IsValid
      spawn_is_refused
