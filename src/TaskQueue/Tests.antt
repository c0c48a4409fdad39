-- ===== src/TaskQueue/Tests.antt =====
-- Tests of the run queue.
use croutine.Prelude.{
  true, false, not, ◌&&◌, ◌||◌, ◌≡◌, ◌⊎◌, refl, [], ◌∷◌, ◌++◌, arith, null, ◌==◌, leb, ◌*◌,
  if◌then◌else◌, size_max,
}
use croutine.TaskQueue.{TaskQueue, Tasks, set_queued, task_queue_push, task_queue_pop}
use croutine.TaskQueue.Bounds.{IsValid, task_queue_push-IsValid, task_queue_pop-IsValid}
use croutine.TaskQueue.Fifo.{
  contents, adds, task_queue_push-contents, task_queue_push-fails, task_queue_pop-contents,
}
use croutine.TaskQueue.Flags.{IsFlagged, task_queue_push-IsFlagged, task_queue_pop-IsFlagged}
use croutine.Samples.{parked_task}

-- Tasks 9 and 7 are queued, with the wrap between them.
abbrev full_ring : TaskQueue
full_ring = record { tasks = 7 ∷ 9 ∷ []; capacity = 2; head = 1; tail = 1; count = 2 }

abbrev ring_tasks : Tasks
ring_tasks = λ t. record parked_task { queued = t == 7 || t == 9 }

full_ring-IsValid : IsValid full_ring
full_ring-IsValid = record {
  storage = refl;
  some_slot = omega arith;
  addressable = omega arith;
  head_in = omega arith;
  count_in = omega arith;
  tail_at = refl;
}

ring_tasks-IsFlagged : IsFlagged ring_tasks (contents full_ring)
ring_tasks-IsFlagged t = ground arith

-- A push onto the full ring grows it and keeps the order.
grown_push : contents (task_queue_push true full_ring ring_tasks 5).1 ≡ 9 ∷ 7 ∷ 5 ∷ []
unfolding task_queue_push croutine.TaskQueue.task_queue_grow croutine.TaskQueue.append_task
grown_push = refl

task_queue_push-contents_example :
    let (ok, q', ts') = task_queue_push true full_ring ring_tasks 5 in
    (contents q' ≡ (
      if adds ok (ring_tasks 5).queued then contents full_ring ++ 5 ∷ [] else contents full_ring))
    × (ts' ≡ (if adds ok (ring_tasks 5).queued then set_queued ring_tasks 5 true else ring_tasks))
task_queue_push-contents_example =
    task_queue_push-contents true full_ring ring_tasks 5 full_ring-IsValid

task_queue_push-fails_example :
    (task_queue_push false full_ring ring_tasks 5).0
    ≡ not (
        5 == null
        || (not (ring_tasks 5).queued
            && full_ring.count == full_ring.capacity
            && not (false && leb (full_ring.capacity * 2 * 8) size_max)))
task_queue_push-fails_example = task_queue_push-fails false full_ring ring_tasks 5 full_ring-IsValid

task_queue_pop-contents_example :
    let (ok, task, q', ts') = task_queue_pop full_ring ring_tasks in
    ((ok ≡ false) × (contents full_ring ≡ []) × (q' ≡ full_ring) × (ts' ≡ ring_tasks))
    ⊎ ((ok ≡ true)
        × (contents full_ring ≡ task ∷ contents q')
        × (ts' ≡ set_queued ring_tasks task false))
task_queue_pop-contents_example = task_queue_pop-contents full_ring ring_tasks full_ring-IsValid

task_queue_push-IsFlagged_example :
    let (ok, q', ts') = task_queue_push true full_ring ring_tasks 5 in IsFlagged ts' (contents q')
task_queue_push-IsFlagged_example =
    task_queue_push-IsFlagged true full_ring ring_tasks 5 full_ring-IsValid ring_tasks-IsFlagged

task_queue_pop-IsFlagged_example :
    let (ok, task, q', ts') = task_queue_pop full_ring ring_tasks in IsFlagged ts' (contents q')
task_queue_pop-IsFlagged_example =
    task_queue_pop-IsFlagged full_ring ring_tasks full_ring-IsValid ring_tasks-IsFlagged

task_queue_push-IsValid_example : IsValid (task_queue_push true full_ring ring_tasks 5).1
task_queue_push-IsValid_example =
    task_queue_push-IsValid true full_ring ring_tasks 5 full_ring-IsValid

task_queue_pop-IsValid_example : IsValid (task_queue_pop full_ring ring_tasks).2
task_queue_pop-IsValid_example = task_queue_pop-IsValid full_ring ring_tasks full_ring-IsValid
