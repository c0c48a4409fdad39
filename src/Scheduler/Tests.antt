-- ===== src/Scheduler/Tests.antt =====
-- Tests of parking and waking.
use croutine.Prelude.{true, false, ◌≡◌, refl, arith}
use croutine.Scheduler.{worker_wake_task_locked, park_current_on_channel, resume_from_channel}
use croutine.Scheduler.Wake.{IsScheduler, Woken, worker_wake-Woken, worker_wake-IsScheduler}
use croutine.Scheduler.Park.{park-wake-resume}
use croutine.Samples.{parked_scheduler, parked_scheduler-IsScheduler, parked_scheduler-HasRoom}

worker_wake-Woken_example :
    Woken parked_scheduler 3 true (worker_wake_task_locked 3 true parked_scheduler)
worker_wake-Woken_example =
    worker_wake-Woken 3 true parked_scheduler parked_scheduler-IsScheduler parked_scheduler-HasRoom
      (ground arith) refl

worker_wake-IsScheduler_example : IsScheduler (worker_wake_task_locked 3 true parked_scheduler).1
worker_wake-IsScheduler_example =
    worker_wake-IsScheduler 3 true parked_scheduler parked_scheduler-IsScheduler

park-wake-resume_example :
    let p = (park_current_on_channel 3 parked_scheduler).1 in
    let (woken, s') = worker_wake_task_locked 3 false p in
    (woken ≡ true) × (resume_from_channel 3 s' ≡ false)
park-wake-resume_example =
    park-wake-resume 3 false parked_scheduler parked_scheduler-IsScheduler parked_scheduler-HasRoom
      (ground arith) refl refl
