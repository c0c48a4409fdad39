-- ===== src/Scheduler/Park.antt =====
-- Parking on a channel: `worker_park_current_on_channel_locked` of src/worker.c.
use croutine.Prelude.{
  ℕ, ◌≡◌, ◌≢◌, ap, ◌∙◌, Bool, true, false, ◌||◌, arith, ◌==◌, null, update, Bool-cases, inl, inr,
}
use croutine.Task.{waiting_channel}
use croutine.TaskQueue.{Tasks}
use croutine.Scheduler.{
  Scheduler, park_current_on_channel, resume_from_channel, worker_wake_task_locked,
}
use croutine.Scheduler.Wake.{IsScheduler, HasRoom, worker_wake-Woken}

-- The scheduler once `current` waits.
abbrev pub parked : ℕ → Scheduler → Scheduler
parked current s =
    let t = record (s.tasks current) { state = waiting_channel; channel_wake_success = false } in
    record s { tasks = update s.tasks current t }

parked-IsScheduler :
    (current : ℕ) (s : Scheduler)
    → IsScheduler s
    → (s.tasks current).queued ≡ false
    → IsScheduler (parked current s)
parked-IsScheduler current s v running = record {
  valid = v.valid;
  flagged = λ t. ground (arith, v.flagged t);
  queued_runnable = λ t h. ground (arith, v.queued_runnable t);
}

-- Parking the running task, which is not queued, keeps the scheduler well formed.
pub park-IsScheduler :
    (current : ℕ) (s : Scheduler)
    → IsScheduler s
    → (s.tasks current).queued ≡ false
    → IsScheduler (park_current_on_channel current s).1
unfolding park_current_on_channel
park-IsScheduler current s v running = elim (Bool-cases (current == null || s.shutdown_requested)) [
  | inl e ↦ rw e v
  | inr e ↦ rw e (parked-IsScheduler current s v running)
]

-- On a well-formed scheduler whose run queue can take one more task and without a shutdown
-- request, a running task that parks can then be woken, and reads the waker's outcome when it
-- resumes.
pub park-wake-resume :
    (current : ℕ) (success : Bool) (s : Scheduler)
    → IsScheduler s
    → HasRoom s
    → current ≢ null
    → s.shutdown_requested ≡ false
    → (s.tasks current).queued ≡ false
    → let p = (park_current_on_channel current s).1 in
      let (woken, s') = worker_wake_task_locked current success p in
      (woken ≡ true) × (resume_from_channel current s' ≡ success)
unfolding resume_from_channel
park-wake-resume current success s v room ne up running =
    let p = parked current s in
    let is : (park_current_on_channel current s).1 ≡ p =
      unfold park_current_on_channel in ground arith in
    let w =
      worker_wake-Woken current success p (parked-IsScheduler current s v running)
        (record { granted = room.granted; doubles = room.doubles }) ne (ground arith) in
    rw is (w.0, ap (λ (ts : Tasks). (ts current).channel_wake_success) w.2 ∙ ground arith)
