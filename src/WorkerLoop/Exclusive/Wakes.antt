-- ===== src/WorkerLoop/Exclusive/Wakes.antt =====
-- Wakes leave the tasks alone that a worker has in hand.
use croutine.Prelude.{ℕ, ◌≡◌, ◌≢◌, ap, ◌∙◌, inl, inr, Bool-cases, Bool, true, arith, ◌==◌}
use croutine.TaskQueue.Bounds.{IsValid}
use croutine.Scheduler.{Scheduler, worker_wake_task_locked}
use croutine.Scheduler.Wake.{IsScheduler}
use croutine.WorkerLoop.{Pc}
use croutine.WorkerLoop.Exclusive.{is_free, Exclusive, held-is_free}
use croutine.Scheduler.{push_runnable, notify_worker}
use croutine.TaskQueue.Fifo.{task_queue_push-contents}
use croutine.Scheduler.Wake.{
  prepared, worker_wake-state, worker_wake-not_parked, worker_wake-IsScheduler,
}

-- What other threads do to a scheduler: they leave the tasks alone that are neither queued nor parked.
pub Exclusive-elsewhere :
    (s s' : Scheduler) (pc : ℕ → Pc)
    → IsScheduler s'
    → ((t : ℕ) → is_free (s.tasks t) ≡ true → s'.tasks t ≡ s.tasks t)
    → Exclusive s pc
    → Exclusive s' pc
Exclusive-elsewhere s s' pc v' same x = record {
  sched = v';
  alone = x.alone;
  held = λ v t h. rw (same t (held-is_free s pc v t x h)) (x.held v t h);
}

pub push_runnable-others :
    (task : ℕ) (s : Scheduler) (t : ℕ)
    → IsValid s.runnable_tasks
    → t ≢ task
    → (push_runnable task s).1.tasks t ≡ s.tasks t
unfolding push_runnable
push_runnable-others task s t v ne =
    let (_, et) = task_queue_push-contents (s.grants s.requests) s.runnable_tasks s.tasks task v in
    rw et (ground arith)

pub wake-free :
    (task : ℕ) (success : Bool) (s : Scheduler) (t : ℕ)
    → IsScheduler s
    → is_free (s.tasks t) ≡ true
    → (worker_wake_task_locked task success s).1.tasks t ≡ s.tasks t
unfolding notify_worker
wake-free task success s t v free = elim (Bool-cases (t == task)) [
  | inl e ↦
      let is : t ≡ task = ground arith in
      ap (λ (r : Bool × Scheduler). r.1.tasks t)
        (worker_wake-not_parked task success s (λ parks. ground (arith, parks, free, is)))
  | inr ne ↦
      let other : t ≢ task = ground arith in
      let pushed = push_runnable-others task (prepared task success s) t v.valid other in
      elim (worker_wake-state task success s) [
        | inl e ↦ ap (λ (k : Scheduler). k.tasks t) e
        | inr (inl e) ↦ ap (λ (k : Scheduler). k.tasks t) e ∙ pushed ∙ ground arith
        | inr (inr e) ↦ ap (λ (k : Scheduler). k.tasks t) e ∙ pushed ∙ ground arith
      ]
]

pub wake-Exclusive :
    (task : ℕ) (success : Bool) (s : Scheduler) (pc : ℕ → Pc)
    → Exclusive s pc
    → Exclusive (worker_wake_task_locked task success s).1 pc
wake-Exclusive task success s pc x =
    Exclusive-elsewhere s (worker_wake_task_locked task success s).1 pc
      (worker_wake-IsScheduler task success s x.sched)
      (λ t free. wake-free task success s t x.sched free) x
