-- ===== src/WorkerLoop/Exclusive/Moves.antt =====
-- The moves of one worker, and the wakes.
use croutine.Prelude.{
  ℕ, ◌≡◌, sym, ap, ◌∙◌, subst, ◌⊎◌, inl, inr, Bool-cases, Bool, true, false, arith, update, count,
}
use croutine.TaskQueue.{task_queue_pop, set_queued}
use croutine.TaskQueue.Bounds.{IsValid, task_queue_pop-IsValid}
use croutine.TaskQueue.Flags.{task_queue_pop-IsFlagged}
use croutine.TaskQueue.Fifo.{task_queue_pop-contents}
use croutine.Scheduler.{Scheduler}
use croutine.WorkerLoop.{Pc, running, decide}
use croutine.WorkerLoop.Exclusive.{
  in_hand, Exclusive, held-is_free, Exclusive-advance, Exclusive-same,
}

-- What `decide` does: a worker that goes on without a task leaves the queue and the tasks alone, and
-- one that takes a task pops it.
pub decide-cases :
    (s : Scheduler) (checked : Bool)
    → let (p, s') = decide checked s in
      let (popped, task, q, ts) = task_queue_pop s.runnable_tasks s.tasks in
      (((t : ℕ) → in_hand p t ≡ false)
        × (s'.runnable_tasks ≡ s.runnable_tasks)
        × (s'.tasks ≡ s.tasks))
      ⊎ ((popped ≡ true) × (p ≡ running task) × (s'.runnable_tasks ≡ q) × (s'.tasks ≡ ts))
unfolding decide
decide-cases s checked = ground arith

-- A popped task was queued, so it was in no worker's hand.
Exclusive-pop :
    (s s' : Scheduler) (pc : ℕ → Pc) (w : ℕ)
    → let (popped, task, q, ts) = task_queue_pop s.runnable_tasks s.tasks in
      popped ≡ true
      → s'.runnable_tasks ≡ q
      → s'.tasks ≡ ts
      → Exclusive s pc
      → Exclusive s' (update pc w (running task))
Exclusive-pop s s' pc w popped eq et x =
    let task = (task_queue_pop s.runnable_tasks s.tasks).1 in
    elim (task_queue_pop-contents s.runnable_tasks s.tasks x.sched.valid) [
      | inl (empty, _, _, _) ↦ absurd (ground arith)
      | inr (_, ec, marks) ↦
          let was_queued : (s.tasks task).queued ≡ true =
            ground (arith, x.sched.flagged task, ap (count task) ec) in
          let ready = x.sched.queued_runnable task was_queued in
          let tasks : s'.tasks ≡ set_queued s.tasks task false = et ∙ marks in
          Exclusive-advance s s' pc w (running task) x
            (record {
              valid =
                  subst IsValid (sym eq)
                    (task_queue_pop-IsValid s.runnable_tasks s.tasks x.sched.valid);
              flagged =
                  rw (eq, et)
                    (task_queue_pop-IsFlagged s.runnable_tasks s.tasks x.sched.valid
                      x.sched.flagged);
              queued_runnable = λ t. rw tasks (λ h. ground (arith, x.sched.queued_runnable t));
            })
            (λ t h. rw tasks (ground arith))
            (λ t v h ne. elim (Bool-cases (in_hand (pc v) t)) [
              | inl e ↦ absurd (ground (arith, held-is_free s pc v t x e))
              | inr e ↦ e
            ])
            (λ v t ne h. rw tasks (ground (arith, x.held v t h)))
    ]

pub decide-Exclusive :
    (s : Scheduler) (pc : ℕ → Pc) (w : ℕ) (checked : Bool)
    → Exclusive s pc
    → let (p, s') = decide checked s in Exclusive s' (update pc w p)
decide-Exclusive s pc w checked x = elim (decide-cases s checked) [
  | inl (none_, eq, et) ↦
      Exclusive-same s (decide checked s).1 pc w (decide checked s).0 eq et x
        (λ t h. absurd (ground (arith, none_ t)))
  | inr (popped, ep, eq, et) ↦
      subst (λ p. Exclusive (decide checked s).1 (update pc w p)) (sym ep)
        (Exclusive-pop s (decide checked s).1 pc w popped eq et x)
]
