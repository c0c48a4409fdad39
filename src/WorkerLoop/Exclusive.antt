-- ===== src/WorkerLoop/Exclusive.antt =====
-- No task is on two workers, and none on a worker while it is queued.
pub mod Moves
pub mod Wakes
pub mod Switches
use croutine.Prelude.{
  ℕ, ◌+◌, ◌<◌, ◌≡◌, ◌≢◌, refl, sym, ap, ◌∙◌, subst, ◌⊎◌, inl, inr, Bool-cases, Bool, true, false,
  not, ◌&&◌, ◌||◌, Option, none, some, List, [], ◌∷◌, ◌++◌, arith, ◌==◌, if◌then◌else◌, null,
  update, count,
}
use croutine.Task.{Task, TaskState, runnable, waiting_io, waiting_channel, finished}
use croutine.TaskQueue.{Tasks, TaskQueue, task_queue_pop, task_queue_is_empty, set_queued}
use croutine.TaskQueue.Bounds.{IsValid, task_queue_pop-IsValid}
use croutine.TaskQueue.Flags.{task_queue_pop-IsFlagged}
use croutine.TaskQueue.Fifo.{contents, task_queue_pop-contents}
use croutine.Scheduler.{Scheduler, worker_wake_task_locked}
use croutine.Scheduler.Wake.{IsScheduler}
use croutine.WorkerLoop.{
  Pc, deciding, polling, idling, running, yielded, settling, gone, decide, awake,
}

-- The state that a task has while a worker has it in hand.
abbrev pub wanted : Pc → TaskState
wanted (yielded task state) = state
wanted (settling task state stop) = state
wanted _ = runnable

abbrev pub same_state : TaskState → TaskState → Bool
same_state runnable runnable = true
same_state waiting_io waiting_io = true
same_state waiting_channel waiting_channel = true
same_state finished finished = true
same_state _ _ = false

abbrev pub is_parked : TaskState → Bool
is_parked waiting_io = true
is_parked waiting_channel = true
is_parked _ = false

-- A worker has the task in hand: it runs it, or it still has to requeue it or to clean it up.
abbrev pub in_hand : Pc → ℕ → Bool
in_hand (running task) t = task == t
in_hand (yielded task state) t = task == t && not (is_parked state)
in_hand (settling task state stop) t = task == t && not (is_parked state)
in_hand _ t = false

abbrev pub at_work : Pc → Task → Bool
at_work p t = not t.queued && same_state (wanted p) t.state

abbrev pub is_free : Task → Bool
is_free t = not t.queued && not (is_parked t.state)

pub record Exclusive (s : Scheduler) (pc : ℕ → Pc) : Type 0 where
  pub sched : IsScheduler s
  pub alone : (v w t : ℕ) → in_hand (pc v) t ≡ true → in_hand (pc w) t ≡ true → v ≡ w
  pub held : (v t : ℕ) → in_hand (pc v) t ≡ true → at_work (pc v) (s.tasks t) ≡ true

same_state-is_parked : (a b : TaskState) → same_state a b ≡ true → is_parked b ≡ is_parked a
same_state-is_parked runnable runnable h = refl
same_state-is_parked waiting_io waiting_io h = refl
same_state-is_parked waiting_channel waiting_channel h = refl
same_state-is_parked finished finished h = refl
same_state-is_parked a b h = absurd (ground arith)

in_hand-awake : (p : Pc) (t : ℕ) → in_hand p t ≡ true → is_parked (wanted p) ≡ false
in_hand-awake (running task) t h = refl
in_hand-awake (yielded task state) t h = ground arith
in_hand-awake (settling task state stop) t h = ground arith
in_hand-awake (deciding checked) t h = refl
in_hand-awake (polling timeout) t h = refl
in_hand-awake (idling checked) t h = refl
in_hand-awake gone t h = refl

-- A task in hand is neither queued nor parked.
pub held-is_free :
    (s : Scheduler) (pc : ℕ → Pc) (v t : ℕ)
    → Exclusive s pc
    → in_hand (pc v) t ≡ true
    → is_free (s.tasks t) ≡ true
held-is_free s pc v t x h = ground (
  arith,
  x.held v t h,
  in_hand-awake (pc v) t h,
  same_state-is_parked (wanted (pc v)) (s.tasks t).state,
)

-- A worker goes on to `p`.
pub Exclusive-advance :
    (s s' : Scheduler) (pc : ℕ → Pc) (w : ℕ) (p : Pc)
    → Exclusive s pc
    → IsScheduler s'
    → ((t : ℕ) → in_hand p t ≡ true → at_work p (s'.tasks t) ≡ true)
    → ((t v : ℕ) → in_hand p t ≡ true → v ≢ w → in_hand (pc v) t ≡ false)
    → ((v t : ℕ) → v ≢ w → in_hand (pc v) t ≡ true → at_work (pc v) (s'.tasks t) ≡ true)
    → Exclusive s' (update pc w p)
Exclusive-advance s s' pc w p x v' own unclaimed others = record {
  sched = v';
  alone = λ v u t hv hu. ground (arith, unclaimed t v, unclaimed t u, x.alone v u t);
  held = λ v t h. elim (Bool-cases (v == w)) [
    | inl e ↦ rw e (own t (rw e at h))
    | inr e ↦ rw e (others v t (ground arith) (rw e at h))
  ];
}

unclaimed-alone :
    (s : Scheduler) (pc : ℕ → Pc) (v w t : ℕ)
    → Exclusive s pc
    → in_hand (pc w) t ≡ true
    → v ≢ w
    → in_hand (pc v) t ≡ false
unclaimed-alone s pc v w t x h ne = elim (Bool-cases (in_hand (pc v) t)) [
  | inl e ↦ absurd (ne (x.alone v w t e h))
  | inr e ↦ e
]

pub same-IsScheduler :
    (s s' : Scheduler)
    → s'.runnable_tasks ≡ s.runnable_tasks
    → s'.tasks ≡ s.tasks
    → IsScheduler s
    → IsScheduler s'
same-IsScheduler s s' eq et v = record {
  valid = subst IsValid (sym eq) v.valid;
  flagged = rw (eq, et) v.flagged;
  queued_runnable = λ t. rw et (v.queued_runnable t);
}

-- A worker goes on without touching a task or the queue, and with no task that it had not.
pub Exclusive-same :
    (s s' : Scheduler) (pc : ℕ → Pc) (w : ℕ) (p : Pc)
    → s'.runnable_tasks ≡ s.runnable_tasks
    → s'.tasks ≡ s.tasks
    → Exclusive s pc
    → ((t : ℕ) → in_hand p t ≡ true → (in_hand (pc w) t ≡ true) × (wanted p ≡ wanted (pc w)))
    → Exclusive s' (update pc w p)
Exclusive-same s s' pc w p eq et x keeps =
    Exclusive-advance s s' pc w p x (same-IsScheduler s s' eq et x.sched)
      (λ t h. rw (et, (keeps t h).1) (x.held w t (keeps t h).0))
      (λ t v h. unclaimed-alone s pc v w t x (keeps t h).0) (λ v t ne h. rw et (x.held v t h))

pub Exclusive-flags :
    (s s' : Scheduler) (pc : ℕ → Pc)
    → s'.runnable_tasks ≡ s.runnable_tasks
    → s'.tasks ≡ s.tasks
    → Exclusive s pc
    → Exclusive s' pc
Exclusive-flags s s' pc eq et x = record {
  sched = same-IsScheduler s s' eq et x.sched;
  alone = x.alone;
  held = λ v t. rw et (x.held v t);
}

-- A task that is neither queued before nor after is written.
pub write-IsScheduler :
    (s s' : Scheduler) (task : ℕ) (t' : Task)
    → s'.runnable_tasks ≡ s.runnable_tasks
    → s'.tasks ≡ update s.tasks task t'
    → (s.tasks task).queued ≡ false
    → t'.queued ≡ false
    → IsScheduler s
    → IsScheduler s'
write-IsScheduler s s' task t' eq et out out' v = record {
  valid = subst IsValid (sym eq) v.valid;
  flagged = λ t. rw (eq, et) (ground (arith, v.flagged t));
  queued_runnable = λ t. rw et (λ h. ground (arith, v.queued_runnable t));
}

-- A worker that has a task in hand writes it, and goes on.
pub Exclusive-write :
    (s s' : Scheduler) (pc : ℕ → Pc) (w : ℕ) (p : Pc) (task : ℕ) (t' : Task)
    → s'.runnable_tasks ≡ s.runnable_tasks
    → s'.tasks ≡ update s.tasks task t'
    → t'.queued ≡ false
    → Exclusive s pc
    → in_hand (pc w) task ≡ true
    → ((t : ℕ) → in_hand p t ≡ true → (t ≡ task) × (same_state (wanted p) t'.state ≡ true))
    → Exclusive s' (update pc w p)
Exclusive-write s s' pc w p task t' eq et out x h own =
    let free = held-is_free s pc w task x h in
    Exclusive-advance s s' pc w p x
      (write-IsScheduler s s' task t' eq et (ground arith) out x.sched)
      (λ t ht. rw et (ground (arith, own t ht)))
      (λ t v ht.
        unclaimed-alone s pc v w t x (subst (λ u. in_hand (pc w) u ≡ true) (sym (own t ht).0) h))
      (λ v t ne ht. rw et (ground (arith, x.held v t ht, x.alone v w task)))
