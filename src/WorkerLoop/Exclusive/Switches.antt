-- ===== src/WorkerLoop/Exclusive/Switches.antt =====
-- A task that gives its worker back, and what the worker makes of it.
use croutine.Prelude.{
  ℕ, ◌+◌, ◌≡◌, ◌≢◌, refl, ap, subst, inl, inr, Bool-cases, Bool, true, false, ◌||◌, Option, none,
  some, arith, ◌==◌, if◌then◌else◌, null, update,
}
use croutine.Task.{Task, TaskState, runnable, waiting_io, waiting_channel, finished}
use croutine.Scheduler.{Scheduler}
use croutine.WorkerLoop.{Pc, deciding, running, yielded, settling}
use croutine.WorkerLoop.Exclusive.{
  wanted, same_state, in_hand, Exclusive, held-is_free, Exclusive-advance, Exclusive-same,
  Exclusive-flags, Exclusive-write,
}
use croutine.Scheduler.{push_runnable}
use croutine.Scheduler.{park_current_on_channel}
use croutine.Scheduler.Park.{parked}
use croutine.Task.{task_cleanup}
use croutine.Worker.{Machine, cleaned, cleanup_task}
use croutine.Worker.Lifecycle.{task_finished}
use croutine.WorkerLoop.{settle, settle_branch}
use croutine.WorkerLoop.Exclusive.Wakes.{push_runnable-others}
use croutine.Scheduler.Wake.{push_runnable-IsScheduler}

pub park-Exclusive :
    (s : Scheduler) (pc : ℕ → Pc) (w task : ℕ)
    → pc w ≡ running task
    → Exclusive s pc
    → let (parked, s') = park_current_on_channel task s in
      Exclusive s' (update pc w (if parked then yielded task waiting_channel else running task))
unfolding park_current_on_channel
park-Exclusive s pc w task e x =
    let here : in_hand (pc w) task ≡ true = rw e (ground arith) in
    elim (Bool-cases (task == null || s.shutdown_requested)) [
      | inl refused ↦
          rw refused (Exclusive-same s s pc w (running task) refl refl x (λ t h. rw e (h, refl)))
      | inr parks ↦ rw parks (
          Exclusive-write s (parked task s) pc w (yielded task waiting_channel) task
            (record (s.tasks task) { state = waiting_channel; channel_wake_success = false }) refl
            refl (ground (arith, held-is_free s pc w task x here)) x here
            (λ t h. absurd (ground arith)))
    ]

same_state-runnable : (a : TaskState) → same_state runnable a ≡ true → a ≡ runnable
same_state-runnable runnable h = refl
same_state-runnable a h = absurd (ground arith)

module _ {P : Type 0} where
  pub task_finished-tasks :
      (m : Machine P) (task : ℕ)
      → task ≢ null
      → let s = m.world.sched in
        let s' = (task_finished task m).world.sched in
        (s'.runnable_tasks ≡ s.runnable_tasks)
        × (s'.tasks ≡ update s.tasks task (record (s.tasks task) { state = TaskState.finished }))
  unfolding task_finished
  task_finished-tasks m task ne = ground arith

  pub finish-Exclusive :
      (m : Machine P) (pc : ℕ → Pc) (w task : ℕ)
      → task ≢ null
      → pc w ≡ running task
      → Exclusive m.world.sched pc
      → Exclusive (task_finished task m).world.sched (update pc w (yielded task finished))
  finish-Exclusive m pc w task ne e x =
      let s = m.world.sched in
      let here : in_hand (pc w) task ≡ true = rw e (ground arith) in
      let (eq, et) = task_finished-tasks m task ne in
      Exclusive-write s (task_finished task m).world.sched pc w (yielded task finished) task
        (record (s.tasks task) { state = TaskState.finished }) eq et
        (ground (arith, held-is_free s pc w task x here)) x here (λ u h. ground arith)

  pub cleanup-Exclusive :
      (m : Machine P) (pc : ℕ → Pc) (w task : ℕ)
      → in_hand (pc w) task ≡ true
      → Exclusive m.world.sched pc
      → Exclusive (cleanup_task task m).world.sched (update pc w (deciding false))
  unfolding cleanup_task croutine.Task.task_cleanup
  cleanup-Exclusive m pc w task h x = elim (Bool-cases (task == null)) [
    | inl e ↦ rw e (
        Exclusive-same m.world.sched m.world.sched pc w (deciding false) refl refl x
          (λ t no_. absurd (ground arith)))
    | inr e ↦ rw e (
        Exclusive-write m.world.sched (cleaned task m).world.sched pc w (deciding false) task
          (task_cleanup (record (m.world.sched.tasks task) { state = finished })).0 refl refl refl x
          h (λ t no_. absurd (ground arith)))
  ]

  -- A worker that reaches a cut leaves no task in two hands.
  abbrev pub Arrives : (ℕ → Pc) → ℕ → Option (Pc × Machine P) → Type 0
  Arrives pc w none = Unit
  Arrives pc w (some (p, m)) = Exclusive m.world.sched (update pc w p)

  requeue-Exclusive :
      (m : Machine P) (pc : ℕ → Pc) (w task : ℕ)
      → in_hand (pc w) task ≡ true
      → wanted (pc w) ≡ runnable
      → Exclusive m.world.sched pc
      → Exclusive (push_runnable task m.world.sched).1 (update pc w (deciding false))
  requeue-Exclusive m pc w task h wants x =
      let s = m.world.sched in
      Exclusive-advance s (push_runnable task s).1 pc w (deciding false) x
        (push_runnable-IsScheduler task s x.sched
          (same_state-runnable (s.tasks task).state (ground (arith, x.held w task h, wants))))
        (λ t no_. absurd (ground arith)) (λ t v no_. absurd (ground arith))
        (λ v t ne ht.
          rw
            (push_runnable-others task s t x.sched.valid
              (λ is. ne (x.alone v w task (subst (λ u. in_hand (pc v) u ≡ true) is ht) h)))
            (x.held v t ht))

  settle_branch-Exclusive :
      (m : Machine P) (pc : ℕ → Pc) (w task : ℕ) (state : TaskState) (stop pushed : Bool)
      → pc w ≡ settling task state stop
      → Exclusive m.world.sched pc
      → Arrives pc w (settle_branch state stop pushed task (push_runnable task m.world.sched).1 m)
  unfolding settle_branch
  settle_branch-Exclusive m pc w task runnable true pushed e x =
      cleanup-Exclusive m pc w task (rw e (ground arith)) x
  settle_branch-Exclusive m pc w task runnable false true e x =
      let s' = (push_runnable task m.world.sched).1 in
      Exclusive-flags s' (record s' { signals = s'.signals + 1 }) (update pc w (deciding false))
        refl refl (requeue-Exclusive m pc w task (rw e (ground arith)) (ap wanted e) x)
  settle_branch-Exclusive m pc w task runnable false false e x = tt
  settle_branch-Exclusive m pc w task waiting_io stop pushed e x =
      Exclusive-same m.world.sched m.world.sched pc w (deciding false) refl refl x
        (λ t no_. absurd (ground arith))
  settle_branch-Exclusive m pc w task waiting_channel stop pushed e x =
      Exclusive-same m.world.sched m.world.sched pc w (deciding false) refl refl x
        (λ t no_. absurd (ground arith))
  settle_branch-Exclusive m pc w task finished stop pushed e x =
      cleanup-Exclusive m pc w task (rw e (ground arith)) x

  pub settle-Exclusive :
      (m : Machine P) (pc : ℕ → Pc) (w task : ℕ) (state : TaskState) (stop : Bool)
      → pc w ≡ settling task state stop
      → Exclusive m.world.sched pc
      → Arrives pc w (settle task state stop m)
  unfolding settle
  settle-Exclusive m pc w task state stop e x =
      settle_branch-Exclusive m pc w task state stop (push_runnable task m.world.sched).0 e x
