-- ===== src/WorkerLoop/Waiting/Spawns.antt =====
-- A spawn touches no task but the new one.
use croutine.Prelude.{
  ℕ, ◌≡◌, ◌≢◌, refl, ap, ◌∙◌, inl, inr, Bool-cases, Bool, true, false, ◌&&◌, arith, ◌==◌, ltb, null,
  update, List,
}
use croutine.Task.{TaskState, runnable, task_cleanup}
use croutine.TaskQueue.{Tasks}
use croutine.Stack.{Mapping, create_stack}
use croutine.Scheduler.{Scheduler, push_runnable}
use croutine.Scheduler.Wake.{IsScheduler, push_runnable-IsScheduler}
use croutine.Worker.{
  Machine, Answers, new_task, set_sched, cleaned, cleanup_task, withdraw, submit_branch, submit,
  announce_branch, announce, set_up, copied, spawn_branch, stack_branch, spawn_task,
}
use croutine.Worker.Spawn.{push_runnable-fails}
use croutine.WorkerLoop.Exclusive.{same-IsScheduler, write-IsScheduler}
use croutine.WorkerLoop.Exclusive.Wakes.{push_runnable-others}

module _ {P : Type 0} where
  -- No task but `task` was touched.
  abbrev pub Spawned : ℕ → Machine P → Machine P → Type 0
  Spawned task m₀ m =
      (IsScheduler m.world.sched)
      × ((t : ℕ) → t ≢ task → m.world.sched.tasks t ≡ m₀.world.sched.tasks t)
      × (m.io_waits ≡ m₀.io_waits)

  -- The new task is runnable, and not yet queued.
  abbrev SetUp : ℕ → Machine P → Type 0
  SetUp task m =
      ((m.world.sched.tasks task).queued ≡ false) × ((m.world.sched.tasks task).state ≡ runnable)

  cleanup-Spawned :
      (m₀ m : Machine P) (task : ℕ)
      → SetUp task m
      → Spawned task m₀ m
      → Spawned task m₀ (cleanup_task task m)
  unfolding cleanup_task task_cleanup
  cleanup-Spawned m₀ m task (out, _) (v, same, table) = elim (Bool-cases (task == null)) [
    | inl e ↦ rw e (v, same, table)
    | inr e ↦ rw e (
      write-IsScheduler m.world.sched (cleaned task m).world.sched task
          (task_cleanup (record (m.world.sched.tasks task) { state = TaskState.finished })).0 refl
          refl out refl v,
      (λ t ne. (let other : (t == task) ≡ false = ground arith in rw other (same t ne))),
      table,
    )
  ]

  withdraw-Spawned :
      (m₀ m : Machine P) (task : ℕ) (is_main : Bool)
      → SetUp task m
      → Spawned task m₀ m
      → Spawned task m₀ (withdraw task is_main m).1
  withdraw-Spawned m₀ m task true up x =
      cleanup-Spawned m₀ (record m { main_spawned = false }) task up x
  withdraw-Spawned m₀ m task false up x = cleanup-Spawned m₀ m task up x

  submit_branch-Spawned :
      (m₀ m : Machine P) (task : ℕ) (is_main shut pushed : Bool)
      → (push_runnable task m.world.sched).0 ≡ pushed
      → SetUp task m
      → Spawned task m₀ m
      → Spawned task m₀
          (submit_branch shut pushed task is_main (push_runnable task m.world.sched).1 m).1
  submit_branch-Spawned m₀ m task is_main true pushed e up x =
      withdraw-Spawned m₀ m task is_main up x
  submit_branch-Spawned m₀ m task is_main false false e up (v, same, table) =
      let s' = (push_runnable task m.world.sched).1 in
      let kept = (push_runnable-fails task m.world.sched v.valid e).1 in
      withdraw-Spawned m₀ (set_sched m s') task is_main
        (
          ap (λ (ts : Tasks). (ts task).queued) kept ∙ up.0,
          ap (λ (ts : Tasks). (ts task).state) kept ∙ up.1,
        )
        (
          push_runnable-IsScheduler task m.world.sched v up.1,
          (λ t ne. (ap (λ (ts : Tasks). ts t) kept ∙ same t ne)),
          table,
        )
  submit_branch-Spawned m₀ m task is_main false true e up (v, same, table) =
      let s' = (push_runnable task m.world.sched).1 in
      (
        same-IsScheduler s' (submit_branch false true task is_main s' m).1.world.sched refl refl
            (push_runnable-IsScheduler task m.world.sched v up.1),
        (λ t ne. (push_runnable-others task m.world.sched t v.valid ne ∙ same t ne)),
        table,
      )

  announce_branch-Spawned :
      (m₀ m : Machine P) (task : ℕ) (is_main spawned : Bool)
      → SetUp task m
      → Spawned task m₀ m
      → Spawned task m₀ (announce_branch is_main spawned task m).1
  unfolding announce_branch submit
  announce_branch-Spawned m₀ m task false spawned up x =
      submit_branch-Spawned m₀ m task false m.world.sched.shutdown_requested
        (push_runnable task m.world.sched).0 refl up x
  announce_branch-Spawned m₀ m task true true up x = cleanup-Spawned m₀ m task up x
  announce_branch-Spawned m₀ m task true false up x =
      submit_branch-Spawned m₀ (record m { main_spawned = true }) task true
        m.world.sched.shutdown_requested (push_runnable task m.world.sched).0 refl up x

  -- The task is set up and handed over, from a state that has the scheduler and the table of `m₀`.
  hand_over-Spawned :
      (m₀ m : Machine P) (task : ℕ) (owns : Bool) (arg stack fn : ℕ) (is_main : Bool) (arg_size : ℕ)
      → m.world.sched ≡ m₀.world.sched
      → m.io_waits ≡ m₀.io_waits
      → (m₀.world.sched.tasks task).queued ≡ false
      → IsScheduler m₀.world.sched
      → Spawned task m₀ (announce task is_main (set_up task owns arg stack fn is_main arg_size m)).1
  unfolding announce set_up
  hand_over-Spawned m₀ m task owns arg stack fn is_main arg_size es et out v =
      let t = new_task fn arg arg_size owns stack m.configured_stack_size is_main in
      let m' = set_up task owns arg stack fn is_main arg_size m in
      announce_branch-Spawned m₀ m' task is_main m.main_spawned (ground arith, ground arith)
        (
          write-IsScheduler m.world.sched m'.world.sched task t refl refl (rw es out) refl
              (rw es v),
          (λ u ne.
              (let other : (u == task) ≡ false = ground arith in
                rw other (ap (λ (s : Scheduler). s.tasks u) es))),
          et,
        )

  spawn_branch-Spawned :
      (m₀ m : Machine P) (copies refused : Bool) (a : Answers) (fn arg arg_size : ℕ)
      (is_main : Bool) (stack : ℕ)
      → m.world.sched ≡ m₀.world.sched
      → m.io_waits ≡ m₀.io_waits
      → (m₀.world.sched.tasks a.task).queued ≡ false
      → IsScheduler m₀.world.sched
      → Spawned a.task m₀ (spawn_branch copies refused a fn arg arg_size is_main stack m).1
  unfolding spawn_branch
  spawn_branch-Spawned m₀ m true true a fn arg arg_size is_main stack es et out v =
      (rw es v, (λ t ne. ap (λ (s : Scheduler). s.tasks t) es), et)
  spawn_branch-Spawned m₀ m true false a fn arg arg_size is_main stack es et out v =
      hand_over-Spawned m₀ (copied a.copy arg arg_size m) a.task true a.copy stack fn is_main
        arg_size es et out v
  spawn_branch-Spawned m₀ m false refused a fn arg arg_size is_main stack es et out v =
      hand_over-Spawned m₀ m a.task false arg stack fn is_main arg_size es et out v

  stack_branch-Spawned :
      (m : Machine P) (refused no_stack : Bool) (a : Answers) (fn arg arg_size : ℕ)
      (copy_arg is_main : Bool) (stack : ℕ) (mappings : List Mapping)
      → (m.world.sched.tasks a.task).queued ≡ false
      → IsScheduler m.world.sched
      → Spawned a.task m
          (stack_branch refused no_stack a fn arg arg_size copy_arg is_main stack mappings m).1
  unfolding stack_branch
  stack_branch-Spawned m true no_stack a fn arg arg_size copy_arg is_main stack mappings out v =
      (v, (λ t ne. refl), refl)
  stack_branch-Spawned m false true a fn arg arg_size copy_arg is_main stack mappings out v =
      (v, (λ t ne. refl), refl)
  stack_branch-Spawned m false false a fn arg arg_size copy_arg is_main stack mappings out v =
      spawn_branch-Spawned m
        (record m { mappings = mappings; blocks = update m.blocks a.task true })
        (copy_arg && ltb 0 arg_size) (a.copy == null) a fn arg arg_size is_main stack refl refl out
        v

  pub spawn_task-Spawned :
      (a : Answers) (fn arg arg_size : ℕ) (copy_arg is_main : Bool) (m : Machine P)
      → (m.world.sched.tasks a.task).queued ≡ false
      → IsScheduler m.world.sched
      → Spawned a.task m (spawn_task a fn arg arg_size copy_arg is_main m).1
  unfolding spawn_task
  spawn_task-Spawned a fn arg arg_size copy_arg is_main m out v =
      let (stack, mappings) =
        create_stack m.page a.mapping a.protected m.configured_stack_size m.mappings in
      stack_branch-Spawned m (a.task == null) (stack == null) a fn arg arg_size copy_arg is_main
        stack mappings out v
