-- ===== src/Worker/Spawn.antt =====
-- What a spawn of src/worker.c leaves behind when it fails.
use croutine.Prelude.{
  ℕ, ◌+◌, ◌^◌, ◌<◌, ◌≡◌, ◌≢◌, refl, sym, ap, ◌∙◌, subst, fun_ext, Bool, true, false, not, ◌&&◌,
  Option, none, some, List, [], ◌∷◌, ◌++◌, arith, ltb, ◌==◌, if◌then◌else◌, null, update,
  update_self,
}
use croutine.Task.{Task}
use croutine.TaskQueue.{Tasks, task_queue_push, set_queued}
use croutine.TaskQueue.Bounds.{IsValid}
use croutine.TaskQueue.Fifo.{contents, adds, task_queue_push-contents}
use croutine.Stack.{Mapping, get_page_size, create_stack, destroy_stack}
use croutine.Stack.Pages.{destroy_stack-null, destroy_stack-create_stack}
use croutine.Scheduler.{Scheduler, push_runnable}
use croutine.Worker.{
  Machine, Answers, new_task, free, set_sched, cleaned, cleanup_task, withdraw, submit_branch,
  submit, announce_branch, spawn_branch, stack_branch, copied, set_up, spawn_task,
}

pub push_runnable-fails :
    (task : ℕ) (s : Scheduler)
    → IsValid s.runnable_tasks
    → (push_runnable task s).0 ≡ false
    → (contents (push_runnable task s).1.runnable_tasks ≡ contents s.runnable_tasks)
      × ((push_runnable task s).1.tasks ≡ s.tasks)
unfolding push_runnable
push_runnable-fails task s v fails =
    let (ec, et) = task_queue_push-contents (s.grants s.requests) s.runnable_tasks s.tasks task v in
    let none_added : adds (task_queue_push (s.grants s.requests) s.runnable_tasks s.tasks task).0
          (s.tasks task).queued
        ≡ false =
      ap (λ b. b && not (s.tasks task).queued) fails in
    (
      ec
          ∙ ap
              (λ b. if b then contents s.runnable_tasks ++ task ∷ [] else contents s.runnable_tasks)
              none_added,
      et ∙ ap (λ b. if b then set_queued s.tasks task true else s.tasks) none_added,
    )

free-update :
    (blocks : ℕ → Bool) (p : ℕ)
    → p ≢ null
    → blocks p ≡ false
    → free p (update blocks p true) ≡ blocks
free-update blocks p ne unused = fun_ext λ q. ground arith

module _ {P : Type 0} where
  -- Cleaning `task` up in `m` gives back what `m₀` lacked.
  abbrev Restores : Machine P → ℕ → Machine P → Type 0
  Restores m₀ task m =
      let t = m.world.sched.tasks task in
      (destroy_stack m.page t.stack t.stack_size m.mappings ≡ m₀.mappings)
      × (free task (free (if t.owns_arg then t.arg else null) m.blocks) ≡ m₀.blocks)

  -- Nothing of what a spawn may take is taken.
  abbrev pub Untaken : Machine P → Machine P → Type 0
  Untaken m₀ m =
      (m.mappings ≡ m₀.mappings)
      × (m.blocks ≡ m₀.blocks)
      × (m.main_spawned ≡ m₀.main_spawned)
      × (contents m.world.sched.runnable_tasks ≡ contents m₀.world.sched.runnable_tasks)

  cleanup_task-Untaken :
      (m₀ m : Machine P) (task : ℕ)
      → task ≢ null
      → Restores m₀ task m
      → m.main_spawned ≡ m₀.main_spawned
      → contents m.world.sched.runnable_tasks ≡ contents m₀.world.sched.runnable_tasks
      → Untaken m₀ (cleanup_task task m)
  unfolding cleanup_task croutine.Task.task_cleanup
  cleanup_task-Untaken m₀ m task ne (maps, blocks) main queue =
      let some_task : (task == null) ≡ false = ground arith in
      subst (Untaken m₀) (sym (ap (λ b. if b then m else cleaned task m) some_task))
        (maps, blocks, main, queue)

  withdraw-Untaken :
      (m₀ m : Machine P) (task : ℕ) (is_main : Bool)
      → task ≢ null
      → Restores m₀ task m
      → (if is_main then false else m.main_spawned) ≡ m₀.main_spawned
      → contents m.world.sched.runnable_tasks ≡ contents m₀.world.sched.runnable_tasks
      → Untaken m₀ (withdraw task is_main m).1
  withdraw-Untaken m₀ m task true ne back main queue =
      cleanup_task-Untaken m₀ (record m { main_spawned = false }) task ne back main queue
  withdraw-Untaken m₀ m task false ne back main queue =
      cleanup_task-Untaken m₀ m task ne back main queue

  submit_branch-Untaken :
      (m₀ m : Machine P) (task : ℕ) (is_main : Bool) (shut pushed : Bool) (s' : Scheduler)
      → task ≢ null
      → Restores m₀ task m
      → (pushed ≡ false → Restores m₀ task (set_sched m s'))
      → (if is_main then false else m.main_spawned) ≡ m₀.main_spawned
      → contents m.world.sched.runnable_tasks ≡ contents m₀.world.sched.runnable_tasks
      → (pushed ≡ false → contents s'.runnable_tasks ≡ contents m₀.world.sched.runnable_tasks)
      → (submit_branch shut pushed task is_main s' m).0 ≡ false
      → Untaken m₀ (submit_branch shut pushed task is_main s' m).1
  submit_branch-Untaken m₀ m task is_main true pushed s' ne back back' main queue queue' fails =
      withdraw-Untaken m₀ m task is_main ne back main queue
  submit_branch-Untaken m₀ m task is_main false false s' ne back back' main queue queue' fails =
      withdraw-Untaken m₀ (set_sched m s') task is_main ne (back' refl) main (queue' refl)
  submit_branch-Untaken m₀ m task is_main false true s' ne back back' main queue queue' fails =
      absurd (ground arith)

  submit-Untaken :
      (m₀ m : Machine P) (task : ℕ) (is_main : Bool)
      → task ≢ null
      → Restores m₀ task m
      → IsValid m.world.sched.runnable_tasks
      → (if is_main then false else m.main_spawned) ≡ m₀.main_spawned
      → contents m.world.sched.runnable_tasks ≡ contents m₀.world.sched.runnable_tasks
      → (submit task is_main m).0 ≡ false
      → Untaken m₀ (submit task is_main m).1
  unfolding submit
  submit-Untaken m₀ m task is_main ne back v main queue fails =
      let s = m.world.sched in
      let same = push_runnable-fails task s v in
      submit_branch-Untaken m₀ m task is_main s.shutdown_requested (push_runnable task s).0
        (push_runnable task s).1 ne back
        (λ refused.
          subst
            (λ (ts : Tasks).
              (destroy_stack m.page (ts task).stack (ts task).stack_size m.mappings ≡ m₀.mappings)
              × (free task (free (if (ts task).owns_arg then (ts task).arg else null) m.blocks)
                  ≡ m₀.blocks))
            (sym ((same refused).1)) back)
        main queue (λ refused. (same refused).0 ∙ queue) fails

  announce_branch-Untaken :
      (m₀ m : Machine P) (task : ℕ) (is_main spawned : Bool)
      → m.main_spawned ≡ spawned
      → task ≢ null
      → Restores m₀ task m
      → IsValid m.world.sched.runnable_tasks
      → m.main_spawned ≡ m₀.main_spawned
      → contents m.world.sched.runnable_tasks ≡ contents m₀.world.sched.runnable_tasks
      → (announce_branch is_main spawned task m).0 ≡ false
      → Untaken m₀ (announce_branch is_main spawned task m).1
  unfolding announce_branch
  announce_branch-Untaken m₀ m task false spawned is ne back v main queue fails =
      submit-Untaken m₀ m task false ne back v main queue fails
  announce_branch-Untaken m₀ m task true true is ne back v main queue fails =
      cleanup_task-Untaken m₀ m task ne back main queue
  announce_branch-Untaken m₀ m task true false is ne back v main queue fails =
      submit-Untaken m₀ (record m { main_spawned = true }) task true ne back v (sym is ∙ main) queue
        fails

  -- What a spawn may assume of the allocators: the blocks are new, and do not end at the end of the
  -- address space.
  pub record IsFresh (a : Answers) (m : Machine P) : Type 0 where
    pub task_is_new : m.blocks a.task ≡ false
    pub new_copy : m.blocks a.copy ≡ false
    pub apart : a.copy ≢ a.task
    pub low : (mapping : ℕ) → a.mapping ≡ some mapping → mapping + get_page_size m.page < 2 ^ 64

  set_up-Restores :
      (m₀ m : Machine P) (task : ℕ) (owns : Bool) (arg stack fn : ℕ) (is_main : Bool) (arg_size : ℕ)
      → destroy_stack m.page stack m.configured_stack_size m.mappings ≡ m₀.mappings
      → free task (free (if owns then arg else null) m.blocks) ≡ m₀.blocks
      → Restores m₀ task (set_up task owns arg stack fn is_main arg_size m)
  unfolding set_up
  set_up-Restores m₀ m task owns arg stack fn is_main arg_size maps blocks =
      subst
        (λ (t : Task).
          (destroy_stack m.page t.stack t.stack_size m.mappings ≡ m₀.mappings)
          × (free task (free (if t.owns_arg then t.arg else null) m.blocks) ≡ m₀.blocks))
        (sym (
          update_self m.world.sched.tasks task
            (new_task fn arg arg_size owns stack m.configured_stack_size is_main)))
        (maps, blocks)

  spawn_branch-Untaken :
      (m₀ m : Machine P) (copies refused : Bool) (a : Answers) (fn arg arg_size : ℕ)
      (is_main : Bool) (stack : ℕ)
      → (a.copy == null) ≡ refused
      → IsFresh a m₀
      → a.task ≢ null
      → IsValid m.world.sched.runnable_tasks
      → destroy_stack m.page stack m.configured_stack_size m.mappings ≡ m₀.mappings
      → m.blocks ≡ update m₀.blocks a.task true
      → m.main_spawned ≡ m₀.main_spawned
      → contents m.world.sched.runnable_tasks ≡ contents m₀.world.sched.runnable_tasks
      → (spawn_branch copies refused a fn arg arg_size is_main stack m).0 ≡ false
      → Untaken m₀ (spawn_branch copies refused a fn arg arg_size is_main stack m).1
  unfolding spawn_branch
  spawn_branch-Untaken m₀ m true true a fn arg arg_size is_main stack is fresh ne v maps blocks main
        queue fails =
      (
        maps,
        ap (free a.task) blocks ∙ free-update m₀.blocks a.task ne fresh.task_is_new,
        main,
        queue,
      )
  spawn_branch-Untaken m₀ m true false a fn arg arg_size is_main stack is fresh ne v maps blocks
        main queue fails =
      let has_copy : a.copy ≢ null = ground arith in
      let unused : update m₀.blocks a.task true a.copy ≡ false =
        ground (arith, fresh.apart, fresh.new_copy) in
      let freed : free a.copy (update m.blocks a.copy true) ≡ update m₀.blocks a.task true =
        ap (λ b. free a.copy (update b a.copy true)) blocks
        ∙ free-update (update m₀.blocks a.task true) a.copy has_copy unused in
      announce_branch-Untaken m₀
        (set_up a.task true a.copy stack fn is_main arg_size (copied a.copy arg arg_size m)) a.task
        is_main m.main_spawned refl ne
        (set_up-Restores m₀ (copied a.copy arg arg_size m) a.task true a.copy stack fn is_main
          arg_size maps
          (ap (free a.task) freed ∙ free-update m₀.blocks a.task ne fresh.task_is_new))
        v main queue fails
  spawn_branch-Untaken m₀ m false refused a fn arg arg_size is_main stack is fresh ne v maps blocks
        main queue fails =
      announce_branch-Untaken m₀ (set_up a.task false arg stack fn is_main arg_size m) a.task
        is_main m.main_spawned refl ne
        (set_up-Restores m₀ m a.task false arg stack fn is_main arg_size maps
          (ap (free a.task) blocks ∙ free-update m₀.blocks a.task ne fresh.task_is_new))
        v main queue fails

  stack_branch-Untaken :
      (m : Machine P) (refused no_stack : Bool) (a : Answers) (fn arg arg_size : ℕ)
      (copy_arg is_main : Bool) (stack : ℕ) (mappings : List Mapping)
      → (a.task == null) ≡ refused
      → (stack == null) ≡ no_stack
      → IsFresh a m
      → IsValid m.world.sched.runnable_tasks
      → destroy_stack m.page stack m.configured_stack_size mappings ≡ m.mappings
      → (stack_branch refused no_stack a fn arg arg_size copy_arg is_main stack mappings m).0
        ≡ false
      → Untaken m
          (stack_branch refused no_stack a fn arg arg_size copy_arg is_main stack mappings m).1
  unfolding stack_branch
  stack_branch-Untaken m true no_stack a fn arg arg_size copy_arg is_main stack mappings is none_
        fresh v maps fails =
      (refl, refl, refl, refl)
  stack_branch-Untaken m false true a fn arg arg_size copy_arg is_main stack mappings is none_ fresh
        v maps fails =
      (
        sym (destroy_stack-null m.page stack m.configured_stack_size mappings none_) ∙ maps,
        free-update m.blocks a.task (ground arith) fresh.task_is_new,
        refl,
        refl,
      )
  stack_branch-Untaken m false false a fn arg arg_size copy_arg is_main stack mappings is none_
        fresh v maps fails =
      spawn_branch-Untaken m
        (record m { mappings = mappings; blocks = update m.blocks a.task true })
        (copy_arg && ltb 0 arg_size) (a.copy == null) a fn arg arg_size is_main stack refl fresh
        (ground arith) v maps refl refl refl fails

  -- On a runtime with a valid run queue, with new blocks from the heap and a mapping that does not
  -- end the address space: a spawn that fails, on whichever path, leaves the mappings of the
  -- process, the blocks of the heap, `main_spawned` and the queued tasks as they were.
  pub spawn_task-Untaken :
      (a : Answers) (fn arg arg_size : ℕ) (copy_arg is_main : Bool) (m : Machine P)
      → IsFresh a m
      → IsValid m.world.sched.runnable_tasks
      → (spawn_task a fn arg arg_size copy_arg is_main m).0 ≡ false
      → Untaken m (spawn_task a fn arg arg_size copy_arg is_main m).1
  unfolding spawn_task create_stack
  spawn_task-Untaken a fn arg arg_size copy_arg is_main m fresh v fails =
      let (stack, mappings) =
        create_stack m.page a.mapping a.protected m.configured_stack_size m.mappings in
      stack_branch-Untaken m (a.task == null) (stack == null) a fn arg arg_size copy_arg is_main
        stack mappings refl refl fresh v (given_back a.mapping fresh.low) fails
    where
      given_back :
          (mapping : Option ℕ)
          → ((base : ℕ) → mapping ≡ some base → base + get_page_size m.page < 2 ^ 64)
          → destroy_stack m.page
              (create_stack m.page mapping a.protected m.configured_stack_size m.mappings).0
              m.configured_stack_size
              (create_stack m.page mapping a.protected m.configured_stack_size m.mappings).1
            ≡ m.mappings
      given_back none low = destroy_stack-null m.page null m.configured_stack_size m.mappings refl
      given_back (some base) low =
          destroy_stack-create_stack m.page base a.protected m.configured_stack_size m.mappings
            (low base refl)
