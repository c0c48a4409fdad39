-- ===== src/WorkerLoop/Waiting/Wakes.antt =====
-- Waking the tasks of a descriptor: they wait for it, so no worker has them in hand.
use croutine.Prelude.{
  ℕ, ◌≡◌, ◌≢◌, refl, sym, ap, ◌∙◌, subst, ◌⊎◌, inl, inr, Bool-cases, Bool, true, false, ℤ, ◌==ℤ◌,
  Option, none, some, List, [], ◌∷◌, ◌==◌, arith, if◌then◌else◌, null, update, count,
}
use croutine.Task.{Task, waiting_io}
use croutine.TaskQueue.{Tasks}
use croutine.Scheduler.{Scheduler, push_runnable, made_runnable, enqueue_runnable_task_locked}
use croutine.Scheduler.Wake.{IsScheduler, push_runnable-IsScheduler}
use croutine.IoWaits.{IoWaitEntry, IoWaitTable, holds, take_ready}
use croutine.IoWaits.Table.{IsTable}
use croutine.IoWaits.Invariant.{==ℤ-refl}
use croutine.IoParking.{set_wake_success, wake_tasks}
use croutine.IoParking.Wake.{waits, take_ready-once}
use croutine.WorkerLoop.{Pc}
use croutine.WorkerLoop.Exclusive.{Exclusive}
use croutine.WorkerLoop.Exclusive.Wakes.{push_runnable-others}
use croutine.WorkerLoop.Waiting.{Waits, IsWaiting, AllWaiting}

-- What the workers and the table of waiting tasks keep.
pub record Sound (s : Scheduler) (table : IoWaitTable) (pc : ℕ → Pc) : Type 0 where
  pub exclusive : Exclusive s pc
  pub good : IsTable table
  pub waiting : AllWaiting s.tasks table.entries

-- The scheduler when a task of a descriptor is pushed.
abbrev readied : ℕ → Bool → Scheduler → Scheduler
readied task success s =
    let s₁ = set_wake_success task success s in
    record s₁ { tasks = update s₁.tasks task (made_runnable (s₁.tasks task)) }

pub readied-IsScheduler :
    (task : ℕ) (success : Bool) (s : Scheduler)
    → IsScheduler s
    → IsScheduler (readied task success s)
readied-IsScheduler task success s v = record {
  valid = v.valid;
  flagged = λ t. ground (arith, v.flagged t);
  queued_runnable = λ t h. ground (arith, v.queued_runnable t);
}

-- The tasks of `tasks` were woken, and no other was touched.
abbrev pub WokenOnly : Scheduler → List ℕ → Option Scheduler → Type 0
WokenOnly s tasks none = Unit
WokenOnly s tasks (some s') =
    (IsScheduler s') × ((t : ℕ) → count t tasks ≡ 0 → s'.tasks t ≡ s.tasks t)

pub wake_tasks-WokenOnly :
    (tasks : List ℕ) (success : Bool) (s : Scheduler)
    → IsScheduler s
    → WokenOnly s tasks (wake_tasks tasks success s)
unfolding wake_tasks enqueue_runnable_task_locked
wake_tasks-WokenOnly [] success s v = (v, λ t h. refl)
wake_tasks-WokenOnly (task ∷ tasks) success s v =
    let k = readied task success s in
    let v' =
      push_runnable-IsScheduler task k (readied-IsScheduler task success s v) (ground arith) in
    pushed (push_runnable task k).0 (wake_tasks tasks success (push_runnable task k).1)
      (wake_tasks-WokenOnly tasks success (push_runnable task k).1 v')
  where
    pushed :
        (ok : Bool) (rest : Option Scheduler)
        → WokenOnly (push_runnable task (readied task success s)).1 tasks rest
        → WokenOnly s (task ∷ tasks) (if ok then rest else none)
    pushed false rest w = tt
    pushed true none w = tt
    pushed true (some s') (v', same) = (
      v',
      λ t h.
          (same t (ground arith)
            ∙ push_runnable-others task (readied task success s) t v.valid (ground arith)
            ∙ ground arith),
    )

pub take_ready-same :
    (e : IoWaitEntry) (ready : ℕ)
    → ((take_ready e ready).1.fd ≡ e.fd)
      × ((take_ready e ready).1.in_use ≡ e.in_use)
      × (count null (take_ready e ready).0 ≡ 0)
unfolding take_ready
take_ready-same e ready = (ground arith, ground arith, ground arith)

-- A task waits in an entry whose tasks wait.
pub waits-Waits :
    (ts : Tasks) (e : IoWaitEntry) (t : ℕ)
    → t ≢ null
    → e.in_use ≡ true
    → IsWaiting ts e
    → waits t e ≡ 1
    → Waits ts e.fd t
waits-Waits ts e t ne used w h = elim (Bool-cases (e.read_task == t)) [
  | inl reads ↦ subst (Waits ts e.fd) (ground arith) (w used).0
  | inr other ↦ subst (Waits ts e.fd) (ground arith) (w used).1
]

-- A task that is woken was waiting for the descriptor.
pub woken-Waits :
    (ts : Tasks) (e : IoWaitEntry) (ready t : ℕ)
    → e.in_use ≡ true
    → IsWaiting ts e
    → (count t (take_ready e ready).0 ≡ 0)
      ⊎ ((t ≢ null) × ((ts t).state ≡ waiting_io) × ((ts t).io_fd ≡ e.fd))
woken-Waits ts e ready t used w = elim (Bool-cases (t == null)) [
  | inl is ↦ inl (
      let at_null : t ≡ null = ground arith in
      subst (λ u. count u (take_ready e ready).0 ≡ 0) (sym at_null) (take_ready-same e ready).2)
  | inr other ↦
      let ne : t ≢ null = ground arith in
      elim (Bool-cases (count t (take_ready e ready).0 == 0)) [
        | inl none_ ↦ inl (ground arith)
        | inr some_ ↦
            let once : waits t e ≡ 1 = ground (arith, take_ready-once e ready t ne) in
            let (state, at_fd) = waits-Waits ts e t ne used w once ne in inr (ne, state, at_fd)
      ]
]

-- The tasks left in the entry still wait.
pub left-IsWaiting :
    (ts ts' : Tasks) (e : IoWaitEntry) (ready : ℕ)
    → e.in_use ≡ true
    → IsWaiting ts e
    → ((t : ℕ) → count t (take_ready e ready).0 ≡ 0 → ts' t ≡ ts t)
    → IsWaiting ts' (take_ready e ready).1
left-IsWaiting ts ts' e ready used w same used' =
    let e' = (take_ready e ready).1 in
    (stays e'.read_task (ground arith), stays e'.write_task (ground arith))
  where
    stays :
        (t : ℕ)
        → (t ≢ null → waits t (take_ready e ready).1 ≡ 1)
        → Waits ts' (take_ready e ready).1.fd t
    stays t here ne =
        let once = take_ready-once e ready t ne in
        let (state, at_fd) = waits-Waits ts e t ne used w (ground (arith, here ne)) ne in
        let is = same t (ground (arith, here ne)) in
        (
          ap (λ (k : Task). k.state) is ∙ state,
          ap (λ (k : Task). k.io_fd) is ∙ at_fd ∙ sym (take_ready-same e ready).0,
        )

-- The entries of the other descriptors.
pub other-IsWaiting :
    (ts ts' : Tasks) (fd : ℤ) (tasks : List ℕ)
    → ((t : ℕ)
        → (count t tasks ≡ 0) ⊎ ((t ≢ null) × ((ts t).state ≡ waiting_io) × ((ts t).io_fd ≡ fd)))
    → ((t : ℕ) → count t tasks ≡ 0 → ts' t ≡ ts t)
    → (x : IoWaitEntry) → holds x fd ≡ false
    → IsWaiting ts x
    → IsWaiting ts' x
other-IsWaiting ts ts' fd tasks woken same x elsewhere w used =
    (stays x.read_task (w used).0, stays x.write_task (w used).1)
  where
    stays : (t : ℕ) → Waits ts x.fd t → Waits ts' x.fd t
    stays t at_x ne = elim (woken t) [
      | inl unwoken ↦
          let is = same t unwoken in
          let (state, at_fd) = at_x ne in
          (ap (λ (k : Task). k.state) is ∙ state, ap (λ (k : Task). k.io_fd) is ∙ at_fd)
      | inr (_, _, here) ↦
          let (state, at_fd) = at_x ne in
          let same_fd : x.fd ≡ fd = sym at_fd ∙ here in
          let yes_ : (x.fd ==ℤ fd) ≡ true = rw same_fd (==ℤ-refl fd) in absurd (ground arith)
    ]
