-- ===== src/WorkerLoop/System.antt =====
-- The workers, and the steps of a runtime: a worker goes on to its next cut, or a task, or a thread
-- of the caller, calls one of the operations of src/worker.c. Channels act on the scheduler by
-- `worker_wake_task_locked` and by parking only.
pub mod Sound
pub mod Safety
use croutine.Prelude.{
  ℕ, ◌+◌, ◌^◌, ◌≤◌, ◌≡◌, ◌≢◌, Bool, true, false, not, ◌&&◌, ◌||◌, Option, none, some, List, [], ◌∷◌,
  ℤ, ◌==◌, if◌then◌else◌, null, update,
}
use croutine.Task.{TaskState, runnable, waiting_io, waiting_channel, finished}
use croutine.Scheduler.{Scheduler, park_current_on_channel, worker_wake_task_locked}
use croutine.IoParking.{
  Io, IoBegun, wait_parked, wait_refused, worker_park_current_on_io, worker_forget_fd,
}
use croutine.PollerEpoll.{PollEvent}
use croutine.Worker.{Machine, Answers, set_sched, spawn_task}
use croutine.Worker.Lifecycle.{initial_io_wait_capacity, task_finished}
use croutine.Scheduler.Wake.{IsScheduler}
use croutine.IoWaits.{io_wait_table_init}
use croutine.WorkerLoop.Exclusive.{in_hand, is_free}
use croutine.WorkerLoop.{
  Pc, deciding, polling, idling, running, yielded, settling, gone, decide, awake, worker_yield,
  polled, settle,
}

pub record System (P : Type 0) : Type 0 where
  pub machine : Machine P
  pub pc : ℕ → Pc

-- Where a worker goes on whose task has tried to park on a descriptor.
abbrev pub after_park : ℕ → IoBegun → Pc
after_park task wait_parked = yielded task waiting_io
after_park task wait_refused = running task

module _ {P : Type 0} where
  -- The part of the state that `polled` and the parking on descriptors work on.
  abbrev pub io_of : Machine P → Io P
  io_of m = record { sched = m.world.sched; io_waits = m.io_waits; poller = m.poller }

  abbrev pub set_io : Machine P → Io P → Machine P
  set_io m io = record (set_sched m io.sched) { io_waits = io.io_waits; poller = io.poller }

  -- A block that the heap gives out is no task's that is queued, parked or on a worker.
  abbrev pub IsUnused : System P → ℕ → Type 0
  IsUnused x task =
      (is_free (x.machine.world.sched.tasks task) ≡ true)
      × ((w : ℕ) → in_hand (x.pc w) task ≡ false)

  -- Worker `w` goes on to `p`.
  abbrev pub advance : System P → ℕ → Pc → Machine P → System P
  advance x w p m = record { machine = m; pc = update x.pc w p }

  pub data Step (poller_set : ℤ → ℕ → ℕ → P → Bool × P) (x : System P) : System P → Type 0 where
    decides :
        (w : ℕ) (checked : Bool)
        → x.pc w ≡ deciding checked
        → Step poller_set x (
            let (p, s) = decide checked x.machine.world.sched in
            advance x w p (set_sched x.machine s))
    polls :
        (w : ℕ) (timeout : Bool) (ready : Option (List PollEvent)) (p : Pc) (io : Io P)
        → x.pc w ≡ polling timeout
        → polled poller_set ready (io_of x.machine) ≡ some (p, io)
        → Step poller_set x (advance x w p (set_io x.machine io))
    awakes :
        (w : ℕ) (checked : Bool)
        → x.pc w ≡ idling checked
        → Step poller_set x (
            let (p, s) = awake checked x.machine.world.sched in
            advance x w p (set_sched x.machine s))
    returns :
        (w task : ℕ) (state : TaskState)
        → x.pc w ≡ yielded task state
        → Step poller_set x
            (advance x w (settling task state x.machine.world.sched.shutdown_requested) x.machine)
    settles :
        (w task : ℕ) (state : TaskState) (stop : Bool) (p : Pc) (m : Machine P)
        → x.pc w ≡ settling task state stop
        → settle task state stop x.machine ≡ some (p, m)
        → Step poller_set x (advance x w p m)
    yields :
        (w task : ℕ)
        → x.pc w ≡ running task
        → Step poller_set x (advance x w (worker_yield task) x.machine)
    parks :
        (w task : ℕ)
        → x.pc w ≡ running task
        → Step poller_set x (
            let (parked, s) = park_current_on_channel task x.machine.world.sched in
            advance x w
              (if parked then yielded task waiting_channel else running task)
              (set_sched x.machine s))
    parks_io :
        (w task : ℕ) (granted : Bool) (fd : ℤ) (events : ℕ)
        → x.pc w ≡ running task
        → x.machine.io_waits.capacity ≤ 2 ^ 62
        → Step poller_set x (
            let (begun, io) =
              worker_park_current_on_io poller_set granted fd events task (io_of x.machine) in
            advance x w (after_park task begun) (set_io x.machine io))
    forgets :
        (fd : ℤ) (io : Io P)
        → worker_forget_fd poller_set fd (io_of x.machine) ≡ some io
        → Step poller_set x (record x { machine = set_io x.machine io })
    finishes :
        (w task : ℕ)
        → task ≢ null
        → x.pc w ≡ running task
        → Step poller_set x (advance x w (yielded task finished) (task_finished task x.machine))
    wakes :
        (task : ℕ) (success : Bool)
        → Step poller_set x (record x {
          machine =
              set_sched x.machine (worker_wake_task_locked task success x.machine.world.sched).1;
        })
    spawns :
        (a : Answers) (fn arg arg_size : ℕ) (copy_arg is_main : Bool)
        → IsUnused x a.task
        → Step poller_set x
            (record x { machine = (spawn_task a fn arg arg_size copy_arg is_main x.machine).1 })
    stops : Step poller_set x (record x {
      machine = set_sched x.machine (record x.machine.world.sched { shutdown_requested = true });
    })

  pub data Reach (poller_set : ℤ → ℕ → ℕ → P → Bool × P) (x : System P) : System P → Type 0 where
    start : Reach poller_set x x
    later : {y z : System P} → Reach poller_set x y → Step poller_set y z → Reach poller_set x z

  -- A runtime after `runtime_init_impl`: an empty table, and no task on a worker.
  pub record IsStart (x : System P) : Type 0 where
    pub sched : IsScheduler x.machine.world.sched
    pub table : x.machine.io_waits ≡ (io_wait_table_init true initial_io_wait_capacity).1
    pub idle : (w t : ℕ) → in_hand (x.pc w) t ≡ false
