-- ===== src/Runtime.antt =====
-- src/runtime.c: the life of a runtime as its caller sees it. What `sysconf` says of the processors
-- and what the allocators and `pthread_create` answer are arguments. `croutine_runtime_run` is cut
-- where it waits for the main task and the workers.
pub mod Once
mod Tests
use croutine.Prelude.{
  ℕ, zero, suc, ◌+◌, ◌*◌, ℤ, pos, negsuc, minus_one, Bool, true, false, not, ◌&&◌, ◌||◌, Option,
  none, some, ltb, ◌==◌, if◌then◌else◌, null,
}
use croutine.Task.{event_read, event_write}
use croutine.IoParking.{Io, IoBegun, worker_park_current_on_io, worker_forget_fd}
use croutine.Worker.{Machine, Answers}
use croutine.Worker.Lifecycle.{
  PollerOps, Outcome, returned, aborted, lacks_fuel, default_stack_size,
  worker_configure_stack_size, worker_reset_main_state, worker_init, worker_spawn,
  worker_wait_for_main, worker_request_shutdown, worker_deinit,
}

-- `croutine_runtime_config`
pub record Config : Type 0 where
  pub worker_count : ℕ
  pub stack_size : ℕ

-- `runtime_workers` says whether the array of threads is allocated.
pub record Runtime (P : Type 0) : Type 0 where
  pub machine : Machine P
  pub runtime_worker_count : ℕ
  pub runtime_started_workers : ℕ
  pub runtime_workers : Bool
  pub runtime_initialized : Bool
  pub runtime_ever_initialized : Bool
  pub runtime_ran : Bool

-- The processors that are online, if there are any.
abbrev pub online_count : ℤ → Option ℕ
online_count (pos zero) = none
online_count (pos (suc n)) = some (suc n)
online_count (negsuc n) = none

unfoldable pub worker_count_of : Option Config → ℤ → Option ℕ
worker_count_of none online = online_count online
worker_count_of (some config) online =
    if config.worker_count == 0 then online_count online else some config.worker_count

unfoldable pub stack_size_of : Option Config → ℕ
stack_size_of none = default_stack_size
stack_size_of (some config) =
    if config.stack_size == 0 then default_stack_size else config.stack_size

module _ {P : Type 0} where
  -- `worker_init` has succeeded or not.
  abbrev pub initialized : ℕ → Bool × Machine P → Runtime P → Bool × Runtime P
  initialized worker_count (false, m) r =
      (false, record r { machine = m; runtime_ever_initialized = true })
  initialized worker_count (true, m) r = (
    true,
    record r {
      machine = m;
      runtime_ever_initialized = true;
      runtime_worker_count = worker_count;
      runtime_initialized = true;
    },
  )

  abbrev pub set_machine : Runtime P → Outcome (Machine P) → Outcome (Runtime P)
  set_machine r (returned m) = returned (record r { machine = m })
  set_machine r aborted = aborted
  set_machine r lacks_fuel = lacks_fuel

  -- The loop that creates the workers: `created` says which threads can be, and `left` are left.
  unfoldable pub start_workers : ℕ → ℕ → (ℕ → Bool) → ℕ → ℕ → Runtime P → Outcome (Runtime P)
  start_workers fuel rounds created worker_id zero r = returned r
  start_workers fuel rounds created worker_id (suc left) r =
      let rest =
        start_workers fuel rounds created (worker_id + 1) left
          (record r { runtime_started_workers = r.runtime_started_workers + 1 }) in
      if created worker_id
      then rest
      else set_machine r (worker_request_shutdown fuel rounds r.machine)

  -- Whether the caller goes on to wait, beside the runtime.
  abbrev pub goes_on : Bool → Outcome (Runtime P) → Outcome (Bool × Runtime P)
  goes_on waits (returned r) = returned (waits, r)
  goes_on waits aborted = aborted
  goes_on waits lacks_fuel = lacks_fuel

  -- `croutine_runtime_run` once the main task is spawned or not, and the threads' array is
  -- allocated or not.
  unfoldable pub run_branch :
      ℕ → ℕ → (ℕ → Bool) → Bool → Bool → Runtime P → Outcome (Bool × Runtime P)
  unfolding start_workers
  run_branch fuel rounds created false allocated r = returned (false, r)
  run_branch fuel rounds created true false r =
      goes_on false (set_machine r (worker_request_shutdown fuel rounds r.machine))
  run_branch fuel rounds created true true r = goes_on true (
      start_workers fuel rounds created 0 r.runtime_worker_count
        (record r { runtime_workers = true }))

  -- The end of `croutine_runtime_run`, when the workers have returned; nothing as long as it waits
  -- for the main task.
  unfoldable pub run_end : Runtime P → Option (ℤ × Runtime P)
  run_end r =
      let code =
        if r.runtime_started_workers == r.runtime_worker_count
        then worker_wait_for_main r.machine
        else some minus_one in
      elim code [
        | none ↦ none
        | some exit_code ↦
            some (exit_code, record r { runtime_workers = false; runtime_started_workers = 0 })
      ]

  unfoldable pub croutine_runtime_request_shutdown : ℕ → ℕ → Runtime P → Outcome (Runtime P)
  croutine_runtime_request_shutdown fuel rounds r =
      if r.runtime_initialized
      then set_machine r (worker_request_shutdown fuel rounds r.machine)
      else returned r

  module _ (ops : PollerOps P) where
    -- `croutine_runtime_init` with a number of workers, or none.
    abbrev pub init_branch : Option ℕ → ℕ → Bool → Bool → Runtime P → Bool × Runtime P
    init_branch none stack_size queue table r = (false, r)
    init_branch (some worker_count) stack_size queue table r =
        if ltb stack_size (16 * 1024)
        then (false, r)
        else initialized worker_count
            (worker_init ops queue table
              (worker_reset_main_state (worker_configure_stack_size stack_size r.machine)))
            r

    unfoldable pub croutine_runtime_init :
        Option Config → ℤ → Bool → Bool → Runtime P → Bool × Runtime P
    unfolding worker_count_of stack_size_of
    croutine_runtime_init config online queue table r =
        if r.runtime_initialized || r.runtime_ever_initialized
        then (false, r)
        else init_branch (worker_count_of config online) (stack_size_of config) queue table r

    -- `croutine_runtime_run` up to the wait; `false` is a return of `-1`.
    unfoldable pub run_begin :
        ℕ → ℕ → Answers → Bool → (ℕ → Bool) → ℕ → ℕ → Runtime P → Outcome (Bool × Runtime P)
    unfolding run_branch
    run_begin fuel rounds a allocated created main_fn arg r =
        let (spawned, m) = worker_spawn ops a main_fn arg 0 false true r.machine in
        if not r.runtime_initialized || r.runtime_ran || main_fn == null
        then returned (false, r)
        else run_branch fuel rounds created spawned allocated
            (record r { machine = m; runtime_ran = true })

    -- The rest of `croutine_runtime_shutdown`, once the workers have returned.
    abbrev pub released : Outcome (Runtime P) → Outcome (Runtime P)
    released (returned r) = returned (record r {
      machine = worker_deinit ops r.machine;
      runtime_workers = false;
      runtime_started_workers = 0;
      runtime_initialized = false;
    })
    released aborted = aborted
    released lacks_fuel = lacks_fuel

    unfoldable pub croutine_runtime_shutdown : ℕ → ℕ → Runtime P → Outcome (Runtime P)
    croutine_runtime_shutdown fuel rounds r =
        if not r.runtime_initialized
        then returned r
        else released (set_machine r (worker_request_shutdown fuel rounds r.machine))

    -- The end of `croutine_run`: a shutdown, with the exit code kept.
    abbrev pub with_code : ℤ → Outcome (Runtime P) → Outcome (Option (ℤ × Runtime P))
    with_code code (returned r) = returned (some (code, r))
    with_code code aborted = aborted
    with_code code lacks_fuel = lacks_fuel

    -- `run_end`, and the shutdown if it returns.
    abbrev pub finish_run : ℕ → ℕ → Option (ℤ × Runtime P) → Outcome (Option (ℤ × Runtime P))
    finish_run fuel rounds none = returned none
    finish_run fuel rounds (some (code, r)) =
        with_code code (croutine_runtime_shutdown fuel rounds r)

    -- `croutine_run` once the run has begun; `meanwhile` is what the workers do until they return.
    abbrev pub after_begin :
        ℕ
        → ℕ
        → (Machine P → Machine P)
        → Outcome (Bool × Runtime P)
        → Outcome (Option (ℤ × Runtime P))
    after_begin fuel rounds meanwhile (returned (false, r)) =
        with_code minus_one (croutine_runtime_shutdown fuel rounds r)
    after_begin fuel rounds meanwhile (returned (true, r)) =
        finish_run fuel rounds (run_end (record r { machine = meanwhile r.machine }))
    after_begin fuel rounds meanwhile aborted = aborted
    after_begin fuel rounds meanwhile lacks_fuel = lacks_fuel

    -- Nothing inside: it waits for the main task for ever.
    unfoldable pub croutine_run :
        ℕ
        → ℕ
        → Option Config
        → ℤ
        → Bool
        → Bool
        → Answers
        → Bool
        → (ℕ → Bool)
        → ℕ
        → ℕ
        → (Machine P → Machine P)
        → Runtime P
        → Outcome (Option (ℤ × Runtime P))
    unfolding croutine_runtime_init run_begin run_end croutine_runtime_shutdown
    croutine_run fuel rounds config online queue table a allocated created main_fn arg meanwhile r =
        let (ready, r') = croutine_runtime_init config online queue table r in
        if main_fn == null
        then returned (some (minus_one, r))
        else if not ready
        then returned (some (minus_one, r'))
        else after_begin fuel rounds meanwhile
            (run_begin fuel rounds a allocated created main_fn arg r')

module _ {P : Type 0} (poller_set : ℤ → ℕ → ℕ → P → Bool × P) where
  unfoldable pub croutine_io_wait_readable : Bool → ℤ → ℕ → Io P → IoBegun × Io P
  croutine_io_wait_readable granted fd current io =
      worker_park_current_on_io poller_set granted fd event_read current io

  unfoldable pub croutine_io_wait_writable : Bool → ℤ → ℕ → Io P → IoBegun × Io P
  croutine_io_wait_writable granted fd current io =
      worker_park_current_on_io poller_set granted fd event_write current io

  unfoldable pub croutine_io_forget_fd : ℤ → Io P → Option (Io P)
  croutine_io_forget_fd fd io = worker_forget_fd poller_set fd io
