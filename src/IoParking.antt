-- ===== src/IoParking.antt =====
-- The operations of src/worker.c that park a task on a descriptor, wake the tasks of a descriptor
-- and forget a descriptor. `poller_set` is `croutine_poller_set` of the poller that is built in,
-- with a state of its own.
pub mod Wake
mod Tests
use croutine.Prelude.{
  ℕ, bit_or, ◌+◌, ℤ, is_negative, Bool, true, false, not, ◌&&◌, ◌||◌, Option, none, some, List, [],
  ◌∷◌, ltb, ◌==◌, if◌then◌else◌, null, update, get_or, set, length,
}
use croutine.Task.{Task, TaskState, waiting_io, event_none, event_read, event_write}
use croutine.Scheduler.{Scheduler, enqueue_runnable_task_locked}
use croutine.IoWaits.{
  IoWaitEntry, IoWaitTable, IoWaitResult, wait_ready, wait_closed, wait_failed, wants_read,
  wants_write, io_wait_entry_events, reset_entry, io_wait_table_find, io_wait_table_get_or_insert,
  io_wait_table_remove_entry, take_ready,
}

pub record Io (P : Type 0) : Type 0 where
  pub sched : Scheduler
  pub io_waits : IoWaitTable
  pub poller : P

-- How the first step of `worker_park_current_on_io` ends.
pub data IoBegun : Type 0 where
  wait_parked wait_refused : IoBegun

abbrev pub set_wake_success : ℕ → Bool → Scheduler → Scheduler
set_wake_success task success s = record s {
  tasks = update s.tasks task (record (s.tasks task) { io_wake_success = success });
}

-- The loop over `tasks_to_wake`; `none` is the abort of `worker_fail`.
unfoldable pub wake_tasks : List ℕ → Bool → Scheduler → Option Scheduler
wake_tasks [] success s = some s
wake_tasks (task ∷ tasks) success s =
    let (ok, s') = enqueue_runnable_task_locked task (set_wake_success task success s) in
    let rest = wake_tasks tasks success s' in if ok then rest else none

abbrev pub broadcast : List ℕ → Scheduler → Scheduler
broadcast [] s = s
broadcast (_ ∷ _) s = record s { broadcasts = s.broadcasts + 1 }

-- The table once the entry at `i` has become `e`.
abbrev pub put_entry : IoWaitTable → ℕ → IoWaitEntry → IoWaitTable
put_entry table i e = record table { entries = set table.entries i e }

abbrev pub drop_if_idle : IoWaitTable → ℕ → ℕ → IoWaitTable
drop_if_idle table i events =
    if events == event_none then io_wait_table_remove_entry table i else table

module _ {P : Type 0} (poller_set : ℤ → ℕ → ℕ → P → Bool × P) where
  -- The end of `wake_waiting_tasks_locked`: whether the poller takes the events that are left, and
  -- the scheduler once the tasks are pushed.
  abbrev pub woken_entry :
      Bool → Option Scheduler → P → ℕ → List ℕ → IoWaitEntry → Io P → Option (List ℕ × Io P)
  woken_entry false s p i tasks entry io = none
  woken_entry true none p i tasks entry io = none
  woken_entry true (some s) p i tasks entry io = some (
    tasks,
    record {
      sched = broadcast tasks s;
      io_waits = drop_if_idle (put_entry io.io_waits i entry) i (io_wait_entry_events entry);
      poller = p;
    },
  )

  -- `wake_waiting_tasks_locked` once the table is searched.
  unfoldable pub wake_found : ℤ → ℕ → Bool → Io P → Option ℕ → Option (List ℕ × Io P)
  wake_found fd ready_events wake_success io none = some ([], io)
  wake_found fd ready_events wake_success io (some i) =
      let entry = get_or io.io_waits.entries i reset_entry in
      let (tasks, entry') = take_ready entry ready_events in
      let (set_ok, p) =
        poller_set fd (io_wait_entry_events entry) (io_wait_entry_events entry') io.poller in
      woken_entry set_ok (wake_tasks tasks wake_success io.sched) p i tasks entry' io

  -- The tasks woken are the result, whose length is `wake_count`; `none` is the abort.
  unfoldable pub wake_waiting_tasks_locked : ℤ → ℕ → Bool → Io P → Option (List ℕ × Io P)
  unfolding wake_found
  wake_waiting_tasks_locked fd ready_events wake_success io =
      wake_found fd ready_events wake_success io (io_wait_table_find io.io_waits fd)

  -- The poller is woken if a worker blocks in it and tasks were woken.
  abbrev pub forgotten : Option (List ℕ × Io P) → Option (Io P)
  forgotten none = none
  forgotten (some (tasks, io)) =
      if ltb 0 (length tasks) && io.sched.poller_waiter_active
      then some (record io { sched = record io.sched { poller_wakes = io.sched.poller_wakes + 1 } })
      else some io

  -- The state after `worker_forget_fd`.
  unfoldable pub worker_forget_fd : ℤ → Io P → Option (Io P)
  unfolding wake_waiting_tasks_locked
  worker_forget_fd fd io =
      if is_negative fd
      then some io
      else forgotten (wake_waiting_tasks_locked fd (bit_or 32 event_read event_write) false io)

  -- The writes that park `task`.
  abbrev pub parked_task : ℤ → ℕ → Task → Task
  parked_task fd events t = record t {
    state = waiting_io;
    io_fd = fd;
    io_events = events;
    io_wake_success = false;
  }

  abbrev pub claim : ℕ → ℕ → IoWaitEntry → IoWaitEntry
  claim events task e = record e {
    read_task = if wants_read events then task else e.read_task;
    write_task = if wants_write events then task else e.write_task;
  }

  -- Whether another task waits for one of the events.
  abbrev pub is_taken : ℕ → IoWaitEntry → Bool
  is_taken events e =
      (wants_read events && not (e.read_task == null))
      || (wants_write events && not (e.write_task == null))

  -- `worker_park_current_on_io` once the entry at `i` is found.
  unfoldable pub park_on_entry : ℤ → ℕ → ℕ → ℕ → Io P → IoBegun × Io P
  park_on_entry fd events current i io =
      let entry = get_or io.io_waits.entries i reset_entry in
      let old_events = io_wait_entry_events entry in
      let (set_ok, p) = poller_set fd old_events (bit_or 32 old_events events) io.poller in
      if is_taken events entry
      then (wait_refused, io)
      else if not set_ok
      then (
        wait_refused,
        record io { io_waits = drop_if_idle io.io_waits i old_events; poller = p },
      )
      else (
        wait_parked,
        record {
          sched = record io.sched {
            tasks = update io.sched.tasks current (parked_task fd events (io.sched.tasks current));
          };
          io_waits = put_entry io.io_waits i (claim events current entry);
          poller = p;
        },
      )

  -- The look-up has given an entry, or none.
  abbrev pub park_found : Option ℕ → ℤ → ℕ → ℕ → Io P → IoBegun × Io P
  park_found none fd events current io = (wait_refused, io)
  park_found (some i) fd events current io = park_on_entry fd events current i io

  -- Up to the switch; `granted` is the answer of `calloc` if the table has to grow.
  unfoldable pub worker_park_current_on_io : Bool → ℤ → ℕ → ℕ → Io P → IoBegun × Io P
  unfolding park_on_entry
  worker_park_current_on_io granted fd events current io =
      if current == null || events == event_none || io.sched.shutdown_requested
      then (wait_refused, io)
      else (let (i, table) = io_wait_table_get_or_insert granted io.io_waits fd in
          park_found i fd events current (record io { io_waits = table }))

-- What a park that was not refused returns when the task is resumed.
unfoldable pub resume_from_io : ℕ → Scheduler → IoWaitResult
resume_from_io current s = if (s.tasks current).io_wake_success then wait_ready else wait_closed
