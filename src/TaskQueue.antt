-- ===== src/TaskQueue.antt =====
-- `struct TaskQueue` of src/internal/task.h and its operations in src/task.c: a ring of task
-- pointers that grows. The tasks' `queued` flags live in the task store, which the operations
-- that write them return.
pub mod Bounds
pub mod Fifo
pub mod Flags
mod Tests
use croutine.Prelude.{
  ℕ, zero, suc, ◌+◌, ◌-◌, ◌*◌, ◌/◌, ◌%◌, Bool, true, false, ◌&&◌, ◌||◌, List, [], ltb, leb, ◌==◌,
  if◌then◌else◌, null, update, size_max, add_size, get_or, set, replicate,
}
use croutine.Task.{Task}

abbrev pub Tasks : Type 0
Tasks = ℕ → Task

-- Writes one task's `queued` flag.
abbrev pub set_queued : Tasks → ℕ → Bool → Tasks
set_queued ts task b = update ts task (record (ts task) { queued = b })

pub record TaskQueue : Type 0 where
  pub tasks : List ℕ
  pub capacity : ℕ
  pub head : ℕ
  pub tail : ℕ
  pub count : ℕ

-- `calloc(n, size)`: `granted` is the allocator's choice, but a product that overflows is refused.
abbrev pub calloc : Bool → ℕ → ℕ → Bool
calloc granted n size = granted && leb (n * size) size_max

-- sizeof(struct Task *)
abbrev pub pointer_size : ℕ
pointer_size = 8

pub next_index : TaskQueue → ℕ → ℕ
next_index q index = add_size index 1 % q.capacity

-- `for (i = 0; i < queue->count; ++i)`: `n` rounds are left.
pub copy_tasks : TaskQueue → ℕ → ℕ → List ℕ → List ℕ
copy_tasks q i zero new_tasks = new_tasks
copy_tasks q i (suc n) new_tasks =
    copy_tasks q (i + 1) n (set new_tasks i (get_or q.tasks (add_size q.head i % q.capacity) null))

-- The new ring, once its memory is there.
pub grown : TaskQueue → ℕ → TaskQueue
unfolding copy_tasks
grown q new_capacity = record {
  tasks = copy_tasks q 0 q.count (replicate new_capacity null);
  capacity = new_capacity;
  head = 0;
  tail = q.count;
  count = q.count;
}

abbrev pub new_capacity_of : TaskQueue → ℕ
new_capacity_of q = if q.capacity == 0 then 1 else q.capacity * 2

pub task_queue_grow : Bool → TaskQueue → Bool × TaskQueue
unfolding grown
task_queue_grow granted q =
    if ltb (size_max / 2) q.capacity
    then (false, q)
    else if calloc granted (new_capacity_of q) pointer_size
    then (true, grown q (new_capacity_of q))
    else (false, q)

pub task_queue_init : Bool → TaskQueue → ℕ → Bool × TaskQueue
task_queue_init granted q capacity =
    if capacity == 0
    then (false, q)
    else if calloc granted capacity pointer_size
    then (
      true,
      record {
        tasks = replicate capacity null;
        capacity = capacity;
        head = 0;
        tail = 0;
        count = 0;
      },
    )
    else (false, record { tasks = []; capacity = 0; head = 0; tail = 0; count = 0 })

-- The queue is left without memory.
unfoldable pub task_queue_deinit : TaskQueue → TaskQueue
task_queue_deinit q = record { tasks = []; capacity = 0; head = 0; tail = 0; count = 0 }

unfoldable pub task_queue_is_empty : TaskQueue → Bool
task_queue_is_empty q = if q.capacity == 0 then true else q.count == 0

pub task_queue_is_full : TaskQueue → Bool
task_queue_is_full q = if q.capacity == 0 then false else q.count == q.capacity

-- The part of `task_queue_push` behind the growth.
unfoldable pub append_task : TaskQueue → Tasks → ℕ → Bool × TaskQueue × Tasks
unfolding next_index
append_task q ts task = (
  true,
  record q {
    tasks = set q.tasks q.tail task;
    tail = next_index q q.tail;
    count = add_size q.count 1;
  },
  set_queued ts task true,
)

-- `granted` is what the allocator says if the ring has to grow.
unfoldable pub task_queue_push : Bool → TaskQueue → Tasks → ℕ → Bool × TaskQueue × Tasks
unfolding task_queue_is_full
task_queue_push granted q ts task =
    if task == null || q.capacity == 0
    then (false, q, ts)
    else if (ts task).queued
    then (true, q, ts)
    else if task_queue_is_full q
    then (let (ok, q') = task_queue_grow granted q in
        if ok then append_task q' ts task else (false, q', ts))
    else append_task q ts task

-- The popped task beside the status; `null` where nothing is popped.
unfoldable pub task_queue_pop : TaskQueue → Tasks → Bool × ℕ × TaskQueue × Tasks
unfolding next_index task_queue_is_empty
task_queue_pop q ts =
    if task_queue_is_empty q
    then (false, null, q, ts)
    else let task = get_or q.tasks q.head null in
      (
        true,
        task,
        record q { head = next_index q q.head; count = q.count - 1 },
        set_queued ts task false,
      )
