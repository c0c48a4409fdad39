-- ===== src/TaskQueue/Bounds.antt =====
-- The representation invariant of `struct TaskQueue`: no index out of range and no wrap.
use croutine.Prelude.{
  ℕ, zero, suc, ◌+◌, ◌-◌, ◌*◌, ◌%◌, ◌^◌, ◌≤◌, ◌<◌, ◌≡◌, refl, Bool, true, List, arith, null,
  add_size, length, get_or, set, replicate, length-set, length-replicate,
}
use native.Mathlib.Nat.{mod-eq_of_lt, mod-add-mod}
use croutine.TaskQueue.{
  Tasks, TaskQueue, copy_tasks, task_queue_grow, task_queue_init, append_task, task_queue_push,
  task_queue_pop, new_capacity_of,
}

-- The live part of the ring starts at `head` and ends before `tail`; the array has `capacity`
-- slots, as many as `size_t` can address.
pub record IsValid (q : TaskQueue) : Type 0 where
  pub storage : length q.tasks ≡ q.capacity
  pub some_slot : 0 < q.capacity
  pub addressable : q.capacity * 8 < 2 ^ 64
  pub head_in : q.head < q.capacity
  pub count_in : q.count ≤ q.capacity
  pub tail_at : q.tail ≡ (q.head + q.count) % q.capacity

pub length-copy_tasks :
    (q : TaskQueue) (i n : ℕ) (new : List ℕ) → length (copy_tasks q i n new) ≡ length new
unfolding copy_tasks
length-copy_tasks q i zero new = refl
length-copy_tasks q i (suc n) new =
    let x = get_or q.tasks (add_size q.head i % q.capacity) null in
    omega (arith, length-copy_tasks q (i + 1) n (set new i x), length-set new i x)

pub task_queue_init-IsValid :
    (granted : Bool) (q : TaskQueue) (capacity : ℕ)
    → (task_queue_init granted q capacity).0 ≡ true
    → IsValid (task_queue_init granted q capacity).1
unfolding task_queue_init
task_queue_init-IsValid granted q capacity h =
    ground (arith, length-replicate capacity null, mod-eq_of_lt {n = 0} {m = capacity})

pub task_queue_grow-IsValid :
    (granted : Bool) (q : TaskQueue) → IsValid q → IsValid (task_queue_grow granted q).1
unfolding task_queue_grow
task_queue_grow-IsValid granted q v = ground (
  arith,
  length-copy_tasks q 0 q.count (replicate (new_capacity_of q) null),
  length-replicate (new_capacity_of q) null,
  mod-eq_of_lt {n = q.count} {m = new_capacity_of q},
)

append_task-IsValid :
    (q : TaskQueue) (ts : Tasks) (task : ℕ)
    → IsValid q
    → q.count < q.capacity
    → IsValid (append_task q ts task).1
unfolding append_task
append_task-IsValid q ts task v room =
    ground (arith, length-set q.tasks q.tail task, mod-add-mod (q.head + q.count) q.capacity 1)

-- A ring that has grown has room.
pub grow-room :
    (granted : Bool) (q : TaskQueue)
    → IsValid q
    → (task_queue_grow granted q).0 ≡ true
    → (task_queue_grow granted q).1.count < (task_queue_grow granted q).1.capacity
unfolding task_queue_grow
grow-room granted q v ok = ground arith

-- Whatever it returns, `task_queue_push` keeps a valid ring valid: every index stays in range and
-- the size addressable.
pub task_queue_push-IsValid :
    (granted : Bool) (q : TaskQueue) (ts : Tasks) (task : ℕ)
    → IsValid q
    → IsValid (task_queue_push granted q ts task).1
unfolding task_queue_push
task_queue_push-IsValid granted q ts task v = ground (
  arith,
  task_queue_grow-IsValid granted q v,
  grow-room granted q v,
  append_task-IsValid q ts task v,
  append_task-IsValid (task_queue_grow granted q).1 ts task,
)

pub task_queue_pop-IsValid :
    (q : TaskQueue) (ts : Tasks) → IsValid q → IsValid (task_queue_pop q ts).2
unfolding task_queue_pop
task_queue_pop-IsValid q ts v = ground (arith, mod-add-mod (q.head + 1) q.capacity (q.count - 1))
