-- ===== src/TaskQueue/Fifo.antt =====
-- The run queue as a FIFO of task pointers.
use croutine.Prelude.{
  ℕ, zero, suc, ◌+◌, ◌*◌, ◌%◌, ◌≤◌, ◌<◌, ◌≡◌, refl, ap, ◌∙◌, Bool-cases, Bool, true, false, not,
  ◌&&◌, ◌||◌, ◌⊎◌, inl, inr, size_max, List, [], ◌∷◌, ◌++◌, arith, ltb, leb, ◌==◌, if◌then◌else◌,
  null, add_size, length, get_or, set, replicate, length-set, length-replicate, get_or-set_self,
  get_or-set_ne,
}
use native.Mathlib.Nat.{mod-eq_of_lt, add-zero}
use croutine.Ring.{window, length-window, window-head, window-nil, window-write, window-move}
use croutine.TaskQueue.{
  Tasks, TaskQueue, set_queued, copy_tasks, grown, task_queue_grow, append_task, task_queue_push,
  task_queue_pop, new_capacity_of,
}
use croutine.TaskQueue.Bounds.{IsValid, task_queue_grow-IsValid, grow-room}

-- The queued tasks, oldest first.
abbrev pub contents : TaskQueue → List ℕ
contents q = window (λ i. get_or q.tasks i null) q.capacity q.head q.count

pub length-contents : (q : TaskQueue) → length (contents q) ≡ q.count
length-contents q = length-window (λ i. get_or q.tasks i null) q.capacity q.head q.count

-- What the copying loop of `task_queue_grow` leaves in slot `j`.
get_or-copy_tasks :
    (q : TaskQueue) (i n j : ℕ) (new : List ℕ)
    → IsValid q
    → i + n ≤ q.capacity
    → i + n ≤ length new
    → get_or (copy_tasks q i n new) j null ≡ (
        if leb i j
        then if ltb j (i + n)
          then get_or q.tasks ((q.head + j) % q.capacity) null
          else get_or new j null
        else get_or new j null)
unfolding copy_tasks
get_or-copy_tasks q i zero j new v fits room = ground arith
get_or-copy_tasks q i (suc n) j new v fits room =
    let x = get_or q.tasks (add_size q.head i % q.capacity) null in
    ground (
      arith,
      get_or-copy_tasks q (i + 1) n j (set new i x) v,
      length-set new i x,
      get_or-set_self new i x null,
      get_or-set_ne new i j x null,
    )

grown-contents :
    (q : TaskQueue) (n : ℕ) → IsValid q → q.count ≤ n → contents (grown q n) ≡ contents q
unfolding grown
grown-contents q n v fits =
    window-move (λ i. get_or q.tasks i null) _ q.capacity n q.head 0 q.count (omega arith)
      (λ i hi.
        ground
          (arith, get_or-copy_tasks q 0 q.count i (replicate n null) v, length-replicate n null))
    ∙ ap (λ h. window (λ i. get_or q.tasks i null) q.capacity h q.count) start
  where
    start : (q.head + 0) % q.capacity ≡ q.head
    start = rw add-zero (mod-eq_of_lt v.head_in)

-- Growing keeps the queued tasks and their order.
pub task_queue_grow-contents :
    (granted : Bool) (q : TaskQueue)
    → IsValid q
    → contents (task_queue_grow granted q).1 ≡ contents q
unfolding task_queue_grow
task_queue_grow-contents granted q v = ground (arith, grown-contents q (new_capacity_of q) v)

append_task-contents :
    (q : TaskQueue) (ts : Tasks) (task : ℕ)
    → IsValid q
    → q.count < q.capacity
    → contents (append_task q ts task).1 ≡ contents q ++ task ∷ []
unfolding append_task
append_task-contents q ts task v room =
    let no_wrap : add_size q.count 1 ≡ suc q.count = omega arith in
    rw no_wrap (
      window-write (λ i. get_or q.tasks i null) (λ i. get_or (set q.tasks q.tail task) i null) task
        q.capacity q.count q.head q.tail v.head_in room v.tail_at
        (get_or-set_self q.tasks q.tail task null (omega arith))
        (λ j hj ne. get_or-set_ne q.tasks q.tail j task null ne))

append_task-marks :
    (q : TaskQueue) (ts : Tasks) (task : ℕ)
    → ((append_task q ts task).0 ≡ true) × ((append_task q ts task).2 ≡ set_queued ts task true)
unfolding append_task
append_task-marks q ts task = (refl, refl)

grow_fails :
    (granted : Bool) (q : TaskQueue)
    → (task_queue_grow granted q).0 ≡ false
    → (task_queue_grow granted q).1 ≡ q
unfolding task_queue_grow
grow_fails granted q h = ground arith

-- Whether a push adds the task: it reports success, and the task was not queued before.
abbrev pub adds : Bool → Bool → Bool
adds ok queued = ok && not queued

-- On a valid ring, `task_queue_push` appends the task to the queue and marks it exactly if it
-- reports success and the task was not queued; otherwise the queued tasks and the marks stay as
-- they are.
pub task_queue_push-contents :
    (granted : Bool) (q : TaskQueue) (ts : Tasks) (task : ℕ)
    → IsValid q
    → let (ok, q', ts') = task_queue_push granted q ts task in
      (contents q' ≡ (if adds ok (ts task).queued then contents q ++ task ∷ [] else contents q))
      × (ts' ≡ (if adds ok (ts task).queued then set_queued ts task true else ts))
unfolding task_queue_push
task_queue_push-contents granted q ts task v = ground (
  arith,
  grow_fails granted q,
  grow-room granted q v,
  task_queue_grow-IsValid granted q v,
  task_queue_grow-contents granted q v,
  append_task-marks q ts task,
  append_task-marks (task_queue_grow granted q).1 ts task,
  append_task-contents q ts task v,
  append_task-contents (task_queue_grow granted q).1 ts task,
)

-- On a valid ring, `task_queue_push` fails exactly if it is given no task, or if the task is not
-- queued, the ring is full, and either doubling it overflows `size_t` or the allocator refuses.
pub task_queue_push-fails :
    (granted : Bool) (q : TaskQueue) (ts : Tasks) (task : ℕ)
    → IsValid q
    → (task_queue_push granted q ts task).0
      ≡ not (
          task == null
          || (not (ts task).queued
              && q.count == q.capacity
              && not (granted && leb (q.capacity * 2 * 8) size_max)))
unfolding task_queue_push task_queue_grow append_task
task_queue_push-fails granted q ts task v = ground arith

-- On a valid ring, `task_queue_pop` on an empty queue reports so and changes nothing; else it
-- hands out the oldest task, drops it from the queue and clears its mark.
pub task_queue_pop-contents :
    (q : TaskQueue) (ts : Tasks)
    → IsValid q
    → let (ok, task, q', ts') = task_queue_pop q ts in
      ((ok ≡ false) × (contents q ≡ []) × (q' ≡ q) × (ts' ≡ ts))
      ⊎ ((ok ≡ true) × (contents q ≡ task ∷ contents q') × (ts' ≡ set_queued ts task false))
unfolding task_queue_pop
task_queue_pop-contents q ts v = elim (Bool-cases (q.count == 0)) [
  | inl e ↦ inl (
    ground arith,
    window-nil slot q.capacity q.head q.count (ground arith),
    ground arith,
    ground arith,
  )
  | inr ne ↦
      inr (ground arith, ground (arith, window-head slot q.capacity q.head q.count), ground arith)
]
  where
    slot : ℕ → ℕ
    slot i = get_or q.tasks i null
