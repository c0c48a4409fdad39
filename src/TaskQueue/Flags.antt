-- ===== src/TaskQueue/Flags.antt =====
-- The `queued` flags: they keep a task from standing in the run queue twice.
use croutine.Prelude.{
  ℕ, ◌≡◌, Bool, true, false, inl, inr, Bool-cases, List, [], ◌∷◌, ◌++◌, arith, if◌then◌else◌, count,
  count-append,
}
use croutine.TaskQueue.{Tasks, TaskQueue, set_queued, task_queue_push, task_queue_pop}
use croutine.TaskQueue.Bounds.{IsValid}
use croutine.TaskQueue.Fifo.{contents, adds, task_queue_push-contents, task_queue_pop-contents}

-- A flagged task stands in the queue once, every other task not at all.
abbrev pub IsFlagged : Tasks → List ℕ → Type 0
IsFlagged ts xs = (t : ℕ) → count t xs ≡ (if (ts t).queued then 1 else 0)

IsFlagged-append :
    (ts : Tasks) (xs : List ℕ) (task : ℕ)
    → IsFlagged ts xs
    → (ts task).queued ≡ false
    → IsFlagged (set_queued ts task true) (xs ++ task ∷ [])
IsFlagged-append ts xs task f free t = ground (arith, f t, count-append t xs (task ∷ []))

IsFlagged-tail :
    (ts : Tasks) (xs : List ℕ) (task : ℕ)
    → IsFlagged ts (task ∷ xs)
    → IsFlagged (set_queued ts task false) xs
IsFlagged-tail ts xs task f t = ground (arith, f t)

IsFlagged-adds :
    (ts : Tasks) (xs : List ℕ) (task : ℕ) (ok : Bool)
    → IsFlagged ts xs
    → IsFlagged
        (if adds ok (ts task).queued then set_queued ts task true else ts)
        (if adds ok (ts task).queued then xs ++ task ∷ [] else xs)
IsFlagged-adds ts xs task ok f = elim (Bool-cases (adds ok (ts task).queued)) [
  | inl e ↦ rw e (IsFlagged-append ts xs task f (ground arith))
  | inr e ↦ rw e f
]

-- On a valid ring where a task is marked exactly if it stands in the queue, and then once,
-- `task_queue_push` keeps it so, whatever it returns: no task is queued twice.
pub task_queue_push-IsFlagged :
    (granted : Bool) (q : TaskQueue) (ts : Tasks) (task : ℕ)
    → IsValid q
    → IsFlagged ts (contents q)
    → let (ok, q', ts') = task_queue_push granted q ts task in IsFlagged ts' (contents q')
task_queue_push-IsFlagged granted q ts task v f =
    let (ec, et) = task_queue_push-contents granted q ts task v in
    rw (ec, et) (IsFlagged-adds ts (contents q) task _ f)

-- On a valid ring where a task is marked exactly if it stands in the queue, and then once,
-- `task_queue_pop` keeps it so, whatever it returns.
pub task_queue_pop-IsFlagged :
    (q : TaskQueue) (ts : Tasks)
    → IsValid q
    → IsFlagged ts (contents q)
    → let (ok, task, q', ts') = task_queue_pop q ts in IsFlagged ts' (contents q')
task_queue_pop-IsFlagged q ts v f = elim (task_queue_pop-contents q ts v) [
  | inl (_, _, eq, et) ↦ rw (eq, et) f
  | inr (_, eq, et) ↦ rw et (IsFlagged-tail ts _ _ (rw eq at f))
]
