-- ===== src/WorkerLoop/System/Safety.antt =====
-- In every runtime that is reached from a start no task is on two workers, and no task on a worker is
-- queued or waits in the table.
use croutine.Prelude.{
  ℕ, ◌≡◌, ◌≢◌, refl, sym, subst, Bool, true, ℤ, arith, ◌==◌, count, get_or, null, length-replicate,
  Bool-cases, inl, inr,
}
use croutine.TaskQueue.Fifo.{contents}
use croutine.IoWaits.{IoWaitTable, reset_entry, io_wait_table_init}
use croutine.IoWaits.Table.{IsTable}
use croutine.IoParking.Wake.{waits}
use croutine.WorkerLoop.System.{System, Reach, start, later, IsStart}
use croutine.WorkerLoop.Exclusive.{in_hand, held-is_free}
use croutine.WorkerLoop.Waiting.{AllWaiting, AllWaiting-at}
use croutine.WorkerLoop.Waiting.Wakes.{waits-Waits}
use croutine.IoWaits.Table.{tally-reset, is_used, is_for}
use croutine.Worker.Lifecycle.{initial_io_wait_capacity}
use croutine.WorkerLoop.Waiting.{AllWaiting-reset}
use croutine.WorkerLoop.System.Sound.{IsSound, Step-Sound}

module _ {P : Type 0} where
  start-Sound : (x : System P) → IsStart x → IsSound x
  unfolding io_wait_table_init
  start-Sound x s = record {
    exclusive = record {
      sched = s.sched;
      alone = λ v w t h. absurd (ground (arith, s.idle v t));
      held = λ v t h. absurd (ground (arith, s.idle v t));
    };
    good = subst IsTable (sym s.table) (
      length-replicate initial_io_wait_capacity reset_entry,
      sym (tally-reset is_used initial_io_wait_capacity refl),
      λ fd. ground (arith, tally-reset (is_for fd) initial_io_wait_capacity refl),
    );
    waiting =
        subst (λ (k : IoWaitTable). AllWaiting x.machine.world.sched.tasks k.entries) (sym s.table)
          (AllWaiting-reset x.machine.world.sched.tasks initial_io_wait_capacity);
  }

  -- No two workers have the same task in hand, and a task in hand stands neither in the run queue nor
  -- in the table of waiting tasks.
  abbrev pub Apart : System P → Type 0
  Apart x =
      ((v w t : ℕ) → in_hand (x.pc v) t ≡ true → in_hand (x.pc w) t ≡ true → v ≡ w)
      × ((v t : ℕ)
          → in_hand (x.pc v) t ≡ true
          → count t (contents x.machine.world.sched.runnable_tasks) ≡ 0)
      × ((v t i : ℕ)
          → t ≢ null
          → in_hand (x.pc v) t ≡ true
          → let e = get_or x.machine.io_waits.entries i reset_entry in
            e.in_use ≡ true → waits t e ≡ 0)

module _ {P : Type 0} {poller_set : ℤ → ℕ → ℕ → P → Bool × P} where
  Reach-Sound : {x y : System P} → Reach poller_set x y → IsStart x → IsSound y
  Reach-Sound start s = start-Sound _ s
  Reach-Sound (later r st) s = Step-Sound st (Reach-Sound r s)

  -- In every state that a runtime reaches from its start, by any interleaving of the steps of its
  -- workers, tasks and callers, with any poller: no two workers have the same task in hand, that
  -- is, run it or still have to requeue it or to clean it up; and a task in hand stands neither in
  -- the run queue nor in the table of waiting tasks. The steps assume that a block from the heap
  -- is no live task, that a task that ends is not `NULL`, and that the table has at most 2^62
  -- entries when a task parks on a descriptor.
  pub Reach-Apart : (x y : System P) → IsStart x → Reach poller_set x y → Apart y
  Reach-Apart x y s r =
      let v = Reach-Sound r s in
      let sched = y.machine.world.sched in
      (
        v.exclusive.alone,
        (λ w t h.
            ground (arith, v.exclusive.sched.flagged t, held-is_free sched y.pc w t v.exclusive h)),
        (λ w t i ne h used.
            (let e = get_or y.machine.io_waits.entries i reset_entry in
              let waiting = AllWaiting-at sched.tasks y.machine.io_waits.entries i v.waiting in
              elim (Bool-cases (waits t e == 0)) [
                | inl zero_ ↦ ground arith
                | inr some_ ↦
                    let parked = waits-Waits sched.tasks e t ne used waiting (ground arith) ne in
                    absurd (ground (arith, held-is_free sched y.pc w t v.exclusive h))
              ])),
      )
