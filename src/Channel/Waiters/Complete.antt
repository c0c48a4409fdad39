-- ===== src/Channel/Waiters/Complete.antt =====
-- Completing a waiter: `complete_waiter_locked` and the hand-overs of src/channel.c.
use croutine.Prelude.{ℕ, ◌≡◌, ◌≢◌, refl, ap, ◌∙◌, Bool, true, false, arith, ◌==◌, null}
use croutine.Task.{waiting_channel}
use croutine.Scheduler.{Scheduler, worker_wake_task_locked}
use croutine.Scheduler.Wake.{IsScheduler, HasRoom, Woken, worker_wake-Woken}
use croutine.Channel.State.{send, recv, SelectStatus, Waiter, World, ok, set_memory}
use croutine.Channel.Buffer.{copy_value}
use croutine.Channel.Waiters.{
  wake_or_fail, record_choice, complete_waiter_locked, copy_object, wake_waiting_receiver_locked,
  wake_waiting_sender_direct_locked, pop_live_waiter_locked,
}

-- The task of waiter `x` is parked on a channel, and the scheduler can take it back.
pub record CanWake (w : World) (x : ℕ) : Type 0 where
  pub scheduler : IsScheduler w.sched
  pub room : HasRoom w.sched
  pub task : (w.waiters x).task ≢ null
  pub waits : (w.sched.tasks (w.waiters x).task).state ≡ waiting_channel

-- The scheduler after the task of waiter `x` was woken.
abbrev pub woken_sched : World → ℕ → Bool → Scheduler
woken_sched w x success = (worker_wake_task_locked (w.waiters x).task success w.sched).1

pub woken_sched-Woken :
    (w : World) (x : ℕ) (success : Bool)
    → CanWake w x
    → Woken w.sched (w.waiters x).task success (true, woken_sched w x success)
woken_sched-Woken w x success c =
    let k =
      worker_wake-Woken (w.waiters x).task success w.sched c.scheduler c.room c.task c.waits in
    (refl, k.1, k.2, k.3, k.4, k.5)

record_choice-sched :
    (x : Waiter) (status : SelectStatus) (w : World) → (record_choice x status w).sched ≡ w.sched
unfolding record_choice
record_choice-sched x status w = ground arith

pub wake_or_fail-ok :
    (w : World) (task : ℕ) (success : Bool)
    → (worker_wake_task_locked task success w.sched).0 ≡ true
    → wake_or_fail task success w
      ≡ ok tt (record w { sched = (worker_wake_task_locked task success w.sched).1 })
unfolding wake_or_fail
wake_or_fail-ok w task success woken = ground arith

-- Completing a waiter whose task is parked cannot abort: the task is woken with success, and a
-- select learns which of its cases fired.
pub complete_waiter-ok :
    (w : World) (x : ℕ) (status : SelectStatus)
    → CanWake w x
    → complete_waiter_locked x status w
      ≡ ok tt (record (record_choice (w.waiters x) status w) { sched = woken_sched w x true })
unfolding complete_waiter_locked
complete_waiter-ok w x status c =
    let t = (w.waiters x).task in
    let chosen = record_choice (w.waiters x) status w in
    let same : chosen.sched ≡ w.sched = record_choice-sched (w.waiters x) status w in
    let woken = worker_wake-Woken t true w.sched c.scheduler c.room c.task c.waits in
    let wakes : (worker_wake_task_locked t true chosen.sched).0 ≡ true =
      ap (λ s. (worker_wake_task_locked t true s).0) same ∙ woken.0 in
    wake_or_fail-ok chosen t true wakes
    ∙ ap (λ s. ok tt (record chosen { sched = (worker_wake_task_locked t true s).1 })) same

-- What a hand-over leaves behind, once waiter `x` was popped: `dst` holds the bytes of `src`, and
-- the waiter is complete.
abbrev pub handed_over : World → ℕ → ℕ → ℕ → ℕ → SelectStatus → World
handed_over w c x dst src status =
    let w' = set_memory w dst (copy_value (w.memory dst) (w.memory src) (w.channels c).elem_size) in
    record (record_choice (w.waiters x) status w') { sched = woken_sched w x true }

module _ (fuel c : ℕ) (w w' : World) (x : ℕ) (ne : x ≢ null) where
  -- With a live receiver `wake_waiting_receiver_locked` copies the value into its slot.
  pub wake_receiver-ok :
      (value : ℕ)
      → pop_live_waiter_locked fuel recv c w ≡ ok x w'
      → CanWake w' x
      → wake_waiting_receiver_locked fuel c value w
        ≡ ok true (handed_over w' c x (w'.waiters x).value_slot value SelectStatus.value)
  unfolding wake_waiting_receiver_locked copy_object
  wake_receiver-ok value popped can =
      let filled : (x == null) ≡ false = ground (arith, ne) in
      let dst = (w'.waiters x).value_slot in
      let copied =
        set_memory w' dst
          (copy_value (w'.memory dst) (w'.memory value) (w'.channels c).elem_size) in
      let same : CanWake copied x = record {
        scheduler = can.scheduler;
        room = can.room;
        task = can.task;
        waits = can.waits;
      } in
      rw (popped, filled, complete_waiter-ok copied x SelectStatus.value same)

  pub wake_sender-ok :
      (out : ℕ)
      → pop_live_waiter_locked fuel send c w ≡ ok x w'
      → CanWake w' x
      → wake_waiting_sender_direct_locked fuel c out w
        ≡ ok true (handed_over w' c x out (w'.waiters x).value_slot SelectStatus.sent)
  unfolding wake_waiting_sender_direct_locked copy_object
  wake_sender-ok out popped can =
      let filled : (x == null) ≡ false = ground (arith, ne) in
      let src = (w'.waiters x).value_slot in
      let copied =
        set_memory w' out (copy_value (w'.memory out) (w'.memory src) (w'.channels c).elem_size) in
      let same : CanWake copied x = record {
        scheduler = can.scheduler;
        room = can.room;
        task = can.task;
        waits = can.waits;
      } in
      rw (popped, filled, complete_waiter-ok copied x SelectStatus.sent same)
