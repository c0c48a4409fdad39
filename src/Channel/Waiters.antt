-- ===== src/Channel/Waiters.antt =====
-- The wake helpers of src/channel.c. A loop over a wait queue runs on fuel.
pub mod Pop
pub mod Complete
use croutine.Prelude.{
  ℕ, zero, suc, ◌+◌, ◌-◌, ◌%◌, ◌^◌, ℤ, pos, negsuc, Bool, true, false, not, ◌&&◌, ◌||◌, Option,
  none, some, ltb, leb, ◌==◌, if◌then◌else◌, null, update,
}
use croutine.WaitQueue.{Store, WaitQueue, wait_queue_pop_head}
use croutine.Scheduler.{Scheduler, worker_wake_task_locked}
use croutine.Channel.State.{
  WaiterKind, regular, select, SelectOp, send, recv, SelectStatus, Waiter, Channel, SelectState,
  World, Run, ok, failed, out_of_fuel, Cmd, pure, gets, modify, ◌>>=◌, ◌>>◌, set_channel,
  set_memory,
}
use croutine.Channel.Buffer.{copy_value, buffer_push}

-- `&channel->send_waiters` or `&channel->recv_waiters`
abbrev pub queue : SelectOp → Channel → WaitQueue
queue send ch = ch.send_waiters
queue recv ch = ch.recv_waiters

abbrev pub set_queue : SelectOp → WaitQueue → Channel → Channel
set_queue send q ch = record ch { send_waiters = q }
set_queue recv q ch = record ch { recv_waiters = q }

abbrev pub is_select : WaiterKind → Bool
is_select select = true
is_select regular = false

-- A select waiter whose select has fired through another case.
abbrev pub is_done : World → ℕ → Bool
is_done w x =
    let waiter = w.waiters x in
    is_select waiter.kind && not (waiter.state == null) && (w.selects waiter.state).done

-- The loop of `pop_live_waiter_locked`; `none` where the fuel runs out.
unfoldable pub pop_live : ℕ → (ℕ → Bool) → WaitQueue → Store → Option (ℕ × WaitQueue × Store)
pop_live zero done q ls = none
pop_live (suc fuel) done q ls =
    let (x, q', ls') = wait_queue_pop_head q ls in
    let rest = pop_live fuel done q' ls' in
    if x == null then some (null, q', ls') else if done x then rest else some (x, q', ls')

-- Puts a changed wait queue back.
abbrev pub put_queue : SelectOp → ℕ → WaitQueue → Store → World → World
put_queue side c q ls w = record w {
  channels = update w.channels c (set_queue side q (w.channels c));
  links = ls;
}

unfoldable pub pop_live_waiter_locked : ℕ → SelectOp → ℕ → Cmd ℕ
pop_live_waiter_locked fuel side c w =
    elim (pop_live fuel (is_done w) (queue side (w.channels c)) w.links) [
      | none ↦ out_of_fuel
      | some (x, q, ls) ↦ ok x (put_queue side c q ls w)
    ]

-- `worker_wake_task_locked(task, success)`, with the abort of its callers if it fails
unfoldable pub wake_or_fail : ℕ → Bool → Cmd (Unit {0})
wake_or_fail task success w =
    let (woken, s) = worker_wake_task_locked task success w.sched in
    if woken then ok tt (record w { sched = s }) else failed

-- `(int32_t)n` of a `uint32_t`
abbrev pub int32 : ℕ → ℤ
int32 n = if ltb n (2 ^ 31) then pos n else negsuc (2 ^ 32 - n - 1)

-- The writes of `complete_waiter_locked` to the shared state of a select.
unfoldable pub record_choice : Waiter → SelectStatus → World → World
record_choice x status w = record w {
  selects =
      if is_select x.kind
      then update w.selects x.state
          (record { done = true; chosen_index = int32 x.case_index; chosen_status = status })
      else w.selects;
}

unfoldable pub complete_waiter_locked : ℕ → SelectStatus → Cmd (Unit {0})
unfolding record_choice
complete_waiter_locked x status w =
    wake_or_fail (w.waiters x).task true (record_choice (w.waiters x) status w)

-- `copy_value(dst, src, elem_size)` between two objects in memory
unfoldable pub copy_object : ℕ → ℕ → ℕ → Cmd (Unit {0})
copy_object dst src len w = ok tt (set_memory w dst (copy_value (w.memory dst) (w.memory src) len))

unfoldable pub wake_waiting_receiver_locked : ℕ → ℕ → ℕ → Cmd Bool
wake_waiting_receiver_locked fuel c value = do
  x ← pop_live_waiter_locked fuel recv c
  if x == null then pure false else do
    receiver ← gets λ w. w.waiters x
    elem_size ← gets λ w. (w.channels c).elem_size
    copy_object receiver.value_slot value elem_size
    complete_waiter_locked x SelectStatus.value
    pure true

unfoldable pub wake_waiting_sender_direct_locked : ℕ → ℕ → ℕ → Cmd Bool
wake_waiting_sender_direct_locked fuel c out = do
  x ← pop_live_waiter_locked fuel send c
  if x == null then pure false else do
    sender ← gets λ w. w.waiters x
    elem_size ← gets λ w. (w.channels c).elem_size
    copy_object out sender.value_slot elem_size
    complete_waiter_locked x SelectStatus.sent
    pure true

-- `buffer_push(channel, value)`
unfoldable pub push_value : ℕ → ℕ → Cmd (Unit {0})
push_value c value w = ok tt (set_channel w c (buffer_push (w.channels c) (w.memory value)))

unfoldable pub buffer_one_waiting_sender_locked : ℕ → ℕ → Cmd Bool
buffer_one_waiting_sender_locked fuel c = do
  ch ← gets λ w. w.channels c
  if ch.capacity == 0 || leb ch.capacity ch.len then pure false else do
    x ← pop_live_waiter_locked fuel send c
    if x == null then pure false else do
      sender ← gets λ w. w.waiters x
      push_value c sender.value_slot
      complete_waiter_locked x SelectStatus.sent
      pure true

-- `wait_queue_pop_head(queue)`
unfoldable pub pop_head : SelectOp → ℕ → Cmd ℕ
pop_head side c w =
    let (x, q, ls) = wait_queue_pop_head (queue side (w.channels c)) w.links in
    ok x (put_queue side c q ls w)

-- The body of the loop of `wake_all_as_closed_locked`.
unfoldable pub cancel_waiter : ℕ → Cmd (Unit {0})
cancel_waiter x w =
    let waiter = w.waiters x in
    if is_select waiter.kind
    then if not (waiter.state == null) && not (w.selects waiter.state).done
      then complete_waiter_locked x SelectStatus.closed w
      else ok tt w
    else wake_or_fail waiter.task false w

unfoldable pub wake_all_as_closed_locked : ℕ → SelectOp → ℕ → Cmd (Unit {0})
wake_all_as_closed_locked zero side c = λ w. out_of_fuel
wake_all_as_closed_locked (suc fuel) side c = do
  x ← pop_head side c
  if x == null then pure tt else do cancel_waiter x; wake_all_as_closed_locked fuel side c
