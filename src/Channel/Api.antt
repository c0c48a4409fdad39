-- ===== src/Channel/Api.antt =====
-- The operations of include/croutine/channel.h on one channel. A call runs up to the context switch
-- of a park as one step and goes on as a second step when the task is resumed; `current` is the
-- running task and `x` the address of the waiter on its stack.
pub mod Park
mod Tests
use croutine.Prelude.{ℕ, zero, suc, Bool, true, false, ◌||◌, ◌==◌, if◌then◌else◌, null, update}
use croutine.WaitQueue.{wait_queue_push_tail, wait_queue_unlink}
use croutine.Scheduler.{park_current_on_channel, resume_from_channel}
use croutine.Channel.State.{
  regular, SelectOp, send, recv, SendResult, send_ok, send_closed, would_block, RecvResult,
  recv_value, recv_empty, recv_closed, Waiter, World, ok, out_of_fuel, Cmd, pure, gets, modify,
  ◌>>=◌, ◌>>◌, set_channel,
}
use croutine.Channel.Waiters.{queue, put_queue, wake_all_as_closed_locked}
use croutine.Channel.Attempt.{try_send_locked, try_recv_locked}

-- How the first step of a call that may park ends: with a result; parked; or with a waiter in
-- place but the park refused.
pub data Begun (R : Type 0) : Type 0 where
  finished : R → Begun R
  parked : Begun R
  park_refused : Begun R

-- A regular waiter of `current`, linked last on one side of a channel.
unfoldable pub park_waiter : SelectOp → ℕ → ℕ → ℕ → ℕ → World → World
park_waiter side c value current x w =
    let waiter : Waiter = record {
      kind = regular;
      op = side;
      task = current;
      value_slot = value;
      state = null;
      case_index = 0;
    } in
    let (q, ls) = wait_queue_push_tail (queue side (w.channels c)) w.links x c in
    put_queue side c q ls (record w { waiters = update w.waiters x waiter })

-- `worker_park_current_on_channel_locked` up to the switch.
unfoldable pub park_current : {R : Type 0} → ℕ → Cmd (Begun R)
park_current current w =
    let (parks, s) = park_current_on_channel current w.sched in
    ok (if parks then parked else park_refused) (record w { sched = s })

-- What the call does with the result of its attempt.
unfoldable pub after_try_send : ℕ → ℕ → ℕ → ℕ → SendResult → Cmd (Begun SendResult)
unfolding park_waiter park_current
after_try_send c value current x send_ok w' = ok (finished send_ok) w'
after_try_send c value current x send_closed w' = ok (finished send_closed) w'
after_try_send c value current x would_block w' =
    if current == null
    then ok (finished send_closed) w'
    else park_current current (park_waiter send c value current x w')

unfoldable pub croutine_channel_send : ℕ → ℕ → ℕ → ℕ → ℕ → Cmd (Begun SendResult)
unfolding after_try_send
croutine_channel_send fuel c value current x w =
    if c == null || value == null
    then ok (finished send_closed) w
    else (try_send_locked fuel c value >>= after_try_send c value current x) w

-- What the call does with the result of its attempt.
unfoldable pub after_try_recv : ℕ → ℕ → ℕ → ℕ → RecvResult → Cmd (Begun RecvResult)
unfolding park_waiter park_current
after_try_recv c out current x recv_value w' = ok (finished recv_value) w'
after_try_recv c out current x recv_closed w' = ok (finished recv_closed) w'
after_try_recv c out current x recv_empty w' =
    if current == null
    then ok (finished recv_empty) w'
    else park_current current (park_waiter recv c out current x w')

unfoldable pub croutine_channel_recv : ℕ → ℕ → ℕ → ℕ → ℕ → Cmd (Begun RecvResult)
unfolding after_try_recv
croutine_channel_recv fuel c out current x w =
    if c == null || out == null
    then ok (finished recv_closed) w
    else (try_recv_locked fuel c out >>= after_try_recv c out current x) w

-- `if (waiter.channel) wait_queue_unlink(...)`
unfoldable pub unlink_waiter : SelectOp → ℕ → ℕ → World → World
unlink_waiter side c x w =
    if (w.links x).channel == null
    then w
    else (let (q, ls) = wait_queue_unlink (queue side (w.channels c)) w.links x in
        put_queue side c q ls w)

-- The second step of a send that parked.
unfoldable pub send_resumed : ℕ → ℕ → ℕ → Cmd SendResult
unfolding unlink_waiter
send_resumed c current x w =
    if resume_from_channel current w.sched
    then ok send_ok w
    else ok send_closed (unlink_waiter send c x w)

-- The second step of a send whose park was refused.
unfoldable pub send_refused : ℕ → ℕ → Cmd SendResult
unfolding unlink_waiter
send_refused c x w = ok send_closed (unlink_waiter send c x w)

unfoldable pub recv_resumed : ℕ → ℕ → ℕ → Cmd RecvResult
unfolding unlink_waiter
recv_resumed c current x w =
    if resume_from_channel current w.sched
    then ok recv_value w
    else ok recv_closed (unlink_waiter recv c x w)

unfoldable pub recv_refused : ℕ → ℕ → Cmd RecvResult
unfolding unlink_waiter
recv_refused c x w = ok recv_closed (unlink_waiter recv c x w)

abbrev pub is_send_ok : SendResult → Bool
is_send_ok send_ok = true
is_send_ok _ = false

abbrev pub is_recv_value : RecvResult → Bool
is_recv_value recv_value = true
is_recv_value _ = false

unfoldable pub croutine_channel_try_send : ℕ → ℕ → ℕ → Cmd Bool
croutine_channel_try_send fuel c value w =
    if c == null || value == null
    then ok false w
    else (try_send_locked fuel c value >>= λ result. pure (is_send_ok result)) w

unfoldable pub croutine_channel_try_recv : ℕ → ℕ → ℕ → Cmd Bool
croutine_channel_try_recv fuel c out w =
    if c == null || out == null
    then ok false w
    else (try_recv_locked fuel c out >>= λ result. pure (is_recv_value result)) w

unfoldable pub channel_close_locked : ℕ → ℕ → Cmd (Unit {0})
channel_close_locked fuel c w =
    if (w.channels c).closed
    then ok tt w
    else (do
      modify λ w'. set_channel w' c (record (w'.channels c) { closed = true })
      wake_all_as_closed_locked fuel send c
      wake_all_as_closed_locked fuel recv c)
        w

unfoldable pub croutine_channel_close : ℕ → ℕ → Cmd (Unit {0})
unfolding channel_close_locked
croutine_channel_close fuel c w = if c == null then ok tt w else channel_close_locked fuel c w

-- The loop over the registry from `channel` on; `rounds` bounds its length.
unfoldable pub shutdown_from : ℕ → ℕ → ℕ → Cmd (Unit {0})
shutdown_from fuel zero channel = λ w. out_of_fuel
shutdown_from fuel (suc rounds) channel = if channel == null then pure tt else do
  channel_close_locked fuel channel
  next ← gets λ w. (w.channels channel).registry_next
  shutdown_from fuel rounds next

unfoldable pub croutine_channel_shutdown_all_locked : ℕ → ℕ → Cmd (Unit {0})
unfolding shutdown_from
croutine_channel_shutdown_all_locked fuel rounds w = shutdown_from fuel rounds w.channel_registry w

unfoldable pub croutine_channel_is_closed : ℕ → World → Bool
croutine_channel_is_closed c w = if c == null then true else (w.channels c).closed
