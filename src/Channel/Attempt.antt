-- ===== src/Channel/Attempt.antt =====
-- `try_send_locked` and `try_recv_locked` of src/channel.c.
pub mod Send
pub mod Recv
mod Tests
use croutine.Prelude.{ℕ, Bool, true, false, ◌&&◌, ◌||◌, ltb, ◌==◌, if◌then◌else◌, null}
use croutine.Channel.State.{
  Channel, World, SendResult, send_ok, send_closed, would_block, RecvResult, recv_value, recv_empty,
  recv_closed, Run, ok, Cmd, pure, gets, modify, ◌>>=◌, ◌>>◌, set_channel, set_memory,
}
use croutine.Channel.Buffer.{buffer_pop}
use croutine.Channel.Waiters.{
  wake_waiting_receiver_locked, wake_waiting_sender_direct_locked, buffer_one_waiting_sender_locked,
  push_value,
}

-- The end of `try_send_locked`, where no receiver waits.
unfoldable pub send_to_buffer : ℕ → ℕ → Cmd SendResult
send_to_buffer c value w =
    let ch = w.channels c in
    if ltb 0 ch.capacity && ltb ch.len ch.capacity
    then (push_value c value >> pure send_ok) w
    else ok would_block w

unfoldable pub try_send_locked : ℕ → ℕ → ℕ → Cmd SendResult
unfolding send_to_buffer
try_send_locked fuel c value w =
    if (w.channels c).closed || w.sched.shutdown_requested
    then ok send_closed w
    else (do
      woken ← wake_waiting_receiver_locked fuel c value
      if woken then pure send_ok else send_to_buffer c value)
        w

-- `buffer_pop(channel, out)`
unfoldable pub pop_value : ℕ → ℕ → Cmd (Unit {0})
pop_value c out w =
    let (bytes, ch) = buffer_pop (w.channels c) (w.memory out) in
    ok tt (set_memory (set_channel w c ch) out bytes)

-- `if (!channel->closed) buffer_one_waiting_sender_locked(channel)`
unfoldable pub refill_buffer : ℕ → ℕ → Cmd Bool
refill_buffer fuel c w =
    if (w.channels c).closed then ok false w else buffer_one_waiting_sender_locked fuel c w

-- The end of `try_recv_locked`, where nothing is buffered and no sender waits.
unfoldable pub recv_nothing : ℕ → Cmd RecvResult
recv_nothing c w =
    if (w.channels c).closed || w.sched.shutdown_requested
    then ok recv_closed w
    else ok recv_empty w

unfoldable pub try_recv_locked : ℕ → ℕ → ℕ → Cmd RecvResult
unfolding recv_nothing
try_recv_locked fuel c out w =
    if ltb 0 (w.channels c).len
    then (pop_value c out >> (refill_buffer fuel c >>= λ _. pure recv_value)) w
    else (do
      woken ← wake_waiting_sender_direct_locked fuel c out
      if woken then pure recv_value else recv_nothing c)
        w
