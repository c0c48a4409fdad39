-- ===== src/Channel/Attempt/Tests.antt =====
-- Tests of the attempts to send and receive, on a channel of one-byte values.
use croutine.Prelude.{ℕ, ◌≡◌, refl, [], ◌∷◌, arith}
use croutine.WaitQueue.{Links, WaitQueue, empty_queue}
use croutine.WaitQueue.Lists.{IsQueue, SameOutside}
use croutine.Channel.State.{send, recv, send_ok, would_block, recv_empty, ok, Returns}
use croutine.Channel.Waiters.{put_queue, pop_live_waiter_locked}
use croutine.Channel.Waiters.Pop.{pop_live_waiter-first_live}
use croutine.Channel.Invariant.{IsChannel}
use croutine.Channel.Samples.{
  one_waiter, byte_channel, one_waiter-IsQueue, waiter-CanWake, sender_full, sender_full-IsChannel,
  sender_drained, sender_drained-IsChannel, receiver_waits, receiver_waits-IsChannel, drained,
  drained-IsChannel, full, full-IsChannel, closed_full, closed_full-IsChannel,
}
use croutine.Channel.Attempt.{try_send_locked, try_recv_locked}
use croutine.Channel.Attempt.Send.{
  HandedTo, Unchanged, try_send-receiver, try_send-buffer, try_send-would_block,
}
use croutine.Channel.Attempt.Recv.{
  Direct, Nothing, Oldest, Refilled, try_recv-sender, try_recv-Nothing, try_recv-closed,
  try_recv-Oldest, try_recv-refill,
}

try_recv-refill_example :
    Returns
      (Refilled 2 1 40 sender_full
        (10 ∷ [])
        []
        sender_full-IsChannel
        (omega arith)
        (omega arith)
        10
        [])
      (try_recv_locked 2 1 40 sender_full)
try_recv-refill_example =
    try_recv-refill 2 1 40 sender_full (10 ∷ []) [] sender_full-IsChannel (omega arith)
      (omega arith) 10 [] refl refl (waiter-CanWake send _) (ground arith) (omega arith)

try_send-receiver_example :
    Returns
      (λ out w'. (out ≡ send_ok) × IsChannel w' 1 [] [] × HandedTo receiver_waits w' 1 10 40)
      (try_send_locked 2 1 40 receiver_waits)
try_send-receiver_example =
    try_send-receiver 2 1 40 receiver_waits [] (10 ∷ []) receiver_waits-IsChannel (omega arith) refl
      refl 10 [] refl (waiter-CanWake recv _)

try_recv-sender_example :
    Returns
      (Direct 2 1 40 sender_drained (10 ∷ []) [] sender_drained-IsChannel (omega arith) 10 [])
      (try_recv_locked 2 1 40 sender_drained)
try_recv-sender_example =
    try_recv-sender 2 1 40 sender_drained (10 ∷ []) [] sender_drained-IsChannel (omega arith) 10 []
      refl refl (waiter-CanWake send _)

try_send-buffer_example :
    Returns
      (Unchanged 1 1 40 drained [] [] drained-IsChannel
        (omega arith)
        refl
        refl
        refl
        send_ok
        ((8 ∷ []) ∷ []))
      (try_send_locked 1 1 40 drained)
try_send-buffer_example =
    try_send-buffer 1 1 40 drained [] [] drained-IsChannel (omega arith) refl refl refl
      (omega arith) (omega arith)

try_send-would_block_example :
    Returns
      (Unchanged 1 1 40 full [] [] full-IsChannel
        (omega arith)
        refl
        refl
        refl
        would_block
        ((42 ∷ []) ∷ []))
      (try_send_locked 1 1 40 full)
try_send-would_block_example =
    try_send-would_block 1 1 40 full [] [] full-IsChannel (omega arith) refl refl refl refl

try_recv-Oldest_example :
    Returns
      (Oldest 1 1 40 full [] [] full-IsChannel (omega arith) (omega arith) [])
      (try_recv_locked 1 1 40 full)
try_recv-Oldest_example =
    try_recv-Oldest 1 1 40 full [] [] full-IsChannel (omega arith) (omega arith) refl refl

try_recv-Nothing_example :
    Returns
      (Nothing 1 1 40 drained [] [] drained-IsChannel (omega arith) recv_empty)
      (try_recv_locked 1 1 40 drained)
try_recv-Nothing_example =
    try_recv-Nothing 1 1 40 drained [] [] drained-IsChannel (omega arith) refl refl

pop_live_waiter-first_live_example :
    (q : WaitQueue) × (ls : (ℕ → Links)) × (pop_live_waiter_locked 2 send 1 sender_full
      ≡ ok 10 (put_queue send 1 q ls sender_full))
    × IsQueue ls 1 q []
    × SameOutside (10 ∷ []) sender_full.links ls
pop_live_waiter-first_live_example =
    pop_live_waiter-first_live 2 send 1 sender_full (10 ∷ [])
      (one_waiter-IsQueue send (byte_channel (42 ∷ []) 1 one_waiter empty_queue)) (omega arith)

try_recv-closed_example :
    Returns
      (Oldest 1 1 40 closed_full [] [] closed_full-IsChannel (omega arith) (omega arith) [])
      (try_recv_locked 1 1 40 closed_full)
try_recv-closed_example =
    try_recv-closed 1 1 40 closed_full [] [] closed_full-IsChannel (omega arith) (omega arith) refl
