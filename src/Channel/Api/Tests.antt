-- ===== src/Channel/Api/Tests.antt =====
-- Tests of the calls that park.
use croutine.Prelude.{refl, [], arith}
use croutine.Channel.State.{Returns}
use croutine.Channel.Samples.{drained, drained-IsChannel, full, full-IsChannel}
use croutine.Channel.Api.{croutine_channel_send, croutine_channel_recv}
use croutine.Channel.Api.Park.{
  ReceiverParked, SenderParked, croutine_channel_recv-ReceiverParked,
  croutine_channel_send-SenderParked,
}

-- Task 20 receives into the object at 40, with its waiter at 50.
croutine_channel_recv-ReceiverParked_example :
    Returns
      (ReceiverParked 1 1 40 20 50 drained [] [] drained-IsChannel
        (omega arith)
        refl
        (ground arith)
        (ground arith)
        refl)
      (croutine_channel_recv 1 1 40 20 50 drained)
croutine_channel_recv-ReceiverParked_example =
    croutine_channel_recv-ReceiverParked 1 1 40 20 50 drained [] [] drained-IsChannel (omega arith)
      refl (ground arith) (ground arith) refl (ground arith) (ground arith) refl refl refl

croutine_channel_send-SenderParked_example :
    Returns
      (SenderParked 1 1 40 20 50 full [] [] full-IsChannel
        (omega arith)
        refl
        refl
        refl
        (ground arith)
        (ground arith)
        refl)
      (croutine_channel_send 1 1 40 20 50 full)
croutine_channel_send-SenderParked_example =
    croutine_channel_send-SenderParked 1 1 40 20 50 full [] [] full-IsChannel (omega arith) refl
      refl refl (ground arith) (ground arith) refl (ground arith) (ground arith) refl
