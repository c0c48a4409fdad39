-- ===== src/Channel/Samples.antt =====
-- Small channels of one-byte values, on which the tests run.
use croutine.Prelude.{
  ℕ, refl, true, false, List, [], ◌∷◌, arith, ◌==◌, if◌then◌else◌, null, minus_one,
}
use croutine.WaitQueue.{no_links, WaitQueue, empty_queue}
use croutine.WaitQueue.Lists.{IsQueue}
use croutine.Samples.{parked_scheduler, parked_scheduler-IsScheduler, parked_scheduler-HasRoom}
use croutine.Channel.State.{regular, SelectOp, send, recv, SelectStatus, Channel, World}
use croutine.Channel.Buffer.Fifo.{IsBuffer}
use croutine.Channel.Waiters.Complete.{CanWake}
use croutine.Channel.Invariant.{IsChannel}

-- Waiter 10, of task 20 with the object at 30, may wait.
abbrev pub one_waiter : WaitQueue
one_waiter = record { head = 10; tail = 10 }

abbrev pub byte_channel : List ℕ → ℕ → WaitQueue → WaitQueue → Channel
byte_channel buffer len ss rs = record {
  elem_size = 1;
  capacity = 1;
  closed = false;
  buffer = buffer;
  len = len;
  head = 0;
  tail = 0;
  send_waiters = ss;
  recv_waiters = rs;
  registry_prev = null;
  registry_next = null;
}

abbrev pub byte_world : SelectOp → Channel → World
byte_world side ch = record {
  channels = λ _. ch;
  channel_registry = 1;
  links = λ a. if a == 10 then record { prev = null; next = null; channel = 1 } else no_links;
  waiters = λ _. record {
    kind = regular;
    op = side;
    task = 20;
    value_slot = 30;
    state = null;
    case_index = 0;
  };
  selects =
      λ _. record { done = false; chosen_index = minus_one; chosen_status = SelectStatus.value };
  memory = λ p. if p == 30 then 7 ∷ [] else if p == 40 then 8 ∷ [] else 0 ∷ [];
  sched = parked_scheduler;
}

full_bytes-IsBuffer : (ss rs : WaitQueue) → IsBuffer (byte_channel (42 ∷ []) 1 ss rs)
full_bytes-IsBuffer ss rs = record {
  fits = omega arith;
  addressable = omega arith;
  countable = omega arith;
  len_in = omega arith;
  head_in = λ h. omega arith;
  tail_at = λ h. refl;
}

empty_bytes-IsBuffer : (ss rs : WaitQueue) → IsBuffer (byte_channel (0 ∷ []) 0 ss rs)
empty_bytes-IsBuffer ss rs = record {
  fits = omega arith;
  addressable = omega arith;
  countable = omega arith;
  len_in = omega arith;
  head_in = λ h. omega arith;
  tail_at = λ h. refl;
}

pub one_waiter-IsQueue :
    (side : SelectOp) (ch : Channel) → IsQueue (byte_world side ch).links 1 one_waiter (10 ∷ [])
one_waiter-IsQueue side ch = record {
  head_at = refl;
  tail_at = refl;
  linked = (ground arith, refl, refl, refl, tt);
  distinct = (refl, tt);
}

no_waiter-IsQueue :
    (side : SelectOp) (ch : Channel) → IsQueue (byte_world side ch).links 1 empty_queue []
no_waiter-IsQueue side ch = record { head_at = refl; tail_at = refl; linked = tt; distinct = tt }

pub waiter-CanWake : (side : SelectOp) (ch : Channel) → CanWake (byte_world side ch) 10
waiter-CanWake side ch = record {
  scheduler = parked_scheduler-IsScheduler;
  room = parked_scheduler-HasRoom;
  task = ground arith;
  waits = refl;
}

-- A full channel with a waiting sender.
abbrev pub sender_full : World
sender_full = byte_world send (byte_channel (42 ∷ []) 1 one_waiter empty_queue)

pub sender_full-IsChannel : IsChannel sender_full 1 (10 ∷ []) []
sender_full-IsChannel = record {
  buffer = full_bytes-IsBuffer one_waiter empty_queue;
  send_queue = one_waiter-IsQueue send (byte_channel (42 ∷ []) 1 one_waiter empty_queue);
  recv_queue = no_waiter-IsQueue send (byte_channel (42 ∷ []) 1 one_waiter empty_queue);
  apart = λ a h. refl;
}

-- A drained channel with a waiting sender.
abbrev pub sender_drained : World
sender_drained = byte_world send (byte_channel (0 ∷ []) 0 one_waiter empty_queue)

pub sender_drained-IsChannel : IsChannel sender_drained 1 (10 ∷ []) []
sender_drained-IsChannel = record {
  buffer = empty_bytes-IsBuffer one_waiter empty_queue;
  send_queue = one_waiter-IsQueue send (byte_channel (0 ∷ []) 0 one_waiter empty_queue);
  recv_queue = no_waiter-IsQueue send (byte_channel (0 ∷ []) 0 one_waiter empty_queue);
  apart = λ a h. refl;
}

-- A drained channel with a waiting receiver.
abbrev pub receiver_waits : World
receiver_waits = byte_world recv (byte_channel (0 ∷ []) 0 empty_queue one_waiter)

pub receiver_waits-IsChannel : IsChannel receiver_waits 1 [] (10 ∷ [])
receiver_waits-IsChannel = record {
  buffer = empty_bytes-IsBuffer empty_queue one_waiter;
  send_queue = no_waiter-IsQueue recv (byte_channel (0 ∷ []) 0 empty_queue one_waiter);
  recv_queue = one_waiter-IsQueue recv (byte_channel (0 ∷ []) 0 empty_queue one_waiter);
  apart = λ a h. absurd (omega arith);
}

-- A drained and a full channel without waiters.
abbrev pub drained : World
drained = byte_world recv (byte_channel (0 ∷ []) 0 empty_queue empty_queue)

pub drained-IsChannel : IsChannel drained 1 [] []
drained-IsChannel = record {
  buffer = empty_bytes-IsBuffer empty_queue empty_queue;
  send_queue = no_waiter-IsQueue recv (byte_channel (0 ∷ []) 0 empty_queue empty_queue);
  recv_queue = no_waiter-IsQueue recv (byte_channel (0 ∷ []) 0 empty_queue empty_queue);
  apart = λ a h. refl;
}

abbrev pub full : World
full = byte_world recv (byte_channel (42 ∷ []) 1 empty_queue empty_queue)

pub full-IsChannel : IsChannel full 1 [] []
full-IsChannel = record {
  buffer = full_bytes-IsBuffer empty_queue empty_queue;
  send_queue = no_waiter-IsQueue recv (byte_channel (42 ∷ []) 1 empty_queue empty_queue);
  recv_queue = no_waiter-IsQueue recv (byte_channel (42 ∷ []) 1 empty_queue empty_queue);
  apart = λ a h. refl;
}

abbrev pub closed_full : World
closed_full =
    byte_world recv (record (byte_channel (42 ∷ []) 1 empty_queue empty_queue) { closed = true })

pub closed_full-IsChannel : IsChannel closed_full 1 [] []
closed_full-IsChannel = record {
  buffer = record {
    fits = omega arith;
    addressable = omega arith;
    countable = omega arith;
    len_in = omega arith;
    head_in = λ h. omega arith;
    tail_at = λ h. refl;
  };
  send_queue = record { head_at = refl; tail_at = refl; linked = tt; distinct = tt };
  recv_queue = record { head_at = refl; tail_at = refl; linked = tt; distinct = tt };
  apart = λ a h. refl;
}
