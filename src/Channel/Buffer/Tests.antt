-- ===== src/Channel/Buffer/Tests.antt =====
-- Tests of the buffer, on a ring of three slots of two bytes.
use croutine.Prelude.{◌≡◌, refl, false, [], ◌∷◌, arith, null}
use croutine.WaitQueue.{empty_queue}
use croutine.Channel.State.{Channel}
use croutine.Channel.Buffer.{copy_value, buffer_pop}
use croutine.Channel.Buffer.Fifo.{IsBuffer, slot, buffered, buffer_pop-cons}

-- The oldest value stands in the last slot, the next one in the first.
abbrev wrapped : Channel
wrapped = record {
  elem_size = 2;
  capacity = 3;
  closed = false;
  buffer = 3 ∷ 4 ∷ 0 ∷ 0 ∷ 1 ∷ 2 ∷ [];
  len = 2;
  head = 2;
  tail = 1;
  send_waiters = empty_queue;
  recv_waiters = empty_queue;
  registry_prev = null;
  registry_next = null;
}

wrapped-IsBuffer : IsBuffer wrapped
wrapped-IsBuffer = record {
  fits = omega arith;
  addressable = omega arith;
  countable = omega arith;
  len_in = omega arith;
  head_in = λ h. omega arith;
  tail_at = λ h. refl;
}

wrapped_values : buffered wrapped ≡ (1 ∷ 2 ∷ []) ∷ (3 ∷ 4 ∷ []) ∷ []
wrapped_values = refl

buffer_pop-cons_example :
    let (out', ch') = buffer_pop wrapped (0 ∷ 0 ∷ 9 ∷ []) in
    (buffered wrapped ≡ slot wrapped 2 ∷ buffered ch')
    × (out' ≡ copy_value (0 ∷ 0 ∷ 9 ∷ []) (slot wrapped 2) 2)
buffer_pop-cons_example = buffer_pop-cons wrapped (0 ∷ 0 ∷ 9 ∷ []) wrapped-IsBuffer (omega arith)
