-- ===== src/Channel/Attempt/Recv.antt =====
-- What `try_recv_locked` of src/channel.c does on each of its branches.
use mathlib.Core.Path.{ap₂}
use croutine.Prelude.{
  ℕ, ◌+◌, ◌<◌, ◌≤◌, ◌≡◌, ◌≢◌, refl, ap, ◌∙◌, sym, Bool, true, false, Option, none, some, List, [],
  ◌∷◌, ◌++◌, arith, ◌==◌, if◌then◌else◌, null, update, update_self, update-ne, subst, subst₂,
  length, ◌||◌, ltb, leb, take,
}
use croutine.WaitQueue.{Store, WaitQueue}
use croutine.Scheduler.Wake.{Woken}
use croutine.Channel.State.{
  SelectOp, send, SelectStatus, RecvResult, recv_value, recv_empty, recv_closed, Channel, World, ok,
  Returns, set_channel, set_memory,
}
use croutine.Channel.Buffer.{copy_value, buffer_push, buffer_pop}
use croutine.Channel.Buffer.Fifo.{buffered, slot}
use croutine.Channel.Waiters.{
  set_queue, put_queue, is_done, record_choice, wake_waiting_sender_direct_locked,
  pop_live_waiter_locked, push_value, buffer_one_waiting_sender_locked,
}
use croutine.Channel.Waiters.Pop.{first_live, found, rest, pop_live_waiter-first_live}
use croutine.Channel.Waiters.Complete.{
  CanWake, woken_sched, woken_sched-Woken, handed_over, wake_sender-ok, complete_waiter-ok,
}
use croutine.Channel.Invariant.{
  IsChannel, Seg-ne-null, count-rest, count-found, put_send-IsChannel, IsChannel-move,
  buffer_push-IsChannel, buffer_pop-IsChannel,
}
use croutine.Channel.Attempt.{pop_value, refill_buffer, try_recv_locked}

-- A waiting sender is popped: the world, and what holds there.
record SenderPopped (fuel c : ℕ) (w : World) (rs : List ℕ) (o : Option (ℕ × List ℕ)) : Type 0 where
  queue' : WaitQueue
  links' : Store
  step : pop_live_waiter_locked fuel send c w ≡ ok (found o) (put_queue send c queue' links' w)
  good : IsChannel (put_queue send c queue' links' w) c (rest o) rs
  at : (put_queue send c queue' links' w).channels c ≡ set_queue send queue' (w.channels c)

sender_popped :
    (fuel c : ℕ) (w : World) (ss rs : List ℕ)
    → IsChannel w c ss rs
    → length ss < fuel
    → SenderPopped fuel c w rs (first_live (is_done w) ss)
sender_popped fuel c w ss rs v enough =
    let (q, ls, popped, parked, same) =
      pop_live_waiter-first_live fuel send c w ss v.send_queue enough in
    record {
      queue' = q;
      links' = ls;
      step = popped;
      good =
          put_send-IsChannel w c ss rs (rest (first_live (is_done w) ss)) q ls v parked same
            (λ a. count-rest (is_done w) a ss);
      at = update_self w.channels c (set_queue send q (w.channels c));
    }

CanWake-put :
    (w : World) (s : ℕ) (side : SelectOp) (c : ℕ) (q : WaitQueue) (ls : Store)
    → CanWake w s
    → CanWake (put_queue side c q ls w) s
CanWake-put w s side c q ls can = record {
  scheduler = can.scheduler;
  room = can.room;
  task = can.task;
  waits = can.waits;
}

refill_buffer-open :
    (fuel c : ℕ) (w : World)
    → (w.channels c).closed ≡ false
    → refill_buffer fuel c w ≡ buffer_one_waiting_sender_locked fuel c w
unfolding refill_buffer
refill_buffer-open fuel c w open_ =
    ap (λ b. if b then ok false w else buffer_one_waiting_sender_locked fuel c w) open_

if-ok :
    (b : Bool) (x y : RecvResult) (w : World)
    → (if b then ok x w else ok y w) ≡ ok (if b then x else y) w
if-ok true x y w = refl
if-ok false x y w = refl

module _ (fuel c out : ℕ) (w : World) (ss rs : List ℕ) (v : IsChannel w c ss rs)
    (enough : length ss < fuel) where
  -- Sender `s` was woken with success and, in a select, knows that its case was sent.
  abbrev SenderDone : ℕ → World → Type 0
  SenderDone s w' =
      Woken w.sched (w.waiters s).task true (true, w'.sched)
      × (w'.selects ≡ (record_choice (w.waiters s) SelectStatus.sent w).selects)

  -- The outcome of a receive that took the bytes of sender `s`.
  abbrev pub Direct : ℕ → List ℕ → RecvResult → World → Type 0
  Direct s ys result w' =
      (result ≡ recv_value)
      × IsChannel w' c ys rs
      × (buffered (w'.channels c) ≡ buffered (w.channels c))
      × (w'.memory
          ≡ update w.memory out (
              copy_value (w.memory out) (w.memory (w.waiters s).value_slot)
                (w.channels c).elem_size))
      × SenderDone s w'

  -- On a well-formed channel with nothing buffered, with fuel for more rounds than there are
  -- parked senders, and with a longest parked live sender that can be woken: a receive copies that
  -- sender's bytes out, wakes it with success and takes it off the queue; the channel stays
  -- well-formed.
  pub try_recv-sender :
      (s : ℕ) (ys : List ℕ)
      → (w.channels c).len ≡ 0
      → first_live (is_done w) ss ≡ some (s, ys)
      → CanWake w s
      → Returns (Direct s ys) (try_recv_locked fuel c out w)
  unfolding try_recv_locked record_choice
  try_recv-sender s ys drained live can =
      let p = subst (SenderPopped fuel c w rs) live (sender_popped fuel c w ss rs v enough) in
      let w₁ = put_queue send c p.queue' p.links' w in
      let ne =
        Seg-ne-null w.links c null ss null s v.send_queue.linked
          (count-found (is_done w) ss s ys live) in
      let woken = wake_sender-ok fuel c w w₁ s ne out p.step (CanWake-put w s send c _ _ can) in
      let test : ltb 0 (w.channels c).len ≡ false = ground arith in
      let recvs : try_recv_locked fuel c out w
          ≡ ok recv_value (handed_over w₁ c s out (w.waiters s).value_slot SelectStatus.sent) =
        rw (test, woken) in
      subst (Returns (Direct s ys)) (sym recvs) (
        refl,
        IsChannel-move w₁ _ c ys rs refl refl p.good,
        ap buffered p.at,
        ap
            (λ (ch : Channel).
              update w.memory out
                (copy_value (w.memory out) (w.memory (w.waiters s).value_slot) ch.elem_size))
            p.at,
        (woken_sched-Woken w s true can, refl),
      )

  -- The outcome `value` of a receive that touched no task and no object.
  abbrev pub Nothing : RecvResult → RecvResult → World → Type 0
  Nothing value result w' =
      (result ≡ value)
      × IsChannel w' c [] rs
      × (buffered (w'.channels c) ≡ buffered (w.channels c))
      × (w'.memory ≡ w.memory)
      × (w'.sched ≡ w.sched)

  -- On a well-formed channel with nothing buffered, with fuel for more rounds than there are
  -- parked senders, none of which is live: a receive reports a closed channel if it is closed or a
  -- shutdown is requested, and an empty channel otherwise; it changes no object, no buffered value
  -- and no task, only stale senders leave, and the channel stays well-formed.
  pub try_recv-Nothing :
      (w.channels c).len ≡ 0
      → first_live (is_done w) ss ≡ none
      → Returns
          (Nothing (
            if (w.channels c).closed || w.sched.shutdown_requested
            then recv_closed
            else recv_empty))
          (try_recv_locked fuel c out w)
  unfolding try_recv_locked wake_waiting_sender_direct_locked
  try_recv-Nothing drained idle =
      let p = subst (SenderPopped fuel c w rs) idle (sender_popped fuel c w ss rs v enough) in
      let w₁ = put_queue send c p.queue' p.links' w in
      let test : ltb 0 (w.channels c).len ≡ false = ground arith in
      let closed : (w₁.channels c).closed ≡ (w.channels c).closed =
        ap (λ (ch : Channel). ch.closed) p.at in
      let result =
        if (w.channels c).closed || w.sched.shutdown_requested then recv_closed else recv_empty in
      let recvs : try_recv_locked fuel c out w ≡ ok result w₁ =
        rw (test, p.step, closed) (if-ok _ recv_closed recv_empty w₁) in
      subst (Returns (Nothing result)) (sym recvs) (refl, p.good, ap buffered p.at, refl, refl)

  module _ (some_value : 0 < (w.channels c).len) where
    -- The world once the oldest value was copied out.
    abbrev taken : World
    taken =
        let (bytes, ch) = buffer_pop (w.channels c) (w.memory out) in
        set_memory (set_channel w c ch) out bytes

    abbrev front : List ℕ
    front = slot (w.channels c) (w.channels c).head

    -- The outcome of a receive that took the oldest value and woke no sender.
    abbrev pub Oldest : List ℕ → RecvResult → World → Type 0
    Oldest senders result w' =
        (result ≡ recv_value)
        × IsChannel w' c senders rs
        × (buffered (w.channels c) ≡ front ∷ buffered (w'.channels c))
        × (w'.memory
            ≡ update w.memory out (copy_value (w.memory out) front (w.channels c).elem_size))
        × (w'.sched ≡ w.sched)

    taken-facts :
        IsChannel taken c ss rs
        × (buffered (w.channels c) ≡ front ∷ buffered (taken.channels c))
        × (taken.memory
            ≡ update w.memory out (copy_value (w.memory out) front (w.channels c).elem_size))
    taken-facts = buffer_pop-IsChannel w c out ss rs v some_value

    taken-fields :
        ((taken.channels c).closed ≡ (w.channels c).closed)
        × ((taken.channels c).capacity ≡ (w.channels c).capacity)
        × ((taken.channels c).elem_size ≡ (w.channels c).elem_size)
        × ((taken.channels c).len + 1 ≡ (w.channels c).len)
    unfolding buffer_pop
    taken-fields =
        let at = update_self w.channels c (buffer_pop (w.channels c) (w.memory out)).1 in
        (
          ap (λ (ch : Channel). ch.closed) at,
          ap (λ (ch : Channel). ch.capacity) at,
          ap (λ (ch : Channel). ch.elem_size) at,
          ap (λ (ch : Channel). ch.len + 1) at ∙ omega arith,
        )

    test : ltb 0 (w.channels c).len ≡ true
    test = ground arith

    -- On a closed, well-formed channel with a buffered value, with fuel for more rounds than there
    -- are parked senders: a receive still takes the oldest value, wakes nobody, and leaves the
    -- queues as they are and the channel well-formed.
    pub try_recv-closed :
        (w.channels c).closed ≡ true → Returns (Oldest ss) (try_recv_locked fuel c out w)
    unfolding try_recv_locked pop_value refill_buffer
    try_recv-closed closed =
        let (good, popped, copied) = taken-facts in
        let shut : (taken.channels c).closed ≡ true = taken-fields.0 ∙ closed in
        let recvs : try_recv_locked fuel c out w ≡ ok recv_value taken = rw (test, shut) in
        subst (Returns (Oldest ss)) (sym recvs) (refl, good, popped, copied, refl)

    room : (taken.channels c).len < (taken.channels c).capacity
    room = omega (arith, taken-fields, v.buffer.len_in)

    has_slot :
        ((taken.channels c).capacity == 0 || leb (taken.channels c).capacity (taken.channels c).len)
        ≡ false
    has_slot = let r = room in ground arith

    -- On an open, well-formed channel with a buffered value, with fuel for more rounds than there
    -- are parked senders, none of which is live: a receive takes the oldest value and wakes
    -- nobody; only stale senders leave, and the channel stays well-formed.
    pub try_recv-Oldest :
        (w.channels c).closed ≡ false
        → first_live (is_done w) ss ≡ none
        → Returns (Oldest []) (try_recv_locked fuel c out w)
    unfolding try_recv_locked pop_value buffer_one_waiting_sender_locked
    try_recv-Oldest opened idle =
        let (good, popped, copied) = taken-facts in
        let p =
          subst (SenderPopped fuel c taken rs) idle
            (sender_popped fuel c taken ss rs good enough) in
        let w₁ = put_queue send c p.queue' p.links' taken in
        let open_ : (taken.channels c).closed ≡ false = taken-fields.0 ∙ opened in
        let tried : buffer_one_waiting_sender_locked fuel c taken ≡ ok false w₁ =
          rw (has_slot, p.step) in
        let recvs : try_recv_locked fuel c out w ≡ ok recv_value w₁ =
          rw (test, refill_buffer-open fuel c taken open_, tried) in
        subst (Returns (Oldest [])) (sym recvs)
          (refl, p.good, popped ∙ ap (λ ch. front ∷ buffered ch) (sym p.at), copied, refl)

    -- The outcome of a receive that took the oldest value and buffered the bytes of sender `s`.
    abbrev pub Refilled : ℕ → List ℕ → RecvResult → World → Type 0
    Refilled s ys result w' =
        (result ≡ recv_value)
        × IsChannel w' c ys rs
        × (buffered (w.channels c)
              ++ take (w.channels c).elem_size (w.memory (w.waiters s).value_slot) ∷ []
            ≡ front ∷ buffered (w'.channels c))
        × (w'.memory
            ≡ update w.memory out (copy_value (w.memory out) front (w.channels c).elem_size))
        × SenderDone s w'

    -- On an open, well-formed channel with a buffered value, with fuel for more rounds than there
    -- are parked senders, and with a longest parked live sender that can be woken and whose object
    -- is whole and is not `out`: a receive takes the oldest value, that sender's bytes go behind
    -- the others, it is woken with success and leaves the queue, and the channel stays
    -- well-formed.
    pub try_recv-refill :
        (s : ℕ) (ys : List ℕ)
        → (w.channels c).closed ≡ false
        → first_live (is_done w) ss ≡ some (s, ys)
        → CanWake w s
        → (w.waiters s).value_slot ≢ out
        → (w.channels c).elem_size ≤ length (w.memory (w.waiters s).value_slot)
        → Returns (Refilled s ys) (try_recv_locked fuel c out w)
    unfolding try_recv_locked pop_value buffer_one_waiting_sender_locked push_value record_choice
    try_recv-refill s ys opened live can other whole =
        let (good, popped, copied) = taken-facts in
        let p =
          subst (SenderPopped fuel c taken rs) live
            (sender_popped fuel c taken ss rs good enough) in
        let w₁ = put_queue send c p.queue' p.links' taken in
        let ne =
          Seg-ne-null w.links c null ss null s v.send_queue.linked
            (count-found (is_done w) ss s ys live) in
        let filled : (s == null) ≡ false = ground (arith, ne) in
        let open_ : (taken.channels c).closed ≡ false = taken-fields.0 ∙ opened in
        let src = (w.waiters s).value_slot in
        let bytes : taken.memory src ≡ w.memory src = update-ne w.memory out src _ other in
        let (pushed, appended) =
          buffer_push-IsChannel w₁ c ys rs (taken.memory src) p.good
            (subst (λ (ch : Channel). ch.len < ch.capacity) (sym p.at) room)
            (subst₂ (λ (n : ℕ) (bs : List ℕ). n ≤ length bs)
              (sym (ap (λ (ch : Channel). ch.elem_size) p.at ∙ taken-fields.2)) (sym bytes)
              whole) in
        let w₂ = set_channel w₁ c (buffer_push (w₁.channels c) (taken.memory src)) in
        let can₂ : CanWake w₂ s = record {
          scheduler = can.scheduler;
          room = can.room;
          task = can.task;
          waits = can.waits;
        } in
        let done = record_choice (w.waiters s) SelectStatus.sent w₂ in
        let w₃ = record done { sched = woken_sched w s true } in
        let tried : buffer_one_waiting_sender_locked fuel c taken ≡ ok true w₃ =
          rw (has_slot, p.step, filled, complete_waiter-ok w₂ s SelectStatus.sent can₂) in
        let recvs : try_recv_locked fuel c out w ≡ ok recv_value w₃ =
          rw (test, refill_buffer-open fuel c taken open_, tried) in
        let same_size : (w₁.channels c).elem_size ≡ (w.channels c).elem_size =
          ap (λ (ch : Channel). ch.elem_size) p.at ∙ taken-fields.2 in
        let same_values : buffered (taken.channels c)
              ++ take (w.channels c).elem_size (w.memory src) ∷ []
            ≡ buffered (w₁.channels c) ++ take (w₁.channels c).elem_size (taken.memory src) ∷ [] =
          ap₂ (λ l bs. l ++ bs ∷ []) (sym (ap buffered p.at))
            (ap₂ take (sym same_size) (sym bytes)) in
        subst (Returns (Refilled s ys)) (sym recvs) (
          refl,
          IsChannel-move w₂ w₃ c ys rs refl refl pushed,
          ap (λ l. l ++ take (w.channels c).elem_size (w.memory src) ∷ []) popped
              ∙ ap (λ l. front ∷ l) (same_values ∙ sym appended),
          copied,
          (woken_sched-Woken w s true can, refl),
        )
