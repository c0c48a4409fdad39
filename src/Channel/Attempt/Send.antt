-- ===== src/Channel/Attempt/Send.antt =====
-- What `try_send_locked` of src/channel.c does on each of its branches.
use croutine.Prelude.{
  ℕ, ◌<◌, ◌≤◌, ◌≡◌, refl, ap, ◌∙◌, sym, true, false, none, some, List, [], ◌∷◌, ◌++◌, arith, null,
  update, update_self, count, subst, subst₂, length, ◌||◌, ◌&&◌, ltb, take,
}
use mathlib.Core.Path.{ap₂}
use croutine.WaitQueue.{Store, WaitQueue}
use croutine.WaitQueue.Lists.{IsQueue}
use croutine.Scheduler.Wake.{Woken}
use croutine.Channel.State.{
  recv, SelectStatus, SendResult, send_ok, send_closed, would_block, Channel, World, ok, Returns,
  set_channel,
}
use croutine.Channel.Buffer.{copy_value, buffer_push}
use croutine.Channel.Buffer.Fifo.{buffered}
use croutine.Channel.Waiters.{
  set_queue, put_queue, is_done, record_choice, wake_waiting_receiver_locked,
  pop_live_waiter_locked, push_value,
}
use croutine.Channel.Waiters.Pop.{first_live, found, rest, pop_live_waiter-first_live}
use croutine.Channel.Waiters.Complete.{CanWake, woken_sched-Woken, handed_over, wake_receiver-ok}
use croutine.Channel.Invariant.{
  IsChannel, Seg-ne-null, count-rest, count-found, put_recv-IsChannel, IsChannel-move,
  buffer_push-IsChannel,
}
use croutine.Channel.Attempt.{try_send_locked}

-- A send to a closed channel, or after a shutdown request, reports so and changes nothing.
pub try_send-closed :
    (fuel c value : ℕ) (w : World)
    → ((w.channels c).closed || w.sched.shutdown_requested) ≡ true
    → try_send_locked fuel c value w ≡ ok send_closed w
unfolding try_send_locked
try_send-closed fuel c value w shut = rw shut

-- What `wake_waiting_receiver_locked` pops.
abbrev pub HandedTo : World → World → ℕ → ℕ → ℕ → Type 0
HandedTo w w' c r value =
    (w'.memory
      ≡ update w.memory (w.waiters r).value_slot (
          copy_value (w.memory (w.waiters r).value_slot) (w.memory value) (w.channels c).elem_size))
    × Woken w.sched (w.waiters r).task true (true, w'.sched)
    × (w'.selects ≡ (record_choice (w.waiters r) SelectStatus.value w).selects)
    × (buffered (w'.channels c) ≡ buffered (w.channels c))

module _ (fuel c value : ℕ) (w : World) (ss rs : List ℕ) (v : IsChannel w c ss rs)
    (enough : length rs < fuel) (opened : (w.channels c).closed ≡ false)
    (running : w.sched.shutdown_requested ≡ false) where
  -- On an open, well-formed channel without a shutdown request, with fuel for more rounds than
  -- there are parked receivers, and with a longest parked live receiver that can be woken: a send
  -- succeeds, the receiver gets the bytes in its object, is woken with success and leaves the
  -- queue; the buffer keeps its values and the channel stays well-formed.
  pub try_send-receiver :
      (r : ℕ) (ys : List ℕ)
      → first_live (is_done w) rs ≡ some (r, ys)
      → CanWake w r
      → Returns
          (λ out w'. (out ≡ send_ok) × IsChannel w' c ss ys × HandedTo w w' c r value)
          (try_send_locked fuel c value w)
  unfolding try_send_locked record_choice
  try_send-receiver r ys live can =
      let (q, ls, popped, parked, same) =
        pop_live_waiter-first_live fuel recv c w rs v.recv_queue enough in
      let w₁ = put_queue recv c q ls w in
      let step : pop_live_waiter_locked fuel recv c w ≡ ok r w₁ =
        popped ∙ ap (λ o. ok (found o) w₁) live in
      let ne =
        Seg-ne-null w.links c null rs null r v.recv_queue.linked
          (count-found (is_done w) rs r ys live) in
      let can₁ : CanWake w₁ r = record {
        scheduler = can.scheduler;
        room = can.room;
        task = can.task;
        waits = can.waits;
      } in
      let woken = wake_receiver-ok fuel c w w₁ r ne value step can₁ in
      let at = update_self w.channels c (set_queue recv q (w.channels c)) in
      let good : IsChannel w₁ c ss ys =
        put_recv-IsChannel w c ss rs ys q ls v (subst (λ o. IsQueue ls c q (rest o)) live parked)
          same
          (λ a. subst (λ o. count a (rest o) ≤ count a rs) live (count-rest (is_done w) a rs)) in
      let opens : ((w.channels c).closed || w.sched.shutdown_requested) ≡ false =
        rw (opened, running) refl in
      let sends : try_send_locked fuel c value w
          ≡ ok send_ok (handed_over w₁ c r (w.waiters r).value_slot value SelectStatus.value) =
        rw (opens, woken) in
      subst (Returns (λ out w'. (out ≡ send_ok) × IsChannel w' c ss ys × HandedTo w w' c r value))
        (sym sends)
        (
          refl,
          IsChannel-move w₁ _ c ss ys refl refl good,
          (
            ap
                (λ (ch : Channel).
                  update w.memory (w.waiters r).value_slot
                    (copy_value (w.memory (w.waiters r).value_slot) (w.memory value) ch.elem_size))
                at,
            woken_sched-Woken w r true can,
            refl,
            ap buffered at,
          ),
        )

  -- The world once the stale receivers, all there are, were dropped.
  module _ (idle : first_live (is_done w) rs ≡ none) where
    dropped :
        (w₁ : World) × (wake_waiting_receiver_locked fuel c value w ≡ ok false w₁)
        × IsChannel w₁ c ss []
        × ((q : WaitQueue) × (ls : Store) × (w₁ ≡ put_queue recv c q ls w))
    unfolding wake_waiting_receiver_locked
    dropped =
        let (q, ls, popped, parked, same) =
          pop_live_waiter-first_live fuel recv c w rs v.recv_queue enough in
        let w₁ = put_queue recv c q ls w in
        let step : pop_live_waiter_locked fuel recv c w ≡ ok null w₁ =
          popped ∙ ap (λ o. ok (found o) w₁) idle in
        (
          w₁,
          rw step,
          put_recv-IsChannel w c ss rs [] q ls v (subst (λ o. IsQueue ls c q (rest o)) idle parked)
              same (λ a. omega arith),
          (q, ls, refl),
        )

    opens : ((w.channels c).closed || w.sched.shutdown_requested) ≡ false
    opens = rw (opened, running) refl

    -- The outcome `result` of a send that touched no task and no object: the stale receivers are
    -- gone and the buffer holds `values`.
    abbrev pub Unchanged : SendResult → List (List ℕ) → SendResult → World → Type 0
    Unchanged result values out w' =
        (out ≡ result)
        × IsChannel w' c ss []
        × (buffered (w'.channels c) ≡ values)
        × (w'.memory ≡ w.memory)
        × (w'.sched ≡ w.sched)

    -- On an open, well-formed channel without a shutdown request, with fuel for more rounds than
    -- there are parked receivers, none of which is live, and with room in the buffer for a value
    -- whose object is whole: a send appends the value's bytes to the buffer; no task is woken, no
    -- object changes, only stale receivers leave, and the channel stays well-formed.
    pub try_send-buffer :
        (w.channels c).len < (w.channels c).capacity
        → (w.channels c).elem_size ≤ length (w.memory value)
        → Returns
            (Unchanged send_ok
              (buffered (w.channels c) ++ take (w.channels c).elem_size (w.memory value) ∷ []))
            (try_send_locked fuel c value w)
    unfolding try_send_locked push_value
    try_send-buffer room whole =
        let (w₁, missed, good, (q, ls, is)) = dropped in
        let at : w₁.channels c ≡ set_queue recv q (w.channels c) =
          ap (λ (k : World). k.channels c) is ∙ update_self w.channels c _ in
        let memory : w₁.memory ≡ w.memory = ap (λ (k : World). k.memory) is in
        let room₁ : (w₁.channels c).len < (w₁.channels c).capacity =
          subst (λ (ch : Channel). ch.len < ch.capacity) (sym at) room in
        let whole₁ : (w₁.channels c).elem_size ≤ length (w₁.memory value) =
          subst₂ (λ (ch : Channel) (m : ℕ → List ℕ). ch.elem_size ≤ length (m value)) (sym at)
            (sym memory) whole in
        let (pushed, appended) =
          buffer_push-IsChannel w₁ c ss [] (w₁.memory value) good room₁ whole₁ in
        let has : (ltb 0 (w₁.channels c).capacity
              && ltb (w₁.channels c).len (w₁.channels c).capacity)
            ≡ true =
          ground arith in
        let sends : try_send_locked fuel c value w
            ≡ ok send_ok (set_channel w₁ c (buffer_push (w₁.channels c) (w₁.memory value))) =
          rw (opens, missed, has) in
        subst
          (Returns (
            Unchanged send_ok
              (buffered (w.channels c) ++ take (w.channels c).elem_size (w.memory value) ∷ [])))
          (sym sends)
          (
            refl,
            pushed,
            appended
                ∙ ap₂
                    (λ (ch : Channel) (m : ℕ → List ℕ).
                      buffered ch ++ take ch.elem_size (m value) ∷ [])
                    at memory,
            memory,
            ap (λ (k : World). k.sched) is,
          )

    -- On an open, well-formed channel without a shutdown request, with fuel for more rounds than
    -- there are parked receivers, none of which is live, and with a full buffer: a send would
    -- block; it changes no object, no buffered value and no task, only stale receivers leave, and
    -- the channel stays well-formed.
    pub try_send-would_block :
        ((w.channels c).capacity ≡ (w.channels c).len)
        → Returns (Unchanged would_block (buffered (w.channels c))) (try_send_locked fuel c value w)
    unfolding try_send_locked
    try_send-would_block full =
        let (w₁, missed, good, (q, ls, is)) = dropped in
        let at : w₁.channels c ≡ set_queue recv q (w.channels c) =
          ap (λ (k : World). k.channels c) is ∙ update_self w.channels c _ in
        let full₁ : (w₁.channels c).capacity ≡ (w₁.channels c).len =
          subst (λ (ch : Channel). ch.capacity ≡ ch.len) (sym at) full in
        let none_left : (ltb 0 (w₁.channels c).capacity
              && ltb (w₁.channels c).len (w₁.channels c).capacity)
            ≡ false =
          ground arith in
        let sends : try_send_locked fuel c value w ≡ ok would_block w₁ =
          rw (opens, missed, none_left) in
        subst (Returns (Unchanged would_block (buffered (w.channels c)))) (sym sends) (
          refl,
          good,
          ap buffered at,
          ap (λ (k : World). k.memory) is,
          ap (λ (k : World). k.sched) is,
        )
