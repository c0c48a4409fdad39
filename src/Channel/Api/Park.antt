-- ===== src/Channel/Api/Park.antt =====
-- A receive that finds nothing, and a send that finds no room, park.
use croutine.Prelude.{
  ℕ, ◌<◌, ◌≡◌, ◌≢◌, refl, sym, ap, ◌∙◌, subst, true, false, ◌||◌, none, List, [], ◌∷◌, ◌++◌, arith,
  ◌==◌, if◌then◌else◌, null, update_self, count, length,
}
use croutine.Task.{waiting_channel}
use croutine.WaitQueue.{wait_queue_push_tail}
use croutine.WaitQueue.Lists.{IsQueue, push_tail-append}
use croutine.Scheduler.{Scheduler, park_current_on_channel}
use croutine.Scheduler.Park.{parked}
use croutine.Channel.State.{
  send, recv, SendResult, would_block, RecvResult, recv_empty, recv_closed, Channel, World, Run, ok,
  failed, out_of_fuel, Returns, and_then,
}
use croutine.Channel.Waiters.{is_done, set_queue}
use croutine.Channel.Waiters.Pop.{first_live}
use croutine.Channel.Invariant.{IsChannel}
use croutine.Channel.Buffer.Fifo.{buffered}
use croutine.Channel.Attempt.{try_send_locked, try_recv_locked}
use croutine.Channel.Attempt.Send.{Unchanged, try_send-would_block}
use croutine.Channel.Attempt.Recv.{Nothing, try_recv-Nothing}
use croutine.Channel.Api.{
  Begun, park_waiter, park_current, after_try_send, croutine_channel_send, after_try_recv,
  croutine_channel_recv,
}

park_current_on_channel-parked :
    (current : ℕ) (s : Scheduler)
    → current ≢ null
    → s.shutdown_requested ≡ false
    → park_current_on_channel current s ≡ (true, parked current s)
unfolding park_current_on_channel
park_current_on_channel-parked current s ne running = ground arith

module _ (fuel c out current x : ℕ) (w : World) (ss rs : List ℕ) (v : IsChannel w c ss rs)
    (enough : length ss < fuel) (running : w.sched.shutdown_requested ≡ false)
    (task : current ≢ null) (waiter : x ≢ null) (fresh : count x rs ≡ 0) where
  -- The call parked `current`, as waiter `x` behind all other receivers.
  abbrev pub ReceiverParked : Begun RecvResult → World → Type 0
  ReceiverParked result w' =
      (result ≡ Begun.parked)
      × IsQueue w'.links c (w'.channels c).recv_waiters (rs ++ x ∷ [])
      × ((w'.sched.tasks current).state ≡ waiting_channel)
      × ((w'.sched.tasks current).channel_wake_success ≡ false)
      × ((w'.waiters x).task ≡ current)
      × ((w'.waiters x).value_slot ≡ out)

  parks :
      (w₁ : World)
      → IsChannel w₁ c [] rs
      → w₁.sched ≡ w.sched
      → Returns ReceiverParked (after_try_recv c out current x recv_empty w₁)
  unfolding after_try_recv park_current park_waiter
  parks w₁ good same =
      let some_task : (current == null) ≡ false = ground arith in
      let step =
        park_current_on_channel-parked current w₁.sched task
          (ap (λ (s : Scheduler). s.shutdown_requested) same ∙ running) in
      let (q, ls) = wait_queue_push_tail (w₁.channels c).recv_waiters w₁.links x c in
      let (last, _) =
        push_tail-append w₁.links c (w₁.channels c).recv_waiters rs x good.recv_queue waiter
          fresh in
      let at = update_self w₁.channels c (set_queue recv q (w₁.channels c)) in
      rw (some_task, step)
        (
          refl,
          subst (λ (ch : Channel). IsQueue ls c ch.recv_waiters (rs ++ x ∷ [])) (sym at) last,
          ground arith,
          ground arith,
          ground arith,
          ground arith,
        )

  begin :
      (value : RecvResult) (r : Run RecvResult)
      → value ≡ recv_empty
      → Returns (Nothing fuel c out w ss rs v enough value) r
      → Returns ReceiverParked (and_then r (λ result. after_try_recv c out current x result))
  begin value (ok a w₁) empty (is, good, _, _, same) =
      subst (λ b. Returns ReceiverParked (after_try_recv c out current x b w₁)) (sym (is ∙ empty))
        (parks w₁ good same)
  begin value failed empty h = absurd h
  begin value out_of_fuel empty h = absurd h

  -- On an open, well-formed channel with nothing buffered, without a shutdown request, with fuel
  -- for more rounds than there are parked senders, none of which is live, and with a running task,
  -- a channel and an object that are not `NULL` and a waiter not parked yet: a receive parks the
  -- task. Its waiter, which names the task and the object, comes behind all other receivers, and
  -- the task waits with no outcome recorded.
  pub croutine_channel_recv-ReceiverParked :
      c ≢ null
      → out ≢ null
      → (w.channels c).closed ≡ false
      → (w.channels c).len ≡ 0
      → first_live (is_done w) ss ≡ none
      → Returns ReceiverParked (croutine_channel_recv fuel c out current x w)
  unfolding croutine_channel_recv
  croutine_channel_recv-ReceiverParked some_channel some_out opened drained idle =
      let given : (c == null || out == null) ≡ false = ground arith in
      let still : ((w.channels c).closed || w.sched.shutdown_requested) ≡ false =
        rw (opened, running) refl in
      let empty = ap (λ b. if b then recv_closed else recv_empty) still in
      rw given (
        begin _ (try_recv_locked fuel c out w) empty
          (try_recv-Nothing fuel c out w ss rs v enough drained idle))

module _ (fuel c value current x : ℕ) (w : World) (ss rs : List ℕ) (v : IsChannel w c ss rs)
    (enough : length rs < fuel) (opened : (w.channels c).closed ≡ false)
    (running : w.sched.shutdown_requested ≡ false) (idle : first_live (is_done w) rs ≡ none)
    (task : current ≢ null) (waiter : x ≢ null) (fresh : count x ss ≡ 0) where
  -- The call parked `current`, as waiter `x` behind all other senders.
  abbrev pub SenderParked : Begun SendResult → World → Type 0
  SenderParked result w' =
      (result ≡ Begun.parked)
      × IsQueue w'.links c (w'.channels c).send_waiters (ss ++ x ∷ [])
      × ((w'.sched.tasks current).state ≡ waiting_channel)
      × ((w'.sched.tasks current).channel_wake_success ≡ false)
      × ((w'.waiters x).task ≡ current)
      × ((w'.waiters x).value_slot ≡ value)

  sender_parks :
      (w₁ : World)
      → IsChannel w₁ c ss []
      → w₁.sched ≡ w.sched
      → Returns SenderParked (after_try_send c value current x would_block w₁)
  unfolding after_try_send park_current park_waiter
  sender_parks w₁ good same =
      let some_task : (current == null) ≡ false = ground arith in
      let step =
        park_current_on_channel-parked current w₁.sched task
          (ap (λ (s : Scheduler). s.shutdown_requested) same ∙ running) in
      let (q, ls) = wait_queue_push_tail (w₁.channels c).send_waiters w₁.links x c in
      let (last, _) =
        push_tail-append w₁.links c (w₁.channels c).send_waiters ss x good.send_queue waiter
          fresh in
      let at = update_self w₁.channels c (set_queue send q (w₁.channels c)) in
      rw (some_task, step)
        (
          refl,
          subst (λ (ch : Channel). IsQueue ls c ch.send_waiters (ss ++ x ∷ [])) (sym at) last,
          ground arith,
          ground arith,
          ground arith,
          ground arith,
        )

  sender_begins :
      (r : Run SendResult)
      → Returns
          (Unchanged fuel c value w ss rs v enough opened running idle would_block
            (buffered (w.channels c)))
          r
      → Returns SenderParked (and_then r (λ result. after_try_send c value current x result))
  sender_begins (ok a w₁) (is, good, _, _, same) =
      subst (λ b. Returns SenderParked (after_try_send c value current x b w₁)) (sym is)
        (sender_parks w₁ good same)
  sender_begins failed h = absurd h
  sender_begins out_of_fuel h = absurd h

  -- On an open, well-formed channel with a full buffer, without a shutdown request, with fuel for
  -- more rounds than there are parked receivers, none of which is live, and with a running task, a
  -- channel and an object that are not `NULL` and a waiter not parked yet: a send parks the task.
  -- Its waiter, which names the task and the object, comes behind all other senders, and the task
  -- waits with no outcome recorded.
  pub croutine_channel_send-SenderParked :
      c ≢ null
      → value ≢ null
      → (w.channels c).capacity ≡ (w.channels c).len
      → Returns SenderParked (croutine_channel_send fuel c value current x w)
  unfolding croutine_channel_send
  croutine_channel_send-SenderParked some_channel some_value full =
      let given : (c == null || value == null) ≡ false = ground arith in
      rw given (
        sender_begins (try_send_locked fuel c value w)
          (try_send-would_block fuel c value w ss rs v enough opened running idle full))
