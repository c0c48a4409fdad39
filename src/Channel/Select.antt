-- ===== src/Channel/Select.antt =====
-- `croutine_select` of src/channel.c. As the other calls that may park, it runs up to the switch as
-- one step and goes on, resumed, as another. `state` is the address of the select's shared state
-- and `base` the address of its array of waiters, each of which takes one address.
use croutine.Prelude.{
  ℕ, zero, suc, ◌+◌, ◌%◌, ◌^◌, ℤ, pos, negsuc, Bool, false, not, ◌&&◌, ◌||◌, Option, none, some,
  List, [], ◌∷◌, ltb, ◌==◌, if◌then◌else◌, null, update, minus_one, get_or, set, length,
}
use croutine.WaitQueue.{no_links, wait_queue_push_tail}
use croutine.Scheduler.{resume_from_channel}
use croutine.Channel.State.{
  select, SelectOp, send, recv, SelectStatus, SendResult, send_ok, send_closed, would_block,
  RecvResult, recv_value, recv_empty, recv_closed, Waiter, SelectState, World, ok, failed, Cmd,
  pure, ◌>>=◌,
}
use croutine.Channel.Waiters.{queue, put_queue, int32}
use croutine.Channel.Attempt.{try_send_locked, try_recv_locked}
use croutine.Channel.Api.{Begun, finished, park_current, unlink_waiter}
use croutine.Channel.Shuffle.{select_order}

-- `croutine_select_case`
pub record SelectCase : Type 0 where
  pub op : SelectOp
  pub channel : ℕ
  pub value_slot : ℕ
  pub status : SelectStatus

-- What `croutine_select` returns, with the cases it may have written to.
pub record Chosen : Type 0 where
  pub index : ℤ
  pub cases : List SelectCase

-- A case of zero bytes.
abbrev pub no_case : SelectCase
no_case = record { op = send; channel = null; value_slot = null; status = SelectStatus.value }

-- The status of a case that fired.
abbrev pub sent_status : SendResult → Option SelectStatus
sent_status send_ok = some SelectStatus.sent
sent_status send_closed = some SelectStatus.closed
sent_status would_block = none

abbrev pub received_status : RecvResult → Option SelectStatus
received_status recv_value = some SelectStatus.value
received_status recv_closed = some SelectStatus.closed
received_status recv_empty = none

abbrev try_case_op : ℕ → SelectOp → ℕ → ℕ → Cmd (Option SelectStatus)
try_case_op fuel send c slot = try_send_locked fuel c slot >>= λ r. pure (sent_status r)
try_case_op fuel recv c slot = try_recv_locked fuel c slot >>= λ r. pure (received_status r)

-- The new status of the case if it fires.
unfoldable pub try_select_case_locked : ℕ → SelectCase → Cmd (Option SelectStatus)
try_select_case_locked fuel cs =
    if cs.channel == null then pure none else try_case_op fuel cs.op cs.channel cs.value_slot

-- Phase A: the first case that fires, in the given order.
unfoldable pub try_cases : ℕ → List SelectCase → List ℕ → Cmd (Option (ℕ × SelectStatus))
try_cases fuel cases [] = pure none
try_cases fuel cases (index ∷ order) =
    try_select_case_locked fuel (get_or cases index no_case) >>= λ fired. elim fired [
      | none ↦ try_cases fuel cases order
      | some status ↦ pure (some (index, status))
    ]

-- `cases[index].status = status`
abbrev pub set_status : List SelectCase → ℕ → SelectStatus → List SelectCase
set_status cases index status =
    set cases index (record (get_or cases index no_case) { status = status })

-- The waiter of case number `i`.
abbrev select_waiter : SelectCase → ℕ → ℕ → ℕ → Waiter
select_waiter cs current state i = record {
  kind = select;
  op = cs.op;
  task = current;
  value_slot = cs.value_slot;
  state = state;
  case_index = i % 2 ^ 32;
}

-- The body of the loop of phase B.
unfoldable pub register_waiter : SelectCase → ℕ → ℕ → ℕ → ℕ → World → World
register_waiter cs current state base i w =
    let x = base + i in
    let w' = record w {
      waiters = update w.waiters x (select_waiter cs current state i);
      links = update w.links x no_links;
    } in
    if cs.channel == null
    then w'
    else (let (q, ls) =
          wait_queue_push_tail (queue cs.op (w'.channels cs.channel)) w'.links x cs.channel in
        put_queue cs.op cs.channel q ls w')

-- The loop of phase B from case `i` on, and the number of waiters it registers.
unfoldable pub register_waiters : List SelectCase → ℕ → ℕ → ℕ → ℕ → World → ℕ × World
register_waiters [] current state base i w = (0, w)
register_waiters (cs ∷ cases) current state base i w =
    let (n, w') =
      register_waiters cases current state base (i + 1)
        (register_waiter cs current state base i w) in
    (if cs.channel == null then n else n + 1, w')

-- `scrub_select_waiters(waiters, n)` from the waiter at `x` on
unfoldable pub scrub_select_waiters : ℕ → ℕ → World → World
scrub_select_waiters x zero w = w
scrub_select_waiters x (suc n) w =
    scrub_select_waiters (x + 1) n (unlink_waiter (w.waiters x).op (w.links x).channel x w)

-- `struct CroutineSelectState state = {0}` and the three writes after it
abbrev pub new_state : SelectState
new_state = record { done = false; chosen_index = minus_one; chosen_status = SelectStatus.value }

-- Phase B up to the switch; `granted` is the answer to the `calloc` of more than 32 waiters.
unfoldable pub select_park : Bool → List SelectCase → ℕ → ℕ → ℕ → Cmd (Begun Chosen)
unfolding park_current register_waiters
select_park granted cases current state base w =
    let default = finished (record { index = minus_one; cases = cases }) in
    if current == null || (ltb 32 (length cases) && not granted)
    then ok default w
    else (let (n, w') =
          register_waiters cases current state base 0
            (record w { selects = update w.selects state new_state }) in
        if n == 0 then ok default w' else park_current current w')

-- What follows phase A.
unfoldable pub after_try_cases :
    Bool → List SelectCase → Bool → ℕ → ℕ → ℕ → Option (ℕ × SelectStatus) → Cmd (Begun Chosen)
unfolding select_park
after_try_cases granted cases has_default current state base (some (index, status)) w =
    ok (finished (record { index = int32 index; cases = set_status cases index status })) w
after_try_cases granted cases has_default current state base none w =
    if has_default
    then ok (finished (record { index = minus_one; cases = cases })) w
    else select_park granted cases current state base w

-- The result comes with the new state of the generator. `order_granted` and `waiters_granted` are
-- the answers to the two allocations for more than 32 cases.
unfoldable pub croutine_select :
    ℕ → Bool → Bool → (ℕ → ℕ) → ℕ → List SelectCase → Bool → ℕ → ℕ → ℕ → Cmd (Begun Chosen × ℕ)
unfolding after_try_cases
croutine_select fuel order_granted waiters_granted draw rng cases has_default current state base w =
    if length cases == 0
    then if has_default
      then ok (finished (record { index = minus_one; cases = cases }), rng) w
      else failed
    else (let (order, rng') = select_order order_granted draw rng (length cases) in
        (do
          fired ← try_cases fuel cases order
          result ← after_try_cases waiters_granted cases has_default current state base fired
          pure (result, rng'))
          w)

-- The writes to the cases once the waiters are unlinked.
abbrev pub report_choice : List SelectCase → SelectState → Chosen
report_choice cases s = record {
  index = s.chosen_index;
  cases = elim s.chosen_index [
    | pos i ↦ if ltb i (length cases) then set_status cases i s.chosen_status else cases
    | negsuc i ↦ cases
  ];
}

-- The second step of a select that parked; a park that reports no wake-up is treated as refused.
unfoldable pub select_resumed : List SelectCase → ℕ → ℕ → ℕ → Cmd Chosen
unfolding scrub_select_waiters
select_resumed cases current state base w =
    let w' = scrub_select_waiters base (length cases) w in
    if resume_from_channel current w.sched
    then ok (report_choice cases (w'.selects state)) w'
    else ok (record { index = minus_one; cases = cases }) w'

-- The second step of a select whose park was refused.
unfoldable pub select_refused : List SelectCase → ℕ → Cmd Chosen
unfolding scrub_select_waiters
select_refused cases base w =
    ok (record { index = minus_one; cases = cases }) (scrub_select_waiters base (length cases) w)
