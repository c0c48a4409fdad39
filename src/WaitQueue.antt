-- ===== src/WaitQueue.antt =====
-- `struct ChannelWaitQueue` of src/channel.c: an intrusive doubly linked list of channel waiters.
-- A waiter is known by its address. The `prev`, `next` and `channel` fields of a
-- `struct ChannelWaiter` are its `Links`, in a store of their own, since the queue operations write
-- no other field; the other fields are `Channel.Waiter`.
pub mod Segment
pub mod Lists
pub mod Unlink
mod Tests
use croutine.Prelude.{ℕ, Bool, true, false, ◌==◌, if◌then◌else◌, null, update}

pub record Links : Type 0 where
  pub prev : ℕ
  pub next : ℕ
  pub channel : ℕ

abbrev pub Store : Type 0
Store = ℕ → Links

abbrev pub no_links : Links
no_links = record { prev = null; next = null; channel = null }

pub record WaitQueue : Type 0 where
  pub head : ℕ
  pub tail : ℕ

abbrev pub empty_queue : WaitQueue
empty_queue = record { head = null; tail = null }

-- `p->next = v`
abbrev pub set_next : Store → ℕ → ℕ → Store
set_next ls p v = update ls p (record (ls p) { next = v })

-- `p->prev = v`
abbrev pub set_prev : Store → ℕ → ℕ → Store
set_prev ls p v = update ls p (record (ls p) { prev = v })

pub wait_queue_push_tail : WaitQueue → Store → ℕ → ℕ → WaitQueue × Store
wait_queue_push_tail q ls w channel =
    let ls' = update ls w (record { prev = q.tail; next = null; channel = channel }) in
    if q.tail == null
    then (record { head = w; tail = w }, ls')
    else (record q { tail = w }, set_next ls' q.tail w)

-- The popped waiter, `null` on an empty queue.
pub wait_queue_pop_head : WaitQueue → Store → ℕ × WaitQueue × Store
wait_queue_pop_head q ls =
    if q.head == null
    then (null, q, ls)
    else let w = q.head in
      let next = (ls w).next in
      if next == null
      then (w, record { head = next; tail = null }, update ls w no_links)
      else (w, record q { head = next }, update (set_prev ls next null) w no_links)

-- The first conditional of `wait_queue_unlink`, then the second.
unlink_prev : WaitQueue → Store → ℕ → WaitQueue × Store
unlink_prev q ls w =
    if (ls w).prev == null
    then (if q.head == w then record q { head = (ls w).next } else q, ls)
    else (q, set_next ls (ls w).prev (ls w).next)

unlink_next : WaitQueue → Store → ℕ → WaitQueue × Store
unlink_next q ls w =
    if (ls w).next == null
    then (if q.tail == w then record q { tail = (ls w).prev } else q, ls)
    else (q, set_prev ls (ls w).next (ls w).prev)

pub wait_queue_unlink : WaitQueue → Store → ℕ → WaitQueue × Store
unfolding unlink_prev unlink_next
wait_queue_unlink q ls w =
    let (q', ls') = unlink_prev q ls w in
    let (q'', ls'') = unlink_next q' ls' w in (q'', update ls'' w no_links)
