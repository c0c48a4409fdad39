-- ===== src/Channel/Invariant.antt =====
-- When a channel of src/channel.c is well formed, and what keeps it so.
use croutine.Prelude.{
  ℕ, ◌<◌, ◌≤◌, ◌≡◌, ◌≢◌, ap, sym, ◌∙◌, Bool, some, List, [], ◌∷◌, arith, null, update, update_self,
  count, ◌++◌, length, take,
}
use croutine.WaitQueue.{Store, WaitQueue}
use croutine.WaitQueue.Segment.{Seg, Seg-frame}
use croutine.WaitQueue.Lists.{IsQueue, SameOutside}
use croutine.Channel.State.{SelectOp, send, recv, Channel, World, set_channel, set_memory}
use croutine.Channel.Buffer.Fifo.{
  IsBuffer, buffered, buffer_push-append, buffer_push-IsBuffer, buffer_pop-cons,
  buffer_pop-IsBuffer, slot,
}
use croutine.Channel.Buffer.{buffer_push, buffer_pop, copy_value}
use croutine.Channel.Waiters.{set_queue, put_queue}
use croutine.Channel.Waiters.Pop.{first_live, rest}

-- The waiters `senders` and `receivers` are parked on channel `c`, the longest parked first, no
-- waiter on both sides, and the buffer is well formed.
pub record IsChannel (w : World) (c : ℕ) (senders receivers : List ℕ) : Type 0 where
  pub buffer : IsBuffer (w.channels c)
  pub send_queue : IsQueue w.links c (w.channels c).send_waiters senders
  pub recv_queue : IsQueue w.links c (w.channels c).recv_waiters receivers
  pub apart : (a : ℕ) → 0 < count a senders → count a receivers ≡ 0

pub IsQueue-frame :
    (ls ls' : Store) (c : ℕ) (q : WaitQueue) (ids : List ℕ)
    → ((a : ℕ) → 0 < count a ids → ls' a ≡ ls a)
    → IsQueue ls c q ids
    → IsQueue ls' c q ids
IsQueue-frame ls ls' c q ids same v = record {
  head_at = v.head_at;
  tail_at = v.tail_at;
  linked = Seg-frame ls ls' c null ids null same v.linked;
  distinct = v.distinct;
}

pub Seg-ne-null :
    (ls : Store) (c p : ℕ) (xs : List ℕ) (e a : ℕ) → Seg ls c p xs e → 0 < count a xs → a ≢ null
Seg-ne-null ls c p [] e a s h = absurd (omega arith)
Seg-ne-null ls c p (x ∷ xs) e a s h = ground (arith, s.0, Seg-ne-null ls c x xs e a s.4)

pub count-rest :
    (done : ℕ → Bool) (a : ℕ) (xs : List ℕ) → count a (rest (first_live done xs)) ≤ count a xs
count-rest done a [] = omega arith
count-rest done a (x ∷ xs) = ground (arith, count-rest done a xs)

pub count-found :
    (done : ℕ → Bool) (xs : List ℕ) (x : ℕ) (ys : List ℕ)
    → first_live done xs ≡ some (x, ys)
    → 0 < count x xs
count-found done [] x ys e = cc
count-found done (y ∷ xs) x ys e = ground (arith, count-found done xs x ys)

pub set_queue-IsBuffer :
    (side : SelectOp) (q : WaitQueue) (ch : Channel) → IsBuffer ch → IsBuffer (set_queue side q ch)
set_queue-IsBuffer send q ch b = record {
  fits = b.fits;
  addressable = b.addressable;
  countable = b.countable;
  len_in = b.len_in;
  head_in = b.head_in;
  tail_at = b.tail_at;
}
set_queue-IsBuffer recv q ch b = record {
  fits = b.fits;
  addressable = b.addressable;
  countable = b.countable;
  len_in = b.len_in;
  head_in = b.head_in;
  tail_at = b.tail_at;
}

apart-flip :
    (xs ys : List ℕ)
    → ((a : ℕ) → 0 < count a xs → count a ys ≡ 0)
    → (a : ℕ) → 0 < count a ys
    → count a xs ≡ 0
apart-flip xs ys apart a h = ground (arith, apart a)

-- Popping waiters of one side keeps the channel well formed.
pub put_recv-IsChannel :
    (w : World) (c : ℕ) (ss rs ys : List ℕ) (q : WaitQueue) (ls : Store)
    → IsChannel w c ss rs
    → IsQueue ls c q ys
    → SameOutside rs w.links ls
    → ((a : ℕ) → count a ys ≤ count a rs)
    → IsChannel (put_queue recv c q ls w) c ss ys
put_recv-IsChannel w c ss rs ys q ls v parked same fewer =
    let at = update_self w.channels c (set_queue recv q (w.channels c)) in
    record {
      buffer = rw at (set_queue-IsBuffer recv q (w.channels c) v.buffer);
      send_queue =
          rw at (IsQueue-frame w.links ls c _ ss (λ a h. same a (v.apart a h)) v.send_queue);
      recv_queue = rw at parked;
      apart = λ a h. omega (arith, v.apart a h, fewer a);
    }

pub put_send-IsChannel :
    (w : World) (c : ℕ) (ss rs ys : List ℕ) (q : WaitQueue) (ls : Store)
    → IsChannel w c ss rs
    → IsQueue ls c q ys
    → SameOutside ss w.links ls
    → ((a : ℕ) → count a ys ≤ count a ss)
    → IsChannel (put_queue send c q ls w) c ys rs
put_send-IsChannel w c ss rs ys q ls v parked same fewer =
    let at = update_self w.channels c (set_queue send q (w.channels c)) in
    record {
      buffer = rw at (set_queue-IsBuffer send q (w.channels c) v.buffer);
      send_queue = rw at parked;
      recv_queue = rw at (
          IsQueue-frame w.links ls c _ rs (λ a h. same a (apart-flip ss rs v.apart a h))
            v.recv_queue);
      apart = λ a h. v.apart a (omega (arith, fewer a));
    }

-- Being well formed depends on the channels and the links alone.
pub IsChannel-move :
    (w w' : World) (c : ℕ) (ss rs : List ℕ)
    → w'.channels ≡ w.channels
    → w'.links ≡ w.links
    → IsChannel w c ss rs
    → IsChannel w' c ss rs
IsChannel-move w w' c ss rs ec el v = record {
  buffer = rw ec v.buffer;
  send_queue = rw (ec, el) v.send_queue;
  recv_queue = rw (ec, el) v.recv_queue;
  apart = v.apart;
}

-- Buffering a value where there is room keeps the channel well formed, and appends its bytes.
pub buffer_push-IsChannel :
    (w : World) (c : ℕ) (ss rs : List ℕ) (bytes : List ℕ)
    → IsChannel w c ss rs
    → (w.channels c).len < (w.channels c).capacity
    → (w.channels c).elem_size ≤ length bytes
    → let w' = set_channel w c (buffer_push (w.channels c) bytes) in
      IsChannel w' c ss rs
      × (buffered (w'.channels c)
          ≡ buffered (w.channels c) ++ take (w.channels c).elem_size bytes ∷ [])
unfolding buffer_push
buffer_push-IsChannel w c ss rs bytes v room whole =
    let ch = w.channels c in
    let at = update_self w.channels c (buffer_push ch bytes) in
    (
      record {
        buffer = rw at (buffer_push-IsBuffer ch bytes v.buffer room whole);
        send_queue = rw at v.send_queue;
        recv_queue = rw at v.recv_queue;
        apart = v.apart;
      },
      ap buffered at ∙ buffer_push-append ch bytes v.buffer room whole,
    )

-- Taking the oldest value off a buffer that is not empty keeps the channel well formed.
pub buffer_pop-IsChannel :
    (w : World) (c out : ℕ) (ss rs : List ℕ)
    → IsChannel w c ss rs
    → 0 < (w.channels c).len
    → let (bytes, ch) = buffer_pop (w.channels c) (w.memory out) in
      let w' = set_memory (set_channel w c ch) out bytes in
      let front = slot (w.channels c) (w.channels c).head in
      IsChannel w' c ss rs
      × (buffered (w.channels c) ≡ front ∷ buffered (w'.channels c))
      × (w'.memory ≡ update w.memory out (copy_value (w.memory out) front (w.channels c).elem_size))
unfolding buffer_pop
buffer_pop-IsChannel w c out ss rs v filled =
    let ch = w.channels c in
    let (popped, copied) = buffer_pop-cons ch (w.memory out) v.buffer filled in
    let at = update_self w.channels c (buffer_pop ch (w.memory out)).1 in
    (
      record {
        buffer = rw at (buffer_pop-IsBuffer ch (w.memory out) v.buffer filled);
        send_queue = rw at v.send_queue;
        recv_queue = rw at v.recv_queue;
        apart = v.apart;
      },
      popped ∙ ap (λ k. slot ch ch.head ∷ buffered k) (sym at),
      ap (update w.memory out) copied,
    )
