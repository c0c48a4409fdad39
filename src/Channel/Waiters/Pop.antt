-- ===== src/Channel/Waiters/Pop.antt =====
-- `pop_live_waiter_locked` of src/channel.c finds the longest parked waiter that can be woken.
use croutine.Prelude.{
  ℕ, zero, suc, ◌<◌, ◌≡◌, ◌≢◌, refl, ◌∙◌, Bool, Option, none, some, List, [], ◌∷◌, arith,
  if◌then◌else◌, null, length, Bool-cases, inl, inr,
}
use croutine.WaitQueue.{Store, WaitQueue, wait_queue_pop_head}
use croutine.WaitQueue.Lists.{IsQueue, SameOutside, pop_head-cons, pop_head-nil}
use croutine.Channel.State.{SelectOp, World, ok}
use croutine.Channel.Waiters.{pop_live, pop_live_waiter_locked, queue, put_queue, is_done}

-- The first waiter of a list that is not done, and those behind it.
abbrev pub first_live : (ℕ → Bool) → List ℕ → Option (ℕ × List ℕ)
first_live done [] = none
first_live done (x ∷ xs) = if done x then first_live done xs else some (x, xs)

-- The waiter that the code returns, and the waiters that stay parked.
abbrev pub found : Option (ℕ × List ℕ) → ℕ
found none = null
found (some (x, xs)) = x

abbrev pub rest : Option (ℕ × List ℕ) → List ℕ
rest none = []
rest (some (x, xs)) = xs

-- `out` is the outcome of popping a waiter from a queue that holds `ids`.
pub record Popped (done : ℕ → Bool) (ls : Store) (channel : ℕ) (ids : List ℕ)
    (out : Option (ℕ × WaitQueue × Store)) : Type 0 where
  pub queue' : WaitQueue
  pub links' : Store
  pub returned : out ≡ some (found (first_live done ids), queue', links')
  pub parked : IsQueue links' channel queue' (rest (first_live done ids))
  pub same : SameOutside ids ls links'

pop_live-step :
    (fuel : ℕ) (done : ℕ → Bool) (q : WaitQueue) (ls : Store) (x : ℕ)
    → (wait_queue_pop_head q ls).0 ≡ x
    → x ≢ null
    → pop_live (suc fuel) done q ls ≡ (
        if done x
        then pop_live fuel done (wait_queue_pop_head q ls).1 (wait_queue_pop_head q ls).2
        else some (x, (wait_queue_pop_head q ls).1, (wait_queue_pop_head q ls).2))
unfolding pop_live
pop_live-step fuel done q ls x e ne = ground arith

pub pop_live-Popped :
    (fuel : ℕ) (done : ℕ → Bool) (ls : Store) (channel : ℕ) (q : WaitQueue) (ids : List ℕ)
    → IsQueue ls channel q ids
    → length ids < fuel
    → Popped done ls channel ids (pop_live fuel done q ls)
unfolding pop_live
pop_live-Popped zero done ls channel q ids v enough = absurd (omega arith)
pop_live-Popped (suc fuel) done ls channel q [] v enough = record {
  queue' = q;
  links' = ls;
  returned = rw (pop_head-nil ls channel q v);
  parked = v;
  same = λ a h. refl;
}
pop_live-Popped (suc fuel) done ls channel q (x ∷ xs) v enough =
    let (e, v', cleared, same) = pop_head-cons ls channel q x xs v in
    let step = pop_live-step fuel done q ls x e v.linked.0 in
    let (_, q', ls') = wait_queue_pop_head q ls in
    let more = pop_live-Popped fuel done ls' channel q' xs v' (omega arith) in
    elim (Bool-cases (done x)) [
      | inl d ↦ record {
        queue' = more.queue';
        links' = more.links';
        returned = step ∙ (rw d more.returned);
        parked = rw d more.parked;
        same = λ a h. more.same a (omega arith) ∙ same a h;
      }
      | inr d ↦ record {
        queue' = q';
        links' = ls';
        returned = step ∙ (rw d);
        parked = rw d v';
        same = same;
      }
    ]

-- On a well-formed queue, `pop_live_waiter_locked` ends within one round more than the queue has
-- waiters. It returns the longest parked waiter whose select has not fired, or `NULL`; that waiter
-- and the stale ones before it leave the queue, the waiters behind it stay parked in order, and no
-- waiter outside the queue is touched.
pub pop_live_waiter-first_live :
    (fuel : ℕ) (side : SelectOp) (c : ℕ) (w : World) (ids : List ℕ)
    → IsQueue w.links c (queue side (w.channels c)) ids
    → length ids < fuel
    → (q : WaitQueue) × (ls : Store) × (pop_live_waiter_locked fuel side c w
        ≡ ok (found (first_live (is_done w) ids)) (put_queue side c q ls w))
      × IsQueue ls c q (rest (first_live (is_done w) ids))
      × SameOutside ids w.links ls
unfolding pop_live_waiter_locked
pop_live_waiter-first_live fuel side c w ids v enough =
    let p = pop_live-Popped fuel (is_done w) w.links c (queue side (w.channels c)) ids v enough in
    (p.queue', p.links', rw (p.returned, pop_live_waiter_locked), p.parked, p.same)
