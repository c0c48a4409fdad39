-- ===== src/WaitQueue/Lists.antt =====
-- The wait queue operations of src/channel.c as operations on the list of the parked waiters.
use croutine.Prelude.{
  ℕ, ◌≡◌, ◌≢◌, refl, true, false, List, [], ◌∷◌, ◌++◌, arith, ◌==◌, null, update, update-ne, count,
  count-append, sym, ap, ◌∙◌, subst, subst₂,
}
use croutine.WaitQueue.{
  Links, Store, WaitQueue, no_links, set_next, set_prev, wait_queue_push_tail, wait_queue_pop_head,
}
use croutine.WaitQueue.Segment.{
  first, last, Distinct, Seg, last-append, last-ne, Seg-append, Seg-write, Seg-set_next,
  Seg-set_prev,
}

-- The queue of `channel` holds the waiters `ids`, the longest parked one first.
pub record IsQueue (ls : Store) (channel : ℕ) (q : WaitQueue) (ids : List ℕ) : Type 0 where
  pub head_at : q.head ≡ first ids null
  pub tail_at : q.tail ≡ last null ids
  pub linked : Seg ls channel null ids null
  pub distinct : Distinct ids

-- The two stores agree outside the listed waiters.
abbrev pub SameOutside : List ℕ → Store → Store → Type 0
SameOutside ids ls ls' = (a : ℕ) → count a ids ≡ 0 → ls' a ≡ ls a

pub last-ne-null :
    (ls : Store) (channel p x : ℕ) (xs : List ℕ) (e : ℕ)
    → Seg ls channel p (x ∷ xs) e
    → last p (x ∷ xs) ≢ null
last-ne-null ls channel p x [] e s = s.0
last-ne-null ls channel p x (y ∷ ys) e s = last-ne-null ls channel x y ys e s.4

pub count-ne : (c a : ℕ) (xs : List ℕ) → count c (a ∷ xs) ≡ 0 → c ≢ a
count-ne c a xs h = ground arith

Distinct-snoc : (xs : List ℕ) (w : ℕ) → Distinct xs → count w xs ≡ 0 → Distinct (xs ++ w ∷ [])
Distinct-snoc [] w d out = omega arith
Distinct-snoc (x ∷ xs) w d out =
    (ground (arith, count-append x xs (w ∷ [])), Distinct-snoc xs w d.1 (omega arith))

-- On a well-formed queue, `wait_queue_push_tail` parks a waiter that is not in it behind all the
-- others and touches no waiter outside.
pub push_tail-append :
    (ls : Store) (channel : ℕ) (q : WaitQueue) (ids : List ℕ) (w : ℕ)
    → IsQueue ls channel q ids
    → w ≢ null
    → count w ids ≡ 0
    → let (q', ls') = wait_queue_push_tail q ls w channel in
      IsQueue ls' channel q' (ids ++ w ∷ []) × SameOutside (w ∷ ids) ls ls'
unfolding wait_queue_push_tail
push_tail-append ls channel q [] w v ne out =
    let at : q.tail ≡ null = v.tail_at in
    let empty : (q.tail == null) ≡ true = ground arith in
    rw empty (
      record {
        head_at = refl;
        tail_at = refl;
        linked = (ne, ground arith, ground arith, ground arith, tt);
        distinct = omega arith;
      },
      λ a h. ground arith,
    )
push_tail-append ls channel q (x ∷ xs) w v ne out =
    let at : q.tail ≡ last null (x ∷ xs) = v.tail_at in
    let more : (q.tail == null) ≡ false =
      ground (arith, last-ne-null ls channel null x xs null v.linked) in
    let l : Links = record { prev = q.tail; next = null; channel = channel } in
    let back : Seg (set_next (update ls w l) q.tail w) channel null (x ∷ xs) w =
      subst (λ t. Seg (set_next (update ls w l) t w) channel null (x ∷ xs) w) (sym at)
        (Seg-set_next (update ls w l) channel null x xs null w v.distinct
          (Seg-write ls channel null (x ∷ xs) null w l out v.linked)) in
    let apart : w ≢ q.tail = λ e. last-ne null w x xs out (sym at ∙ sym e) in
    let own : set_next (update ls w l) q.tail w w ≡ l = ground arith in
    rw more (
      record {
        head_at = v.head_at;
        tail_at = sym (last-append null (x ∷ xs) (w ∷ []));
        linked =
            Seg-append _ channel null (x ∷ xs) (w ∷ []) null back
              (ne, ap (λ k. k.prev) own ∙ at, ap (λ k. k.next) own, ap (λ k. k.channel) own, tt);
        distinct = Distinct-snoc (x ∷ xs) w v.distinct out;
      },
      λ a h.
          let miss : a ≢ q.tail = λ e. last-ne null a x xs (omega arith) (sym at ∙ sym e) in
          ground arith,
    )

-- On a well-formed queue that is not empty, `wait_queue_pop_head` takes the longest parked waiter
-- out, clears its links and touches no waiter outside the queue.
pub pop_head-cons :
    (ls : Store) (channel : ℕ) (q : WaitQueue) (a : ℕ) (ids : List ℕ)
    → IsQueue ls channel q (a ∷ ids)
    → let (w, q', ls') = wait_queue_pop_head q ls in
      (w ≡ a) × IsQueue ls' channel q' ids × (ls' a ≡ no_links) × SameOutside (a ∷ ids) ls ls'
unfolding wait_queue_pop_head
pop_head-cons ls channel q a [] v =
    let s = v.linked in
    let filled : (q.head == null) ≡ false = ground arith in
    let only : ((ls q.head).next == null) ≡ true = ground arith in
    rw (filled, only)
      (
        v.head_at,
        record { head_at = ground arith; tail_at = refl; linked = tt; distinct = tt },
        ground arith,
        λ b h. ground arith,
      )
pop_head-cons ls channel q a (b ∷ r) v =
    let s = v.linked in
    let at : q.head ≡ a = v.head_at in
    let next : (ls q.head).next ≡ b = rw at s.2 in
    let filled : (q.head == null) ≡ false = ground arith in
    let more : ((ls q.head).next == null) ≡ false = ground arith in
    let rest : Seg (update (set_prev ls (ls q.head).next null) q.head no_links) channel null (b ∷ r)
        null =
      subst₂ (λ n h. Seg (update (set_prev ls n null) h no_links) channel null (b ∷ r) null)
        (sym next) (sym at)
        (Seg-write (set_prev ls b null) channel null (b ∷ r) null a no_links v.distinct.0
          (Seg-set_prev ls channel a null b r null v.distinct.1 s.4)) in
    rw (filled, more)
      (
        at,
        record { head_at = next; tail_at = v.tail_at; linked = rest; distinct = v.distinct.1 },
        ground arith,
        λ c h.
            update-ne (set_prev ls (ls q.head).next null) q.head c no_links
              (λ e. count-ne c a (b ∷ r) h (e ∙ at))
            ∙ update-ne ls (ls q.head).next c _ (λ e. count-ne c b r (omega arith) (e ∙ next)),
      )

-- On an empty queue `wait_queue_pop_head` returns `NULL` and changes nothing.
pub pop_head-nil :
    (ls : Store) (channel : ℕ) (q : WaitQueue)
    → IsQueue ls channel q []
    → wait_queue_pop_head q ls ≡ (null, q, ls)
unfolding wait_queue_pop_head
pop_head-nil ls channel q v = ground arith
