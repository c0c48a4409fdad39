-- ===== src/WaitQueue/Unlink.antt =====
-- `wait_queue_unlink` of src/channel.c: a waiter leaves from the middle of its queue.
use croutine.Prelude.{
  ℕ, ◌<◌, ◌≡◌, ◌≢◌, refl, List, [], ◌∷◌, ◌++◌, arith, null, update, update-ne, update_self, count,
  count-append, sym, ◌∙◌, subst, subst₂,
}
use croutine.WaitQueue.{
  Store, WaitQueue, no_links, set_next, set_prev, wait_queue_unlink, unlink_prev, unlink_next,
}
use croutine.WaitQueue.Segment.{
  first, last, Distinct, Seg, last-append, last-ne, Seg-append, Seg-split, Seg-write, Seg-set_next,
  Seg-set_prev, first-append,
}
use croutine.WaitQueue.Lists.{IsQueue, SameOutside, last-ne-null, count-ne}

abbrev Apart : List ℕ → List ℕ → Type 0
Apart xs ys = (a : ℕ) → 0 < count a xs → count a ys ≡ 0

Distinct-split : (xs ys : List ℕ) → Distinct (xs ++ ys) → Distinct xs × Distinct ys × Apart xs ys
Distinct-split [] ys d = (tt, d, λ a h. absurd (omega arith))
Distinct-split (x ∷ xs) ys d =
    let (dx, dy, apart) = Distinct-split xs ys d.1 in
    (
      (omega (arith, count-append x xs ys), dx),
      dy,
      λ a h. grind (arith, apart a, count-append x xs ys),
    )

Distinct-join : (xs ys : List ℕ) → Distinct xs → Distinct ys → Apart xs ys → Distinct (xs ++ ys)
Distinct-join [] ys dx dy apart = dy
Distinct-join (x ∷ xs) ys dx dy apart = (
  ground (arith, count-append x xs ys, apart x),
  Distinct-join xs ys dx.1 dy (λ a h. apart a (omega arith)),
)

Apart-flip : (xs ys : List ℕ) (a : ℕ) → Apart xs ys → 0 < count a ys → count a xs ≡ 0
Apart-flip xs ys a apart h = ground (arith, apart a)

count-head : (a : ℕ) (xs : List ℕ) → 0 < count a (a ∷ xs)
count-head a xs = ground arith

last-mem : (p x : ℕ) (xs : List ℕ) → 0 < count (last p (x ∷ xs)) (x ∷ xs)
last-mem p x [] = ground arith
last-mem p x (y ∷ ys) = omega (arith, last-mem x y ys)

-- What a waiter's links say about its place, given the two parts of the queue around it.
record Cut (ls : Store) (channel w : ℕ) (xs ys : List ℕ) : Type 0 where
  front : Seg ls channel null xs w
  own : Seg ls channel (last null xs) (w ∷ ys) null
  front_distinct : Distinct xs
  back_distinct : Distinct (w ∷ ys)
  apart : Apart xs (w ∷ ys)

cut :
    (ls : Store) (channel w : ℕ) (q : WaitQueue) (xs ys : List ℕ)
    → IsQueue ls channel q (xs ++ w ∷ ys)
    → Cut ls channel w xs ys
cut ls channel w q xs ys v =
    let (s, t) = Seg-split ls channel null xs (w ∷ ys) null v.linked in
    let (dx, dy, apart) = Distinct-split xs (w ∷ ys) v.distinct in
    record { front = s; own = t; front_distinct = dx; back_distinct = dy; apart = apart }

-- The outcome of the first conditional: the front part leads past the waiter.
abbrev Bypassed : Store → ℕ → ℕ → WaitQueue → List ℕ → List ℕ → WaitQueue × Store → Type 0
Bypassed ls channel w q xs ys (q', ls') =
    (q'.head ≡ first xs (first ys null))
    × (q'.tail ≡ q.tail)
    × Seg ls' channel null xs (first ys null)
    × Seg ls' channel (last null xs) (w ∷ ys) null
    × SameOutside xs ls ls'

module _ (ls : Store) (channel w : ℕ) (q : WaitQueue) (ys : List ℕ) where
  unlink_prev-Bypassed :
      (xs : List ℕ)
      → Cut ls channel w xs ys
      → q.head ≡ first xs w
      → Bypassed ls channel w q xs ys (unlink_prev q ls w)
  unlink_prev-Bypassed [] c at =
      let step : unlink_prev q ls w ≡ (record q { head = (ls w).next }, ls) =
        unfold unlink_prev in ground (arith, c.own.1) in
      subst (Bypassed ls channel w q [] ys) (sym step) (c.own.2, refl, tt, c.own, λ a h. refl)
  unlink_prev-Bypassed (x ∷ xs) c at =
      let before : (ls w).prev ≡ last x xs = c.own.1 in
      let ne : (ls w).prev ≢ null =
        λ e. last-ne-null ls channel null x xs w c.front (sym before ∙ e) in
      let step : unlink_prev q ls w ≡ (q, set_next ls (ls w).prev (ls w).next) =
        unfold unlink_prev in ground (arith, ne) in
      let out : count (ls w).prev (w ∷ ys) ≡ 0 =
        subst (λ p. count p (w ∷ ys) ≡ 0) (sym before) (c.apart (last x xs) (last-mem null x xs)) in
      subst (Bypassed ls channel w q (x ∷ xs) ys) (sym step) (
        at,
        refl,
        subst₂ (λ p n. Seg (set_next ls p n) channel null (x ∷ xs) (first ys null)) (sym before)
            (sym c.own.2)
            (Seg-set_next ls channel null x xs w (first ys null) c.front_distinct c.front),
        Seg-write ls channel (last x xs) (w ∷ ys) null (ls w).prev _ out c.own,
        λ a h. update-ne ls (ls w).prev a _ (λ e. last-ne null a x xs h (sym (e ∙ before))),
      )

-- The outcome of the second conditional: the back part starts behind the front part.
abbrev Rejoined : Store → ℕ → WaitQueue → List ℕ → List ℕ → WaitQueue × Store → Type 0
Rejoined ls channel q xs ys (q', ls') =
    (q'.head ≡ q.head)
    × (q'.tail ≡ last (last null xs) ys)
    × Seg ls' channel null xs (first ys null)
    × Seg ls' channel (last null xs) ys null
    × SameOutside ys ls ls'

module _ (ls : Store) (channel w : ℕ) (q : WaitQueue) (xs : List ℕ) where
  unlink_next-Rejoined :
      (ys : List ℕ)
      → Seg ls channel null xs (first ys null)
      → Seg ls channel (last null xs) (w ∷ ys) null
      → Distinct (w ∷ ys)
      → Apart xs (w ∷ ys)
      → q.tail ≡ last w ys
      → Rejoined ls channel q xs ys (unlink_next q ls w)
  unlink_next-Rejoined [] front own d apart at =
      let step : unlink_next q ls w ≡ (record q { tail = (ls w).prev }, ls) =
        unfold unlink_next in ground (arith, own.2) in
      subst (Rejoined ls channel q xs []) (sym step) (refl, own.1, front, tt, λ a h. refl)
  unlink_next-Rejoined (y ∷ ys) front own d apart at =
      let after : (ls w).next ≡ y = own.2 in
      let ne : (ls w).next ≢ null = λ e. own.4.0 (sym after ∙ e) in
      let step : unlink_next q ls w ≡ (q, set_prev ls (ls w).next (ls w).prev) =
        unfold unlink_next in ground (arith, ne) in
      let out : count (ls w).next xs ≡ 0 =
        rw after (Apart-flip xs (w ∷ y ∷ ys) y apart (omega (arith, count-head y ys))) in
      subst (Rejoined ls channel q xs (y ∷ ys)) (sym step) (
        refl,
        at,
        Seg-write ls channel null xs y (ls w).next _ out front,
        subst₂ (λ n p. Seg (set_prev ls n p) channel (last null xs) (y ∷ ys) null) (sym after)
            (sym own.1) (Seg-set_prev ls channel w (last null xs) y ys null d.1 own.4),
        λ a h. update-ne ls (ls w).next a _ (λ e. count-ne a y ys h (e ∙ after)),
      )

-- `wait_queue_unlink` takes a waiter that is parked in a well-formed queue out from any place,
-- clears its links, keeps the order of the others and touches no waiter outside the queue.
pub unlink-erase :
    (ls : Store) (channel : ℕ) (q : WaitQueue) (xs ys : List ℕ) (w : ℕ)
    → IsQueue ls channel q (xs ++ w ∷ ys)
    → let (q', ls') = wait_queue_unlink q ls w in
      IsQueue ls' channel q' (xs ++ ys) × (ls' w ≡ no_links) × SameOutside (xs ++ w ∷ ys) ls ls'
unfolding wait_queue_unlink
unlink-erase ls channel q xs ys w v =
    let c = cut ls channel w q xs ys v in
    let (q₁, ls₁) = unlink_prev q ls w in
    let (h₁, t₁, f₁, o₁, same₁) =
      unlink_prev-Bypassed ls channel w q ys xs c (v.head_at ∙ first-append xs (w ∷ ys) null) in
    let (h₂, t₂, f₂, o₂, same₂) =
      unlink_next-Rejoined ls₁ channel w q₁ xs ys f₁ o₁ c.back_distinct c.apart
        (t₁ ∙ v.tail_at ∙ last-append null xs (w ∷ ys)) in
    let (q₂, ls₂) = unlink_next q₁ ls₁ w in
    let out : count w xs ≡ 0 = Apart-flip xs (w ∷ ys) w c.apart (count-head w ys) in
    (
      record {
        head_at = h₂ ∙ h₁ ∙ sym (first-append xs ys null);
        tail_at = t₂ ∙ sym (last-append null xs ys);
        linked =
            Seg-append (update ls₂ w no_links) channel null xs ys null
              (Seg-write ls₂ channel null xs (first ys null) w no_links out f₂)
              (Seg-write ls₂ channel (last null xs) ys null w no_links c.back_distinct.0 o₂);
        distinct =
            Distinct-join xs ys c.front_distinct c.back_distinct.1
              (λ a h. omega (arith, c.apart a h));
      },
      update_self ls₂ w no_links,
      λ a h.
          let back : count a (w ∷ ys) ≡ 0 = omega (arith, count-append a xs (w ∷ ys)) in
          update-ne ls₂ w a no_links (count-ne a w ys back)
          ∙ same₂ a (omega arith)
          ∙ same₁ a (omega (arith, count-append a xs (w ∷ ys))),
    )
