-- ===== src/WaitQueue/Segment.antt =====
-- Segments of the doubly linked list of waiters, and what writing one link does to them.
use croutine.Prelude.{
  ℕ, ◌<◌, ◌≡◌, ◌≢◌, refl, List, [], ◌∷◌, ◌++◌, arith, null, update, update-ne, sym, ap, ◌∙◌, count,
}
use croutine.WaitQueue.{Links, Store, set_next, set_prev}

-- The first waiter of a list, or what follows it.
abbrev pub first : List ℕ → ℕ → ℕ
first [] after = after
first (a ∷ _) after = a

-- The last waiter of a list, or what stands before it.
abbrev pub last : ℕ → List ℕ → ℕ
last before [] = before
last before (a ∷ xs) = last a xs

-- No waiter stands in the list twice.
abbrev pub Distinct : List ℕ → Type 0
Distinct [] = Unit
Distinct (a ∷ xs) = (count a xs ≡ 0) × Distinct xs

-- The waiters `xs`, parked on `channel`, are linked both ways between `before` and `after`.
abbrev pub Seg : Store → ℕ → ℕ → List ℕ → ℕ → Type 0
Seg ls channel before [] after = Unit
Seg ls channel before (a ∷ xs) after =
    (a ≢ null)
    × ((ls a).prev ≡ before)
    × ((ls a).next ≡ first xs after)
    × ((ls a).channel ≡ channel)
    × Seg ls channel a xs after

pub first-append : (xs ys : List ℕ) (e : ℕ) → first (xs ++ ys) e ≡ first xs (first ys e)
first-append [] ys e = refl
first-append (x ∷ xs) ys e = refl

pub last-append : (p : ℕ) (xs ys : List ℕ) → last p (xs ++ ys) ≡ last (last p xs) ys
last-append p [] ys = refl
last-append p (x ∷ xs) ys = last-append x xs ys

pub last-ne : (p a : ℕ) (x : ℕ) (xs : List ℕ) → count a (x ∷ xs) ≡ 0 → last p (x ∷ xs) ≢ a
last-ne p a x [] h = ground arith
last-ne p a x (y ∷ ys) h = last-ne x a y ys (omega arith)

pub Seg-append :
    (ls : Store) (channel p : ℕ) (xs ys : List ℕ) (e : ℕ)
    → Seg ls channel p xs (first ys e)
    → Seg ls channel (last p xs) ys e
    → Seg ls channel p (xs ++ ys) e
Seg-append ls channel p [] ys e s t = t
Seg-append ls channel p (x ∷ xs) ys e s t =
    (s.0, s.1, ground (arith, first-append xs ys e), s.3, Seg-append ls channel x xs ys e s.4 t)

pub Seg-split :
    (ls : Store) (channel p : ℕ) (xs ys : List ℕ) (e : ℕ)
    → Seg ls channel p (xs ++ ys) e
    → Seg ls channel p xs (first ys e) × Seg ls channel (last p xs) ys e
Seg-split ls channel p [] ys e s = (tt, s)
Seg-split ls channel p (x ∷ xs) ys e s =
    let (front, back) = Seg-split ls channel x xs ys e s.4 in
    ((s.0, s.1, ground (arith, first-append xs ys e), s.3, front), back)

-- A segment survives every write that spares its waiters.
pub Seg-frame :
    (ls ls' : Store) (channel p : ℕ) (xs : List ℕ) (e : ℕ)
    → ((a : ℕ) → 0 < count a xs → ls' a ≡ ls a)
    → Seg ls channel p xs e
    → Seg ls' channel p xs e
Seg-frame ls ls' channel p [] e same s = tt
Seg-frame ls ls' channel p (x ∷ xs) e same s =
    let here : ls' x ≡ ls x = same x (ground arith) in
    (
      s.0,
      ground arith,
      ground arith,
      ground arith,
      Seg-frame ls ls' channel x xs e (λ a h. same a (omega arith)) s.4,
    )

pub Seg-write :
    (ls : Store) (channel p : ℕ) (xs : List ℕ) (e a : ℕ) (l : Links)
    → count a xs ≡ 0
    → Seg ls channel p xs e
    → Seg (update ls a l) channel p xs e
Seg-write ls channel p xs e a l out =
    Seg-frame ls (update ls a l) channel p xs e (λ b h. ground arith)

-- Writing the last waiter's `next` makes the segment lead elsewhere.
pub Seg-set_next :
    (ls : Store) (channel p x : ℕ) (xs : List ℕ) (e e' : ℕ)
    → Distinct (x ∷ xs)
    → Seg ls channel p (x ∷ xs) e
    → Seg (set_next ls (last p (x ∷ xs)) e') channel p (x ∷ xs) e'
Seg-set_next ls channel p x [] e e' d s = ground arith
Seg-set_next ls channel p x (y ∷ ys) e e' d s =
    let here =
      update-ne ls (last x (y ∷ ys)) x (record (ls (last x (y ∷ ys))) { next = e' })
        (λ q. last-ne x x y ys d.0 (sym q)) in
    (
      s.0,
      ap (λ l. l.prev) here ∙ s.1,
      ap (λ l. l.next) here ∙ s.2,
      ap (λ l. l.channel) here ∙ s.3,
      Seg-set_next ls channel x y ys e e' d.1 s.4,
    )

-- Writing the first waiter's `prev` makes the segment start behind another one.
pub Seg-set_prev :
    (ls : Store) (channel p p' x : ℕ) (xs : List ℕ) (e : ℕ)
    → Distinct (x ∷ xs)
    → Seg ls channel p (x ∷ xs) e
    → Seg (set_prev ls x p') channel p' (x ∷ xs) e
Seg-set_prev ls channel p p' x xs e d s =
    (s.0, ground arith, ground arith, ground arith, Seg-write ls channel x xs e x _ d.0 s.4)
