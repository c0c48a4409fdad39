-- ===== src/Channel/Shuffle/Permutes.antt =====
-- The try order of `croutine_select` of src/channel.c as a rearrangement of the cases.
use croutine.Prelude.{
  ℕ, zero, suc, ◌+◌, ◌%◌, ◌^◌, ◌≤◌, ◌<◌, ◌≡◌, refl, ap, ◌∙◌, Bool, List, [], ◌∷◌, ◌==◌,
  if◌then◌else◌, arith, get_or, set, length, length-set, count, leb, ltb,
}
use croutine.Channel.Shuffle.{swap, shuffle_indices, select_order, identity_order}

abbrev is : ℕ → ℕ → ℕ
is a x = if x == a then 1 else 0

count-set :
    (a : ℕ) (xs : List ℕ) (i v : ℕ)
    → i < length xs
    → count a (set xs i v) + is a (get_or xs i 0) ≡ count a xs + is a v
count-set a [] i v h = absurd (omega arith)
count-set a (x ∷ xs) zero v h = omega arith
count-set a (x ∷ xs) (suc i) v h = omega (arith, count-set a xs i v (omega arith))

get_or-written :
    (xs : List ℕ) (i j : ℕ) → i < length xs → get_or (set xs i (get_or xs j 0)) j 0 ≡ get_or xs j 0
get_or-written [] i j h = absurd (omega arith)
get_or-written (x ∷ xs) zero zero h = refl
get_or-written (x ∷ xs) zero (suc j) h = refl
get_or-written (x ∷ xs) (suc i) zero h = refl
get_or-written (x ∷ xs) (suc i) (suc j) h = get_or-written xs i j (omega arith)

count-swap :
    (a : ℕ) (xs : List ℕ) (i j : ℕ)
    → i < length xs
    → j < length xs
    → count a (swap i j xs) ≡ count a xs
count-swap a xs i j i_in j_in =
    let ys = set xs i (get_or xs j 0) in
    let one = count-set a xs i (get_or xs j 0) i_in in
    let bound = length-set xs i (get_or xs j 0) in
    let two = count-set a ys j (get_or xs i 0) (omega arith) in
    let same = ap (is a) (get_or-written xs i j i_in) in omega arith

length-swap : (xs : List ℕ) (i j : ℕ) → length (swap i j xs) ≡ length xs
length-swap xs i j =
    length-set (set xs i (get_or xs j 0)) j (get_or xs i 0) ∙ length-set xs i (get_or xs j 0)

shuffle-count :
    (draw : ℕ → ℕ) (n rng : ℕ) (idx : List ℕ) (a : ℕ)
    → n ≤ length idx
    → count a ((shuffle_indices draw n rng idx).0) ≡ count a idx
unfolding shuffle_indices
shuffle-count draw zero rng idx a h = refl
shuffle-count draw (suc zero) rng idx a h = refl
shuffle-count draw (suc (suc k)) rng idx a h =
    let x = draw rng in
    let len = length-swap idx (suc k) (x % (k + 2)) in
    shuffle-count draw (suc k) x (swap (suc k) (x % (k + 2)) idx) a (omega arith)
    ∙ count-swap a idx (suc k) (x % (k + 2)) (omega arith) (omega arith)

length-identity : (i n : ℕ) → length (identity_order i n) ≡ n
length-identity i zero = refl
length-identity i (suc n) = ap suc (length-identity (i + 1) n)

count-identity :
    (i n a : ℕ)
    → i + n ≤ 2 ^ 32
    → count a (identity_order i n) ≡ (if leb i a then if ltb a (i + n) then 1 else 0 else 0)
count-identity i zero a h = ground arith
count-identity i (suc n) a h =
    let exact : i % 2 ^ 32 ≡ i = omega arith in
    rw exact (ground (arith, count-identity (i + 1) n a (omega arith)))

-- For at most 2^32 cases, whatever numbers are drawn and whether or not the allocation is granted,
-- the order in which a select tries its `n` cases holds each index below `n` exactly once and no
-- other number.
pub select_order-count :
    (granted : Bool) (draw : ℕ → ℕ) (rng n a : ℕ)
    → n ≤ 2 ^ 32
    → count a ((select_order granted draw rng n).0) ≡ (if ltb a n then 1 else 0)
unfolding select_order
select_order-count granted draw rng n a h =
    let every = count-identity 0 n a (omega arith) in
    let shuffled =
      shuffle-count draw n rng (identity_order 0 n) a (omega (arith, length-identity 0 n)) in
    ground (arith, every, shuffled)
