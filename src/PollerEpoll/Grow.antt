-- ===== src/PollerEpoll/Grow.antt =====
-- The growth of the table of generations of src/poller_epoll.c.
use croutine.Prelude.{
  ℕ, zero, suc, ◌+◌, ◌-◌, ◌*◌, ◌/◌, ◌^◌, ◌≤◌, ◌<◌, pos, ◌≡◌, refl, Bool, true, false, Bool-cases,
  inl, inr, Option, none, some, List, [], ◌∷◌, ◌++◌, ◌∙◌, length-append, length-replicate, ltb, leb,
  ◌==◌, if◌then◌else◌, arith, get_or, replicate, size_max, length,
}
use croutine.PollerEpoll.{FdTable, double_until, allocate_table, ensure_fd_capacity}

-- A capacity that was found, of which the descriptors below `needed` have a place each.
abbrev pub Enough : ℕ → Option ℕ → Type 0
Enough needed none = ⊥
Enough needed (some capacity) = needed ≤ capacity

double_until-Enough :
    (fuel needed capacity : ℕ)
    → 0 < capacity
    → needed ≤ capacity + fuel
    → needed ≤ 2 ^ 32
    → Enough needed (double_until fuel needed capacity)
unfolding double_until
double_until-Enough zero needed capacity some_room enough small =
    let done : ltb capacity needed ≡ false = ground arith in rw done (omega arith)
double_until-Enough (suc fuel) needed capacity some_room enough small =
    let rest = double_until-Enough fuel needed (capacity * 2) (omega arith) (omega arith) small in
    elim (Bool-cases (ltb capacity needed)) [
      | inl less ↦
          let no_overflow : ltb (size_max / 2) capacity ≡ false = ground arith in
          rw (less, no_overflow) rest
      | inr done ↦ rw done (ground arith)
    ]

length-grown :
    {A : Type 0} (xs : List A) (d : A) (old new : ℕ)
    → length xs ≡ old
    → old ≤ new
    → length (xs ++ replicate (new - old) d) ≡ new
length-grown xs d old new h bigger =
    length-append xs (replicate (new - old) d) ∙ omega (arith, length-replicate (new - old) d)

get_or-append :
    {A : Type 0} (xs : List A) (d : A) (n i : ℕ) → get_or (xs ++ replicate n d) i d ≡ get_or xs i d
get_or-append [] d zero i = refl
get_or-append [] d (suc n) zero = refl
get_or-append [] d (suc n) (suc i) = get_or-append [] d n i
get_or-append (x ∷ xs) d n zero = refl
get_or-append (x ∷ xs) d n (suc i) = get_or-append xs d n i

-- Both arrays are as long as the capacity says.
abbrev pub FillsArrays : FdTable → Type 0
FillsArrays t =
    (length t.fd_generations ≡ t.fd_table_capacity) × (length t.fd_registered ≡ t.fd_table_capacity)

-- The table that has grown for `n`: both arrays have a place for it, and every generation and
-- registration is that of before.
abbrev pub HasRoomFor : FdTable → ℕ → Bool × FdTable → Type 0
HasRoomFor t n (ok, t') =
    (ok ≡ true)
    × (n < t'.fd_table_capacity)
    × (FillsArrays t')
    × ((i : ℕ) → get_or t'.fd_generations i 0 ≡ get_or t.fd_generations i 0)
    × ((i : ℕ) → get_or t'.fd_registered i false ≡ get_or t.fd_registered i false)

allocate_table-HasRoomFor :
    (t : FdTable) (n : ℕ) (o : Option ℕ)
    → FillsArrays t
    → t.fd_table_capacity ≤ n
    → Enough (n + 1) o
    → HasRoomFor t n (allocate_table true t o)
allocate_table-HasRoomFor t n none full short h = absurd h
allocate_table-HasRoomFor t n (some capacity) (generations, registered) short h = (
  refl,
  omega arith,
  (
    length-grown t.fd_generations 0 t.fd_table_capacity capacity generations (omega arith),
    length-grown t.fd_registered false t.fd_table_capacity capacity registered (omega arith),
  ),
  get_or-append t.fd_generations 0 (capacity - t.fd_table_capacity),
  get_or-append t.fd_registered false (capacity - t.fd_table_capacity),
)

-- With the allocations granted, on a table whose two arrays are as long as its capacity, a
-- descriptor of 31 bits always gets a place: the doubling ends without overflow or lack of rounds,
-- the capacity exceeds the descriptor, both arrays are as long as the new capacity, and every
-- generation and registration is kept; new places are unregistered, in generation 0.
pub ensure_fd_capacity-HasRoomFor :
    (t : FdTable) (n : ℕ)
    → FillsArrays t
    → n < 2 ^ 31
    → HasRoomFor t n (ensure_fd_capacity true (pos n) t)
unfolding ensure_fd_capacity
ensure_fd_capacity-HasRoomFor t n full small =
    let start = if t.fd_table_capacity == 0 then 64 else t.fd_table_capacity in
    let enough =
      double_until-Enough (n + 1) (n + 1) start (ground arith) (omega arith) (omega arith) in
    elim (Bool-cases (leb (n + 1) t.fd_table_capacity)) [
      | inl fits ↦ rw fits (refl, ground arith, full, λ i. refl, λ i. refl)
      | inr short ↦ rw short (
          allocate_table-HasRoomFor t n (double_until (n + 1) (n + 1) start) full (ground arith)
            enough)
    ]
