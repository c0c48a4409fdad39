-- ===== src/PollerEpoll.antt =====
-- The epoll poller, src/poller_epoll.c: the table of generations that tells a late event of a closed
-- descriptor from one of its successor. The kernel is a parameter with a state of its own: its
-- `epoll_ctl` gives nothing for success or the `errno` of a failure.
pub mod Stale
pub mod Grow
pub mod Descriptors
mod Tests
use croutine.Prelude.{
  ℕ, bit_or, zero, suc, ◌+◌, ◌-◌, ◌*◌, ◌/◌, ◌%◌, ◌^◌, ℤ, pos, negsuc, is_negative, Bool, true,
  false, not, ◌&&◌, ◌||◌, Option, none, some, List, [], ◌∷◌, ◌++◌, ltb, leb, ◌==◌, if◌then◌else◌,
  get_or, set, replicate, length, size_max,
}
use croutine.Task.{event_none, event_read, event_write}
use croutine.IoWaits.{wants_read, wants_write}

-- `fd_generations`, `fd_registered` and `fd_table_capacity`
pub record FdTable : Type 0 where
  pub fd_generations : List ℕ
  pub fd_registered : List Bool
  pub fd_table_capacity : ℕ

-- `struct CroutinePollEvent`
pub record PollEvent : Type 0 where
  pub fd : ℤ
  pub events : ℕ

-- `struct epoll_event`
pub record EpollEvent : Type 0 where
  pub events : ℕ
  pub token : ℕ

pub data EpollOp : Type 0 where
  ctl_add ctl_mod ctl_del : EpollOp

abbrev pub wake_token : ℕ
wake_token = 2 ^ 64 - 1

abbrev pub enoent : ℕ
enoent = 2

-- `(size_t)fd`
abbrev pub fd_index : ℤ → ℕ
fd_index (pos n) = n
fd_index (negsuc n) = 2 ^ 64 - 1 - n

-- The loop that doubles `capacity`; `fuel` bounds the rounds.
unfoldable pub double_until : ℕ → ℕ → ℕ → Option ℕ
double_until zero needed capacity = if ltb capacity needed then none else some capacity
double_until (suc fuel) needed capacity =
    let rest = double_until fuel needed (capacity * 2) in
    if ltb capacity needed
    then if ltb (size_max / 2) capacity then none else rest
    else some capacity

abbrev pub grown_table : FdTable → ℕ → FdTable
grown_table t capacity = record {
  fd_generations = t.fd_generations ++ replicate (capacity - t.fd_table_capacity) 0;
  fd_registered = t.fd_registered ++ replicate (capacity - t.fd_table_capacity) false;
  fd_table_capacity = capacity;
}

-- The end of `ensure_fd_capacity`, from the two allocations on.
abbrev pub allocate_table : Bool → FdTable → Option ℕ → Bool × FdTable
allocate_table granted t none = (false, t)
allocate_table granted t (some capacity) =
    if granted then (true, grown_table t capacity) else (false, t)

-- `granted` says whether both allocations succeed. As each round adds at least 1 to a capacity that
-- is not 0, `needed` rounds are enough.
unfoldable pub ensure_fd_capacity : Bool → ℤ → FdTable → Bool × FdTable
unfolding double_until
ensure_fd_capacity granted fd t =
    let needed = fd_index fd + 1 in
    if is_negative fd
    then (false, t)
    else if leb needed t.fd_table_capacity
    then (true, t)
    else allocate_table granted t
        (double_until needed needed (if t.fd_table_capacity == 0 then 64 else t.fd_table_capacity))

unfoldable pub fd_token : FdTable → ℤ → ℕ
fd_token t fd = get_or t.fd_generations (fd_index fd) 0 * 2 ^ 32 + fd_index fd % 2 ^ 32

abbrev pub has_bit : ℕ → ℕ → Bool
has_bit mask events = events / mask % 2 == 1

-- EPOLLIN | EPOLLRDHUP | EPOLLPRI for reading, EPOLLOUT for writing
unfoldable pub to_epoll_events : ℕ → ℕ
to_epoll_events events =
    let epoll_events = if wants_read events then 0x2003 else 0 in
    if wants_write events then bit_or 32 epoll_events 4 else epoll_events

unfoldable pub from_epoll_events : ℕ → ℕ
from_epoll_events e =
    let reads = if has_bit 1 e || has_bit 2 e || has_bit 0x2000 e then event_read else event_none in
    let events = if has_bit 4 e then bit_or 32 reads event_write else reads in
    if has_bit 8 e || has_bit 16 e
    then bit_or 32 events (bit_or 32 event_read event_write)
    else events

abbrev pub set_registered : ℤ → Bool → FdTable → FdTable
set_registered fd b t = record t { fd_registered = set t.fd_registered (fd_index fd) b }

-- `fd_generations[fd]++`
abbrev pub next_generation : ℤ → FdTable → FdTable
next_generation fd t = record t {
  fd_generations =
      set t.fd_generations (fd_index fd) ((get_or t.fd_generations (fd_index fd) 0 + 1) % 2 ^ 32);
}

-- The table once the kernel has dropped `fd`.
abbrev pub forget : ℤ → FdTable → FdTable
forget fd t =
    if ltb (fd_index fd) t.fd_table_capacity
    then next_generation fd (set_registered fd false t)
    else t

abbrev pub is_success : Option ℕ → Bool
is_success none = true
is_success (some errno) = false

abbrev pub is_gone : Option ℕ → Bool
is_gone none = true
is_gone (some errno) = errno == enoent

abbrev pub is_registered : FdTable → ℤ → Bool
is_registered t fd =
    ltb (fd_index fd) t.fd_table_capacity && get_or t.fd_registered (fd_index fd) false

module _ {K : Type 0} (epoll_ctl : EpollOp → ℤ → ℕ → ℕ → K → Option ℕ × K) where
  unfoldable pub poller_ctl : EpollOp → ℤ → ℕ → ℕ → K → Bool × K
  poller_ctl op fd events token k =
      let (errno, k') = epoll_ctl op fd (to_epoll_events events) token k in (is_success errno, k')

  unfoldable pub delete_fd : ℤ → FdTable → K → Bool × FdTable × K
  delete_fd fd t k =
      let (errno, k') = epoll_ctl ctl_del fd 0 0 k in
      if is_gone errno then (true, forget fd t, k') else (false, t, k')

  unfoldable pub add_fd : Bool → ℤ → ℕ → FdTable → K → Bool × FdTable × K
  unfolding poller_ctl
  add_fd granted fd new_events t k =
      let (roomy, t') = ensure_fd_capacity granted fd t in
      let t'' = next_generation fd t' in
      let (added, k') = poller_ctl ctl_add fd new_events (fd_token t'' fd) k in
      if not roomy
      then (false, t', k)
      else if added
      then (true, set_registered fd true t'', k')
      else (false, t'', k')

  unfoldable pub modify_fd : ℤ → ℕ → FdTable → K → Bool × FdTable × K
  unfolding poller_ctl
  modify_fd fd new_events t k =
      let (modified, k') = poller_ctl ctl_mod fd new_events (fd_token t fd) k in
      if is_registered t fd then (modified, t, k') else (false, t, k)

  -- `croutine_poller_set`
  unfoldable pub poller_set_locked : Bool → ℤ → ℕ → ℕ → FdTable → K → Bool × FdTable × K
  unfolding delete_fd add_fd modify_fd
  poller_set_locked granted fd old_events new_events t k =
      if old_events == new_events
      then (true, t, k)
      else if new_events == event_none
      then delete_fd fd t k
      else if old_events == event_none
      then add_fd granted fd new_events t k
      else modify_fd fd new_events t k

-- `(int)(uint32_t)token`
abbrev pub token_fd : ℕ → ℤ
token_fd token = let n = token % 2 ^ 32 in if ltb n (2 ^ 31) then pos n else negsuc (2 ^ 32 - n - 1)

-- Whether a token is of the present registration of its descriptor.
abbrev pub is_current : FdTable → ℕ → Bool
is_current t token =
    let fd = token_fd token in
    is_registered t fd && get_or t.fd_generations (fd_index fd) 0 == token / 2 ^ 32

-- The loop of `croutine_poller_wait` over what `epoll_wait` gave: the events for the caller, and how
-- often the wake descriptor is drained.
unfoldable pub collect_events : FdTable → List EpollEvent → List PollEvent × ℕ
collect_events t [] = ([], 0)
collect_events t (e ∷ ready) =
    let (rest, drains) = collect_events t ready in
    let translated = from_epoll_events e.events in
    if e.token == wake_token
    then (rest, drains + 1)
    else if not (is_current t e.token) || translated == event_none
    then (rest, drains)
    else (record { fd = token_fd e.token; events = translated } ∷ rest, drains)
