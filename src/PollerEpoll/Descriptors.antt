-- ===== src/PollerEpoll/Descriptors.antt =====
-- The poller's own descriptors in src/poller_epoll.c: opening, closing, waiting and waking. What the
-- kernel replies is an argument; a wait that is interrupted goes on to the next reply.
pub mod Balanced
use croutine.Prelude.{
  ℕ, zero, suc, ℤ, pos, negsuc, ◌==ℤ◌, is_negative, minus_one, Bool, true, false, not, Option, none,
  some, List, [], ◌∷◌, ◌==◌, if◌then◌else◌,
}
use croutine.PollerEpoll.{FdTable, PollEvent, EpollEvent, collect_events}

-- `poller_fd` and `wake_fd`, `-1` for none, the table, and the descriptors that the process has open.
pub record Epoll : Type 0 where
  pub poller_fd : ℤ
  pub wake_fd : ℤ
  pub table : FdTable
  pub is_open : ℤ → Bool

abbrev pub mark_open : ℤ → Bool → (ℤ → Bool) → ℤ → Bool
mark_open fd b is_open fd' = if fd ==ℤ fd' then b else is_open fd'

-- `croutine_poller_init` once `epoll_create1` has given `q`: `eventfd` gives a descriptor or nothing,
-- and `epoll_ctl` adds it or not.
unfoldable pub add_wake : Option ℤ → Bool → ℤ → Epoll → Bool × Epoll
add_wake none added q p = (
  false,
  record p {
    poller_fd = minus_one;
    wake_fd = minus_one;
    is_open = mark_open q false (mark_open q true p.is_open);
  },
)
add_wake (some w) false q p = (
  false,
  record p {
    poller_fd = minus_one;
    wake_fd = minus_one;
    is_open = mark_open q false (mark_open w false (mark_open w true (mark_open q true p.is_open)));
  },
)
add_wake (some w) true q p = (
  true,
  record p { poller_fd = q; wake_fd = w; is_open = mark_open w true (mark_open q true p.is_open) },
)

-- `epoll_create1` gives a descriptor or nothing.
unfoldable pub create_epoll : Option ℤ → Option ℤ → Bool → Epoll → Bool × Epoll
unfolding add_wake
create_epoll none wake added p = (false, record p { poller_fd = minus_one })
create_epoll (some q) wake added p = add_wake wake added q p

unfoldable pub croutine_poller_init : Option ℤ → Option ℤ → Bool → Epoll → Bool × Epoll
unfolding create_epoll
croutine_poller_init queue wake added p =
    if not (is_negative p.poller_fd) then (true, p) else create_epoll queue wake added p

-- Closing a descriptor that may be `-1`.
abbrev pub close_fd : ℤ → (ℤ → Bool) → ℤ → Bool
close_fd fd is_open = if is_negative fd then is_open else mark_open fd false is_open

unfoldable pub croutine_poller_deinit : Epoll → Epoll
croutine_poller_deinit p = record {
  poller_fd = if is_negative p.poller_fd then p.poller_fd else minus_one;
  wake_fd = if is_negative p.wake_fd then p.wake_fd else minus_one;
  table = record { fd_generations = []; fd_registered = []; fd_table_capacity = 0 };
  is_open = close_fd p.poller_fd (close_fd p.wake_fd p.is_open);
}

-- What `epoll_wait` replies: what is ready, or `errno`.
pub data WaitReply : Type 0 where
  ready : List EpollEvent → WaitReply
  unready : ℕ → WaitReply

-- The result is `-1` for nothing inside, and the events otherwise; `eintr` is `EINTR`.
unfoldable pub croutine_poller_wait :
    ℕ → FdTable → ℤ → List WaitReply → Option (Option (List PollEvent))
croutine_poller_wait eintr table (negsuc n) replies = some none
croutine_poller_wait eintr table (pos zero) replies = some none
croutine_poller_wait eintr table (pos (suc n)) [] = none
croutine_poller_wait eintr table (pos (suc n)) (ready events ∷ replies) =
    some (some (collect_events table events).0)
croutine_poller_wait eintr table (pos (suc n)) (unready code ∷ replies) =
    let rest = croutine_poller_wait eintr table (pos (suc n)) replies in
    if code == eintr then rest else some none

-- `eventfd_write` succeeds, or fails with an `errno`; `eagain` is `EAGAIN`.
unfoldable pub croutine_poller_wake : ℕ → Option ℕ → Bool
croutine_poller_wake eagain none = true
croutine_poller_wake eagain (some code) = code == eagain
