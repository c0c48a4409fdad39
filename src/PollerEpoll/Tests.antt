-- ===== src/PollerEpoll/Tests.antt =====
-- Tests of the epoll poller, with a kernel that grants every call.
use croutine.PollerEpoll.Descriptors.{Epoll, croutine_poller_init}
use croutine.PollerEpoll.Descriptors.Balanced.{Balanced, croutine_poller_init-Balanced}
use croutine.Prelude.{
  ℕ, zero, suc, ◌<◌, ℤ, pos, ◌≡◌, ◌≢◌, refl, true, false, Option, none, some, minus_one, ◌==ℤ◌, [],
  ◌∷◌, arith, get_or,
}
use croutine.Task.{event_none, event_read}
use croutine.PollerEpoll.{
  FdTable, EpollOp, fd_token, from_epoll_events, ensure_fd_capacity, delete_fd, add_fd, is_current,
  collect_events,
}
use croutine.PollerEpoll.Stale.{IsFdTable, collect_events-current, delete_fd-add_fd-stale}
use croutine.PollerEpoll.Grow.{HasRoomFor, ensure_fd_capacity-HasRoomFor}

-- Descriptor 1 is registered, in generation 4.
abbrev two_fds : FdTable
two_fds = record {
  fd_generations = 0 ∷ 4 ∷ [];
  fd_registered = false ∷ true ∷ [];
  fd_table_capacity = 2;
}

two_fds-IsFdTable : IsFdTable two_fds
two_fds-IsFdTable = (refl, refl, narrow)
  where
    narrow : (i : ℕ) → get_or (0 ∷ 4 ∷ []) i 0 < 4294967296
    narrow zero = omega arith
    narrow (suc zero) = omega arith
    narrow (suc (suc i)) = omega arith

abbrev granting_kernel : EpollOp → ℤ → ℕ → ℕ → ℕ → Option ℕ × ℕ
granting_kernel op fd events token calls = (none, suc calls)

abbrev without_fd : FdTable
without_fd = record {
  fd_generations = 0 ∷ 5 ∷ [];
  fd_registered = false ∷ false ∷ [];
  fd_table_capacity = 2;
}

deleted : delete_fd granting_kernel (pos 1) two_fds 0 ≡ (true, without_fd, 1)
unfolding delete_fd
deleted = refl

delete_fd-add_fd-stale_example :
    (is_current without_fd (fd_token two_fds (pos 1)) ≡ false)
    × (is_current
          ((add_fd granting_kernel true (pos 1) event_read without_fd 1).1)
          (fd_token two_fds (pos 1))
        ≡ false)
delete_fd-add_fd-stale_example =
    delete_fd-add_fd-stale granting_kernel true 1 event_read two_fds without_fd 0 1
      two_fds-IsFdTable (omega arith) (omega arith) deleted

readable : from_epoll_events 1 ≡ event_read
unfolding from_epoll_events
readable = refl

readable_ne : from_epoll_events 1 ≢ event_none
readable_ne = ground (arith, readable)

collect_events-current_example :
    collect_events two_fds (record { events = 1; token = fd_token two_fds (pos 1) } ∷ []) ≡ (
      record { fd = pos 1; events = from_epoll_events 1 } ∷ (collect_events two_fds []).0,
      (collect_events two_fds []).1,
    )
collect_events-current_example =
    collect_events-current two_fds 1 1 [] two_fds-IsFdTable (omega arith) refl readable_ne

ensure_fd_capacity-HasRoomFor_example :
    HasRoomFor two_fds 9 (ensure_fd_capacity true (pos 9) two_fds)
ensure_fd_capacity-HasRoomFor_example =
    ensure_fd_capacity-HasRoomFor two_fds 9 (refl, refl) (omega arith)

-- A poller that is not open yet.
abbrev closed_poller : Epoll
closed_poller = record {
  poller_fd = minus_one;
  wake_fd = minus_one;
  table = record { fd_generations = []; fd_registered = []; fd_table_capacity = 0 };
  is_open = λ fd. fd ==ℤ pos 0;
}

croutine_poller_init-Balanced_example :
    Balanced closed_poller.is_open
      (croutine_poller_init (some (pos 3)) (some (pos 4)) true closed_poller)
croutine_poller_init-Balanced_example =
    croutine_poller_init-Balanced (some (pos 3)) (some (pos 4)) true closed_poller refl
      (refl, refl, refl, refl)
