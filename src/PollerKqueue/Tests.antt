-- ===== src/PollerKqueue/Tests.antt =====
-- Tests of the kqueue poller.
use croutine.Prelude.{
  ℕ, ◌≤◌, ◌≡◌, some, arith, take, refl, true, false, pos, List, [], ◌∷◌, length, length-take,
}
use croutine.Syscall.{Reply, success, fails}
use croutine.PollerKqueue.{
  Errno, Filters, evfilt_read, evfilt_write, Kevent, croutine_poller_set, WaitReply, unready,
  croutine_poller_wait,
}
use croutine.PollerKqueue.Rollback.{refusals, SetOrRolledBack, croutine_poller_set-SetOrRolledBack}
use croutine.PollerKqueue.Delivery.{Delivered, croutine_poller_wait-Delivered}

abbrev errno : Errno
errno = record { eintr = 4; enoent = 2; eagain = 35; ewouldblock = 35 }

-- Only the read filters are registered.
abbrev reading : Filters
reading fd evfilt_read = true
reading fd _ = false

-- The read filter is dropped, the write filter is refused, and the read filter is added again.
abbrev replies : List Reply
replies = success 0 ∷ fails 4 ∷ fails 12 ∷ success 0 ∷ []

croutine_poller_set-SetOrRolledBack_example :
    SetOrRolledBack errno
      (pos 7)
      1
      2
      (refusals errno replies)
      (croutine_poller_set errno (pos 7) 1 2 replies reading)
croutine_poller_set-SetOrRolledBack_example =
    croutine_poller_set-SetOrRolledBack errno (pos 7) 1 2 replies reading (refl, refl)

-- Both filters of descriptor 7, the pipe 3, and descriptor 9 at its end.
abbrev ready : List Kevent
ready =
    record { ident = pos 7; filter = evfilt_read; at_end = false }
    ∷ record { ident = pos 3; filter = evfilt_read; at_end = false }
    ∷ record { ident = pos 7; filter = evfilt_write; at_end = false }
    ∷ record { ident = pos 9; filter = evfilt_read; at_end = true }
    ∷ []

-- What `kevent` reports when it is asked for so many events.
abbrev report : ℕ → List Kevent
report max_events = take max_events ready

length-report : (max_events : ℕ) → length (report max_events) ≤ max_events
length-report max_events = omega (arith, length-take max_events ready)

-- An interruption comes first; the end of stream of descriptor 9 is not reported any more.
croutine_poller_wait-Delivered_example : Delivered (pos 3) 3 (report 3) (
    croutine_poller_wait errno
      (pos 3)
      (pos 3)
      ((λ m. unready 4) ∷ (λ m. WaitReply.ready (report m)) ∷ []))
croutine_poller_wait-Delivered_example =
    croutine_poller_wait-Delivered errno (pos 3) 2 ((λ m. unready 4) ∷ []) [] report length-report
      (refl, tt)

reported_once :
    croutine_poller_wait errno (pos 3) (pos 3) ((λ m. WaitReply.ready (report m)) ∷ [])
    ≡ some (some (record { fd = pos 7; events = 3 } ∷ []))
unfolding croutine_poller_wait
reported_once = refl
