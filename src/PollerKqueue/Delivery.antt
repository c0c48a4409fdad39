-- ===== src/PollerKqueue/Delivery.antt =====
-- What a whole wait of src/poller_kqueue.c delivers.
use croutine.Prelude.{
  ℕ, suc, ◌≤◌, ◌≡◌, refl, true, Option, none, some, ℤ, pos, List, [], ◌∷◌, ◌++◌, arith, ◌==◌,
  length,
}
use croutine.PollerEpoll.{PollEvent}
use croutine.PollerKqueue.{
  Errno, evfilt_read, evfilt_write, Kevent, Kwait, ready, unready, wait_round, collect_events,
  croutine_poller_wait,
}
use croutine.PollerKqueue.Merge.{Distinct, collect_events-Reported}
use croutine.PollerKqueue.Readiness.{says, occurs, says-collect_events}

-- Every attempt is interrupted.
abbrev pub AllInterrupted : Errno → ℕ → List Kwait → Type 0
AllInterrupted e n [] = Unit
AllInterrupted e n (kevent ∷ replies) = (kevent n ≡ unready e.eintr) × (AllInterrupted e n replies)

-- The wait has a result that fits in an array of `n` events, with one event per descriptor. Its bit
-- for reading, and likewise that for writing, is set exactly if the kernel has reported an event
-- of the descriptor with that filter, or one at the end of the stream.
abbrev pub Delivered : ℤ → ℕ → List Kevent → Option (Option (List PollEvent)) → Type 0
Delivered wake_read_fd n reported none = ⊥
Delivered wake_read_fd n reported (some none) = ⊥
Delivered wake_read_fd n reported (some (some events)) =
    (length events ≤ n)
    × (Distinct events)
    × ((fd : ℤ) → says evfilt_read fd events ≡ occurs evfilt_read wake_read_fd fd reported)
    × ((fd : ℤ) → says evfilt_write fd events ≡ occurs evfilt_write wake_read_fd fd reported)

collect_events-Delivered :
    (wake_read_fd : ℤ) (n : ℕ) (reported : List Kevent)
    → length reported ≤ n
    → Delivered wake_read_fd n reported
        (some (some ((collect_events wake_read_fd reported [] 0).0)))
collect_events-Delivered wake_read_fd n reported fits =
    let (distinct, short) = collect_events-Reported wake_read_fd reported in
    (
      omega arith,
      distinct,
      λ fd. says-collect_events evfilt_read wake_read_fd fd reported [] 0 refl,
      λ fd. says-collect_events evfilt_write wake_read_fd fd reported [] 0 refl,
    )

interrupted :
    (e : Errno) (wake_read_fd : ℤ) (rest : Option (Option (List PollEvent)))
    → wait_round e wake_read_fd (unready e.eintr) rest ≡ rest
interrupted e wake_read_fd rest =
    let same : (e.eintr == e.eintr) ≡ true = ground arith in rw same refl

-- When `kevent` never reports more events than it is asked for and answers after any number of
-- interruptions, a `croutine_poller_wait` of the kqueue poller for at least one event has a
-- result: no more events than the caller's array holds, no two of one descriptor, and the events
-- of a descriptor have the bit for reading, or for writing, exactly if the kernel has reported an
-- event of that descriptor with that filter, or at the end of the stream or in error, that is not
-- the one that wakes the poller.
pub croutine_poller_wait-Delivered :
    (e : Errno) (wake_read_fd : ℤ) (n : ℕ) (before after : List Kwait) (report : ℕ → List Kevent)
    → ((max_events : ℕ) → length (report max_events) ≤ max_events)
    → AllInterrupted e (suc n) before
    → Delivered wake_read_fd (suc n) (report (suc n)) (
        croutine_poller_wait e wake_read_fd
          (pos (suc n))
          (before ++ (λ m. ready (report m)) ∷ after))
unfolding croutine_poller_wait
croutine_poller_wait-Delivered e wake_read_fd n [] after report fits all =
    collect_events-Delivered wake_read_fd (suc n) (report (suc n)) (fits (suc n))
croutine_poller_wait-Delivered e wake_read_fd n (kevent ∷ before) after report fits (again, all) =
    let rest = croutine_poller_wait-Delivered e wake_read_fd n before after report fits all in
    rw (again, interrupted e wake_read_fd _) rest
