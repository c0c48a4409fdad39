-- ===== src/WaitQueue/Tests.antt =====
-- Tests of the wait queues.
use croutine.Prelude.{◌≡◌, refl, [], ◌∷◌, arith, null, ◌==◌, if◌then◌else◌}
use croutine.WaitQueue.{Store, no_links, WaitQueue, wait_queue_unlink}
use croutine.WaitQueue.Lists.{IsQueue, SameOutside}
use croutine.WaitQueue.Unlink.{unlink-erase}

-- Waiters 10, 20 and 30 are parked on channel 1.
abbrev three_links : Store
three_links = λ a.
    if a == 10
    then record { prev = null; next = 20; channel = 1 }
    else if a == 20
    then record { prev = 10; next = 30; channel = 1 }
    else if a == 30
    then record { prev = 20; next = null; channel = 1 }
    else no_links

abbrev three_waiters : WaitQueue
three_waiters = record { head = 10; tail = 30 }

three_waiters-IsQueue : IsQueue three_links 1 three_waiters (10 ∷ 20 ∷ 30 ∷ [])
three_waiters-IsQueue = record {
  head_at = refl;
  tail_at = refl;
  linked = (
    ground arith,
    refl,
    refl,
    refl,
    (ground arith, refl, refl, refl, (ground arith, refl, refl, refl, tt)),
  );
  distinct = (refl, (refl, (refl, tt)));
}

unlink-erase_example :
    let (q', ls') = wait_queue_unlink three_waiters three_links 20 in
    IsQueue ls' 1 q' (10 ∷ 30 ∷ [])
    × (ls' 20 ≡ no_links)
    × SameOutside (10 ∷ 20 ∷ 30 ∷ []) three_links ls'
unlink-erase_example =
    unlink-erase three_links 1 three_waiters (10 ∷ []) (30 ∷ []) 20 three_waiters-IsQueue
