-- ===== src/WorkerLoop/Waiting/Parks.antt =====
-- A task that parks on a descriptor keeps the workers and the table sound.
use croutine.Prelude.{
  ℕ, ◌^◌, ◌≤◌, ◌<◌, ◌≡◌, refl, sym, ap, subst, ◌⊎◌, inl, inr, Bool-cases, Bool, true, false, ◌||◌,
  ℤ, Option, none, some, ◌==◌, arith, if◌then◌else◌, null, get_or, length, update, bit_or,
}
use croutine.Task.{waiting_io, event_none}
use croutine.Scheduler.{Scheduler}
use croutine.IoWaits.{
  IoWaitTable, reset_entry, holds, io_wait_table_find, io_wait_entry_events, wants_read,
  wants_write,
}
use croutine.IoWaits.Table.{IsTable}
use croutine.IoWaits.Invariant.{==ℤ-eq}
use croutine.IoParking.{Io, put_entry, drop_if_idle}
use croutine.WorkerLoop.{Pc, running, yielded}
use croutine.WorkerLoop.Exclusive.{in_hand, held-is_free, Exclusive-write}
use croutine.WorkerLoop.Waiting.{Waits, AllWaiting-at, AllWaiting-replace}
use croutine.WorkerLoop.Waiting.Changes.{put-IsTable}
use croutine.WorkerLoop.Waiting.Wakes.{Sound}
use croutine.WorkerLoop.Waiting.Polls.{Sound-same, drop_if_idle-Sound}
use croutine.IoWaits.{
  io_wait_table_get_or_insert, get_or_insert_found, make_room, io_wait_table_grow,
}
use croutine.IoWaits.Lookup.{GotEntry, io_wait_table_get_or_insert-GotEntry}
use croutine.IoWaits.Invariant.{io_wait_table_get_or_insert-IsTable}
use croutine.IoParking.{
  IoBegun, claim, is_taken, park_on_entry, park_found, parked_task, worker_park_current_on_io,
}
use croutine.WorkerLoop.System.{after_park}
use croutine.WorkerLoop.Waiting.Changes.{get_or_insert-AllWaiting}

-- The entry that a look-up gave is the descriptor's.
abbrev HasEntry : ℤ → Option ℕ × IoWaitTable → Type 0
HasEntry fd (none, table) = Unit
HasEntry fd (some i, table) =
    (i < length table.entries) × (holds (get_or table.entries i reset_entry) fd ≡ true)

GotEntry-HasEntry :
    (table : IoWaitTable) (fd : ℤ) (o : Option ℕ) (after : IoWaitTable)
    → GotEntry table fd (o, after)
    → HasEntry fd (o, after)
GotEntry-HasEntry table fd none after h = tt
GotEntry-HasEntry table fd (some i) after (bound, here, _) = (bound, here)

-- A refused allocation matters only if the table has to grow.
refused_or_same :
    (table : IoWaitTable) (fd : ℤ) (o : Option ℕ)
    → (get_or_insert_found false table fd o ≡ (none, table))
      ⊎ (get_or_insert_found false table fd o ≡ get_or_insert_found true table fd o)
unfolding get_or_insert_found make_room io_wait_table_grow
refused_or_same table fd (some i) = inr refl
refused_or_same table fd none = elim (Bool-cases (table.count == table.capacity)) [
  | inl full ↦ inl (rw full refl)
  | inr vacant ↦ inr (rw vacant refl)
]

get_or_insert-HasEntry :
    (granted : Bool) (table : IoWaitTable) (fd : ℤ)
    → IsTable table
    → table.capacity ≤ 2 ^ 62
    → HasEntry fd (io_wait_table_get_or_insert granted table fd)
unfolding io_wait_table_get_or_insert
get_or_insert-HasEntry true table fd good small =
    GotEntry-HasEntry table fd _ _ (io_wait_table_get_or_insert-GotEntry table fd good small)
get_or_insert-HasEntry false table fd good small =
    elim (refused_or_same table fd (io_wait_table_find table fd)) [
      | inl e ↦ subst (HasEntry fd) (sym e) tt
      | inr e ↦ subst (HasEntry fd) (sym e) (
          GotEntry-HasEntry table fd _ _ (io_wait_table_get_or_insert-GotEntry table fd good small))
    ]

module _ {P : Type 0} (poller_set : ℤ → ℕ → ℕ → P → Bool × P) where
  abbrev pub ParksSound : (ℕ → Pc) → ℕ → ℕ → IoBegun × Io P → Type 0
  ParksSound pc w current (begun, io) =
      Sound io.sched io.io_waits (update pc w (after_park current begun))

  refused-Sound :
      (s : Scheduler) (table : IoWaitTable) (pc : ℕ → Pc) (w current : ℕ)
      → pc w ≡ running current
      → Sound s table pc
      → Sound s table (update pc w (running current))
  refused-Sound s table pc w current e x =
      Sound-same s s table pc w (running current) refl refl x (λ t h. rw e (h, refl))

  claim-Sound :
      (fd : ℤ) (events i : ℕ) (current w : ℕ) (s : Scheduler) (table : IoWaitTable) (pc : ℕ → Pc)
      → pc w ≡ running current
      → Sound s table pc
      → i < length table.entries
      → holds (get_or table.entries i reset_entry) fd ≡ true
      → Sound
          (record s {
            tasks = update s.tasks current (parked_task poller_set fd events (s.tasks current));
          })
          (put_entry table i (claim poller_set events current (get_or table.entries i reset_entry)))
          (update pc w (yielded current waiting_io))
  claim-Sound fd events i current w s table pc e x bound here =
      let entry = get_or table.entries i reset_entry in
      let mine : in_hand (pc w) current ≡ true = rw e (ground arith) in
      let free = held-is_free s pc w current x.exclusive mine in
      let is_fd : entry.fd ≡ fd = ==ℤ-eq entry.fd fd (ground arith) in
      let used : entry.in_use ≡ true = ground arith in
      let ts = s.tasks in
      let ts' = update ts current (parked_task poller_set fd events (ts current)) in
      record {
        exclusive =
            Exclusive-write s (record s { tasks = ts' }) pc w (yielded current waiting_io) current
              (parked_task poller_set fd events (ts current)) refl refl (ground arith) x.exclusive
              mine (λ t h. absurd (ground arith));
        good = put-IsTable table i (claim poller_set events current entry) bound refl refl x.good;
        waiting =
            AllWaiting-replace ts ts' fd table.entries i (claim poller_set events current entry)
              (x.good.2 fd) here
              (λ y elsewhere old in_use. (
                still_waits (y.fd) y.read_task (old in_use).0,
                still_waits (y.fd) y.write_task (old in_use).1,
              ))
              (λ in_use. (
                claimed entry.fd (wants_read events) entry.read_task is_fd
                    (AllWaiting-at ts table.entries i x.waiting used).0,
                claimed entry.fd (wants_write events) entry.write_task is_fd
                    (AllWaiting-at ts table.entries i x.waiting used).1,
              ))
              x.waiting;
      }
    where
      still_waits :
          (at_fd : ℤ) (t : ℕ)
          → Waits s.tasks at_fd t
          → Waits
              (update s.tasks current (parked_task poller_set fd events (s.tasks current)))
              at_fd
              t
      still_waits at_fd t h ne =
          let (state, here') = h ne in
          let free = held-is_free s pc w current x.exclusive (rw e (ground arith)) in
          let other : (t == current) ≡ false = elim (Bool-cases (t == current)) [
            | inl is ↦
                (let same : t ≡ current = ground arith in
                  absurd (ground (arith, ap (λ u. (s.tasks u).state) same)))
            | inr ne' ↦ ne'
          ] in
          (rw other state, rw other here')

      claimed :
          (at_fd : ℤ) (takes : Bool) (t : ℕ)
          → at_fd ≡ fd
          → Waits s.tasks at_fd t
          → Waits
              (update s.tasks current (parked_task poller_set fd events (s.tasks current)))
              at_fd
              (if takes then current else t)
      claimed at_fd true t is h ne = (ground arith, ground arith)
      claimed at_fd false t is h ne = still_waits at_fd t h ne

  park_on_entry-Sound :
      (fd : ℤ) (events i current w : ℕ) (io : Io P) (pc : ℕ → Pc)
      → pc w ≡ running current
      → Sound io.sched io.io_waits pc
      → i < length io.io_waits.entries
      → holds (get_or io.io_waits.entries i reset_entry) fd ≡ true
      → ParksSound pc w current (park_on_entry poller_set fd events current i io)
  unfolding park_on_entry
  park_on_entry-Sound fd events i current w io pc e x bound here =
      let entry = get_or io.io_waits.entries i reset_entry in
      let old_events = io_wait_entry_events entry in
      elim (Bool-cases (is_taken poller_set events entry)) [
        | inl taken ↦ rw taken (refused-Sound io.sched io.io_waits pc w current e x)
        | inr vacant ↦
            elim (Bool-cases (poller_set fd old_events (bit_or 32 old_events events) io.poller).0) [
              | inr fails ↦
                  rw (vacant, fails)
                    (refused-Sound io.sched (drop_if_idle io.io_waits i old_events) pc w current e
                      (drop_if_idle-Sound io.sched io.io_waits pc i old_events bound x))
              | inl set_ok ↦
                  rw (vacant, set_ok)
                    (claim-Sound fd events i current w io.sched io.io_waits pc e x bound here)
            ]
      ]

  park_found-Sound :
      (o : Option ℕ) (fd : ℤ) (events current w : ℕ) (io : Io P) (pc : ℕ → Pc)
      → pc w ≡ running current
      → Sound io.sched io.io_waits pc
      → HasEntry fd (o, io.io_waits)
      → ParksSound pc w current (park_found poller_set o fd events current io)
  park_found-Sound none fd events current w io pc e x h =
      refused-Sound io.sched io.io_waits pc w current e x
  park_found-Sound (some i) fd events current w io pc e x (bound, here) =
      park_on_entry-Sound fd events i current w io pc e x bound here

  pub park_on_io-Sound :
      (granted : Bool) (fd : ℤ) (events current w : ℕ) (io : Io P) (pc : ℕ → Pc)
      → pc w ≡ running current
      → io.io_waits.capacity ≤ 2 ^ 62
      → Sound io.sched io.io_waits pc
      → ParksSound pc w current (worker_park_current_on_io poller_set granted fd events current io)
  unfolding worker_park_current_on_io
  park_on_io-Sound granted fd events current w io pc e small x =
      let (i, table) = io_wait_table_get_or_insert granted io.io_waits fd in
      elim (Bool-cases (current == null || events == event_none || io.sched.shutdown_requested)) [
        | inl refused ↦ rw refused (refused-Sound io.sched io.io_waits pc w current e x)
        | inr parks ↦ rw parks (
            park_found-Sound i fd events current w (record io { io_waits = table }) pc e
              (record {
                exclusive = x.exclusive;
                good = io_wait_table_get_or_insert-IsTable granted io.io_waits fd x.good small;
                waiting =
                    get_or_insert-AllWaiting io.sched.tasks granted io.io_waits fd x.good small
                      x.waiting;
              })
              (get_or_insert-HasEntry granted io.io_waits fd x.good small))
      ]
