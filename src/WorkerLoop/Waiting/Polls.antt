-- ===== src/WorkerLoop/Waiting/Polls.antt =====
-- What the poller reports, and a descriptor that is forgotten, keep the workers and the table sound.
use croutine.Prelude.{
  ℕ, ◌+◌, ◌<◌, ◌≡◌, ◌≢◌, refl, sym, subst, ◌⊎◌, inl, inr, Bool-cases, Bool, true, false, ◌&&◌, ◌||◌,
  ℤ, Option, none, some, List, [], ◌∷◌, ◌==◌, arith, null, get_or, length, length-set, update,
  count, bit_or, is_negative, ltb,
}
use croutine.Task.{waiting_io, event_none, event_read, event_write}
use croutine.Scheduler.{Scheduler}
use croutine.IoWaits.{
  IoWaitTable, reset_entry, holds, find_entry, io_wait_table_find, io_wait_entry_events, take_ready,
}
use croutine.IoWaits.Table.{is_for}
use croutine.IoWaits.Invariant.{Found, find_entry-Found, ==ℤ-eq}
use croutine.IoParking.{
  Io, wake_tasks, broadcast, put_entry, drop_if_idle, woken_entry, wake_found,
  wake_waiting_tasks_locked, forgotten, worker_forget_fd,
}
use croutine.WorkerLoop.{Pc, deciding, gone, wake_events, polled}
use croutine.PollerEpoll.{PollEvent}
use croutine.WorkerLoop.Exclusive.{in_hand, wanted, Exclusive-same, Exclusive-flags}
use croutine.WorkerLoop.Exclusive.Wakes.{Exclusive-elsewhere}
use croutine.WorkerLoop.Waiting.{AllWaiting, AllWaiting-at, AllWaiting-replace}
use croutine.WorkerLoop.Waiting.Changes.{put-IsTable, remove-IsTable, remove-AllWaiting}
use croutine.WorkerLoop.Waiting.Wakes.{
  Sound, WokenOnly, wake_tasks-WokenOnly, take_ready-same, woken-Waits, left-IsWaiting,
  other-IsWaiting,
}

broadcast-same :
    (tasks : List ℕ) (s : Scheduler)
    → ((broadcast tasks s).runnable_tasks ≡ s.runnable_tasks)
      × ((broadcast tasks s).tasks ≡ s.tasks)
broadcast-same [] s = (refl, refl)
broadcast-same (task ∷ tasks) s = (refl, refl)

pub drop_if_idle-Sound :
    (s : Scheduler) (table : IoWaitTable) (pc : ℕ → Pc) (i events : ℕ)
    → i < length table.entries
    → Sound s table pc
    → Sound s (drop_if_idle table i events) pc
drop_if_idle-Sound s table pc i events bound x = elim (Bool-cases (events == event_none)) [
  | inl idle ↦ rw idle (record {
    exclusive = x.exclusive;
    good = remove-IsTable table i bound x.good;
    waiting = remove-AllWaiting s.tasks table i x.waiting;
  })
  | inr busy ↦ rw busy x
]

-- The tasks that were ready are woken, and their entry keeps the others.
woken-Sound :
    (s s' : Scheduler) (table : IoWaitTable) (pc : ℕ → Pc) (fd : ℤ) (ready i : ℕ)
    → let entry = get_or table.entries i reset_entry in
      let (tasks, entry') = take_ready entry ready in
      i < length table.entries
      → holds entry fd ≡ true
      → Sound s table pc
      → WokenOnly s tasks (some s')
      → Sound s' (put_entry table i entry') pc
woken-Sound s s' table pc fd ready i bound here x (v', same) =
    let entry = get_or table.entries i reset_entry in
    let (at_fd, in_use, _) = take_ready-same entry ready in
    let used : entry.in_use ≡ true = ground arith in
    let is_fd : entry.fd ≡ fd = ==ℤ-eq entry.fd fd (ground arith) in
    let w = AllWaiting-at s.tasks table.entries i x.waiting in
    record {
      exclusive =
          Exclusive-elsewhere s s' pc v'
            (λ t free. elim (woken-Waits s.tasks entry ready t used w) [
              | inl unwoken ↦ same t unwoken
              | inr (_, waits_, _) ↦ absurd (ground arith)
            ])
            x.exclusive;
      good = put-IsTable table i (take_ready entry ready).1 bound in_use at_fd x.good;
      waiting =
          AllWaiting-replace s.tasks s'.tasks fd table.entries i (take_ready entry ready).1
            (x.good.2 fd) here
            (other-IsWaiting s.tasks s'.tasks fd (take_ready entry ready).0
              (λ t.
                subst
                  (λ f.
                    (count t (take_ready entry ready).0 ≡ 0)
                    ⊎ ((t ≢ null) × ((s.tasks t).state ≡ waiting_io) × ((s.tasks t).io_fd ≡ f)))
                  is_fd (woken-Waits s.tasks entry ready t used w))
              same)
            (left-IsWaiting s.tasks s'.tasks entry ready used w same) x.waiting;
    }

pub Sound-same :
    (s s' : Scheduler) (table : IoWaitTable) (pc : ℕ → Pc) (w : ℕ) (p : Pc)
    → s'.runnable_tasks ≡ s.runnable_tasks
    → s'.tasks ≡ s.tasks
    → Sound s table pc
    → ((t : ℕ) → in_hand p t ≡ true → (in_hand (pc w) t ≡ true) × (wanted p ≡ wanted (pc w)))
    → Sound s' table (update pc w p)
Sound-same s s' table pc w p eq et x keeps = record {
  exclusive = Exclusive-same s s' pc w p eq et x.exclusive keeps;
  good = x.good;
  waiting = subst (λ ts. AllWaiting ts table.entries) (sym et) x.waiting;
}

pub Sound-flags :
    (s s' : Scheduler) (table : IoWaitTable) (pc : ℕ → Pc)
    → s'.runnable_tasks ≡ s.runnable_tasks
    → s'.tasks ≡ s.tasks
    → Sound s table pc
    → Sound s' table pc
Sound-flags s s' table pc eq et x = record {
  exclusive = Exclusive-flags s s' pc eq et x.exclusive;
  good = x.good;
  waiting = subst (λ ts. AllWaiting ts table.entries) (sym et) x.waiting;
}

module _ {P : Type 0} (poller_set : ℤ → ℕ → ℕ → P → Bool × P) where
  -- A wake that does not abort leaves a sound state.
  abbrev pub StaysSound : (ℕ → Pc) → Option (List ℕ × Io P) → Type 0
  StaysSound pc none = Unit
  StaysSound pc (some (tasks, io)) = Sound io.sched io.io_waits pc

  woken_entry-Sound :
      (set_ok : Bool) (o : Option Scheduler) (p : P) (fd : ℤ) (ready i : ℕ) (io : Io P)
      (pc : ℕ → Pc)
      → let entry = get_or io.io_waits.entries i reset_entry in
        let (tasks, entry') = take_ready entry ready in
        i < length io.io_waits.entries
        → holds entry fd ≡ true
        → Sound io.sched io.io_waits pc
        → WokenOnly io.sched tasks o
        → StaysSound pc (woken_entry poller_set set_ok o p i tasks entry' io)
  woken_entry-Sound false o p fd ready i io pc bound here x w = tt
  woken_entry-Sound true none p fd ready i io pc bound here x w = tt
  woken_entry-Sound true (some s) p fd ready i io pc bound here x w =
      let entry = get_or io.io_waits.entries i reset_entry in
      let (tasks, entry') = take_ready entry ready in
      let y = woken-Sound io.sched s io.io_waits pc fd ready i bound here x w in
      let (eq, et) = broadcast-same tasks s in
      drop_if_idle-Sound (broadcast tasks s) (put_entry io.io_waits i entry') pc i
        (io_wait_entry_events entry') (rw length-set bound)
        (record {
          exclusive = Exclusive-flags s (broadcast tasks s) pc eq et y.exclusive;
          good = y.good;
          waiting =
              subst (λ ts. AllWaiting ts (put_entry io.io_waits i entry').entries) (sym et)
                y.waiting;
        })

  wake_found-Sound :
      (fd : ℤ) (ready : ℕ) (success : Bool) (io : Io P) (pc : ℕ → Pc) (o : Option ℕ)
      → Found (is_for fd) io.io_waits.entries o
      → Sound io.sched io.io_waits pc
      → StaysSound pc (wake_found poller_set fd ready success io o)
  unfolding wake_found
  wake_found-Sound fd ready success io pc none h x = x
  wake_found-Sound fd ready success io pc (some i) (bound, here) x =
      let entry = get_or io.io_waits.entries i reset_entry in
      let (tasks, entry') = take_ready entry ready in
      let (set_ok, p) =
        poller_set fd (io_wait_entry_events entry) (io_wait_entry_events entry') io.poller in
      woken_entry-Sound set_ok (wake_tasks tasks success io.sched) p fd ready i io pc bound here x
        (wake_tasks-WokenOnly tasks success io.sched x.exclusive.sched)

  pub wake_waiting_tasks-Sound :
      (fd : ℤ) (ready : ℕ) (success : Bool) (io : Io P) (pc : ℕ → Pc)
      → Sound io.sched io.io_waits pc
      → StaysSound pc (wake_waiting_tasks_locked poller_set fd ready success io)
  unfolding wake_waiting_tasks_locked io_wait_table_find
  wake_waiting_tasks-Sound fd ready success io pc x =
      wake_found-Sound fd ready success io pc (find_entry io.io_waits.entries fd)
        (find_entry-Found io.io_waits.entries fd) x

  abbrev pub StaysSoundIo : (ℕ → Pc) → Option (Io P) → Type 0
  StaysSoundIo pc none = Unit
  StaysSoundIo pc (some io) = Sound io.sched io.io_waits pc

  wake_events-Sound :
      (events : List PollEvent) (io : Io P) (pc : ℕ → Pc)
      → Sound io.sched io.io_waits pc
      → StaysSoundIo pc (wake_events poller_set events io)
  unfolding wake_events
  wake_events-Sound [] io pc x = x
  wake_events-Sound (e ∷ events) io pc x =
      rest (wake_waiting_tasks_locked poller_set e.fd e.events true io)
        (λ io' h. wake_events-Sound events io' pc h)
        (wake_waiting_tasks-Sound e.fd e.events true io pc x)
    where
      rest :
          (o : Option (List ℕ × Io P))
          → ((io' : Io P)
              → Sound io'.sched io'.io_waits pc
              → StaysSoundIo pc (wake_events poller_set events io'))
          → StaysSound pc o
          → StaysSoundIo pc
              (elim o [ none ↦ none | some (tasks, io') ↦ wake_events poller_set events io' ])
      rest none later h = tt
      rest (some (tasks, io')) later h = later io' h

  abbrev pub Polled : (ℕ → Pc) → ℕ → Option (Pc × Io P) → Type 0
  Polled pc w none = Unit
  Polled pc w (some (p, io)) = Sound io.sched io.io_waits (update pc w p)

  handled-Polled :
      (o : Option (Io P)) (pc : ℕ → Pc) (w : ℕ)
      → StaysSoundIo pc o
      → Polled pc w (elim o [ none ↦ none | some io' ↦ some (deciding true, io') ])
  handled-Polled none pc w h = tt
  handled-Polled (some io) pc w h =
      Sound-same io.sched io.sched io.io_waits pc w (deciding true) refl refl h
        (λ t held. absurd (ground arith))

  pub polled-Polled :
      (ready : Option (List PollEvent)) (io : Io P) (pc : ℕ → Pc) (w : ℕ)
      → Sound io.sched io.io_waits pc
      → Polled pc w (polled poller_set ready io)
  unfolding polled
  polled-Polled ready io pc w x =
      let s = record io.sched {
        poller_waiter_active = false;
        broadcasts = io.sched.broadcasts + 1;
      } in
      elim (Bool-cases (io.sched.shutdown_requested || io.sched.scheduler_main_finished)) [
        | inl stop ↦ rw stop (
            Sound-same io.sched s io.io_waits pc w gone refl refl x
              (λ t held. absurd (ground arith)))
        | inr on ↦ rw on (go s ready (Sound-flags io.sched s io.io_waits pc refl refl x))
      ]
    where
      go :
          (s : Scheduler) (o : Option (List PollEvent))
          → Sound s io.io_waits pc
          → Polled pc w (elim o [
            | none ↦ none
            | some events ↦ elim (wake_events poller_set events (record io { sched = s })) [
              | none ↦ none
              | some io' ↦ some (deciding true, io')
            ]
          ])
      go s none y = tt
      go s (some events) y =
          handled-Polled (wake_events poller_set events (record io { sched = s })) pc w
            (wake_events-Sound events (record io { sched = s }) pc y)

  pub forget-Sound :
      (fd : ℤ) (io : Io P) (pc : ℕ → Pc)
      → Sound io.sched io.io_waits pc
      → StaysSoundIo pc (worker_forget_fd poller_set fd io)
  unfolding worker_forget_fd
  forget-Sound fd io pc x = elim (Bool-cases (is_negative fd)) [
    | inl e ↦ rw e x
    | inr e ↦ rw e (
        forgotten-Sound
          (wake_waiting_tasks_locked poller_set fd (bit_or 32 event_read event_write) false io)
          (wake_waiting_tasks-Sound fd (bit_or 32 event_read event_write) false io pc x))
  ]
    where
      forgotten-Sound :
          (o : Option (List ℕ × Io P)) → StaysSound pc o → StaysSoundIo pc (forgotten poller_set o)
      forgotten-Sound none h = tt
      forgotten-Sound (some (tasks, io')) h =
          elim (Bool-cases (ltb 0 (length tasks) && io'.sched.poller_waiter_active)) [
            | inl e ↦ rw e (
                Sound-flags io'.sched
                  (record io'.sched { poller_wakes = io'.sched.poller_wakes + 1 }) io'.io_waits pc
                  refl refl h)
            | inr e ↦ rw e h
          ]
