-- ===== src/PollerKqueue/Merge.antt =====
-- The events that `croutine_poller_wait` of src/poller_kqueue.c hands to its caller: their number
-- and their descriptors.
use croutine.Prelude.{
  ℕ, ◌+◌, ◌≤◌, ◌≡◌, refl, ap, subst, inl, inr, Bool-cases, false, ◌&&◌, ℤ, ◌==ℤ◌, List, [], ◌∷◌,
  arith, ◌==◌, if◌then◌else◌, length,
}
use croutine.Task.{event_none}
use croutine.IoWaits.Invariant.{==ℤ-eq}
use croutine.PollerEpoll.{PollEvent}
use croutine.PollerKqueue.{
  Kevent, evfilt_read, same_filter, translate_ready_event, merge_ready_event, collect_events,
}

-- How many events are of a descriptor.
abbrev pub events_of : ℤ → List PollEvent → ℕ
events_of fd [] = 0
events_of fd (event ∷ events) = (if event.fd ==ℤ fd then 1 else 0) + events_of fd events

merge-length :
    (events : List PollEvent) (fd : ℤ) (ready : ℕ)
    → length (merge_ready_event events fd ready) ≤ length events + 1
unfolding merge_ready_event
merge-length [] fd ready = omega arith
merge-length (event ∷ events) fd ready = elim (Bool-cases (event.fd ==ℤ fd)) [
  | inl here ↦ rw here (omega arith)
  | inr elsewhere ↦ rw elsewhere (omega (arith, merge-length events fd ready))
]

merge-others :
    (events : List PollEvent) (fd fd' : ℤ) (ready : ℕ)
    → (fd ==ℤ fd') ≡ false
    → events_of fd' (merge_ready_event events fd ready) ≡ events_of fd' events
unfolding merge_ready_event
merge-others [] fd fd' ready ne = rw ne (omega arith)
merge-others (event ∷ events) fd fd' ready ne = elim (Bool-cases (event.fd ==ℤ fd)) [
  | inl here ↦ rw here refl
  | inr elsewhere ↦
      rw elsewhere
        (ap (λ n. (if event.fd ==ℤ fd' then 1 else 0) + n) (merge-others events fd fd' ready ne))
]

merge-same :
    (events : List PollEvent) (fd : ℤ) (ready : ℕ)
    → events_of fd events ≤ 1
    → events_of fd (merge_ready_event events fd ready) ≤ 1
unfolding merge_ready_event
merge-same [] fd ready h = ground arith
merge-same (event ∷ events) fd ready h = elim (Bool-cases (event.fd ==ℤ fd)) [
  | inl here ↦ rw here h
  | inr elsewhere ↦
      rw (elsewhere, elsewhere)
        (let rest = merge-same events fd ready (ground arith) in omega arith)
]

-- No descriptor has two events.
abbrev pub Distinct : List PollEvent → Type 0
Distinct events = (fd : ℤ) → events_of fd events ≤ 1

merge-Distinct :
    (events : List PollEvent) (fd : ℤ) (ready : ℕ)
    → Distinct events
    → Distinct (merge_ready_event events fd ready)
merge-Distinct events fd ready h fd' = elim (Bool-cases (fd ==ℤ fd')) [
  | inr other ↦ rw (merge-others events fd fd' ready other) (h fd')
  | inl same ↦
      subst (λ f. events_of f (merge_ready_event events fd ready) ≤ 1) (==ℤ-eq fd fd' same)
        (merge-same events fd ready (h fd))
]

-- What the loop reports: distinct descriptors, and no more events than there were and were read.
abbrev pub Reported : ℕ → List PollEvent → Type 0
Reported n events = (Distinct events) × (length events ≤ n)

collect-Reported :
    (wake_read_fd : ℤ) (ready : List Kevent) (events : List PollEvent) (drained : ℕ)
    → Distinct events
    → Reported (length events + length ready) (collect_events wake_read_fd ready events drained).0
unfolding collect_events
collect-Reported wake_read_fd [] events drained h = (h, omega arith)
collect-Reported wake_read_fd (k ∷ ready) events drained h =
    let bits = translate_ready_event k in
    let woken = collect-Reported wake_read_fd ready events (drained + 1) h in
    let silent = collect-Reported wake_read_fd ready events drained h in
    let merged =
      collect-Reported wake_read_fd ready (merge_ready_event events k.ident bits) drained
        (merge-Distinct events k.ident bits h) in
    let len = merge-length events k.ident bits in
    elim (Bool-cases ((k.ident ==ℤ wake_read_fd) && same_filter k.filter evfilt_read)) [
      | inl pipe ↦ rw pipe (woken.0, omega arith)
      | inr other ↦ elim (Bool-cases (bits == event_none)) [
        | inl quiet ↦ rw (other, quiet) (silent.0, omega arith)
        | inr some_ ↦ rw (other, some_) (merged.0, omega arith)
      ]
    ]

pub collect_events-Reported :
    (wake_read_fd : ℤ) (ready : List Kevent)
    → Reported (length ready) (collect_events wake_read_fd ready [] 0).0
collect_events-Reported wake_read_fd ready =
    let r = collect-Reported wake_read_fd ready [] 0 (λ fd. omega arith) in (r.0, omega arith)
