-- ===== src/PollerKqueue/Readiness.antt =====
-- What the events of `croutine_poller_wait` of src/poller_kqueue.c say of a descriptor.
use croutine.Prelude.{
  ℕ, ◌+◌, ◌/◌, ◌%◌, ◌≡◌, refl, ap, sym, ◌∙◌, inl, inr, Bool-cases, Bool, true, false, not, ◌&&◌,
  ◌||◌, ℤ, ◌==ℤ◌, List, [], ◌∷◌, arith, ◌==◌, if◌then◌else◌, bit_or,
}
use croutine.Prelude.{bit_or-low, bit_or-half}
use croutine.Task.{event_none}
use croutine.IoWaits.{wants_read, wants_write}
use croutine.IoWaits.Invariant.{==ℤ-eq}
use croutine.PollerEpoll.{PollEvent}
use croutine.PollerKqueue.{
  Filter, Kevent, evfilt_read, evfilt_write, evfilt_other, same_filter, translate_ready_event,
  merge_ready_event, collect_events,
}

-- `EVFILT_READ` is seen by `wants_read` and `EVFILT_WRITE` by `wants_write`.
abbrev pub sees : Filter → ℕ → Bool
sees evfilt_read = wants_read
sees evfilt_write = wants_write
sees evfilt_other = λ events. false

-- An event of the descriptor has the bit of the filter.
abbrev pub says : Filter → ℤ → List PollEvent → Bool
says filter fd [] = false
says filter fd (event ∷ events) =
    ((event.fd ==ℤ fd) && sees filter event.events) || says filter fd events

-- The kernel's event is the one that wakes the poller.
abbrev pub is_wake : ℤ → Kevent → Bool
is_wake wake_read_fd k = (k.ident ==ℤ wake_read_fd) && same_filter k.filter evfilt_read

-- The kernel has an event of the descriptor with the filter, or one at the end of the stream or in
-- error, that is not the one that wakes the poller.
abbrev pub occurs : Filter → ℤ → ℤ → List Kevent → Bool
occurs filter wake_read_fd fd [] = false
occurs filter wake_read_fd fd (k ∷ ready) =
    (not (is_wake wake_read_fd k) && (k.ident ==ℤ fd) && (same_filter k.filter filter || k.at_end))
    || occurs filter wake_read_fd fd ready

digit_or :
    (a b low : ℕ)
    → low ≡ (if a % 2 + b % 2 == 0 then 0 else 1)
    → (low == 1) ≡ ((a % 2 == 1) || (b % 2 == 1))
digit_or a b low e = ground arith

sees-bit_or :
    (filter : Filter) (a b : ℕ) → sees filter (bit_or 32 a b) ≡ (sees filter a || sees filter b)
sees-bit_or evfilt_read a b = digit_or a b (bit_or 32 a b % 2) (bit_or-low 31 a b)
sees-bit_or evfilt_write a b =
    digit_or (a / 2) (b / 2) (bit_or 32 a b / 2 % 2)
      (ap (λ c. c % 2) (bit_or-half 31 a b) ∙ bit_or-low 30 (a / 2) (b / 2))
sees-bit_or evfilt_other a b = refl

-- The poller asks for the filter.
abbrev pub IsAsked : Filter → Type 0
IsAsked filter = same_filter filter evfilt_other ≡ false

sees-translate_ready_event :
    (filter : Filter) (k : Kevent)
    → IsAsked filter
    → sees filter (translate_ready_event k) ≡ (same_filter k.filter filter || k.at_end)
unfolding translate_ready_event
sees-translate_ready_event filter k asked = table k.filter filter k.at_end asked
  where
    table :
        (f filter : Filter) (at_end : Bool)
        → IsAsked filter
        → sees filter
            (translate_ready_event (record { ident = k.ident; filter = f; at_end = at_end }))
          ≡ (same_filter f filter || at_end)
    table evfilt_read evfilt_read true _ = refl
    table evfilt_read evfilt_read false _ = refl
    table evfilt_read evfilt_write true _ = refl
    table evfilt_read evfilt_write false _ = refl
    table evfilt_write evfilt_read true _ = refl
    table evfilt_write evfilt_read false _ = refl
    table evfilt_write evfilt_write true _ = refl
    table evfilt_write evfilt_write false _ = refl
    table evfilt_other evfilt_read true _ = refl
    table evfilt_other evfilt_read false _ = refl
    table evfilt_other evfilt_write true _ = refl
    table evfilt_other evfilt_write false _ = refl
    table evfilt_read evfilt_other b h = absurd (ground arith)
    table evfilt_write evfilt_other b h = absurd (ground arith)
    table evfilt_other evfilt_other b h = absurd (ground arith)

sees-none : (filter : Filter) → sees filter event_none ≡ false
sees-none evfilt_read = refl
sees-none evfilt_write = refl
sees-none evfilt_other = refl

one_more : (x y p q r : Bool) → x ≡ y → (x && (p || q)) || r ≡ ((x && p) || r) || (y && q)
one_more x y p q r e = ground arith

regroup : (p q r : Bool) → p || (q || r) ≡ (p || q) || r
regroup p q r = ground arith

is_none : (bits : ℕ) → (bits == event_none) ≡ true → bits ≡ event_none
is_none bits h = ground arith

silent : (s x b o : Bool) → b ≡ false → s || o ≡ s || ((x && b) || o)
silent s x b o e = ground arith

says-merge_ready_event :
    (filter : Filter) (fd' : ℤ) (events : List PollEvent) (fd : ℤ) (bits : ℕ)
    → says filter fd' (merge_ready_event events fd bits)
      ≡ (says filter fd' events || ((fd ==ℤ fd') && sees filter bits))
unfolding merge_ready_event
says-merge_ready_event filter fd' [] fd bits = ground arith
says-merge_ready_event filter fd' (event ∷ events) fd bits = elim (Bool-cases (event.fd ==ℤ fd)) [
  | inl here ↦
      rw (here, sees-bit_or filter event.events bits)
        (one_more (event.fd ==ℤ fd') (fd ==ℤ fd') (sees filter event.events) (sees filter bits)
          (says filter fd' events) (ap (λ d. d ==ℤ fd') (==ℤ-eq event.fd fd here)))
  | inr elsewhere ↦ rw elsewhere (
      ap (λ b. (event.fd ==ℤ fd' && sees filter event.events) || b)
        (says-merge_ready_event filter fd' events fd bits)
      ∙ regroup (event.fd ==ℤ fd' && sees filter event.events) (says filter fd' events)
          (fd ==ℤ fd' && sees filter bits))
]

-- What was said before, or has occurred.
pub says-collect_events :
    (filter : Filter) (wake_read_fd fd : ℤ) (ready : List Kevent) (events : List PollEvent)
    (drained : ℕ)
    → IsAsked filter
    → says filter fd ((collect_events wake_read_fd ready events drained).0)
      ≡ (says filter fd events || occurs filter wake_read_fd fd ready)
unfolding collect_events
says-collect_events filter wake_read_fd fd [] events drained asked = ground arith
says-collect_events filter wake_read_fd fd (k ∷ ready) events drained asked =
    let bits = translate_ready_event k in
    let seen = sees-translate_ready_event filter k asked in
    elim (Bool-cases (is_wake wake_read_fd k)) [
      | inl pipe ↦
          rw pipe (says-collect_events filter wake_read_fd fd ready events (drained + 1) asked)
      | inr other ↦ elim (Bool-cases (bits == event_none)) [
        | inl quiet ↦
            rw (other, quiet)
              (says-collect_events filter wake_read_fd fd ready events drained asked
                ∙ silent (says filter fd events) (k.ident ==ℤ fd)
                    (same_filter k.filter filter || k.at_end) (occurs filter wake_read_fd fd ready)
                    (sym seen ∙ ap (sees filter) (is_none bits quiet) ∙ sees-none filter))
        | inr some_ ↦
            rw (other, some_)
              (says-collect_events filter wake_read_fd fd ready
                  (merge_ready_event events k.ident bits) drained asked
                ∙ ap (λ b. b || occurs filter wake_read_fd fd ready)
                    (says-merge_ready_event filter fd events k.ident bits
                      ∙ ap (λ b. says filter fd events || (k.ident ==ℤ fd && b)) seen)
                ∙ sym (
                    regroup (says filter fd events)
                      (k.ident ==ℤ fd && (same_filter k.filter filter || k.at_end))
                      (occurs filter wake_read_fd fd ready)))
      ]
    ]
