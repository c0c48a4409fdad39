-- ===== src/PollerKqueue/Rollback.antt =====
-- What `croutine_poller_set` leaves registered, also when the kernel refuses a change.
use croutine.Prelude.{
  ℕ, ◌+◌, ◌≤◌, ◌<◌, ◌≡◌, refl, ap, ◌∙◌, subst, inl, inr, Bool-cases, Bool, true, false, not, ◌&&◌,
  Option, none, some, ℤ, List, [], ◌∷◌, arith, ◌==◌, if◌then◌else◌,
}
use croutine.IoWaits.{wants_read, wants_write}
use croutine.IoWaits.Invariant.{==ℤ-refl}
use croutine.Syscall.{Reply, success, fails}
use croutine.PollerKqueue.{
  Errno, Filter, evfilt_read, evfilt_write, same_filter, Filters, set_filter, apply_filter_change,
  sync_filter, set_write, croutine_poller_set, ◌>>=◌,
}

module _ (e : Errno) where
  -- The replies that refuse a change: all errors but an interruption.
  abbrev pub refusals : List Reply → ℕ
  refusals [] = 0
  refusals (success n ∷ replies) = refusals replies
  refusals (fails code ∷ replies) = (if code == e.eintr then 0 else 1) + refusals replies

  -- The filters of `fd` are `reads` and `writes`.
  abbrev pub Registered : ℤ → Bool → Bool → Filters → Type 0
  Registered fd reads writes filters =
      (filters fd evfilt_read ≡ reads) × (filters fd evfilt_write ≡ writes)

  -- A change was made, or it was refused and nothing changed, with `n` refusals before.
  abbrev Applied : ℤ → Filter → Bool → ℕ → Filters → Option (Bool × List Reply × Filters) → Type 0
  Applied fd filter enable n filters none = Unit
  Applied fd filter enable n filters (some (true, rest, filters')) =
      (refusals rest ≤ n) × (filters' ≡ set_filter fd filter enable filters)
  Applied fd filter enable n filters (some (false, rest, filters')) =
      (refusals rest < n) × (filters' ≡ filters)

  apply-Applied :
      (fd : ℤ) (filter : Filter) (enable : Bool) (replies : List Reply) (filters : Filters)
      → Applied fd filter enable
          (refusals replies)
          filters
          (apply_filter_change e fd filter enable replies filters)
  unfolding apply_filter_change
  apply-Applied fd filter enable [] filters = tt
  apply-Applied fd filter enable (success n ∷ replies) filters = (omega arith, refl)
  apply-Applied fd filter enable (fails code ∷ replies) filters =
      elim (Bool-cases (code == e.eintr)) [
        | inl again ↦ rw again (
            let same : refusals replies ≡ 0 + refusals replies = omega arith in
            subst
              (λ n.
                Applied fd filter enable n filters
                  (apply_filter_change e fd filter enable replies filters))
              same (apply-Applied fd filter enable replies filters))
        | inr other ↦ rw other (refused enable)
      ]
    where
      refused :
          (enable : Bool)
          → Applied fd filter enable (1 + refusals replies) filters (
              if not enable && code == e.enoent
              then some (true, replies, set_filter fd filter false filters)
              else some (false, replies, filters))
      refused true = (omega arith, refl)
      refused false = elim (Bool-cases (code == e.enoent)) [
        | inl absent ↦ rw absent (omega arith, refl)
        | inr other ↦ rw other (omega arith, refl)
      ]

  -- The filter is in sync and the other one is as it was, or nothing changed.
  abbrev Synced :
      ℤ → Filter → Filter → Bool → ℕ → Filters → Option (Bool × List Reply × Filters) → Type 0
  Synced fd filter other needs n filters none = Unit
  Synced fd filter other needs n filters (some (true, rest, filters')) =
      (refusals rest ≤ n) × (filters' fd filter ≡ needs) × (filters' fd other ≡ filters fd other)
  Synced fd filter other needs n filters (some (false, rest, filters')) =
      (refusals rest < n) × (filters' ≡ filters)

  Applied-Synced :
      (fd : ℤ) (filter other : Filter) (needs : Bool) (n : ℕ) (filters : Filters)
      (o : Option (Bool × List Reply × Filters))
      → same_filter filter filter ≡ true
      → same_filter filter other ≡ false
      → Applied fd filter needs n filters o
      → Synced fd filter other needs n filters o
  Applied-Synced fd filter other needs n filters none self ne h = tt
  Applied-Synced fd filter other needs n filters (some (true, rest, filters')) self ne (less, is) =
      (
        less,
        ap (λ (f : Filters). f fd filter) is ∙ rw (==ℤ-refl fd, self) refl,
        ap (λ (f : Filters). f fd other) is ∙ rw (==ℤ-refl fd, ne) refl,
      )
  Applied-Synced fd filter other needs n filters (some (false, rest, filters')) self ne h = h

  sync-Synced :
      (fd : ℤ) (filter other : Filter) (had needs : Bool) (replies : List Reply) (filters : Filters)
      → same_filter filter filter ≡ true
      → same_filter filter other ≡ false
      → filters fd filter ≡ had
      → Synced fd filter other needs
          (refusals replies)
          filters
          (sync_filter e had needs fd filter replies filters)
  unfolding sync_filter
  sync-Synced fd filter other true true replies filters self ne h = (omega arith, h, refl)
  sync-Synced fd filter other false false replies filters self ne h = (omega arith, h, refl)
  sync-Synced fd filter other true false replies filters self ne h =
      Applied-Synced fd filter other false (refusals replies) filters
        (apply_filter_change e fd filter false replies filters) self ne
        (apply-Applied fd filter false replies filters)
  sync-Synced fd filter other false true replies filters self ne h =
      Applied-Synced fd filter other true (refusals replies) filters
        (apply_filter_change e fd filter true replies filters) self ne
        (apply-Applied fd filter true replies filters)

  -- The new events are registered, or a refusal was met; if it was the only one, the old ones are.
  abbrev pub SetOrRolledBack : ℤ → ℕ → ℕ → ℕ → Option (Bool × List Reply × Filters) → Type 0
  SetOrRolledBack fd old_events new_events n none = Unit
  SetOrRolledBack fd old_events new_events n (some (true, rest, filters)) =
      Registered fd (wants_read new_events) (wants_write new_events) filters
  SetOrRolledBack fd old_events new_events n (some (false, rest, filters)) =
      (refusals rest < n)
      × (n ≤ 1 → Registered fd (wants_read old_events) (wants_write old_events) filters)

  set_write-SetOrRolledBack :
      (fd : ℤ) (old_events new_events n : ℕ) (replies : List Reply) (filters : Filters)
      → refusals replies ≤ n
      → Registered fd (wants_read new_events) (wants_write old_events) filters
      → SetOrRolledBack fd old_events new_events n
          (set_write e fd old_events new_events replies filters)
  unfolding set_write
  set_write-SetOrRolledBack fd old_events new_events n replies filters less (reads, writes) =
      synced
        (sync_filter e (wants_write old_events) (wants_write new_events) fd evfilt_write replies
          filters)
        (sync-Synced fd evfilt_write evfilt_read (wants_write old_events) (wants_write new_events)
          replies filters refl refl writes)
    where
      reversed :
          (m : ℕ) (filters₁ : Filters) (o : Option (Bool × List Reply × Filters))
          → m < n
          → filters₁ ≡ filters
          → Synced fd evfilt_read evfilt_write (wants_read old_events) m filters₁ o
          → SetOrRolledBack fd old_events new_events n
              (do (reversed, replies₂, filters₂) ← o; some (false, replies₂, filters₂))
      reversed m filters₁ none lt is h = tt
      reversed m filters₁ (some (true, rest, filters')) lt is (le, read, write) = (
        omega arith,
        (λ once. (read, write ∙ ap (λ (f : Filters). f fd evfilt_write) is ∙ writes)),
      )
      reversed m filters₁ (some (false, rest, filters')) lt is (less', same) =
          (omega arith, (λ once. absurd (omega arith)))

      synced :
          (o : Option (Bool × List Reply × Filters))
          → Synced fd evfilt_write evfilt_read (wants_write new_events) (refusals replies) filters o
          → SetOrRolledBack fd old_events new_events n (do
            (ok, replies₁, filters₁) ← o
            (if ok then some (true, replies₁, filters₁) else (do
              (reversed, replies₂, filters₂) ←
                  sync_filter e
                    (wants_read new_events)
                    (wants_read old_events)
                    fd
                    evfilt_read
                    replies₁
                    filters₁
              some (false, replies₂, filters₂))))
      synced none h = tt
      synced (some (true, rest, filters')) (le, write, read) = (read ∙ reads, write)
      synced (some (false, rest, filters')) (lt, same) =
          reversed (refusals rest) filters'
            (sync_filter e (wants_read new_events) (wants_read old_events) fd evfilt_read rest
              filters')
            (omega arith) same
            (sync-Synced fd evfilt_read evfilt_write (wants_read new_events) (wants_read old_events)
              rest filters' refl refl (ap (λ (f : Filters). f fd evfilt_read) same ∙ reads))

  -- When the filters of a descriptor are those of the old events, whatever the kernel replies: if
  -- `croutine_poller_set` reports success, the filters are those of the new events; if it fails,
  -- the kernel has refused a change, and if that was the only refusal among its replies, the
  -- filters are those of the old events again. A reply that a filter to delete is not there is
  -- taken as its absence.
  pub croutine_poller_set-SetOrRolledBack :
      (fd : ℤ) (old_events new_events : ℕ) (replies : List Reply) (filters : Filters)
      → Registered fd (wants_read old_events) (wants_write old_events) filters
      → SetOrRolledBack fd old_events new_events
          (refusals replies)
          (croutine_poller_set e fd old_events new_events replies filters)
  unfolding croutine_poller_set
  croutine_poller_set-SetOrRolledBack fd old_events new_events replies filters (reads, writes) =
      elim (Bool-cases (old_events == new_events)) [
        | inl same ↦
            let is : old_events ≡ new_events = ground arith in
            rw same (
              subst (λ ev. Registered fd (wants_read ev) (wants_write ev) filters) is
                (reads, writes))
        | inr other ↦ rw other (
            synced
              (sync_filter e (wants_read old_events) (wants_read new_events) fd evfilt_read replies
                filters)
              (sync-Synced fd evfilt_read evfilt_write (wants_read old_events)
                (wants_read new_events) replies filters refl refl reads))
      ]
    where
      synced :
          (o : Option (Bool × List Reply × Filters))
          → Synced fd evfilt_read evfilt_write (wants_read new_events) (refusals replies) filters o
          → SetOrRolledBack fd old_events new_events (refusals replies) (do
            (ok, replies₁, filters₁) ← o
            if ok
                then set_write e fd old_events new_events replies₁ filters₁
                else some (false, replies₁, filters₁))
      synced none h = tt
      synced (some (true, rest, filters')) (le, read, write) =
          set_write-SetOrRolledBack fd old_events new_events (refusals replies) rest filters' le
            (read, write ∙ writes)
      synced (some (false, rest, filters')) (lt, same) = (
        lt,
        (λ once. (
          ap (λ (f : Filters). f fd evfilt_read) same ∙ reads,
          ap (λ (f : Filters). f fd evfilt_write) same ∙ writes,
        )),
      )
