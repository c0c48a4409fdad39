-- ===== src/PollerKqueue.antt =====
-- src/poller_kqueue.c. What `kevent` replies, attempt by attempt, is a list; a call for which the
-- list is too short has no result yet. The filters that the kernel has registered are part of the
-- state; error numbers are those of the system's headers, as `Errno`.
pub mod Rollback
pub mod Merge
pub mod Readiness
pub mod Delivery
mod Tests
use croutine.Prelude.{
  ℕ, zero, suc, ◌+◌, ◌*◌, ◌/◌, ◌%◌, ℤ, pos, negsuc, ◌==ℤ◌, is_negative, minus_one, Bool, true,
  false, not, ◌&&◌, ◌||◌, Option, none, some, List, [], ◌∷◌, ◌==◌, if◌then◌else◌, bit_or, bit_and,
  ltb,
}
use croutine.Task.{event_none, event_read, event_write}
use croutine.IoWaits.{wants_read, wants_write}
use croutine.PollerEpoll.{PollEvent}
use croutine.Syscall.{Reply, success, fails}

pub record Errno : Type 0 where
  pub eintr : ℕ
  pub enoent : ℕ
  pub eagain : ℕ
  pub ewouldblock : ℕ

abbrev pub same_bool : Bool → Bool → Bool
same_bool true b = b
same_bool false b = not b

-- `EVFILT_READ` and `EVFILT_WRITE`; a filter of another kind is not asked for.
pub data Filter : Type 0 where
  evfilt_read evfilt_write evfilt_other : Filter

abbrev pub same_filter : Filter → Filter → Bool
same_filter evfilt_read evfilt_read = true
same_filter evfilt_write evfilt_write = true
same_filter evfilt_other evfilt_other = true
same_filter _ _ = false

-- The filters that the kernel has registered.
abbrev pub Filters : Type 0
Filters = ℤ → Filter → Bool

abbrev pub set_filter : ℤ → Filter → Bool → Filters → Filters
set_filter fd filter enable filters fd' filter' =
    if (fd ==ℤ fd') && same_filter filter filter' then enable else filters fd' filter'

-- The descriptors of the poller, `-1` for none, and those that the process has open.
pub record Kqueue : Type 0 where
  pub poller_fd : ℤ
  pub wake_read_fd : ℤ
  pub wake_write_fd : ℤ
  pub is_open : ℤ → Bool

abbrev pub close : ℤ → (ℤ → Bool) → ℤ → Bool
close fd is_open fd' = if fd ==ℤ fd' then false else is_open fd'

abbrev pub opened : ℤ → (ℤ → Bool) → ℤ → Bool
opened fd is_open fd' = if fd ==ℤ fd' then true else is_open fd'

-- `close_if_open`: the field and the open descriptors after it.
unfoldable pub close_if_open : ℤ → (ℤ → Bool) → ℤ × (ℤ → Bool)
close_if_open fd is_open = if is_negative fd then (fd, is_open) else (minus_one, close fd is_open)

unfoldable pub croutine_poller_deinit : Kqueue → Kqueue
unfolding close_if_open
croutine_poller_deinit k =
    let (wake_write_fd, open₁) = close_if_open k.wake_write_fd k.is_open in
    let (wake_read_fd, open₂) = close_if_open k.wake_read_fd open₁ in
    let (poller_fd, open₃) = close_if_open k.poller_fd open₂ in
    record {
      poller_fd = poller_fd;
      wake_read_fd = wake_read_fd;
      wake_write_fd = wake_write_fd;
      is_open = open₃;
    }

-- A call that has a result goes on with it.
infixl 1 ◌>>=◌
abbrev pub ◌>>=◌ {ℓ ℓ'} : {A : Type ℓ} {B : Type ℓ'} → Option A → (A → Option B) → Option B
◌>>=◌ none f = none
◌>>=◌ (some a) f = f a

-- `EV_SET`'s flags, and those of `fcntl`: any bits.
pub record Flags : Type 0 where
  pub fd_cloexec : ℕ
  pub o_nonblock : ℕ

module _ (e : Errno) where
  -- The inner loop of `set_fd_flag`.
  unfoldable pub set_flag : List Reply → Option (Bool × List Reply)
  set_flag [] = none
  set_flag (success n ∷ replies) = some (true, replies)
  set_flag (fails code ∷ replies) =
      let rest = set_flag replies in if code == e.eintr then rest else some (false, replies)

  unfoldable pub set_fd_flag : ℕ → List Reply → Option (Bool × List Reply)
  unfolding set_flag
  set_fd_flag flag [] = none
  set_fd_flag flag (success value ∷ replies) =
      if not (bit_and 32 value flag == 0) then some (true, replies) else set_flag replies
  set_fd_flag flag (fails code ∷ replies) =
      let rest = set_fd_flag flag replies in if code == e.eintr then rest else some (false, replies)

  unfoldable pub prepare_fd : Flags → List Reply → Option (Bool × List Reply)
  unfolding set_fd_flag
  prepare_fd flags replies = do
    (closes, replies₁) ← set_fd_flag flags.fd_cloexec replies
    if closes then set_fd_flag flags.o_nonblock replies₁ else some (false, replies₁)

  -- The two calls of `prepare_fd`.
  unfoldable pub prepare_pipe : Flags → List Reply → Option (Bool × List Reply)
  unfolding prepare_fd
  prepare_pipe flags replies = do
    (prepared, replies₁) ← prepare_fd flags replies
    if prepared then prepare_fd flags replies₁ else some (false, replies₁)

  -- The pipe is there, and prepared or not.
  abbrev pub keep_pipe : Bool → ℤ → ℤ → Kqueue → Bool × Kqueue
  keep_pipe false r w k =
      (false, record k { is_open = close w (close r (opened w (opened r k.is_open))) })
  keep_pipe true r w k = (
    true,
    record k { wake_read_fd = r; wake_write_fd = w; is_open = opened w (opened r k.is_open) },
  )

  -- `pipe` gives two descriptors, or nothing.
  unfoldable pub create_wake_pipe :
      Flags → Option (ℤ × ℤ) → List Reply → Kqueue → Option (Bool × Kqueue × List Reply)
  unfolding prepare_pipe
  create_wake_pipe flags none replies k = some (false, k, replies)
  create_wake_pipe flags (some (r, w)) replies k = do
    (prepared, replies₁) ← prepare_pipe flags replies
    let (ok, k') = keep_pipe prepared r w k in some (ok, k', replies₁)

  unfoldable pub apply_filter_change :
      ℤ → Filter → Bool → List Reply → Filters → Option (Bool × List Reply × Filters)
  apply_filter_change fd filter enable [] filters = none
  apply_filter_change fd filter enable (success n ∷ replies) filters =
      some (true, replies, set_filter fd filter enable filters)
  apply_filter_change fd filter enable (fails code ∷ replies) filters =
      let rest = apply_filter_change fd filter enable replies filters in
      if code == e.eintr
      then rest
      else if not enable && code == e.enoent
      then some (true, replies, set_filter fd filter false filters)
      else some (false, replies, filters)

  -- `sync_filter` and `reverse_filter`, given whether the filter was there and is needed.
  unfoldable pub sync_filter :
      Bool → Bool → ℤ → Filter → List Reply → Filters → Option (Bool × List Reply × Filters)
  unfolding apply_filter_change
  sync_filter had_event needs_event fd filter replies filters =
      if same_bool had_event needs_event
      then some (true, replies, filters)
      else apply_filter_change fd filter needs_event replies filters

  -- The end of `croutine_poller_init`: the pipe is there or not, and `kevent` adds its filter or not.
  abbrev pub add_pipe : Bool → Kqueue → List Reply → Filters → Option (Bool × Kqueue × Filters)
  add_pipe false k replies filters =
      let (poller_fd, is_open) = close_if_open k.poller_fd k.is_open in
      some (false, record k { poller_fd = poller_fd; is_open = is_open }, filters)
  add_pipe true k replies filters = do
    (ok, replies₁, filters₁) ← apply_filter_change k.wake_read_fd evfilt_read true replies filters
    some (ok, (if ok then k else croutine_poller_deinit k), filters₁)

  -- `kqueue` gives a descriptor, or nothing; a new queue has no filters.
  unfoldable pub croutine_poller_init :
      Flags
      → Option ℤ
      → Option (ℤ × ℤ)
      → List Reply
      → Kqueue
      → Filters
      → Option (Bool × Kqueue × Filters)
  unfolding create_wake_pipe sync_filter close_if_open croutine_poller_deinit
  croutine_poller_init flags queue pipe replies k filters =
      if not (is_negative k.poller_fd) then some (true, k, filters) else elim queue [
        | none ↦ some (false, k, filters)
        | some q ↦ (do
          (made, k', replies₁) ←
              create_wake_pipe flags pipe replies
                (record k { poller_fd = q; is_open = opened q k.is_open })
          add_pipe made k' replies₁ (λ fd filter. false))
      ]

  -- The write filter is in sync or not; if it is not, the read filter is reversed.
  unfoldable pub set_write : ℤ → ℕ → ℕ → List Reply → Filters → Option (Bool × List Reply × Filters)
  unfolding sync_filter
  set_write fd old_events new_events replies filters = do
    (ok, replies₁, filters₁) ←
        sync_filter (wants_write old_events) (wants_write new_events) fd evfilt_write replies
          filters
    (if ok then some (true, replies₁, filters₁) else (do
      (reversed, replies₂, filters₂) ←
          sync_filter (wants_read new_events) (wants_read old_events) fd evfilt_read replies₁
            filters₁
      some (false, replies₂, filters₂)))

  unfoldable pub croutine_poller_set :
      ℤ → ℕ → ℕ → List Reply → Filters → Option (Bool × List Reply × Filters)
  unfolding set_write
  croutine_poller_set fd old_events new_events replies filters =
      if old_events == new_events then some (true, replies, filters) else (do
        (ok, replies₁, filters₁) ←
            sync_filter (wants_read old_events) (wants_read new_events) fd evfilt_read replies
              filters
        if ok
            then set_write fd old_events new_events replies₁ filters₁
            else some (false, replies₁, filters₁))

  -- `drain_wake_fd`: the replies to `read` that are left.
  unfoldable pub drain_wake_fd : List Reply → Option (List Reply)
  drain_wake_fd [] = none
  drain_wake_fd (success n ∷ replies) =
      let rest = drain_wake_fd replies in if ltb 0 n then rest else some replies
  drain_wake_fd (fails code ∷ replies) =
      let rest = drain_wake_fd replies in if code == e.eintr then rest else some replies

  -- `croutine_poller_wake`: the replies to `write`. A short write leaves `errno` as it is.
  unfoldable pub croutine_poller_wake : ℕ → List Reply → Option Bool
  croutine_poller_wake errno [] = none
  croutine_poller_wake errno (success n ∷ replies) =
      let rest = croutine_poller_wake errno replies in
      if n == 1
      then some true
      else if errno == e.eintr
      then rest
      else some (errno == e.eagain || errno == e.ewouldblock)
  croutine_poller_wake errno (fails code ∷ replies) =
      let rest = croutine_poller_wake code replies in
      if code == e.eintr then rest else some (code == e.eagain || code == e.ewouldblock)

-- What `kevent` reports: `ident`, `filter`, and whether `EV_EOF` or `EV_ERROR` is set.
pub record Kevent : Type 0 where
  pub ident : ℤ
  pub filter : Filter
  pub at_end : Bool

unfoldable pub translate_ready_event : Kevent → ℕ
translate_ready_event event =
    let ready₁ =
      if same_filter event.filter evfilt_read
      then bit_or 32 event_none event_read
      else event_none in
    let ready₂ =
      if same_filter event.filter evfilt_write then bit_or 32 ready₁ event_write else ready₁ in
    if event.at_end then bit_or 32 ready₂ (bit_or 32 event_read event_write) else ready₂

-- The events so far, with one more.
unfoldable pub merge_ready_event : List PollEvent → ℤ → ℕ → List PollEvent
merge_ready_event [] fd ready = record { fd = fd; events = ready } ∷ []
merge_ready_event (event ∷ events) fd ready =
    let rest = merge_ready_event events fd ready in
    if event.fd ==ℤ fd
    then record event { events = bit_or 32 event.events ready } ∷ events
    else event ∷ rest

-- The loop of `croutine_poller_wait` over what `kevent` reported, and how often the pipe is drained.
unfoldable pub collect_events : ℤ → List Kevent → List PollEvent → ℕ → List PollEvent × ℕ
unfolding translate_ready_event merge_ready_event
collect_events wake_read_fd [] events drained = (events, drained)
collect_events wake_read_fd (k ∷ ready) events drained =
    let translated = translate_ready_event k in
    let woken = collect_events wake_read_fd ready events (drained + 1) in
    let silent = collect_events wake_read_fd ready events drained in
    let merged =
      collect_events wake_read_fd ready (merge_ready_event events k.ident translated) drained in
    if (k.ident ==ℤ wake_read_fd) && same_filter k.filter evfilt_read
    then woken
    else if translated == event_none
    then silent
    else merged

-- What `kevent` replies to a wait: what is ready, or `errno`.
pub data WaitReply : Type 0 where
  ready : List Kevent → WaitReply
  unready : ℕ → WaitReply

-- One attempt: what `kevent` replies when it is asked for so many events.
abbrev pub Kwait : Type 0
Kwait = ℕ → WaitReply

-- Seconds and nanoseconds; nothing for a wait without a limit.
unfoldable pub timeout_of : ℤ → Option (ℕ × ℕ)
timeout_of (pos timeout_ms) = some (timeout_ms / 1000, timeout_ms % 1000 * 1000000)
timeout_of (negsuc timeout_ms) = none

-- The reply to one attempt, before the attempts whose result is `rest`.
abbrev pub wait_round :
    Errno → ℤ → WaitReply → Option (Option (List PollEvent)) → Option (Option (List PollEvent))
wait_round e wake_read_fd (ready events) rest =
    some (some (collect_events wake_read_fd events [] 0).0)
wait_round e wake_read_fd (unready code) rest = if code == e.eintr then rest else some none

-- The result is `-1` for nothing inside, and the events otherwise.
unfoldable pub croutine_poller_wait : Errno → ℤ → ℤ → List Kwait → Option (Option (List PollEvent))
unfolding collect_events
croutine_poller_wait e wake_read_fd (negsuc n) replies = some none
croutine_poller_wait e wake_read_fd (pos zero) replies = some none
croutine_poller_wait e wake_read_fd (pos (suc n)) [] = none
croutine_poller_wait e wake_read_fd (pos (suc n)) (kevent ∷ replies) =
    wait_round e wake_read_fd (kevent (suc n))
      (croutine_poller_wait e wake_read_fd (pos (suc n)) replies)
