-- ===== src/PollerEpoll/Stale.antt =====
-- Late events of the epoll poller: what the generations of src/poller_epoll.c are for.
use croutine.Prelude.{
  ℕ, ◌+◌, ◌-◌, ◌*◌, ◌/◌, ◌%◌, ◌^◌, ◌<◌, ℤ, pos, negsuc, ◌≡◌, ◌≢◌, refl, sym, ap, ◌∙◌, subst, Bool,
  true, false, not, ◌&&◌, ◌||◌, Option, List, ◌∷◌, ltb, leb, ◌==◌, if◌then◌else◌, arith, get_or,
  length, length-set, get_or-set_self,
}
use croutine.Task.{event_none}
use croutine.PollerEpoll.{
  FdTable, PollEvent, EpollEvent, EpollOp, wake_token, fd_index, ensure_fd_capacity, fd_token,
  from_epoll_events, set_registered, next_generation, forget, is_registered, is_gone, ctl_add,
  ctl_del, poller_ctl, delete_fd, add_fd, token_fd, is_current, collect_events,
}

-- The arrays have the size `fd_table_capacity`, and generations are 32 bits wide.
abbrev pub IsFdTable : FdTable → Type 0
IsFdTable t =
    (length t.fd_generations ≡ t.fd_table_capacity)
    × (length t.fd_registered ≡ t.fd_table_capacity)
    × ((i : ℕ) → get_or t.fd_generations i 0 < 2 ^ 32)

abbrev generation : FdTable → ℕ → ℕ
generation t n = get_or t.fd_generations n 0

token-not_wake :
    (t : FdTable) (n : ℕ) → IsFdTable t → n < 2 ^ 31 → (fd_token t (pos n) == wake_token) ≡ false
unfolding fd_token
token-not_wake t n (_, _, small) h = let g = small n in ground arith

token-parts :
    (t : FdTable) (n : ℕ)
    → IsFdTable t
    → n < 2 ^ 31
    → (token_fd (fd_token t (pos n)) ≡ pos n) × (fd_token t (pos n) / 2 ^ 32 ≡ generation t n)
unfolding fd_token
token-parts t n (_, _, small) h =
    let g = small n in
    let low : (generation t n * 2 ^ 32 + n % 2 ^ 32) % 2 ^ 32 ≡ n = omega arith in
    let high : (generation t n * 2 ^ 32 + n % 2 ^ 32) / 2 ^ 32 ≡ generation t n = omega arith in
    let narrow : ltb n (2 ^ 31) ≡ true = ground arith in
    (
      ap (λ m. if ltb m (2 ^ 31) then pos m else negsuc (2 ^ 32 - m - 1)) low
          ∙ ap (λ b. if b then pos n else negsuc (2 ^ 32 - n - 1)) narrow,
      high,
    )

-- A token of another table is current when the descriptor is registered in the same generation.
is_current-token :
    (t t' : FdTable) (n : ℕ)
    → IsFdTable t
    → n < 2 ^ 31
    → is_current t' (fd_token t (pos n))
      ≡ (is_registered t' (pos n) && (generation t' n == generation t n))
is_current-token t t' n good h =
    let (fd, high) = token-parts t n good h in
    ap
      (λ f.
        is_registered t' f
        && (get_or t'.fd_generations (fd_index f) 0 == fd_token t (pos n) / 2 ^ 32))
      fd
    ∙ ap (λ g. is_registered t' (pos n) && (generation t' n == g)) high

-- With a well-formed table, an event that carries the token of a registered descriptor of 31 bits
-- reaches the caller, with the descriptor's number, before those that follow it, unless none of
-- its bits is one that the poller reports.
pub collect_events-current :
    (t : FdTable) (n : ℕ) (bits : ℕ) (ready : List EpollEvent)
    → IsFdTable t
    → n < 2 ^ 31
    → is_registered t (pos n) ≡ true
    → from_epoll_events bits ≢ event_none
    → collect_events t (record { events = bits; token = fd_token t (pos n) } ∷ ready) ≡ (
      record { fd = pos n; events = from_epoll_events bits } ∷ (collect_events t ready).0,
      (collect_events t ready).1,
    )
unfolding collect_events
collect_events-current t n bits ready good h reg seen =
    let token = fd_token t (pos n) in
    let (rest, drains) = collect_events t ready in
    let event : ℤ → PollEvent = λ fd. record { fd = fd; events = from_epoll_events bits } in
    let kept : (not (is_current t token) || (from_epoll_events bits == event_none)) ≡ false =
      let current = is_current-token t t n good h in ground arith in
    ap
      (λ b.
        if b
        then (rest, drains + 1)
        else if not (is_current t token) || (from_epoll_events bits == event_none)
        then (rest, drains)
        else (event (token_fd token) ∷ rest, drains))
      (token-not_wake t n good h)
    ∙ ap (λ b. if b then (rest, drains) else (event (token_fd token) ∷ rest, drains)) kept
    ∙ ap (λ fd. (event fd ∷ rest, drains)) ((token-parts t n good h).0)

-- An event of another generation of the descriptor is dropped.
other_generation :
    (t t' : FdTable) (n : ℕ)
    → IsFdTable t
    → n < 2 ^ 31
    → generation t' n ≢ generation t n
    → is_current t' (fd_token t (pos n)) ≡ false
other_generation t t' n good h differ = is_current-token t t' n good h ∙ ground arith

forget-next :
    (n : ℕ) (t : FdTable)
    → n < t.fd_table_capacity
    → forget (pos n) t ≡ next_generation (pos n) (set_registered (pos n) false t)
forget-next n t inside =
    let known : ltb n t.fd_table_capacity ≡ true = ground arith in
    ap (λ b. if b then next_generation (pos n) (set_registered (pos n) false t) else t) known

forget-generation :
    (t : FdTable) (n : ℕ)
    → IsFdTable t
    → n < t.fd_table_capacity
    → generation (forget (pos n) t) n ≡ (generation t n + 1) % 2 ^ 32
forget-generation t n (len, _, _) inside =
    ap (λ t'. generation t' n) (forget-next n t inside)
    ∙ get_or-set_self t.fd_generations n ((generation t n + 1) % 2 ^ 32) 0 (omega arith)

ensure_fd_capacity-inside :
    (granted : Bool) (n : ℕ) (t : FdTable)
    → n < t.fd_table_capacity
    → ensure_fd_capacity granted (pos n) t ≡ (true, t)
unfolding ensure_fd_capacity
ensure_fd_capacity-inside granted n t inside =
    let fits : leb (n + 1) t.fd_table_capacity ≡ true = ground arith in rw fits

module _ {K : Type 0} (epoll_ctl : EpollOp → ℤ → ℕ → ℕ → K → Option ℕ × K) where
  delete_fd-forget :
      (fd : ℤ) (t : FdTable) (k : K)
      → (delete_fd epoll_ctl fd t k).0 ≡ true
      → (delete_fd epoll_ctl fd t k).1 ≡ forget fd t
  unfolding delete_fd
  delete_fd-forget fd t k h =
      let (errno, k') = epoll_ctl ctl_del fd 0 0 k in cases (is_gone errno) k' h
    where
      outcome : Bool → K → Bool × FdTable × K
      outcome b k' = if b then (true, forget fd t, k') else (false, t, k')

      cases : (b : Bool) (k' : K) → (outcome b k').0 ≡ true → (outcome b k').1 ≡ forget fd t
      cases true k' e = refl
      cases false k' e = absurd (ground arith)

  add_fd-generation :
      (granted : Bool) (n events : ℕ) (t : FdTable) (k : K)
      → n < t.fd_table_capacity
      → length t.fd_generations ≡ t.fd_table_capacity
      → generation ((add_fd epoll_ctl granted (pos n) events t k).1) n
        ≡ (generation t n + 1) % 2 ^ 32
  unfolding add_fd
  add_fd-generation granted n events t k inside len =
      subst (λ (r : Bool × FdTable). generation ((after r).1) n ≡ (generation t n + 1) % 2 ^ 32)
        (sym (ensure_fd_capacity-inside granted n t inside))
        (let (added, k') =
            poller_ctl epoll_ctl ctl_add (pos n) events
              (fd_token (next_generation (pos n) t) (pos n)) k in
          cases added k')
    where
      after : Bool × FdTable → Bool × FdTable × K
      after (roomy, t') =
          let t'' = next_generation (pos n) t' in
          let (added, k') = poller_ctl epoll_ctl ctl_add (pos n) events (fd_token t'' (pos n)) k in
          if not roomy
          then (false, t', k)
          else if added
          then (true, set_registered (pos n) true t'', k')
          else (false, t'', k')

      outcome : Bool → K → Bool × FdTable × K
      outcome added k' =
          let t'' = next_generation (pos n) t in
          if added then (true, set_registered (pos n) true t'', k') else (false, t'', k')

      cases :
          (added : Bool) (k' : K)
          → generation ((outcome added k').1) n ≡ (generation t n + 1) % 2 ^ 32
      cases true _ =
          get_or-set_self t.fd_generations n ((generation t n + 1) % 2 ^ 32) 0 (omega arith)
      cases false _ =
          get_or-set_self t.fd_generations n ((generation t n + 1) % 2 ^ 32) 0 (omega arith)

  -- When the kernel has dropped a descriptor of 31 bits that a well-formed table covers, a token
  -- of its old registration is no longer current, neither at once nor after the descriptor has
  -- been added again, whether or not that succeeds.
  pub delete_fd-add_fd-stale :
      (granted : Bool) (n events : ℕ) (t t₁ : FdTable) (k k₁ : K)
      → IsFdTable t
      → n < 2 ^ 31
      → n < t.fd_table_capacity
      → delete_fd epoll_ctl (pos n) t k ≡ (true, t₁, k₁)
      → (is_current t₁ (fd_token t (pos n)) ≡ false)
        × (is_current ((add_fd epoll_ctl granted (pos n) events t₁ k₁).1) (fd_token t (pos n))
            ≡ false)
  delete_fd-add_fd-stale granted n events t t₁ k k₁ good small inside deleted =
      let (len, _, narrow) = good in
      let dropped : t₁ ≡ forget (pos n) t =
        sym (ap (λ (r : Bool × FdTable × K). r.1) deleted)
        ∙ delete_fd-forget (pos n) t k (ap (λ (r : Bool × FdTable × K). r.0) deleted) in
      let shape = dropped ∙ forget-next n t inside in
      let g₀ = narrow n in
      let g₁ : generation t₁ n ≡ (generation t n + 1) % 2 ^ 32 =
        ap (λ t'. generation t' n) dropped ∙ forget-generation t n good inside in
      let inside₁ : n < t₁.fd_table_capacity =
        subst (λ (t' : FdTable). n < t'.fd_table_capacity) (sym shape) inside in
      let len₁ : length t₁.fd_generations ≡ t₁.fd_table_capacity =
        subst (λ (t' : FdTable). length t'.fd_generations ≡ t'.fd_table_capacity) (sym shape)
          (length-set t.fd_generations n ((generation t n + 1) % 2 ^ 32) ∙ len) in
      let g₂ = add_fd-generation granted n events t₁ k₁ inside₁ len₁ in
      (
        other_generation t t₁ n good small (λ e. absurd (omega arith)),
        other_generation t ((add_fd epoll_ctl granted (pos n) events t₁ k₁).1) n good small
            (λ e. absurd (omega arith)),
      )
