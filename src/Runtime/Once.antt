-- ===== src/Runtime/Once.antt =====
-- A process initialises a runtime at most once, and runs it at most once.
use croutine.Prelude.{
  ℕ, zero, suc, ◌+◌, ◌*◌, ◌≤◌, ◌≡◌, refl, ◌∙◌, subst, inl, inr, Bool-cases, ℤ, Bool, true, false,
  not, ◌||◌, Option, none, some, arith, minus_one, ltb, ◌==◌, if◌then◌else◌, null,
}
use croutine.Worker.{Machine, Answers}
use croutine.Worker.Lifecycle.{
  PollerOps, Outcome, returned, aborted, lacks_fuel, worker_spawn, worker_request_shutdown,
  worker_init, worker_reset_main_state, worker_configure_stack_size, worker_wait_for_main,
}
use croutine.Runtime.{
  Config, Runtime, initialized, set_machine, start_workers, goes_on, run_branch, run_end,
  croutine_runtime_request_shutdown, init_branch, croutine_runtime_init, run_begin, released,
  croutine_runtime_shutdown, worker_count_of, stack_size_of,
}

module _ {P : Type 0} (ops : PollerOps P) where
  -- The calls that a process makes, in any order and with whatever work in between; the two numbers
  -- count the initialisations that succeed and the runs that start.
  pub data Calls (r : Runtime P) : ℕ → ℕ → Runtime P → Type 0 where
    no_calls : Calls r 0 0 r
    inits :
        {n k : ℕ} {s : Runtime P} (config : Option Config) (online : ℤ) (queue table : Bool)
        → Calls r n k s
        → Calls r
            ((if (croutine_runtime_init ops config online queue table s).0 then 1 else 0) + n)
            k
            (croutine_runtime_init ops config online queue table s).1
    runs :
        {n k : ℕ} {s : Runtime P} (fuel rounds : ℕ) (a : Answers) (allocated : Bool)
        (created : ℕ → Bool) (main_fn arg : ℕ) (waits : Bool) (s' : Runtime P)
        → Calls r n k s
        → run_begin ops fuel rounds a allocated created main_fn arg s ≡ returned (waits, s')
        → Calls r n ((if waits then 1 else 0) + k) s'
    ends :
        {n k : ℕ} {s : Runtime P} (code : ℤ) (s' : Runtime P)
        → Calls r n k s
        → run_end s ≡ some (code, s')
        → Calls r n k s'
    requests :
        {n k : ℕ} {s : Runtime P} (fuel rounds : ℕ) (s' : Runtime P)
        → Calls r n k s
        → croutine_runtime_request_shutdown fuel rounds s ≡ returned s'
        → Calls r n k s'
    shuts_down :
        {n k : ℕ} {s : Runtime P} (fuel rounds : ℕ) (s' : Runtime P)
        → Calls r n k s
        → croutine_runtime_shutdown ops fuel rounds s ≡ returned s'
        → Calls r n k s'
    works :
        {n k : ℕ} {s : Runtime P} (m : Machine P)
        → Calls r n k s
        → Calls r n k (record s { machine = m })

  -- What is left of a one-shot flag.
  abbrev left : Bool → ℕ
  left flag = if flag then 0 else 1

  -- The two flags stay as they are.
  abbrev Kept : Runtime P → Outcome (Runtime P) → Type 0
  Kept s (returned s') =
      (s'.runtime_ever_initialized ≡ s.runtime_ever_initialized) × (s'.runtime_ran ≡ s.runtime_ran)
  Kept s aborted = Unit
  Kept s lacks_fuel = Unit

  set_machine-Kept : (s : Runtime P) (o : Outcome (Machine P)) → Kept s (set_machine s o)
  set_machine-Kept s (returned m) = (refl, refl)
  set_machine-Kept s aborted = tt
  set_machine-Kept s lacks_fuel = tt

  start_workers-Kept :
      (fuel rounds : ℕ) (created : ℕ → Bool) (worker_id left_ : ℕ) (s : Runtime P)
      → Kept s (start_workers fuel rounds created worker_id left_ s)
  unfolding start_workers
  start_workers-Kept fuel rounds created worker_id zero s = (refl, refl)
  start_workers-Kept fuel rounds created worker_id (suc left_) s =
      elim (Bool-cases (created worker_id)) [
        | inl yes_ ↦ rw yes_ (
            same
              (start_workers fuel rounds created (worker_id + 1) left_
                (record s { runtime_started_workers = s.runtime_started_workers + 1 }))
              (start_workers-Kept fuel rounds created (worker_id + 1) left_
                (record s { runtime_started_workers = s.runtime_started_workers + 1 })))
        | inr no_ ↦ rw no_ (set_machine-Kept s (worker_request_shutdown fuel rounds s.machine))
      ]
    where
      same :
          (o : Outcome (Runtime P))
          → Kept (record s { runtime_started_workers = s.runtime_started_workers + 1 }) o
          → Kept s o
      same (returned s') h = h
      same aborted h = tt
      same lacks_fuel h = tt

  -- A run that starts was the first one.
  abbrev Ran : Runtime P → Outcome (Bool × Runtime P) → Type 0
  Ran s (returned (waits, s')) =
      (s'.runtime_ever_initialized ≡ s.runtime_ever_initialized)
      × ((if waits then 1 else 0) + left s'.runtime_ran ≤ left s.runtime_ran)
  Ran s aborted = Unit
  Ran s lacks_fuel = Unit

  goes_on-Ran :
      (s s₁ : Runtime P) (waits : Bool) (o : Outcome (Runtime P))
      → s₁.runtime_ever_initialized ≡ s.runtime_ever_initialized
      → s₁.runtime_ran ≡ true
      → s.runtime_ran ≡ false
      → Kept s₁ o
      → Ran s (goes_on waits o)
  goes_on-Ran s s₁ true (returned s') e ran first (e', ran') =
      (e' ∙ e, rw (ran', ran, first) (omega arith))
  goes_on-Ran s s₁ false (returned s') e ran first (e', ran') =
      (e' ∙ e, rw (ran', ran, first) (omega arith))
  goes_on-Ran s s₁ waits aborted e ran first h = tt
  goes_on-Ran s s₁ waits lacks_fuel e ran first h = tt

  run_branch-Ran :
      (s s₁ : Runtime P) (fuel rounds : ℕ) (created : ℕ → Bool) (spawned allocated : Bool)
      → s₁.runtime_ever_initialized ≡ s.runtime_ever_initialized
      → s₁.runtime_ran ≡ true
      → s.runtime_ran ≡ false
      → Ran s (run_branch fuel rounds created spawned allocated s₁)
  unfolding run_branch
  run_branch-Ran s s₁ fuel rounds created false allocated e ran first =
      (e, rw (ran, first) (omega arith))
  run_branch-Ran s s₁ fuel rounds created true false e ran first =
      goes_on-Ran s s₁ false (set_machine s₁ (worker_request_shutdown fuel rounds s₁.machine)) e ran
        first (set_machine-Kept s₁ (worker_request_shutdown fuel rounds s₁.machine))
  run_branch-Ran s s₁ fuel rounds created true true e ran first =
      let s₂ = record s₁ { runtime_workers = true } in
      goes_on-Ran s s₂ true (start_workers fuel rounds created 0 s₁.runtime_worker_count s₂) e ran
        first (start_workers-Kept fuel rounds created 0 s₁.runtime_worker_count s₂)

  run_begin-Ran :
      (fuel rounds : ℕ) (a : Answers) (allocated : Bool) (created : ℕ → Bool) (main_fn arg : ℕ)
      (s : Runtime P)
      → Ran s (run_begin ops fuel rounds a allocated created main_fn arg s)
  unfolding run_begin
  run_begin-Ran fuel rounds a allocated created main_fn arg s =
      let (spawned, m) = worker_spawn ops a main_fn arg 0 false true s.machine in
      elim (Bool-cases (not s.runtime_initialized || s.runtime_ran || main_fn == null)) [
        | inl refused ↦ rw refused (refl, omega arith)
        | inr runs_ ↦ rw runs_ (
            run_branch-Ran s (record s { machine = m; runtime_ran = true }) fuel rounds created
              spawned allocated refl refl (ground arith))
      ]

  -- An initialisation that succeeds was the first one.
  abbrev Counted : Runtime P → Bool × Runtime P → Type 0
  Counted s (ok, s') =
      ((if ok then 1 else 0) + left s'.runtime_ever_initialized ≤ left s.runtime_ever_initialized)
      × (s'.runtime_ran ≡ s.runtime_ran)

  initialized-Counted :
      (s : Runtime P) (n : ℕ) (ready : Bool × Machine P)
      → s.runtime_ever_initialized ≡ false
      → Counted s (initialized n ready s)
  initialized-Counted s n (false, m) first = (rw first (omega arith), refl)
  initialized-Counted s n (true, m) first = (rw first (omega arith), refl)

  init-Counted :
      (config : Option Config) (online : ℤ) (queue table : Bool) (s : Runtime P)
      → Counted s (croutine_runtime_init ops config online queue table s)
  unfolding croutine_runtime_init
  init-Counted config online queue table s =
      elim (Bool-cases (s.runtime_initialized || s.runtime_ever_initialized)) [
        | inl refused ↦ rw refused (omega arith, refl)
        | inr first ↦ rw first (given (worker_count_of config online) (ground arith))
      ]
    where
      given :
          (o : Option ℕ)
          → s.runtime_ever_initialized ≡ false
          → Counted s (init_branch ops o (stack_size_of config) queue table s)
      given none first = (omega arith, refl)
      given (some n) first = elim (Bool-cases (ltb (stack_size_of config) (16 * 1024))) [
        | inl small ↦ rw small (omega arith, refl)
        | inr fits ↦ rw fits (
            initialized-Counted s n
              (worker_init ops queue table (
                worker_reset_main_state
                  (worker_configure_stack_size (stack_size_of config) s.machine)))
              first)
      ]

  request-Kept :
      (fuel rounds : ℕ) (s : Runtime P) → Kept s (croutine_runtime_request_shutdown fuel rounds s)
  unfolding croutine_runtime_request_shutdown
  request-Kept fuel rounds s = kept s.runtime_initialized
    where
      kept :
          (b : Bool)
          → Kept s (
              if b
              then set_machine s (worker_request_shutdown fuel rounds s.machine)
              else returned s)
      kept true = set_machine-Kept s (worker_request_shutdown fuel rounds s.machine)
      kept false = (refl, refl)

  released-Kept : (s : Runtime P) (o : Outcome (Runtime P)) → Kept s o → Kept s (released ops o)
  released-Kept s (returned s') h = h
  released-Kept s aborted h = tt
  released-Kept s lacks_fuel h = tt

  shutdown-Kept :
      (fuel rounds : ℕ) (s : Runtime P) → Kept s (croutine_runtime_shutdown ops fuel rounds s)
  unfolding croutine_runtime_shutdown
  shutdown-Kept fuel rounds s = kept s.runtime_initialized
    where
      kept :
          (b : Bool)
          → Kept s (
              if not b
              then returned s
              else released ops (set_machine s (worker_request_shutdown fuel rounds s.machine)))
      kept true =
          released-Kept s (set_machine s (worker_request_shutdown fuel rounds s.machine))
            (set_machine-Kept s (worker_request_shutdown fuel rounds s.machine))
      kept false = (refl, refl)

  -- What a run has kept when it ends.
  abbrev Ended : Runtime P → Option (ℤ × Runtime P) → Type 0
  Ended s none = Unit
  Ended s (some (code, s')) = Kept s (returned s')

  run_end-Ended : (s : Runtime P) → Ended s (run_end s)
  unfolding run_end
  run_end-Ended s = ended (
      if s.runtime_started_workers == s.runtime_worker_count
      then worker_wait_for_main s.machine
      else some minus_one)
    where
      ended :
          (o : Option ℤ)
          → Ended s (elim o [
            | none ↦ none
            | some exit_code ↦
                some (exit_code, record s { runtime_workers = false; runtime_started_workers = 0 })
          ])
      ended none = tt
      ended (some code) = (refl, refl)

  Calls-left :
      {r s : Runtime P} {n k : ℕ}
      → Calls r n k s
      → (n + left s.runtime_ever_initialized ≤ 1) × (k + left s.runtime_ran ≤ 1)
  Calls-left {r = r} no_calls = (ground arith, ground arith)
  Calls-left (inits {s = s} config online queue table c) =
      let (n, k) = Calls-left c in
      let (less, same) = init-Counted config online queue table s in (omega arith, rw same k)
  Calls-left (runs {s = s} fuel rounds a allocated created main_fn arg waits s' c e) =
      let (n, k) = Calls-left c in
      let (same, less) =
        subst (Ran s) e (run_begin-Ran fuel rounds a allocated created main_fn arg s) in
      (rw same n, omega arith)
  Calls-left (ends {s = s} code s' c e) =
      let (n, k) = Calls-left c in
      let (ever, ran) = subst (Ended s) e (run_end-Ended s) in (rw ever n, rw ran k)
  Calls-left (requests {s = s} fuel rounds s' c e) =
      let (n, k) = Calls-left c in
      let (ever, ran) = subst (Kept s) e (request-Kept fuel rounds s) in (rw ever n, rw ran k)
  Calls-left (shuts_down {s = s} fuel rounds s' c e) =
      let (n, k) = Calls-left c in
      let (ever, ran) = subst (Kept s) e (shutdown-Kept fuel rounds s) in (rw ever n, rw ran k)
  Calls-left (works m c) = Calls-left c

  -- In any sequence of calls of the functions of the runtime, with any work of its workers in
  -- between, and with any answers of the system: at most one `croutine_runtime_init` succeeds and
  -- at most one `croutine_runtime_run` gets to its wait, also after shutdowns.
  pub Calls-once : (r s : Runtime P) (n k : ℕ) → Calls r n k s → (n ≤ 1) × (k ≤ 1)
  Calls-once r s n k c = let (once, once') = Calls-left c in (omega arith, omega arith)
