-- ===== src/WorkerLoop/Waiting.antt =====
-- The tasks of the table of waiting tasks: each waits for the descriptor of its entry.
pub mod Changes
pub mod Wakes
pub mod Polls
pub mod Parks
pub mod Steps
pub mod Spawns
use croutine.Prelude.{
  ℕ, zero, suc, ◌+◌, ◌<◌, ◌≤◌, ◌≡◌, ◌≢◌, refl, sym, ap, ◌∙◌, subst, inl, inr, Bool-cases, Bool,
  true, false, ℤ, ◌==ℤ◌, List, [], ◌∷◌, ◌++◌, arith, if◌then◌else◌, null, get_or, set, replicate,
  length,
}
use croutine.Task.{Task, waiting_io}
use croutine.TaskQueue.{Tasks}
use croutine.IoWaits.{IoWaitEntry, reset_entry, holds}
use croutine.IoWaits.Table.{tally, is_for, in_use_only}

abbrev pub Waits : Tasks → ℤ → ℕ → Type 0
Waits ts fd t = t ≢ null → ((ts t).state ≡ waiting_io) × ((ts t).io_fd ≡ fd)

-- The tasks of an entry wait for its descriptor.
abbrev pub IsWaiting : Tasks → IoWaitEntry → Type 0
IsWaiting ts e = e.in_use ≡ true → (Waits ts e.fd e.read_task) × (Waits ts e.fd e.write_task)

abbrev pub AllWaiting : Tasks → List IoWaitEntry → Type 0
AllWaiting ts [] = Unit
AllWaiting ts (e ∷ entries) = (IsWaiting ts e) × (AllWaiting ts entries)

-- A task that waits for a descriptor still does.
abbrev pub Still : Tasks → Tasks → Type 0
Still ts ts' =
    (t : ℕ)
    → (ts t).state ≡ waiting_io
    → ((ts' t).state ≡ waiting_io) × ((ts' t).io_fd ≡ (ts t).io_fd)

Waits-Still : (ts ts' : Tasks) (fd : ℤ) (t : ℕ) → Still ts ts' → Waits ts fd t → Waits ts' fd t
Waits-Still ts ts' fd t still w ne =
    let (state, at_fd) = w ne in let (state', at_fd') = still t state in (state', at_fd' ∙ at_fd)

pub AllWaiting-Still :
    (ts ts' : Tasks) (es : List IoWaitEntry) → Still ts ts' → AllWaiting ts es → AllWaiting ts' es
AllWaiting-Still ts ts' [] still w = tt
AllWaiting-Still ts ts' (e ∷ es) still (here, rest) = (
  λ used. (
    Waits-Still ts ts' e.fd e.read_task still (here used).0,
    Waits-Still ts ts' e.fd e.write_task still (here used).1,
  ),
  AllWaiting-Still ts ts' es still rest,
)

pub AllWaiting-set :
    (ts : Tasks) (es : List IoWaitEntry) (i : ℕ) (e : IoWaitEntry)
    → IsWaiting ts e
    → AllWaiting ts es
    → AllWaiting ts (set es i e)
AllWaiting-set ts [] i e new w = tt
AllWaiting-set ts (x ∷ es) zero e new (here, rest) = (new, rest)
AllWaiting-set ts (x ∷ es) (suc i) e new (here, rest) = (here, AllWaiting-set ts es i e new rest)

reset-IsWaiting : (ts : Tasks) → IsWaiting ts reset_entry
reset-IsWaiting ts used = absurd (ground arith)

pub AllWaiting-remove :
    (ts : Tasks) (es : List IoWaitEntry) (i : ℕ)
    → AllWaiting ts es
    → AllWaiting ts (set es i reset_entry)
AllWaiting-remove ts es i = AllWaiting-set ts es i reset_entry (reset-IsWaiting ts)

pub AllWaiting-reset : (ts : Tasks) (n : ℕ) → AllWaiting ts (replicate n reset_entry)
AllWaiting-reset ts zero = tt
AllWaiting-reset ts (suc n) = (reset-IsWaiting ts, AllWaiting-reset ts n)

-- The entries of a table that has grown.
pub AllWaiting-in_use_only :
    (ts : Tasks) (es : List IoWaitEntry) (n : ℕ)
    → AllWaiting ts es
    → AllWaiting ts (in_use_only es ++ replicate n reset_entry)
AllWaiting-in_use_only ts [] n w = AllWaiting-reset ts n
AllWaiting-in_use_only ts (e ∷ es) n (here, rest) = elim (Bool-cases e.in_use) [
  | inl used ↦ rw used ((λ again. here used), AllWaiting-in_use_only ts es n rest)
  | inr free ↦ rw free (AllWaiting-in_use_only ts es n rest)
]

pub AllWaiting-at :
    (ts : Tasks) (es : List IoWaitEntry) (i : ℕ)
    → AllWaiting ts es
    → IsWaiting ts (get_or es i reset_entry)
AllWaiting-at ts [] i w = reset-IsWaiting ts
AllWaiting-at ts (e ∷ es) zero (here, rest) = here
AllWaiting-at ts (e ∷ es) (suc i) (here, rest) = AllWaiting-at ts es i rest

absent-tally :
    (fd : ℤ) (es : List IoWaitEntry) (i : ℕ)
    → holds (get_or es i reset_entry) fd ≡ true
    → 1 ≤ tally (is_for fd) es
absent-tally fd [] i h = absurd (ground arith)
absent-tally fd (e ∷ es) zero h = ground arith
absent-tally fd (e ∷ es) (suc i) h = ground (arith, absent-tally fd es i h)

-- The writes that change the tasks of one descriptor's entry leave the other entries waiting.
pub AllWaiting-replace :
    (ts ts' : Tasks) (fd : ℤ) (es : List IoWaitEntry) (i : ℕ) (e : IoWaitEntry)
    → tally (is_for fd) es ≤ 1
    → holds (get_or es i reset_entry) fd ≡ true
    → ((x : IoWaitEntry) → holds x fd ≡ false → IsWaiting ts x → IsWaiting ts' x)
    → IsWaiting ts' e
    → AllWaiting ts es
    → AllWaiting ts' (set es i e)
AllWaiting-replace ts ts' fd [] i e one h others new w = tt
AllWaiting-replace ts ts' fd (x ∷ es) zero e one h others new (here, rest) =
    (new, keep es (ground arith) rest)
  where
    keep : (xs : List IoWaitEntry) → tally (is_for fd) xs ≡ 0 → AllWaiting ts xs → AllWaiting ts' xs
    keep [] none_ w = tt
    keep (y ∷ ys) none_ (w, ws) = (others y (ground arith) w, keep ys (ground arith) ws)
AllWaiting-replace ts ts' fd (x ∷ es) (suc i) e one h others new (here, rest) =
    let more = absent-tally fd es i h in
    (
      others x (ground arith) here,
      AllWaiting-replace ts ts' fd es i e (ground arith) h others new rest,
    )
