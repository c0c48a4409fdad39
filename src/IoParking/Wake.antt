-- ===== src/IoParking/Wake.antt =====
-- Which tasks of an entry are woken.
use croutine.Prelude.{
  ℕ, ◌+◌, ◌≡◌, true, ◌||◌, ◌==◌, if◌then◌else◌, Bool-cases, inl, inr, arith, null, count, ◌≢◌,
}
use croutine.IoWaits.{IoWaitEntry, wants_read, wants_write, take_ready}

-- Whether a task waits in an entry, as a number.
abbrev pub waits : ℕ → IoWaitEntry → ℕ
waits t e = if (e.read_task == t) || (e.write_task == t) then 1 else 0

-- For any ready events, every task that waits in an entry, for one of the two events or both,
-- either is woken exactly once or goes on waiting in it.
pub take_ready-once :
    (e : IoWaitEntry) (ready t : ℕ)
    → t ≢ null
    → count t ((take_ready e ready).0) + waits t ((take_ready e ready).1) ≡ waits t e
unfolding take_ready
take_ready-once e ready t h = elim (Bool-cases (wants_read ready)) [
  | inl r ↦ elim (Bool-cases (wants_write ready)) [ inl w ↦ ground arith | inr w ↦ ground arith ]
  | inr r ↦ elim (Bool-cases (wants_write ready)) [ inl w ↦ ground arith | inr w ↦ ground arith ]
]

-- After waking an entry, no task waits in it for an event that was ready.
pub take_ready-ready :
    (e : IoWaitEntry) (ready : ℕ)
    → (wants_read ready ≡ true → ((take_ready e ready).1).read_task ≡ null)
      × (wants_write ready ≡ true → ((take_ready e ready).1).write_task ≡ null)
unfolding take_ready
take_ready-ready e ready = (λ r. ground arith, λ w. ground arith)
