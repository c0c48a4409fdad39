-- ===== src/WorkerLoop/Waiting/Changes.antt =====
-- The operations on the table leave the tasks of its entries waiting.
use croutine.Prelude.{
  ℕ, ◌-◌, ◌^◌, ◌≤◌, ◌<◌, ◌≡◌, refl, sym, ◌∙◌, subst, inl, inr, Bool-cases, Bool, true, false, ℤ,
  Option, none, some, ◌==◌, arith, if◌then◌else◌, get_or, set, length, length-set,
}
use croutine.TaskQueue.{Tasks}
use croutine.IoWaits.{
  IoWaitEntry, IoWaitTable, reset_entry, new_entry, find_free, insert_at, insert_entry,
  get_or_insert_found, io_wait_table_find, io_wait_table_grow, make_room,
  io_wait_table_get_or_insert, io_wait_table_remove_entry,
}
use croutine.IoWaits.Table.{
  tally, is_for, is_used, IsTable, tally-set, larger_table, next_capacity, io_wait_table_grow_lem,
}
use croutine.WorkerLoop.Waiting.{
  AllWaiting, AllWaiting-set, AllWaiting-remove, AllWaiting-in_use_only,
}

insert_at-AllWaiting :
    (ts : Tasks) (table : IoWaitTable) (fd : ℤ) (o : Option ℕ)
    → AllWaiting ts table.entries
    → AllWaiting ts (insert_at table fd o).1.entries
insert_at-AllWaiting ts table fd none w = w
insert_at-AllWaiting ts table fd (some i) w =
    AllWaiting-set ts table.entries i (new_entry fd)
      (λ used. ((λ ne. absurd (ne refl)), (λ ne. absurd (ne refl)))) w

pub get_or_insert-AllWaiting :
    (ts : Tasks) (granted : Bool) (table : IoWaitTable) (fd : ℤ)
    → IsTable table
    → table.capacity ≤ 2 ^ 62
    → AllWaiting ts table.entries
    → AllWaiting ts (io_wait_table_get_or_insert granted table fd).1.entries
unfolding io_wait_table_get_or_insert get_or_insert_found make_room insert_entry io_wait_table_grow
get_or_insert-AllWaiting ts granted table fd good small w = cases (io_wait_table_find table fd)
  where
    after_room :
        (full granted : Bool)
        → AllWaiting ts
            ((let (roomy, table') =
                  if full then io_wait_table_grow granted table else (true, table) in
                if roomy then insert_entry table' fd else (none, table')).1
              ).entries
    after_room false granted = insert_at-AllWaiting ts table fd (find_free table.entries) w
    after_room true false = w
    after_room true true =
        subst
          (λ (r : Bool × IoWaitTable).
            AllWaiting ts (((if r.0 then insert_entry r.1 fd else (none, r.1)).1).entries))
          (sym (io_wait_table_grow_lem table good small))
          (insert_at-AllWaiting ts (larger_table table) fd (find_free (larger_table table).entries)
            (AllWaiting-in_use_only ts table.entries
              (next_capacity table - tally is_used table.entries) w))

    cases : (o : Option ℕ) → AllWaiting ts (get_or_insert_found granted table fd o).1.entries
    cases (some i) = w
    cases none = after_room (table.count == table.capacity) granted

-- An entry that stays the descriptor's.
pub put-IsTable :
    (table : IoWaitTable) (i : ℕ) (e : IoWaitEntry)
    → i < length table.entries
    → e.in_use ≡ (get_or table.entries i reset_entry).in_use
    → e.fd ≡ (get_or table.entries i reset_entry).fd
    → IsTable table
    → IsTable (record table { entries = set table.entries i e })
put-IsTable table i e bound used at_fd (len, counted, unique) = (
  length-set table.entries i e ∙ len,
  ground (arith, tally-set is_used table.entries i e bound),
  λ fd.
      (let same : is_for fd e ≡ is_for fd (get_or table.entries i reset_entry) =
          rw (used, at_fd) refl in
        ground (arith, tally-set (is_for fd) table.entries i e bound, unique fd)),
)

pub remove-IsTable :
    (table : IoWaitTable) (i : ℕ)
    → i < length table.entries
    → IsTable table
    → IsTable (io_wait_table_remove_entry table i)
unfolding io_wait_table_remove_entry
remove-IsTable table i bound (len, counted, unique) =
    elim (Bool-cases (get_or table.entries i reset_entry).in_use) [
      | inr free ↦ rw free (len, counted, unique)
      | inl used ↦ rw used (
        length-set table.entries i reset_entry ∙ len,
        ground (arith, tally-set is_used table.entries i reset_entry bound),
        λ fd. ground (arith, tally-set (is_for fd) table.entries i reset_entry bound, unique fd),
      )
    ]

pub remove-AllWaiting :
    (ts : Tasks) (table : IoWaitTable) (i : ℕ)
    → AllWaiting ts table.entries
    → AllWaiting ts (io_wait_table_remove_entry table i).entries
unfolding io_wait_table_remove_entry
remove-AllWaiting ts table i w = elim (Bool-cases (get_or table.entries i reset_entry).in_use) [
  | inr free ↦ rw free w
  | inl used ↦ rw used (AllWaiting-remove ts table.entries i w)
]
