-- ===== src/IoWaits/Tests.antt =====
-- Tests of the table of waiting tasks.
use croutine.Prelude.{ℤ, pos, ◌≤◌, refl, true, [], ◌∷◌, arith, null}
use croutine.IoWaits.{IoWaitTable, io_wait_table_get_or_insert}
use croutine.IoWaits.Table.{tally, is_for, IsTable}
use croutine.IoWaits.Invariant.{io_wait_table_get_or_insert-IsTable}
use croutine.IoWaits.Lookup.{GotEntry, io_wait_table_get_or_insert-GotEntry}

-- Task 20 waits for descriptor 5 to be readable; the table is full.
abbrev one_entry : IoWaitTable
one_entry = record {
  entries = record { fd = pos 5; read_task = 20; write_task = null; in_use = true } ∷ [];
  capacity = 1;
  count = 1;
}

one_entry-IsTable : IsTable one_entry
one_entry-IsTable = (refl, refl, at_most_one)
  where
    at_most_one : (fd : ℤ) → tally (is_for fd) one_entry.entries ≤ 1
    at_most_one fd = ground arith

io_wait_table_get_or_insert-GotEntry_example :
    GotEntry one_entry (pos 6) (io_wait_table_get_or_insert true one_entry (pos 6))
io_wait_table_get_or_insert-GotEntry_example =
    io_wait_table_get_or_insert-GotEntry one_entry (pos 6) one_entry-IsTable (omega arith)

io_wait_table_get_or_insert-IsTable_example :
    IsTable ((io_wait_table_get_or_insert true one_entry (pos 6)).1)
io_wait_table_get_or_insert-IsTable_example =
    io_wait_table_get_or_insert-IsTable true one_entry (pos 6) one_entry-IsTable (omega arith)
