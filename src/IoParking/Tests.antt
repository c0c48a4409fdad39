-- ===== src/IoParking/Tests.antt =====
-- Tests of waking the tasks of an entry.
use croutine.Prelude.{◌+◌, pos, ◌≡◌, true, arith, count}
use croutine.IoWaits.{IoWaitEntry, take_ready}
use croutine.IoParking.Wake.{waits, take_ready-once}

-- Task 20 waits for both events.
abbrev both_entry : IoWaitEntry
both_entry = record { fd = pos 5; read_task = 20; write_task = 20; in_use = true }

take_ready-once_example :
    count 20 ((take_ready both_entry 3).0) + waits 20 ((take_ready both_entry 3).1) ≡ 1
take_ready-once_example = take_ready-once both_entry 3 20 (ground arith)
