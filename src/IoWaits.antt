-- ===== src/IoWaits.antt =====
-- The table of tasks that wait for I/O of src/worker.c. The
-- array of `capacity` entries is a list; an entry is known by its index.
pub mod Table
pub mod Invariant
pub mod Lookup
mod Tests
use croutine.Prelude.{
  ℕ, bit_or, zero, suc, ◌+◌, ◌-◌, ◌*◌, ◌/◌, ◌%◌, ◌^◌, ℤ, ◌==ℤ◌, is_negative, minus_one, Bool, true,
  false, not, ◌&&◌, ◌||◌, Option, none, some, List, [], ◌∷◌, ltb, ◌==◌, if◌then◌else◌, null, update,
  get_or, set, replicate, length,
}
use croutine.Task.{Task, TaskState, waiting_io, event_none, event_read, event_write}
use croutine.Scheduler.{Scheduler, enqueue_runnable_task_locked}

pub record IoWaitEntry : Type 0 where
  pub fd : ℤ
  pub read_task : ℕ
  pub write_task : ℕ
  pub in_use : Bool

pub record IoWaitTable : Type 0 where
  pub entries : List IoWaitEntry
  pub capacity : ℕ
  pub count : ℕ

-- `croutine_io_wait_result`
pub data IoWaitResult : Type 0 where
  wait_ready wait_closed wait_failed : IoWaitResult

-- `(events & CROUTINE_IO_EVENT_READ) != 0`
abbrev pub wants_read : ℕ → Bool
wants_read events = events % 2 == 1

-- `(events & CROUTINE_IO_EVENT_WRITE) != 0`
abbrev pub wants_write : ℕ → Bool
wants_write events = events / 2 % 2 == 1

abbrev pub io_wait_entry_events : IoWaitEntry → ℕ
io_wait_entry_events e =
    let events = if e.read_task == null then event_none else event_read in
    if e.write_task == null then events else bit_or 32 events event_write

-- What `io_wait_entry_reset` makes of an entry.
abbrev pub reset_entry : IoWaitEntry
reset_entry = record { fd = minus_one; read_task = null; write_task = null; in_use = false }

-- `granted` is the answer of `calloc`; the reset entries do not depend on what it gives.
unfoldable pub io_wait_table_init : Bool → ℕ → Bool × IoWaitTable
io_wait_table_init granted capacity =
    if granted
    then (true, record { entries = replicate capacity reset_entry; capacity = capacity; count = 0 })
    else (false, record { entries = []; capacity = 0; count = 0 })

unfoldable pub io_wait_table_deinit : IoWaitTable → IoWaitTable
io_wait_table_deinit table = record { entries = []; capacity = 0; count = 0 }

-- The copying loop of `io_wait_table_grow`: the new entries and `dst`.
unfoldable pub copy_in_use : List IoWaitEntry → ℕ → List IoWaitEntry → List IoWaitEntry × ℕ
copy_in_use [] dst entries = (entries, dst)
copy_in_use (e ∷ old) dst entries =
    if e.in_use then copy_in_use old (dst + 1) (set entries dst e) else copy_in_use old dst entries

unfoldable pub io_wait_table_grow : Bool → IoWaitTable → Bool × IoWaitTable
unfolding copy_in_use
io_wait_table_grow granted table =
    let new_capacity = if table.capacity == 0 then 1 else table.capacity * 2 % 2 ^ 64 in
    if not granted
    then (false, table)
    else (let (entries, dst) = copy_in_use table.entries 0 (replicate new_capacity reset_entry) in
        (true, record { entries = entries; capacity = new_capacity; count = dst }))

abbrev pub holds : IoWaitEntry → ℤ → Bool
holds e fd = e.in_use && (e.fd ==ℤ fd)

-- The index of the first entry in use for a descriptor.
unfoldable pub find_entry : List IoWaitEntry → ℤ → Option ℕ
find_entry [] fd = none
find_entry (e ∷ entries) fd =
    let rest = find_entry entries fd in
    if holds e fd then some 0 else elim rest [ none ↦ none | some i ↦ some (i + 1) ]

unfoldable pub io_wait_table_find : IoWaitTable → ℤ → Option ℕ
unfolding find_entry
io_wait_table_find table fd = find_entry table.entries fd

-- The index of the first entry that is not in use.
unfoldable pub find_free : List IoWaitEntry → Option ℕ
find_free [] = none
find_free (e ∷ entries) =
    let rest = find_free entries in
    if e.in_use then elim rest [ none ↦ none | some i ↦ some (i + 1) ] else some 0

abbrev pub new_entry : ℤ → IoWaitEntry
new_entry fd = record { fd = fd; read_task = null; write_task = null; in_use = true }

-- The new entry goes to a given index, if there is one.
abbrev pub insert_at : IoWaitTable → ℤ → Option ℕ → Option ℕ × IoWaitTable
insert_at table fd none = (none, table)
insert_at table fd (some i) =
    (some i, record table { entries = set table.entries i (new_entry fd); count = table.count + 1 })

-- The second loop of `io_wait_table_get_or_insert`.
unfoldable pub insert_entry : IoWaitTable → ℤ → Option ℕ × IoWaitTable
unfolding find_free
insert_entry table fd = insert_at table fd (find_free table.entries)

-- `table->count == table->capacity && !io_wait_table_grow(table)`, and the table after it
unfoldable pub make_room : Bool → IoWaitTable → Bool × IoWaitTable
make_room granted table =
    if table.count == table.capacity then io_wait_table_grow granted table else (true, table)

-- `io_wait_table_get_or_insert` once the table is searched.
unfoldable pub get_or_insert_found : Bool → IoWaitTable → ℤ → Option ℕ → Option ℕ × IoWaitTable
unfolding insert_entry make_room
get_or_insert_found granted table fd (some i) = (some i, table)
get_or_insert_found granted table fd none =
    let (roomy, table') = make_room granted table in
    if roomy then insert_entry table' fd else (none, table')

unfoldable pub io_wait_table_get_or_insert : Bool → IoWaitTable → ℤ → Option ℕ × IoWaitTable
unfolding get_or_insert_found
io_wait_table_get_or_insert granted table fd =
    get_or_insert_found granted table fd (io_wait_table_find table fd)

unfoldable pub io_wait_table_remove_entry : IoWaitTable → ℕ → IoWaitTable
io_wait_table_remove_entry table i =
    if not (get_or table.entries i reset_entry).in_use
    then table
    else record table { entries = set table.entries i reset_entry; count = table.count - 1 }

abbrev pub io_wait_entry_clear_task : IoWaitEntry → ℕ → IoWaitEntry
io_wait_entry_clear_task e task = record e {
  read_task = if e.read_task == task then null else e.read_task;
  write_task = if e.write_task == task then null else e.write_task;
}

-- The second guard of the two: a task already in `tasks_to_wake` is not put there again.
abbrev pub take_writer : List ℕ → ℕ → List ℕ
take_writer [] task = task ∷ []
take_writer (t ∷ ts) task = if t == task then t ∷ ts else t ∷ task ∷ ts

-- `wake_waiting_tasks_locked` on the entry: `tasks_to_wake` and the entry after it.
unfoldable pub take_ready : IoWaitEntry → ℕ → List ℕ × IoWaitEntry
take_ready e ready =
    let reads = wants_read ready && not (e.read_task == null) in
    let first = if reads then e.read_task ∷ [] else [] in
    let e' = if reads then io_wait_entry_clear_task e e.read_task else e in
    if wants_write ready && not (e'.write_task == null)
    then (take_writer first e'.write_task, io_wait_entry_clear_task e' e'.write_task)
    else (first, e')
