-- ===== src/IoWaits/Lookup.antt =====
-- The table of waiting tasks as a map from descriptors to the two tasks that wait.
use croutine.Prelude.{
  ℕ, zero, suc, ◌+◌, ◌-◌, ◌^◌, ◌≤◌, ◌<◌, ℤ, ◌==ℤ◌, ◌≡◌, refl, sym, ap, ◌∙◌, subst, Bool, true,
  false, ◌&&◌, Bool-cases, Option, none, some, inl, inr, List, [], ◌∷◌, ◌++◌, ◌==◌, if◌then◌else◌,
  arith, get_or, set, replicate, length, length-set, get_or-set_self, fun_ext, ==_iff, null,
}
use croutine.IoWaits.{
  IoWaitEntry, IoWaitTable, reset_entry, new_entry, holds, find_entry, find_free, insert_at,
  get_or_insert_found, io_wait_table_grow, io_wait_table_find, insert_entry, make_room,
  io_wait_table_get_or_insert,
}
use croutine.IoWaits.Table.{
  tally, is_used, is_for, IsTable, in_use_only, tally-bound, next_capacity, larger_table,
  io_wait_table_grow_lem,
}
use croutine.IoWaits.Invariant.{
  Found, is_unused, find_free-Found, find_entry-Found, ==ℤ-refl, ==ℤ-eq, larger-tally, not_held,
  larger_table-IsTable,
}

-- The tasks that wait for a descriptor to be readable and writable, if it has an entry.
abbrev pub tasks_of : List IoWaitEntry → ℤ → Option (ℕ × ℕ)
tasks_of [] fd = none
tasks_of (e ∷ entries) fd =
    if holds e fd then some (e.read_task, e.write_task) else tasks_of entries fd

-- The map after a look-up that adds a descriptor without tasks if it is not there.
abbrev pub or_no_tasks : Option (ℕ × ℕ) → Option (ℕ × ℕ)
or_no_tasks none = some (null, null)
or_no_tasks (some tasks) = some tasks

abbrev pub with_fd : ℤ → (ℤ → Option (ℕ × ℕ)) → ℤ → Option (ℕ × ℕ)
with_fd fd m fd' = if fd ==ℤ fd' then or_no_tasks (m fd) else m fd'

-- A look-up gave an entry of the descriptor, and the table changed as a map should.
abbrev pub GotEntry : IoWaitTable → ℤ → Option ℕ × IoWaitTable → Type 0
GotEntry table fd (none, after) = ⊥
GotEntry table fd (some i, after) =
    (i < length after.entries)
    × (holds (get_or after.entries i reset_entry) fd ≡ true)
    × ((fd' : ℤ) → tasks_of after.entries fd' ≡ with_fd fd (tasks_of table.entries) fd')

tasks_of-absent :
    (xs : List IoWaitEntry) (fd : ℤ) → tally (is_for fd) xs ≡ 0 → tasks_of xs fd ≡ none
tasks_of-absent [] fd h = refl
tasks_of-absent (x ∷ xs) fd h = elim (Bool-cases (holds x fd)) [
  | inl here ↦ absurd (ground arith)
  | inr elsewhere ↦
      ap (λ b. if b then some (x.read_task, x.write_task) else tasks_of xs fd) elsewhere
      ∙ tasks_of-absent xs fd (ground arith)
]

tasks_of-present :
    (xs : List IoWaitEntry) (fd : ℤ) (i : ℕ)
    → i < length xs
    → holds (get_or xs i reset_entry) fd ≡ true
    → or_no_tasks (tasks_of xs fd) ≡ tasks_of xs fd
tasks_of-present [] fd i bound h = absurd (omega arith)
tasks_of-present (x ∷ xs) fd zero bound h =
    let now = ap (λ b. if b then some (x.read_task, x.write_task) else tasks_of xs fd) h in
    ap or_no_tasks now ∙ sym now
tasks_of-present (x ∷ xs) fd (suc i) bound h =
    let rest = tasks_of-present xs fd i (omega arith) h in
    elim (Bool-cases (holds x fd)) [
      | inl here ↦
          let now = ap (λ b. if b then some (x.read_task, x.write_task) else tasks_of xs fd) here in
          ap or_no_tasks now ∙ sym now
      | inr elsewhere ↦
          let now =
            ap (λ b. if b then some (x.read_task, x.write_task) else tasks_of xs fd) elsewhere in
          ap or_no_tasks now ∙ rest ∙ sym now
    ]

tasks_of-reset : (n : ℕ) (fd : ℤ) → tasks_of (replicate n reset_entry) fd ≡ none
tasks_of-reset zero fd = refl
tasks_of-reset (suc n) fd = tasks_of-reset n fd

tasks_of-in_use_only :
    (xs : List IoWaitEntry) (n : ℕ) (fd : ℤ)
    → tasks_of (in_use_only xs ++ replicate n reset_entry) fd ≡ tasks_of xs fd
tasks_of-in_use_only [] n fd = tasks_of-reset n fd
tasks_of-in_use_only (x ∷ xs) n fd = elim (Bool-cases x.in_use) [
  | inl used ↦
      ap
        (λ b.
          tasks_of ((if b then x ∷ in_use_only xs else in_use_only xs) ++ replicate n reset_entry)
            fd)
        used
      ∙ ap (λ o. if holds x fd then some (x.read_task, x.write_task) else o)
          (tasks_of-in_use_only xs n fd)
  | inr free ↦
      ap
        (λ b.
          tasks_of ((if b then x ∷ in_use_only xs else in_use_only xs) ++ replicate n reset_entry)
            fd)
        free
      ∙ tasks_of-in_use_only xs n fd
      ∙ sym (
          ap (λ b. if b && (x.fd ==ℤ fd) then some (x.read_task, x.write_task) else tasks_of xs fd)
            free)
]

-- Only the new descriptor's entry is seen to change.
abbrev with_new : ℤ → ℤ → Option (ℕ × ℕ) → Option (ℕ × ℕ)
with_new fd fd' old = if fd ==ℤ fd' then some (null, null) else old

tasks_of-new :
    (xs : List IoWaitEntry) (i : ℕ) (fd fd' : ℤ)
    → i < length xs
    → is_unused (get_or xs i reset_entry) ≡ true
    → tally (is_for fd) xs ≡ 0
    → tasks_of (set xs i (new_entry fd)) fd' ≡ with_new fd fd' (tasks_of xs fd')
tasks_of-new [] i fd fd' bound unused absent = absurd (omega arith)
tasks_of-new (x ∷ xs) zero fd fd' bound unused absent =
    let free : x.in_use ≡ false = ground arith in
    ap (with_new fd fd') (
      sym (
        ap (λ b. if b then some (x.read_task, x.write_task) else tasks_of xs fd')
          (not_held fd' x free)))
tasks_of-new (x ∷ xs) (suc i) fd fd' bound unused absent =
    let pair : Option (ℕ × ℕ) = some (x.read_task, x.write_task) in
    let rest = tasks_of-new xs i fd fd' (omega arith) unused (ground arith) in
    elim (Bool-cases (holds x fd')) [
      | inr elsewhere ↦
          ap (λ b. if b then pair else tasks_of (set xs i (new_entry fd)) fd') elsewhere
          ∙ rest
          ∙ sym (ap (λ b. with_new fd fd' (if b then pair else tasks_of xs fd')) elsewhere)
      | inl here ↦
          let other : (fd ==ℤ fd') ≡ false = elim (Bool-cases (fd ==ℤ fd')) [
            | inr ne ↦ ne
            | inl same ↦ absurd (
                let mine = subst (λ f. holds x f ≡ true) (sym (==ℤ-eq fd fd' same)) here in
                ground arith)
          ] in
          ap (λ b. if b then pair else tasks_of (set xs i (new_entry fd)) fd') here
          ∙ sym (ap (λ b. if b then some (null, null) else pair) other)
          ∙ sym (ap (λ b. with_new fd fd' (if b then pair else tasks_of xs fd')) here)
    ]

tally-unused : (xs : List IoWaitEntry) → tally is_used xs + tally is_unused xs ≡ length xs
tally-unused [] = omega arith
tally-unused (x ∷ xs) = ground (arith, tally-unused xs)

insert_entry-GotEntry :
    (table : IoWaitTable) (fd : ℤ)
    → tally (is_for fd) table.entries ≡ 0
    → tally is_used table.entries < length table.entries
    → GotEntry table fd (insert_entry table fd)
unfolding insert_entry
insert_entry-GotEntry table fd absent room =
    cases (find_free table.entries) (find_free-Found table.entries)
  where
    got :
        (i : ℕ)
        → Found is_unused table.entries (some i)
        → GotEntry table fd (insert_at table fd (some i))
    got i (bound, unused) = (
      subst (λ n. i < n) (sym (length-set table.entries i (new_entry fd))) bound,
      ap (λ e. holds e fd) (get_or-set_self table.entries i (new_entry fd) reset_entry bound)
          ∙ ==ℤ-refl fd,
      λ fd'.
          tasks_of-new table.entries i fd fd' bound unused absent
          ∙ sym (
              ap (λ o. if fd ==ℤ fd' then or_no_tasks o else tasks_of table.entries fd')
                (tasks_of-absent table.entries fd absent)),
    )

    cases :
        (o : Option ℕ) → Found is_unused table.entries o → GotEntry table fd (insert_at table fd o)
    cases none h = absurd (omega (arith, tally-unused table.entries))
    cases (some i) h = got i h

Found-GotEntry :
    (table : IoWaitTable) (fd : ℤ) (i : ℕ)
    → Found (is_for fd) table.entries (some i)
    → GotEntry table fd (some i, table)
Found-GotEntry table fd i (bound, h) = (
  bound,
  h,
  λ fd'. elim (Bool-cases (fd ==ℤ fd')) [
    | inl same ↦ sym (
        ap (λ b. if b then or_no_tasks (tasks_of table.entries fd) else tasks_of table.entries fd')
          same
        ∙ tasks_of-present table.entries fd i bound h
        ∙ ap (tasks_of table.entries) (==ℤ-eq fd fd' same))
    | inr other ↦ sym (
        ap (λ b. if b then or_no_tasks (tasks_of table.entries fd) else tasks_of table.entries fd')
          other)
  ],
)

-- What a look-up finds in the grown table it finds in the table before.
grown-GotEntry :
    (table : IoWaitTable) (fd : ℤ) (r : Option ℕ × IoWaitTable)
    → GotEntry (larger_table table) fd r
    → GotEntry table fd r
grown-GotEntry table fd (none, after) h = h
grown-GotEntry table fd (some i, after) (bound, held, map) =
    let spare = next_capacity table - tally is_used table.entries in
    (
      bound,
      held,
      λ fd'.
          subst (λ (m : ℤ → Option (ℕ × ℕ)). tasks_of after.entries fd' ≡ with_fd fd m fd')
            (fun_ext (tasks_of-in_use_only table.entries spare)) (map fd'),
    )

-- On a well-formed table of at most 2^62 entries, with the allocation granted if the table has to
-- grow, the look-up gives an entry in use for the descriptor; as a map, the table is as before but
-- for the descriptor, which has no tasks if it was not there and its old tasks if it was.
pub io_wait_table_get_or_insert-GotEntry :
    (table : IoWaitTable) (fd : ℤ)
    → IsTable table
    → table.capacity ≤ 2 ^ 62
    → GotEntry table fd (io_wait_table_get_or_insert true table fd)
unfolding io_wait_table_get_or_insert io_wait_table_find get_or_insert_found make_room
io_wait_table_get_or_insert-GotEntry table fd good small =
    cases (find_entry table.entries fd) (find_entry-Found table.entries fd)
  where
    room :
        (table.count ≡ table.capacity)
        → tally is_used (larger_table table).entries < length (larger_table table).entries
    room full =
        let same = larger-tally is_used table (λ e h. h) in
        let len = (larger_table-IsTable table good small).0 in
        let bound = tally-bound is_used table.entries in let counted = good.1 in ground arith

    inserted :
        tally (is_for fd) table.entries ≡ 0
        → (full : Bool) → (table.count == table.capacity) ≡ full
        → GotEntry table fd (
            let (roomy, table') = if full then io_wait_table_grow true table else (true, table) in
            if roomy then insert_entry table' fd else (none, table'))
    inserted absent false vacant =
        let bound = tally-bound is_used table.entries in
        let counted = good.1 in
        let len = good.0 in insert_entry-GotEntry table fd absent (ground arith)
    inserted absent true full =
        subst
          (λ (r : Bool × IoWaitTable).
            GotEntry table fd (if r.0 then insert_entry r.1 fd else (none, r.1)))
          (sym (io_wait_table_grow_lem table good small))
          (grown-GotEntry table fd (insert_entry (larger_table table) fd) (
            insert_entry-GotEntry (larger_table table) fd
              (larger-tally (is_for fd) table (not_held fd) ∙ absent)
              (room ((==_iff table.count table.capacity).0 full))))

    cases :
        (o : Option ℕ)
        → Found (is_for fd) table.entries o
        → GotEntry table fd (get_or_insert_found true table fd o)
    cases none absent = inserted absent (table.count == table.capacity) refl
    cases (some i) h = Found-GotEntry table fd i h
