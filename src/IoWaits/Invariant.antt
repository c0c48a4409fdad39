-- ===== src/IoWaits/Invariant.antt =====
-- The operations of the table of waiting tasks keep it well-formed.
use croutine.Prelude.{
  ℕ, suc, ◌+◌, ◌-◌, ◌^◌, ◌≤◌, ◌<◌, ℤ, pos, negsuc, ==_iff, ◌==ℤ◌, ◌≡◌, refl, sym, ap, ◌∙◌, subst,
  Bool, true, false, ◌&&◌, not, Bool-cases, Option, none, some, inl, inr, List, [], ◌∷◌, ◌==◌,
  if◌then◌else◌, arith, get_or, set, replicate, length, length-set, length-append, length-replicate,
}
use croutine.IoWaits.{
  IoWaitEntry, IoWaitTable, reset_entry, new_entry, holds, find_entry, find_free, insert_at,
  get_or_insert_found, io_wait_table_grow, io_wait_table_find, insert_entry, make_room,
  io_wait_table_get_or_insert,
}
use croutine.IoWaits.Table.{
  tally, is_used, is_for, IsTable, in_use_only, tally-set, tally-append, tally-reset,
  tally-in_use_only, tally-bound, length-in_use_only, next_capacity, larger_table,
  io_wait_table_grow_lem,
}

pub not_held : (fd : ℤ) (e : IoWaitEntry) → e.in_use ≡ false → is_for fd e ≡ false
not_held fd e free = ap (λ b. b && (e.fd ==ℤ fd)) free

pub larger-tally :
    (p : IoWaitEntry → Bool) (table : IoWaitTable)
    → ((e : IoWaitEntry) → e.in_use ≡ false → p e ≡ false)
    → tally p (larger_table table).entries ≡ tally p table.entries
larger-tally p table h =
    let spare = next_capacity table - tally is_used table.entries in
    let split = tally-append p (in_use_only table.entries) (replicate spare reset_entry) in
    let none_free = tally-reset p spare (h reset_entry refl) in
    let same = tally-in_use_only p table.entries h in omega arith

pub larger_table-IsTable :
    (table : IoWaitTable) → IsTable table → table.capacity ≤ 2 ^ 62 → IsTable (larger_table table)
larger_table-IsTable table (len, counted, unique) small =
    let spare = next_capacity table - tally is_used table.entries in
    let used = larger-tally is_used table (λ e h. h) in
    let split = length-append (in_use_only table.entries) (replicate spare reset_entry) in
    let pad = length-replicate spare reset_entry in
    let kept = length-in_use_only table.entries in
    let bound = tally-bound is_used table.entries in
    (
      ground arith,
      omega arith,
      λ fd.
          (let same = larger-tally (is_for fd) table (not_held fd) in
            let u = unique fd in omega arith),
    )

-- What an index, or none, says of a search for a test.
abbrev pub Found : (IoWaitEntry → Bool) → List IoWaitEntry → Option ℕ → Type 0
Found p xs none = tally p xs ≡ 0
Found p xs (some i) = (i < length xs) × (p (get_or xs i reset_entry) ≡ true)

abbrev later_index : Option ℕ → Option ℕ
later_index none = none
later_index (some i) = some (i + 1)

later_index-Found :
    (p : IoWaitEntry → Bool) (e : IoWaitEntry) (xs : List IoWaitEntry) (o : Option ℕ)
    → p e ≡ false
    → Found p xs o
    → Found p (e ∷ xs) (later_index o)
later_index-Found p e xs none fails h = ground arith
later_index-Found p e xs (some i) fails (bound, h) =
    let after : suc i ≡ i + 1 = omega arith in
    (omega arith, subst (λ n. p (get_or (e ∷ xs) n reset_entry) ≡ true) after h)

abbrev pub is_unused : IoWaitEntry → Bool
is_unused e = not e.in_use

pub find_free-Found : (xs : List IoWaitEntry) → Found is_unused xs (find_free xs)
unfolding find_free
find_free-Found [] = refl
find_free-Found (e ∷ xs) = elim (Bool-cases e.in_use) [
  | inl used ↦
      subst (Found is_unused (e ∷ xs))
        (sym (ap (λ b. if b then later_index (find_free xs) else some 0) used))
        (later_index-Found is_unused e xs (find_free xs) (ap not used) (find_free-Found xs))
  | inr free ↦
      subst (Found is_unused (e ∷ xs))
        (sym (ap (λ b. if b then later_index (find_free xs) else some 0) free))
        (omega arith, ap not free)
]

pub find_entry-Found : (xs : List IoWaitEntry) (fd : ℤ) → Found (is_for fd) xs (find_entry xs fd)
unfolding find_entry
find_entry-Found [] fd = refl
find_entry-Found (e ∷ xs) fd = elim (Bool-cases (holds e fd)) [
  | inl here ↦
      subst (Found (is_for fd) (e ∷ xs))
        (sym (ap (λ b. if b then some 0 else later_index (find_entry xs fd)) here))
        (omega arith, here)
  | inr elsewhere ↦
      subst (Found (is_for fd) (e ∷ xs))
        (sym (ap (λ b. if b then some 0 else later_index (find_entry xs fd)) elsewhere))
        (later_index-Found (is_for fd) e xs (find_entry xs fd) elsewhere (find_entry-Found xs fd))
]

pub ==ℤ-refl : (a : ℤ) → (a ==ℤ a) ≡ true
==ℤ-refl (pos n) = ground arith
==ℤ-refl (negsuc n) = ground arith

pub ==ℤ-eq : (a b : ℤ) → (a ==ℤ b) ≡ true → a ≡ b
==ℤ-eq (pos a) (pos b) h = ap pos ((==_iff a b).0 h)
==ℤ-eq (pos a) (negsuc b) h = absurd (ground arith)
==ℤ-eq (negsuc a) (pos b) h = absurd (ground arith)
==ℤ-eq (negsuc a) (negsuc b) h = ap negsuc ((==_iff a b).0 h)

-- A new entry for a descriptor that has none keeps the table well-formed.
insert_at-IsTable :
    (table : IoWaitTable) (fd : ℤ) (i : ℕ)
    → IsTable table
    → tally (is_for fd) table.entries ≡ 0
    → Found is_unused table.entries (some i)
    → IsTable
        (record table { entries = set table.entries i (new_entry fd); count = table.count + 1 })
insert_at-IsTable table fd i (len, counted, unique) absent (bound, unused) =
    let e = get_or table.entries i reset_entry in
    let free : e.in_use ≡ false = ground arith in
    let used = tally-set is_used table.entries i (new_entry fd) bound in
    (
      length-set table.entries i (new_entry fd) ∙ len,
      ground arith,
      λ fd'.
          (let t = tally-set (is_for fd') table.entries i (new_entry fd) bound in
            let was = not_held fd' e free in
            let u = unique fd' in
            elim (Bool-cases (fd ==ℤ fd')) [
              | inl same ↦
                  let none_yet =
                    subst (λ f. tally (is_for f) table.entries ≡ 0) (==ℤ-eq fd fd' same) absent in
                  ground arith
              | inr other ↦ ground arith
            ]),
    )

pub insert_entry-IsTable :
    (table : IoWaitTable) (fd : ℤ)
    → IsTable table
    → tally (is_for fd) table.entries ≡ 0
    → IsTable ((insert_entry table fd).1)
unfolding insert_entry
insert_entry-IsTable table fd good absent =
    cases (find_free table.entries) (find_free-Found table.entries)
  where
    cases : (o : Option ℕ) → Found is_unused table.entries o → IsTable ((insert_at table fd o).1)
    cases none h = good
    cases (some i) h = insert_at-IsTable table fd i good absent h

-- Whether or not the allocation is granted, looking a descriptor up or inserting it keeps a
-- well-formed table of at most 2^62 entries well-formed: its count is right and no descriptor has
-- two entries.
pub io_wait_table_get_or_insert-IsTable :
    (granted : Bool) (table : IoWaitTable) (fd : ℤ)
    → IsTable table
    → table.capacity ≤ 2 ^ 62
    → IsTable ((io_wait_table_get_or_insert granted table fd).1)
unfolding io_wait_table_get_or_insert io_wait_table_find get_or_insert_found make_room
    io_wait_table_grow
io_wait_table_get_or_insert-IsTable granted table fd good small =
    cases (find_entry table.entries fd) (find_entry-Found table.entries fd)
  where
    after_room :
        (full granted : Bool)
        → tally (is_for fd) table.entries ≡ 0
        → IsTable (
            (let (roomy, table') =
                if full then io_wait_table_grow granted table else (true, table) in
              if roomy then insert_entry table' fd else (none, table')).1)
    after_room false granted absent = insert_entry-IsTable table fd good absent
    after_room true false absent = good
    after_room true true absent =
        subst
          (λ (r : Bool × IoWaitTable).
            IsTable ((if r.0 then insert_entry r.1 fd else (none, r.1)).1))
          (sym (io_wait_table_grow_lem table good small))
          (insert_entry-IsTable (larger_table table) fd (larger_table-IsTable table good small)
            (larger-tally (is_for fd) table (not_held fd) ∙ absent))

    cases :
        (o : Option ℕ)
        → Found (is_for fd) table.entries o
        → IsTable ((get_or_insert_found granted table fd o).1)
    cases none absent = after_room (table.count == table.capacity) granted absent
    cases (some i) h = good
