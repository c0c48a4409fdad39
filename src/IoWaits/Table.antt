-- ===== src/IoWaits/Table.antt =====
-- The well-formed tables of waiting tasks, and that the operations of src/worker.c keep them so.
use croutine.Prelude.{
  ℕ, zero, suc, ◌+◌, ◌-◌, ◌*◌, ◌%◌, ◌^◌, ◌≤◌, ◌<◌, ℤ, ◌≡◌, refl, sym, ap, ◌∙◌, subst, Bool, true,
  false, Bool-cases, inl, inr, subst₂, List, [], ◌∷◌, ◌++◌, ◌==◌, if◌then◌else◌, arith, get_or, set,
  replicate, length, length-append,
}
use croutine.IoWaits.{IoWaitEntry, IoWaitTable, reset_entry, holds, copy_in_use, io_wait_table_grow}

-- How many entries satisfy a test.
abbrev pub tally : (IoWaitEntry → Bool) → List IoWaitEntry → ℕ
tally p [] = 0
tally p (e ∷ entries) = (if p e then 1 else 0) + tally p entries

abbrev pub in_use_only : List IoWaitEntry → List IoWaitEntry
in_use_only [] = []
in_use_only (e ∷ entries) = if e.in_use then e ∷ in_use_only entries else in_use_only entries

abbrev pub is_used : IoWaitEntry → Bool
is_used e = e.in_use

abbrev pub is_for : ℤ → IoWaitEntry → Bool
is_for fd e = holds e fd

-- `capacity` and `count` are right, and no descriptor has two entries.
abbrev pub IsTable : IoWaitTable → Type 0
IsTable table =
    (length table.entries ≡ table.capacity)
    × (table.count ≡ tally is_used table.entries)
    × ((fd : ℤ) → tally (is_for fd) table.entries ≤ 1)

pub tally-set :
    (p : IoWaitEntry → Bool) (xs : List IoWaitEntry) (i : ℕ) (e : IoWaitEntry)
    → i < length xs
    → tally p (set xs i e) + (if p (get_or xs i reset_entry) then 1 else 0)
      ≡ tally p xs + (if p e then 1 else 0)
tally-set p [] i e h = absurd (omega arith)
tally-set p (x ∷ xs) zero e h = omega arith
tally-set p (x ∷ xs) (suc i) e h = omega (arith, tally-set p xs i e (omega arith))

pub tally-append :
    (p : IoWaitEntry → Bool) (xs ys : List IoWaitEntry)
    → tally p (xs ++ ys) ≡ tally p xs + tally p ys
tally-append p [] ys = omega arith
tally-append p (x ∷ xs) ys = omega (arith, tally-append p xs ys)

pub tally-reset :
    (p : IoWaitEntry → Bool) (n : ℕ) → p reset_entry ≡ false → tally p (replicate n reset_entry) ≡ 0
tally-reset p zero h = refl
tally-reset p (suc n) h = ground (arith, tally-reset p n h)

pub tally-in_use_only :
    (p : IoWaitEntry → Bool) (xs : List IoWaitEntry)
    → ((e : IoWaitEntry) → e.in_use ≡ false → p e ≡ false)
    → tally p (in_use_only xs) ≡ tally p xs
tally-in_use_only p [] h = refl
tally-in_use_only p (x ∷ xs) h = elim (Bool-cases x.in_use) [
  | inl used ↦ ground (arith, tally-in_use_only p xs h)
  | inr free ↦ ground (arith, tally-in_use_only p xs h, h x free)
]

pub length-in_use_only : (xs : List IoWaitEntry) → length (in_use_only xs) ≡ tally is_used xs
length-in_use_only [] = refl
length-in_use_only (x ∷ xs) = ground (arith, length-in_use_only xs)

set-middle :
    (pre : List IoWaitEntry) (x e : IoWaitEntry) (post : List IoWaitEntry)
    → set (pre ++ (x ∷ post)) (length pre) e ≡ (pre ++ (e ∷ [])) ++ post
set-middle [] x e post = refl
set-middle (y ∷ pre) x e post = ap (λ ys. y ∷ ys) (set-middle pre x e post)

append_assoc : (xs ys zs : List IoWaitEntry) → (xs ++ ys) ++ zs ≡ xs ++ (ys ++ zs)
append_assoc [] ys zs = refl
append_assoc (x ∷ xs) ys zs = ap (λ l. x ∷ l) (append_assoc xs ys zs)

abbrev entries_dst : List IoWaitEntry → ℕ → List IoWaitEntry × ℕ
entries_dst entries dst = (entries, dst)

abbrev Copied : List IoWaitEntry → List IoWaitEntry → ℕ → List IoWaitEntry × ℕ → Type 0
Copied old pre m r = r ≡ (
  pre ++ (in_use_only old ++ replicate (m - tally is_used old) reset_entry),
  length pre + tally is_used old,
)

-- One entry in use goes to the end of what is copied.
Copied-used :
    (e : IoWaitEntry) (old pre : List IoWaitEntry) (m : ℕ)
    → e.in_use ≡ true
    → (r : List IoWaitEntry × ℕ) → Copied old (pre ++ (e ∷ [])) m r
    → Copied (e ∷ old) pre (suc m) r
Copied-used e old pre m used r h =
    let rest : ℕ → List IoWaitEntry = λ k. replicate k reset_entry in
    let size : m - tally is_used old ≡ suc m - tally is_used (e ∷ old) = ground arith in
    let end : length (pre ++ (e ∷ [])) + tally is_used old ≡ length pre + tally is_used (e ∷ old) =
      ground (arith, length-append pre (e ∷ [])) in
    let kept : e ∷ in_use_only old ≡ in_use_only (e ∷ old) =
      sym (ap (λ b. if b then e ∷ in_use_only old else in_use_only old) used) in
    let whole = append_assoc pre (e ∷ []) (in_use_only old ++ rest (m - tally is_used old)) in
    h
    ∙ subst₂
        (λ (k n : ℕ).
          entries_dst ((pre ++ (e ∷ [])) ++ (in_use_only old ++ rest (m - tally is_used old)))
            (length (pre ++ (e ∷ [])) + tally is_used old)
          ≡ entries_dst (pre ++ (in_use_only (e ∷ old) ++ rest k)) n)
        size end
        (ap (λ xs. entries_dst xs (length (pre ++ (e ∷ [])) + tally is_used old))
          (whole ∙ ap (λ xs. pre ++ (xs ++ rest (m - tally is_used old))) kept))

Copied-free :
    (e : IoWaitEntry) (old pre : List IoWaitEntry) (m : ℕ)
    → e.in_use ≡ false
    → (r : List IoWaitEntry × ℕ) → Copied old pre m r
    → Copied (e ∷ old) pre m r
Copied-free e old pre m free r h =
    let size : tally is_used old ≡ tally is_used (e ∷ old) = ground arith in
    let kept : in_use_only old ≡ in_use_only (e ∷ old) =
      sym (ap (λ b. if b then e ∷ in_use_only old else in_use_only old) free) in
    h
    ∙ subst₂
        (λ (xs : List IoWaitEntry) (n : ℕ).
          entries_dst (pre ++ (in_use_only old ++ replicate (m - tally is_used old) reset_entry))
            (length pre + tally is_used old)
          ≡ entries_dst (pre ++ (xs ++ replicate (m - n) reset_entry)) (length pre + n))
        kept size refl

copy-written :
    (e : IoWaitEntry) (old pre : List IoWaitEntry) (m : ℕ)
    → copy_in_use old (length (pre ++ (e ∷ []))) ((pre ++ (e ∷ [])) ++ replicate m reset_entry)
      ≡ copy_in_use old (length pre + 1) (set (pre ++ replicate (suc m) reset_entry) (length pre) e)
copy-written e old pre m =
    subst₂
      (λ (n : ℕ) (xs : List IoWaitEntry).
        copy_in_use old (length (pre ++ (e ∷ []))) ((pre ++ (e ∷ [])) ++ replicate m reset_entry)
        ≡ copy_in_use old n xs)
      (length-append pre (e ∷ [])) (sym (set-middle pre reset_entry e (replicate m reset_entry)))
      refl

-- The copying loop puts the entries in use behind those that are copied.
copy_in_use-entries :
    (old pre : List IoWaitEntry) (m : ℕ)
    → tally is_used old ≤ m
    → Copied old pre m (copy_in_use old (length pre) (pre ++ replicate m reset_entry))
unfolding copy_in_use
copy_in_use-entries [] pre m h =
    let size : m ≡ m - 0 = omega arith in
    let end : length pre ≡ length pre + 0 = omega arith in
    subst₂
      (λ (k n : ℕ).
        entries_dst (pre ++ replicate m reset_entry) (length pre)
        ≡ entries_dst (pre ++ replicate k reset_entry) n)
      size end refl
copy_in_use-entries (e ∷ old) pre zero h = elim (Bool-cases e.in_use) [
  | inl used ↦ absurd (ground arith)
  | inr free ↦
      let skip =
        ap
          (λ b.
            if b
            then copy_in_use old (length pre + 1) (set (pre ++ []) (length pre) e)
            else copy_in_use old (length pre) (pre ++ []))
          free in
      subst (Copied (e ∷ old) pre zero) (sym skip) (
        Copied-free e old pre zero free (copy_in_use old (length pre) (pre ++ []))
          (copy_in_use-entries old pre zero (ground arith)))
]
copy_in_use-entries (e ∷ old) pre (suc m) h =
    let entries = pre ++ replicate (suc m) reset_entry in
    let write = copy_in_use old (length pre + 1) (set entries (length pre) e) in
    let pass = copy_in_use old (length pre) entries in
    elim (Bool-cases e.in_use) [
      | inl used ↦
          subst (Copied (e ∷ old) pre (suc m)) (sym (ap (λ b. if b then write else pass) used)) (
            Copied-used e old pre m used write (
              subst (Copied old (pre ++ (e ∷ [])) m) (copy-written e old pre m)
                (copy_in_use-entries old (pre ++ (e ∷ [])) m (ground arith))))
      | inr free ↦
          subst (Copied (e ∷ old) pre (suc m)) (sym (ap (λ b. if b then write else pass) free)) (
            Copied-free e old pre (suc m) free pass
              (copy_in_use-entries old pre (suc m) (ground arith)))
    ]

pub tally-bound : (p : IoWaitEntry → Bool) (xs : List IoWaitEntry) → tally p xs ≤ length xs
tally-bound p [] = omega arith
tally-bound p (x ∷ xs) = ground (arith, tally-bound p xs)

-- The capacity of the next table.
abbrev pub next_capacity : IoWaitTable → ℕ
next_capacity table = if table.capacity == 0 then 1 else table.capacity * 2 % 2 ^ 64

-- The table after a granted growth.
abbrev pub larger_table : IoWaitTable → IoWaitTable
larger_table table = record {
  entries =
      in_use_only table.entries
      ++ replicate (next_capacity table - tally is_used table.entries) reset_entry;
  capacity = next_capacity table;
  count = tally is_used table.entries;
}

pub io_wait_table_grow_lem :
    (table : IoWaitTable)
    → IsTable table
    → table.capacity ≤ 2 ^ 62
    → io_wait_table_grow true table ≡ (true, larger_table table)
unfolding io_wait_table_grow
io_wait_table_grow_lem table (len, _, _) small =
    let size : 0 + tally is_used table.entries ≡ tally is_used table.entries = omega arith in
    ap granted_copy (
      copy_in_use-entries table.entries [] (next_capacity table)
        (ground (arith, tally-bound is_used table.entries)))
    ∙ ap (λ n. granted_copy (entries_dst (larger_table table).entries n)) size
  where
    granted_copy : List IoWaitEntry × ℕ → Bool × IoWaitTable
    granted_copy r = (true, record { entries = r.0; capacity = next_capacity table; count = r.1 })
