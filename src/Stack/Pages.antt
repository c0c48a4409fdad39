-- ===== src/Stack/Pages.antt =====
-- The pages of a stack: where a stack lies in its mapping, and that it is given back.
use croutine.Prelude.{
  ℕ, zero, suc, ◌+◌, ◌^◌, ◌≤◌, ◌<◌, ◌≡◌, refl, ap, ◌∙◌, ℤ, pos, negsuc, Bool, true, false, some,
  List, [], ◌∷◌, ◌==◌, inl, inr, arith, null, add_size, sub_size, if◌then◌else◌,
}
use croutine.Stack.Align.{pow_bounds, align_up-RoundedUp}
use croutine.Stack.{
  align_up, get_usable_stack_size, Mapping, get_page_size, get_stack_mapping_size, unmap,
  create_stack, destroy_stack,
}

unmap-head :
    (base size guard : ℕ) (maps : List Mapping)
    → unmap base size (record { base = base; size = size; guard = guard } ∷ maps) ≡ maps
unmap-head base size guard maps = ground arith

pub destroy_stack-null :
    (page : ℤ) (stack stack_size : ℕ) (maps : List Mapping)
    → (stack == null) ≡ true
    → destroy_stack page stack stack_size maps ≡ maps
unfolding destroy_stack
destroy_stack-null page stack stack_size maps is =
    ap
      (λ b.
        if b
        then maps
        else unmap (sub_size stack (get_page_size page)) (get_stack_mapping_size page stack_size)
            maps)
      is

pub get_page_size_pos : (page : ℤ) → 0 < get_page_size page
unfolding get_page_size
get_page_size_pos (pos zero) = omega arith
get_page_size_pos (pos (suc n)) = omega arith
get_page_size_pos (negsuc n) = omega arith

-- For a mapping that does not end the address space, `destroy_stack` on what `create_stack`
-- returned leaves the mappings of the process as they were before, whether or not the guard page
-- could be protected.
pub destroy_stack-create_stack :
    (page : ℤ) (mapping : ℕ) (protected : Bool) (stack_size : ℕ) (maps : List Mapping)
    → mapping + get_page_size page < 2 ^ 64
    → let (stack, maps') = create_stack page (some mapping) protected stack_size maps in
      destroy_stack page stack stack_size maps' ≡ maps
unfolding create_stack destroy_stack
destroy_stack-create_stack page mapping true stack_size maps h =
    let size = get_stack_mapping_size page stack_size in
    let guard = get_page_size page in
    let some_page = get_page_size_pos page in
    let some_stack : (add_size mapping guard == null) ≡ false = ground arith in
    let back : sub_size (add_size mapping guard) guard ≡ mapping = omega arith in
    rw some_stack (
      ap (λ b. unmap b size (record { base = mapping; size = size; guard = guard } ∷ maps)) back
      ∙ unmap-head mapping size guard maps)
destroy_stack-create_stack page mapping false stack_size maps h =
    unmap-head mapping (get_stack_mapping_size page stack_size) 0 maps

page_size_positive : (n : ℕ) → 0 < n → get_page_size (pos n) ≡ n
unfolding get_page_size
page_size_positive zero h = absurd (omega arith)
page_size_positive (suc n) h = refl

-- The size of the mapping, where it does not overflow.
mapping_size :
    (k stack_size : ℕ)
    → k ≤ 63
    → stack_size + 2 ^ k + 2 ^ k ≤ 2 ^ 64
    → (stack_size + 2 ^ k ≤ get_stack_mapping_size (pos (2 ^ k)) stack_size)
      × (get_stack_mapping_size (pos (2 ^ k)) stack_size < stack_size + 2 ^ k + 2 ^ k)
unfolding get_stack_mapping_size get_usable_stack_size
mapping_size k stack_size h fits =
    let (some_bit, small) = pow_bounds k h in
    let page = page_size_positive (2 ^ k) some_bit in
    let usable : align_up stack_size (get_page_size (pos (2 ^ k))) ≡ align_up stack_size (2 ^ k) =
      ap (align_up stack_size) page in
    elim (align_up-RoundedUp k stack_size h (omega arith)) [
      | inl (_, up) ↦ omega arith
      | inr (wraps, _) ↦ absurd (omega arith)
    ]

-- `r` is a stack above the guard page of the first mapping of `maps`, inside that mapping.
abbrev pub IsInside : ℕ → ℕ → List Mapping → Type 0
IsInside stack stack_size [] = ⊥
IsInside stack stack_size (m ∷ maps) =
    (m.base + m.guard ≡ stack) × (0 < m.guard) × (stack + stack_size ≤ m.base + m.size)

-- With a page size of 2^k bytes, k at most 63, a stack size that leaves room for two pages in
-- `size_t`, and a mapping that does not end the address space: the stack that `create_stack`
-- returns begins where the guard page ends, and all its bytes are in the mapping.
pub create_stack-IsInside :
    (k mapping stack_size : ℕ) (maps : List Mapping)
    → k ≤ 63
    → stack_size + 2 ^ k + 2 ^ k ≤ 2 ^ 64
    → mapping + 2 ^ k < 2 ^ 64
    → let (stack, maps') = create_stack (pos (2 ^ k)) (some mapping) true stack_size maps in
      IsInside stack stack_size maps'
unfolding create_stack
create_stack-IsInside k mapping stack_size maps h fits addressable =
    let (some_bit, small) = pow_bounds k h in
    let page = page_size_positive (2 ^ k) some_bit in
    let (room, _) = mapping_size k stack_size h fits in omega arith
