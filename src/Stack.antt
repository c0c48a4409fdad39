-- ===== src/Stack.antt =====
-- The stacks of src/task.c. The kernel's page size is an argument, a result of `sysconf` that may be
-- negative, and so are the address that `mmap` gives (nothing for `MAP_FAILED`) and whether
-- `mprotect` succeeds.
pub mod Align
pub mod Pages
mod Tests
use croutine.Prelude.{
  sub_size, ℕ, zero, suc, ◌+◌, ◌-◌, ◌%◌, ◌^◌, ℤ, pos, negsuc, Bool, true, false, ◌&&◌, Option, none,
  some, List, [], ◌∷◌, ◌==◌, if◌then◌else◌, null, bit_and, bit_not, add_size,
}

-- A mapping of pages, and whether its first page is a guard.
pub record Mapping : Type 0 where
  pub base : ℕ
  pub size : ℕ
  pub guard : ℕ

unfoldable pub get_page_size : ℤ → ℕ
get_page_size (pos zero) = 4096
get_page_size (pos (suc n)) = suc n
get_page_size (negsuc n) = 4096

-- `(value + alignment - 1) & ~(alignment - 1)`
unfoldable pub align_up : ℕ → ℕ → ℕ
align_up value alignment =
    bit_and 64 ((value + alignment + 2 ^ 64 - 1) % 2 ^ 64)
      (bit_not 64 ((alignment + 2 ^ 64 - 1) % 2 ^ 64))

unfoldable pub get_usable_stack_size : ℤ → ℕ → ℕ
unfolding align_up get_page_size
get_usable_stack_size page stack_size = align_up stack_size (get_page_size page)

unfoldable pub get_stack_mapping_size : ℤ → ℕ → ℕ
unfolding get_usable_stack_size
get_stack_mapping_size page stack_size =
    add_size (get_page_size page) (get_usable_stack_size page stack_size)

-- `munmap(base, size)`; a mapping that is not there is an error of the kernel, which is only
-- reported.
abbrev pub unmap : ℕ → ℕ → List Mapping → List Mapping
unmap base size [] = []
unmap base size (m ∷ maps) =
    let rest = unmap base size maps in if m.base == base && m.size == size then maps else m ∷ rest

-- The end of `create_stack`, once `mmap` has given a mapping.
abbrev pub protect_stack : Bool → ℕ → ℕ → ℕ → List Mapping → ℕ × List Mapping
protect_stack protected page_size mapping_size mapping maps =
    if protected
    then (
      add_size mapping page_size,
      record { base = mapping; size = mapping_size; guard = page_size } ∷ maps,
    )
    else (
      null,
      unmap mapping mapping_size (record { base = mapping; size = mapping_size; guard = 0 } ∷ maps),
    )

-- The stack, or `NULL`, and the mappings of the process.
unfoldable pub create_stack : ℤ → Option ℕ → Bool → ℕ → List Mapping → ℕ × List Mapping
unfolding get_stack_mapping_size
create_stack page none protected stack_size maps = (null, maps)
create_stack page (some mapping) protected stack_size maps =
    protect_stack protected (get_page_size page) (get_stack_mapping_size page stack_size) mapping
      maps

unfoldable pub destroy_stack : ℤ → ℕ → ℕ → List Mapping → List Mapping
unfolding get_stack_mapping_size
destroy_stack page stack stack_size maps =
    if stack == null
    then maps
    else unmap (sub_size stack (get_page_size page)) (get_stack_mapping_size page stack_size) maps
