-- ===== src/Stack/Tests.antt =====
-- Tests of the stacks.
use croutine.Prelude.{◌+◌, ◌-◌, ◌^◌, ◌≤◌, ◌<◌, ◌≡◌, ◌⊎◌, refl, pos, true, some, [], ◌∷◌, arith}
use croutine.Stack.{Mapping, align_up, get_page_size, create_stack, destroy_stack}
use croutine.Stack.Align.{RoundedUp, align_up-RoundedUp}
use croutine.Stack.Pages.{IsInside, destroy_stack-create_stack, create_stack-IsInside}

align_up_5000 : align_up 5000 4096 ≡ 8192
unfolding align_up
align_up_5000 = refl

align_up_wraps : align_up (2 ^ 64 - 1) 4096 ≡ 0
unfolding align_up
align_up_wraps = refl

align_up-RoundedUp_example :
    ((2 ^ 64 - 1 + 2 ^ 12 ≤ 2 ^ 64) × RoundedUp 12 (2 ^ 64 - 1) (align_up (2 ^ 64 - 1) (2 ^ 12)))
    ⊎ ((2 ^ 64 < 2 ^ 64 - 1 + 2 ^ 12) × (align_up (2 ^ 64 - 1) (2 ^ 12) ≡ 0))
align_up-RoundedUp_example = align_up-RoundedUp 12 (2 ^ 64 - 1) (omega arith) (omega arith)

-- The mapping of another stack.
abbrev other : Mapping
other = record { base = 400000; size = 69632; guard = 4096 }

page_is : get_page_size (pos (2 ^ 12)) ≡ 4096
unfolding get_page_size
page_is = refl

destroy_stack-create_stack_example :
    let (stack, maps) = create_stack (pos (2 ^ 12)) (some 8192) true 65000 (other ∷ []) in
    destroy_stack (pos (2 ^ 12)) stack 65000 maps ≡ other ∷ []
destroy_stack-create_stack_example =
    destroy_stack-create_stack (pos (2 ^ 12)) 8192 true 65000 (other ∷ []) (omega (arith, page_is))

create_stack-IsInside_example :
    let (stack, maps) = create_stack (pos (2 ^ 12)) (some 8192) true 65000 (other ∷ []) in
    IsInside stack 65000 maps
create_stack-IsInside_example =
    create_stack-IsInside 12 8192 65000 (other ∷ []) (omega arith) (omega arith) (omega arith)
