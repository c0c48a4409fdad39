-- ===== src/Channel/Shuffle/Tests.antt =====
-- Tests of the try order of a select.
use croutine.Prelude.{◌≡◌, refl, true, count}
use croutine.Channel.Shuffle.{select_rng_next, select_order}
use croutine.Prelude.{arith}
use croutine.Channel.Shuffle.Permutes.{select_order-count}

-- The generator with the task at 4096 and the clock at 0.
first_draw : select_rng_next 4096 0 1 ≡ 1082269761
unfolding select_rng_next croutine.Channel.Shuffle.xorshift
first_draw = refl

select_order-count_example : count 2 ((select_order true (select_rng_next 4096 0) 1 4).0) ≡ 1
select_order-count_example = select_order-count true (select_rng_next 4096 0) 1 4 2 (omega arith)
