-- ===== src/Channel/Shuffle.antt =====
-- The try order of `croutine_select` of src/channel.c: the xorshift generator and the shuffle.
pub mod Permutes
mod Tests
use croutine.Prelude.{
  ℕ, xor, zero, suc, ◌+◌, ◌*◌, ◌/◌, ◌%◌, ◌^◌, Bool, List, [], ◌∷◌, ◌==◌, if◌then◌else◌, get_or, set,
  length, leb,
}

-- `select_rng_state` before its first use, from the task's address and the clock.
unfoldable pub select_rng_seed : ℕ → ℕ → ℕ
select_rng_seed task time =
    let seed = xor 64 task (time * 0x9E3779B97F4A7C15 % 2 ^ 64) in
    if seed == 0 then 0x9E3779B97F4A7C15 else seed

unfoldable pub xorshift : ℕ → ℕ
xorshift x0 =
    let x1 = xor 64 x0 (x0 * 2 ^ 13 % 2 ^ 64) in
    let x2 = xor 64 x1 (x1 / 2 ^ 7) in xor 64 x2 (x2 * 2 ^ 17 % 2 ^ 64)

-- The drawn number, which is also the next `select_rng_state`.
unfoldable pub select_rng_next : ℕ → ℕ → ℕ → ℕ
unfolding select_rng_seed xorshift
select_rng_next task time rng = xorshift (if rng == 0 then select_rng_seed task time else rng)

abbrev pub swap : ℕ → ℕ → List ℕ → List ℕ
swap i j idx = set (set idx i (get_or idx j 0)) j (get_or idx i 0)

-- `shuffle_indices(idx, n)` and the state of the generator after it; `draw` is `select_rng_next`
-- as a function of that state.
unfoldable pub shuffle_indices : (ℕ → ℕ) → ℕ → ℕ → List ℕ → List ℕ × ℕ
shuffle_indices draw zero rng idx = (idx, rng)
shuffle_indices draw (suc zero) rng idx = (idx, rng)
shuffle_indices draw (suc (suc k)) rng idx =
    let x = draw rng in shuffle_indices draw (suc k) x (swap (suc k) (x % (k + 2)) idx)

-- `for (i = 0; i < n; ++i) order[i] = (uint32_t)i`, from `i` on; the fallback without an order casts
-- the same way.
abbrev pub identity_order : ℕ → ℕ → List ℕ
identity_order i zero = []
identity_order i (suc n) = i % 2 ^ 32 ∷ identity_order (i + 1) n

-- The order in which the `n` cases are tried and the state of the generator; `granted` is the
-- answer to the `malloc` of more than 32 indices.
unfoldable pub select_order : Bool → (ℕ → ℕ) → ℕ → ℕ → List ℕ × ℕ
select_order granted draw rng n =
    if leb n 32
    then shuffle_indices draw n rng (identity_order 0 n)
    else if granted
    then shuffle_indices draw n rng (identity_order 0 n)
    else (identity_order 0 n, rng)
