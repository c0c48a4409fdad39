-- ===== src/Stack/Align.antt =====
-- Rounding a stack's size up to whole pages.
use native.Mathlib.Nat.{pow-le-pow_right, one-le-pow, two-pow-succ}
use native.Mathlib.Decide.{dec_lt}
use croutine.Prelude.{
  ℕ, zero, suc, ◌+◌, ◌-◌, ◌*◌, ◌/◌, ◌%◌, ◌^◌, ◌≤◌, ◌<◌, ◌≡◌, ◌⊎◌, ap, ◌∙◌, inl, inr, arith, bit_and,
  bit_not, clear_low, bit_and-mask, clear_low_bounds, clear_low-multiple,
}
use croutine.Stack.{align_up}

-- `r` is the least multiple of 2^k that is not below `value`.
abbrev pub RoundedUp : ℕ → ℕ → ℕ → Type 0
RoundedUp k value r = (value ≤ r) × (r < value + 2 ^ k) × ((q : ℕ) × (r ≡ q * 2 ^ k))

pub pow_bounds : (k : ℕ) → k ≤ 63 → (0 < 2 ^ k) × (2 ^ k ≤ 2 ^ 63)
pow_bounds k h = (one-le-pow k 2 (omega arith), pow-le-pow_right (omega arith) h)

align_up-clear_low :
    (k value : ℕ)
    → k ≤ 63
    → align_up value (2 ^ k) ≡ clear_low k ((value + 2 ^ k + 2 ^ 64 - 1) % 2 ^ 64)
unfolding align_up
align_up-clear_low k value h =
    let (some_bit, small) = pow_bounds k h in
    let mask : bit_not 64 ((2 ^ k + 2 ^ 64 - 1) % 2 ^ 64) ≡ 2 ^ 64 - 2 ^ k = omega arith in
    ap (bit_and 64 ((value + 2 ^ k + 2 ^ 64 - 1) % 2 ^ 64)) mask
    ∙ bit_and-mask 64 k ((value + 2 ^ k + 2 ^ 64 - 1) % 2 ^ 64) (omega arith) (omega arith)

clear_low-below : (k a : ℕ) → a < 2 ^ k → clear_low k a ≡ 0
clear_low-below zero a h = omega arith
clear_low-below (suc k) a h =
    omega (arith, clear_low-below k (a / 2) (omega (arith, two-pow-succ k)))

-- For an alignment 2^k, k at most 63, and a 64-bit value: `align_up` gives the least multiple of
-- 2^k that is not below the value, if the value and the alignment add up to at most 2^64, and 0
-- otherwise.
pub align_up-RoundedUp :
    (k value : ℕ)
    → k ≤ 63
    → value < 2 ^ 64
    → ((value + 2 ^ k ≤ 2 ^ 64) × RoundedUp k value (align_up value (2 ^ k)))
      ⊎ ((2 ^ 64 < value + 2 ^ k) × (align_up value (2 ^ k) ≡ 0))
align_up-RoundedUp k value h word =
    let (some_bit, small) = pow_bounds k h in
    let is = align_up-clear_low k value h in
    elim (dec_lt (2 ^ 64) (value + 2 ^ k)) [
      | yes wraps ↦
          let low : (value + 2 ^ k + 2 ^ 64 - 1) % 2 ^ 64 ≡ value + 2 ^ k - 1 - 2 ^ 64 =
            omega arith in
          inr (wraps, is ∙ clear_low-below k ((value + 2 ^ k + 2 ^ 64 - 1) % 2 ^ 64) (omega arith))
      | no fits ↦
          let whole : (value + 2 ^ k + 2 ^ 64 - 1) % 2 ^ 64 ≡ value + 2 ^ k - 1 = omega arith in
          let b = clear_low_bounds k ((value + 2 ^ k + 2 ^ 64 - 1) % 2 ^ 64) in
          let (q, e) = clear_low-multiple k ((value + 2 ^ k + 2 ^ 64 - 1) % 2 ^ 64) in
          inl (omega arith, (omega arith, omega arith, (q, is ∙ e)))
    ]
