-- ===== src/Prelude/Bits.antt =====
-- Bitwise operations of C on words of a given width, by their binary digits.
use Prim.Native.Nat.{ℕ, zero, suc, ◌+◌, ◌-◌, ◌*◌, ◌/◌, ◌%◌, ◌^◌, ◌≤◌, ◌<◌}
use mathlib.Core.Path.{◌≡◌, refl, ap, ◌∙◌}
use native.Mathlib.Nat.{two-pow-succ}
use native.Mathlib.Omega.{arith}
use croutine.Prelude.Tests.{◌==◌, if◌then◌else◌}

-- `a ^ b` on the low `bits` bits
abbrev pub xor : ℕ → ℕ → ℕ → ℕ
xor zero a b = 0
xor (suc bits) a b = (a % 2 + b % 2) % 2 + 2 * xor bits (a / 2) (b / 2)

-- `a | b` on the low `bits` bits
abbrev pub bit_or : ℕ → ℕ → ℕ → ℕ
bit_or zero a b = 0
bit_or (suc bits) a b = (if a % 2 + b % 2 == 0 then 0 else 1) + 2 * bit_or bits (a / 2) (b / 2)

-- `a & b` on the low `bits` bits
abbrev pub bit_and : ℕ → ℕ → ℕ → ℕ
bit_and zero a b = 0
bit_and (suc bits) a b = (if a % 2 + b % 2 == 2 then 1 else 0) + 2 * bit_and bits (a / 2) (b / 2)

-- `~a` of a word
abbrev pub bit_not : ℕ → ℕ → ℕ
bit_not bits a = 2 ^ bits - 1 - a

-- `a` without its `k` low bits
abbrev pub clear_low : ℕ → ℕ → ℕ
clear_low zero a = a
clear_low (suc k) a = 2 * clear_low k (a / 2)

pub bit_and-mask :
    (bits k a : ℕ) → k ≤ bits → a < 2 ^ bits → bit_and bits a (2 ^ bits - 2 ^ k) ≡ clear_low k a
bit_and-mask zero zero a h small = omega arith
bit_and-mask zero (suc k) a h small = absurd (omega arith)
bit_and-mask (suc bits) zero a h small =
    let p = two-pow-succ bits in
    let e : (2 ^ suc bits - 2 ^ 0) / 2 ≡ 2 ^ bits - 2 ^ 0 = omega arith in
    let o : (2 ^ suc bits - 2 ^ 0) % 2 ≡ 1 = omega arith in
    let rest : bit_and bits (a / 2) ((2 ^ suc bits - 2 ^ 0) / 2) ≡ a / 2 =
      ap (bit_and bits (a / 2)) e ∙ bit_and-mask bits zero (a / 2) (omega arith) (omega arith) in
    ground arith
bit_and-mask (suc bits) (suc k) a h small =
    let p = two-pow-succ bits in
    let q = two-pow-succ k in
    let e : (2 ^ suc bits - 2 ^ suc k) / 2 ≡ 2 ^ bits - 2 ^ k = omega arith in
    let o : (2 ^ suc bits - 2 ^ suc k) % 2 ≡ 0 = omega arith in
    let rest : bit_and bits (a / 2) ((2 ^ suc bits - 2 ^ suc k) / 2) ≡ clear_low k (a / 2) =
      ap (bit_and bits (a / 2)) e ∙ bit_and-mask bits k (a / 2) (omega arith) (omega arith) in
    ground arith

pub clear_low_bounds : (k a : ℕ) → (clear_low k a ≤ a) × (a < clear_low k a + 2 ^ k)
clear_low_bounds zero a = omega arith
clear_low_bounds (suc k) a = omega (arith, clear_low_bounds k (a / 2), two-pow-succ k)

pub clear_low-multiple : (k a : ℕ) → (q : ℕ) × (clear_low k a ≡ q * 2 ^ k)
clear_low-multiple zero a = (a, omega arith)
clear_low-multiple (suc k) a =
    let (q, e) = clear_low-multiple k (a / 2) in (q, grind (arith, two-pow-succ k))

pub bit_and_self : (bits a : ℕ) → a < 2 ^ bits → bit_and bits a a ≡ a
bit_and_self zero a h = omega arith
bit_and_self (suc bits) a h =
    let p = two-pow-succ bits in let rest = bit_and_self bits (a / 2) (omega arith) in ground arith

pub bit_or-low : (bits a b : ℕ) → bit_or (suc bits) a b % 2 ≡ (if a % 2 + b % 2 == 0 then 0 else 1)
bit_or-low bits a b = ground arith

pub bit_or-half : (bits a b : ℕ) → bit_or (suc bits) a b / 2 ≡ bit_or bits (a / 2) (b / 2)
bit_or-half bits a b = ground arith

kept_digit :
    (a b low rest : ℕ)
    → low ≡ (if a % 2 + b % 2 == 0 then 0 else 1)
    → (if low + b % 2 == 2 then 1 else 0) + rest ≡ (if b % 2 + b % 2 == 2 then 1 else 0) + rest
kept_digit a b low rest e = ground arith

-- The bits of `b` are in `a | b`.
pub bit_and-bit_or : (bits a b : ℕ) → bit_and bits (bit_or bits a b) b ≡ bit_and bits b b
bit_and-bit_or zero a b = refl
bit_and-bit_or (suc bits) a b =
    let both = bit_or (suc bits) a b in
    kept_digit a b (both % 2) (2 * bit_and bits (both / 2) (b / 2)) (bit_or-low bits a b)
    ∙ ap (λ n. (if b % 2 + b % 2 == 2 then 1 else 0) + 2 * n)
        (ap (λ c. bit_and bits c (b / 2)) (bit_or-half bits a b)
          ∙ bit_and-bit_or bits (a / 2) (b / 2))
