-- ===== src/Channel/Buffer/Bytes.antt =====
-- What a copy of `n` bytes into an object does to the slots of that object.
use croutine.Prelude.{
  ℕ, zero, suc, ◌+◌, ◌*◌, ◌≤◌, ◌<◌, ◌≡◌, ◌≢◌, ◌⊎◌, inl, inr, refl, ap, List, [], ◌∷◌, ◌++◌, arith,
  length, take, drop, length-append, length-take, length-drop,
}
use native.Mathlib.Decide.{dec_lt}
use croutine.Channel.Buffer.{copy_to}

drop-nil {ℓ} : (A : Type ℓ) (n : ℕ) → drop {A = A} n [] ≡ []
drop-nil A zero = refl
drop-nil A (suc n) = refl

module _ {ℓ} {A : Type ℓ} where
  take-append_take : (n : ℕ) (xs ys : List A) → n ≤ length xs → take n (take n xs ++ ys) ≡ take n xs
  take-append_take zero xs ys h = refl
  take-append_take (suc n) [] ys h = absurd (omega arith)
  take-append_take (suc n) (x ∷ xs) ys h = ap (λ l. x ∷ l) (take-append_take n xs ys (omega arith))

  pub take-take : (n : ℕ) (xs : List A) → take n (take n xs) ≡ take n xs
  take-take zero xs = refl
  take-take (suc n) [] = refl
  take-take (suc n) (x ∷ xs) = ap (λ l. x ∷ l) (take-take n xs)

  drop-append_take :
      (n m : ℕ) (xs ys : List A)
      → n ≤ length xs
      → n ≤ m
      → drop m (take n xs ++ drop n ys) ≡ drop m ys
  drop-append_take zero m xs ys h k = refl
  drop-append_take (suc n) m [] ys h k = absurd (omega arith)
  drop-append_take (suc n) zero (x ∷ xs) ys h k = absurd (omega arith)
  drop-append_take (suc n) (suc m) (x ∷ xs) [] h k =
      simp drop-nil at (drop-append_take n m xs [] (omega arith) (omega arith))
  drop-append_take (suc n) (suc m) (x ∷ xs) (y ∷ ys) h k =
      drop-append_take n m xs ys (omega arith) (omega arith)

-- A slot that was written holds the value.
pub copy_to-hit :
    (bytes : List ℕ) (off : ℕ) (src : List ℕ) (n : ℕ)
    → off ≤ length bytes
    → n ≤ length src
    → take n (drop off (copy_to bytes off src n)) ≡ take n src
unfolding copy_to
copy_to-hit bytes zero src n fits room = ground (arith, take-append_take n src (drop n bytes))
copy_to-hit [] (suc k) src n fits room = absurd (omega arith)
copy_to-hit (b ∷ bytes) (suc k) src n fits room = copy_to-hit bytes k src n (omega arith) room

-- Bytes before the write are kept.
pub copy_to-before :
    (bytes : List ℕ) (off : ℕ) (src : List ℕ) (n off' m : ℕ)
    → off' + m ≤ off
    → take m (drop off' (copy_to bytes off src n)) ≡ take m (drop off' bytes)
unfolding copy_to
copy_to-before bytes off src n off' zero h = refl
copy_to-before bytes zero src n off' (suc m) h = absurd (omega arith)
copy_to-before [] (suc k) src n off' (suc m) h = refl
copy_to-before (b ∷ bytes) (suc k) src n zero (suc m) h =
    ap (λ l. b ∷ l) (copy_to-before bytes k src n zero m (omega arith))
copy_to-before (b ∷ bytes) (suc k) src n (suc off') (suc m) h =
    copy_to-before bytes k src n off' (suc m) (omega arith)

-- Bytes behind the write are kept.
pub copy_to-behind :
    (bytes : List ℕ) (off : ℕ) (src : List ℕ) (n off' : ℕ)
    → off + n ≤ off'
    → n ≤ length src
    → drop off' (copy_to bytes off src n) ≡ drop off' bytes
unfolding copy_to
copy_to-behind bytes zero src n off' h room = ground (arith, drop-append_take n off' src bytes)
copy_to-behind [] (suc k) src n off' h room = refl
copy_to-behind (b ∷ bytes) (suc k) src n zero h room = absurd (omega arith)
copy_to-behind (b ∷ bytes) (suc k) src n (suc off') h room =
    copy_to-behind bytes k src n off' (omega arith) room

pub length-copy_to :
    (bytes : List ℕ) (off : ℕ) (src : List ℕ) (n : ℕ)
    → off + n ≤ length bytes
    → n ≤ length src
    → length (copy_to bytes off src n) ≡ length bytes
unfolding copy_to
length-copy_to bytes zero src n fits room =
    ground
      (arith, length-append (take n src) (drop n bytes), length-take n src, length-drop n bytes)
length-copy_to [] (suc k) src n fits room = refl
length-copy_to (b ∷ bytes) (suc k) src n fits room =
    ap suc (length-copy_to bytes k src n (omega arith) room)

pub slot-le : (i j n : ℕ) → i < j → i * n + n ≤ j * n
slot-le i j n h = grind arith

-- Two slots of `n` bytes are equal or do not overlap.
pub slots-apart : (i j n : ℕ) → i ≢ j → (i * n + n ≤ j * n) ⊎ (j * n + n ≤ i * n)
slots-apart i j n ne = elim (dec_lt i j) [
  | yes p ↦ inl (slot-le i j n p)
  | no p ↦ inr (slot-le j i n (omega arith))
]

-- A write of one slot leaves every other slot as it was.
pub copy_to-miss :
    (bytes : List ℕ) (i j n : ℕ) (src : List ℕ)
    → j ≢ i
    → n ≤ length src
    → take n (drop (j * n) (copy_to bytes (i * n) src n)) ≡ take n (drop (j * n) bytes)
copy_to-miss bytes i j n src ne room = elim (slots-apart j i n ne) [
  | inl before ↦ copy_to-before bytes (i * n) src n (j * n) n before
  | inr behind ↦ ap (take n) (copy_to-behind bytes (i * n) src n (j * n) behind room)
]
