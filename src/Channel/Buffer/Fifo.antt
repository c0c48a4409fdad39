-- ===== src/Channel/Buffer/Fifo.antt =====
-- A channel's buffer as a FIFO of values.
use croutine.Prelude.{
  ℕ, zero, suc, ◌+◌, ◌-◌, ◌||◌, ◌*◌, ◌%◌, ◌^◌, ◌≤◌, ◌<◌, ◌≡◌, ap, ◌∙◌, List, [], ◌∷◌, ◌++◌, arith,
  ◌==◌, if◌then◌else◌, length, take, drop, add_size,
}
use native.Mathlib.Nat.{mod-add-mod, le_refl}
use croutine.Ring.{window, window-head, window-write}
use croutine.Channel.State.{Channel}
use croutine.Channel.Buffer.{copy_value, copy_to, buffer_slot, buffer_push, buffer_pop, is_null}
use croutine.Channel.Buffer.Bytes.{copy_to-hit, length-copy_to, copy_to-miss, take-take, slot-le}

-- The buffer holds `capacity` slots of `elem_size` bytes, addressed without wrap, and the live
-- ones start at `head` and end before `tail`.
pub record IsBuffer (ch : Channel) : Type 0 where
  pub fits : ch.capacity * ch.elem_size ≤ length ch.buffer
  pub addressable : ch.capacity * ch.elem_size < 2 ^ 64
  pub countable : ch.capacity < 2 ^ 64
  pub len_in : ch.len ≤ ch.capacity
  pub head_in : 0 < ch.capacity → ch.head < ch.capacity
  pub tail_at : 0 < ch.capacity → ch.tail ≡ (ch.head + ch.len) % ch.capacity

-- The bytes of slot `i`.
abbrev pub slot : Channel → ℕ → List ℕ
slot ch i = take ch.elem_size (drop (i * ch.elem_size) ch.buffer)

-- The buffered values, oldest first.
abbrev pub buffered : Channel → List (List ℕ)
buffered ch = window (slot ch) ch.capacity ch.head ch.len

mul-le_of_lt : (i c n m : ℕ) → i < c → c * n ≤ m → i * n + n ≤ m
mul-le_of_lt i c n m h k = grind (arith, slot-le i c n h)

offset_lem :
    (bytes : List ℕ) (n i c : ℕ)
    → c * n ≤ length bytes
    → c * n < 2 ^ 64
    → i < c
    → (if is_null bytes || n == 0 then 0 else i * n % 2 ^ 64) ≡ i * n
offset_lem [] zero i c fits small h = grind arith
offset_lem [] (suc n) i c fits small h =
    absurd (omega (arith, mul-le_of_lt i c (suc n) (c * suc n) h (le_refl _)))
offset_lem (b ∷ bytes) zero i c fits small h = grind arith
offset_lem (b ∷ bytes) (suc n) i c fits small h =
    ground (arith, mul-le_of_lt i c (suc n) (c * suc n) h (le_refl _))

-- The offset of a slot in range is the product, without wrap.
pub buffer_slot-in_range :
    (ch : Channel) (i : ℕ) → IsBuffer ch → i < ch.capacity → buffer_slot ch i ≡ i * ch.elem_size
unfolding buffer_slot
buffer_slot-in_range ch i b h =
    offset_lem ch.buffer ch.elem_size i ch.capacity b.fits b.addressable h

module _ (ch : Channel) (value : List ℕ) (b : IsBuffer ch) (room : ch.len < ch.capacity) where
  tail_in : ch.tail < ch.capacity
  tail_in = let e = b.tail_at (omega arith) in omega arith

  pushed_bytes :
      (buffer_push ch value).buffer ≡ copy_to ch.buffer (ch.tail * ch.elem_size) value ch.elem_size
  unfolding buffer_push
  pushed_bytes =
      ap (λ o. copy_to ch.buffer o value ch.elem_size) (buffer_slot-in_range ch ch.tail b tail_in)

  slot_fits : ch.tail * ch.elem_size + ch.elem_size ≤ length ch.buffer
  slot_fits = mul-le_of_lt ch.tail ch.capacity ch.elem_size (length ch.buffer) tail_in b.fits

  -- On a well-formed buffer with room and a value that is whole, `buffer_push` appends the value's
  -- bytes to the buffered values.
  pub buffer_push-append :
      ch.elem_size ≤ length value
      → buffered (buffer_push ch value) ≡ buffered ch ++ take ch.elem_size value ∷ []
  unfolding buffer_push
  buffer_push-append whole =
      ap (λ n. window (slot (buffer_push ch value)) ch.capacity ch.head n) counts
      ∙ window-write (slot ch) (slot (buffer_push ch value)) (take ch.elem_size value) ch.capacity
          ch.len ch.head ch.tail (b.head_in (omega arith)) room (b.tail_at (omega arith))
          (ap (λ bytes. take ch.elem_size (drop (ch.tail * ch.elem_size) bytes)) pushed_bytes
            ∙ copy_to-hit ch.buffer (ch.tail * ch.elem_size) value ch.elem_size
                (omega (arith, slot_fits)) whole)
          (λ j h ne.
            ap (λ bytes. take ch.elem_size (drop (j * ch.elem_size) bytes)) pushed_bytes
            ∙ copy_to-miss ch.buffer ch.tail j ch.elem_size value ne whole)
    where
      counts : (buffer_push ch value).len ≡ suc ch.len
      counts = omega (arith, b.countable, b.len_in)

  pub buffer_push-IsBuffer : ch.elem_size ≤ length value → IsBuffer (buffer_push ch value)
  unfolding buffer_push
  buffer_push-IsBuffer whole = ground (
    arith,
    b.tail_at (omega arith),
    b.head_in (omega arith),
    tail_in,
    pushed_bytes,
    length-copy_to ch.buffer (ch.tail * ch.elem_size) value ch.elem_size slot_fits whole,
    mod-add-mod (ch.head + ch.len) ch.capacity 1,
  )

-- Only the first `n` bytes of the source count.
copy_value-take : (dst src : List ℕ) (n : ℕ) → copy_value dst src n ≡ copy_value dst (take n src) n
unfolding copy_value
copy_value-take dst src n = ground (arith, take-take n src)

-- On a well-formed buffer that is not empty, `buffer_pop` copies the oldest value out, over the
-- first bytes of the object, and takes it off the buffer.
pub buffer_pop-cons :
    (ch : Channel) (out : List ℕ)
    → IsBuffer ch
    → 0 < ch.len
    → let (out', ch') = buffer_pop ch out in
      (buffered ch ≡ slot ch ch.head ∷ buffered ch')
      × (out' ≡ copy_value out (slot ch ch.head) ch.elem_size)
unfolding buffer_pop
buffer_pop-cons ch out b some =
    let at = buffer_slot-in_range ch ch.head b (b.head_in (omega arith)) in
    let next : add_size ch.head 1 % ch.capacity ≡ (ch.head + 1) % ch.capacity =
      let inside = b.head_in (omega arith) in ap (λ n. n % ch.capacity) (omega arith) in
    (
      rw next (window-head (slot ch) ch.capacity ch.head ch.len some),
      ap (λ o. copy_value out (drop o ch.buffer) ch.elem_size) at
          ∙ copy_value-take out (drop (ch.head * ch.elem_size) ch.buffer) ch.elem_size,
    )

pub buffer_pop-IsBuffer :
    (ch : Channel) (out : List ℕ) → IsBuffer ch → 0 < ch.len → IsBuffer (buffer_pop ch out).1
unfolding buffer_pop
buffer_pop-IsBuffer ch out b some = ground (
  arith,
  b.tail_at (omega arith),
  b.head_in (omega arith),
  mod-add-mod (ch.head + 1) ch.capacity (ch.len - 1),
)
