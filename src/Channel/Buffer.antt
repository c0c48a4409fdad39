-- ===== src/Channel/Buffer.antt =====
-- The buffer helpers of src/channel.c, on bytes.
pub mod Bytes
pub mod Fifo
mod Tests
use croutine.Prelude.{
  ℕ, zero, suc, ◌+◌, ◌-◌, ◌*◌, ◌%◌, ◌^◌, Bool, true, false, ◌||◌, List, [], ◌∷◌, ◌++◌, ◌==◌,
  if◌then◌else◌, add_size, take, drop,
}
use croutine.Channel.State.{Channel}

-- The object at `dst` after `copy_value(dst, src, len)`.
unfoldable pub copy_value : List ℕ → List ℕ → ℕ → List ℕ
copy_value dst src len = if len == 0 then dst else take len src ++ drop len dst

-- `copy_value(bytes + offset, src, len)`
unfoldable pub copy_to : List ℕ → ℕ → List ℕ → ℕ → List ℕ
unfolding copy_value
copy_to bytes zero src len = copy_value bytes src len
copy_to [] (suc k) src len = []
copy_to (b ∷ bytes) (suc k) src len = b ∷ copy_to bytes k src len

abbrev pub is_null : List ℕ → Bool
is_null [] = true
is_null (_ ∷ _) = false

-- The offset of a slot in the buffer; the product is a `size_t`.
unfoldable pub buffer_slot : Channel → ℕ → ℕ
buffer_slot ch index =
    if is_null ch.buffer || ch.elem_size == 0 then 0 else index * ch.elem_size % 2 ^ 64

unfoldable pub buffer_push : Channel → List ℕ → Channel
unfolding copy_to buffer_slot
buffer_push ch value = record ch {
  buffer = copy_to ch.buffer (buffer_slot ch ch.tail) value ch.elem_size;
  tail = add_size ch.tail 1 % ch.capacity;
  len = add_size ch.len 1;
}

-- The object at `out` after `buffer_pop`, and the channel. The callers know that `len` is not 0.
unfoldable pub buffer_pop : Channel → List ℕ → List ℕ × Channel
unfolding copy_value buffer_slot
buffer_pop ch out = (
  copy_value out (drop (buffer_slot ch ch.head) ch.buffer) ch.elem_size,
  record ch { head = add_size ch.head 1 % ch.capacity; len = ch.len - 1 },
)
