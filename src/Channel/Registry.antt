-- ===== src/Channel/Registry.antt =====
-- The registry of src/channel.c: allocation, registration and destruction of channels.
use croutine.Prelude.{
  ℕ, ◌*◌, ◌/◌, ◌%◌, ◌^◌, Bool, true, false, not, ◌&&◌, Option, none, some, List, [], ltb, ◌==◌,
  if◌then◌else◌, null, update, size_max,
}
use croutine.WaitQueue.{empty_queue}
use croutine.Channel.State.{Channel, World, ok, Cmd}

-- The channel that `croutine_channel_create` fills in.
abbrev pub fresh_channel : ℕ → ℕ → List ℕ → Channel
fresh_channel elem_size capacity buffer = record {
  elem_size = elem_size;
  capacity = capacity;
  closed = false;
  buffer = buffer;
  len = 0;
  head = 0;
  tail = 0;
  send_waiters = empty_queue;
  recv_waiters = empty_queue;
  registry_prev = null;
  registry_next = null;
}

-- The end of `croutine_channel_create`: the channel comes first in the registry.
unfoldable pub register : ℕ → Channel → World → World
register c ch w =
    let old = w.channel_registry in
    let chans = update w.channels c (record ch { registry_next = old }) in
    record w {
      channels =
          if old == null
          then chans
          else update chans old (record (chans old) { registry_prev = c });
      channel_registry = c;
    }

-- The size that `croutine_channel_create` asks of `malloc`.
abbrev pub buffer_size : ℕ → ℕ → ℕ
buffer_size elem_size capacity = let n = elem_size * capacity % 2 ^ 64 in if n == 0 then 1 else n

-- `granted` says whether `calloc` gives the channel, at address `c`; `malloc` gives the bytes of an
-- object of the size, or nothing. The result is the channel or `NULL`.
unfoldable pub croutine_channel_create : Bool → ℕ → (ℕ → Option (List ℕ)) → ℕ → ℕ → Cmd ℕ
unfolding register
croutine_channel_create granted c malloc elem_size capacity w =
    if not (capacity == 0) && ltb (size_max / capacity) elem_size
    then ok null w
    else if not granted
    then ok null w
    else if capacity == 0
    then ok c (register c (fresh_channel elem_size capacity []) w)
    else elim (malloc (buffer_size elem_size capacity)) [
      | none ↦ ok null w
      | some bytes ↦ ok c (register c (fresh_channel elem_size capacity bytes) w)
    ]

-- The registry without channel `c`.
unfoldable pub unregister : ℕ → World → World
unregister c w =
    let prev = (w.channels c).registry_prev in
    let next = (w.channels c).registry_next in
    let chans =
      if prev == null
      then w.channels
      else update w.channels prev (record (w.channels prev) { registry_next = next }) in
    record w {
      channel_registry = if prev == null then next else w.channel_registry;
      channels =
          if next == null
          then chans
          else update chans next (record (chans next) { registry_prev = prev });
    }

unfoldable pub croutine_channel_destroy : ℕ → Cmd Bool
unfolding unregister
croutine_channel_destroy c w =
    if c == null
    then ok true w
    else (let ch = w.channels c in
        if ch.closed && ch.send_waiters.head == null && ch.recv_waiters.head == null
        then ok true (unregister c w)
        else ok false w)
