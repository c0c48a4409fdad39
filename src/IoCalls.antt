-- ===== src/IoCalls.antt =====
-- src/io.c: the calls that retry and wait. What the kernel replies, attempt by attempt, is a list,
-- and so is what each wait for the descriptor would end with; a call for which the list is too short
-- has no result yet. Error numbers are those of the system's headers, as `IoErrno`.
pub mod Retry
pub mod Accept
mod Tests
use croutine.Prelude.{
  ℕ, ℤ, pos, ◌==ℤ◌, Bool, true, false, not, ◌&&◌, ◌||◌, Option, none, some, List, [], ◌∷◌, ◌==◌,
  if◌then◌else◌, bit_and, bit_or,
}
use croutine.IoWaits.{IoWaitResult, wait_ready, wait_closed, wait_failed}
use croutine.Syscall.{Reply, success, fails}

pub record IoErrno : Type 0 where
  pub eintr : ℕ
  pub eagain : ℕ
  pub ewouldblock : ℕ
  pub ecanceled : ℕ
  pub enotsup : ℕ

-- One attempt: the reply; what `croutine_io_wait_readable` and `croutine_io_wait_writable` end
-- with if they are called after it; and, for a descriptor that it accepts, the status flags that
-- the kernel gives it and the answers to `fcntl`: nothing for a call that is granted, or `errno`.
pub record Round : Type 0 where
  pub reply : Reply
  pub readable : IoWaitResult
  pub writable : IoWaitResult
  pub new_flags : ℕ
  pub answers : List (Option ℕ)

-- The result, or `-1` with `errno`.
pub data IoResult : Type 0 where
  done : ℕ → IoResult
  error : ℕ → IoResult

-- The descriptors that the process has open, and their file status flags, which `F_GETFL` reads.
pub record Files : Type 0 where
  pub is_open : ℤ → Bool
  pub flags : ℤ → ℕ

abbrev pub is_ready : IoWaitResult → Bool
is_ready wait_ready = true
is_ready _ = false

abbrev pub mark : ℤ → Bool → (ℤ → Bool) → ℤ → Bool
mark fd b f fd' = if fd ==ℤ fd' then b else f fd'

abbrev pub with_flags : ℤ → ℕ → (ℤ → ℕ) → ℤ → ℕ
with_flags fd value flags fd' = if fd ==ℤ fd' then value else flags fd'

module _ (e : IoErrno) where
  abbrev pub wait_errno : IoWaitResult → ℕ
  wait_errno wait_closed = e.ecanceled
  wait_errno _ = e.enotsup

  -- `error != EAGAIN && error != EWOULDBLOCK`, negated
  abbrev pub would_block : ℕ → Bool
  would_block code = code == e.eagain || code == e.ewouldblock

  -- One round of the loop of a transfer, before the rounds whose result is `rest`.
  abbrev pub transfer_round : Reply → IoWaitResult → Option IoResult → Option IoResult
  transfer_round (success n) wait rest = some (done n)
  transfer_round (fails code) wait rest =
      if code == e.eintr
      then rest
      else if not (would_block code)
      then some (error code)
      else if not (is_ready wait)
      then some (error (wait_errno wait))
      else rest

  unfoldable pub croutine_read : List Round → Option IoResult
  croutine_read [] = none
  croutine_read (r ∷ rounds) = transfer_round r.reply r.readable (croutine_read rounds)

  unfoldable pub croutine_write : List Round → Option IoResult
  croutine_write [] = none
  croutine_write (r ∷ rounds) = transfer_round r.reply r.writable (croutine_write rounds)

  -- `setfl old value` are the flags after `F_SETFL` with `value` on those that were `old`, of which
  -- the kernel may keep some.
  module _ (o_nonblock : ℕ) (setfl : ℕ → ℕ → ℕ) where
    -- The second loop of `croutine_fd_set_nonblocking`, whose `F_SETFL` is given `value`: `errno` or
    -- nothing for success.
    unfoldable pub set_flags : ℤ → ℕ → List (Option ℕ) → Files → Option (Option ℕ × Files)
    set_flags fd value [] files = none
    set_flags fd value (none ∷ answers) files =
        some
          (none, record files { flags = with_flags fd (setfl (files.flags fd) value) files.flags })
    set_flags fd value (some code ∷ answers) files =
        let rest = set_flags fd value answers files in
        if code == e.eintr then rest else some (some code, files)

    unfoldable pub croutine_fd_set_nonblocking :
        ℤ → List (Option ℕ) → Files → Option (Option ℕ × Files)
    unfolding set_flags
    croutine_fd_set_nonblocking fd [] files = none
    croutine_fd_set_nonblocking fd (none ∷ answers) files =
        let flags = files.flags fd in
        if not (bit_and 32 flags o_nonblock == 0)
        then some (none, files)
        else set_flags fd (bit_or 32 flags o_nonblock) answers files
    croutine_fd_set_nonblocking fd (some code ∷ answers) files =
        let rest = croutine_fd_set_nonblocking fd answers files in
        if code == e.eintr then rest else some (some code, files)

    -- What becomes of an accepted descriptor.
    abbrev pub keep_or_close : ℕ → Option (Option ℕ × Files) → Option (IoResult × Files)
    keep_or_close accepted none = none
    keep_or_close accepted (some (none, files)) = some (done accepted, files)
    keep_or_close accepted (some (some code, files)) =
        some (error code, record files { is_open = mark (pos accepted) false files.is_open })

    -- One round of `croutine_accept`.
    abbrev pub accept_round : Round → Option (IoResult × Files) → Files → Option (IoResult × Files)
    accept_round r rest files = elim r.reply [
      | success n ↦ keep_or_close n (
          croutine_fd_set_nonblocking (pos n) r.answers (record {
            is_open = mark (pos n) true files.is_open;
            flags = with_flags (pos n) r.new_flags files.flags;
          }))
      | fails code ↦
          if code == e.eintr
          then rest
          else if not (would_block code)
          then some (error code, files)
          else if not (is_ready r.readable)
          then some (error (wait_errno r.readable), files)
          else rest
    ]

    unfoldable pub croutine_accept : List Round → Files → Option (IoResult × Files)
    unfolding croutine_fd_set_nonblocking
    croutine_accept [] files = none
    croutine_accept (r ∷ rounds) files = accept_round r (croutine_accept rounds files) files
