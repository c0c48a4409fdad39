-- ===== src/Syscall.antt =====
-- Replies of the kernel, which the files that call it share.
use croutine.Prelude.{ℕ}

-- What a system call replies: its result, or `errno`.
pub data Reply : Type 0 where
  success : ℕ → Reply
  fails : ℕ → Reply
