-- ===== src/IoCalls/Tests.antt =====
-- Tests of the calls that retry and wait.
use croutine.Prelude.{ℕ, pos, ◌==ℤ◌, ◌||◌, ◌≡◌, refl, arith, none, some, List, [], ◌∷◌}
use croutine.IoWaits.{wait_ready, wait_closed, wait_failed}
use croutine.Syscall.{success, fails}
use croutine.IoCalls.{
  IoErrno, Round, done, error, Files, croutine_read, croutine_write, croutine_accept,
}
use croutine.IoCalls.Retry.{Transfers, read-write-Transfers}
use croutine.IoCalls.Accept.{Unfinished, NoLeak, croutine_accept-NoLeak}

abbrev errno : IoErrno
errno = record { eintr = 4; eagain = 11; ewouldblock = 11; ecanceled = 125; enotsup = 95 }

-- An interruption, a descriptor that becomes readable but not writable, and five bytes.
abbrev rounds : List Round
rounds =
    record {
      reply = fails 4;
      readable = wait_closed;
      writable = wait_closed;
      new_flags = 0;
      answers = [];
    }
    ∷ record {
      reply = fails 11;
      readable = wait_ready;
      writable = wait_closed;
      new_flags = 0;
      answers = [];
    }
    ∷ record {
      reply = success 5;
      readable = wait_failed;
      writable = wait_failed;
      new_flags = 2;
      answers = some 4 ∷ none ∷ some 4 ∷ none ∷ [];
    }
    ∷ []

reads_five : croutine_read errno rounds ≡ some (done 5)
unfolding croutine_read
reads_five = refl

write_canceled : croutine_write errno rounds ≡ some (error 125)
unfolding croutine_write
write_canceled = refl

read-write-Transfers_example :
    (Transfers errno (λ r. r.readable) rounds (croutine_read errno rounds))
    × (Transfers errno (λ r. r.writable) rounds (croutine_write errno rounds))
read-write-Transfers_example =
    read-write-Transfers errno rounds (λ h. absurd (omega arith), λ h. absurd (omega arith))

-- Descriptors 0 and 1 are open, in blocking mode.
abbrev files : Files
files = record { is_open = λ fd. fd ==ℤ pos 0 || fd ==ℤ pos 1; flags = λ fd. 2 }

-- `F_SETFL` takes all the bits that it is given.
abbrev setfl : ℕ → ℕ → ℕ
setfl old value = value

croutine_accept-NoLeak_example :
    NoLeak errno 2048 setfl
      (Unfinished errno 2048 setfl rounds)
      files
      (croutine_accept errno 2048 setfl rounds files)
croutine_accept-NoLeak_example =
    croutine_accept-NoLeak errno 2048 setfl rounds files
      (omega arith, omega arith, λ old value. refl) (tt, (tt, (refl, tt)))
