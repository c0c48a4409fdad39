-- ===== src/IoCalls/Retry.antt =====
-- How the transfers of src/io.c end: what ends a round is stated by the error numbers themselves.
use croutine.Prelude.{
  ℕ, ◌≡◌, ◌≢◌, refl, ap, sym, ◌∙◌, ◌⊎◌, inl, inr, Bool-cases, true, false, not, if◌then◌else◌,
  Option, none, some, List, [], ◌∷◌, ◌++◌, arith, ◌==◌,
}
use croutine.IoWaits.{IoWaitResult, wait_ready, wait_closed, wait_failed}
use croutine.Syscall.{Reply, success, fails}
use croutine.IoCalls.{
  IoErrno, Round, IoResult, done, error, is_ready, wait_errno, would_block, transfer_round,
  croutine_read, croutine_write,
}

-- An interruption is no `EAGAIN` or `EWOULDBLOCK`.
abbrev pub DistinctCodes : IoErrno → Type 0
DistinctCodes e = (e.eintr ≢ e.eagain) × (e.eintr ≢ e.ewouldblock)

module _ (e : IoErrno) where
  -- The descriptor was not ready.
  abbrev pub Blocks : Reply → Type 0
  Blocks reply = (reply ≡ fails e.eagain) ⊎ (reply ≡ fails e.ewouldblock)

  -- A round after which the call tries again, given what the wait after it ends with: it was
  -- interrupted, or the descriptor was not ready and then is.
  abbrev pub Retried : Reply → IoWaitResult → Type 0
  Retried reply wait = (reply ≡ fails e.eintr) ⊎ (Blocks reply × (wait ≡ wait_ready))

  -- A round that ends the call, and the call's result.
  pub data Ends : Reply → IoWaitResult → IoResult → Type 0 where
    transferred : {wait : IoWaitResult} (n : ℕ) → Ends (success n) wait (done n)
    refused :
        {wait : IoWaitResult} (code : ℕ)
        → code ≢ e.eintr
        → code ≢ e.eagain
        → code ≢ e.ewouldblock
        → Ends (fails code) wait (error code)
    closed : {reply : Reply} → Blocks reply → Ends reply wait_closed (error e.ecanceled)
    failed : {reply : Reply} → Blocks reply → Ends reply wait_failed (error e.enotsup)

  -- Every round is of one kind or the other.
  Retried-Ends :
      (reply : Reply) (wait : IoWaitResult)
      → Retried reply wait ⊎ ((result : IoResult) × (Ends reply wait result))
  Retried-Ends (success n) wait = inr (done n, transferred n)
  Retried-Ends (fails code) wait = elim (Bool-cases (code == e.eintr)) [
    | inl again ↦ inl (inl (ap fails (ground arith)))
    | inr on ↦ elim (Bool-cases (code == e.eagain)) [
      | inl blocks ↦ blocked wait (inl (ap fails (ground arith)))
      | inr more ↦ elim (Bool-cases (code == e.ewouldblock)) [
        | inl blocks ↦ blocked wait (inr (ap fails (ground arith)))
        | inr other ↦ inr (
          error code,
          refused code (λ h. absurd (ground arith)) (λ h. absurd (ground arith))
              (λ h. absurd (ground arith)),
        )
      ]
    ]
  ]
    where
      blocked :
          {reply : Reply} (wait : IoWaitResult)
          → Blocks reply
          → Retried reply wait ⊎ ((result : IoResult) × (Ends reply wait result))
      blocked wait_ready h = inl (inr (h, refl))
      blocked wait_closed h = inr (error e.ecanceled, closed h)
      blocked wait_failed h = inr (error e.enotsup, failed h)

  -- What a round does whose descriptor was not ready.
  abbrev after_wait : IoWaitResult → Option IoResult → Option IoResult
  after_wait wait_ready rest = rest
  after_wait wait_closed rest = some (error e.ecanceled)
  after_wait wait_failed rest = some (error e.enotsup)

  blocked_code :
      (code : ℕ) (wait : IoWaitResult) (rest : Option IoResult)
      → code ≢ e.eintr
      → (code ≡ e.eagain) ⊎ (code ≡ e.ewouldblock)
      → transfer_round e (fails code) wait rest ≡ after_wait wait rest
  blocked_code code wait rest on h =
      let goes_on : (code == e.eintr) ≡ false = ground arith in
      let blocks : would_block e code ≡ true = ground arith in rw (goes_on, blocks) (waited wait)
    where
      waited :
          (wait : IoWaitResult)
          → (if not (is_ready wait) then some (error (wait_errno e wait)) else rest)
            ≡ after_wait wait rest
      waited wait_ready = refl
      waited wait_closed = refl
      waited wait_failed = refl

  transfer_round-Blocks :
      (reply : Reply) (wait : IoWaitResult) (rest : Option IoResult)
      → DistinctCodes e
      → Blocks reply
      → transfer_round e reply wait rest ≡ after_wait wait rest
  transfer_round-Blocks reply wait rest (a, b) (inl h) =
      ap (λ r. transfer_round e r wait rest) h
      ∙ blocked_code e.eagain wait rest (λ same. a (sym same)) (inl refl)
  transfer_round-Blocks reply wait rest (a, b) (inr h) =
      ap (λ r. transfer_round e r wait rest) h
      ∙ blocked_code e.ewouldblock wait rest (λ same. b (sym same)) (inr refl)

  transfer_round-Retried :
      (reply : Reply) (wait : IoWaitResult) (rest : Option IoResult)
      → DistinctCodes e
      → Retried reply wait
      → transfer_round e reply wait rest ≡ rest
  transfer_round-Retried reply wait rest apart (inl interrupted) =
      ap (λ r. transfer_round e r wait rest) interrupted
      ∙ (let same : (e.eintr == e.eintr) ≡ true = ground arith in rw same refl)
  transfer_round-Retried reply wait rest apart (inr (h, resumed)) =
      transfer_round-Blocks reply wait rest apart h ∙ ap (λ w. after_wait w rest) resumed

  transfer_round-Ends :
      (reply : Reply) (wait : IoWaitResult) (result : IoResult) (rest : Option IoResult)
      → DistinctCodes e
      → Ends reply wait result
      → transfer_round e reply wait rest ≡ some result
  transfer_round-Ends _ _ _ rest apart (transferred n) = refl
  transfer_round-Ends _ _ _ rest apart (refused code a b c) =
      let goes_on : (code == e.eintr) ≡ false = ground arith in
      let fatal : would_block e code ≡ false = ground arith in rw (goes_on, fatal) refl
  transfer_round-Ends reply _ _ rest apart (closed h) =
      transfer_round-Blocks reply wait_closed rest apart h
  transfer_round-Ends reply _ _ rest apart (failed h) =
      transfer_round-Blocks reply wait_failed rest apart h

  -- The waits of a transfer are those that `wait` picks from the rounds.
  module _ (wait : Round → IoWaitResult) where
    abbrev pub AllRetried : List Round → Type 0
    AllRetried [] = Unit
    AllRetried (r ∷ rounds) = (Retried r.reply (wait r)) × (AllRetried rounds)

    -- All rounds are retried and there is no result yet, or the first round that is not retried
    -- ends the call and gives its result, whatever rounds follow.
    abbrev pub Transfers : List Round → Option IoResult → Type 0
    Transfers rounds outcome =
        (AllRetried rounds × (outcome ≡ none))
        ⊎ ((before : List Round) × (r : Round) × (after : List Round) × (result : IoResult)
            × (rounds ≡ before ++ r ∷ after)
            × (AllRetried before)
            × (Ends r.reply (wait r) result)
            × (outcome ≡ some result))

    Transfers-step :
        (r : Round) (rounds : List Round) (rest : Option IoResult)
        → DistinctCodes e
        → Transfers rounds rest
        → Transfers (r ∷ rounds) (transfer_round e r.reply (wait r) rest)
    Transfers-step r rounds rest apart h = elim (Retried-Ends r.reply (wait r)) [
      | inr (result, ends) ↦ inr (
        [],
        r,
        rounds,
        result,
        refl,
        tt,
        ends,
        transfer_round-Ends r.reply (wait r) result rest apart ends,
      )
      | inl again ↦
          let passes = transfer_round-Retried r.reply (wait r) rest apart again in
          elim h [
            | inl (all, nothing) ↦ inl ((again, all), passes ∙ nothing)
            | inr (before, r', after, result, parts, all, ends, gives) ↦ inr (
              r ∷ before,
              r',
              after,
              result,
              ap (λ rs. r ∷ rs) parts,
              (again, all),
              ends,
              passes ∙ gives,
            )
          ]
    ]

  read-Transfers :
      (rounds : List Round)
      → DistinctCodes e
      → Transfers (λ r. r.readable) rounds (croutine_read e rounds)
  unfolding croutine_read
  read-Transfers [] apart = inl (tt, refl)
  read-Transfers (r ∷ rounds) apart =
      Transfers-step (λ r. r.readable) r rounds (croutine_read e rounds) apart
        (read-Transfers rounds apart)

  write-Transfers :
      (rounds : List Round)
      → DistinctCodes e
      → Transfers (λ r. r.writable) rounds (croutine_write e rounds)
  unfolding croutine_write
  write-Transfers [] apart = inl (tt, refl)
  write-Transfers (r ∷ rounds) apart =
      Transfers-step (λ r. r.writable) r rounds (croutine_write e rounds) apart
        (write-Transfers rounds apart)

  -- When `EINTR` is neither `EAGAIN` nor `EWOULDBLOCK`, for any sequence of replies and waits:
  -- `croutine_read` tries again exactly after a round that was interrupted and after one that
  -- reported `EAGAIN` or `EWOULDBLOCK` and whose wait for reading ended as ready, and the first
  -- other round gives its result: the number of bytes, any other error of the call as it is,
  -- `ECANCELED` for a wait that the closing of the descriptor ended, and `ENOTSUP` for a wait that
  -- failed. It has no result while all rounds are retried. The same holds of `croutine_write` and
  -- its waits for writing.
  pub read-write-Transfers :
      (rounds : List Round)
      → DistinctCodes e
      → (Transfers (λ r. r.readable) rounds (croutine_read e rounds))
        × (Transfers (λ r. r.writable) rounds (croutine_write e rounds))
  read-write-Transfers rounds apart = (read-Transfers rounds apart, write-Transfers rounds apart)
