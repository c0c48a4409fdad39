-- ===== src/IoCalls/Accept.antt =====
-- The descriptors that `croutine_accept` of src/io.c accepts, and their status flags.
use croutine.Prelude.{
  ℕ, ◌^◌, ◌<◌, ℤ, pos, ◌==ℤ◌, ◌≡◌, ◌≢◌, arith, bit_or, bit_and_self, bit_and-bit_or, refl, sym, ap,
  ◌∙◌, subst, inl, inr, Bool-cases, Bool, true, false, Option, none, some, List, [], ◌∷◌, ◌==◌,
  bit_and, fun_ext,
}
use croutine.IoWaits.{IoWaitResult, wait_ready, wait_closed, wait_failed}
use croutine.IoWaits.Invariant.{==ℤ-refl, ==ℤ-eq}
use croutine.Syscall.{Reply, success, fails}
use croutine.IoCalls.Retry.{Retried}
use croutine.IoCalls.{
  IoErrno, Round, IoResult, done, error, Files, mark, with_flags, is_ready, would_block, set_flags,
  croutine_fd_set_nonblocking, keep_or_close, accept_round, croutine_accept,
}

-- The kernel accepts only descriptors that are not open.
abbrev pub IsNew : (ℤ → Bool) → Reply → Type 0
IsNew is_open (success n) = is_open (pos n) ≡ false
IsNew is_open (fails code) = Unit

abbrev pub AllNew : (ℤ → Bool) → List Round → Type 0
AllNew is_open [] = Unit
AllNew is_open (r ∷ rounds) = (IsNew is_open r.reply) × (AllNew is_open rounds)

module _ (e : IoErrno) (o_nonblock : ℕ) (setfl : ℕ → ℕ → ℕ) where
  -- `o_nonblock` has a bit, in a word; and `F_SETFL` sets or clears it as it is in the given flags.
  abbrev pub TakesNonblock : Type 0
  TakesNonblock =
      (0 < o_nonblock)
      × (o_nonblock < 2 ^ 32)
      × ((old value : ℕ) → bit_and 32 (setfl old value) o_nonblock ≡ bit_and 32 value o_nonblock)

  -- The descriptor's flags have `O_NONBLOCK`.
  abbrev pub IsNonblocking : Files → ℤ → Type 0
  IsNonblocking files fd = bit_and 32 (files.flags fd) o_nonblock ≢ 0

  -- Every answer is an interruption.
  abbrev pub AllAgain : List (Option ℕ) → Type 0
  AllAgain [] = Unit
  AllAgain (none ∷ answers) = ⊥
  AllAgain (some code ∷ answers) = (code ≡ e.eintr) × (AllAgain answers)

  -- Besides interruptions, `fcntl` has given at most one answer, which granted the call.
  abbrev pub Unanswered : List (Option ℕ) → Type 0
  Unanswered [] = Unit
  Unanswered (none ∷ answers) = AllAgain answers
  Unanswered (some code ∷ answers) = (code ≡ e.eintr) × (Unanswered answers)

  -- A round without a result, before others for which `rest` holds.
  abbrev pub NoResult : Reply → IoWaitResult → List (Option ℕ) → Type 0 → Type 0
  NoResult (success n) readable answers rest = Unanswered answers
  NoResult (fails code) readable answers rest = (Retried e (fails code) readable) × rest

  -- What is given of the kernel's replies is too little for a result: each round is retried, up to
  -- one that accepts a descriptor and leaves a call of `fcntl` unanswered.
  abbrev pub Unfinished : List Round → Type 0
  Unfinished [] = Unit
  Unfinished (r ∷ rounds) = NoResult r.reply r.readable r.answers (Unfinished rounds)

  -- An accepted descriptor is open and does not block, and is the only one that is new; after an
  -- error the open descriptors are those of before. Without a result, `unfinished` holds.
  abbrev pub NoLeak : Type 0 → Files → Option (IoResult × Files) → Type 0
  NoLeak unfinished files none = unfinished
  NoLeak unfinished files (some (done n, files')) =
      (IsNonblocking files' (pos n)) × (files'.is_open ≡ mark (pos n) true files.is_open)
  NoLeak unfinished files (some (error code, files')) = files'.is_open ≡ files.is_open

  -- The descriptor does not block if there is no error, and no descriptor is opened or closed.
  -- Without a result, `unfinished` holds.
  abbrev Unblocked : Type 0 → ℤ → Files → Option (Option ℕ × Files) → Type 0
  Unblocked unfinished fd files none = unfinished
  Unblocked unfinished fd files (some (none, files')) =
      (IsNonblocking files' fd) × (files'.is_open ≡ files.is_open)
  Unblocked unfinished fd files (some (some code, files')) = files'.is_open ≡ files.is_open

  written : (fd : ℤ) (value : ℕ) (flags : ℤ → ℕ) → with_flags fd value flags fd ≡ value
  written fd value flags = rw (==ℤ-refl fd) refl

  is_code : (code : ℕ) → (code == e.eintr) ≡ true → code ≡ e.eintr
  is_code code h = ground arith

  Unblocked-map :
      {U V : Type 0} (fd : ℤ) (files : Files) (o : Option (Option ℕ × Files))
      → (U → V)
      → Unblocked U fd files o
      → Unblocked V fd files o
  Unblocked-map fd files none f h = f h
  Unblocked-map fd files (some (none, files')) f h = h
  Unblocked-map fd files (some (some code, files')) f h = h

  NoLeak-map :
      {U V : Type 0} (files : Files) (o : Option (IoResult × Files))
      → (U → V)
      → NoLeak U files o
      → NoLeak V files o
  NoLeak-map files none f h = f h
  NoLeak-map files (some (done n, files')) f h = h
  NoLeak-map files (some (error code, files')) f h = h

  -- A round whose wait ended as ready.
  resumed-Retried :
      (code : ℕ) (readable : IoWaitResult)
      → would_block e code ≡ true
      → is_ready readable ≡ true
      → Retried e (fails code) readable
  resumed-Retried code wait_ready blocks _ = elim (Bool-cases (code == e.eagain)) [
    | inl now ↦ inr (inl (ap fails (ground arith)), refl)
    | inr other ↦ inr (inr (ap fails (ground arith)), refl)
  ]
  resumed-Retried code wait_closed blocks h = absurd (ground arith)
  resumed-Retried code wait_failed blocks h = absurd (ground arith)

  set_flags-Unblocked :
      (fd : ℤ) (value : ℕ) (answers : List (Option ℕ)) (files : Files)
      → TakesNonblock
      → bit_and 32 value o_nonblock ≢ 0
      → Unblocked (AllAgain answers) fd files (set_flags e o_nonblock setfl fd value answers files)
  unfolding set_flags
  set_flags-Unblocked fd value [] files kernel set = tt
  set_flags-Unblocked fd value (none ∷ answers) files (_, _, takes) set =
      let flags = written fd (setfl (files.flags fd) value) files.flags in
      (
        λ clear. set (
            sym (takes (files.flags fd) value)
            ∙ ap (λ f. bit_and 32 f o_nonblock) (sym flags)
            ∙ clear),
        refl,
      )
  set_flags-Unblocked fd value (some code ∷ answers) files kernel set =
      elim (Bool-cases (code == e.eintr)) [
        | inl again ↦ rw again (
            Unblocked-map fd files (set_flags e o_nonblock setfl fd value answers files)
              (λ h. (is_code code again, h))
              (set_flags-Unblocked fd value answers files kernel set))
        | inr other ↦ rw other refl
      ]

  -- `flags | O_NONBLOCK` has the bit.
  with_nonblock :
      (flags : ℕ) → TakesNonblock → bit_and 32 (bit_or 32 flags o_nonblock) o_nonblock ≢ 0
  with_nonblock flags (some_bit, word, _) clear =
      let same = bit_and-bit_or 32 flags o_nonblock in
      let self = bit_and_self 32 o_nonblock word in
      absurd (omega (arith, sym self ∙ sym same ∙ clear))

  set_nonblocking-Unblocked :
      (fd : ℤ) (answers : List (Option ℕ)) (files : Files)
      → TakesNonblock
      → Unblocked
          (Unanswered answers)
          fd
          files
          (croutine_fd_set_nonblocking e o_nonblock setfl fd answers files)
  unfolding croutine_fd_set_nonblocking
  set_nonblocking-Unblocked fd [] files kernel = tt
  set_nonblocking-Unblocked fd (none ∷ answers) files kernel =
      elim (Bool-cases (bit_and 32 (files.flags fd) o_nonblock == 0)) [
        | inl blocks ↦ rw blocks (
            set_flags-Unblocked fd (bit_or 32 (files.flags fd) o_nonblock) answers files kernel
              (with_nonblock (files.flags fd) kernel))
        | inr set ↦ rw set (λ clear. absurd (ground arith), refl)
      ]
  set_nonblocking-Unblocked fd (some code ∷ answers) files kernel =
      elim (Bool-cases (code == e.eintr)) [
        | inl again ↦ rw again (
            Unblocked-map fd files (croutine_fd_set_nonblocking e o_nonblock setfl fd answers files)
              (λ h. (is_code code again, h)) (set_nonblocking-Unblocked fd answers files kernel))
        | inr other ↦ rw other refl
      ]

  -- A descriptor that is closed again.
  mark-mark : (fd : ℤ) (f : ℤ → Bool) → f fd ≡ false → mark fd false (mark fd true f) ≡ f
  mark-mark fd f unused = fun_ext λ d. elim (Bool-cases (fd ==ℤ d)) [
    | inl same ↦ rw same (sym (subst (λ k. f k ≡ false) (==ℤ-eq fd d same) unused))
    | inr other ↦ rw other refl
  ]

  keep_or_close-NoLeak :
      (U : Type 0) (n : ℕ) (files files₁ : Files) (o : Option (Option ℕ × Files))
      → files.is_open (pos n) ≡ false
      → files₁.is_open ≡ mark (pos n) true files.is_open
      → Unblocked U (pos n) files₁ o
      → NoLeak U files (keep_or_close e o_nonblock setfl n o)
  keep_or_close-NoLeak U n files files₁ none unused opened h = h
  keep_or_close-NoLeak U n files files₁ (some (none, files')) unused opened (flag, same) =
      (flag, same ∙ opened)
  keep_or_close-NoLeak U n files files₁ (some (some code, files')) unused opened same =
      ap (mark (pos n) false) (same ∙ opened) ∙ mark-mark (pos n) files.is_open unused

  -- A round, by the cases of its reply.
  accept_round-NoLeak :
      (U : Type 0) (reply : Reply) (readable writable : IoWaitResult) (new_flags : ℕ)
      (answers : List (Option ℕ)) (rest : Option (IoResult × Files)) (files : Files)
      → TakesNonblock
      → IsNew files.is_open reply
      → NoLeak U files rest
      → NoLeak (NoResult reply readable answers U) files (
          accept_round e o_nonblock setfl
            (record {
              reply = reply;
              readable = readable;
              writable = writable;
              new_flags = new_flags;
              answers = answers;
            })
            rest
            files)
  accept_round-NoLeak U (success n) readable writable new_flags answers rest files kernel new h =
      let files₁ : Files = record {
        is_open = mark (pos n) true files.is_open;
        flags = with_flags (pos n) new_flags files.flags;
      } in
      keep_or_close-NoLeak (Unanswered answers) n files files₁
        (croutine_fd_set_nonblocking e o_nonblock setfl (pos n) answers files₁) new refl
        (set_nonblocking-Unblocked (pos n) answers files₁ kernel)
  accept_round-NoLeak U (fails code) readable writable new_flags answers rest files kernel new h =
      elim (Bool-cases (code == e.eintr)) [
        | inl again ↦
            rw again (NoLeak-map files rest (λ u. (inl (ap fails (is_code code again)), u)) h)
        | inr other ↦ elim (Bool-cases (would_block e code)) [
          | inr refused ↦ rw (other, refused) refl
          | inl blocks ↦ elim (Bool-cases (is_ready readable)) [
            | inl resumed ↦
                rw (other, blocks, resumed)
                  (NoLeak-map files rest (λ u. (resumed-Retried code readable blocks resumed, u)) h)
            | inr ended ↦ rw (other, blocks, ended) refl
          ]
        ]
      ]

  -- When `O_NONBLOCK` is a bit of a word that `F_SETFL` sets or clears as it is told, the kernel
  -- accepts only descriptors that are not open, with any status flags, and whatever it replies: a
  -- `croutine_accept` that succeeds returns an open descriptor whose status flags have
  -- `O_NONBLOCK`, and opens no other; one that fails leaves the open descriptors as they were. It
  -- has no result only while every given round was interrupted or waited until the descriptor was
  -- readable, up to one that accepts a descriptor for which a call of `fcntl` is still to be
  -- answered.
  pub croutine_accept-NoLeak :
      (rounds : List Round) (files : Files)
      → TakesNonblock
      → AllNew files.is_open rounds
      → NoLeak (Unfinished rounds) files (croutine_accept e o_nonblock setfl rounds files)
  unfolding croutine_accept
  croutine_accept-NoLeak [] files kernel new = tt
  croutine_accept-NoLeak (r ∷ rounds) files kernel (new, news) =
      accept_round-NoLeak (Unfinished rounds) r.reply r.readable r.writable r.new_flags r.answers
        (croutine_accept e o_nonblock setfl rounds files) files kernel new
        (croutine_accept-NoLeak rounds files kernel news)
