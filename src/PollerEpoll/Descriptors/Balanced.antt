-- ===== src/PollerEpoll/Descriptors/Balanced.antt =====
-- The poller closes what it has opened.
use croutine.Prelude.{
  ℤ, ◌==ℤ◌, is_negative, ◌≡◌, refl, sym, ap, ◌∙◌, subst, inl, inr, Bool-cases, Bool, true, false,
  not, Option, none, some, if◌then◌else◌, fun_ext,
}
use croutine.IoWaits.Invariant.{==ℤ-eq}
use croutine.PollerEpoll.Descriptors.{
  Epoll, mark_open, add_wake, create_epoll, croutine_poller_init, croutine_poller_deinit,
}

-- A descriptor that was not open is opened and closed.
mark_open_twice :
    (fd : ℤ) (is_open : ℤ → Bool)
    → is_open fd ≡ false
    → mark_open fd false (mark_open fd true is_open) ≡ is_open
mark_open_twice fd is_open unused = fun_ext λ d. elim (Bool-cases (fd ==ℤ d)) [
  | inl same ↦ rw same (sym (subst (λ k. is_open k ≡ false) (==ℤ-eq fd d same) unused))
  | inr other ↦ rw other refl
]

-- Two of them, one after the other.
mark_open_both :
    (q w : ℤ) (is_open : ℤ → Bool)
    → is_open q ≡ false
    → mark_open q true is_open w ≡ false
    → mark_open q false (mark_open w false (mark_open w true (mark_open q true is_open))) ≡ is_open
mark_open_both q w is_open unused unused' =
    ap (mark_open q false) (mark_open_twice w (mark_open q true is_open) unused')
    ∙ mark_open_twice q is_open unused

-- The descriptors that the kernel gives are not negative, not open, and different.
abbrev pub AreNew : (ℤ → Bool) → Option ℤ → Option ℤ → Type 0
AreNew is_open none wake = Unit
AreNew is_open (some q) none = (is_negative q ≡ false) × (is_open q ≡ false)
AreNew is_open (some q) (some w) =
    (is_negative q ≡ false)
    × (is_negative w ≡ false)
    × (is_open q ≡ false)
    × (mark_open q true is_open w ≡ false)

-- A poller that failed to open has left nothing open, and one that opened closes what it opened.
abbrev pub Balanced : (ℤ → Bool) → Bool × Epoll → Type 0
Balanced is_open (false, p) = (is_negative p.poller_fd ≡ true) × (p.is_open ≡ is_open)
Balanced is_open (true, p) = (croutine_poller_deinit p).is_open ≡ is_open

create_epoll-Balanced :
    (queue wake : Option ℤ) (added : Bool) (p : Epoll)
    → AreNew p.is_open queue wake
    → Balanced p.is_open (create_epoll queue wake added p)
unfolding create_epoll add_wake croutine_poller_deinit
create_epoll-Balanced none wake added p new = (refl, refl)
create_epoll-Balanced (some q) none added p (_, unused) = (refl, mark_open_twice q p.is_open unused)
create_epoll-Balanced (some q) (some w) false p (_, _, unused, unused') =
    (refl, mark_open_both q w p.is_open unused unused')
create_epoll-Balanced (some q) (some w) true p (from, from', unused, unused') =
    rw (from, from') (mark_open_both q w p.is_open unused unused')

-- For an epoll poller that is not open, and when the descriptors that the kernel gives are not
-- negative, not open and different: if `croutine_poller_init` fails, the poller is still not open
-- and the open descriptors of the process are those of before; if it succeeds, they are those of
-- before once `croutine_poller_deinit` has run.
pub croutine_poller_init-Balanced :
    (queue wake : Option ℤ) (added : Bool) (p : Epoll)
    → is_negative p.poller_fd ≡ true
    → AreNew p.is_open queue wake
    → Balanced p.is_open (croutine_poller_init queue wake added p)
unfolding croutine_poller_init
croutine_poller_init-Balanced queue wake added p closed new =
    subst (λ b. Balanced p.is_open (if not b then (true, p) else create_epoll queue wake added p))
      (sym closed) (create_epoll-Balanced queue wake added p new)
