-- ===== src/Ring.antt =====
-- Ring arithmetic shared by the run queue (src/task.c) and a channel's buffer (src/channel.c):
-- the window of `n` slots that starts at slot `h` and goes round at `cap`.
use native.Mathlib.Nat.{mod-eq_of_lt, mod-eq-sub-mod, mod-add-mod, add-zero}
use native.Mathlib.Decide.{dec_lt}
use mathlib.Core.Path.{ap₂}
use croutine.Prelude.{
  ℕ, zero, suc, ◌+◌, ◌-◌, ◌%◌, ◌≤◌, ◌<◌, ◌≡◌, ◌≢◌, refl, ap, ◌∙◌, List, [], ◌∷◌, ◌++◌, arith,
  length,
}

module _ {ℓ} {A : Type ℓ} where
  -- `slot i` is what slot `i` holds.
  abbrev pub window : (ℕ → A) → ℕ → ℕ → ℕ → List A
  window slot cap h zero = []
  window slot cap h (suc n) = slot h ∷ window slot cap ((h + 1) % cap) n

  pub length-window : (slot : ℕ → A) (cap h n : ℕ) → length (window slot cap h n) ≡ n
  length-window slot cap h zero = refl
  length-window slot cap h (suc n) = ap suc (length-window slot cap ((h + 1) % cap) n)

  -- The oldest value of a window that is not empty, and the rest.
  pub window-head :
      (slot : ℕ → A) (cap h n : ℕ)
      → 0 < n
      → window slot cap h n ≡ slot h ∷ window slot cap ((h + 1) % cap) (n - 1)
  window-head slot cap h zero p = absurd (omega arith)
  window-head slot cap h (suc n) p =
      ap (λ k. slot h ∷ window slot cap ((h + 1) % cap) k) (omega arith)

  pub window-nil : (slot : ℕ → A) (cap h n : ℕ) → n ≡ 0 → window slot cap h n ≡ []
  window-nil slot cap h n e = rw e

-- Fewer than `cap` steps from a slot do not lead back to it.
step-ne : (cap h k : ℕ) → h < cap → suc k < cap → h ≢ (h + suc k) % cap
step-ne cap h k inside few =
    let far = h + suc k in
    elim (dec_lt far cap) [
      | no wraps ↦
          let back : far % cap ≡ (far - cap) % cap = mod-eq-sub-mod (omega arith) in
          let rest : (far - cap) % cap ≡ far - cap = mod-eq_of_lt (omega arith) in omega arith
      | yes before ↦ omega (mod-eq_of_lt before, arith)
    ]

module _ {ℓ} {A : Type ℓ} where
  -- Two memories that agree below `cap` have the same windows.
  pub window-cong :
      (slot slot' : ℕ → A) (cap h n : ℕ)
      → h < cap
      → ((j : ℕ) → j < cap → slot' j ≡ slot j)
      → window slot' cap h n ≡ window slot cap h n
  window-cong slot slot' cap h zero hh same = refl
  window-cong slot slot' cap h (suc n) hh same =
      ap₂ ◌∷◌ (same h hh) (window-cong slot slot' cap ((h + 1) % cap) n (omega arith) same)

  -- A write at the slot behind a window that is not full extends the window by that value.
  pub window-write :
      (slot slot' : ℕ → A) (x : A) (cap n h i : ℕ)
      → h < cap
      → n < cap
      → i ≡ (h + n) % cap
      → slot' i ≡ x
      → ((j : ℕ) → j < cap → j ≢ i → slot' j ≡ slot j)
      → window slot' cap h (suc n) ≡ window slot cap h n ++ x ∷ []
  window-write slot slot' x cap zero h i hh hn e hit miss =
      let at : i ≡ h = rw (e, add-zero) (mod-eq_of_lt hh) in rw (← at, hit)
  window-write slot slot' x cap (suc n) h i hh hn e hit miss =
      let round : i ≡ ((h + 1) % cap + n) % cap =
        e ∙ (rw mod-add-mod (ap (λ k. k % cap) (omega arith))) in
      ap₂ ◌∷◌ (miss h hh (rw e (step-ne cap h n hh hn))) (
        window-write slot slot' x cap n ((h + 1) % cap) i (omega arith) (omega arith) round hit
          miss)

  -- A window that is copied to the front of a larger memory is the same window.
  pub window-move :
      (slot slot' : ℕ → A) (cap cap' h j n : ℕ)
      → j + n ≤ cap'
      → ((i : ℕ) → i < j + n → slot' i ≡ slot ((h + i) % cap))
      → window slot' cap' j n ≡ window slot cap ((h + j) % cap) n
  window-move slot slot' cap cap' h j zero fits same = refl
  window-move slot slot' cap cap' h j (suc zero) fits same = ap (λ a. a ∷ []) (same j (omega arith))
  window-move slot slot' cap cap' h j (suc (suc n)) fits same =
      let next : (j + 1) % cap' ≡ j + 1 = mod-eq_of_lt (omega arith) in
      let round : ((h + j) % cap + 1) % cap ≡ (h + (j + 1)) % cap =
        rw mod-add-mod (ap (λ k. k % cap) (omega arith)) in
      rw (next, round)
        (ap₂ ◌∷◌ (same j (omega arith)) (
          window-move slot slot' cap cap' h (j + 1) (suc n) (omega arith)
            (λ i hi. same i (omega arith))))
