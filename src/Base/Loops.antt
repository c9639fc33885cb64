-- ===== src/Base/Loops.antt =====
-- Counted loops over a state, and when one undoes another.
use Prim.Native.Nat.{ℕ, zero, suc, ◌+◌, ◌<◌}
use mathlib.Core.Path.{◌≡◌, refl, ap, ◌∙◌}
use native.Mathlib.Omega.{arith}

module _ {ℓ} {S : Type ℓ} where
  -- `for i in lo..lo + n { s = f(i, s) }`
  unfoldable pub loop_up : (ℕ → S → S) → ℕ → ℕ → S → S
  loop_up f lo zero s = s
  loop_up f lo (suc n) s = f (lo + n) (loop_up f lo n s)

  -- `for i in (lo..lo + n).rev() { s = f(i, s) }`
  unfoldable pub loop_down : (ℕ → S → S) → ℕ → ℕ → S → S
  loop_down f lo zero s = s
  loop_down f lo (suc n) s = loop_down f lo n (f (lo + n) s)

module _ {ℓ κ} {S : Type ℓ} (P : S → Type κ) (f : ℕ → S → S) where
  pub loop_up_inv :
      (lo n : ℕ) (s : S)
      → ((i : ℕ) (t : S) → i < n → P t → P (f (lo + i) t))
      → P s
      → P (loop_up f lo n s)
  unfolding loop_up
  loop_up_inv lo zero s keep h = h
  loop_up_inv lo (suc n) s keep h =
      keep n _ (omega arith) (loop_up_inv lo n s (λ i t k. keep i t (omega arith)) h)

  pub loop_down_inv :
      (lo n : ℕ) (s : S)
      → ((i : ℕ) (t : S) → i < n → P t → P (f (lo + i) t))
      → P s
      → P (loop_down f lo n s)
  unfolding loop_down
  loop_down_inv lo zero s keep h = h
  loop_down_inv lo (suc n) s keep h =
      loop_down_inv lo n _ (λ i t k. keep i t (omega arith)) (keep n s (omega arith) h)

-- If `g i` undoes `f i` on good states, a loop of the `g i` in the other order undoes the loop of the `f i`.
module _ {ℓ κ} {S : Type ℓ} (P : S → Type κ) (f g : ℕ → S → S) where
  pub loop_down-loop_up :
      (lo n : ℕ) (s : S)
      → ((i : ℕ) (t : S) → i < n → P t → P (f (lo + i) t))
      → ((i : ℕ) (t : S) → i < n → P t → g (lo + i) (f (lo + i) t) ≡ t)
      → P s
      → loop_down g lo n (loop_up f lo n s) ≡ s
  unfolding loop_up loop_down
  loop_down-loop_up lo zero s keep undo h = refl
  loop_down-loop_up lo (suc n) s keep undo h =
      ap (loop_down g lo n)
        (undo n _ (omega arith) (loop_up_inv P f lo n s (λ i t k. keep i t (omega arith)) h))
      ∙ loop_down-loop_up lo n s (λ i t k. keep i t (omega arith)) (λ i t k. undo i t (omega arith))
          h

  pub loop_up-loop_down :
      (lo n : ℕ) (s : S)
      → ((i : ℕ) (t : S) → i < n → P t → P (f (lo + i) t))
      → ((i : ℕ) (t : S) → i < n → P t → g (lo + i) (f (lo + i) t) ≡ t)
      → P s
      → loop_up g lo n (loop_down f lo n s) ≡ s
  unfolding loop_up loop_down
  loop_up-loop_down lo zero s keep undo h = refl
  loop_up-loop_down lo (suc n) s keep undo h =
      ap (g (lo + n)) (
        loop_up-loop_down lo n (f (lo + n) s) (λ i t k. keep i t (omega arith))
          (λ i t k. undo i t (omega arith)) (keep n s (omega arith) h))
      ∙ undo n s (omega arith) h

-- Loops whose bodies do the same on good states.
module _ {ℓ κ} {S : Type ℓ} (P : S → Type κ) (f g : ℕ → S → S) where
  pub loop_up_cong :
      (lo n : ℕ) (s : S)
      → ((i : ℕ) (t : S) → i < n → P t → P (g (lo + i) t))
      → ((i : ℕ) (t : S) → i < n → P t → f (lo + i) t ≡ g (lo + i) t)
      → P s
      → loop_up f lo n s ≡ loop_up g lo n s
  unfolding loop_up
  loop_up_cong lo zero s keep same h = refl
  loop_up_cong lo (suc n) s keep same h =
      ap (f (lo + n))
        (loop_up_cong lo n s (λ i t k. keep i t (omega arith)) (λ i t k. same i t (omega arith)) h)
      ∙ same n _ (omega arith) (loop_up_inv P g lo n s (λ i t k. keep i t (omega arith)) h)

  pub loop_down_cong :
      (lo n : ℕ) (s : S)
      → ((i : ℕ) (t : S) → i < n → P t → P (g (lo + i) t))
      → ((i : ℕ) (t : S) → i < n → P t → f (lo + i) t ≡ g (lo + i) t)
      → P s
      → loop_down f lo n s ≡ loop_down g lo n s
  unfolding loop_down
  loop_down_cong lo zero s keep same h = refl
  loop_down_cong lo (suc n) s keep same h =
      ap (loop_down f lo n) (same n s (omega arith) h)
      ∙ loop_down_cong lo n (g (lo + n) s) (λ i t k. keep i t (omega arith))
          (λ i t k. same i t (omega arith)) (keep n s (omega arith) h)
