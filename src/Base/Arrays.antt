-- ===== src/Base/Arrays.antt =====
-- Arrays written by index: `set`, the range `0..n`, and equality index by index.
use Prim.Native.Nat.{ℕ, zero, suc, ◌+◌, ◌<◌}
use mathlib.Core.Path.{◌≡◌, refl, ap, ap₂, ◌∙◌}
use mathlib.Core.Logic.{◌≢◌}
use mathlib.Core.List.{List, [], ◌∷◌}
use native.Mathlib.Omega.{arith}
use native.Mathlib.Nat.{add-zero}
use krcm_spn.Base.Lists.{length, get_or, All}

module _ {ℓ} {A : Type ℓ} where
  -- `xs[i] = v`; a write out of range changes nothing.
  abbrev pub set : List A → ℕ → A → List A
  set [] i v = []
  set (x ∷ xs) zero v = v ∷ xs
  set (x ∷ xs) (suc i) v = x ∷ set xs i v

  pub length-set : (xs : List A) (i : ℕ) (v : A) → length (set xs i v) ≡ length xs
  length-set [] i v = refl
  length-set (x ∷ xs) zero v = refl
  length-set (x ∷ xs) (suc i) v = ap suc (length-set xs i v)

  pub get_or-set_self :
      (xs : List A) (i : ℕ) (v d : A) → i < length xs → get_or (set xs i v) i d ≡ v
  get_or-set_self [] i v d h = elim h [ ]
  get_or-set_self (x ∷ xs) zero v d h = refl
  get_or-set_self (x ∷ xs) (suc i) v d h = get_or-set_self xs i v d (omega arith)

  pub get_or-set_ne :
      (xs : List A) (i j : ℕ) (v d : A) → i ≢ j → get_or (set xs i v) j d ≡ get_or xs j d
  get_or-set_ne [] i j v d ne = refl
  get_or-set_ne (x ∷ xs) zero zero v d ne = absurd (ne refl)
  get_or-set_ne (x ∷ xs) zero (suc j) v d ne = refl
  get_or-set_ne (x ∷ xs) (suc i) zero v d ne = refl
  get_or-set_ne (x ∷ xs) (suc i) (suc j) v d ne = get_or-set_ne xs i j v d (λ e. ne (ap suc e))

  -- Writing back what stands there changes nothing, whatever was written in between.
  pub set-set_same :
      (xs : List A) (i : ℕ) (v w d : A) → w ≡ get_or xs i d → set (set xs i v) i w ≡ xs
  set-set_same [] i v w d e = refl
  set-set_same (x ∷ xs) zero v w d e = rw e
  set-set_same (x ∷ xs) (suc i) v w d e = ap (λ t. x ∷ t) (set-set_same xs i v w d e)

  pub All-set {κ} :
      (P : A → Type κ) (xs : List A) (i : ℕ) (v : A) → P v → All P xs → All P (set xs i v)
  All-set P [] i v hv h = tt
  All-set P (x ∷ xs) zero v hv h = (hv, h.1)
  All-set P (x ∷ xs) (suc i) v hv h = (h.0, All-set P xs i v hv h.1)

  pub get_or_ext :
      (d : A) (xs ys : List A)
      → length xs ≡ length ys
      → ((i : ℕ) → i < length ys → get_or xs i d ≡ get_or ys i d)
      → xs ≡ ys
  get_or_ext d [] [] e h = refl
  get_or_ext d [] (y ∷ ys) e h = absurd (omega arith)
  get_or_ext d (x ∷ xs) [] e h = absurd (omega arith)
  get_or_ext d (x ∷ xs) (y ∷ ys) e h =
      ap₂ ◌∷◌ (h 0 (omega arith))
        (get_or_ext d xs ys (omega arith) (λ i k. h (suc i) (omega arith)))

-- `g start, g (start + 1), ...`, `n` entries: what a loop that fills a fresh array writes.
unfoldable pub tabulate {ℓ} : {A : Type ℓ} → (ℕ → A) → ℕ → ℕ → List A
tabulate g start zero = []
tabulate g start (suc n) = g start ∷ tabulate g (suc start) n

module _ {ℓ} {A : Type ℓ} (g : ℕ → A) where
  pub length-tabulate : (start n : ℕ) → length (tabulate g start n) ≡ n
  unfolding tabulate
  length-tabulate start zero = refl
  length-tabulate start (suc n) = ap suc (length-tabulate (suc start) n)

  pub get_or-tabulate :
      (start n i : ℕ) (d : A) → i < n → get_or (tabulate g start n) i d ≡ g (start + i)
  unfolding tabulate
  get_or-tabulate start zero i d h = elim h [ ]
  get_or-tabulate start (suc n) zero d h = ap g (omega arith)
  get_or-tabulate start (suc n) (suc i) d h =
      get_or-tabulate (suc start) n i d (omega arith) ∙ ap g (omega arith)

  pub All-tabulate {κ} :
      (P : A → Type κ) (start n : ℕ)
      → ((i : ℕ) → i < n → P (g (start + i)))
      → All P (tabulate g start n)
  unfolding tabulate
  All-tabulate P start zero h = tt
  All-tabulate P start (suc n) h = (
    rw (add-zero start) at (h 0 (omega arith)),
    All-tabulate P (suc start) n (λ i k. rw (suc_out start i) (h (suc i) (omega arith))),
  )
    where
      suc_out : (s i : ℕ) → suc s + i ≡ s + suc i
      suc_out s i = omega arith
