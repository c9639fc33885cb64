-- ===== src/Reference/Words.antt =====
-- The arithmetic of krcm/core.py: `extended_gcd`, `modinv` and the two by two matrices. A sequence
-- of four integers is a Matrix.
pub mod Inverse
pub mod Agree
use mathlib.Core.WellFounded.{Acc}
use native.Mathlib.Nat.{div-add-mod}
use krcm_spn.Base.{arith, suc, zero, ℕ, ◌!=◌, ◌%◌, ◌*◌, ◌+◌, ◌-◌, ◌/◌, ◌<◌, ◌^◌}
use krcm_spn.Matrix.{Matrix, u64}
use krcm_spn.Reference.{Attempt, bad_value, done, raise_if, ◌>>=◌, ◌>>◌}
use krcm_spn.Reference.Int.{pos, ℤ, ◌%ℤ◌, ◌*ℤ◌, ◌-ℤ◌}

-- The new remainder is smaller.
pub remainder-lt : (n k : ℕ) → n - n / suc k * suc k < suc k
remainder-lt n k = omega (arith, div-add-mod n (suc k))

-- The loop, for remainders that are not below zero.
unfoldable pub extended_loop : (old_r r : ℕ) → ℤ → ℤ → ℤ → ℤ → Acc ◌<◌ r → ℕ × (ℤ × ℤ)
extended_loop old_r r old_s s old_t t (Acc.intro zero _) = (old_r, (old_s, old_t))
extended_loop old_r r old_s s old_t t (Acc.intro (suc k) smaller) =
    let q = old_r / suc k in
    extended_loop (suc k) (old_r - q * suc k) s (old_s -ℤ pos q *ℤ s) t (old_t -ℤ pos q *ℤ t)
      (smaller (old_r - q * suc k) (remainder-lt old_r k))

pub acc_below : (k n : ℕ) → n < k → Acc ◌<◌ n
acc_below zero n h = absurd (omega arith)
acc_below (suc k) n h = Acc.intro n λ m below. acc_below k m (omega arith)

unfoldable pub extended_gcd : ℕ → ℕ → ℕ × (ℤ × ℤ)
unfolding acc_below
extended_gcd a b =
    extended_loop a b (pos 1) (pos 0) (pos 0) (pos 1) (acc_below (suc b) b (omega arith))

unfoldable pub modinv : ℕ → ℕ → Attempt ℕ
modinv a modulus = do
  let (d, (x, _)) = extended_gcd (a % modulus) modulus
  raise_if (d != 1) bad_value
  done (x %ℤ modulus)

unfoldable pub matrix_det_py : Matrix → ℕ
matrix_det_py m = (pos (u64 m.m0 * u64 m.m3) -ℤ pos (u64 m.m1 * u64 m.m2)) %ℤ 2 ^ 64

unfoldable pub matrix_mul_py : Matrix → Matrix → Matrix
matrix_mul_py l r = record {
  m0 = (u64 l.m0 * u64 r.m0 + u64 l.m1 * u64 r.m2) % 2 ^ 64;
  m1 = (u64 l.m0 * u64 r.m1 + u64 l.m1 * u64 r.m3) % 2 ^ 64;
  m2 = (u64 l.m2 * u64 r.m0 + u64 l.m3 * u64 r.m2) % 2 ^ 64;
  m3 = (u64 l.m2 * u64 r.m1 + u64 l.m3 * u64 r.m3) % 2 ^ 64;
}

unfoldable pub matrix_inv_py : Matrix → Attempt Matrix
matrix_inv_py m = do
  let a = u64 m.m0
  let b = u64 m.m1
  let c = u64 m.m2
  let d = u64 m.m3
  inv_det ← modinv (matrix_det_py (record { m0 = a; m1 = b; m2 = c; m3 = d })) (2 ^ 64)
  done (record {
    m0 = (d * inv_det) % 2 ^ 64;
    m1 = ((pos 0 -ℤ pos b) *ℤ pos inv_det) %ℤ 2 ^ 64;
    m2 = ((pos 0 -ℤ pos c) *ℤ pos inv_det) %ℤ 2 ^ 64;
    m3 = (a * inv_det) % 2 ^ 64;
  })
