-- ===== src/Reference/Words/Agree.antt =====
-- The arithmetic of krcm/core.py and that of crates/krcm-core/src/block.rs agree.
use native.Mathlib.Nat.{mod-eq_of_lt, mod-mod}
use krcm_spn.Base.{
  Congruent, Congruent-add, Congruent-mul, Congruent-mul_zero, ap, arith, refl, residue_laws, ℕ,
  ◌%◌, ◌*◌, ◌+◌, ◌<◌, ◌^◌, ◌∙◌, ◌≡◌,
}
use krcm_spn.Matrix.{
  Matrix, matrix_det, matrix_inv, matrix_mul, modinv_odd_u64, u64, wrapping_add, wrapping_mul,
  wrapping_sub,
}
use krcm_spn.Matrix.Laws.{IsOddDiagonal, IsWords, Matrix_ext, matrix_det_odd, minus_opposite}
use krcm_spn.Reference.{done}
use krcm_spn.Reference.Int.{
  mul_parts_right, neg_part, pos, pos_part, sub_parts, word-lt, word_lem, ◌%ℤ◌, ◌*ℤ◌, ◌-ℤ◌,
}
use krcm_spn.Reference.Words.{matrix_det_py, matrix_inv_py, matrix_mul_py, modinv}
use krcm_spn.Reference.Words.Inverse.{modinv-modinv_odd_u64}

-- `(p - q) % 2 ** 64` by wrapping words.
difference_word : (p q : ℕ) → (pos p -ℤ pos q) %ℤ 2 ^ 64 ≡ wrapping_sub (u64 p) (u64 q)
unfolding wrapping_sub
difference_word p q =
    let z = pos p -ℤ pos q in omega (arith, sub_parts (pos p) (pos q), word_lem z, word-lt z)

-- `(-b * i) % 2 ** 64` by wrapping words.
opposite_word :
    (b i : ℕ)
    → b < 2 ^ 64
    → ((pos 0 -ℤ pos b) *ℤ pos i) %ℤ 2 ^ 64 ≡ wrapping_mul (wrapping_sub 0 b) i
unfolding wrapping_mul
opposite_word b i h =
    let z = pos 0 -ℤ pos b in
    let scaled : Congruent (2 ^ 64) ((wrapping_sub 0 b + b) * i) 0 =
      Congruent-mul_zero (2 ^ 64) (wrapping_sub 0 b + b) i (minus_opposite b h) in
    let product : pos_part (z *ℤ pos i) + (pos_part z + b) * i
        ≡ neg_part (z *ℤ pos i) + pos_part z * i =
      ap (λ (t : ℕ). pos_part (z *ℤ pos i) + t * i) {x = pos_part z + b} {y = neg_part z}
        (omega (arith, sub_parts (pos 0) (pos b)))
      ∙ mul_parts_right z i in
    omega (arith, scaled, product, word_lem (z *ℤ pos i), word-lt (z *ℤ pos i))

pub matrix_det_py-matrix_det : (m : Matrix) → IsWords m → matrix_det_py m ≡ matrix_det m
unfolding matrix_det_py matrix_det wrapping_mul
matrix_det_py-matrix_det m h =
    rw
      (
        mod-eq_of_lt (h.w0),
        mod-eq_of_lt (h.w1),
        mod-eq_of_lt (h.w2),
        mod-eq_of_lt (h.w3),
        difference_word (m.m0 * m.m3) (m.m1 * m.m2),
      )
      refl

matrix_det-lt : (m : Matrix) → matrix_det m < 2 ^ 64
unfolding matrix_det wrapping_sub
matrix_det-lt m = omega arith

entry_word :
    (p q r s : ℕ)
    → (p % 2 ^ 64 * (q % 2 ^ 64) + r % 2 ^ 64 * (s % 2 ^ 64)) % 2 ^ 64
      ≡ wrapping_add (wrapping_mul p q) (wrapping_mul r s)
unfolding wrapping_add wrapping_mul
entry_word p q r s = simp residue_laws (
    Congruent-add (2 ^ 64) (p % 2 ^ 64 * (q % 2 ^ 64)) (p * q) (r % 2 ^ 64 * (s % 2 ^ 64)) (r * s)
      (Congruent-mul (2 ^ 64) (p % 2 ^ 64) p (q % 2 ^ 64) q (mod-mod p (2 ^ 64))
        (mod-mod q (2 ^ 64)))
      (Congruent-mul (2 ^ 64) (r % 2 ^ 64) r (s % 2 ^ 64) s (mod-mod r (2 ^ 64))
        (mod-mod s (2 ^ 64))))

pub matrix_mul_py-matrix_mul : (l r : Matrix) → matrix_mul_py l r ≡ matrix_mul l r
unfolding matrix_mul_py matrix_mul
matrix_mul_py-matrix_mul l r =
    Matrix_ext _ _ (entry_word l.m0 r.m0 l.m1 r.m2) (entry_word l.m0 r.m1 l.m1 r.m3)
      (entry_word l.m2 r.m0 l.m3 r.m2) (entry_word l.m2 r.m1 l.m3 r.m3)

-- For a matrix of words with odd entries on the diagonal and even ones off it, the reference's
-- inverse exists and is the one of wrapping words.
pub matrix_inv_py-matrix_inv :
    (m : Matrix) → IsWords m → IsOddDiagonal m → matrix_inv_py m ≡ done (matrix_inv m)
unfolding matrix_inv_py matrix_inv wrapping_mul
matrix_inv_py-matrix_inv m h shape =
    let i = modinv_odd_u64 (matrix_det m) in
    let inverse : modinv (matrix_det_py m) (2 ^ 64) ≡ done i =
      ap (λ (t : ℕ). modinv t (2 ^ 64)) (matrix_det_py-matrix_det m h)
      ∙ modinv-modinv_odd_u64 (matrix_det m) (matrix_det-lt m) (matrix_det_odd m shape) in
    rw (mod-eq_of_lt (h.w0), mod-eq_of_lt (h.w1), mod-eq_of_lt (h.w2), mod-eq_of_lt (h.w3), inverse)
      (ap done
        (Matrix_ext _ _ refl (opposite_word m.m1 i (h.w1)) (opposite_word m.m2 i (h.w2)) refl))
