-- ===== src/Matrix/Laws.antt =====
-- `matrix_mul` and `matrix_inv` of crates/krcm-core/src/block.rs: ring laws and inverses.
use krcm_spn.Base.{
  Congruent, Congruent-add, Congruent-mul, Congruent-mul_zero, ap, arith, refl, residue_laws, sym,
  ℕ, ◌%◌, ◌*◌, ◌+◌, ◌<◌, ◌^◌, ◌∙◌, ◌≡◌,
}
use krcm_spn.Matrix.{
  Matrix, matrix_det, matrix_inv, matrix_mul, modinv_odd_u64, wrapping_add, wrapping_mul,
  wrapping_sub,
}
use krcm_spn.Matrix.Inverse.{modinv_odd_u64_lem}

-- Every entry is a word.
pub record IsWords (m : Matrix) : Type 0 where
  pub w0 : m.m0 < 2 ^ 64
  pub w1 : m.m1 < 2 ^ 64
  pub w2 : m.m2 < 2 ^ 64
  pub w3 : m.m3 < 2 ^ 64

abbrev pub identity_matrix : Matrix
identity_matrix = record { m0 = 1; m1 = 0; m2 = 0; m3 = 1 }

-- One entry of a product.
abbrev entry : ℕ → ℕ → ℕ → ℕ → ℕ
entry p q r s = wrapping_add (wrapping_mul p q) (wrapping_mul r s)

entry_lem : (p q r s : ℕ) → entry p q r s ≡ (p * q + r * s) % 2 ^ 64
unfolding wrapping_add wrapping_mul
entry_lem p q r s = simp residue_laws

entry_assoc :
    (a0 a1 b0 b1 b2 b3 c0 c2 : ℕ)
    → entry a0 (entry b0 c0 b1 c2) a1 (entry b2 c0 b3 c2)
      ≡ entry (entry a0 b0 a1 b2) c0 (entry a0 b1 a1 b3) c2
unfolding wrapping_add wrapping_mul
entry_assoc a0 a1 b0 b1 b2 b3 c0 c2 = simp residue_laws (
    ap (λ (t : ℕ). t % 2 ^ 64) {x = a0 * (b0 * c0 + b1 * c2) + a1 * (b2 * c0 + b3 * c2)}
      {y = (a0 * b0 + a1 * b2) * c0 + (a0 * b1 + a1 * b3) * c2} (omega arith))

pub Matrix_ext : (a b : Matrix) → a.m0 ≡ b.m0 → a.m1 ≡ b.m1 → a.m2 ≡ b.m2 → a.m3 ≡ b.m3 → a ≡ b
Matrix_ext a b e0 e1 e2 e3 = λ i. record { m0 = e0 i; m1 = e1 i; m2 = e2 i; m3 = e3 i }

-- Multiplication of matrices of wrapping words is associative.
pub matrix_mul_assoc :
    (a b c : Matrix) → matrix_mul a (matrix_mul b c) ≡ matrix_mul (matrix_mul a b) c
unfolding matrix_mul
matrix_mul_assoc a b c =
    Matrix_ext _ _ (entry_assoc a.m0 a.m1 b.m0 b.m1 b.m2 b.m3 c.m0 c.m2)
      (entry_assoc a.m0 a.m1 b.m0 b.m1 b.m2 b.m3 c.m1 c.m3)
      (entry_assoc a.m2 a.m3 b.m0 b.m1 b.m2 b.m3 c.m0 c.m2)
      (entry_assoc a.m2 a.m3 b.m0 b.m1 b.m2 b.m3 c.m1 c.m3)

pub matrix_mul-IsWords : (a b : Matrix) → IsWords (matrix_mul a b)
unfolding matrix_mul
matrix_mul-IsWords a b = omega arith

pub identity-matrix_mul : (a : Matrix) → IsWords a → matrix_mul identity_matrix a ≡ a
unfolding matrix_mul wrapping_add wrapping_mul
identity-matrix_mul a h = Matrix_ext _ _ (omega arith) (omega arith) (omega arith) (omega arith)

pub matrix_mul-identity : (a : Matrix) → IsWords a → matrix_mul a identity_matrix ≡ a
unfolding matrix_mul wrapping_add wrapping_mul
matrix_mul-identity a h = Matrix_ext _ _ (omega arith) (omega arith) (omega arith) (omega arith)

-- Odd on the diagonal and even off it, as `matrix_from_seed` makes them.
pub record IsOddDiagonal (m : Matrix) : Type 0 where
  pub odd0 : m.m0 % 2 ≡ 1
  pub even1 : m.m1 % 2 ≡ 0
  pub even2 : m.m2 % 2 ≡ 0
  pub odd3 : m.m3 % 2 ≡ 1

odd_product : (a b : ℕ) → a % 2 ≡ 1 → b % 2 ≡ 1 → a * b % 2 ≡ 1
odd_product a b h k = Congruent-mul 2 a 1 b 1 h k

even_product : (a b : ℕ) → a % 2 ≡ 0 → a * b % 2 ≡ 0
even_product a b h = Congruent-mul_zero 2 a b h

pub matrix_det_odd : (m : Matrix) → IsOddDiagonal m → matrix_det m % 2 ≡ 1
unfolding matrix_det wrapping_mul wrapping_sub
matrix_det_odd m h =
    omega (arith, odd_product m.m0 m.m3 h.odd0 h.odd3, even_product m.m1 m.m2 h.even1)

-- The facts about `i`, the inverse of the determinant `det` of [a b; c d], and `n`, minus `b`.
module _ (a b c d i det n : ℕ) (split : Congruent (2 ^ 64) (det + b * c) (a * d))
    (unit : Congruent (2 ^ 64) (det * i) 1) (opposite : Congruent (2 ^ 64) (n + b) 0) where
  unit_entry : Congruent (2 ^ 64) (i * (a * d) + n * (i * c)) 1
  unit_entry =
      Congruent-add (2 ^ 64) (i * (a * d)) (i * (det + b * c)) _ (n * (i * c))
        (Congruent-mul (2 ^ 64) i i (a * d) (det + b * c) refl (sym split)) refl
      ∙ ap (λ (t : ℕ). t % 2 ^ 64) {x = i * (det + b * c) + n * (i * c)}
          {y = det * i + (n + b) * (i * c)} (omega arith)
      ∙ Congruent-add (2 ^ 64) (det * i) 1 ((n + b) * (i * c)) 0 unit
          (Congruent-mul_zero (2 ^ 64) (n + b) (i * c) opposite)

zero_entry :
    (b i x n : ℕ) → Congruent (2 ^ 64) (n + b) 0 → Congruent (2 ^ 64) (i * x * b + n * (i * x)) 0
zero_entry b i x n opposite =
    ap (λ (t : ℕ). t % 2 ^ 64) {x = i * x * b + n * (i * x)} {y = (n + b) * (i * x)} (omega arith)
    ∙ Congruent-mul_zero (2 ^ 64) (n + b) (i * x) opposite

-- An entry of a product with the inverse, its wraps gathered into one.
left_entry :
    (p i q r s : ℕ)
    → entry (wrapping_mul p i) q (wrapping_mul r i) s ≡ (p * i * q + r * i * s) % 2 ^ 64
unfolding wrapping_add wrapping_mul
left_entry p i q r s = simp residue_laws

right_entry :
    (p q r s i : ℕ)
    → entry p (wrapping_mul q i) r (wrapping_mul s i) ≡ (p * (q * i) + r * (s * i)) % 2 ^ 64
unfolding wrapping_add wrapping_mul
right_entry p q r s i = simp residue_laws

entry_value : {l p q v : ℕ} → l ≡ p % 2 ^ 64 → q % 2 ^ 64 ≡ v → p ≡ q → l ≡ v
entry_value el ev e = el ∙ ap (λ (t : ℕ). t % 2 ^ 64) e ∙ ev

by_value : {p q v : ℕ} → q % 2 ^ 64 ≡ v → p ≡ q → p % 2 ^ 64 ≡ v
by_value ev e = ap (λ (t : ℕ). t % 2 ^ 64) e ∙ ev

det_split : (m : Matrix) → Congruent (2 ^ 64) (matrix_det m + m.m1 * m.m2) (m.m0 * m.m3)
unfolding matrix_det wrapping_mul wrapping_sub
det_split m = omega arith

pub minus_opposite : (b : ℕ) → b < 2 ^ 64 → Congruent (2 ^ 64) (wrapping_sub 0 b + b) 0
unfolding wrapping_sub
minus_opposite b h = omega arith

module _ (m : Matrix) (words : IsWords m) (shape : IsOddDiagonal m) where
  abbrev det : ℕ
  det = matrix_det m

  abbrev inverse : ℕ
  inverse = modinv_odd_u64 det

  abbrev n1 : ℕ
  n1 = wrapping_sub 0 m.m1

  abbrev n2 : ℕ
  n2 = wrapping_sub 0 m.m2

  unit_det : Congruent (2 ^ 64) (det * inverse) 1
  unfolding wrapping_mul
  unit_det = modinv_odd_u64_lem det (matrix_det_odd m shape)

  -- `i * (a * d) + n * (i * c)` for the two diagonal entries, with the columns either way round.
  unit1 : Congruent (2 ^ 64) (inverse * (m.m0 * m.m3) + n1 * (inverse * m.m2)) 1
  unit1 =
      unit_entry m.m0 m.m1 m.m2 m.m3 inverse det n1 (det_split m) unit_det
        (minus_opposite m.m1 words.w1)

  unit2 : Congruent (2 ^ 64) (inverse * (m.m0 * m.m3) + n2 * (inverse * m.m1)) 1
  unit2 =
      unit_entry m.m0 m.m2 m.m1 m.m3 inverse det n2 (by_value (det_split m) (omega arith)) unit_det
        (minus_opposite m.m2 words.w2)

  zero1 : (x : ℕ) → Congruent (2 ^ 64) (inverse * x * m.m1 + n1 * (inverse * x)) 0
  zero1 x = zero_entry m.m1 inverse x n1 (minus_opposite m.m1 words.w1)

  zero2 : (x : ℕ) → Congruent (2 ^ 64) (inverse * x * m.m2 + n2 * (inverse * x)) 0
  zero2 x = zero_entry m.m2 inverse x n2 (minus_opposite m.m2 words.w2)

  -- `matrix_inv m` is a left inverse.
  pub matrix_inv-matrix_mul : matrix_mul (matrix_inv m) m ≡ identity_matrix
  unfolding matrix_mul matrix_inv
  matrix_inv-matrix_mul =
      Matrix_ext _ _ (entry_value (left_entry m.m3 inverse m.m0 n1 m.m2) unit1 (omega arith))
        (entry_value (left_entry m.m3 inverse m.m1 n1 m.m3) (zero1 m.m3) (omega arith))
        (entry_value (left_entry n2 inverse m.m0 m.m0 m.m2) (zero2 m.m0) (omega arith))
        (entry_value (left_entry n2 inverse m.m1 m.m0 m.m3) unit2 (omega arith))

  -- `matrix_inv m` is a right inverse.
  pub matrix_mul-matrix_inv : matrix_mul m (matrix_inv m) ≡ identity_matrix
  unfolding matrix_mul matrix_inv
  matrix_mul-matrix_inv =
      Matrix_ext _ _ (entry_value (right_entry m.m0 m.m3 m.m1 n2 inverse) unit2 (omega arith))
        (entry_value (right_entry m.m0 n1 m.m1 m.m0 inverse) (zero1 m.m0) (omega arith))
        (entry_value (right_entry m.m2 m.m3 m.m3 n2 inverse) (zero2 m.m3) (omega arith))
        (entry_value (right_entry m.m2 n1 m.m3 m.m0 inverse) unit1 (omega arith))

-- For matrices of words with odd entries on the diagonal and even ones off it, decryption's two
-- multiplications by the inverses take encryption's two multiplications back.
pub unmix_mix :
    (left right words : Matrix)
    → IsWords left
    → IsWords right
    → IsWords words
    → IsOddDiagonal left
    → IsOddDiagonal right
    → matrix_mul
        (matrix_inv left)
        (matrix_mul (matrix_mul left (matrix_mul words right)) (matrix_inv right))
      ≡ words
unmix_mix left right words hl hr hw ol or =
    ap (matrix_mul (matrix_inv left)) (
      sym (matrix_mul_assoc left (matrix_mul words right) (matrix_inv right))
      ∙ ap (matrix_mul left) (
          sym (matrix_mul_assoc words right (matrix_inv right))
          ∙ ap (matrix_mul words) (matrix_mul-matrix_inv right hr or)
          ∙ matrix_mul-identity words hw))
    ∙ matrix_mul_assoc (matrix_inv left) left words
    ∙ ap (λ t. matrix_mul t words) (matrix_inv-matrix_mul left hl ol)
    ∙ identity-matrix_mul words hw
