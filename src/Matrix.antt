-- ===== src/Matrix.antt =====
-- The word arithmetic of crates/krcm-core/src/block.rs: two by two matrices of u64, wrapping.
pub mod Inverse
pub mod Laws
use krcm_spn.Base.{loop_up, ℕ, ◌%◌, ◌*◌, ◌+◌, ◌-◌, ◌<◌, ◌^◌}

abbrev pub u64 : ℕ → ℕ
u64 n = n % 2 ^ 64

-- `[u64; 4]`, row by row.
pub record Matrix : Type 0 where
  pub m0 : ℕ
  pub m1 : ℕ
  pub m2 : ℕ
  pub m3 : ℕ

abbrev pub IsWord : ℕ → Type 0
IsWord n = n < 2 ^ 64

unfoldable pub wrapping_add : ℕ → ℕ → ℕ
wrapping_add a b = u64 (a + b)

unfoldable pub wrapping_mul : ℕ → ℕ → ℕ
wrapping_mul a b = u64 (a * b)

-- 2 ^ 64 is added first, since `-` stops at 0.
unfoldable pub wrapping_sub : ℕ → ℕ → ℕ
wrapping_sub a b = u64 (a + 2 ^ 64 - b)

unfoldable pub matrix_det : Matrix → ℕ
unfolding wrapping_mul wrapping_sub
matrix_det m = wrapping_sub (wrapping_mul m.m0 m.m3) (wrapping_mul m.m1 m.m2)

-- One round of the loop of `modinv_odd_u64`.
unfoldable pub newton : ℕ → ℕ → ℕ
unfolding wrapping_mul wrapping_sub
newton a x = wrapping_mul x (wrapping_sub 2 (wrapping_mul a x))

unfoldable pub modinv_odd_u64 : ℕ → ℕ
unfolding newton loop_up
modinv_odd_u64 a = loop_up (λ _ x. newton a x) 0 6 1

unfoldable pub matrix_inv : Matrix → Matrix
unfolding wrapping_mul wrapping_sub
matrix_inv m =
    let inv_det = modinv_odd_u64 (matrix_det m) in
    record {
      m0 = wrapping_mul m.m3 inv_det;
      m1 = wrapping_mul (wrapping_sub 0 m.m1) inv_det;
      m2 = wrapping_mul (wrapping_sub 0 m.m2) inv_det;
      m3 = wrapping_mul m.m0 inv_det;
    }

unfoldable pub matrix_mul : Matrix → Matrix → Matrix
unfolding wrapping_mul wrapping_add
matrix_mul l r = record {
  m0 = wrapping_add (wrapping_mul l.m0 r.m0) (wrapping_mul l.m1 r.m2);
  m1 = wrapping_add (wrapping_mul l.m0 r.m1) (wrapping_mul l.m1 r.m3);
  m2 = wrapping_add (wrapping_mul l.m2 r.m0) (wrapping_mul l.m3 r.m2);
  m3 = wrapping_add (wrapping_mul l.m2 r.m1) (wrapping_mul l.m3 r.m3);
}
