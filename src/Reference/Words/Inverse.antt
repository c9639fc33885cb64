-- ===== src/Reference/Words/Inverse.antt =====
-- `modinv` of krcm/core.py, by the extended Euclidean algorithm, and `modinv_odd_u64` of
-- crates/krcm-core/src/block.rs, by Newton's rounds.
use mathlib.Core.WellFounded.{Acc}
use Prim.Native.Nat.{◌∣◌}
use mathlib.Core.Path.{subst}
use native.Mathlib.Nat.{
  div-add-mod, dvd-mul_right_of_dvd, dvd-mul_left_of_dvd, dvd-add, dvd_refl, dvd-zero,
  dvd-add_iff_right, eq-one_of_dvd-one, mod-eq_of_lt,
}
use krcm_spn.Base.{
  Congruent, Congruent-mul, ap, arith, loop_up, refl, suc, sym, zero, ℕ, ◌%◌, ◌*◌, ◌+◌, ◌-◌, ◌/◌,
  ◌<◌, ◌^◌, ◌∙◌, ◌≡◌, ◌≤◌,
}
use krcm_spn.Matrix.{modinv_odd_u64, newton, wrapping_mul}
use krcm_spn.Matrix.Inverse.{modinv_odd_u64_lem}
use krcm_spn.Reference.{done}
use krcm_spn.Reference.Int.{
  mul_parts, neg_part, pos, pos_part, sub_parts, word-lt, word_lem, ℤ, ◌%ℤ◌, ◌*ℤ◌, ◌-ℤ◌,
}
use krcm_spn.Reference.Words.{extended_gcd, extended_loop, modinv, remainder-lt}

-- The coefficient of the next remainder.
step_coefficient :
    (q : ℕ) (u v : ℤ)
    → Congruent (2 ^ 64) ((u -ℤ pos q *ℤ v) %ℤ 2 ^ 64 + q * (v %ℤ 2 ^ 64)) (u %ℤ 2 ^ 64)
step_coefficient q u v =
    let w = pos q *ℤ v in
    let scaled : Congruent (2 ^ 64) (q * (v %ℤ 2 ^ 64 + neg_part v)) (q * pos_part v) =
      Congruent-mul (2 ^ 64) q q (v %ℤ 2 ^ 64 + neg_part v) (pos_part v) refl (word_lem v) in
    omega (arith, scaled, sub_parts u w, mul_parts q v, word_lem (u -ℤ w), word_lem u)

-- A coefficient of `n` over `a`.
abbrev Yields : ℕ → ℤ → ℕ → Type 0
Yields a s n = Congruent (2 ^ 64) ((s %ℤ 2 ^ 64) * a) n

step-Yields :
    (a n r q : ℕ) (u v : ℤ)
    → q * r ≤ n
    → Yields a u n
    → Yields a v r
    → Yields a (u -ℤ pos q *ℤ v) (n - q * r)
step-Yields a n r q u v small hu hv =
    let w = (u -ℤ pos q *ℤ v) %ℤ 2 ^ 64 in
    let x = v %ℤ 2 ^ 64 in
    let both : Congruent (2 ^ 64) ((w + q * x) * a) ((u %ℤ 2 ^ 64) * a) =
      Congruent-mul (2 ^ 64) (w + q * x) (u %ℤ 2 ^ 64) a a (step_coefficient q u v) refl in
    let scaled : Congruent (2 ^ 64) (q * (x * a)) (q * r) =
      Congruent-mul (2 ^ 64) q q (x * a) r refl hv in
    omega (arith, both, scaled, hu)

quotient-le : (n k : ℕ) → n / suc k * suc k ≤ n
quotient-le n k = omega (arith, div-add-mod n (suc k))

-- The result divides both remainders, and its coefficient is right.
extended_loop_lem :
    (a old_r r : ℕ) (old_s s old_t t : ℤ) (smaller : Acc ◌<◌ r)
    → Yields a old_s old_r
    → Yields a s r
    → let g = extended_loop old_r r old_s s old_t t smaller in
      Yields a g.1.0 g.0 × (g.0 ∣ old_r) × (g.0 ∣ r)
unfolding extended_loop
extended_loop_lem a old_r r old_s s old_t t (Acc.intro zero _) hu hv =
    (hu, dvd_refl old_r, dvd-zero old_r)
extended_loop_lem a old_r r old_s s old_t t (Acc.intro (suc k) smaller) hu hv =
    let q = old_r / suc k in
    let n = old_r - q * suc k in
    let whole : q * suc k + n ≡ old_r = omega (arith, quotient-le old_r k) in
    let g =
      (extended_loop (suc k) n s (old_s -ℤ pos q *ℤ s) t (old_t -ℤ pos q *ℤ t)
        (smaller n (remainder-lt old_r k))).0 in
    let (yields, of_r, of_n) =
      extended_loop_lem a (suc k) n s (old_s -ℤ pos q *ℤ s) t (old_t -ℤ pos q *ℤ t)
        (smaller n (remainder-lt old_r k)) hv
        (step-Yields a old_r (suc k) q old_s s (quotient-le old_r k) hu hv) in
    (yields, subst (λ (t : ℕ). g ∣ t) whole (dvd-add _ (dvd-mul_left_of_dvd _ of_r q) of_n), of_r)

-- The results of `extended_gcd` on an odd word and 2 ^ 64.
extended_gcd_lem :
    (a : ℕ) → let g = extended_gcd a (2 ^ 64) in Yields a g.1.0 g.0 × (g.0 ∣ a) × (g.0 ∣ 2 ^ 64)
unfolding extended_gcd ◌%ℤ◌
extended_gcd_lem a =
    extended_loop_lem a a (2 ^ 64) (pos 1) (pos 0) (pos 0) (pos 1) _ (omega arith) (omega arith)

-- A common divisor of an invertible number and the modulus.
divisor-one : (g a y : ℕ) → g ∣ a → g ∣ 2 ^ 64 → Congruent (2 ^ 64) (a * y) 1 → g ≡ 1
divisor-one g a y of_a of_modulus e =
    let whole : 2 ^ 64 * (a * y / 2 ^ 64) + 1 ≡ a * y =
      ap (λ (t : ℕ). 2 ^ 64 * (a * y / 2 ^ 64) + t) (sym e) ∙ div-add-mod (a * y) (2 ^ 64) in
    eq-one_of_dvd-one (
      (dvd-add_iff_right _ (dvd-mul_right_of_dvd _ of_modulus (a * y / 2 ^ 64))).1
        (subst (λ (t : ℕ). g ∣ t) (sym whole) (dvd-mul_right_of_dvd _ of_a y)))

-- Two inverses of one number agree.
inverse_unique :
    (a x y : ℕ)
    → x < 2 ^ 64
    → y < 2 ^ 64
    → Congruent (2 ^ 64) (x * a) 1
    → Congruent (2 ^ 64) (a * y) 1
    → x ≡ y
inverse_unique a x y hx hy ex ey =
    let one_side : Congruent (2 ^ 64) (x * (a * y)) (x * 1) =
      Congruent-mul (2 ^ 64) x x (a * y) 1 refl ey in
    let other_side : Congruent (2 ^ 64) (x * a * y) (1 * y) =
      Congruent-mul (2 ^ 64) (x * a) 1 y y ex refl in
    let same : Congruent (2 ^ 64) x y =
      ap (λ (t : ℕ). t % 2 ^ 64) {x = x} {y = x * 1} (omega arith)
      ∙ sym one_side
      ∙ ap (λ (t : ℕ). t % 2 ^ 64) {x = x * (a * y)} {y = x * a * y} (omega arith)
      ∙ other_side
      ∙ ap (λ (t : ℕ). t % 2 ^ 64) {x = 1 * y} {y = y} (omega arith) in
    sym (mod-eq_of_lt hx) ∙ same ∙ mod-eq_of_lt hy

modinv_odd_u64-lt : (a : ℕ) → modinv_odd_u64 a < 2 ^ 64
unfolding modinv_odd_u64 newton wrapping_mul loop_up
modinv_odd_u64-lt a = omega arith

-- For an odd word, `modinv` of krcm/core.py, by the extended Euclidean algorithm modulo 2 ^ 64,
-- succeeds and gives what six rounds of Newton's method give in `modinv_odd_u64`.
pub modinv-modinv_odd_u64 :
    (a : ℕ) → a < 2 ^ 64 → a % 2 ≡ 1 → modinv a (2 ^ 64) ≡ done (modinv_odd_u64 a)
unfolding modinv wrapping_mul
modinv-modinv_odd_u64 a small odd =
    let (yields, of_a, of_modulus) = extended_gcd_lem a in
    let y = modinv_odd_u64 a in
    let unit : Congruent (2 ^ 64) (a * y) 1 = modinv_odd_u64_lem a odd in
    let common : (extended_gcd a (2 ^ 64)).0 ≡ 1 =
      divisor-one (extended_gcd a (2 ^ 64)).0 a y of_a of_modulus unit in
    let x = (extended_gcd a (2 ^ 64)).1.0 in
    let same : x %ℤ 2 ^ 64 ≡ y =
      inverse_unique a (x %ℤ 2 ^ 64) y (word-lt x) (modinv_odd_u64-lt a)
        (yields ∙ ap (λ (t : ℕ). t % 2 ^ 64) common) unit in
    rw (mod-eq_of_lt small, common, same) refl
