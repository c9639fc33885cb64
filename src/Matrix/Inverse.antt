-- ===== src/Matrix/Inverse.antt =====
-- `modinv_odd_u64` of crates/krcm-core/src/block.rs, round by round.
use mathlib.Core.Path.{subst}
use native.Mathlib.Nat.{mod-mod, div-add-mod, add-mod-mod}
use krcm_spn.Base.{
  Congruent, Congruent-add_cancel, Congruent-mul, Congruent-of_multiples, Congruent-weaken, ap, ap₂,
  arith, refl, sym, ℕ, ◌%◌, ◌*◌, ◌+◌, ◌/◌, ◌<◌, ◌^◌, ◌∙◌, ◌≡◌,
}
use krcm_spn.Matrix.{modinv_odd_u64, newton, u64, wrapping_mul, wrapping_sub}

factor-lem : (w : ℕ) → w < 2 ^ 64 → Congruent (2 ^ 64) (wrapping_sub 2 w + w) 2
unfolding wrapping_sub
factor-lem w h = omega arith

-- The factor z = 2 - a x of a round: z + a x is 2 modulo 2 ^ 64.
newton_factor : (p : ℕ) → Congruent (2 ^ 64) (wrapping_sub 2 (u64 p) + p) 2
newton_factor p =
    sym (add-mod-mod (wrapping_sub 2 (u64 p)) p (2 ^ 64)) ∙ factor-lem (u64 p) (omega arith)

square_identity :
    (r a b u : ℕ)
    → (r * a + u) * (r * a + u) + (r * b + u) * (r * b + u) + r * r * (2 * a * b)
      ≡ (r * a + u) * (r * b + u) + (r * a + u) * (r * b + u) + r * r * (a * a + b * b)
square_identity r a b u = omega arith

square_rewritten :
    (s w o p q : ℕ)
    → w ≡ s
    → o ≡ 1
    → w * w + o * o + p ≡ w * o + w * o + q
    → s * s + 1 + p ≡ s + s + q
square_rewritten s w o p q ew eo e = omega (
  arith,
  ap₂ (λ (c d : ℕ). c * d) ew ew,
  ap₂ (λ (c d : ℕ). c * d) eo eo,
  ap₂ (λ (c d : ℕ). c * d) ew eo,
  e,
)

-- (s - 1) ^ 2 is 0 modulo the square of a modulus of s - 1.
square_of_unit : (r s : ℕ) → Congruent r s 1 → Congruent (r * r) (s * s + 1) (s + s)
square_of_unit r s h =
    let whole : r * (s / r) + 1 % r ≡ s =
      ap (λ (t : ℕ). r * (s / r) + t) (sym h) ∙ div-add-mod s r in
    let p = r * r * (2 * (s / r) * (1 / r)) in
    let q = r * r * (s / r * (s / r) + 1 / r * (1 / r)) in
    Congruent-of_multiples (r * r) (s * s + 1) (s + s) (2 * (s / r) * (1 / r))
      (s / r * (s / r) + 1 / r * (1 / r))
      (square_rewritten s _ _ p q whole (div-add-mod 1 r)
        (square_identity r (s / r) (1 / r) (1 % r)))

-- One round, over any modulus: `z` stands for 2 - a x, and `y` for the new x.
round-Congruent :
    (a x y z r q : ℕ)
    → Congruent (r * r * q) (z + a * x) 2
    → Congruent (r * r * q) y (x * z)
    → Congruent r (a * x) 1
    → Congruent (r * r) (a * y) 1
round-Congruent a x y z r q hz hy h =
    let s = a * x in
    let doubled : Congruent (r * r) ((z + s) * s) (2 * s) =
      Congruent-mul (r * r) (z + s) 2 s s (Congruent-weaken (r * r) q (z + s) 2 hz) refl in
    let unit : Congruent (r * r) (z * s + s * s) (1 + s * s) =
      ap (λ (t : ℕ). t % (r * r)) {x = z * s + s * s} {y = (z + s) * s} (omega arith)
      ∙ doubled
      ∙ ap (λ (t : ℕ). t % (r * r)) {x = 2 * s} {y = s + s} (omega arith)
      ∙ sym (square_of_unit r s h)
      ∙ ap (λ (t : ℕ). t % (r * r)) {x = s * s + 1} {y = 1 + s * s} (omega arith) in
    Congruent-mul (r * r) a a y (x * z) refl (Congruent-weaken (r * r) q y (x * z) hy)
    ∙ ap (λ (t : ℕ). t % (r * r)) {x = a * (x * z)} {y = z * s} (omega arith)
    ∙ Congruent-add_cancel (r * r) (z * s) 1 (s * s) unit

-- From `a x = 1` modulo `r` to `a (newton a x) = 1` modulo `r * r`.
newton-Congruent :
    (a x r q : ℕ)
    → 2 ^ 64 ≡ r * r * q
    → Congruent r (a * x) 1
    → Congruent (r * r) (a * newton a x) 1
unfolding newton wrapping_mul
newton-Congruent a x r q e h =
    round-Congruent a x (newton a x) (wrapping_sub 2 (u64 (a * x))) r q
      (subst (λ (m : ℕ). Congruent m (wrapping_sub 2 (u64 (a * x)) + a * x) 2) e
        (newton_factor (a * x)))
      (subst (λ (m : ℕ). Congruent m (newton a x) (x * wrapping_sub 2 (u64 (a * x)))) e
        (mod-mod (x * wrapping_sub 2 (u64 (a * x))) (2 ^ 64)))
      h

-- `modinv_odd_u64` of an odd number is its inverse modulo 2 ^ 64.
pub modinv_odd_u64_lem : (a : ℕ) → a % 2 ≡ 1 → wrapping_mul a (modinv_odd_u64 a) ≡ 1
unfolding modinv_odd_u64 wrapping_mul
modinv_odd_u64_lem a odd =
    let n1 = newton a 1 in
    let n2 = newton a n1 in
    let n3 = newton a n2 in
    let n4 = newton a n3 in
    let n5 = newton a n4 in
    let e1 : Congruent 4 (a * n1) 1 = newton-Congruent a 1 2 (2 ^ 62) refl (omega arith) in
    let e2 : Congruent (2 ^ 4) (a * n2) 1 = newton-Congruent a n1 4 (2 ^ 60) refl e1 in
    let e3 : Congruent (2 ^ 8) (a * n3) 1 = newton-Congruent a n2 (2 ^ 4) (2 ^ 56) refl e2 in
    let e4 : Congruent (2 ^ 16) (a * n4) 1 = newton-Congruent a n3 (2 ^ 8) (2 ^ 48) refl e3 in
    let e5 : Congruent (2 ^ 32) (a * n5) 1 = newton-Congruent a n4 (2 ^ 16) (2 ^ 32) refl e4 in
    newton-Congruent a n5 (2 ^ 32) 1 refl e5
