-- ===== src/Base/Residue.antt =====
-- Arithmetic modulo a number: the laws that move `%` out of sums and products, and congruence.
use Prim.Native.Nat.{ℕ, ◌+◌, ◌*◌, ◌/◌, ◌%◌}
use mathlib.Core.Path.{◌≡◌, refl, sym, ap, ap₂, ◌∙◌}
use native.Mathlib.Nat.{
  div-add-mod, add-mul-mod_self_left, mod-mod, mod-add-mod, add-mod-mod, mod-mod_of_dvd, mul_comm,
  add-mod, dvd-mul_right,
}
use native.Mathlib.Omega.{arith}

pub mod-mul-mod : (n m k : ℕ) → (n % k * m) % k ≡ (n * m) % k
mod-mul-mod n m k =
    sym (add-mul-mod_self_left (n % k * m) k (n / k * m))
    ∙ ap (λ (t : ℕ). t % k) (omega (arith, ap (λ (t : ℕ). t * m) (div-add-mod n k)))

pub mul-mod-mod : (n m k : ℕ) → (n * (m % k)) % k ≡ (n * m) % k
mul-mod-mod n m k =
    ap (λ (t : ℕ). t % k) (mul_comm n (m % k))
    ∙ mod-mul-mod m n k
    ∙ ap (λ (t : ℕ). t % k) (mul_comm m n)

-- Takes every inner `%` by one modulus away.
pub ruleset residue_laws = (mod-mod, mod-add-mod, add-mod-mod, mod-mul-mod, mul-mod-mod)

-- Congruence modulo `m`.
abbrev pub Congruent : ℕ → ℕ → ℕ → Type 0
Congruent m a b = a % m ≡ b % m

module _ (m : ℕ) where
  pub Congruent-add :
      (a b c d : ℕ) → Congruent m a b → Congruent m c d → Congruent m (a + c) (b + d)
  Congruent-add a b c d h k =
      add-mod a c m ∙ ap₂ (λ (x y : ℕ). (x + y) % m) h k ∙ sym (add-mod b d m)

  pub Congruent-mul :
      (a b c d : ℕ) → Congruent m a b → Congruent m c d → Congruent m (a * c) (b * d)
  Congruent-mul a b c d h k =
      sym (mod-mul-mod a c m)
      ∙ sym (mul-mod-mod (a % m) c m)
      ∙ ap₂ (λ (x y : ℕ). (x * y) % m) h k
      ∙ mul-mod-mod (b % m) d m
      ∙ mod-mul-mod b d m

  -- Equal up to multiples of the modulus.
  pub Congruent-of_multiples : (a b p q : ℕ) → a + m * p ≡ b + m * q → Congruent m a b
  Congruent-of_multiples a b p q e =
      sym (add-mul-mod_self_left a m p) ∙ ap (λ (t : ℕ). t % m) e ∙ add-mul-mod_self_left b m q

  pub Congruent-add_cancel : (a b c : ℕ) → Congruent m (a + c) (b + c) → Congruent m a b
  Congruent-add_cancel a b c h =
      Congruent-of_multiples a b ((b + c) / m) ((a + c) / m)
        (omega (arith, div-add-mod (a + c) m, div-add-mod (b + c) m))

  pub Congruent-weaken : (q a b : ℕ) → Congruent (m * q) a b → Congruent m a b
  Congruent-weaken q a b h =
      sym (mod-mod_of_dvd m a (dvd-mul_right m q))
      ∙ ap (λ (t : ℕ). t % m) h
      ∙ mod-mod_of_dvd m b (dvd-mul_right m q)

  pub Congruent-mul_zero : (a c : ℕ) → Congruent m a 0 → Congruent m (a * c) 0
  Congruent-mul_zero a c h =
      Congruent-mul a 0 c c h refl ∙ ap (λ (t : ℕ). t % m) {x = 0 * c} {y = 0} (omega arith)
