-- ===== src/Sampler/Draws.antt =====
-- When the rejection loops of crates/krcm-core/src/block.rs end.
use mathlib.Core.Path.{subst}
use native.Mathlib.Nat.{mod-lt}
use krcm_spn.Base.{
  Bool-cases, Bytes, List, arith, codes, false, inl, inr, leb, ok, refl, suc, tabulate, zero, ℕ,
  ◌%◌, ◌+◌, ◌-◌, ◌<◌, ◌^◌, ◌≡◌, ◌≤◌,
}
use krcm_spn.Permutation.{swap}
use krcm_spn.Primitives.{Primitives}
use krcm_spn.Sampler.{
  Drawn, draw, fresh, permutation_from_seed, rejection_limit, shuffle, small_permutation, take_u64,
}
use krcm_spn.Sampler.Stream.{At, fresh-At, take_u64_lem, word}

-- Among any `fuel` words in a row of any stream one is below 2 ^ 64 - 256, which is below every
-- limit in use.
abbrev pub Accepting : Primitives → ℕ → Type 0
Accepting c fuel =
    (seed label : Bytes) (n : ℕ) → (k : ℕ) × (k < fuel) × (word c seed label (n + k) < 2 ^ 64 - 256)

rejection_limit-le :
    (modulus : ℕ) → 0 < modulus → modulus ≤ 256 → 2 ^ 64 - 256 ≤ rejection_limit modulus
rejection_limit-le modulus h k = omega (arith, mod-lt (2 ^ 64) h)

module _ (c : Primitives) (seed label : Bytes) where
  -- The loop ends at the latest with the `k`-th word from here, if that is below the limit.
  draw_total :
      (fuel n k limit : ℕ) (d : Drawn)
      → At c seed label n d
      → k < fuel
      → word c seed label (n + k) < limit
      → (t : ℕ × Drawn) × (draw c fuel limit seed label d ≡ ok t)
        × ((m : ℕ) × At c seed label m t.1)
  unfolding draw
  draw_total zero n k limit d a h w = absurd (omega arith)
  draw_total (suc fuel) n zero limit d a h w =
      let (value, later) = take_u64_lem c seed label n d a in
      let low : word c seed label n < limit =
        subst (λ (m : ℕ). word c seed label m < limit) {x = n + 0} {y = n} (omega arith) w in
      let accepted : leb limit (take_u64 c seed label d).0 ≡ false = ground arith in
      (take_u64 c seed label d, rw accepted, (suc n, later))
  draw_total (suc fuel) n (suc k) limit d a h w =
      let (value, later) = take_u64_lem c seed label n d a in
      let next : word c seed label (suc n + k) < limit =
        subst (λ (m : ℕ). word c seed label m < limit) {x = n + suc k} {y = suc n + k} (omega arith)
          w in
      elim (Bool-cases (leb limit (take_u64 c seed label d).0)) [
        | inl rejected ↦
            rw rejected
              (draw_total fuel (suc n) k limit (take_u64 c seed label d).1 later (omega arith) next)
        | inr accepted ↦ (take_u64 c seed label d, rw accepted, (suc n, later))
      ]

module _ (c : Primitives) (fuel : ℕ) (accepting : Accepting c fuel) where
  shuffle_total :
      (seed label : Bytes) (i n : ℕ) (values : List ℕ) (d : Drawn)
      → i ≤ 255
      → At c seed label n d
      → (out : List ℕ) × (shuffle c fuel seed label i values d ≡ ok out)
  unfolding shuffle
  shuffle_total seed label zero n values d h a = (values, refl)
  shuffle_total seed label (suc i) n values d h a =
      let (k, near, low) = accepting seed label n in
      let (t, drawn, (m, later)) =
        draw_total c seed label fuel n k (rejection_limit (suc i + 1)) d a near
          (omega (arith, low, rejection_limit-le (suc i + 1) (omega arith) (omega arith))) in
      let (out, done) =
        shuffle_total seed label i m (swap values (suc i) (t.0 % (suc i + 1))) t.1 (omega arith)
          later in
      (out, rw drawn done)

  -- Where any `fuel` words in a row of every stream hold one below 2 ^ 64 - 256,
  -- `permutation_from_seed` returns.
  pub permutation_from_seed_total :
      (seed : Bytes) → (perm : List ℕ) × (permutation_from_seed c fuel seed ≡ ok perm)
  unfolding permutation_from_seed
  permutation_from_seed_total seed =
      shuffle_total seed (codes "perm") 255 0 (tabulate (λ i. i) 0 256) fresh (omega arith)
        (fresh-At c seed (codes "perm"))

  pub small_permutation_total :
      (seed : Bytes) (size : ℕ)
      → size ≤ 256
      → (perm : List ℕ) × (small_permutation c fuel seed size ≡ ok perm)
  unfolding small_permutation
  small_permutation_total seed size h =
      shuffle_total seed (codes "small-perm") (size - 1) 0 (tabulate (λ i. i) 0 size) fresh
        (omega arith) (fresh-At c seed (codes "small-perm"))
