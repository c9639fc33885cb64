-- ===== src/Sampler/Shuffle.antt =====
-- The shuffles of crates/krcm-core/src/block.rs as permutations.
use mathlib.Core.Path.{subst}
use native.Mathlib.Nat.{mod-lt}
use krcm_spn.Base.{
  >>=-eq-ok, Bytes, List, Outcome-ok-injective, arith, codes, ok, suc, tabulate, zero, ℕ, ◌%◌, ◌+◌,
  ◌-◌, ◌<◌, ◌≡◌,
}
use krcm_spn.Permutation.{IsPermutation, swap}
use krcm_spn.Permutation.Swap.{identity-IsPermutation, swap-IsPermutation}
use krcm_spn.Primitives.{Primitives}
use krcm_spn.Sampler.{
  Drawn, draw, fresh, permutation_from_seed, rejection_limit, shuffle, small_permutation,
}

module _ (c : Primitives) (fuel : ℕ) (seed label : Bytes) where
  shuffle-IsPermutation :
      (n i : ℕ) (values : List ℕ) (d : Drawn) (out : List ℕ)
      → i < n
      → IsPermutation n values
      → shuffle c fuel seed label i values d ≡ ok out
      → IsPermutation n out
  unfolding shuffle
  shuffle-IsPermutation n zero values d out h p e =
      subst (IsPermutation n) (Outcome-ok-injective e) p
  shuffle-IsPermutation n (suc i) values d out h p e =
      let (t, drawn, rest) =
        >>=-eq-ok (draw c fuel (rejection_limit (suc i + 1)) seed label d)
          (λ (t : ℕ × Drawn).
            shuffle c fuel seed label i (swap values (suc i) (t.0 % (suc i + 1))) t.1)
          e in
      shuffle-IsPermutation n i (swap values (suc i) (t.0 % (suc i + 1))) t.1 out (omega arith)
        (swap-IsPermutation n values (suc i) (t.0 % (suc i + 1)) h
          (omega (arith, mod-lt t.0 {m = suc i + 1})) p)
        rest

module _ (c : Primitives) (fuel : ℕ) (seed : Bytes) where
  -- Whatever words are drawn, what `permutation_from_seed` returns is a permutation of 0, ..., 255.
  pub permutation_from_seed-IsPermutation :
      {perm : List ℕ} → permutation_from_seed c fuel seed ≡ ok perm → IsPermutation 256 perm
  unfolding permutation_from_seed
  permutation_from_seed-IsPermutation {perm} e =
      shuffle-IsPermutation c fuel seed (codes "perm") 256 255 (tabulate (λ i. i) 0 256) fresh perm
        (omega arith) (identity-IsPermutation 256) e

  -- And so are the positions, of 0, ..., size - 1.
  pub small_permutation-IsPermutation :
      (size : ℕ) {perm : List ℕ}
      → 0 < size
      → small_permutation c fuel seed size ≡ ok perm
      → IsPermutation size perm
  unfolding small_permutation
  small_permutation-IsPermutation size {perm} h e =
      shuffle-IsPermutation c fuel seed (codes "small-perm") size (size - 1)
        (tabulate (λ i. i) 0 size) fresh perm (omega arith) (identity-IsPermutation size) e
