-- ===== src/Permutation.antt =====
-- The permutations of crates/krcm-core/src/block.rs: a `Vec<usize>` of indices, its inverse, and
-- the two moves of the bytes of a block.
pub mod Swap
pub mod Scatter
use krcm_spn.Base.{Bytes, List, get_or, length, loop_up, replicate, set, tabulate, ℕ, ◌<◌, ◌≡◌}
use krcm_spn.Constants.{block_bytes}

-- `values.swap(i, j)`
unfoldable pub swap : List ℕ → ℕ → ℕ → List ℕ
swap values i j = set (set values i (get_or values j 0)) j (get_or values i 0)

-- `for (i, &v) in perm.iter().enumerate() { out[v] = g(i) }`
unfoldable pub scatter : (ℕ → ℕ) → List ℕ → List ℕ → List ℕ
unfolding loop_up
scatter g perm out = loop_up (λ i o. set o (get_or perm i 0) (g i)) 0 (length perm) out

unfoldable pub inverse_permutation : List ℕ → List ℕ
unfolding scatter
inverse_permutation perm = scatter (λ i. i) perm (replicate (length perm) 0)

unfoldable pub apply_position_permutation : Bytes → List ℕ → Bytes
apply_position_permutation block perm =
    tabulate (λ i. get_or block (get_or perm i 0) 0) 0 block_bytes

unfoldable pub invert_position_permutation : Bytes → List ℕ → Bytes
unfolding scatter
invert_position_permutation block perm =
    scatter (λ i. get_or block i 0) perm (replicate block_bytes 0)

-- `perm` holds each of 0, ..., n - 1 once: `source v` is the index at which `v` stands.
pub record IsPermutation (n : ℕ) (perm : List ℕ) : Type 0 where
  pub size : length perm ≡ n
  pub below : (i : ℕ) → i < n → get_or perm i 0 < n
  pub source : ℕ → ℕ
  pub source_below : (v : ℕ) → v < n → source v < n
  pub source-get_or : (i : ℕ) → i < n → source (get_or perm i 0) ≡ i
  pub get_or-source : (v : ℕ) → v < n → get_or perm (source v) 0 ≡ v
