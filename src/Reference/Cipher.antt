-- ===== src/Reference/Cipher.antt =====
-- The rounds of a block of krcm/core.py, versions 2 and 4. A list stands
-- for `bytes`, for a `bytearray` and for a list of integers; a write of a number that is `& 0xFF`
-- is in range.
pub mod Layers
pub mod Diffuse
pub mod Round
use krcm_spn.Base.{
  Bool, Bytes, List, [], codes, get_or, if◌then◌else◌, length, loop_down, loop_up, ltb, read_u64_be,
  replicate, set, suc, tabulate, to_be_bytes, true, zero, ℕ, ◌!=◌, ◌%◌, ◌&&◌, ◌*◌, ◌++◌, ◌+◌, ◌-◌,
  ◌∷◌,
}
use krcm_spn.Block.{round_seed}
use krcm_spn.Constants.{block_bytes, rounds}
use krcm_spn.Matrix.{Matrix, u64}
use krcm_spn.Primitives.{Primitives}
use krcm_spn.Reference.{Attempt, bad_value, done, raise_if, raised, to_bytes, ◌>>=◌, ◌>>◌}
use krcm_spn.Reference.Int.{pos, ◌%ℤ◌, ◌-ℤ◌}
use krcm_spn.Reference.Sample.{
  hkdf_expand_like_py, matrix_from_seed_py, permutation_from_seed_py, small_permutation_py,
}
use krcm_spn.Reference.Words.{matrix_inv_py, matrix_mul_py}

abbrev pub all_bytes : List ℕ → Bool
all_bytes [] = true
all_bytes (x ∷ xs) = ltb x 256 && all_bytes xs

-- `bytes(xs)`, and the writes of numbers `xs` into a `bytearray`: a number above 255 is refused.
abbrev pub to_bytearray : List ℕ → Attempt Bytes
to_bytearray xs = if all_bytes xs then done xs else raised bad_value

-- `for i, byte in enumerate(block): out[i] = f(i)` with `out = bytearray(BLOCK_BYTES)`
unfoldable pub fill : (ℕ → ℕ) → Bytes → List ℕ
fill f block = loop_up (λ i out. set out i (f i)) 0 (length block) (replicate block_bytes 0)

unfoldable pub inverse_permutation_py : List ℕ → List ℕ
inverse_permutation_py perm =
    loop_up (λ i inv. set inv (get_or perm i 0) i) 0 (length perm) (replicate 256 0)

unfoldable pub words_from_block_py : Bytes → Attempt Matrix
words_from_block_py block = do
  raise_if (length block != block_bytes) bad_value
  done (record {
    m0 = read_u64_be block 0;
    m1 = read_u64_be block 8;
    m2 = read_u64_be block 16;
    m3 = read_u64_be block 24;
  })

unfoldable pub block_from_words_py : Matrix → Bytes
block_from_words_py words =
    to_be_bytes 8 (u64 words.m0)
    ++ (to_be_bytes 8 (u64 words.m1)
        ++ (to_be_bytes 8 (u64 words.m2) ++ to_be_bytes 8 (u64 words.m3)))

unfoldable pub apply_position_permutation_py : Bytes → List ℕ → Bytes
apply_position_permutation_py block perm =
    tabulate (λ i. get_or block (get_or perm i 0) 0) 0 (length perm)

unfoldable pub invert_position_permutation_py : Bytes → List ℕ → Bytes
invert_position_permutation_py block perm =
    loop_up (λ i out. set out (get_or perm i 0) (get_or block i 0)) 0 (length perm)
      (replicate (length perm) 0)

-- The bodies of the loops of `_diffuse_bytes` and `_undiffuse_bytes`.
unfoldable pub diffuse_forward_py : Bytes → ℕ → Bytes → Bytes
diffuse_forward_py mask i state =
    set state i ((get_or state i 0 + get_or state (i - 1) 0 + get_or mask i 0) % 256)

unfoldable pub diffuse_backward_py : Bytes → ℕ → Bytes → Bytes
diffuse_backward_py mask i state =
    set state i
      ((get_or state i 0 + get_or state (i + 1) 0 + get_or mask (block_bytes + i) 0) % 256)

unfoldable pub undiffuse_backward_py : Bytes → ℕ → Bytes → Bytes
undiffuse_backward_py mask i state = set state i (
    (pos (get_or state i 0)
      -ℤ pos (get_or state (i + 1) 0)
      -ℤ pos (get_or mask (block_bytes + i) 0))
    %ℤ 256)

unfoldable pub undiffuse_forward_py : Bytes → ℕ → Bytes → Bytes
undiffuse_forward_py mask i state =
    set state i
      ((pos (get_or state i 0) -ℤ pos (get_or state (i - 1) 0) -ℤ pos (get_or mask i 0)) %ℤ 256)

module _ (c : Primitives) where
  unfoldable pub diffuse_bytes_py : Bytes → Bytes → Attempt Bytes
  diffuse_bytes_py block seed = do
    raise_if (length block != block_bytes) bad_value
    mask ← hkdf_expand_like_py c seed (codes "diffuse") (block_bytes * 2)
    let state = loop_up (diffuse_forward_py mask) 1 31 block
    done (loop_down (diffuse_backward_py mask) 0 31 state)

  unfoldable pub undiffuse_bytes_py : Bytes → Bytes → Attempt Bytes
  undiffuse_bytes_py block seed = do
    raise_if (length block != block_bytes) bad_value
    mask ← hkdf_expand_like_py c seed (codes "diffuse") (block_bytes * 2)
    let state = loop_up (undiffuse_backward_py mask) 0 31 block
    done (loop_down (undiffuse_forward_py mask) 1 31 state)

-- `fuel` bounds the draws of each rejection loop (`draw_py`).
module _ (c : Primitives) (fuel : ℕ) where
  open c use {hmac, sha256}

  unfoldable pub pre_substitute_py : Bytes → Bytes → Attempt Bytes
  pre_substitute_py block seed = do
    perm ← permutation_from_seed_py c fuel seed
    mask ← hkdf_expand_like_py c seed (codes "mask") block_bytes
    to_bytearray (fill (λ i. get_or perm ((get_or block i 0 + get_or mask i 0) % 256) 0) block)

  unfoldable pub post_unsubstitute_py : Bytes → Bytes → Attempt Bytes
  post_unsubstitute_py block seed = do
    perm ← permutation_from_seed_py c fuel seed
    let inv = inverse_permutation_py perm
    mask ← hkdf_expand_like_py c seed (codes "mask") block_bytes
    done (fill (λ i. (pos (get_or inv (get_or block i 0) 0) -ℤ pos (get_or mask i 0)) %ℤ 256) block)

  -- One pass of the loop of `_encrypt_one_block`.
  unfoldable pub encrypt_round_py : Bytes → ℕ → Bytes → Attempt Bytes
  encrypt_round_py seed round_index state = do
    encoded ← to_bytes 2 round_index
    let round_seed = hmac seed (codes "round" ++ encoded)
    substituted ← pre_substitute_py state round_seed
    diffused ← diffuse_bytes_py c substituted round_seed
    words ← words_from_block_py diffused
    left ← matrix_from_seed_py c (hmac round_seed (codes "left"))
    right ← matrix_from_seed_py c (hmac round_seed (codes "right"))
    let mixed = matrix_mul_py left (matrix_mul_py words right)
    perm ← small_permutation_py c fuel round_seed block_bytes
    done (apply_position_permutation_py (block_from_words_py mixed) perm)

  unfoldable pub decrypt_round_py : Bytes → ℕ → Bytes → Attempt Bytes
  decrypt_round_py seed round_index state = do
    encoded ← to_bytes 2 round_index
    let round_seed = hmac seed (codes "round" ++ encoded)
    perm ← small_permutation_py c fuel round_seed block_bytes
    words ← words_from_block_py (invert_position_permutation_py state perm)
    left ← matrix_from_seed_py c (hmac round_seed (codes "left"))
    right ← matrix_from_seed_py c (hmac round_seed (codes "right"))
    left_inverse ← matrix_inv_py left
    right_inverse ← matrix_inv_py right
    let unmixed = matrix_mul_py left_inverse (matrix_mul_py words right_inverse)
    undiffused ← undiffuse_bytes_py c (block_from_words_py unmixed) round_seed
    post_unsubstitute_py undiffused round_seed

  -- `for round_index in range(n)` and `for round_index in range(n - 1, -1, -1)`.
  unfoldable pub encrypt_rounds_py : Bytes → ℕ → Bytes → Attempt Bytes
  encrypt_rounds_py seed zero state = done state
  encrypt_rounds_py seed (suc n) state = do
    between ← encrypt_rounds_py seed n state
    encrypt_round_py seed n between

  unfoldable pub decrypt_rounds_py : Bytes → ℕ → Bytes → Attempt Bytes
  decrypt_rounds_py seed zero state = done state
  decrypt_rounds_py seed (suc n) state = do
    between ← decrypt_round_py seed n state
    decrypt_rounds_py seed n between

  unfoldable pub encrypt_one_block_py : Bytes → Bytes → Attempt Bytes
  encrypt_one_block_py block seed = encrypt_rounds_py seed rounds block

  unfoldable pub decrypt_one_block_py : Bytes → Bytes → Attempt Bytes
  decrypt_one_block_py block seed = decrypt_rounds_py seed rounds block
