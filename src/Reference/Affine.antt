-- ===== src/Reference/Affine.antt =====
-- The rounds of a block of krcm/core.py, version 3: affine maps in the place of the permutations of
-- bytes and of positions.
use krcm_spn.Base.{
  Bytes, codes, get_or, if◌then◌else◌, length, loop_up, replicate, set, suc, tabulate, zero, ℕ, ◌%◌,
  ◌*◌, ◌++◌, ◌+◌, ◌<◌, ◌==◌, ◌≡◌,
}
use krcm_spn.Constants.{block_bytes, rounds}
use krcm_spn.Primitives.{Primitives}
use krcm_spn.Reference.{Attempt, done, to_bytes, ◌>>=◌}
use krcm_spn.Reference.Cipher.{
  block_from_words_py, diffuse_bytes_py, fill, undiffuse_bytes_py, words_from_block_py,
}
use krcm_spn.Reference.Int.{pos, ◌%ℤ◌, ◌-ℤ◌}
use krcm_spn.Reference.Sample.{hkdf_expand_like_py, matrix_from_seed_py}
use krcm_spn.Reference.Words.{matrix_inv_py, matrix_mul_py}
use krcm_spn.Sampler.{set_low_bit}

-- `pow(a, -1, 256)`, Python's inverse modulo 256.
pub record InversePower : Type 0 where
  pub inverse : ℕ → ℕ
  pub inverse-lt : (a : ℕ) → inverse a < 256
  pub inverse_lem : (a : ℕ) → a % 2 ≡ 1 → (inverse a * a) % 256 ≡ 1

unfoldable pub byte_affine_params : InversePower → Bytes → ℕ × (ℕ × ℕ)
byte_affine_params power seed =
    let a = set_low_bit (get_or seed 0 0) in (a, (get_or seed 1 0, power.inverse a))

unfoldable pub position_affine_params : Bytes → ℕ × ℕ
position_affine_params seed =
    let a = set_low_bit (get_or seed 2 0) % 32 in
    let b = get_or seed 3 0 % 32 in (if a == 0 then 1 else a, b)

unfoldable pub apply_position_affine : Bytes → Bytes → Bytes
apply_position_affine block seed =
    let (a, b) = position_affine_params seed in
    tabulate (λ i. get_or block ((a * i + b) % 32) 0) 0 block_bytes

unfoldable pub invert_position_affine : Bytes → Bytes → Bytes
invert_position_affine block seed =
    let (a, b) = position_affine_params seed in
    loop_up (λ i out. set out ((a * i + b) % 32) (get_or block i 0)) 0 (length block)
      (replicate block_bytes 0)

module _ (c : Primitives) (power : InversePower) where
  open c use {hmac}

  unfoldable pub pre_substitute_v3 : Bytes → Bytes → Attempt Bytes
  pre_substitute_v3 block seed = do
    mask ← hkdf_expand_like_py c seed (codes "mask") block_bytes
    let (a, (b, _)) = byte_affine_params power seed
    done (fill (λ i. (a * ((get_or block i 0 + get_or mask i 0) % 256) + b) % 256) block)

  unfoldable pub post_unsubstitute_v3 : Bytes → Bytes → Attempt Bytes
  post_unsubstitute_v3 block seed = do
    mask ← hkdf_expand_like_py c seed (codes "mask") block_bytes
    let (_, (b, inv_a)) = byte_affine_params power seed
    done (
        fill
          (λ i.
            (pos (inv_a * ((pos (get_or block i 0) -ℤ pos b) %ℤ 256)) -ℤ pos (get_or mask i 0))
            %ℤ 256)
          block)

  -- One pass of the loop of `_encrypt_one_block_v3`.
  unfoldable pub encrypt_round_v3 : Bytes → ℕ → Bytes → Attempt Bytes
  encrypt_round_v3 seed round_index state = do
    encoded ← to_bytes 2 round_index
    let round_seed = hmac seed (codes "round" ++ encoded)
    substituted ← pre_substitute_v3 state round_seed
    diffused ← diffuse_bytes_py c substituted round_seed
    words ← words_from_block_py diffused
    left ← matrix_from_seed_py c (hmac round_seed (codes "left"))
    right ← matrix_from_seed_py c (hmac round_seed (codes "right"))
    let mixed = matrix_mul_py left (matrix_mul_py words right)
    done (apply_position_affine (block_from_words_py mixed) round_seed)

  unfoldable pub decrypt_round_v3 : Bytes → ℕ → Bytes → Attempt Bytes
  decrypt_round_v3 seed round_index state = do
    encoded ← to_bytes 2 round_index
    let round_seed = hmac seed (codes "round" ++ encoded)
    words ← words_from_block_py (invert_position_affine state round_seed)
    left ← matrix_from_seed_py c (hmac round_seed (codes "left"))
    right ← matrix_from_seed_py c (hmac round_seed (codes "right"))
    left_inverse ← matrix_inv_py left
    right_inverse ← matrix_inv_py right
    let unmixed = matrix_mul_py left_inverse (matrix_mul_py words right_inverse)
    undiffused ← undiffuse_bytes_py c (block_from_words_py unmixed) round_seed
    post_unsubstitute_v3 undiffused round_seed

  unfoldable pub encrypt_rounds_v3 : Bytes → ℕ → Bytes → Attempt Bytes
  encrypt_rounds_v3 seed zero state = done state
  encrypt_rounds_v3 seed (suc n) state = do
    between ← encrypt_rounds_v3 seed n state
    encrypt_round_v3 seed n between

  unfoldable pub decrypt_rounds_v3 : Bytes → ℕ → Bytes → Attempt Bytes
  decrypt_rounds_v3 seed zero state = done state
  decrypt_rounds_v3 seed (suc n) state = do
    between ← decrypt_round_v3 seed n state
    decrypt_rounds_v3 seed n between

  unfoldable pub encrypt_one_block_v3 : Bytes → Bytes → Attempt Bytes
  encrypt_one_block_v3 block seed = encrypt_rounds_v3 seed rounds block

  unfoldable pub decrypt_one_block_v3 : Bytes → Bytes → Attempt Bytes
  decrypt_one_block_v3 block seed = decrypt_rounds_v3 seed rounds block
