-- ===== src/Block.antt =====
-- The block cipher of crates/krcm-core/src/block.rs: ten rounds on a block of 32 bytes, and the
-- chaining of the blocks by the hash of the ciphertext before.
pub mod Substitute
pub mod Diffuse
pub mod Words
pub mod Round
pub mod Sized
pub mod Chain
pub mod Total
use krcm_spn.Base.{
  Bytes, Outcome, [], codes, drop, fail_if, format, get_or, invalid_parameter, length, loop_down,
  loop_up, ok, read_u64_be, set, suc, tabulate, take, to_be_bytes, zero, ℕ, ◌!=◌, ◌%◌, ◌*◌, ◌++◌,
  ◌+◌, ◌-◌, ◌/◌, ◌>>=◌, ◌>>◌, ◌^◌,
}
use krcm_spn.Constants.{block_bytes, rounds}
use krcm_spn.Matrix.{Matrix, matrix_inv, matrix_mul}
use krcm_spn.Permutation.{
  apply_position_permutation, inverse_permutation, invert_position_permutation,
}
use krcm_spn.Primitives.{Primitives}
use krcm_spn.Sampler.{hkdf_expand_like, matrix_from_seed, permutation_from_seed, small_permutation}

-- `state[i].wrapping_add(state[i - 1]).wrapping_add(mask[i])`, written back; and its inverse.
unfoldable pub diffuse_forward : Bytes → ℕ → Bytes → Bytes
diffuse_forward mask i state =
    set state i ((((get_or state i 0 + get_or state (i - 1) 0) % 256) + get_or mask i 0) % 256)

unfoldable pub undiffuse_forward : Bytes → ℕ → Bytes → Bytes
undiffuse_forward mask i state =
    set state i
      ((((get_or state i 0 + 256 - get_or state (i - 1) 0) % 256) + 256 - get_or mask i 0) % 256)

unfoldable pub diffuse_backward : Bytes → ℕ → Bytes → Bytes
diffuse_backward mask i state =
    set state i (
      (((get_or state i 0 + get_or state (i + 1) 0) % 256) + get_or mask (block_bytes + i) 0) % 256)

unfoldable pub undiffuse_backward : Bytes → ℕ → Bytes → Bytes
undiffuse_backward mask i state = set state i (
    (((get_or state i 0 + 256 - get_or state (i + 1) 0) % 256)
      + 256
      - get_or mask (block_bytes + i) 0)
    % 256)

unfoldable pub words_from_block : Bytes → Matrix
words_from_block block = record {
  m0 = read_u64_be block 0;
  m1 = read_u64_be block 8;
  m2 = read_u64_be block 16;
  m3 = read_u64_be block 24;
}

unfoldable pub block_from_words : Matrix → Bytes
block_from_words m =
    to_be_bytes 8 m.m0 ++ (to_be_bytes 8 m.m1 ++ (to_be_bytes 8 m.m2 ++ to_be_bytes 8 m.m3))

-- `fuel` bounds the draws of each rejection loop (`draw`).
module _ (c : Primitives) (fuel : ℕ) where
  open c use {hmac, sha256}

  unfoldable pub pre_substitute : Bytes → Bytes → Outcome Bytes
  pre_substitute block seed = do
    perm ← permutation_from_seed c fuel seed
    let mask = hkdf_expand_like c seed (codes "mask") block_bytes
    ok (
        tabulate (λ i. get_or perm ((get_or block i 0 + get_or mask i 0) % 256) 0 % 256) 0
          block_bytes)

  unfoldable pub post_unsubstitute : Bytes → Bytes → Outcome Bytes
  post_unsubstitute block seed = do
    perm ← permutation_from_seed c fuel seed
    let inv = inverse_permutation perm
    let mask = hkdf_expand_like c seed (codes "mask") block_bytes
    ok (
        tabulate (λ i. (get_or inv (get_or block i 0) 0 % 256 + 256 - get_or mask i 0) % 256) 0
          block_bytes)

  unfoldable pub diffuse_bytes : Bytes → Bytes → Bytes
  diffuse_bytes block seed =
      let mask = hkdf_expand_like c seed (codes "diffuse") (block_bytes * 2) in
      loop_down (diffuse_backward mask) 0 31 (loop_up (diffuse_forward mask) 1 31 block)

  unfoldable pub undiffuse_bytes : Bytes → Bytes → Bytes
  undiffuse_bytes block seed =
      let mask = hkdf_expand_like c seed (codes "diffuse") (block_bytes * 2) in
      loop_down (undiffuse_forward mask) 1 31 (loop_up (undiffuse_backward mask) 0 31 block)

  unfoldable pub round_seed : Bytes → ℕ → Bytes
  round_seed seed round_index = hmac seed (codes "round" ++ to_be_bytes 2 (round_index % 2 ^ 16))

  -- One pass of the loop of `encrypt_one_block`.
  unfoldable pub encrypt_round : Bytes → ℕ → Bytes → Outcome Bytes
  encrypt_round seed round_index state = do
    let rseed = round_seed seed round_index
    substituted ← pre_substitute state rseed
    let words = words_from_block (diffuse_bytes substituted rseed)
    let left = matrix_from_seed c (hmac rseed (codes "left"))
    let right = matrix_from_seed c (hmac rseed (codes "right"))
    let mixed = matrix_mul left (matrix_mul words right)
    perm ← small_permutation c fuel rseed block_bytes
    ok (apply_position_permutation (block_from_words mixed) perm)

  unfoldable pub decrypt_round : Bytes → ℕ → Bytes → Outcome Bytes
  decrypt_round seed round_index state = do
    let rseed = round_seed seed round_index
    perm ← small_permutation c fuel rseed block_bytes
    let words = words_from_block (invert_position_permutation state perm)
    let left = matrix_from_seed c (hmac rseed (codes "left"))
    let right = matrix_from_seed c (hmac rseed (codes "right"))
    let unmixed = matrix_mul (matrix_inv left) (matrix_mul words (matrix_inv right))
    post_unsubstitute (undiffuse_bytes (block_from_words unmixed) rseed) rseed

  -- `for round_index in 0..n` and `for round_index in (0..n).rev()`.
  unfoldable pub encrypt_rounds : Bytes → ℕ → Bytes → Outcome Bytes
  encrypt_rounds seed zero state = ok state
  encrypt_rounds seed (suc n) state = do
    between ← encrypt_rounds seed n state
    encrypt_round seed n between

  unfoldable pub decrypt_rounds : Bytes → ℕ → Bytes → Outcome Bytes
  decrypt_rounds seed zero state = ok state
  decrypt_rounds seed (suc n) state = do
    between ← decrypt_round seed n state
    decrypt_rounds seed n between

  unfoldable pub encrypt_one_block : Bytes → Bytes → Outcome Bytes
  encrypt_one_block block seed = encrypt_rounds seed rounds block

  unfoldable pub decrypt_one_block : Bytes → Bytes → Outcome Bytes
  decrypt_one_block block seed = decrypt_rounds seed rounds block

  unfoldable pub block_seed : Bytes → Bytes → ℕ → Bytes → Bytes
  block_seed enc_key nonce block_index feedback =
      hmac enc_key
        (codes "block" ++ (nonce ++ (to_be_bytes 8 (block_index % 2 ^ 64) ++ sha256 feedback)))

  -- `chunks_exact(32).enumerate()` from the block `index` on, with `n` blocks left.
  unfoldable pub encrypt_chain : Bytes → Bytes → ℕ → ℕ → Bytes → Bytes → Outcome Bytes
  encrypt_chain key nonce zero index feedback padded = ok []
  encrypt_chain key nonce (suc n) index feedback padded = do
    encrypted ← encrypt_one_block (take block_bytes padded) (block_seed key nonce index feedback)
    rest ← encrypt_chain key nonce n (index + 1) encrypted (drop block_bytes padded)
    ok (encrypted ++ rest)

  unfoldable pub decrypt_chain : Bytes → Bytes → ℕ → ℕ → Bytes → Bytes → Outcome Bytes
  decrypt_chain key nonce zero index feedback ciphertext = ok []
  decrypt_chain key nonce (suc n) index feedback ciphertext = do
    let encrypted = take block_bytes ciphertext
    decrypted ← decrypt_one_block encrypted (block_seed key nonce index feedback)
    rest ← decrypt_chain key nonce n (index + 1) encrypted (drop block_bytes ciphertext)
    ok (decrypted ++ rest)

  unfoldable pub encrypt_blocks : Bytes → Bytes → Bytes → Outcome Bytes
  encrypt_blocks padded key nonce = do
    fail_if (length padded % block_bytes != 0) invalid_parameter
    encrypt_chain key nonce (length padded / block_bytes) 0 nonce padded

  unfoldable pub decrypt_blocks : Bytes → Bytes → Bytes → Outcome Bytes
  decrypt_blocks ciphertext key nonce = do
    fail_if (length ciphertext % block_bytes != 0) format
    decrypt_chain key nonce (length ciphertext / block_bytes) 0 nonce ciphertext
