-- ===== src/Reference/Blocks.antt =====
-- The chaining of the blocks of krcm/core.py, as it runs without the native module.
pub mod Agree
use krcm_spn.Base.{
  Bytes, [], codes, drop, if◌then◌else◌, length, suc, take, zero, ℕ, ◌!=◌, ◌%◌, ◌++◌, ◌+◌, ◌/◌,
  ◌==◌,
}
use krcm_spn.Constants.{block_bytes}
use krcm_spn.Primitives.{Primitives}
use krcm_spn.Reference.{Attempt, bad_format, bad_value, done, raise_if, to_bytes, ◌>>=◌, ◌>>◌}
use krcm_spn.Reference.Affine.{InversePower, decrypt_one_block_v3, encrypt_one_block_v3}
use krcm_spn.Reference.Cipher.{decrypt_one_block_py, encrypt_one_block_py}

module _ (c : Primitives) where
  open c use {hmac, sha256}

  unfoldable pub block_seed_py : Bytes → Bytes → ℕ → Bytes → Attempt Bytes
  block_seed_py enc_key nonce block_index feedback = do
    encoded ← to_bytes 8 block_index
    done (hmac enc_key (codes "block" ++ (nonce ++ (encoded ++ sha256 feedback))))

  -- The loops over `range(0, len(data), BLOCK_BYTES)` from the block `block_index` on, with `n`
  -- blocks left, for a function that takes a block and a seed.
  unfoldable pub encrypt_chain_py :
      (Bytes → Bytes → Attempt Bytes) → Bytes → Bytes → ℕ → ℕ → Bytes → Bytes → Attempt Bytes
  encrypt_chain_py encrypt_block enc_key nonce zero block_index feedback padded = done []
  encrypt_chain_py encrypt_block enc_key nonce (suc n) block_index feedback padded = do
    seed ← block_seed_py enc_key nonce block_index feedback
    encrypted_block ← encrypt_block (take block_bytes padded) seed
    rest ←
        encrypt_chain_py encrypt_block enc_key nonce n (block_index + 1) encrypted_block
          (drop block_bytes padded)
    done (encrypted_block ++ rest)

  unfoldable pub decrypt_chain_py :
      (Bytes → Bytes → Attempt Bytes) → Bytes → Bytes → ℕ → ℕ → Bytes → Bytes → Attempt Bytes
  decrypt_chain_py decrypt_block enc_key nonce zero block_index feedback ciphertext = done []
  decrypt_chain_py decrypt_block enc_key nonce (suc n) block_index feedback ciphertext = do
    let encrypted_block = take block_bytes ciphertext
    seed ← block_seed_py enc_key nonce block_index feedback
    block ← decrypt_block encrypted_block seed
    rest ←
        decrypt_chain_py decrypt_block enc_key nonce n (block_index + 1) encrypted_block
          (drop block_bytes ciphertext)
    done (block ++ rest)

-- `fuel` bounds the draws of each rejection loop (`draw_py`).
module _ (c : Primitives) (power : InversePower) (fuel : ℕ) where
  unfoldable pub encrypt_blocks_py : Bytes → Bytes → Bytes → ℕ → Attempt Bytes
  encrypt_blocks_py padded enc_key nonce version = do
    raise_if (length padded % block_bytes != 0) bad_value
    let encrypt_block =
        (if version == 3 then encrypt_one_block_v3 c power else encrypt_one_block_py c fuel)
    encrypt_chain_py c encrypt_block enc_key nonce (length padded / block_bytes) 0 nonce padded

  unfoldable pub decrypt_blocks_py : Bytes → Bytes → Bytes → ℕ → Attempt Bytes
  decrypt_blocks_py ciphertext enc_key nonce version = do
    raise_if (length ciphertext % block_bytes != 0) bad_format
    let decrypt_block =
        (if version == 3 then decrypt_one_block_v3 c power else decrypt_one_block_py c fuel)
    decrypt_chain_py c decrypt_block enc_key nonce (length ciphertext / block_bytes) 0 nonce
        ciphertext
