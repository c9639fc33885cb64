-- ===== src/Reference/Blocks/Agree.antt =====
-- The chaining of the blocks of krcm/core.py, and that of crates/krcm-core/src/block.rs.
use native.Mathlib.Nat.{mod-eq_of_lt}
use krcm_spn.Base.{
  !=_false→eq, All-drop, All-take, Bytes, IsArray, IsByte, IsBytes, ap, arith, codes, drop, format,
  invalid_parameter, length, length-drop, length-take, ne→==_false, refl, suc, sym, take,
  to_be_bytes, zero, ℕ, ◌!=◌, ◌%◌, ◌*◌, ◌++◌, ◌+◌, ◌/◌, ◌<◌, ◌^◌, ◌≡◌, ◌≢◌, ◌≤◌,
}
use krcm_spn.Block.{
  block_seed, decrypt_blocks, decrypt_chain, decrypt_one_block, decrypt_rounds, encrypt_blocks,
  encrypt_chain, encrypt_one_block, encrypt_rounds,
}
use krcm_spn.Constants.{rounds}
use krcm_spn.Primitives.{Primitives}
use krcm_spn.Reference.{bad_format, bad_value, done, to_bytes_fits}
use krcm_spn.Reference.Affine.{InversePower}
use krcm_spn.Reference.Agree.{>>=-Agree, Agree, guard-Agree}
use krcm_spn.Reference.Blocks.{
  block_seed_py, decrypt_blocks_py, decrypt_chain_py, encrypt_blocks_py, encrypt_chain_py,
}
use krcm_spn.Reference.Cipher.{decrypt_one_block_py, encrypt_one_block_py}
use krcm_spn.Reference.Cipher.Round.{decrypt_rounds_agrees, encrypt_rounds_agrees}

module _ (c : Primitives) (power : InversePower) (fuel : ℕ) (few : fuel ≤ 2 ^ 20) where
  open c use {hmac, sha256}

  block_seed_lem :
      (key nonce : Bytes) (index : ℕ) (feedback : Bytes)
      → index < 2 ^ 64
      → block_seed_py c key nonce index feedback ≡ done (block_seed c fuel key nonce index feedback)
  unfolding block_seed_py block_seed
  block_seed_lem key nonce index feedback h =
      let unwrapped : index % 2 ^ 64 ≡ index = mod-eq_of_lt h in
      rw (to_bytes_fits 8 index h) (
        ap
          (λ (t : ℕ).
            done (hmac key (codes "block" ++ (nonce ++ (to_be_bytes 8 t ++ sha256 feedback)))))
          (sym unwrapped))

  encrypt_chain_agrees :
      (key nonce : Bytes) (n index : ℕ) (feedback padded : Bytes)
      → length padded ≡ 32 * n
      → IsBytes padded
      → index + n ≤ 2 ^ 64
      → Agree
          (encrypt_chain c fuel key nonce n index feedback padded)
          (encrypt_chain_py c (encrypt_one_block_py c fuel) key nonce n index feedback padded)
  unfolding encrypt_chain encrypt_chain_py encrypt_one_block encrypt_one_block_py
  encrypt_chain_agrees key nonce zero index feedback padded size bytes h = refl
  encrypt_chain_agrees key nonce (suc n) index feedback padded size bytes h =
      let seed = block_seed c fuel key nonce index feedback in
      let block = take 32 padded in
      let later = drop 32 padded in
      let array : IsArray 32 block =
        (omega (arith, length-take 32 padded), All-take IsByte 32 padded bytes) in
      rw (block_seed_lem key nonce index feedback (omega arith)) (
        >>=-Agree (encrypt_rounds c fuel seed rounds block) (encrypt_one_block_py c fuel block seed)
          _ _ (encrypt_rounds_agrees c fuel few seed rounds block (omega arith) array)
          (λ encrypted e.
            >>=-Agree (encrypt_chain c fuel key nonce n (index + 1) encrypted later)
              (encrypt_chain_py c (encrypt_one_block_py c fuel) key nonce n (index + 1) encrypted
                later)
              _ _
              (encrypt_chain_agrees key nonce n (index + 1) encrypted later
                (omega (arith, length-drop 32 padded)) (All-drop IsByte 32 padded bytes)
                (omega arith))
              (λ rest e'. refl)))

  decrypt_chain_agrees :
      (key nonce : Bytes) (n index : ℕ) (feedback ciphertext : Bytes)
      → index + n ≤ 2 ^ 64
      → Agree
          (decrypt_chain c fuel key nonce n index feedback ciphertext)
          (decrypt_chain_py c (decrypt_one_block_py c fuel) key nonce n index feedback ciphertext)
  unfolding decrypt_chain decrypt_chain_py decrypt_one_block decrypt_one_block_py
  decrypt_chain_agrees key nonce zero index feedback ciphertext h = refl
  decrypt_chain_agrees key nonce (suc n) index feedback ciphertext h =
      let seed = block_seed c fuel key nonce index feedback in
      let block = take 32 ciphertext in
      let later = drop 32 ciphertext in
      rw (block_seed_lem key nonce index feedback (omega arith)) (
        >>=-Agree (decrypt_rounds c fuel seed rounds block) (decrypt_one_block_py c fuel block seed)
          _ _ (decrypt_rounds_agrees c fuel few seed rounds block (omega arith))
          (λ decrypted e.
            >>=-Agree (decrypt_chain c fuel key nonce n (index + 1) block later)
              (decrypt_chain_py c (decrypt_one_block_py c fuel) key nonce n (index + 1) block later)
              _ _ (decrypt_chain_agrees key nonce n (index + 1) block later (omega arith))
              (λ rest e'. refl)))

  -- For samplers of at most 2 ^ 20 draws, an input of bytes shorter than 2 ^ 64 and a version other
  -- than 3: `encrypt_blocks` of the crate and `_encrypt_blocks` of krcm/core.py agree, that is both
  -- return the same ciphertext, or both refuse an input that is no whole number of blocks, or
  -- neither ends within its draws.
  pub encrypt_blocks-Agree :
      (padded key nonce : Bytes) (version : ℕ)
      → version ≢ 3
      → IsBytes padded
      → length padded < 2 ^ 64
      → Agree
          (encrypt_blocks c fuel padded key nonce)
          (encrypt_blocks_py c power fuel padded key nonce version)
  unfolding encrypt_blocks encrypt_blocks_py
  encrypt_blocks-Agree padded key nonce version other bytes h =
      guard-Agree (length padded % 32 != 0) invalid_parameter bad_value _ _ tt (λ aligned.
        rw (ne→==_false version 3 other) (
          encrypt_chain_agrees key nonce (length padded / 32) 0 nonce padded
            (omega (arith, !=_false→eq (length padded % 32) 0 aligned)) bytes (omega arith)))

  -- For samplers of at most 2 ^ 20 draws, a ciphertext shorter than 2 ^ 64 and a version other than
  -- 3: `decrypt_blocks` of the crate and `_decrypt_blocks` of krcm/core.py agree, that is both
  -- return the same bytes, or both refuse a ciphertext that is no whole number of blocks, or
  -- neither ends within its draws.
  pub decrypt_blocks-Agree :
      (ciphertext key nonce : Bytes) (version : ℕ)
      → version ≢ 3
      → length ciphertext < 2 ^ 64
      → Agree
          (decrypt_blocks c fuel ciphertext key nonce)
          (decrypt_blocks_py c power fuel ciphertext key nonce version)
  unfolding decrypt_blocks decrypt_blocks_py
  decrypt_blocks-Agree ciphertext key nonce version other h =
      guard-Agree (length ciphertext % 32 != 0) format bad_format _ _ tt (λ aligned.
        rw (ne→==_false version 3 other) (
          decrypt_chain_agrees key nonce (length ciphertext / 32) 0 nonce ciphertext (omega arith)))
