-- ===== src/Block/Total.antt =====
-- When the cipher of crates/krcm-core/src/block.rs returns: its only loops without a bound are
-- the rejection loops.
use krcm_spn.Base.{
  !=_false→eq, Bool-cases, Bytes, IsArray, IsBytes, Outcome, Settled, [], arith, drop, eq→!=_false,
  inl, inr, length, ok, ok-Settled, refl, suc, take, true, zero, ℕ, ◌!=◌, ◌%◌, ◌++◌, ◌+◌, ◌/◌, ◌≡◌,
}
use krcm_spn.Block.{
  block_seed, decrypt_blocks, decrypt_chain, decrypt_one_block, decrypt_round, decrypt_rounds,
  encrypt_blocks, encrypt_chain, encrypt_one_block, encrypt_round, encrypt_rounds,
  post_unsubstitute, pre_substitute, round_seed,
}
use krcm_spn.Block.Chain.{decrypt_blocks-encrypt_blocks}
use krcm_spn.Primitives.{Primitives}
use krcm_spn.Sampler.Draws.{Accepting, permutation_from_seed_total, small_permutation_total}

module _ (c : Primitives) (fuel : ℕ) (accepting : Accepting c fuel) where
  abbrev Returns : Outcome Bytes → Type 0
  Returns r = (out : Bytes) × (r ≡ ok out)

  encrypt_round_total :
      (seed : Bytes) (index : ℕ) (state : Bytes) → Returns (encrypt_round c fuel seed index state)
  unfolding encrypt_round pre_substitute
  encrypt_round_total seed index state =
      let rseed = round_seed c fuel seed index in
      let (table, e1) = permutation_from_seed_total c fuel accepting rseed in
      let (perm, e2) = small_permutation_total c fuel accepting rseed 32 (omega arith) in
      rw (e1, e2) (_, refl)

  decrypt_round_total :
      (seed : Bytes) (index : ℕ) (state : Bytes) → Returns (decrypt_round c fuel seed index state)
  unfolding decrypt_round post_unsubstitute
  decrypt_round_total seed index state =
      let rseed = round_seed c fuel seed index in
      let (table, e1) = permutation_from_seed_total c fuel accepting rseed in
      let (perm, e2) = small_permutation_total c fuel accepting rseed 32 (omega arith) in
      rw (e2, e1) (_, refl)

  encrypt_rounds_total :
      (seed : Bytes) (n : ℕ) (state : Bytes) → Returns (encrypt_rounds c fuel seed n state)
  unfolding encrypt_rounds
  encrypt_rounds_total seed zero state = (state, refl)
  encrypt_rounds_total seed (suc n) state =
      let (between, e1) = encrypt_rounds_total seed n state in
      let (out, e2) = encrypt_round_total seed n between in (out, rw (e1, e2))

  decrypt_rounds_total :
      (seed : Bytes) (n : ℕ) (state : Bytes) → Returns (decrypt_rounds c fuel seed n state)
  unfolding decrypt_rounds
  decrypt_rounds_total seed zero state = (state, refl)
  decrypt_rounds_total seed (suc n) state =
      let (between, e1) = decrypt_round_total seed n state in
      let (out, e2) = decrypt_rounds_total seed n between in (out, rw (e1, e2))

  encrypt_chain_total :
      (key nonce : Bytes) (n index : ℕ) (feedback padded : Bytes)
      → Returns (encrypt_chain c fuel key nonce n index feedback padded)
  unfolding encrypt_chain encrypt_one_block
  encrypt_chain_total key nonce zero index feedback padded = ([], refl)
  encrypt_chain_total key nonce (suc n) index feedback padded =
      let (encrypted, e1) =
        encrypt_rounds_total (block_seed c fuel key nonce index feedback) 10 (take 32 padded) in
      let (rest, e2) = encrypt_chain_total key nonce n (index + 1) encrypted (drop 32 padded) in
      (encrypted ++ rest, rw (e1, e2))

  decrypt_chain_total :
      (key nonce : Bytes) (n index : ℕ) (feedback ciphertext : Bytes)
      → Returns (decrypt_chain c fuel key nonce n index feedback ciphertext)
  unfolding decrypt_chain decrypt_one_block
  decrypt_chain_total key nonce zero index feedback ciphertext = ([], refl)
  decrypt_chain_total key nonce (suc n) index feedback ciphertext =
      let (decrypted, e1) =
        decrypt_rounds_total (block_seed c fuel key nonce index feedback) 10 (take 32 ciphertext) in
      let (rest, e2) =
        decrypt_chain_total key nonce n (index + 1) (take 32 ciphertext) (drop 32 ciphertext) in
      (decrypted ++ rest, rw (e1, e2))

  encrypt_blocks_total :
      (padded key nonce : Bytes)
      → length padded % 32 ≡ 0
      → Returns (encrypt_blocks c fuel padded key nonce)
  unfolding encrypt_blocks
  encrypt_blocks_total padded key nonce h =
      let (out, e) = encrypt_chain_total key nonce (length padded / 32) 0 nonce padded in
      (out, rw (eq→!=_false (length padded % 32) 0 h) e)

  -- For samplers whose every draw ends within the fuel, decryption of any whole number of blocks
  -- returns, also of blocks that were never encrypted.
  pub decrypt_blocks_total :
      (ciphertext key nonce : Bytes)
      → length ciphertext % 32 ≡ 0
      → (out : Bytes) × (decrypt_blocks c fuel ciphertext key nonce ≡ ok out)
  unfolding decrypt_blocks
  decrypt_blocks_total ciphertext key nonce h =
      let (out, e) = decrypt_chain_total key nonce (length ciphertext / 32) 0 nonce ciphertext in
      (out, rw (eq→!=_false (length ciphertext % 32) 0 h) e)

  -- For samplers whose every draw ends within the fuel, a whole number of blocks of bytes is
  -- encrypted, to as many bytes, and decrypting these with the same key and nonce gives the input
  -- back.
  pub blocks_round_trip :
      (padded key nonce : Bytes)
      → IsBytes padded
      → length padded % 32 ≡ 0
      → (out : Bytes) × (encrypt_blocks c fuel padded key nonce ≡ ok out)
        × IsArray (length padded) out
        × (decrypt_blocks c fuel out key nonce ≡ ok padded)
  blocks_round_trip padded key nonce bytes h =
      let (out, e) = encrypt_blocks_total padded key nonce h in
      let (array, undone) = decrypt_blocks-encrypt_blocks c fuel padded key nonce bytes e in
      (out, e, array, undone)

  misaligned-Settled :
      (ciphertext key nonce : Bytes)
      → (length ciphertext % 32 != 0) ≡ true
      → Settled (decrypt_blocks c fuel ciphertext key nonce)
  unfolding decrypt_blocks
  misaligned-Settled ciphertext key nonce e = rw e tt

  -- Decryption of any byte string ends, in an error where it is no whole number of blocks.
  pub decrypt_blocks-Settled :
      (ciphertext key nonce : Bytes) → Settled (decrypt_blocks c fuel ciphertext key nonce)
  decrypt_blocks-Settled ciphertext key nonce = elim (Bool-cases (length ciphertext % 32 != 0)) [
    | inl some_left ↦ misaligned-Settled ciphertext key nonce some_left
    | inr none_left ↦
        ok-Settled _ (decrypt_blocks_total ciphertext key nonce (!=_false→eq _ 0 none_left)).1
  ]
