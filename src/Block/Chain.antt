-- ===== src/Block/Chain.antt =====
-- `encrypt_blocks` and `decrypt_blocks` of crates/krcm-core/src/block.rs.
use mathlib.Core.Path.{subst}
use krcm_spn.Base.{
  >>=-eq-ok, All-append, All-drop, All-take, Bytes, IsArray, IsByte, IsBytes, Outcome,
  Outcome-ok-injective, [], ap, arith, drop, drop-append, err, fail_if_passed, invalid_parameter,
  length, length-append, length-drop, length-take, ok, refl, suc, sym, take, take-append,
  take-append-drop, zero, ℕ, ◌!=◌, ◌%◌, ◌*◌, ◌++◌, ◌+◌, ◌/◌, ◌>>=◌, ◌∙◌, ◌∷◌, ◌≡◌, ◌≢◌,
}
use krcm_spn.Block.{
  block_seed, decrypt_blocks, decrypt_chain, encrypt_blocks, encrypt_chain, encrypt_one_block,
}
use krcm_spn.Block.Round.{decrypt_one_block-encrypt_one_block}
use krcm_spn.Primitives.{Primitives}

module _ (c : Primitives) (fuel : ℕ) where
  length-take_block : (n : ℕ) (xs : Bytes) → length xs ≡ 32 * suc n → length (take 32 xs) ≡ 32
  length-take_block n xs h = omega (arith, length-take 32 xs)

  length-drop_block : (n : ℕ) (xs : Bytes) → length xs ≡ 32 * suc n → length (drop 32 xs) ≡ 32 * n
  length-drop_block n xs h = omega (arith, length-drop 32 xs)

  -- The blocks of the ciphertext stand where the blocks of the input stood, so both sides see the
  -- same feedback.
  decrypt_chain-encrypt_chain :
      (key nonce : Bytes) (n index : ℕ) (feedback padded : Bytes) {out : Bytes}
      → length padded ≡ 32 * n
      → IsBytes padded
      → encrypt_chain c fuel key nonce n index feedback padded ≡ ok out
      → IsArray (32 * n) out × (decrypt_chain c fuel key nonce n index feedback out ≡ ok padded)
  unfolding encrypt_chain decrypt_chain
  decrypt_chain-encrypt_chain key nonce zero index feedback [] {out} size bytes e =
      subst (λ (o : Bytes). IsArray 0 o × (◌≡◌ {A = Outcome Bytes} (ok []) (ok [])))
        (Outcome-ok-injective e) ((refl, tt), refl)
  decrypt_chain-encrypt_chain key nonce zero index feedback (x ∷ xs) {out} size bytes e =
      absurd (omega arith)
  decrypt_chain-encrypt_chain key nonce (suc n) index feedback padded {out} size bytes e =
      let seed = block_seed c fuel key nonce index feedback in
      let block = take 32 padded in
      let later = drop 32 padded in
      let (encrypted, e1, e2) =
        >>=-eq-ok (encrypt_one_block c fuel block seed)
          (λ (t : Bytes).
            encrypt_chain c fuel key nonce n (index + 1) t later
            >>= (λ (rest : Bytes). ok (t ++ rest)))
          e in
      let (rest, e3, e4) =
        >>=-eq-ok (encrypt_chain c fuel key nonce n (index + 1) encrypted later)
          (λ (rest : Bytes). ok (encrypted ++ rest)) e2 in
      let (encrypted_array, undone) =
        decrypt_one_block-encrypt_one_block c fuel block seed
          (length-take_block n padded size, All-take IsByte 32 padded bytes) e1 in
      let (rest_array, rest_undone) =
        decrypt_chain-encrypt_chain key nonce n (index + 1) encrypted later
          (length-drop_block n padded size) (All-drop IsByte 32 padded bytes) e3 in
      subst
        (λ (o : Bytes).
          IsArray (32 * suc n) o
          × (decrypt_chain c fuel key nonce (suc n) index feedback o ≡ ok padded))
        (Outcome-ok-injective e4)
        (
          (
            omega (arith, length-append encrypted rest, encrypted_array.0, rest_array.0),
            All-append IsByte encrypted rest encrypted_array.1 rest_array.1,
          ),
          rw
              (
                take-append 32 encrypted rest encrypted_array.0,
                drop-append 32 encrypted rest encrypted_array.0,
                undone,
                rest_undone,
              )
              (ap ok (take-append-drop 32 padded)),
        )

  -- Blocks that were encrypted are decrypted to what they were, with the same key and nonce, and the
  -- ciphertext is as long as the input.
  pub decrypt_blocks-encrypt_blocks :
      (padded key nonce : Bytes) {out : Bytes}
      → IsBytes padded
      → encrypt_blocks c fuel padded key nonce ≡ ok out
      → IsArray (length padded) out × (decrypt_blocks c fuel out key nonce ≡ ok padded)
  unfolding encrypt_blocks decrypt_blocks
  decrypt_blocks-encrypt_blocks padded key nonce {out} bytes e =
      let n = length padded / 32 in
      let (aligned, chained) =
        fail_if_passed (length padded % 32 != 0) invalid_parameter
          (encrypt_chain c fuel key nonce n 0 nonce padded) e in
      let size : length padded ≡ 32 * n = ground arith in
      let (array, undone) =
        decrypt_chain-encrypt_chain key nonce n 0 nonce padded size bytes chained in
      let same : length out ≡ length padded = array.0 ∙ sym size in
      ((same, array.1), rw (same, aligned) undone)

  -- `encrypt_blocks` refuses an input that is no whole number of blocks as an invalid parameter.
  pub encrypt_blocks_misaligned :
      (padded key nonce : Bytes)
      → length padded % 32 ≢ 0
      → encrypt_blocks c fuel padded key nonce ≡ err invalid_parameter
  unfolding encrypt_blocks
  encrypt_blocks_misaligned padded key nonce h = ground arith
