-- ===== src/Block/Round.antt =====
-- A round of crates/krcm-core/src/block.rs, and the ten rounds of a block.
use mathlib.Core.Path.{subst}
use krcm_spn.Base.{
  >>=-eq-ok, Bytes, IsArray, List, Outcome-ok-injective, ap, arith, codes, ok, suc, sym, zero, ℕ,
  ◌>>=◌, ◌∙◌, ◌≡◌,
}
use krcm_spn.Block.{
  block_from_words, decrypt_one_block, decrypt_round, decrypt_rounds, diffuse_bytes,
  encrypt_one_block, encrypt_round, encrypt_rounds, post_unsubstitute, pre_substitute, round_seed,
  undiffuse_bytes, words_from_block,
}
use krcm_spn.Block.Diffuse.{undiffuse-diffuse_bytes}
use krcm_spn.Block.Substitute.{post_unsubstitute-pre_substitute}
use krcm_spn.Block.Words.{
  block_from_words-IsArray, block_from_words-words_from_block, words_from_block-IsWords,
  words_from_block-block_from_words,
}
use krcm_spn.Matrix.{Matrix, matrix_inv, matrix_mul}
use krcm_spn.Matrix.Laws.{matrix_mul-IsWords, unmix_mix}
use krcm_spn.Permutation.{apply_position_permutation}
use krcm_spn.Permutation.Scatter.{
  apply_position_permutation-IsArray, invert-apply_position_permutation,
}
use krcm_spn.Primitives.{Primitives}
use krcm_spn.Sampler.{matrix_from_seed, small_permutation}
use krcm_spn.Sampler.Expand.{matrix_from_seed_lem}
use krcm_spn.Sampler.Shuffle.{small_permutation-IsPermutation}

module _ (c : Primitives) (fuel : ℕ) where
  open c use {hmac}

  -- The two multiplications and the packing of a round, undone.
  unmix_block :
      (rseed diffused : Bytes)
      → IsArray 32 diffused
      → let left = matrix_from_seed c (hmac rseed (codes "left")) in
        let right = matrix_from_seed c (hmac rseed (codes "right")) in
        block_from_words (
          matrix_mul (matrix_inv left) (
            matrix_mul
              (words_from_block
                (block_from_words (matrix_mul left (matrix_mul (words_from_block diffused) right))))
              (matrix_inv right)))
        ≡ diffused
  unmix_block rseed diffused h =
      let left = matrix_from_seed c (hmac rseed (codes "left")) in
      let right = matrix_from_seed c (hmac rseed (codes "right")) in
      let words = words_from_block diffused in
      let (left_words, left_shape) = matrix_from_seed_lem c (hmac rseed (codes "left")) in
      let (right_words, right_shape) = matrix_from_seed_lem c (hmac rseed (codes "right")) in
      ap
        (λ (t : Matrix).
          block_from_words (matrix_mul (matrix_inv left) (matrix_mul t (matrix_inv right))))
        (words_from_block-block_from_words (matrix_mul left (matrix_mul words right))
          (matrix_mul-IsWords left (matrix_mul words right)))
      ∙ ap block_from_words (
          unmix_mix left right words left_words right_words (words_from_block-IsWords diffused h)
            left_shape right_shape)
      ∙ block_from_words-words_from_block diffused h

  decrypt_round_lem :
      (seed : Bytes) (index : ℕ) (state substituted : Bytes) (perm : List ℕ)
      → IsArray 32 state
      → pre_substitute c fuel state (round_seed c fuel seed index) ≡ ok substituted
      → small_permutation c fuel (round_seed c fuel seed index) 32 ≡ ok perm
      → let rseed = round_seed c fuel seed index in
        let left = matrix_from_seed c (hmac rseed (codes "left")) in
        let right = matrix_from_seed c (hmac rseed (codes "right")) in
        let mixed = block_from_words (
          matrix_mul left
            (matrix_mul (words_from_block (diffuse_bytes c fuel substituted rseed)) right)) in
        decrypt_round c fuel seed index (apply_position_permutation mixed perm) ≡ ok state
  unfolding decrypt_round
  decrypt_round_lem seed index state substituted perm h he hp =
      let rseed = round_seed c fuel seed index in
      let left = matrix_from_seed c (hmac rseed (codes "left")) in
      let right = matrix_from_seed c (hmac rseed (codes "right")) in
      let (array, undone) = post_unsubstitute-pre_substitute c fuel state rseed h he in
      let (diffused_array, undiffused) = undiffuse-diffuse_bytes c fuel substituted rseed array in
      let diffused = diffuse_bytes c fuel substituted rseed in
      let mixed =
        block_from_words (matrix_mul left (matrix_mul (words_from_block diffused) right)) in
      let p = small_permutation-IsPermutation c fuel rseed 32 (omega arith) hp in
      let moved =
        invert-apply_position_permutation mixed perm p
          (block_from_words-IsArray
            (matrix_mul left (matrix_mul (words_from_block diffused) right))).0 in
      let back = λ (t : Bytes). undiffuse_bytes c fuel t rseed in
      let unmix = λ (t : Bytes).
        block_from_words
          (matrix_mul (matrix_inv left) (matrix_mul (words_from_block t) (matrix_inv right))) in
      rw hp (
        ap (λ (t : Bytes). post_unsubstitute c fuel t rseed)
          (ap (λ (t : Bytes). back (unmix t)) moved
            ∙ ap back (unmix_block rseed diffused diffused_array)
            ∙ undiffused)
        ∙ undone)

  -- A round of a block is a block, and the round of decryption with the same seed and index gives
  -- the block back.
  pub decrypt_round-encrypt_round :
      (seed : Bytes) (index : ℕ) (state : Bytes) {out : Bytes}
      → IsArray 32 state
      → encrypt_round c fuel seed index state ≡ ok out
      → IsArray 32 out × (decrypt_round c fuel seed index out ≡ ok state)
  unfolding encrypt_round
  decrypt_round-encrypt_round seed index state {out} h e =
      let rseed = round_seed c fuel seed index in
      let mix = λ (t : Bytes). block_from_words (
        matrix_mul (matrix_from_seed c (hmac rseed (codes "left"))) (
          matrix_mul (words_from_block (diffuse_bytes c fuel t rseed))
            (matrix_from_seed c (hmac rseed (codes "right"))))) in
      let (substituted, he, e1) =
        >>=-eq-ok (pre_substitute c fuel state rseed)
          (λ (t : Bytes).
            small_permutation c fuel rseed 32
            >>= (λ (perm : List ℕ). ok (apply_position_permutation (mix t) perm)))
          e in
      let (perm, hp, e2) =
        >>=-eq-ok (small_permutation c fuel rseed 32)
          (λ (perm : List ℕ). ok (apply_position_permutation (mix substituted) perm)) e1 in
      subst (λ (o : Bytes). IsArray 32 o × (decrypt_round c fuel seed index o ≡ ok state))
        (Outcome-ok-injective e2)
        (
          apply_position_permutation-IsArray (mix substituted) perm (block_from_words-IsArray _).1,
          decrypt_round_lem seed index state substituted perm h he hp,
        )

  pub decrypt_rounds-encrypt_rounds :
      (seed : Bytes) (n : ℕ) (state : Bytes) {out : Bytes}
      → IsArray 32 state
      → encrypt_rounds c fuel seed n state ≡ ok out
      → IsArray 32 out × (decrypt_rounds c fuel seed n out ≡ ok state)
  unfolding encrypt_rounds decrypt_rounds
  decrypt_rounds-encrypt_rounds seed zero state {out} h e =
      (subst (IsArray 32) (Outcome-ok-injective e) h, sym e)
  decrypt_rounds-encrypt_rounds seed (suc n) state {out} h e =
      let (between, e1, e2) =
        >>=-eq-ok (encrypt_rounds c fuel seed n state)
          (λ (t : Bytes). encrypt_round c fuel seed n t) e in
      let (array, before) = decrypt_rounds-encrypt_rounds seed n state h e1 in
      let (out_array, undone) = decrypt_round-encrypt_round seed n between array e2 in
      (out_array, rw undone before)

  -- A block that was encrypted is decrypted to what it was, with the same seed.
  pub decrypt_one_block-encrypt_one_block :
      (block seed : Bytes) {out : Bytes}
      → IsArray 32 block
      → encrypt_one_block c fuel block seed ≡ ok out
      → IsArray 32 out × (decrypt_one_block c fuel out seed ≡ ok block)
  unfolding encrypt_one_block decrypt_one_block
  decrypt_one_block-encrypt_one_block block seed h e =
      decrypt_rounds-encrypt_rounds seed 10 block h e
