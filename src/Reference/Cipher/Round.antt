-- ===== src/Reference/Cipher/Round.antt =====
-- A round of krcm/core.py, and that of crates/krcm-core/src/block.rs.
use native.Mathlib.Nat.{mod-eq_of_lt}
use krcm_spn.Base.{
  Bytes, IsArray, List, ap, arith, codes, get_or, length, refl, replicate, suc, sym, to_be_bytes,
  zero, ℕ, ◌++◌, ◌<◌, ◌^◌, ◌≡◌, ◌≤◌,
}
use krcm_spn.Block.{
  block_from_words, decrypt_round, decrypt_rounds, diffuse_bytes, encrypt_round, encrypt_rounds,
  pre_substitute, round_seed, undiffuse_bytes, words_from_block,
}
use krcm_spn.Block.Diffuse.{undiffuse-diffuse_bytes}
use krcm_spn.Block.Round.{decrypt_rounds-encrypt_rounds}
use krcm_spn.Block.Substitute.{post_unsubstitute-pre_substitute}
use krcm_spn.Block.Words.{block_from_words-IsArray}
use krcm_spn.Matrix.{Matrix, matrix_inv, matrix_mul}
use krcm_spn.Matrix.Laws.{matrix_mul-IsWords}
use krcm_spn.Permutation.{invert_position_permutation}
use krcm_spn.Permutation.Scatter.{length-scatter}
use krcm_spn.Primitives.{Primitives}
use krcm_spn.Reference.{to_bytes_fits}
use krcm_spn.Reference.Agree.{>>=-Agree, Agree}
use krcm_spn.Reference.Cipher.{
  block_from_words_py, decrypt_round_py, decrypt_rounds_py, encrypt_round_py, encrypt_rounds_py,
  pre_substitute_py,
}
use krcm_spn.Reference.Cipher.Diffuse.{
  diffuse_bytes_py-diffuse_bytes, undiffuse_bytes-IsArray, undiffuse_bytes_py-undiffuse_bytes,
}
use krcm_spn.Reference.Cipher.Layers.{
  apply_position_permutation_py-apply_position_permutation, block_from_words_py-block_from_words,
  invert_position_permutation_py-invert_position_permutation, post_unsubstitute_agrees,
  pre_substitute_agrees, words_from_block_py-words_from_block,
}
use krcm_spn.Reference.Sample.{small_permutation_py}
use krcm_spn.Reference.Sample.Agree.{matrix_from_seed_py-matrix_from_seed, small_permutation_agrees}
use krcm_spn.Reference.Words.{matrix_mul_py}
use krcm_spn.Reference.Words.Agree.{matrix_inv_py-matrix_inv, matrix_mul_py-matrix_mul}
use krcm_spn.Sampler.{matrix_from_seed, small_permutation}
use krcm_spn.Sampler.Expand.{matrix_from_seed_lem}
use krcm_spn.Sampler.Shuffle.{small_permutation-IsPermutation}

-- Two multiplications give words, so the packing is the same.
mixed_block :
    (left words right : Matrix)
    → block_from_words_py (matrix_mul_py left (matrix_mul_py words right))
      ≡ block_from_words (matrix_mul left (matrix_mul words right))
mixed_block left words right =
    rw
      (matrix_mul_py-matrix_mul words right, matrix_mul_py-matrix_mul left (matrix_mul words right))
      (block_from_words_py-block_from_words (matrix_mul left (matrix_mul words right))
        (matrix_mul-IsWords left (matrix_mul words right)))

length-invert_position_permutation :
    (block : Bytes) (perm : List ℕ) → length (invert_position_permutation block perm) ≡ 32
unfolding invert_position_permutation
length-invert_position_permutation block perm =
    length-scatter (λ i. get_or block i 0) perm (replicate 32 0)

module _ (c : Primitives) (fuel : ℕ) where
  open c use {hmac}

  round_seed_lem :
      (seed : Bytes) (index : ℕ)
      → index < 2 ^ 16
      → round_seed c fuel seed index ≡ hmac seed (codes "round" ++ to_be_bytes 2 index)
  unfolding round_seed
  round_seed_lem seed index h =
      ap (λ (t : ℕ). hmac seed (codes "round" ++ to_be_bytes 2 t)) (mod-eq_of_lt h)

module _ (c : Primitives) (fuel : ℕ) (few : fuel ≤ 2 ^ 20) where
  open c use {hmac}

  pub encrypt_round_agrees :
      (seed : Bytes) (index : ℕ) (state : Bytes)
      → index < 2 ^ 16
      → IsArray 32 state
      → Agree (encrypt_round c fuel seed index state) (encrypt_round_py c fuel seed index state)
  unfolding encrypt_round encrypt_round_py
  encrypt_round_agrees seed index state h array =
      let rseed = round_seed c fuel seed index in
      let left = matrix_from_seed c (hmac rseed (codes "left")) in
      let right = matrix_from_seed c (hmac rseed (codes "right")) in
      rw (to_bytes_fits 2 index h, sym (round_seed_lem c fuel seed index h))
        (>>=-Agree (pre_substitute c fuel state rseed) (pre_substitute_py c fuel state rseed) _ _
          (pre_substitute_agrees c fuel few state rseed array)
          (λ substituted e.
            let placed = (post_unsubstitute-pre_substitute c fuel state rseed array e).0 in
            let diffused = diffuse_bytes c fuel substituted rseed in
            let sized = (undiffuse-diffuse_bytes c fuel substituted rseed placed).0 in
            rw
              (
                diffuse_bytes_py-diffuse_bytes c fuel substituted rseed placed,
                words_from_block_py-words_from_block diffused (sized.0),
                matrix_from_seed_py-matrix_from_seed c (hmac rseed (codes "left")),
                matrix_from_seed_py-matrix_from_seed c (hmac rseed (codes "right")),
                mixed_block left (words_from_block diffused) right,
              )
              (>>=-Agree (small_permutation c fuel rseed 32) (small_permutation_py c fuel rseed 32)
                _ _ (small_permutation_agrees c fuel few rseed)
                (λ perm e'. sym (
                  apply_position_permutation_py-apply_position_permutation _ perm
                    (small_permutation-IsPermutation c fuel rseed 32 (omega arith) e').size)))))

  pub decrypt_round_agrees :
      (seed : Bytes) (index : ℕ) (state : Bytes)
      → index < 2 ^ 16
      → Agree (decrypt_round c fuel seed index state) (decrypt_round_py c fuel seed index state)
  unfolding decrypt_round decrypt_round_py
  decrypt_round_agrees seed index state h =
      let rseed = round_seed c fuel seed index in
      let left = matrix_from_seed c (hmac rseed (codes "left")) in
      let right = matrix_from_seed c (hmac rseed (codes "right")) in
      let (left_words, left_shape) = matrix_from_seed_lem c (hmac rseed (codes "left")) in
      let (right_words, right_shape) = matrix_from_seed_lem c (hmac rseed (codes "right")) in
      rw (to_bytes_fits 2 index h, sym (round_seed_lem c fuel seed index h))
        (>>=-Agree (small_permutation c fuel rseed 32) (small_permutation_py c fuel rseed 32) _ _
          (small_permutation_agrees c fuel few rseed)
          (λ perm e.
            let p = small_permutation-IsPermutation c fuel rseed 32 (omega arith) e in
            let moved = invert_position_permutation state perm in
            let unmixed =
              matrix_mul (matrix_inv left)
                (matrix_mul (words_from_block moved) (matrix_inv right)) in
            let sized = block_from_words-IsArray unmixed in
            rw
              (
                invert_position_permutation_py-invert_position_permutation state perm (p.size),
                words_from_block_py-words_from_block moved
                    (length-invert_position_permutation state perm),
                matrix_from_seed_py-matrix_from_seed c (hmac rseed (codes "left")),
                matrix_from_seed_py-matrix_from_seed c (hmac rseed (codes "right")),
                matrix_inv_py-matrix_inv left left_words left_shape,
                matrix_inv_py-matrix_inv right right_words right_shape,
                mixed_block (matrix_inv left) (words_from_block moved) (matrix_inv right),
                undiffuse_bytes_py-undiffuse_bytes c fuel (block_from_words unmixed) rseed sized,
              )
              (post_unsubstitute_agrees c fuel few
                (undiffuse_bytes c fuel (block_from_words unmixed) rseed) rseed
                (undiffuse_bytes-IsArray c fuel (block_from_words unmixed) rseed sized))))

  -- The rounds from 0 to n - 1, and back.
  pub encrypt_rounds_agrees :
      (seed : Bytes) (n : ℕ) (state : Bytes)
      → n ≤ 2 ^ 16
      → IsArray 32 state
      → Agree (encrypt_rounds c fuel seed n state) (encrypt_rounds_py c fuel seed n state)
  unfolding encrypt_rounds encrypt_rounds_py
  encrypt_rounds_agrees seed zero state h array = refl
  encrypt_rounds_agrees seed (suc n) state h array =
      >>=-Agree (encrypt_rounds c fuel seed n state) (encrypt_rounds_py c fuel seed n state)
        (λ (t : Bytes). encrypt_round c fuel seed n t)
        (λ (t : Bytes). encrypt_round_py c fuel seed n t)
        (encrypt_rounds_agrees seed n state (omega arith) array)
        (λ between e.
          encrypt_round_agrees seed n between (omega arith)
            (decrypt_rounds-encrypt_rounds c fuel seed n state array e).0)

  pub decrypt_rounds_agrees :
      (seed : Bytes) (n : ℕ) (state : Bytes)
      → n ≤ 2 ^ 16
      → Agree (decrypt_rounds c fuel seed n state) (decrypt_rounds_py c fuel seed n state)
  unfolding decrypt_rounds decrypt_rounds_py
  decrypt_rounds_agrees seed zero state h = refl
  decrypt_rounds_agrees seed (suc n) state h =
      >>=-Agree (decrypt_round c fuel seed n state) (decrypt_round_py c fuel seed n state)
        (λ (t : Bytes). decrypt_rounds c fuel seed n t)
        (λ (t : Bytes). decrypt_rounds_py c fuel seed n t)
        (decrypt_round_agrees seed n state (omega arith))
        (λ between e. decrypt_rounds_agrees seed n between (omega arith))
