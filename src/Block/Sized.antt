-- ===== src/Block/Sized.antt =====
-- What `decrypt_blocks` of crates/krcm-core/src/block.rs gives for any input: whole blocks of bytes.
use mathlib.Core.Path.{subst}
use krcm_spn.Base.{
  >>=-eq-ok, All-append, All-tabulate, Bytes, IsArray, IsByte, IsBytes, List, Outcome-ok-injective,
  arith, codes, drop, fail_if_passed, format, get_or, length, length-append, length-tabulate, ok,
  refl, suc, tabulate, take, zero, ℕ, ◌!=◌, ◌%◌, ◌*◌, ◌++◌, ◌+◌, ◌-◌, ◌/◌, ◌<◌, ◌>>=◌, ◌≡◌,
}
use krcm_spn.Block.{
  block_seed, decrypt_blocks, decrypt_chain, decrypt_one_block, decrypt_round, decrypt_rounds,
  post_unsubstitute, round_seed,
}
use krcm_spn.Padding.{pad}
use krcm_spn.Padding.Laws.{pad-IsBytes_iff, pad-aligned}
use krcm_spn.Permutation.{inverse_permutation}
use krcm_spn.Primitives.{Primitives}
use krcm_spn.Sampler.{hkdf_expand_like, permutation_from_seed, small_permutation}

module _ (c : Primitives) (fuel : ℕ) where
  post_unsubstitute-IsArray :
      (block seed : Bytes) {out : Bytes}
      → post_unsubstitute c fuel block seed ≡ ok out
      → IsArray 32 out
  unfolding post_unsubstitute
  post_unsubstitute-IsArray block seed {out} e =
      let mask = hkdf_expand_like c seed (codes "mask") 32 in
      let place = λ (perm : List ℕ) (i : ℕ).
        (get_or (inverse_permutation perm) (get_or block i 0) 0 % 256 + 256 - get_or mask i 0)
        % 256 in
      let (perm, found, made) =
        >>=-eq-ok (permutation_from_seed c fuel seed)
          (λ (perm : List ℕ). ok (tabulate (place perm) 0 32)) e in
      subst (IsArray 32) (Outcome-ok-injective made) (
        length-tabulate (place perm) 0 32,
        All-tabulate (place perm) IsByte 0 32 (λ i k. omega arith),
      )

  decrypt_round-IsArray :
      (seed : Bytes) (index : ℕ) (state : Bytes) {out : Bytes}
      → decrypt_round c fuel seed index state ≡ ok out
      → IsArray 32 out
  unfolding decrypt_round
  decrypt_round-IsArray seed index state e =
      let (perm, e1, e2) =
        >>=-eq-ok (small_permutation c fuel (round_seed c fuel seed index) 32) _ e in
      post_unsubstitute-IsArray _ (round_seed c fuel seed index) e2

  decrypt_rounds-IsArray :
      (seed : Bytes) (n : ℕ) (state : Bytes) {out : Bytes}
      → IsArray 32 state
      → decrypt_rounds c fuel seed n state ≡ ok out
      → IsArray 32 out
  unfolding decrypt_rounds
  decrypt_rounds-IsArray seed zero state array e = subst (IsArray 32) (Outcome-ok-injective e) array
  decrypt_rounds-IsArray seed (suc n) state array e =
      let (between, e1, e2) =
        >>=-eq-ok (decrypt_round c fuel seed n state)
          (λ (t : Bytes). decrypt_rounds c fuel seed n t) e in
      decrypt_rounds-IsArray seed n between (decrypt_round-IsArray seed n state e1) e2

  -- The first of the ten rounds gives a block, whatever it was given.
  decrypt_one_block-IsArray :
      (block seed : Bytes) {out : Bytes}
      → decrypt_one_block c fuel block seed ≡ ok out
      → IsArray 32 out
  unfolding decrypt_one_block decrypt_rounds
  decrypt_one_block-IsArray block seed e =
      let (between, e1, e2) =
        >>=-eq-ok (decrypt_round c fuel seed 9 block)
          (λ (t : Bytes). decrypt_rounds c fuel seed 9 t) e in
      decrypt_rounds-IsArray seed 9 between (decrypt_round-IsArray seed 9 block e1) e2

  decrypt_chain-IsArray :
      (key nonce : Bytes) (n index : ℕ) (feedback ciphertext : Bytes) {out : Bytes}
      → decrypt_chain c fuel key nonce n index feedback ciphertext ≡ ok out
      → IsArray (32 * n) out
  unfolding decrypt_chain
  decrypt_chain-IsArray key nonce zero index feedback ciphertext e =
      subst (IsArray 0) (Outcome-ok-injective e) (refl, tt)
  decrypt_chain-IsArray key nonce (suc n) index feedback ciphertext e =
      let block = take 32 ciphertext in
      let later = drop 32 ciphertext in
      let seed = block_seed c fuel key nonce index feedback in
      let (decrypted, e1, e2) =
        >>=-eq-ok (decrypt_one_block c fuel block seed)
          (λ (t : Bytes).
            decrypt_chain c fuel key nonce n (index + 1) block later
            >>= (λ (rest : Bytes). ok (t ++ rest)))
          e in
      let (rest, e3, e4) =
        >>=-eq-ok (decrypt_chain c fuel key nonce n (index + 1) block later)
          (λ (rest : Bytes). ok (decrypted ++ rest)) e2 in
      let first = decrypt_one_block-IsArray block seed e1 in
      let others = decrypt_chain-IsArray key nonce n (index + 1) block later e3 in
      subst (IsArray (32 * suc n)) (Outcome-ok-injective e4) (
        omega (arith, length-append decrypted rest, first.0, others.0),
        All-append IsByte decrypted rest first.1 others.1,
      )

  -- Where `decrypt_blocks` returns, it returns as many bytes as it was given.
  pub decrypt_blocks-IsArray :
      (ciphertext key nonce : Bytes) {out : Bytes}
      → decrypt_blocks c fuel ciphertext key nonce ≡ ok out
      → IsArray (length ciphertext) out
  unfolding decrypt_blocks
  decrypt_blocks-IsArray ciphertext key nonce {out} e =
      let n = length ciphertext / 32 in
      let (aligned, chained) =
        fail_if_passed (length ciphertext % 32 != 0) format
          (decrypt_chain c fuel key nonce n 0 nonce ciphertext) e in
      let size : 32 * n ≡ length ciphertext = ground arith in
      subst (λ (k : ℕ). IsArray k out) size
        (decrypt_chain-IsArray key nonce n 0 nonce ciphertext chained)

  -- Where the decrypted blocks are a padded text, the text is bytes, and shorter.
  pub padded-IsBytes :
      (ciphertext key nonce plain : Bytes)
      → decrypt_blocks c fuel ciphertext key nonce ≡ ok (pad plain)
      → IsBytes plain × (length plain < length ciphertext)
  padded-IsBytes ciphertext key nonce plain e =
      let array = decrypt_blocks-IsArray ciphertext key nonce {out = pad plain} e in
      ((pad-IsBytes_iff plain).0 array.1, omega (arith, array.0, pad-aligned plain))
