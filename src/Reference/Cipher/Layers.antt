-- ===== src/Reference/Cipher/Layers.antt =====
-- The layers of a round of krcm/core.py, and those of crates/krcm-core/src/block.rs.
use native.Mathlib.Decide.{dec_lt}
use native.Mathlib.Nat.{mod-eq_of_lt}
use krcm_spn.Base.{
  All-get_or, All-tabulate, Bytes, IsArray, IsByte, IsBytes, List, [], ap, arith, codes,
  eq→!=_false, get_or, get_or-set_ne, get_or-set_self, get_or-tabulate, get_or_ext, length,
  length-set, length-tabulate, loop_up, loop_up_inv, lt→ltb, ok, refl, replicate, set, suc, sym,
  tabulate, true, zero, ℕ, ◌%◌, ◌+◌, ◌-◌, ◌<◌, ◌^◌, ◌∙◌, ◌∷◌, ◌≡◌, ◌≤◌,
}
use krcm_spn.Block.{block_from_words, post_unsubstitute, pre_substitute, words_from_block}
use krcm_spn.Matrix.{Matrix}
use krcm_spn.Matrix.Laws.{IsWords}
use krcm_spn.Permutation.{
  apply_position_permutation, inverse_permutation, invert_position_permutation, scatter,
}
use krcm_spn.Primitives.{Primitives}
use krcm_spn.Reference.{done}
use krcm_spn.Reference.Agree.{>>=-Agree, Agree}
use krcm_spn.Reference.Cipher.{
  all_bytes, apply_position_permutation_py, block_from_words_py, fill, inverse_permutation_py,
  invert_position_permutation_py, post_unsubstitute_py, pre_substitute_py, words_from_block_py,
}
use krcm_spn.Reference.Int.{byte-lt, byte_lem, pos, sub_parts, ◌%ℤ◌, ◌-ℤ◌}
use krcm_spn.Reference.Sample.{permutation_from_seed_py}
use krcm_spn.Reference.Sample.Agree.{
  hkdf_expand_like_py-hkdf_expand_like, permutation_from_seed_agrees,
}
use krcm_spn.Sampler.{hkdf_expand_like, permutation_from_seed}
use krcm_spn.Sampler.Expand.{hkdf_expand_like-IsArray}
use krcm_spn.Sampler.Shuffle.{permutation_from_seed-IsPermutation}

-- What a loop over a whole array writes.
written :
    (f : ℕ → ℕ) (k j : ℕ) (out : List ℕ)
    → k ≤ length out
    → j < k
    → get_or (loop_up (λ i o. set o i (f i)) 0 k out) j 0 ≡ f j
unfolding loop_up
written f zero j out h l = elim l [ ]
written f (suc k) j out h l =
    let o = loop_up (λ i o. set o i (f i)) 0 k out in
    let size : length o ≡ length out =
      loop_up_inv (λ o. length o ≡ length out) (λ i o. set o i (f i)) 0 k out
        (λ i o h e. length-set o (0 + i) (f (0 + i)) ∙ e) refl in
    let start : 0 + k ≡ k = omega arith in
    rw start (elim (dec_lt j k) [
      | yes earlier ↦
          get_or-set_ne o k j (f k) 0 (omega arith) ∙ written f k j out (omega arith) earlier
      | no latest ↦
          let same : j ≡ k = omega arith in rw same (get_or-set_self o k (f k) 0 (omega arith))
    ])

fill-tabulate : (f : ℕ → ℕ) (block : Bytes) → length block ≡ 32 → fill f block ≡ tabulate f 0 32
unfolding fill
fill-tabulate f block h = rw h (
    get_or_ext 0 (loop_up (λ i o. set o i (f i)) 0 32 (replicate 32 0)) (tabulate f 0 32)
      (loop_up_inv (λ o. length o ≡ 32) (λ i o. set o i (f i)) 0 32 (replicate 32 0)
          (λ i o h e. length-set o (0 + i) (f (0 + i)) ∙ e) refl
        ∙ sym (length-tabulate f 0 32))
      (λ i k.
        let inside : i < 32 = omega (arith, length-tabulate f 0 32) in
        written f 32 i (replicate 32 0) (omega arith) inside
        ∙ ap f {x = i} {y = 0 + i} (omega arith)
        ∙ sym (get_or-tabulate f 0 32 i 0 inside)))

all_bytes_lem : (xs : List ℕ) → IsBytes xs → all_bytes xs ≡ true
all_bytes_lem [] h = refl
all_bytes_lem (x ∷ xs) h = rw (lt→ltb x 256 h.0) (all_bytes_lem xs h.1)

-- `(a - b) & 0xFF` and `(a - b - m) & 0xFF` by wrapping bytes.
byte_difference : (a b : ℕ) → b < 256 → (pos a -ℤ pos b) %ℤ 256 ≡ (a % 256 + 256 - b) % 256
byte_difference a b h =
    let z = pos a -ℤ pos b in omega (arith, sub_parts (pos a) (pos b), byte_lem z, byte-lt z)

pub byte_differences :
    (a b m : ℕ)
    → b < 256
    → m < 256
    → (pos a -ℤ pos b -ℤ pos m) %ℤ 256 ≡ ((a + 256 - b) % 256 + 256 - m) % 256
byte_differences a b m hb hm =
    let y = pos a -ℤ pos b in
    let z = y -ℤ pos m in
    omega (arith, sub_parts (pos a) (pos b), sub_parts y (pos m), byte_lem z, byte-lt z)

pub inverse_permutation_py-inverse_permutation :
    (perm : List ℕ) → length perm ≡ 256 → inverse_permutation_py perm ≡ inverse_permutation perm
unfolding inverse_permutation_py inverse_permutation scatter
inverse_permutation_py-inverse_permutation perm h =
    ap (λ (n : ℕ). loop_up (λ i inv. set inv (get_or perm i 0) i) 0 (length perm) (replicate n 0))
      (sym h)

pub apply_position_permutation_py-apply_position_permutation :
    (block : Bytes) (perm : List ℕ)
    → length perm ≡ 32
    → apply_position_permutation_py block perm ≡ apply_position_permutation block perm
unfolding apply_position_permutation_py apply_position_permutation
apply_position_permutation_py-apply_position_permutation block perm h =
    ap (tabulate (λ i. get_or block (get_or perm i 0) 0) 0) h

pub invert_position_permutation_py-invert_position_permutation :
    (block : Bytes) (perm : List ℕ)
    → length perm ≡ 32
    → invert_position_permutation_py block perm ≡ invert_position_permutation block perm
unfolding invert_position_permutation_py invert_position_permutation scatter
invert_position_permutation_py-invert_position_permutation block perm h =
    ap
      (λ (n : ℕ).
        loop_up (λ i out. set out (get_or perm i 0) (get_or block i 0)) 0 (length perm)
          (replicate n 0))
      h

pub words_from_block_py-words_from_block :
    (block : Bytes) → length block ≡ 32 → words_from_block_py block ≡ done (words_from_block block)
unfolding words_from_block_py words_from_block
words_from_block_py-words_from_block block h = rw (eq→!=_false (length block) 32 h) refl

pub block_from_words_py-block_from_words :
    (m : Matrix) → IsWords m → block_from_words_py m ≡ block_from_words m
unfolding block_from_words_py block_from_words
block_from_words_py-block_from_words m h =
    rw (mod-eq_of_lt (h.w0), mod-eq_of_lt (h.w1), mod-eq_of_lt (h.w2), mod-eq_of_lt (h.w3)) refl

module _ (c : Primitives) (fuel : ℕ) (few : fuel ≤ 2 ^ 20) (block seed : Bytes)
    (array : IsArray 32 block) where
  pub pre_substitute_agrees :
      Agree (pre_substitute c fuel block seed) (pre_substitute_py c fuel block seed)
  unfolding pre_substitute pre_substitute_py
  pre_substitute_agrees =
      let mask = hkdf_expand_like c seed (codes "mask") 32 in
      let f =
        λ (perm : List ℕ) (i : ℕ). get_or perm ((get_or block i 0 + get_or mask i 0) % 256) 0 in
      >>=-Agree (permutation_from_seed c fuel seed) (permutation_from_seed_py c fuel seed)
        (λ (perm : List ℕ). ok (tabulate (λ i. f perm i % 256) 0 32)) _
        (permutation_from_seed_agrees c fuel few seed)
        (λ perm e.
          let p = permutation_from_seed-IsPermutation c fuel seed e in
          let bytes : IsBytes (tabulate (f perm) 0 32) =
            All-tabulate (f perm) IsByte 0 32 (λ i k. p.below _ (omega arith)) in
          rw
            (
              hkdf_expand_like_py-hkdf_expand_like c seed (codes "mask") 32 (omega arith),
              fill-tabulate (f perm) block (array.0),
              all_bytes_lem (tabulate (f perm) 0 32) bytes,
            )
            (λ k.
              tabulate
                (λ i.
                  mod-eq_of_lt (p.below ((get_or block i 0 + get_or mask i 0) % 256) (omega arith))
                    k)
                0 32))

  pub post_unsubstitute_agrees :
      Agree (post_unsubstitute c fuel block seed) (post_unsubstitute_py c fuel block seed)
  unfolding post_unsubstitute post_unsubstitute_py
  post_unsubstitute_agrees =
      let mask = hkdf_expand_like c seed (codes "mask") 32 in
      let masked : IsBytes mask = (hkdf_expand_like-IsArray c seed (codes "mask") 32).1 in
      let value =
        λ (perm : List ℕ) (i : ℕ). get_or (inverse_permutation perm) (get_or block i 0) 0 in
      >>=-Agree (permutation_from_seed c fuel seed) (permutation_from_seed_py c fuel seed)
        (λ (perm : List ℕ).
          ok (tabulate (λ i. (value perm i % 256 + 256 - get_or mask i 0) % 256) 0 32))
        _ (permutation_from_seed_agrees c fuel few seed)
        (λ perm e.
          let p = permutation_from_seed-IsPermutation c fuel seed e in
          rw
            (
              hkdf_expand_like_py-hkdf_expand_like c seed (codes "mask") 32 (omega arith),
              inverse_permutation_py-inverse_permutation perm (p.size),
              fill-tabulate (λ i. (pos (value perm i) -ℤ pos (get_or mask i 0)) %ℤ 256) block
                  (array.0),
            )
            (λ k.
              tabulate
                (λ i.
                  sym
                    (byte_difference (value perm i) (get_or mask i 0)
                      (All-get_or IsByte mask i 0 (omega arith) masked))
                    k)
                0 32))
