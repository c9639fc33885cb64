-- ===== src/Reference/Sample/Agree.antt =====
-- The material of krcm/core.py and that of crates/krcm-core/src/block.rs agree.
use mathlib.Core.Path.{subst}
use native.Mathlib.Nat.{mod-eq_of_lt}
use krcm_spn.Base.{
  Bool-cases, Bytes, List, Outcome-ok-injective, [], ap, arith, codes, inl, inr, leb, length,
  length-append, le→ltb_false, ltb, ok, refl, suc, tabulate, to_be_bytes, zero, ℕ, ◌%◌, ◌*◌, ◌++◌,
  ◌+◌, ◌/◌, ◌<◌, ◌^◌, ◌∙◌, ◌≡◌, ◌≤◌,
}
use krcm_spn.Matrix.{Matrix}
use krcm_spn.Matrix.Laws.{IsOddDiagonal, IsWords, matrix_det_odd}
use krcm_spn.Permutation.{swap}
use krcm_spn.Primitives.{Primitives}
use krcm_spn.Reference.{done, to_bytes_fits}
use krcm_spn.Reference.Agree.{>>=-Agree, Agree}
use krcm_spn.Reference.Sample.{
  draw_py, expand_loop_py, hkdf_expand_like_py, matrix_from_seed_py, permutation_from_seed_py,
  shuffle_py, small_permutation_py, take_u64_py, with_odd_determinant,
}
use krcm_spn.Reference.Words.Agree.{matrix_det_py-matrix_det}
use krcm_spn.Sampler.{
  Drawn, draw, expand_loop, fresh, hkdf_expand_like, matrix_from_seed, permutation_from_seed,
  rejection_limit, shuffle, small_permutation, take_u64,
}
use krcm_spn.Sampler.Expand.{matrix_from_seed_lem}
use krcm_spn.Sampler.Stream.{At, fresh-At, length-chunks, take_u64_lem}

with_odd_determinant_lem : (m : Matrix) → IsWords m → IsOddDiagonal m → with_odd_determinant m ≡ m
unfolding with_odd_determinant
with_odd_determinant_lem m words shape =
    rw (matrix_det_py-matrix_det m words, matrix_det_odd m shape) refl

module _ (c : Primitives) where
  open c use {hmac, hmac-IsArray}

  expand_loop_py-expand_loop :
      (left : ℕ) (key label : Bytes) (size counter : ℕ) (previous out : Bytes)
      → size ≤ length out + left
      → counter + left < 2 ^ 32
      → expand_loop_py c left key label size counter previous out
        ≡ done (expand_loop c left key label size counter previous out)
  unfolding expand_loop_py expand_loop
  expand_loop_py-expand_loop zero key label size counter previous out h k =
      rw (le→ltb_false (length out) size (omega arith)) refl
  expand_loop_py-expand_loop (suc left) key label size counter previous out h k =
      let message = previous ++ (label ++ to_be_bytes 4 counter) in
      let next = hmac key message in
      let wraps : counter + 1 ≡ (counter + 1) % 2 ^ 32 = omega arith in
      elim (Bool-cases (ltb (length out) size)) [
        | inl more ↦
            rw (more, to_bytes_fits 4 counter (omega arith))
              (expand_loop_py-expand_loop left key label size (counter + 1) next (out ++ next)
                  (omega (arith, length-append out next, (hmac-IsArray key message).0))
                  (omega arith)
                ∙ ap (λ (t : ℕ). done (expand_loop c left key label size t next (out ++ next)))
                    wraps)
        | inr enough ↦ rw enough refl
      ]

  -- Below 2 ^ 32 bytes the expansion of the reference is that of the crate.
  pub hkdf_expand_like_py-hkdf_expand_like :
      (key label : Bytes) (size : ℕ)
      → size + 1 < 2 ^ 32
      → hkdf_expand_like_py c key label size ≡ done (hkdf_expand_like c key label size)
  unfolding hkdf_expand_like_py hkdf_expand_like
  hkdf_expand_like_py-hkdf_expand_like key label size h =
      rw (expand_loop_py-expand_loop size key label size 1 [] [] (omega arith) (omega arith)) refl

  -- The defence against an even determinant never acts, and the matrix is that of the crate.
  pub matrix_from_seed_py-matrix_from_seed :
      (seed : Bytes) → matrix_from_seed_py c seed ≡ done (matrix_from_seed c seed)
  unfolding matrix_from_seed_py matrix_from_seed
  matrix_from_seed_py-matrix_from_seed seed =
      let (words, shape) = matrix_from_seed_lem c seed in
      rw
        (
          hkdf_expand_like_py-hkdf_expand_like seed (codes "matrix") 64 (omega arith),
          mod-eq_of_lt (words.w0),
          mod-eq_of_lt (words.w1),
          mod-eq_of_lt (words.w2),
          mod-eq_of_lt (words.w3),
        )
        (ap done (with_odd_determinant_lem (matrix_from_seed c seed) words shape))

module _ (c : Primitives) (seed label : Bytes) where
  -- The reference raises where the stream is 2 ^ 32 bytes long.
  take_u64_py-take_u64 :
      (n : ℕ) (d : Drawn)
      → At c seed label n d
      → n < 2 ^ 28
      → take_u64_py c seed label d ≡ done (take_u64 c seed label d)
  unfolding take_u64_py take_u64
  take_u64_py-take_u64 n d a h =
      let size : length d.stream ≡ 64 * ((n + 7) / 8) =
        ap length a.drawn ∙ length-chunks c seed label ((n + 7) / 8) in
      let unwrapped : length d.stream % 2 ^ 32 ≡ length d.stream =
        mod-eq_of_lt (omega (arith, size)) in
      elim (Bool-cases (ltb (length d.stream) (d.cursor + 8))) [
        | inl short ↦
            rw (short, to_bytes_fits 4 (length d.stream) (omega (arith, size)), unwrapped) refl
        | inr enough ↦ rw enough refl
      ]

  draw_agrees :
      (fuel n limit : ℕ) (d : Drawn)
      → At c seed label n d
      → n + fuel < 2 ^ 28
      → Agree (draw c fuel limit seed label d) (draw_py c fuel limit seed label d)
        × ((t : ℕ × Drawn)
            → draw c fuel limit seed label d ≡ ok t
            → (m : ℕ) × (m ≤ n + fuel) × At c seed label m t.1)
  unfolding draw draw_py
  draw_agrees zero n limit d a h = (tt, λ t e. cc)
  draw_agrees (suc fuel) n limit d a h =
      let t0 = take_u64 c seed label d in
      let later = (take_u64_lem c seed label n d a).1 in
      let (agree, after) = draw_agrees fuel (suc n) limit t0.1 later (omega arith) in
      rw (take_u64_py-take_u64 n d a (omega arith)) (elim (Bool-cases (leb limit t0.0)) [
        | inl again ↦ rw again (agree, λ t e. let (m, near, at) = after t e in (m, omega arith, at))
        | inr enough ↦ rw enough (
          refl,
          λ t e. (
            suc n,
            omega arith,
            subst (λ (u : ℕ × Drawn). At c seed label (suc n) u.1) (Outcome-ok-injective e) later,
          ),
        )
      ])

  shuffle_agrees :
      (fuel i n : ℕ) (values : List ℕ) (d : Drawn)
      → At c seed label n d
      → n + i * fuel < 2 ^ 28
      → Agree (shuffle c fuel seed label i values d) (shuffle_py c fuel seed label i values d)
  unfolding shuffle shuffle_py
  shuffle_agrees fuel zero n values d a h = refl
  shuffle_agrees fuel (suc i) n values d a h =
      let limit = rejection_limit (suc i + 1) in
      let (agree, after) = draw_agrees fuel n limit d a (omega arith) in
      >>=-Agree (draw c fuel limit seed label d) (draw_py c fuel limit seed label d)
        (λ (t : ℕ × Drawn).
          shuffle c fuel seed label i (swap values (suc i) (t.0 % (suc i + 1))) t.1)
        (λ (t : ℕ × Drawn).
          shuffle_py c fuel seed label i (swap values (suc i) (t.0 % (suc i + 1))) t.1)
        agree
        (λ t e.
          let (m, near, at) = after t e in
          shuffle_agrees fuel i m (swap values (suc i) (t.0 % (suc i + 1))) t.1 at (omega arith))

-- Followed for at most 2 ^ 20 draws in a row, the shuffles agree: no stream gets to 2 ^ 32 bytes.
module _ (c : Primitives) (fuel : ℕ) (few : fuel ≤ 2 ^ 20) (seed : Bytes) where
  pub permutation_from_seed_agrees :
      Agree (permutation_from_seed c fuel seed) (permutation_from_seed_py c fuel seed)
  unfolding permutation_from_seed permutation_from_seed_py
  permutation_from_seed_agrees =
      shuffle_agrees c seed (codes "perm") fuel 255 0 (tabulate (λ i. i) 0 256) fresh
        (fresh-At c seed (codes "perm")) (omega arith)

  pub small_permutation_agrees :
      Agree (small_permutation c fuel seed 32) (small_permutation_py c fuel seed 32)
  unfolding small_permutation small_permutation_py
  small_permutation_agrees =
      shuffle_agrees c seed (codes "small-perm") fuel 31 0 (tabulate (λ i. i) 0 32) fresh
        (fresh-At c seed (codes "small-perm")) (omega arith)
