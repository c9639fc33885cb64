-- ===== src/Sampler/Expand.antt =====
-- The sizes of the expanded material of crates/krcm-core/src/block.rs, and the shape of its matrices.
use krcm_spn.Base.{
  All-append, All-take, Bool-cases, Bytes, IsArray, IsByte, IsBytes, [], arith, codes, inl, inr,
  length, length-append, length-take, ltb, read_be-lt, suc, to_be_bytes, zero, ℕ, ◌%◌, ◌++◌, ◌+◌,
  ◌^◌, ◌∷◌, ◌≤◌,
}
use krcm_spn.Matrix.Laws.{IsOddDiagonal, IsWords}
use krcm_spn.Primitives.{Primitives}
use krcm_spn.Sampler.{expand_loop, hkdf_expand_64, hkdf_expand_like, matrix_from_seed}

module _ (c : Primitives) where
  open c use {hmac, hmac-IsArray}

  -- A round that has `left` to go and what it has to reach.
  length-expand_loop :
      (left : ℕ) (key label : Bytes) (size counter : ℕ) (previous out : Bytes)
      → size ≤ length out + left
      → size ≤ length (expand_loop c left key label size counter previous out)
  unfolding expand_loop
  length-expand_loop zero key label size counter previous out h = omega arith
  length-expand_loop (suc left) key label size counter previous out h =
      let next = hmac key (previous ++ (label ++ to_be_bytes 4 counter)) in
      ground (
        arith,
        length-append out next,
        (hmac-IsArray key (previous ++ (label ++ to_be_bytes 4 counter))).0,
        length-expand_loop left key label size ((counter + 1) % 2 ^ 32) next (out ++ next),
      )

  expand_loop-IsBytes :
      (left : ℕ) (key label : Bytes) (size counter : ℕ) (previous out : Bytes)
      → IsBytes out
      → IsBytes (expand_loop c left key label size counter previous out)
  unfolding expand_loop
  expand_loop-IsBytes zero key label size counter previous out h = h
  expand_loop-IsBytes (suc left) key label size counter previous out h =
      let message = previous ++ (label ++ to_be_bytes 4 counter) in
      elim (Bool-cases (ltb (length out) size)) [
        | inl more ↦ rw more (
            expand_loop-IsBytes left key label size ((counter + 1) % 2 ^ 32) (hmac key message)
              (out ++ hmac key message)
              (All-append IsByte out (hmac key message) h (hmac-IsArray key message).1))
        | inr done ↦ rw done h
      ]

  -- `hkdf_expand_like` returns as many bytes as were asked for.
  pub hkdf_expand_like-IsArray :
      (key label : Bytes) (size : ℕ) → IsArray size (hkdf_expand_like c key label size)
  unfolding hkdf_expand_like
  hkdf_expand_like-IsArray key label size =
      let whole = expand_loop c size key label size 1 [] [] in
      (
        omega (arith, length-take size whole, length-expand_loop size key label size 1 [] []),
        All-take IsByte size whole (expand_loop-IsBytes size key label size 1 [] [] tt),
      )

  pub hkdf_expand_64-IsArray : (key label : Bytes) → IsArray 64 (hkdf_expand_64 c key label)
  unfolding hkdf_expand_64
  hkdf_expand_64-IsArray key label =
      let first = hmac-IsArray key (label ++ (0 ∷ 0 ∷ 0 ∷ 1 ∷ [])) in
      let second =
        hmac-IsArray key
          (hmac key (label ++ (0 ∷ 0 ∷ 0 ∷ 1 ∷ [])) ++ (label ++ (0 ∷ 0 ∷ 0 ∷ 2 ∷ []))) in
      (
        omega (
          arith,
          length-append (hmac key (label ++ (0 ∷ 0 ∷ 0 ∷ 1 ∷ []))) (
              hmac key
                (hmac key (label ++ (0 ∷ 0 ∷ 0 ∷ 1 ∷ [])) ++ (label ++ (0 ∷ 0 ∷ 0 ∷ 2 ∷ [])))),
          first.0,
          second.0,
        ),
        All-append IsByte (hmac key (label ++ (0 ∷ 0 ∷ 0 ∷ 1 ∷ []))) _ first.1 second.1,
      )

  -- The matrix of every seed is made of words, odd on the diagonal and even off it.
  pub matrix_from_seed_lem :
      (seed : Bytes) → IsWords (matrix_from_seed c seed) × IsOddDiagonal (matrix_from_seed c seed)
  unfolding matrix_from_seed
  matrix_from_seed_lem seed =
      let material = hkdf_expand_like c seed (codes "matrix") 64 in
      let (size, bytes) = hkdf_expand_like-IsArray seed (codes "matrix") 64 in
      let w0 = read_be-lt 8 material 0 bytes (omega (arith, size)) in
      let w1 = read_be-lt 8 material 8 bytes (omega (arith, size)) in
      let w2 = read_be-lt 8 material 16 bytes (omega (arith, size)) in
      let w3 = read_be-lt 8 material 24 bytes (omega (arith, size)) in omega (arith, w0, w1, w2, w3)
