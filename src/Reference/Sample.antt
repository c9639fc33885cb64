-- ===== src/Reference/Sample.antt =====
-- The key-dependent material of krcm/core.py. `_hkdf_expand_64` and the swap of two places are those
-- of the crate, statement by statement, and are used from there.
pub mod Agree
use krcm_spn.Base.{
  Bytes, List, [], codes, if◌then◌else◌, leb, length, ltb, read_u64_be, suc, tabulate, take, zero,
  ℕ, ◌%◌, ◌++◌, ◌+◌, ◌-◌, ◌==◌, ◌^◌,
}
use krcm_spn.Matrix.{Matrix, u64}
use krcm_spn.Permutation.{swap}
use krcm_spn.Primitives.{Primitives}
use krcm_spn.Reference.{Attempt, done, to_bytes, unfinished, ◌>>=◌, ◌>>◌}
use krcm_spn.Reference.Words.{matrix_det_py}
use krcm_spn.Sampler.{Drawn, clear_low_bit, fresh, hkdf_expand_64, set_low_bit}

-- `n ^ 1`
abbrev flip_low_bit : ℕ → ℕ
flip_low_bit n = if n % 2 == 0 then n + 1 else n - 1

-- `if matrix_det(matrix) % 2 == 0: matrix[3] ^= 1`
unfoldable pub with_odd_determinant : Matrix → Matrix
with_odd_determinant m =
    if matrix_det_py m % 2 == 0
    then record { m0 = m.m0; m1 = m.m1; m2 = m.m2; m3 = flip_low_bit m.m3 }
    else m

module _ (c : Primitives) where
  open c use {hmac}

  -- `while len(out) < length`, for at most `left` rounds.
  unfoldable pub expand_loop_py : ℕ → Bytes → Bytes → ℕ → ℕ → Bytes → Bytes → Attempt Bytes
  expand_loop_py zero key label size counter previous out =
      if ltb (length out) size then unfinished else done out
  expand_loop_py (suc left) key label size counter previous out =
      let more = do
        encoded ← to_bytes 4 counter
        let next = hmac key (previous ++ (label ++ encoded))
        expand_loop_py left key label size (counter + 1) next (out ++ next)
      in if ltb (length out) size then more else done out

  -- A round adds 32 bytes, so `size` rounds are enough.
  unfoldable pub hkdf_expand_like_py : Bytes → Bytes → ℕ → Attempt Bytes
  hkdf_expand_like_py key label size = do
    out ← expand_loop_py size key label size 1 [] []
    done (take size out)

  -- `take_u64` inside `_permutation_from_seed` and `_small_permutation`, over their label.
  unfoldable pub take_u64_py : Bytes → Bytes → Drawn → Attempt (ℕ × Drawn)
  take_u64_py seed label_prefix d = do
    let refill = do
      encoded ← to_bytes 4 (length d.stream)
      done (d.stream ++ hkdf_expand_64 c seed (label_prefix ++ encoded))
    stream ← (if ltb (length d.stream) (d.cursor + 8) then refill else done d.stream)
    done (read_u64_be stream d.cursor, record { stream = stream; cursor = d.cursor + 8 })

  -- `r = take_u64()` and `while r >= limit: r = take_u64()`, for at most `fuel` draws.
  unfoldable pub draw_py : ℕ → ℕ → Bytes → Bytes → Drawn → Attempt (ℕ × Drawn)
  draw_py zero limit seed label d = unfinished
  draw_py (suc fuel) limit seed label d = do
    (r, d') ← take_u64_py seed label d
    let again = draw_py fuel limit seed label d'
    if leb limit r then again else done (r, d')

  -- `for i in range(top, 0, -1)`
  unfoldable pub shuffle_py : ℕ → Bytes → Bytes → ℕ → List ℕ → Drawn → Attempt (List ℕ)
  shuffle_py fuel seed label zero values d = done values
  shuffle_py fuel seed label (suc i) values d = do
    (r, d') ← draw_py fuel (2 ^ 64 - 2 ^ 64 % (suc i + 1)) seed label d
    let j = r % (suc i + 1)
    shuffle_py fuel seed label i (swap values (suc i) j) d'

  unfoldable pub permutation_from_seed_py : ℕ → Bytes → Attempt (List ℕ)
  permutation_from_seed_py fuel seed =
      shuffle_py fuel seed (codes "perm") 255 (tabulate (λ i. i) 0 256) fresh

  unfoldable pub small_permutation_py : ℕ → Bytes → ℕ → Attempt (List ℕ)
  small_permutation_py fuel seed size =
      shuffle_py fuel seed (codes "small-perm") (size - 1) (tabulate (λ i. i) 0 size) fresh

  unfoldable pub matrix_from_seed_py : Bytes → Attempt Matrix
  matrix_from_seed_py seed = do
    material ← hkdf_expand_like_py seed (codes "matrix") 64
    done (
        with_odd_determinant (record {
          m0 = u64 (set_low_bit (read_u64_be material 0));
          m1 = u64 (clear_low_bit (read_u64_be material 8));
          m2 = u64 (clear_low_bit (read_u64_be material 16));
          m3 = u64 (set_low_bit (read_u64_be material 24));
        }))
