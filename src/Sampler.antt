-- ===== src/Sampler.antt =====
-- The key-dependent material of crates/krcm-core/src/block.rs: the expansion of a seed by HMAC,
-- the stream of words drawn from it, the shuffles and the matrices.
pub mod Expand
pub mod Shuffle
pub mod Stream
pub mod Draws
use krcm_spn.Base.{
  Bytes, List, Outcome, [], codes, diverged, if◌then◌else◌, leb, length, ltb, ok, read_u64_be, suc,
  tabulate, take, to_be_bytes, zero, ℕ, ◌%◌, ◌*◌, ◌++◌, ◌+◌, ◌-◌, ◌/◌, ◌>>=◌, ◌>>◌, ◌^◌, ◌∷◌,
}
use krcm_spn.Matrix.{Matrix}
use krcm_spn.Permutation.{swap}
use krcm_spn.Primitives.{Primitives}

-- The stream drawn so far, and how much of it has been used.
pub record Drawn : Type 0 where
  pub stream : Bytes
  pub cursor : ℕ

abbrev pub fresh : Drawn
fresh = record { stream = []; cursor = 0 }

-- `(1u128 << 64) - ((1u128 << 64) % modulus)`: words from there on are drawn again.
abbrev pub rejection_limit : ℕ → ℕ
rejection_limit modulus = 2 ^ 64 - 2 ^ 64 % modulus

-- `n | 1` and `n & !1`.
abbrev pub set_low_bit : ℕ → ℕ
set_low_bit n = n / 2 * 2 + 1

abbrev pub clear_low_bit : ℕ → ℕ
clear_low_bit n = n / 2 * 2

module _ (c : Primitives) where
  open c use {hmac}

  -- The loop of `hkdf_expand_like`; a round adds 32 bytes, so `length` rounds are enough.
  unfoldable pub expand_loop : ℕ → Bytes → Bytes → ℕ → ℕ → Bytes → Bytes → Bytes
  expand_loop zero key label size counter previous out = out
  expand_loop (suc left) key label size counter previous out =
      let next = hmac key (previous ++ (label ++ to_be_bytes 4 counter)) in
      let rest = expand_loop left key label size ((counter + 1) % 2 ^ 32) next (out ++ next) in
      if ltb (length out) size then rest else out

  unfoldable pub hkdf_expand_like : Bytes → Bytes → ℕ → Bytes
  hkdf_expand_like key label size = take size (expand_loop size key label size 1 [] [])

  unfoldable pub hkdf_expand_64 : Bytes → Bytes → Bytes
  hkdf_expand_64 key label =
      let first = hmac key (label ++ (0 ∷ 0 ∷ 0 ∷ 1 ∷ [])) in
      let second = hmac key (first ++ (label ++ (0 ∷ 0 ∷ 0 ∷ 2 ∷ []))) in first ++ second

  unfoldable pub take_u64 : Bytes → Bytes → Drawn → ℕ × Drawn
  take_u64 seed label_prefix d =
      let stream =
        (if ltb (length d.stream) (d.cursor + 8)
          then d.stream
            ++ hkdf_expand_64 seed (label_prefix ++ to_be_bytes 4 (length d.stream % 2 ^ 32))
          else d.stream) in
      (read_u64_be stream d.cursor, record { stream = stream; cursor = d.cursor + 8 })

  -- Draws until a word is below the limit. The loop of the source has no bound: it is followed for
  -- `fuel` draws.
  unfoldable pub draw : ℕ → ℕ → Bytes → Bytes → Drawn → Outcome (ℕ × Drawn)
  draw zero limit seed label d = diverged
  draw (suc fuel) limit seed label d =
      let (r, d') = take_u64 seed label d in
      let again = draw fuel limit seed label d' in if leb limit r then again else ok (r, d')

  -- `for i in (1..=top).rev()`: the swaps of a shuffle.
  unfoldable pub shuffle : ℕ → Bytes → Bytes → ℕ → List ℕ → Drawn → Outcome (List ℕ)
  shuffle fuel seed label zero values d = ok values
  shuffle fuel seed label (suc i) values d = do
    (r, d') ← draw fuel (rejection_limit (suc i + 1)) seed label d
    shuffle fuel seed label i (swap values (suc i) (r % (suc i + 1))) d'

  unfoldable pub permutation_from_seed : ℕ → Bytes → Outcome (List ℕ)
  permutation_from_seed fuel seed =
      shuffle fuel seed (codes "perm") 255 (tabulate (λ i. i) 0 256) fresh

  unfoldable pub small_permutation : ℕ → Bytes → ℕ → Outcome (List ℕ)
  small_permutation fuel seed size =
      shuffle fuel seed (codes "small-perm") (size - 1) (tabulate (λ i. i) 0 size) fresh

  unfoldable pub matrix_from_seed : Bytes → Matrix
  matrix_from_seed seed =
      let material = hkdf_expand_like seed (codes "matrix") 64 in
      record {
        m0 = set_low_bit (read_u64_be material 0);
        m1 = clear_low_bit (read_u64_be material 8);
        m2 = clear_low_bit (read_u64_be material 16);
        m3 = set_low_bit (read_u64_be material 24);
      }
