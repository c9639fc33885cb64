-- ===== src/Examples/Components.antt =====
-- The components' theorems at concrete inputs.
use krcm_spn.Base.{Bytes, IsArray, List, [], arith, codes, ok, refl, replicate, ℕ, ◌++◌, ◌∷◌, ◌≡◌}
use krcm_spn.Block.{decrypt_blocks, encrypt_blocks}
use krcm_spn.Block.Total.{blocks_round_trip, decrypt_blocks_total}
use krcm_spn.Examples.{toy, toy-Accepting}
use krcm_spn.Padding.{pad, unpad}
use krcm_spn.Padding.Laws.{pad-unpad, unpad-pad}
use krcm_spn.Permutation.{IsPermutation}
use krcm_spn.Sampler.{permutation_from_seed}
use krcm_spn.Sampler.Draws.{permutation_from_seed_total}
use krcm_spn.Sampler.Shuffle.{permutation_from_seed-IsPermutation}

abbrev message : Bytes
message = codes "attack at dawn"

abbrev seed : Bytes
seed = codes "seed"

abbrev label : Bytes
label = codes "diffuse"

abbrev block : Bytes
block = replicate 31 200 ++ 7 ∷ []

unpad-pad_example : unpad (pad message) ≡ ok message
unpad-pad_example = unpad-pad message

pad-unpad_example : pad message ≡ pad message
pad-unpad_example = pad-unpad (pad message) message (unpad-pad message)

drawn : (perm : List ℕ) × (permutation_from_seed toy 1 seed ≡ ok perm)
drawn = permutation_from_seed_total toy 1 toy-Accepting seed

permutation_from_seed-IsPermutation_example : IsPermutation 256 drawn.0
permutation_from_seed-IsPermutation_example =
    permutation_from_seed-IsPermutation toy 1 seed {perm = drawn.0} drawn.1

blocks_round_trip_example :
    (out : Bytes) × (encrypt_blocks toy 1 (block ++ block) seed label ≡ ok out)
    × IsArray 64 out
    × (decrypt_blocks toy 1 out seed label ≡ ok (block ++ block))
blocks_round_trip_example =
    blocks_round_trip toy 1 toy-Accepting (block ++ block) seed label (omega arith) refl

decrypt_blocks_total_example : (out : Bytes) × (decrypt_blocks toy 1 block seed label ≡ ok out)
decrypt_blocks_total_example = decrypt_blocks_total toy 1 toy-Accepting block seed label refl
