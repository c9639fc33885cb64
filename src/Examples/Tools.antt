-- ===== src/Examples/Tools.antt =====
-- The theorems on the fuzz targets and on the inner plaintext that makes one of them panic, at
-- concrete inputs.
use krcm_spn.Base.{
  Bytes, IsBytes, [], arith, from_be_acc, ok, panic, read_be, refl, replicate, to_be_bytes, true,
  ◌++◌, ◌+◌, ◌-◌, ◌^◌, ◌∷◌, ◌≡◌, ◌≤◌, ◌⊎◌,
}
use krcm_spn.Constants.{inner_magic}
use krcm_spn.Examples.{toy, toy_rng}
use krcm_spn.Examples.Letters.{toy_base64}
use krcm_spn.Examples.Text.{toy_json}
use krcm_spn.Fuzz.{
  fuzz_parse_v5_header, fuzz_segment_table, fuzz_targets_return, fuzz_unpack_inner_v5,
}
use krcm_spn.InnerV5.{inspect_inner, unpack_inner}
use krcm_spn.InnerV5.Overflow.{HasFront, inspect_inner_panics}

-- An inner plaintext that states 2 ^ 64 - 76 bytes of payload.
abbrev overlong : Bytes
overlong =
    inner_magic
    ++ ((1 ∷ 0 ∷ 0 ∷ 0 ∷ [])
        ++ (to_be_bytes 8 14
            ++ (to_be_bytes 8 (2 ^ 64 - 76)
                ++ (replicate 32 0 ++ ((0 ∷ 1 ∷ 0 ∷ 32 ∷ 0 ∷ 10 ∷ []) ++ replicate 10 0)))))

overlong-HasFront : HasFront toy toy_rng true overlong
unfolding to_be_bytes from_be_acc
overlong-HasFront = record {
  long = omega arith;
  magic = refl;
  version = refl;
  padding = refl;
  reserved = refl;
  layout = refl;
  block = refl;
  round = refl;
  rest = refl;
}

stated : read_be 8 overlong 20 ≡ 2 ^ 64 - 76
unfolding to_be_bytes from_be_acc
stated = refl

original : read_be 8 overlong 12 ≡ 14
unfolding to_be_bytes from_be_acc
original = refl

overlong-IsBytes : IsBytes overlong
unfolding to_be_bytes
overlong-IsBytes = omega arith

inspect_inner_panics_example :
    (inspect_inner toy toy_rng true overlong ≡ panic)
    × (unpack_inner toy toy_rng true overlong ≡ panic)
inspect_inner_panics_example =
    inspect_inner_panics toy toy_rng true overlong overlong-HasFront overlong-IsBytes
      (omega (arith, stated)) (omega (arith, stated, original))

fuzz_targets_return_example :
    (fuzz_parse_v5_header overlong ≡ ok tt)
    × (fuzz_segment_table overlong ≡ ok tt)
    × ((fuzz_unpack_inner_v5 toy toy_rng toy_json toy_base64 1 true overlong ≡ ok tt)
        ⊎ (2 ^ 64 ≤ 76 + read_be 8 overlong 20))
fuzz_targets_return_example = fuzz_targets_return toy toy_rng toy_json toy_base64 1 true overlong
