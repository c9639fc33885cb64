-- ===== src/Cli/Run/SelfTest.antt =====
-- `SelfTest` and `Bench` of crates/krcm-cli/src/main.rs.
use krcm_spn.Base.{
  All-replicate, Bool, Bytes, IsArray, IsByte, IsBytes, [], arith, codes, length, length-replicate,
  ok, refl, replicate, ℕ, ◌<◌, ◌^◌, ◌≡◌, ◌≢◌, ◌≤◌,
}
use krcm_spn.Auto.{decrypt_auto, encrypt_auto, v5}
use krcm_spn.Auto.RoundTrip.{decrypt_auto-encrypt_auto}
use krcm_spn.Cli.Run.{fixed_options, run_bench, run_self_test}
use krcm_spn.ContainerV5.{encrypt_v5}
use krcm_spn.Json.{Base64, Json}
use krcm_spn.Kdf.Laws.{derive_root_key_accepts}
use krcm_spn.Primitives.{Primitives, Rng, unwrap_or_fill}
use krcm_spn.Sampler.Draws.{Accepting}

module _ (c : Primitives) (rng : Rng) (json : Json) (base64 : Base64) (fuel : ℕ)
    (accepting : Accepting c fuel) (checks : Bool) where
  fixed_round_trip :
      (input password : Bytes) (segment_size workers salt_byte nonce_byte : ℕ)
      → IsBytes input
      → length input < 2 ^ 56
      → password ≢ []
      → segment_size ≤ 2 ^ 63
      → salt_byte < 256
      → nonce_byte < 256
      → let opts =
          fixed_options c rng json base64 fuel checks segment_size workers salt_byte nonce_byte in
        (container : Bytes) × (encrypt_v5 c rng fuel checks input password opts ≡ ok container)
        × (decrypt_auto c rng json base64 fuel checks container password ≡ ok input)
  unfolding encrypt_auto unwrap_or_fill
  fixed_round_trip input password segment_size workers salt_byte nonce_byte bytes short named size
        hs hn =
      let opts =
        fixed_options c rng json base64 fuel checks segment_size workers salt_byte nonce_byte in
      let salt = replicate 16 salt_byte in
      let salt_array : IsArray 16 salt =
        (length-replicate 16 salt_byte, All-replicate IsByte 16 salt_byte hs) in
      let nonce_array : IsArray 16 (replicate 16 nonce_byte) =
        (length-replicate 16 nonce_byte, All-replicate IsByte 16 nonce_byte hn) in
      let derived =
        (derive_root_key_accepts c password salt 1_000).1
          (named, salt_array.0, omega arith, omega arith) in
      decrypt_auto-encrypt_auto c rng json base64 fuel checks accepting input password (v5 opts)
        bytes short (((omega arith, omega arith), size, salt_array, nonce_array), derived)

  -- For samplers whose every draw ends within the fuel, `SelfTest` and `Bench` succeed.
  pub run_self_test_succeeds :
      (run_self_test c rng json base64 fuel checks ≡ ok tt)
      × (run_bench c rng json base64 fuel checks ≡ ok tt)
  unfolding run_self_test run_bench
  run_self_test_succeeds =
      let letter : ℕ = 66 in
      let input = codes "krcm self test" in
      let (container, made, undone) =
        fixed_round_trip input (codes "self-test-password") 128 2 1 2 (omega arith) (omega arith)
          (λ e. cc) (omega arith) (omega arith) (omega arith) in
      let (container', made', undone') =
        fixed_round_trip (replicate 1024 66) (codes "bench-password") 1024 1 7 8
          (All-replicate IsByte 1024 66 (omega arith)) (omega (arith, length-replicate 1024 letter))
          (λ e. cc) (omega arith) (omega arith) (omega arith) in
      (rw (made, undone) refl, rw (made', undone') refl)
