-- ===== src/Auto/RoundTrip.antt =====
-- `decrypt_auto` of crates/krcm-core/src/lib.rs on what the two versions of encryption make.
use krcm_spn.Base.{
  Bool, Bytes, IsBytes, arith, false, length, ok, starts_with, true, ℕ, ◌<◌, ◌^◌, ◌≡◌,
}
use krcm_spn.Auto.{EncryptOptions, decrypt_auto, encrypt_auto, v4, v5}
use krcm_spn.Constants.{magic_v4, magic_v5}
use krcm_spn.ContainerV4.{EncryptV4Options, assemble_v4, encrypt_v4}
use krcm_spn.ContainerV4.RoundTrip.{decrypt_v4-encrypt_v4}
use krcm_spn.ContainerV5.{assemble, encrypt_v5}
use krcm_spn.ContainerV5.RoundTrip.{IsValidOptions, decrypt_v5-encrypt_v5}
use krcm_spn.HeaderV5.{EncryptV5Options}
use krcm_spn.Json.{Base64, Json}
use krcm_spn.Kdf.{derive_keys, derive_root_key}
use krcm_spn.Primitives.{IsGiven, Primitives, Rng, unwrap_or_fill}
use krcm_spn.Sampler.Draws.{Accepting}

module _ (c : Primitives) (rng : Rng) where
  -- Options that the encryption of their version takes, with a password from which it derives keys.
  abbrev pub IsAccepted : Bytes → EncryptOptions → Type 0
  IsAccepted password (v4 opts) =
      IsGiven opts.salt
      × IsGiven opts.nonce
      × ((keys : Bytes × Bytes) × (derive_keys c password (unwrap_or_fill rng opts.salt 0).0
              opts.iterations
            ≡ ok keys))
  IsAccepted password (v5 opts) =
      IsValidOptions opts
      × ((root : Bytes) × (derive_root_key c password (unwrap_or_fill rng opts.salt 0).0 opts.kdf
            ≡ ok root))

module _ (c : Primitives) (rng : Rng) (json : Json) (base64 : Base64) (fuel : ℕ)
    (checks : Bool) where
  -- What a container of each version starts with.
  encrypt_v4-starts_with :
      (input password : Bytes) (opts : EncryptV4Options) {container : Bytes}
      → encrypt_v4 c rng json base64 fuel checks input password opts ≡ ok container
      → starts_with container magic_v4 ≡ true
  unfolding encrypt_v4 assemble_v4
  encrypt_v4-starts_with input password opts e = ground arith

  pub encrypt_v5-starts_with :
      (input password : Bytes) (opts : EncryptV5Options) {container : Bytes}
      → encrypt_v5 c rng fuel checks input password opts ≡ ok container
      → (starts_with container magic_v4 ≡ false) × (starts_with container magic_v5 ≡ true)
  unfolding encrypt_v5 assemble
  encrypt_v5-starts_with input password opts e = ground arith

  -- For a payload of bytes shorter than 2 ^ 56, options of version 4 or 5 that the encryption takes
  -- and from which keys are derived, and samplers whose every draw ends within the fuel:
  -- `encrypt_auto` returns a container, and `decrypt_auto` of it with the same password finds its
  -- version and returns the payload.
  pub decrypt_auto-encrypt_auto :
      Accepting c fuel
      → (input password : Bytes) (opts : EncryptOptions) → IsBytes input
      → length input < 2 ^ 56
      → IsAccepted c rng password opts
      → (container : Bytes) × (encrypt_auto c rng json base64 fuel checks input password opts
          ≡ ok container)
        × (decrypt_auto c rng json base64 fuel checks container password ≡ ok input)
  unfolding encrypt_auto decrypt_auto
  decrypt_auto-encrypt_auto accepting input password (v4 opts) bytes short
        (salt, nonce, (keys, e)) =
      let (container, made, undone) =
        decrypt_v4-encrypt_v4 c rng json base64 fuel accepting checks input password opts keys bytes
          (omega arith) salt nonce e in
      (container, made, rw (encrypt_v4-starts_with input password opts made) undone)
  decrypt_auto-encrypt_auto accepting input password (v5 opts) bytes short (valid, (root, e)) =
      let (container, made, undone) =
        decrypt_v5-encrypt_v5 c rng fuel accepting checks input password opts root bytes short valid
          e in
      let (other, this) = encrypt_v5-starts_with input password opts made in
      (container, made, rw (other, this) undone)
