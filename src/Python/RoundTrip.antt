-- ===== src/Python/RoundTrip.antt =====
-- The functions of crates/krcm-py/src/lib.rs on what their counterparts make.
use krcm_spn.Base.{
  ==_iff, Bool, Bytes, IsArray, IsBytes, [], arith, eq→!=_false, false, inl, inr, length,
  ne→==_false, refl, true, ℕ, ◌!=◌, ◌%◌, ◌<◌, ◌==◌, ◌^◌, ◌≡◌, ◌≢◌, ◌⊎◌,
}
use krcm_spn.Auto.{EncryptOptions, encrypt_auto, v4, v5}
use krcm_spn.Auto.RoundTrip.{IsAccepted, decrypt_auto-encrypt_auto}
use krcm_spn.Block.Total.{blocks_round_trip}
use krcm_spn.ContainerV4.{default_options}
use krcm_spn.Json.{Base64, Json}
use krcm_spn.Kdf.Laws.{derive_keys_iff, derive_root_key_accepts}
use krcm_spn.Primitives.{Primitives, Rng, unwrap_or_fill}
use krcm_spn.Python.{
  binding_options, decrypt_bytes, enc_key_from_slice, encrypt_bytes, py_decrypt_blocks,
  py_encrypt_blocks, py_error, returned,
}
use krcm_spn.Sampler.Draws.{Accepting}

module _ (c : Primitives) (fuel : ℕ) (accepting : Accepting c fuel) where
  -- Whole blocks of bytes, a key of 32 bytes and a nonce of 16 bytes pass the checks, and the blocks
  -- are given back.
  pub py_decrypt_blocks-py_encrypt_blocks :
      (padded enc_key nonce : Bytes)
      → IsBytes padded
      → length padded % 32 ≡ 0
      → length enc_key ≡ 32
      → length nonce ≡ 16
      → (out : Bytes) × (py_encrypt_blocks c fuel padded enc_key nonce 4 ≡ returned out)
        × IsArray (length padded) out
        × (py_decrypt_blocks c fuel out enc_key nonce 4 ≡ returned padded)
  unfolding py_encrypt_blocks py_decrypt_blocks enc_key_from_slice py_error
  py_decrypt_blocks-py_encrypt_blocks padded enc_key nonce bytes aligned key_size nonce_size =
      let (out, made, array, undone) =
        blocks_round_trip c fuel accepting padded enc_key nonce bytes aligned in
      let sized : (length enc_key == 32) ≡ true = (==_iff (length enc_key) 32).1 key_size in
      let given : (length nonce != 16) ≡ false = eq→!=_false (length nonce) 16 nonce_size in
      (out, rw (given, sized, made) refl, array, rw (given, sized, undone) refl)

module _ (c : Primitives) (rng : Rng) (json : Json) (base64 : Base64) (fuel : ℕ)
    (accepting : Accepting c fuel) (checks : Bool) where
  -- The options that each version stands for.
  abbrev version_options : Bool → EncryptOptions
  version_options true = v4 default_options
  version_options false = v5 binding_options

  version_options-IsAccepted :
      (old : Bool) (password : Bytes)
      → password ≢ []
      → IsAccepted c rng password (version_options old)
  unfolding unwrap_or_fill
  version_options-IsAccepted true password named =
      let salt = rng.fill_bytes-IsArray 0 16 in
      (
        tt,
        tt,
        (derive_keys_iff c password (rng.fill_bytes 0 16) 200_000).1
            (named, salt.0, omega arith, omega arith),
      )
  version_options-IsAccepted false password named =
      let salt = rng.fill_bytes-IsArray 0 16 in
      (
        ((omega arith, omega arith), omega arith, tt, tt),
        (derive_root_key_accepts c password (rng.fill_bytes 0 16) 200_000).1
            (named, salt.0, omega arith, omega arith),
      )

  -- For data of bytes shorter than 2 ^ 56, a password that is not empty, version 4 or 5, and
  -- samplers whose every draw ends within the fuel: `encrypt_bytes` of the Python binding returns a
  -- container, and `decrypt_bytes` of it with the same password returns the data.
  pub decrypt_bytes-encrypt_bytes :
      (input password : Bytes) (version : ℕ)
      → IsBytes input
      → length input < 2 ^ 56
      → password ≢ []
      → (version ≡ 4) ⊎ (version ≡ 5)
      → (container : Bytes) × (encrypt_bytes c rng json base64 fuel checks input password version
          ≡ returned container)
        × (decrypt_bytes c rng json base64 fuel checks container password ≡ returned input)
  unfolding encrypt_bytes decrypt_bytes encrypt_auto py_error
  decrypt_bytes-encrypt_bytes input password version bytes short named (inl four) =
      let (container, made, undone) =
        decrypt_auto-encrypt_auto c rng json base64 fuel checks accepting input password
          (v4 default_options) bytes short (version_options-IsAccepted true password named) in
      let this : (version == 4) ≡ true = (==_iff version 4).1 four in
      (container, rw (this, made) refl, rw undone refl)
  decrypt_bytes-encrypt_bytes input password version bytes short named (inr five) =
      let (container, made, undone) =
        decrypt_auto-encrypt_auto c rng json base64 fuel checks accepting input password
          (v5 binding_options) bytes short (version_options-IsAccepted false password named) in
      let other : (version == 4) ≡ false = ne→==_false version 4 (λ h. absurd (omega arith)) in
      let this : (version == 5) ≡ true = (==_iff version 5).1 five in
      (container, rw (other, this, made) refl, rw undone refl)
