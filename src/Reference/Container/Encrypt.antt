-- ===== src/Reference/Container/Encrypt.antt =====
-- `encrypt_bytes` of krcm/core.py, and `encrypt_v4` of crates/krcm-core/src/format_v4.rs.
use native.Mathlib.Nat.{mod-eq_of_lt}
use krcm_spn.Base.{
  Bool, Bool-cases, Bytes, IsArray, IsBytes, ap, arith, eq→!=_false, false, inl, inr,
  invalid_parameter, invalid_password, length, ltb, ok, refl, some, to_be_bytes, true, ℕ, ◌!=◌,
  ◌++◌, ◌<◌, ◌==◌, ◌^◌, ◌||◌, ◌≡◌, ◌≤◌,
}
use krcm_spn.Block.{encrypt_blocks}
use krcm_spn.Constants.{magic_v4}
use krcm_spn.ContainerV4.{EncryptV4Options, assemble_v4, decrypt_v4, encrypt_v4}
use krcm_spn.ContainerV4.RoundTrip.{decrypt_v4-encrypt_v4}
use krcm_spn.HeaderV4.{new_header, to_json_bytes}
use krcm_spn.HeaderV4.Laws.{length-to_json_bytes, new_header-IsValidHeader}
use krcm_spn.Json.{Base64, Json}
use krcm_spn.Kdf.{bad_iterations, derive_keys, hmac_sha256, make_tag}
use krcm_spn.Padding.{pad}
use krcm_spn.Padding.Laws.{pad-IsBytes, pad-aligned}
use krcm_spn.Primitives.{Primitives, Rng, unwrap_or_fill}
use krcm_spn.Reference.{bad_value, done, raised, to_bytes_fits}
use krcm_spn.Reference.Affine.{InversePower}
use krcm_spn.Reference.Agree.{>>=-Agree, Agree, Agree-done, guard-Agree}
use krcm_spn.Reference.Blocks.{encrypt_blocks_py}
use krcm_spn.Reference.Blocks.Agree.{encrypt_blocks-Agree}
use krcm_spn.Reference.Container.{Dumps, derive_keys_py, encrypt_bytes_py}
use krcm_spn.Reference.Container.Header.{to_json_bytes_py-to_json_bytes}
use krcm_spn.Reference.Container.Padding.{pad_py-pad}
use krcm_spn.Sampler.Draws.{Accepting}

module _ (c : Primitives) where
  -- The two derive the same keys, and both refuse an empty password, a salt of another length and
  -- iterations out of range.
  pub derive_keys-Agree :
      (password salt : Bytes) (iterations : ℕ)
      → Agree (derive_keys c password salt iterations) (derive_keys_py c password salt iterations)
  unfolding derive_keys derive_keys_py hmac_sha256
  derive_keys-Agree password salt iterations =
      let same_range : bad_iterations iterations ≡ (ltb iterations 1 || ltb 1_000_000 iterations) =
        ground arith in
      guard-Agree (length password == 0) invalid_password bad_value _ _ tt (λ named.
        elim (Bool-cases (length salt != 16)) [
          | inl wrong ↦ rw wrong tt
          | inr sized ↦
              rw (sized, same_range)
                (guard-Agree (ltb iterations 1 || ltb 1_000_000 iterations) invalid_parameter
                  bad_value _ _ tt (λ few. refl))
        ])

  derive_keys_py_refuses :
      (password salt : Bytes) (iterations : ℕ)
      → bad_iterations iterations ≡ true
      → derive_keys_py c password salt iterations ≡ raised bad_value
  unfolding derive_keys_py
  derive_keys_py_refuses password salt iterations bad = ground arith

-- The salt and the nonce that the reference draws.
abbrev pub drawn_options : (ℕ → ℕ → Bytes) → ℕ → EncryptV4Options
drawn_options source iterations = record {
  iterations = iterations;
  salt = some (source 0 16);
  nonce = some (source 1 16);
}

-- What the reference writes is what `encrypt_v4` writes with the same salt and nonce.
module _ (c : Primitives) (source : ℕ → ℕ → Bytes) (rng : Rng) (dumps : Dumps) (json : Json)
    (base64 : Base64) (power : InversePower) (fuel : ℕ) (few : fuel ≤ 2 ^ 20) (checks : Bool) where
  -- For samplers of at most 2 ^ 20 draws, data of bytes shorter than 2 ^ 62 and a drawn salt and
  -- nonce of 16 bytes, and for every password and number of iterations: `encrypt_bytes` of
  -- krcm/core.py and `encrypt_v4` with that salt and nonce agree, that is both return the same
  -- container, or both refuse the parameters, or neither ends within its draws.
  pub encrypt_bytes-Agree :
      (plain password : Bytes) (iterations : ℕ)
      → IsBytes plain
      → length plain < 2 ^ 62
      → IsArray 16 (source 0 16)
      → IsArray 16 (source 1 16)
      → Agree
          (encrypt_v4 c rng json base64 fuel checks plain password
            (drawn_options source iterations))
          (encrypt_bytes_py c source dumps base64 power fuel plain password iterations)
  unfolding encrypt_v4 encrypt_bytes_py unwrap_or_fill new_header make_tag hmac_sha256 assemble_v4
  encrypt_bytes-Agree plain password iterations bytes short salted nonced =
      let salt = source 0 16 in
      let nonce = source 1 16 in
      let header = new_header iterations salt nonce (length plain) in
      let salt_sized = eq→!=_false (length salt) 16 (salted.0) in
      let nonce_sized = eq→!=_false (length nonce) 16 (nonced.0) in
      elim (Bool-cases (bad_iterations iterations)) [
        | inl bad ↦ elim (Bool-cases (ltb iterations 1)) [
          | inl none_at_all ↦ rw (bad, none_at_all) tt
          | inr too_many ↦
              rw
                (
                  bad,
                  too_many,
                  salt_sized,
                  nonce_sized,
                  derive_keys_py_refuses c password salt iterations bad,
                )
                tt
        ]
        | inr good ↦
            let low : ltb iterations 1 ≡ false = ground arith in
            let valid =
              new_header-IsValidHeader iterations salt nonce (length plain) (ground arith)
                (ground arith) salted nonced (omega arith) in
            let header_bytes = to_json_bytes base64 header in
            let small : length header_bytes < 2 ^ 32 =
              omega (arith, length-to_json_bytes base64 header valid) in
            rw (good, low, salt_sized, nonce_sized, pad_py-pad plain)
              (>>=-Agree (derive_keys c password salt iterations)
                (derive_keys_py c password salt iterations) _ _
                (derive_keys-Agree c password salt iterations)
                (λ keys e.
                  >>=-Agree (encrypt_blocks c fuel (pad plain) keys.0 nonce)
                    (encrypt_blocks_py c power fuel (pad plain) keys.0 nonce 4) _ _
                    (encrypt_blocks-Agree c power fuel few (pad plain) keys.0 nonce 4 (omega arith)
                      (pad-IsBytes plain bytes) (omega (arith, pad-aligned plain)))
                    (λ ciphertext e'.
                      let rest = λ (t : ℕ).
                        magic_v4
                        ++ (to_be_bytes 4 t
                            ++ (header_bytes
                                ++ (ciphertext ++ c.hmac keys.1 (header_bytes ++ ciphertext)))) in
                      rw
                        (
                          to_json_bytes_py-to_json_bytes dumps base64 header valid,
                          to_bytes_fits 4 (length header_bytes) small,
                        )
                        (ap rest (mod-eq_of_lt small)))))
      ]

  -- For data of bytes shorter than 2 ^ 62, a drawn salt and nonce of 16 bytes, keys derived from
  -- the password and the salt, and samplers whose every draw ends within the fuel, which is at most
  -- 2 ^ 20: `encrypt_bytes` of krcm/core.py returns a container, and `decrypt_v4` of the crate with
  -- the same password returns the data.
  pub decrypt_v4-encrypt_bytes_py :
      Accepting c fuel
      → (plain password : Bytes) (iterations : ℕ) (keys : Bytes × Bytes) → IsBytes plain
      → length plain < 2 ^ 62
      → IsArray 16 (source 0 16)
      → IsArray 16 (source 1 16)
      → derive_keys c password (source 0 16) iterations ≡ ok keys
      → (container : Bytes) × (encrypt_bytes_py c source dumps base64 power fuel plain password
            iterations
          ≡ done container)
        × (decrypt_v4 c rng json base64 fuel checks container password ≡ ok plain)
  unfolding unwrap_or_fill
  decrypt_v4-encrypt_bytes_py accepting plain password iterations keys bytes short salted nonced
        derived =
      let (container, made, reads) =
        decrypt_v4-encrypt_v4 c rng json base64 fuel accepting checks plain password
          (drawn_options source iterations) keys bytes short salted nonced derived in
      (
        container,
        Agree-done _ made (encrypt_bytes-Agree plain password iterations bytes short salted nonced),
        reads,
      )
