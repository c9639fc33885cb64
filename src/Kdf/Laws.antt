-- ===== src/Kdf/Laws.antt =====
-- Which parameters the key derivations of crates/krcm-core/src/kdf.rs accept, and the sizes of keys.
use krcm_spn.Base.{
  Bytes, IsArray, Settled, Settled-returns, [], arith, codes, diverged, drop, fail_if-Settled,
  invalid_parameter, invalid_password, length, ok, panic, refl, take, ℕ, ◌!=◌, ◌++◌, ◌==◌, ◌||◌,
  ◌↔◌, ◌∷◌, ◌≡◌, ◌≢◌, ◌≤◌,
}
use krcm_spn.Kdf.{
  KdfParams, bad_iterations, derive_keys, derive_root_key, derive_v5_keys, derive_with, hmac_sha256,
  make_tag, pbkdf2_params, scrypt_params, subkey,
}
use krcm_spn.Primitives.{Primitives}

module _ (c : Primitives) where
  -- `derive_keys` returns keys exactly when the password is not empty, the salt has 16 bytes and
  -- the iterations are 1 to 1 000 000.
  pub derive_keys_iff :
      (password salt : Bytes) (iterations : ℕ)
      → ((keys : Bytes × Bytes) × (derive_keys c password salt iterations ≡ ok keys))
        ↔ ((password ≢ []) × (length salt ≡ 16) × (1 ≤ iterations) × (iterations ≤ 1_000_000))
  unfolding derive_keys
  derive_keys_iff [] salt iterations = (λ h. cc (h.1), λ h. absurd (h.0 refl))
  derive_keys_iff (b ∷ bs) salt iterations = (
    λ h. let e = h.1 in (λ q. cc, ground arith, ground arith, ground arith),
    λ h.
        let root = c.pbkdf2 (b ∷ bs) salt iterations 64 in
        (
          (
            hmac_sha256 c (take 32 root) (codes "AMPC-ENC"),
            hmac_sha256 c (drop 32 root) (codes "AMPC-AUTH"),
          ),
          ground arith,
        ),
  )

  pub derive_keys-IsArray :
      (password salt : Bytes) (iterations : ℕ) {keys : Bytes × Bytes}
      → derive_keys c password salt iterations ≡ ok keys
      → IsArray 32 keys.0 × IsArray 32 keys.1
  unfolding derive_keys hmac_sha256
  derive_keys-IsArray password salt iterations {keys} e =
      let root = c.pbkdf2 password salt iterations 64 in
      let made : keys
          ≡ (c.hmac (take 32 root) (codes "AMPC-ENC"), c.hmac (drop 32 root) (codes "AMPC-AUTH")) =
        ground arith in
      rw made (
        c.hmac-IsArray (take 32 root) (codes "AMPC-ENC"),
        c.hmac-IsArray (drop 32 root) (codes "AMPC-AUTH"),
      )

  -- `derive_root_key` with PBKDF2 returns a key for the same inputs as `derive_keys`.
  pub derive_root_key_accepts :
      (password salt : Bytes) (iterations : ℕ)
      → ((root : Bytes) × (derive_root_key c password salt (pbkdf2_params iterations) ≡ ok root))
        ↔ ((password ≢ []) × (length salt ≡ 16) × (1 ≤ iterations) × (iterations ≤ 1_000_000))
  unfolding derive_root_key derive_with
  derive_root_key_accepts [] salt iterations = (λ h. cc (h.1), λ h. absurd (h.0 refl))
  derive_root_key_accepts (b ∷ bs) salt iterations = (
    λ h. let e = h.1 in (λ q. cc, ground arith, ground arith, ground arith),
    λ h. (c.pbkdf2 (b ∷ bs) salt iterations 32, ground arith),
  )

  -- Each of the five keys of a version 5 container has 32 bytes.
  pub derive_v5_keys-IsArray :
      (root : Bytes)
      → let k = derive_v5_keys c root in
        IsArray 32 k.enc_key
        × IsArray 32 k.auth_key
        × IsArray 32 k.siv_key
        × IsArray 32 k.block_key
        × IsArray 32 k.segment_key
  unfolding derive_v5_keys subkey hmac_sha256
  derive_v5_keys-IsArray root = (
    c.hmac-IsArray root _,
    c.hmac-IsArray root _,
    c.hmac-IsArray root _,
    c.hmac-IsArray root _,
    c.hmac-IsArray root _,
  )

  pub make_tag-IsArray :
      (auth_key header_bytes ciphertext : Bytes)
      → IsArray 32 (make_tag c auth_key header_bytes ciphertext)
  unfolding make_tag hmac_sha256
  make_tag-IsArray auth_key header_bytes ciphertext =
      c.hmac-IsArray auth_key (header_bytes ++ ciphertext)

  pub derive_root_key-Settled :
      (password salt : Bytes) (params : KdfParams)
      → Settled (derive_root_key c password salt params)
  unfolding derive_root_key derive_with
  derive_root_key-Settled password salt (pbkdf2_params iterations) = ground arith
  derive_root_key-Settled password salt (scrypt_params n_log2 r p) = ground arith

  -- No key derivation panics or runs on.
  pub derive_root_key_returns :
      (password salt : Bytes) (params : KdfParams)
      → (derive_root_key c password salt params ≢ panic)
        × (derive_root_key c password salt params ≢ diverged)
  derive_root_key_returns password salt params =
      Settled-returns _ (derive_root_key-Settled password salt params)

  pub derive_keys-Settled :
      (password salt : Bytes) (iterations : ℕ) → Settled (derive_keys c password salt iterations)
  unfolding derive_keys
  derive_keys-Settled password salt iterations =
      fail_if-Settled (length password == 0) invalid_password _ (λ some_password.
        fail_if-Settled ((length salt != 16) || bad_iterations iterations) invalid_parameter _
          (λ good. tt))
