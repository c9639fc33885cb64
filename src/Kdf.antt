-- ===== src/Kdf.antt =====
-- crates/krcm-core/src/kdf.rs: keys from a password. The key types that wrap `[u8; 32]` are the
-- arrays themselves; clearing them when they are dropped has no result to model.
pub mod Laws
use krcm_spn.Base.{
  Bool, Bytes, Outcome, codes, drop, fail_if, invalid_parameter, invalid_password, length, ltb, not,
  ok, ok_or, take, ℕ, ◌!=◌, ◌++◌, ◌==◌, ◌>>=◌, ◌>>◌, ◌||◌,
}
use krcm_spn.Constants.{max_pbkdf2_iterations, salt_bytes}
use krcm_spn.Primitives.{Primitives}

pub data KdfParams : Type 0 where
  pbkdf2_params : ℕ → KdfParams
  scrypt_params : ℕ → ℕ → ℕ → KdfParams

pub record V5Keys : Type 0 where
  pub enc_key : Bytes
  pub auth_key : Bytes
  pub siv_key : Bytes
  pub block_key : Bytes
  pub segment_key : Bytes

-- What `pack_public_header` and `derive_root_key` test of the parameters.
abbrev pub bad_iterations : ℕ → Bool
bad_iterations iterations = (iterations == 0) || ltb max_pbkdf2_iterations iterations

abbrev pub bad_scrypt : ℕ → ℕ → ℕ → Bool
bad_scrypt n_log2 r p = ltb 15 n_log2 || (r == 0) || ltb 8 r || (p == 0) || ltb 2 p

module _ (c : Primitives) where
  unfoldable pub hmac_sha256 : Bytes → Bytes → Bytes
  hmac_sha256 key message = c.hmac key message

  unfoldable pub derive_keys : Bytes → Bytes → ℕ → Outcome (Bytes × Bytes)
  derive_keys password salt iterations = do
    fail_if (length password == 0) invalid_password
    fail_if ((length salt != salt_bytes) || bad_iterations iterations) invalid_parameter
    let root = c.pbkdf2 password salt iterations 64
    ok (
      hmac_sha256 (take 32 root) (codes "AMPC-ENC"),
      hmac_sha256 (drop 32 root) (codes "AMPC-AUTH"),
    )

  unfoldable pub make_tag : Bytes → Bytes → Bytes → Bytes
  make_tag auth_key header_bytes ciphertext = hmac_sha256 auth_key (header_bytes ++ ciphertext)

  unfoldable pub derive_with : Bytes → Bytes → KdfParams → Outcome Bytes
  derive_with password salt (pbkdf2_params iterations) = do
    fail_if (bad_iterations iterations) invalid_parameter
    ok (c.pbkdf2 password salt iterations 32)
  derive_with password salt (scrypt_params n_log2 r p) = do
    fail_if (bad_scrypt n_log2 r p) invalid_parameter
    fail_if (not (c.scrypt_params n_log2 r p 32)) invalid_parameter
    ok_or (c.scrypt password salt n_log2 r p 32) invalid_parameter

  unfoldable pub derive_root_key : Bytes → Bytes → KdfParams → Outcome Bytes
  derive_root_key password salt params = do
    fail_if ((length password == 0) || (length salt != salt_bytes)) invalid_parameter
    derive_with password salt params

  unfoldable pub subkey : Bytes → Bytes → Bytes
  subkey root label = hmac_sha256 root (codes "KRCM-v5-subkey" ++ label)

  unfoldable pub derive_v5_keys : Bytes → V5Keys
  derive_v5_keys root = record {
    enc_key = subkey root (codes "KRCM-v5-enc");
    auth_key = subkey root (codes "KRCM-v5-auth");
    siv_key = subkey root (codes "KRCM-v5-siv");
    block_key = subkey root (codes "KRCM-v5-block");
    segment_key = subkey root (codes "KRCM-v5-segment");
  }
