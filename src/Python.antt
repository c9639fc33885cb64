-- ===== src/Python.antt =====
-- crates/krcm-py/src/lib.rs: the functions of the module `_krcm_rust`, with the texts of
-- crates/krcm-core/src/error.rs. The conversion of `bytes` objects by PyO3 has no part here.
pub mod RoundTrip
use krcm_spn.Base.{
  Bool, Bytes, KrcmError, Outcome, authentication, codes, diverged, err, false, format,
  if◌then◌else◌, internal, invalid_parameter, invalid_password, io, length, none, ok, panic, true,
  unsupported_version, ℕ, ◌!=◌, ◌*◌, ◌==◌,
}
use krcm_spn.Auto.{decrypt_auto, v4}
use krcm_spn.Block.{decrypt_blocks, encrypt_blocks}
use krcm_spn.ContainerV4.{default_options, encrypt_v4}
use krcm_spn.ContainerV5.{encrypt_v5}
use krcm_spn.HeaderV5.{EncryptV5Options, minimal_block}
use krcm_spn.Json.{Base64, Json}
use krcm_spn.Kdf.{pbkdf2_params}
use krcm_spn.Primitives.{Primitives, Rng}

-- `PyResult`, where the only exception that is raised is `ValueError`; a panic and a call without an
-- answer stay what they are.
pub data PyResult {ℓ} (V : Type ℓ) : Type ℓ where
  panicked : PyResult V
  unanswered : PyResult V
  value_error : Bytes → PyResult V
  returned : V → PyResult V

infixl 5 ◌>>=◌
-- `?`
abbrev ◌>>=◌ {ℓ κ} : {V : Type ℓ} {W : Type κ} → PyResult V → (V → PyResult W) → PyResult W
panicked >>= next = panicked
unanswered >>= next = unanswered
value_error why >>= next = value_error why
returned v >>= next = next v

infixl 5 ◌>>◌
abbrev ◌>>◌ {ℓ} : {W : Type ℓ} → PyResult (Unit {0}) → PyResult W → PyResult W
first >> next = first >>= λ _. next

-- `if test { return Err(PyValueError::new_err(message)) }`
abbrev raise_if : Bool → Bytes → PyResult (Unit {0})
raise_if true message = value_error message
raise_if false message = returned tt

-- The text of an error.
unfoldable pub error_text : KrcmError → Bytes
error_text format = codes "invalid container format"
error_text authentication = codes "authentication failed"
error_text invalid_password = codes "invalid password"
error_text invalid_parameter = codes "invalid parameter"
error_text unsupported_version = codes "unsupported version"
error_text io = codes "io error"
error_text internal = codes "internal error"

-- `.map_err(py_error)?`
unfoldable pub py_error {ℓ} : {V : Type ℓ} → Outcome V → PyResult V
py_error panic = panicked
py_error diverged = unanswered
py_error (err why) = value_error (error_text why)
py_error (ok v) = returned v

unfoldable pub enc_key_from_slice : Bytes → PyResult Bytes
enc_key_from_slice enc_key =
    if length enc_key == 32
    then returned enc_key
    else value_error (codes "enc_key must be 32 bytes")

-- The options of version 5.
abbrev pub binding_options : EncryptV5Options
binding_options = record {
  kdf = pbkdf2_params 200_000;
  padding_policy = minimal_block;
  segment_size = 4 * 1024 * 1024;
  workers = 1;
  salt = none;
  public_nonce = none;
}

module _ (c : Primitives) (fuel : ℕ) where
  unfoldable pub py_encrypt_blocks : Bytes → Bytes → Bytes → ℕ → PyResult Bytes
  py_encrypt_blocks padded enc_key nonce version = do
    raise_if (version != 4) (codes "native block accelerator supports v4 only")
    raise_if (length nonce != 16) (codes "nonce must be 16 bytes")
    key ← enc_key_from_slice enc_key
    py_error (encrypt_blocks c fuel padded key nonce)

  unfoldable pub py_decrypt_blocks : Bytes → Bytes → Bytes → ℕ → PyResult Bytes
  py_decrypt_blocks ciphertext enc_key nonce version = do
    raise_if (version != 4) (codes "native block accelerator supports v4 only")
    raise_if (length nonce != 16) (codes "nonce must be 16 bytes")
    key ← enc_key_from_slice enc_key
    py_error (decrypt_blocks c fuel ciphertext key nonce)

module _ (c : Primitives) (rng : Rng) (json : Json) (base64 : Base64) (fuel : ℕ)
    (checks : Bool) where
  unfoldable pub encrypt_bytes : Bytes → Bytes → ℕ → PyResult Bytes
  encrypt_bytes data_bytes password version =
      if version == 4
      then py_error (encrypt_v4 c rng json base64 fuel checks data_bytes password default_options)
      else (if version == 5
          then py_error (encrypt_v5 c rng fuel checks data_bytes password binding_options)
          else value_error (codes "unsupported KRCM-SPN version"))

  unfoldable pub decrypt_bytes : Bytes → Bytes → PyResult Bytes
  decrypt_bytes container password =
      py_error (decrypt_auto c rng json base64 fuel checks container password)
