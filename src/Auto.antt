-- ===== src/Auto.antt =====
-- crates/krcm-core/src/lib.rs: the version of a container is found by its magic text.
pub mod RoundTrip
pub mod Sized
use krcm_spn.Base.{Bool, Bytes, Outcome, err, if◌then◌else◌, starts_with, unsupported_version, ℕ}
use krcm_spn.Constants.{magic_v4, magic_v5}
use krcm_spn.ContainerV4.{EncryptV4Options, decrypt_v4, encrypt_v4}
use krcm_spn.ContainerV5.{decrypt_v5, encrypt_v5}
use krcm_spn.HeaderV5.{EncryptV5Options}
use krcm_spn.Json.{Base64, Json}
use krcm_spn.Primitives.{Primitives, Rng}

pub data EncryptOptions : Type 0 where
  v4 : EncryptV4Options → EncryptOptions
  v5 : EncryptV5Options → EncryptOptions

module _ (c : Primitives) (rng : Rng) (json : Json) (base64 : Base64) (fuel : ℕ)
    (checks : Bool) where
  unfoldable pub decrypt_auto : Bytes → Bytes → Outcome Bytes
  decrypt_auto container password =
      if starts_with container magic_v4
      then decrypt_v4 c rng json base64 fuel checks container password
      else (if starts_with container magic_v5
          then decrypt_v5 c rng fuel checks container password
          else err unsupported_version)

  unfoldable pub encrypt_auto : Bytes → Bytes → EncryptOptions → Outcome Bytes
  encrypt_auto input password (v4 opts) =
      encrypt_v4 c rng json base64 fuel checks input password opts
  encrypt_auto input password (v5 opts) = encrypt_v5 c rng fuel checks input password opts
