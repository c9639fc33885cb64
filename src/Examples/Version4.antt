-- ===== src/Examples/Version4.antt =====
-- The theorems on version 4, on the choice of the version and on the Python binding at concrete
-- inputs.
use krcm_spn.Base.{
  Bytes, [], arith, codes, diverged, inr, none, ok, panic, refl, replicate, some, true, ◌++◌, ◌∷◌,
  ◌≡◌, ◌≢◌,
}
use krcm_spn.Auto.{decrypt_auto, encrypt_auto, v5}
use krcm_spn.Auto.RoundTrip.{IsAccepted, decrypt_auto-encrypt_auto}
use krcm_spn.Constants.{magic_v4}
use krcm_spn.ContainerV4.{EncryptV4Options, PartsV4, decrypt_v4, encrypt_v4, read_v4}
use krcm_spn.ContainerV4.Authentic.{OpenedV4, decrypt_v4_authentic}
use krcm_spn.ContainerV4.RoundTrip.{decrypt_v4-encrypt_v4}
use krcm_spn.ContainerV4.Settles.{decrypt_v4_returns}
use krcm_spn.Examples.{toy, toy-Accepting, toy_rng}
use krcm_spn.Examples.Letters.{toy_base64}
use krcm_spn.Examples.Text.{toy_json}
use krcm_spn.HeaderV4.{HeaderV4, from_json_bytes, new_header, to_json_bytes}
use krcm_spn.HeaderV4.Laws.{IsValidHeader, from_json_bytes-to_json_bytes, new_header-IsValidHeader}
use krcm_spn.HeaderV4.Sound.{from_json_bytes_sound}
use krcm_spn.HeaderV5.{EncryptV5Options, random_blocks}
use krcm_spn.Kdf.{derive_keys, pbkdf2_params}
use krcm_spn.Kdf.Laws.{derive_keys_iff, derive_root_key_accepts}
use krcm_spn.Primitives.{unwrap_or_fill}
use krcm_spn.Python.{decrypt_bytes, encrypt_bytes, returned}
use krcm_spn.Python.RoundTrip.{decrypt_bytes-encrypt_bytes}

abbrev message : Bytes
message = codes "attack at dawn"

abbrev password : Bytes
password = codes "secret"

abbrev options : EncryptV4Options
options = record { iterations = 1000; salt = none; nonce = some (replicate 16 8) }

derived :
    (keys : Bytes × Bytes) × (derive_keys toy password
        (unwrap_or_fill toy_rng options.salt 0).0
        1000
      ≡ ok keys)
unfolding unwrap_or_fill
derived =
    (derive_keys_iff toy password (toy_rng.fill_bytes 0 16) 1000).1
      ((λ e. cc), omega arith, omega arith, omega arith)

decrypt_v4-encrypt_v4_example :
    (container : Bytes) × (encrypt_v4 toy toy_rng toy_json toy_base64 1 true message password
        options
      ≡ ok container)
    × (decrypt_v4 toy toy_rng toy_json toy_base64 1 true container password ≡ ok message)
decrypt_v4-encrypt_v4_example =
    decrypt_v4-encrypt_v4 toy toy_rng toy_json toy_base64 1 toy-Accepting true message password
      options derived.0 (omega arith) (omega arith) tt (omega arith) derived.1

sealed :
    (container : Bytes) × (encrypt_v4 toy toy_rng toy_json toy_base64 1 true message password
        options
      ≡ ok container)
    × (decrypt_v4 toy toy_rng toy_json toy_base64 1 true container password ≡ ok message)
sealed =
    decrypt_v4-encrypt_v4 toy toy_rng toy_json toy_base64 1 toy-Accepting true message password
      options derived.0 (omega arith) (omega arith) tt (omega arith) derived.1

decrypt_v4_authentic_example :
    (parts : PartsV4) × (read_v4 toy toy_rng toy_json toy_base64 1 true sealed.0 ≡ ok parts)
    × OpenedV4 toy toy_rng toy_json toy_base64 1 true parts password message
decrypt_v4_authentic_example =
    decrypt_v4_authentic toy toy_rng toy_json toy_base64 1 true sealed.0 password message sealed.2

-- A container with a header length of 5 and a header that is no JSON.
abbrev garbled : Bytes
garbled = magic_v4 ++ (0 ∷ 0 ∷ 0 ∷ 5 ∷ []) ++ replicate 60 65

decrypt_v4_returns_example :
    (decrypt_v4 toy toy_rng toy_json toy_base64 1 true garbled password ≢ panic)
    × (decrypt_v4 toy toy_rng toy_json toy_base64 1 true garbled password ≢ diverged)
decrypt_v4_returns_example =
    decrypt_v4_returns toy toy_rng toy_json toy_base64 1 toy-Accepting true garbled password
      (omega arith)

abbrev header : HeaderV4
header = new_header 1000 (replicate 16 9) (replicate 16 8) 14

header-IsValidHeader : IsValidHeader header
header-IsValidHeader =
    new_header-IsValidHeader 1000 (replicate 16 9) (replicate 16 8) 14 (omega arith) (omega arith)
      (omega arith) (omega arith) (omega arith)

parsed : from_json_bytes toy_json toy_base64 (to_json_bytes toy_base64 header) ≡ ok header
parsed = from_json_bytes-to_json_bytes toy_json toy_base64 header header-IsValidHeader

abbrev options_v5 : EncryptV5Options
options_v5 = record {
  kdf = pbkdf2_params 1000;
  padding_policy = random_blocks 3;
  segment_size = 32;
  workers = 2;
  salt = none;
  public_nonce = none;
}

options_v5-IsAccepted : IsAccepted toy toy_rng password (v5 options_v5)
unfolding unwrap_or_fill
options_v5-IsAccepted = (
  (omega arith, omega arith, tt, tt),
  (derive_root_key_accepts toy password (toy_rng.fill_bytes 0 16) 1000).1
      ((λ e. cc), omega arith, omega arith, omega arith),
)

decrypt_auto-encrypt_auto_example :
    (container : Bytes) × (encrypt_auto toy toy_rng toy_json toy_base64 1 true message password
        (v5 options_v5)
      ≡ ok container)
    × (decrypt_auto toy toy_rng toy_json toy_base64 1 true container password ≡ ok message)
decrypt_auto-encrypt_auto_example =
    decrypt_auto-encrypt_auto toy toy_rng toy_json toy_base64 1 true toy-Accepting message password
      (v5 options_v5) (omega arith) (omega arith) options_v5-IsAccepted

decrypt_bytes-encrypt_bytes_example :
    (container : Bytes) × (encrypt_bytes toy toy_rng toy_json toy_base64 1 true message password 5
      ≡ returned container)
    × (decrypt_bytes toy toy_rng toy_json toy_base64 1 true container password ≡ returned message)
decrypt_bytes-encrypt_bytes_example =
    decrypt_bytes-encrypt_bytes toy toy_rng toy_json toy_base64 1 toy-Accepting true message
      password 5 (omega arith) (omega arith) (λ e. cc) (inr refl)

from_json_bytes_sound_example : IsValidHeader header
from_json_bytes_sound_example =
    from_json_bytes_sound toy_json toy_base64 (to_json_bytes toy_base64 header) parsed
