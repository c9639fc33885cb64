-- ===== src/HeaderV4.antt =====
-- crates/krcm-core/src/header_v4.rs: the JSON header of a version 4 container.
pub mod Laws
pub mod Sound
use krcm_spn.Base.{
  Bool, Bytes, List, Option, Outcome, [], bytes_eq, codes, fail_if, false, format, if◌then◌else◌,
  leb, length, none, not, ok, ok_or, some, unsupported_version, ℕ, ◌!=◌, ◌%◌, ◌&&◌, ◌==◌, ◌>>=◌,
  ◌>>◌, ◌∷◌,
}
use krcm_spn.Constants.{block_bytes, nonce_bytes, rounds, salt_bytes, version_v4}
use krcm_spn.Json.{Base64, Field, Json, number, print_object, text}
use krcm_spn.Kdf.{bad_iterations}

pub record HeaderV4 : Type 0 where
  pub version : ℕ
  pub iterations : ℕ
  pub salt : Bytes
  pub nonce : Bytes
  pub original_length : ℕ

unfoldable pub new_header : ℕ → Bytes → Bytes → ℕ → HeaderV4
new_header iterations salt nonce original_length = record {
  version = version_v4;
  iterations = iterations;
  salt = salt;
  nonce = nonce;
  original_length = original_length;
}

abbrev pub construction : ℕ → Bytes
construction version =
    if version == 3
    then codes "AMPC-AffineSubstitution-Matrix-v3"
    else codes "AMPC-Permutation-Matrix-v4"

abbrev pub is_text : Option Bytes → Bytes → Bool
is_text none t = false
is_text (some s) t = bytes_eq s t

abbrev pub is_number : Option ℕ → ℕ → Bool
is_number none n = false
is_number (some k) n = k == n

module _ (base64 : Base64) where
  -- The members of the text that `format!` writes, in its order.
  unfoldable pub members : HeaderV4 → List (Bytes × Field)
  members header =
      (codes "block_bytes", number block_bytes)
      ∷ (codes "construction", text (construction header.version))
      ∷ (codes "iterations", number header.iterations)
      ∷ (codes "magic", text (codes "AMPCRYPT"))
      ∷ (codes "nonce", text (base64.encode header.nonce))
      ∷ (codes "original_length", number header.original_length)
      ∷ (codes "rounds", number rounds)
      ∷ (codes "salt", text (base64.encode header.salt))
      ∷ (codes "version", number header.version)
      ∷ (codes "word_bits", number 64)
      ∷ []

  unfoldable pub to_json_bytes : HeaderV4 → Bytes
  to_json_bytes header = print_object (members header)

  unfoldable pub decode_fixed : ℕ → Bytes → Outcome Bytes
  decode_fixed n input = do
    bytes ← ok_or (base64.decode input) format
    fail_if (length bytes != n) format
    ok bytes

module _ (json : Json) (base64 : Base64) where
  -- `from_json_bytes` from the iterations on, with the version read before.
  unfoldable pub read_fields : json.Value → ℕ → Outcome HeaderV4
  read_fields payload version = do
    iterations ← ok_or (json.get_u64 (codes "iterations") payload) format
    fail_if (bad_iterations iterations) format
    original_length ← ok_or (json.get_u64 (codes "original_length") payload) format
    salt_text ← ok_or (json.get_str (codes "salt") payload) format
    salt ← decode_fixed base64 salt_bytes salt_text
    nonce_text ← ok_or (json.get_str (codes "nonce") payload) format
    nonce ← decode_fixed base64 nonce_bytes nonce_text
    ok (record {
      version = version;
      iterations = iterations;
      salt = salt;
      nonce = nonce;
      original_length = original_length;
    })

  unfoldable pub from_json_bytes : Bytes → Outcome HeaderV4
  from_json_bytes input = do
    payload ← ok_or (json.from_slice input) format
    fail_if (not (is_text (json.get_str (codes "magic") payload) (codes "AMPCRYPT"))) format
    version_u64 ← ok_or (json.get_u64 (codes "version") payload) format
    let version = version_u64 % 256
    fail_if (not (leb 2 version && leb version 4)) unsupported_version
    fail_if (not (is_number (json.get_u64 (codes "block_bytes") payload) block_bytes)) format
    fail_if (not (is_number (json.get_u64 (codes "rounds") payload) rounds)) format
    read_fields payload version
