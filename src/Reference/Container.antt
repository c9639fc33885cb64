-- ===== src/Reference/Container.antt =====
-- The version 4 container of krcm/core.py: `derive_keys`, `_pad`, `_unpad`, `Header.to_json_bytes`
-- and `encrypt_bytes`; `decrypt_bytes` is in Read. Passwords and data are bytes. base64 is the encoding that the crate uses.
pub mod Padding
pub mod Header
pub mod Encrypt
pub mod Read
use krcm_spn.Base.{
  Bool, Bytes, List, [], bytes_eq, codes, drop, false, get_or, if◌then◌else◌, length, ltb, not,
  replicate, take, true, ℕ, ◌!=◌, ◌%◌, ◌++◌, ◌-◌, ◌==◌, ◌||◌, ◌∷◌, ◌≡◌,
}
use krcm_spn.Cli.Options.{pbkdf2}
use krcm_spn.Constants.{
  block_bytes, magic_v4, max_pbkdf2_iterations, nonce_bytes, rounds, salt_bytes, version_v4,
}
use krcm_spn.HeaderV4.{HeaderV4}
use krcm_spn.Json.{Base64, Field, IsPlainObject, number, print_object, text}
use krcm_spn.Primitives.{Primitives}
use krcm_spn.Reference.{
  Attempt, bad_format, bad_value, done, not_authentic, raise_if, to_bytes, ◌>>=◌, ◌>>◌,
}
use krcm_spn.Reference.Affine.{InversePower}
use krcm_spn.Reference.Blocks.{encrypt_blocks_py}

-- Python's order of keys of ASCII characters.
abbrev key_le : Bytes → Bytes → Bool
key_le [] key = true
key_le (x ∷ xs) [] = false
key_le (x ∷ xs) (y ∷ ys) =
    let rest = key_le xs ys in if ltb x y then true else (if x == y then rest else false)

abbrev insert_member : Bytes → Field → List (Bytes × Field) → List (Bytes × Field)
insert_member key field [] = (key, field) ∷ []
insert_member key field ((k, f) ∷ ms) =
    let rest = insert_member key field ms in
    if key_le key k then (key, field) ∷ (k, f) ∷ ms else (k, f) ∷ rest

abbrev pub sort_keys : List (Bytes × Field) → List (Bytes × Field)
sort_keys [] = []
sort_keys ((key, field) ∷ ms) = insert_member key field (sort_keys ms)

-- `json.dumps(payload, sort_keys=True, separators=(",", ":")).encode("utf-8")`: the members in the
-- order of their keys, without blanks.
pub record Dumps : Type 0 where
  pub dumps : List (Bytes × Field) → Bytes
  pub dumps_sorted :
      (ms : List (Bytes × Field)) → IsPlainObject ms → dumps ms ≡ print_object (sort_keys ms)

-- The payload in the order in which `to_json_bytes` writes it down.
unfoldable pub payload_py : Base64 → HeaderV4 → List (Bytes × Field)
payload_py base64 header =
    (codes "magic", text (codes "AMPCRYPT"))
    ∷ (codes "version", number header.version)
    ∷ (codes "iterations", number header.iterations)
    ∷ (codes "salt", text (base64.encode header.salt))
    ∷ (codes "nonce", text (base64.encode header.nonce))
    ∷ (codes "original_length", number header.original_length)
    ∷ (codes "block_bytes", number block_bytes)
    ∷ (codes "word_bits", number 64)
    ∷ (codes "rounds", number rounds)
    ∷ (
      codes "construction",
      text (
          if header.version == 3
          then codes "AMPC-AffineSubstitution-Matrix-v3"
          else codes "AMPC-Permutation-Matrix-v4"),
    )
    ∷ []

unfoldable pub to_json_bytes_py : Dumps → Base64 → HeaderV4 → Bytes
to_json_bytes_py json base64 header = json.dumps (payload_py base64 header)

unfoldable pub pad_py : Bytes → Bytes
pad_py input =
    let left = block_bytes - length input % block_bytes in
    let pad_len = (if left == 0 then block_bytes else left) in input ++ replicate pad_len pad_len

-- A pad length of 1 to 32 cuts the last bytes of data that has at least 32.
unfoldable pub unpad_py : Bytes → Attempt Bytes
unpad_py input = do
  raise_if ((length input == 0) || (length input % block_bytes != 0)) bad_format
  let pad_len = get_or input (length input - 1) 0
  raise_if (ltb pad_len 1 || ltb block_bytes pad_len) not_authentic
  let tail = drop (length input - pad_len) input
  raise_if (not (bytes_eq tail (replicate pad_len pad_len))) not_authentic
  done (take (length input - pad_len) input)

module _ (c : Primitives) where
  open c use {hmac, pbkdf2}

  unfoldable pub derive_keys_py : Bytes → Bytes → ℕ → Attempt (Bytes × Bytes)
  derive_keys_py password salt iterations = do
    raise_if (length password == 0) bad_value
    raise_if (length salt != salt_bytes) bad_value
    raise_if (ltb iterations 1 || ltb max_pbkdf2_iterations iterations) bad_value
    let root = pbkdf2 password salt iterations 64
    done (hmac (take 32 root) (codes "AMPC-ENC"), hmac (drop 32 root) (codes "AMPC-AUTH"))

  -- `rng` is given the number of the call and the size; `fuel` bounds the draws of each rejection
  -- loop of the cipher.
  unfoldable pub encrypt_bytes_py :
      (ℕ → ℕ → Bytes) → Dumps → Base64 → InversePower → ℕ → Bytes → Bytes → ℕ → Attempt Bytes
  encrypt_bytes_py rng json base64 power fuel plain password iterations = do
    raise_if (ltb iterations 1) bad_value
    let salt = rng 0 salt_bytes
    let nonce = rng 1 nonce_bytes
    raise_if ((length salt != salt_bytes) || (length nonce != nonce_bytes)) bad_value
    let header : HeaderV4 = record {
      version = version_v4;
      iterations = iterations;
      salt = salt;
      nonce = nonce;
      original_length = length plain;
    }
    (enc_key, auth_key) ← derive_keys_py password salt iterations
    let padded = pad_py plain
    ciphertext ← encrypt_blocks_py c power fuel padded enc_key nonce version_v4
    let header_bytes = to_json_bytes_py json base64 header
    let tag = hmac auth_key (header_bytes ++ ciphertext)
    header_size ← to_bytes 4 (length header_bytes)
    done (magic_v4 ++ (header_size ++ (header_bytes ++ (ciphertext ++ tag))))
