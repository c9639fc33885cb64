-- ===== src/Reference/Container/Read.antt =====
-- `Header.from_json_bytes` and `decrypt_bytes` of krcm/core.py.
pub mod Header
pub mod Agree
pub mod RoundTrip
use krcm_spn.Base.{
  Bool, Bytes, List, Option, codes, drop, false, leb, length, ltb, none, not, read_be, some,
  starts_with, take, true, ℕ, ◌!=◌, ◌&&◌, ◌++◌, ◌+◌, ◌-◌, ◌==◌, ◌||◌, ◌≡◌,
}
use krcm_spn.Constants.{
  block_bytes, magic_v4, max_header_bytes, max_pbkdf2_iterations, nonce_bytes, rounds, salt_bytes,
  tag_bytes,
}
use krcm_spn.ContainerV4.{PartsV4}
use krcm_spn.HeaderV4.{HeaderV4}
use krcm_spn.Json.{Base64, Field, IsPlainObject, find, number, print_object, text}
use krcm_spn.Primitives.{Primitives}
use krcm_spn.Reference.{
  Attempt, bad_format, bad_value, done, missing_key, not_authentic, raise_if, raised, wrong_type,
  ◌>>=◌, ◌>>◌,
}
use krcm_spn.Reference.Affine.{InversePower}
use krcm_spn.Reference.Blocks.{decrypt_blocks_py}
use krcm_spn.Reference.Container.{derive_keys_py, unpad_py}
use krcm_spn.Reference.Int.{negsuc, pos, pos_part, ℤ}

-- What `from_json_bytes` does with JSON; each may raise an exception. The law is about the objects
-- of texts and numbers that `Dumps` and the crate print.
pub record Loads (base64 : Base64) : Type 1 where
  pub Value : Type 0
  -- `json.loads(data.decode("utf-8"))`
  pub loads : Bytes → Attempt Value
  -- `payload.get(key)` and `payload[key]`
  pub get : Bytes → Value → Attempt (Option Value)
  pub index : Bytes → Value → Attempt Value
  -- `value == text`
  pub is_text : Value → Bytes → Bool
  -- `int(value)` and `base64.b64decode(value, validate=True)`
  pub int : Value → Attempt ℤ
  pub b64decode : Value → Attempt Bytes
  pub loads-print_object :
      (ms : List (Bytes × Field))
      → IsPlainObject ms
      → (payload : Value) × (loads (print_object ms) ≡ done payload)
        × ((key t : Bytes)
            → find key ms ≡ some (text t)
            → (v : Value) × (get key payload ≡ done (some v))
              × (index key payload ≡ done v)
              × (is_text v t ≡ true)
              × ((bytes : Bytes) → base64.decode t ≡ some bytes → b64decode v ≡ done bytes))
        × ((key : Bytes) (n : ℕ)
            → find key ms ≡ some (number n)
            → (v : Value) × (get key payload ≡ done (some v))
              × (index key payload ≡ done v)
              × (int v ≡ done (pos n)))

-- `except (KeyError, ValueError, TypeError, json.JSONDecodeError): raise FormatError`
unfoldable pub refused_as_format {ℓ} : {V : Type ℓ} → Attempt V → Attempt V
refused_as_format (raised bad_value) = raised bad_format
refused_as_format (raised missing_key) = raised bad_format
refused_as_format (raised wrong_type) = raised bad_format
refused_as_format other = other

-- `version in SUPPORTED_VERSIONS`, `n == k` and `n < k` of an integer.
abbrev pub is_supported : ℤ → Bool
is_supported (pos n) = leb 2 n && leb n 4
is_supported (negsuc n) = false

abbrev pub is_int : ℤ → ℕ → Bool
is_int (pos n) k = n == k
is_int (negsuc n) k = false

abbrev pub is_negative : ℤ → Bool
is_negative (pos n) = false
is_negative (negsuc n) = true

module _ (base64 : Base64) (json : Loads base64) where
  open json use {Value, loads, get, index, is_text, int, b64decode}

  abbrev pub is_magic : Option Value → Bool
  is_magic none = false
  is_magic (some v) = is_text v (codes "AMPCRYPT")

  -- `int(payload.get("rounds", -1))`
  abbrev pub int_or_negative : Option Value → Attempt ℤ
  int_or_negative none = done (negsuc 0)
  int_or_negative (some v) = int v

  unfoldable pub read_payload : Bytes → Attempt HeaderV4
  read_payload input = do
    payload ← loads input
    magic ← get (codes "magic") payload
    raise_if (not (is_magic magic)) bad_format
    version_value ← index (codes "version") payload
    version ← int version_value
    raise_if (not (is_supported version)) bad_format
    size_value ← index (codes "block_bytes") payload
    size ← int size_value
    raise_if (not (is_int size block_bytes)) bad_format
    rounds_value ← get (codes "rounds") payload
    rounds_int ← int_or_negative rounds_value
    raise_if (not (is_int rounds_int rounds)) bad_format
    salt_value ← index (codes "salt") payload
    salt ← b64decode salt_value
    nonce_value ← index (codes "nonce") payload
    nonce ← b64decode nonce_value
    raise_if ((length salt != salt_bytes) || (length nonce != nonce_bytes)) bad_format
    length_value ← index (codes "original_length") payload
    original_length ← int length_value
    iterations_value ← index (codes "iterations") payload
    iterations ← int iterations_value
    raise_if
        (is_negative original_length
          || (ltb (pos_part iterations) 1 || ltb max_pbkdf2_iterations (pos_part iterations)))
        bad_format
    done (record {
      version = pos_part version;
      iterations = pos_part iterations;
      salt = salt;
      nonce = nonce;
      original_length = pos_part original_length;
    })

  unfoldable pub from_json_bytes_py : Bytes → Attempt HeaderV4
  from_json_bytes_py input = refused_as_format (read_payload input)

  -- `decrypt_bytes` up to the tag.
  unfoldable pub read_bytes_py : Bytes → Attempt PartsV4
  read_bytes_py blob = do
    raise_if (ltb (length blob) (8 + 4 + tag_bytes)) bad_format
    raise_if (not (starts_with blob magic_v4)) bad_format
    let header_len = read_be 4 blob 8
    let start = 8 + 4
    let end = start + header_len
    raise_if
        (((header_len == 0) || ltb max_header_bytes header_len)
          || ltb (length blob) (end + tag_bytes))
        bad_format
    let header_bytes = take (end - start) (drop start blob)
    header ← from_json_bytes_py header_bytes
    let ciphertext = take (length blob - tag_bytes - end) (drop end blob)
    let tag = drop (length blob - tag_bytes) blob
    done (record {
      header_bytes = header_bytes;
      header = header;
      ciphertext = ciphertext;
      tag = tag;
    })

-- `decrypt_bytes` from the tag on. The tags are compared as the crate compares them.
module _ (c : Primitives) (power : InversePower) (fuel : ℕ) where
  unfoldable pub open_bytes_py : PartsV4 → Bytes → Attempt Bytes
  open_bytes_py parts password = do
    let header = parts.header
    (enc_key, auth_key) ← derive_keys_py c password header.salt header.iterations
    let expected = c.hmac auth_key (parts.header_bytes ++ parts.ciphertext)
    raise_if (not (c.ct_eq parts.tag expected)) not_authentic
    padded ← decrypt_blocks_py c power fuel parts.ciphertext enc_key header.nonce header.version
    plain ← unpad_py padded
    raise_if (length plain != header.original_length) not_authentic
    done plain

unfoldable pub decrypt_bytes_py :
    Primitives → (base64 : Base64) → Loads base64 → InversePower → ℕ → Bytes → Bytes → Attempt Bytes
decrypt_bytes_py c base64 json power fuel blob password =
    read_bytes_py base64 json blob >>= λ parts. open_bytes_py c power fuel parts password
